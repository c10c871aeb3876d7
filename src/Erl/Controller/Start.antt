-- ===== src/Erl/Controller/Start.antt =====
-- What a new controller starts with.
use vgpu_rs.Base.{
  ℕ, ◌≡◌, refl, sym, subst, ap, ◌∙◌, ◌⊎◌, inl, inr, true, false, Option, some, Bool-cases, ok,
  panic,
}
use vgpu_rs.Float.{Float, in_bounds}
use vgpu_rs.Float.Laws.{clamp-IsNanOrWithin, clamp_within, clamp_panic}
use vgpu_rs.Erl.{DeviceBackend, TokenStore, Account, Gives, Result, failure, invalid_configuration}
use vgpu_rs.Erl.Run.{give, fail, check, ◌>>=◌, after, Yields, bind-Yields}
use vgpu_rs.Erl.Controller.{
  DeviceControllerConfig, is_valid, DeviceController, capacity_of, start_rate, on_backend,
  initialize, new,
}
use vgpu_rs.Erl.Controller.Checks.{IsSound, IsSteady, start_rate_within}

module _ (f : Float) where
  open f use {F, ratio, lt, le, mul, is_nan}

  -- The capacity is clamped between bounds in order.
  pub capacity_of-Yields :
      {W : Type 0} (cfg : DeviceControllerConfig f) (rate : F) (w : W)
      → IsSound f cfg
      → Yields
          (check (capacity_of f cfg rate) w)
          (λ w' x. (w' ≡ w) × (capacity_of f cfg rate ≡ ok x))
  unfolding capacity_of check
  capacity_of-Yields cfg rate w sound =
      let (x, clamped, _) =
        clamp-IsNanOrWithin f _ cfg.capacity_min cfg.capacity_max sound.capacities in
      (w, x, ap (λ o. check o w) clamped, (refl, clamped))

  module _ {S : Type 0} (backend : DeviceBackend f S) (device : ℕ)
      (account : S → Option (Account f)) (store : TokenStore f backend device account) where
    on_backend-Yields :
        {R : Type 0} (call : S → S × Result R) (s : S) (r : R) (b : Account f)
        → Gives f account (call s) r b
        → Yields (on_backend f backend call s) (λ s' x. (x ≡ r) × (account s' ≡ some b))
    on_backend-Yields call s r b (s', done, shown) = (s', r, ap ok done, (refl, shown))

    -- What a new controller and its device have: the first rate, the capacity that belongs to it, and
    -- as many tokens.
    pub record IsStarted (cfg : DeviceControllerConfig f) (s : S) (c : DeviceController f)
        : Type 0 where
      pub same_cfg : c.cfg ≡ cfg
      pub same_device : c.device ≡ device
      pub rate : c.current_rate ≡ start_rate f cfg
      pub left : Account f
      pub present : account s ≡ some left
      pub refill : left.quota.refill_rate ≡ start_rate f cfg
      pub capacity : capacity_of f cfg (start_rate f cfg) ≡ ok left.quota.capacity
      pub tokens : left.state.tokens ≡ left.quota.capacity

    initialize-IsStarted :
        (cfg : DeviceControllerConfig f) (s : S) (a : Account f)
        → IsSound f cfg
        → account s ≡ some a
        → Yields (initialize f backend device cfg s) (IsStarted cfg)
    unfolding initialize give
    initialize-IsStarted cfg s a sound h =
        let start = start_rate f cfg in
        bind-Yields _ _ s (capacity_of-Yields cfg start s sound) (λ s0 initial (same, capped).
          bind-Yields _ _ s0
            (on_backend-Yields (λ s. backend.write_capacity s device initial) s0 tt _
              (store.writes_capacity s0 a initial (ap account same ∙ h)))
            (λ s1 _ (_, shown1).
              bind-Yields _ _ s1
                (on_backend-Yields (λ s. backend.write_refill_rate s device start) s1 tt _
                  (store.writes_rate s1 _ start shown1))
                (λ s2 _ (_, shown2).
                  bind-Yields _ _ s2
                    (on_backend-Yields (λ s. (s, backend.read_token_state s device)) s2 _ _
                      (s2, ap (λ r. (s2, r)) (store.reads_tokens s2 _ shown2), shown2))
                    (λ s3 token_state (_, shown3).
                      bind-Yields _ _ s3
                        (on_backend-Yields
                          (λ s.
                            backend.write_token_state s device
                              (record token_state { tokens = initial }))
                          s3 tt _
                          (store.writes_tokens s3 _ (record token_state { tokens = initial })
                            shown3))
                        (λ s4 _ (_, shown4). (
                          s4,
                          _,
                          refl,
                          record {
                            same_cfg = refl;
                            same_device = refl;
                            rate = refl;
                            left = _;
                            present = shown4;
                            refill = refl;
                            capacity = capped;
                            tokens = refl;
                          },
                        ))))))

    -- With a sound configuration, a `new` controller starts.
    pub new-IsStarted :
        (cfg : DeviceControllerConfig f) (s : S) (a : Account f)
        → IsSound f cfg
        → account s ≡ some a
        → Yields (new f backend device cfg s) (IsStarted cfg)
    unfolding new
    new-IsStarted cfg s a sound h = rw (sound.valid, new) (initialize-IsStarted cfg s a sound h)

    pub IsStarted-IsSteady :
        (cfg : DeviceControllerConfig f) (s : S) (c : DeviceController f)
        → IsSound f cfg
        → IsStarted cfg s c
        → IsSteady f c
    IsStarted-IsSteady cfg s c sound started =
        let (above, below) = start_rate_within f cfg sound in
        record {
          sound = subst (IsSound f) (sym started.same_cfg) sound;
          rate = rw (started.same_cfg, started.rate) (in_bounds above below);
        }

    -- With a sound configuration of which the first rate times the burst window is not a NaN, and a
    -- device that a backend has and keeps its promise about, `new` succeeds. The controller has the
    -- given configuration and device, and its rate is a number between the configured bounds, so that
    -- it is steady; the device has this rate, a capacity that is a number between the bounds, and
    -- exactly as many tokens as its capacity.
    pub new-IsSteady :
        (cfg : DeviceControllerConfig f) (s : S) (a : Account f)
        → IsSound f cfg
        → is_nan (mul (start_rate f cfg) cfg.burst_window) ≡ false
        → account s ≡ some a
        → Yields (new f backend device cfg s) (λ s' c.
          (c.cfg ≡ cfg)
          × (c.device ≡ device)
          × IsSteady f c
          × (le cfg.rate_min c.current_rate ≡ true)
          × (le c.current_rate cfg.rate_max ≡ true)
          × ((b : Account f) × (account s' ≡ some b)
              × (b.quota.refill_rate ≡ c.current_rate)
              × (le cfg.capacity_min b.quota.capacity ≡ true)
              × (le b.quota.capacity cfg.capacity_max ≡ true)
              × (b.state.tokens ≡ b.quota.capacity)))
    unfolding capacity_of
    new-IsSteady cfg s a sound number h =
        let (s', c, at, started) = new-IsStarted cfg s a sound h in
        let (above, below) = start_rate_within f cfg sound in
        let (y, clamped, low, high) =
          clamp_within f (mul (start_rate f cfg) cfg.burst_window) cfg.capacity_min cfg.capacity_max
            sound.capacities number in
        let same : y ≡ started.left.quota.capacity =
          let e : ok y ≡ ok started.left.quota.capacity = sym clamped ∙ started.capacity in cc in
        (
          s',
          c,
          at,
          (
            started.same_cfg,
            started.same_device,
            IsStarted-IsSteady cfg s' c sound started,
            rw started.rate above,
            rw started.rate below,
            (
              started.left,
              started.present,
              started.refill ∙ sym started.rate,
              rw (← same) low,
              rw (← same) high,
              started.tokens,
            ),
          ),
        )

  module _ {S : Type 0} (backend : DeviceBackend f S) where
    -- Of any configuration and any backend: either a check fails, and `new` refuses it as invalid
    -- before anything is written; or the minimal capacity is not below or equal to the maximal one,
    -- and `new` panics; or the checks pass and the capacities are in order.
    pub new_cases :
        (device : ℕ) (cfg : DeviceControllerConfig f) (s : S)
        → ((is_valid f cfg ≡ false)
            × (new f backend device cfg s ≡ ok (s, failure invalid_configuration)))
          ⊎ ((le cfg.capacity_min cfg.capacity_max ≡ false) × (new f backend device cfg s ≡ panic))
          ⊎ ((is_valid f cfg ≡ true) × (le cfg.capacity_min cfg.capacity_max ≡ true))
    unfolding new initialize capacity_of ◌>>=◌ after check fail
    new_cases device cfg s = elim (Bool-cases (is_valid f cfg)) [
      | inr invalid ↦ inl (invalid, rw (invalid, new) refl)
      | inl valid ↦ elim (Bool-cases (le cfg.capacity_min cfg.capacity_max)) [
        | inr disordered ↦ inr (
            inl (
              disordered,
              rw (valid, clamp_panic f _ cfg.capacity_min cfg.capacity_max disordered, new) refl,
            ))
        | inl ordered ↦ inr (inr (valid, ordered))
      ]
    ]
