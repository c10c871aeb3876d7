-- ===== src/Erl/Controller/Internal.antt =====
-- What a full update leaves.
use vgpu_rs.Base.{sym, subst, ℕ, ◌≡◌, refl, ap, ◌∙◌, false, Option, some, ok}
use vgpu_rs.Float.{Float, IsNanOrWithin}
use vgpu_rs.Float.Laws.{clamp-IsNanOrWithin, not_above}
use vgpu_rs.Erl.{DeviceBackend, TokenStore, Account, Result, success}
use vgpu_rs.Erl.Run.{Run, give, ◌>>=◌, after, Yields, step-Yields, check-Yields}
use vgpu_rs.Erl.Controller.{DeviceController, DeviceControllerState, capacity_of}
use vgpu_rs.Erl.Controller.Checks.{IsSteady, IsRegulated, rates_ordered, unit_ordered}
use vgpu_rs.Erl.Controller.Terms.{
  base_rate-ok, estimate_drain_rate-ok, compute_pid_correction-IsNanOrWithin, clamp_tokens-Gives,
}
use vgpu_rs.Erl.Controller.Steps.{
  smoothed_value, compute_pid_correction, controller, change, on_device, smooth_utilization,
  estimate_drain_rate, publish, update_internal,
}

module _ (f : Float) where
  open f use {F, ratio, lt, le, add, sub, mul, div, neg}

  module _ {S : Type 0} (backend : DeviceBackend f S) where
    -- A call for the controller's device.
    device-Yields :
        {A B : Type 0} (call : S → ℕ → S × Result A) (k : A → Run (S × DeviceController f) B)
        (s s' : S) (c : DeviceController f) (a : A) {Q : S × DeviceController f → B → Type 0}
        → call s c.device ≡ (s', success a)
        → Yields (k a (s', c)) Q
        → Yields ((on_device f backend call >>= k) (s, c)) Q
    unfolding on_device
    device-Yields call k s s' c a done next =
        step-Yields (on_device f backend call) k (s, c) (s', c) a
          (ap (λ r. ok ((r.0, c), r.1)) done) next

    -- What a full update leaves: the configuration, the device and the
    -- timestamp; a rate that lies between the bounds or is a NaN, which the result shows; an integral
    -- that lies within [-1, 1] or is a NaN; and a device that has this rate, the capacity that
    -- belongs to it, which lies between the bounds or is a NaN and which the result shows, and at most as many tokens as that,
    -- unless these or the capacity are a NaN.
    pub record IsUpdated (c : DeviceController f) (account : S → Option (Account f))
        (w : S × DeviceController f) (st : DeviceControllerState f) : Type 0 where
      pub same_cfg : w.1.cfg ≡ c.cfg
      pub same_device : w.1.device ≡ c.device
      pub same_time : w.1.last_timestamp ≡ c.last_timestamp
      pub steady : IsSteady f w.1
      pub integral : IsNanOrWithin f (neg (ratio 1 1)) (ratio 1 1) w.1.integral
      pub shown_rate : st.current_rate ≡ w.1.current_rate
      pub left : Account f
      pub present : account w.0 ≡ some left
      pub regulated : IsRegulated f w.1 left
      pub fitted : capacity_of f c.cfg w.1.current_rate ≡ ok left.quota.capacity
      pub shown_capacity : st.current_capacity ≡ left.quota.capacity

    -- The last steps: the device has the new rate and capacity, and tokens that do not compare
    -- above the capacity.
    publish-Yields :
        (s : S) (c : DeviceController f) (account : S → Option (Account f))
        (store : TokenStore f backend c.device account) (a : Account f) (rate capacity delta : F)
        → account s ≡ some a
        → Yields (publish f backend rate capacity delta (s, c)) (λ w u.
          (w.1 ≡ c)
          × ((b : Account f) × (account w.0 ≡ some b)
              × (b.quota ≡ record { capacity = capacity; refill_rate = rate })
              × (lt capacity b.state.tokens ≡ false)))
    unfolding publish
    publish-Yields s c account store a rate capacity delta h =
        let (s1, p1, h1) = store.adds s a (mul rate delta) h in
        device-Yields (λ s device. backend.fetch_add_tokens s device (mul rate delta)) _ s s1 c _ p1
          (let (s2, p2, h2) = store.writes_rate s1 _ rate h1 in
            device-Yields (λ s device. backend.write_refill_rate s device rate) _ s1 s2 c tt p2
              (let (s3, p3, h3) = store.writes_capacity s2 _ capacity h2 in
                device-Yields (λ s device. backend.write_capacity s device capacity) _ s2 s3 c tt p3
                  (let (s4, tokens, p4, h4, fits) =
                      clamp_tokens-Gives f backend s3 c account store _ h3 in
                    ((s4, c), tt, p4, (refl, (_, h4, refl, fits))))))

    publish-ok :
        (s : S) (c : DeviceController f) (account : S → Option (Account f))
        (store : TokenStore f backend c.device account) (a : Account f) (rate capacity delta : F)
        → account s ≡ some a
        → (s' : S) × (b : Account f) × (publish f backend rate capacity delta (s, c)
            ≡ ok ((s', c), success tt))
          × (account s' ≡ some b)
          × (b.quota ≡ record { capacity = capacity; refill_rate = rate })
          × (lt capacity b.state.tokens ≡ false)
    publish-ok s c account store a rate capacity delta h =
        let (w, u, at, (same, (b, present, quota, fits))) =
          publish-Yields s c account store a rate capacity delta h in
        (w.0, b, at ∙ ap (λ c. ok ((w.0, c), success tt)) same, present, quota, fits)

    module _ (c : DeviceController f) (account : S → Option (Account f))
        (store : TokenStore f backend c.device account) where
      pub update_internal-IsUpdated :
          (s : S) (a : Account f) (utilization delta : F)
          → IsSteady f c
          → account s ≡ some a
          → Yields (update_internal f backend utilization delta (s, c)) (IsUpdated c account)
      unfolding update_internal smooth_utilization controller change capacity_of ◌>>=◌ after give
      update_internal-IsUpdated s a utilization delta steady h =
          let (measured, p0, _) =
            clamp-IsNanOrWithin f utilization (ratio 0 1) (ratio 1 1) (unit_ordered f) in
          check-Yields _ _ (s, c) measured p0
            (let smoothed : F = smoothed_value f c measured in
              let c1 : DeviceController f = record c { smoothed_util = some smoothed } in
              let (drain, p1) = estimate_drain_rate-ok f backend s c1 account store a delta h in
              let c2 : DeviceController f = record c1 { last_token_level = a.state.tokens } in
              step-Yields (estimate_drain_rate f backend delta) _ (s, c1) (s, c2) drain p1
                (let (base, p2) =
                    base_rate-ok f c2 smoothed drain
                      (record { sound = steady.sound; rate = steady.rate }) in
                  check-Yields _ _ (s, c2) base p2
                    (let error : F = sub c.cfg.target_utilization smoothed in
                      let (integral, correction, p3, bounded, _) =
                        compute_pid_correction-IsNanOrWithin f backend s c2 error delta in
                      let c3 : DeviceController f = record c2 {
                        integral = integral;
                        last_error = error;
                      } in
                      step-Yields (compute_pid_correction f backend error delta) _ (s, c2) (s, c3)
                        correction p3
                        (let (rate, p4, rate_within) =
                            clamp-IsNanOrWithin f (mul base (add (ratio 1 1) correction))
                              c.cfg.rate_min c.cfg.rate_max (rates_ordered f c.cfg steady.sound) in
                          let c4 : DeviceController f = record c3 { current_rate = rate } in
                          check-Yields _ _ (s, c3) rate p4
                            (let (capacity, p5, capacity_within) =
                                clamp-IsNanOrWithin f (mul rate c.cfg.burst_window)
                                  c.cfg.capacity_min c.cfg.capacity_max steady.sound.capacities in
                              check-Yields _ _ (s, c4) capacity p5
                                (let (s', b, p6, present, quota, fits) =
                                    publish-ok s c4 account store a rate capacity delta h in
                                  step-Yields (publish f backend rate capacity delta) _ (s, c4)
                                    (s', c4) tt p6
                                    (
                                      (s', c4),
                                      st smoothed rate capacity drain,
                                      refl,
                                      record {
                                        same_cfg = refl;
                                        same_device = refl;
                                        same_time = refl;
                                        steady = record {
                                          sound = steady.sound;
                                          rate = rate_within;
                                        };
                                        integral = bounded;
                                        shown_rate = refl;
                                        left = b;
                                        present = present;
                                        regulated = record {
                                          refill = ap (λ q. q.refill_rate) quota;
                                          capacity =
                                              subst
                                                (IsNanOrWithin f c.cfg.capacity_min
                                                  c.cfg.capacity_max)
                                                (sym (ap (λ q. q.capacity) quota)) capacity_within;
                                          tokens =
                                              not_above f b.state.tokens b.quota.capacity (
                                                ap (λ q. lt q.capacity b.state.tokens) quota
                                                ∙ fits);
                                        };
                                        fitted = p5 ∙ ap (λ q. ok q.capacity) (sym quota);
                                        shown_capacity = sym (ap (λ q. q.capacity) quota);
                                      },
                                    )))))))
        where
          st : F → F → F → F → DeviceControllerState f
          st smoothed rate capacity drain = record {
            target_utilization = c.cfg.target_utilization;
            smoothed_utilization = smoothed;
            current_rate = rate;
            current_capacity = capacity;
            token_drain_rate = drain;
          }
