-- ===== src/Erl/Controller/Terms.antt =====
-- The parts of an update.
use vgpu_rs.Base.{◌≡◌, refl, ap, ◌∙◌, inl, inr, false, Option, some, if◌then◌else◌, Bool-cases, ok}
use vgpu_rs.Float.{Float, max, clamp, IsNanOrWithin}
use vgpu_rs.Float.Laws.{clamp-IsNanOrWithin}
use vgpu_rs.Erl.{TokenState, DeviceBackend, TokenStore, Account, with_tokens, success}
use vgpu_rs.Erl.Run.{Run, give, check, ◌>>=◌, after}
use vgpu_rs.Erl.Controller.{DeviceController}
use vgpu_rs.Erl.Controller.Checks.{IsSteady, rates_ordered, sign_ordered, half_ordered}
use vgpu_rs.Erl.Controller.Steps.{
  calculate_base_rate, compute_pid_correction, clamp_tokens_to_capacity, estimate_drain_rate,
  controller, change, on_device,
}

module _ (f : Float) where
  open f use {F, ratio, lt, le, add, sub, mul, div, neg, lt_irrefl}

  -- With rate bounds in order the base rate is computed without a panic.
  pub base_rate-ok :
      (c : DeviceController f) (smoothed drain : F)
      → IsSteady f c
      → (base : F) × (calculate_base_rate f c smoothed drain ≡ ok base)
  unfolding calculate_base_rate
  base_rate-ok c smoothed drain steady = elim (Bool-cases (lt (ratio 1 100) smoothed)) [
    | inl busy ↦
        let (base, clamped, _) =
          clamp-IsNanOrWithin f (mul drain (div c.cfg.target_utilization smoothed)) c.cfg.rate_min
            c.cfg.rate_max (rates_ordered f c.cfg steady.sound) in
        (base, rw busy clamped)
    | inr idle ↦ (max f c.current_rate c.cfg.rate_min, rw idle refl)
  ]

  module _ {S : Type 0} (backend : DeviceBackend f S) where
    -- The correction lies within [-0.5, 0.5] or is a NaN, and the integral within [-1, 1] or is a NaN;
    -- nothing but the integral and the last error changes.
    pub compute_pid_correction-IsNanOrWithin :
        (s : S) (c : DeviceController f) (error delta : F)
        → (integral : F) × (correction : F) × (compute_pid_correction f backend error delta (s, c)
            ≡ ok ((s, record c { integral = integral; last_error = error }), success correction))
          × IsNanOrWithin f (neg (ratio 1 1)) (ratio 1 1) integral
          × IsNanOrWithin f (neg (ratio 1 2)) (ratio 1 2) correction
    unfolding compute_pid_correction controller change ◌>>=◌ after check
    compute_pid_correction-IsNanOrWithin s c error delta =
        let (integral, first, bounded) =
          clamp-IsNanOrWithin f (add (mul c.integral c.cfg.integral_decay_factor) (mul error delta))
            (neg (ratio 1 1)) (ratio 1 1) (sign_ordered f) in
        let (correction, second, small) =
          clamp-IsNanOrWithin f
            (add (add (mul c.cfg.kp error) (mul c.cfg.ki integral))
              (mul c.cfg.kd (div (sub error c.last_error) delta)))
            (neg (ratio 1 2)) (ratio 1 2) (half_ordered f) in
        let rest : F → Run (S × DeviceController f) F = λ integral. (do
          _ ← change f backend (λ c. record c { integral = integral; last_error = error })
          check (
              clamp f
                (add (add (mul c.cfg.kp error) (mul c.cfg.ki integral))
                  (mul c.cfg.kd (div (sub error c.last_error) delta)))
                (neg (ratio 1 2)) (ratio 1 2))) in
        (
          integral,
          correction,
          ap (λ o. after (check o (s, c)) rest) first
              ∙ ap (λ o. check o (s, record c { integral = integral; last_error = error })) second,
          bounded,
          small,
        )

    -- After the clamp the tokens do not compare above the capacity, and nothing else has changed.
    pub clamp_tokens-Gives :
        (s : S) (c : DeviceController f) (account : S → Option (Account f))
        (store : TokenStore f backend c.device account) (a : Account f)
        → account s ≡ some a
        → (s' : S) × (tokens : F) × (clamp_tokens_to_capacity f backend a.quota.capacity (s, c)
            ≡ ok ((s', c), success tt))
          × (account s' ≡ some (with_tokens f a tokens))
          × (lt a.quota.capacity tokens ≡ false)
    unfolding clamp_tokens_to_capacity on_device ◌>>=◌ after give
    clamp_tokens-Gives s c account store a h =
        let read = store.reads_tokens s a h in
        let rest : TokenState f → Run (S × DeviceController f) (Unit {0}) = λ t.
          if lt a.quota.capacity t.tokens
          then on_device f backend (λ s device.
            backend.write_token_state s device (record t { tokens = a.quota.capacity }))
          else give tt in
        elim (Bool-cases (lt a.quota.capacity a.state.tokens)) [
          | inl over ↦
              let (s', written, shown) =
                store.writes_tokens s a (record a.state { tokens = a.quota.capacity }) h in
              (
                s',
                a.quota.capacity,
                ap (λ r. after (ok ((s, c), r)) rest) read
                    ∙ rw over (ap (λ r. ok ((r.0, c), r.1)) written),
                shown,
                lt_irrefl a.quota.capacity,
              )
          | inr fits ↦ (
            s,
            a.state.tokens,
            ap (λ r. after (ok ((s, c), r)) rest) read ∙ rw fits refl,
            h,
            fits,
          )
        ]

    -- The estimate reads the tokens and remembers them.
    pub estimate_drain_rate-ok :
        (s : S) (c : DeviceController f) (account : S → Option (Account f))
        (store : TokenStore f backend c.device account) (a : Account f) (delta : F)
        → account s ≡ some a
        → (drain : F) × (estimate_drain_rate f backend delta (s, c)
            ≡ ok ((s, record c { last_token_level = a.state.tokens }), success drain))
    unfolding estimate_drain_rate on_device controller change ◌>>=◌ after give
    estimate_drain_rate-ok s c account store a delta h =
        let rest : TokenState f → Run (S × DeviceController f) F = λ t. (do
          c ← controller f backend
          _ ← change f backend (λ c. record c { last_token_level = t.tokens })
          give (
              max f (div (sub (add c.last_token_level (mul c.current_rate delta)) t.tokens) delta)
                (ratio 0 1))) in
        (
          max f (div (sub (add c.last_token_level (mul c.current_rate delta)) a.state.tokens) delta)
              (ratio 0 1),
          ap (λ r. after (ok ((s, c), r)) rest) (store.reads_tokens s a h),
        )
