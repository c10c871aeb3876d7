-- ===== src/Erl/Limiter/Admission.antt =====
-- When a kernel is admitted, and what it is charged.
use vgpu_rs.Base.{
  ℕ, ◌≡◌, refl, ap, ◌∙◌, inl, inr, true, false, not, Option, some, if◌then◌else◌, Bool-cases,
}
use vgpu_rs.Float.{Float}
use vgpu_rs.Float.Laws.{max-ge}
use vgpu_rs.Device.Tokens.{sub_value}
use vgpu_rs.Erl.{DeviceBackend, TokenStore, Account, with_tokens, success}
use vgpu_rs.Erl.Limiter.{
  KernelLimiterConfig, estimate_kernel_cost, try_acquire_at, current_tokens, map_result,
}

module _ (f : Float) where
  open f use {F, lt, le, le_lem, is_nan}

  -- Whatever the curve gives, no kernel costs less than the configured minimum, if that is a number.
  pub estimate_kernel_cost-ge :
      (cfg : KernelLimiterConfig f) (grid_count block_count : ℕ)
      → is_nan cfg.min_cost ≡ false
      → le cfg.min_cost (estimate_kernel_cost f cfg grid_count block_count) ≡ true
  unfolding estimate_kernel_cost
  estimate_kernel_cost-ge cfg grid_count block_count number = max-ge f _ cfg.min_cost number

  module _ {S : Type 0} (backend : DeviceBackend f S) (device : ℕ)
      (account : S → Option (Account f)) (store : TokenStore f backend device account) where
    -- If the tokens of the account and the cost of the kernel are numbers, a backend that keeps its
    -- promise about the device answers the request: it admits the kernel exactly if there is at
    -- least the cost; then it takes the cost off the tokens, and if not it takes nothing. Nothing
    -- else of the account changes, and `current_tokens` shows the tokens that are left.
    pub try_acquire_at-Admission :
        (cfg : KernelLimiterConfig f) (s : S) (a : Account f) (grid_count block_count : ℕ) (now : F)
        → account s ≡ some a
        → is_nan a.state.tokens ≡ false
        → is_nan (estimate_kernel_cost f cfg grid_count block_count) ≡ false
        → let cost = estimate_kernel_cost f cfg grid_count block_count in
          let admitted = le cost a.state.tokens in
          let left = if admitted then sub_value f a.state.tokens cost else a.state.tokens in
          (s' : S) × (try_acquire_at f backend cfg s device grid_count block_count now
            ≡ (s', success admitted))
          × (account s' ≡ some (with_tokens f a left))
          × (current_tokens f backend s' device ≡ success left)
    unfolding try_acquire_at current_tokens map_result
    try_acquire_at-Admission cfg s a grid_count block_count now h number fine =
        let cost = estimate_kernel_cost f cfg grid_count block_count in
        let (s', call, after) = store.subtracts s a cost h in
        let admits : le cost a.state.tokens ≡ not (lt a.state.tokens cost) =
          le_lem cost a.state.tokens ∙ rw (fine, number) refl in
        let charged : account s'
            ≡ some (
                with_tokens f a (
                  if le cost a.state.tokens
                  then sub_value f a.state.tokens cost
                  else a.state.tokens)) =
          after ∙ (elim (Bool-cases (lt a.state.tokens cost)) [
            | inl less ↦ rw (admits, less) refl
            | inr enough ↦ rw (admits, enough) refl
          ]) in
        (
          s',
          ap (λ r. (r.0, map_result (λ before. le cost before) r.1)) call,
          charged,
          ap (map_result (λ state. state.tokens)) (store.reads_tokens s' _ charged),
        )
