-- ===== src/Erl/Limiter.antt =====
-- `KernelLimiter`, which a client asks before it launches a kernel (crates/erl/src/limiter.rs).
pub mod Admission
use vgpu_rs.Base
use vgpu_rs.Base.{ℕ, Bool}
use vgpu_rs.Float.{Float, max}
use vgpu_rs.Erl.{Result, success, failure, DeviceBackend}

-- The result of a call, changed.
unfoldable pub map_result : {A B : Type 0} → (A → B) → Result A → Result B
map_result g (success a) = success (g a)
map_result g (failure e) = failure e

module _ (f : Float) where
  open f use {F, ratio, le, add, sub, mul, div, neg, exp, of_nat, epsilon}

  pub record KernelLimiterConfig : Type 0 where
    pub min_cost : F
    pub max_cost : F
    pub curve_scale : F

  unfoldable pub default_config : KernelLimiterConfig
  default_config = record {
    min_cost = ratio 1 10;
    max_cost = ratio 10 1;
    curve_scale = ratio 400000 1;
  }

  unfoldable pub estimate_kernel_cost : KernelLimiterConfig → ℕ → ℕ → F
  estimate_kernel_cost cfg grid_count block_count =
      let total_threads = mul (of_nat (Base.max grid_count 1)) (of_nat (Base.max block_count 1)) in
      let scale = max f cfg.curve_scale epsilon in
      let curve = sub (ratio 1 1) (exp (neg (div total_threads scale))) in
      let span = max f (sub cfg.max_cost cfg.min_cost) (ratio 0 1) in
      let cost = add cfg.min_cost (mul curve span) in max f cost cfg.min_cost

  module _ {S : Type 0} (backend : DeviceBackend f S) where
    -- `try_acquire_at`, which does not look at the time; `try_acquire` calls it with the present.
    unfoldable pub try_acquire_at : KernelLimiterConfig → S → ℕ → ℕ → ℕ → F → S × Result Bool
    unfolding map_result
    try_acquire_at cfg s device grid_count block_count now =
        let cost = estimate_kernel_cost cfg grid_count block_count in
        let (s', tokens_before) = backend.fetch_sub_tokens s device cost in
        (s', map_result (λ before. le cost before) tokens_before)

    unfoldable pub current_tokens : S → ℕ → Result F
    unfolding map_result
    current_tokens s device = map_result (λ state. state.tokens) (backend.read_token_state s device)
