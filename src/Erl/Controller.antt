-- ===== src/Erl/Controller.antt =====
-- `DeviceController`, which sets the refill rate of a device (crates/erl/src/hypervisor.rs). The state
-- of a call is that of the shared storage and the controller. The log lines are left out.
pub mod Steps
pub mod Checks
pub mod Start
pub mod Terms
pub mod Internal
pub mod Update
use vgpu_rs.Base.{
  ℕ, Bool, not, ◌&&◌, ◌||◌, true, false, Option, none, some, if◌then◌else◌, Outcome, ok,
}
use vgpu_rs.Float.{Float, max, min, clamp}
use vgpu_rs.Erl.{
  RateLimitError, invalid_configuration, Result, success, failure, TokenState, DeviceBackend,
}
use vgpu_rs.Erl.Run.{Run, give, fail, check, ◌>>=◌}

module _ (f : Float) where
  open f use {F, ratio, lt, le, add, sub, mul, div, neg, of_nat}

  pub record DeviceControllerConfig : Type 0 where
    pub target_utilization : F
    pub rate_min : F
    pub rate_max : F
    pub kp : F
    pub ki : F
    pub kd : F
    pub filter_alpha : F
    pub burst_window : F
    pub capacity_min : F
    pub capacity_max : F
    pub min_delta_time : F
    pub integral_decay_factor : F

  unfoldable pub default_config : DeviceControllerConfig
  default_config = record {
    target_utilization = ratio 1 2;
    rate_min = ratio 10 1;
    rate_max = ratio 100000 1;
    kp = ratio 1 2;
    ki = ratio 1 10;
    kd = ratio 5 100;
    filter_alpha = ratio 3 10;
    burst_window = ratio 2 1;
    capacity_min = ratio 100 1;
    capacity_max = ratio 200000 1;
    min_delta_time = ratio 5 100;
    integral_decay_factor = ratio 95 100;
  }

  pub record DeviceControllerState : Type 0 where
    pub target_utilization : F
    pub smoothed_utilization : F
    pub current_rate : F
    pub current_capacity : F
    pub token_drain_rate : F

  pub record DeviceController : Type 0 where
    pub device : ℕ
    pub cfg : DeviceControllerConfig
    pub integral : F
    pub last_error : F
    pub smoothed_util : Option F
    pub current_rate : F
    pub last_token_level : F
    pub last_timestamp : Option F

  -- `(0.0..=1.0).contains(&x)`
  unfoldable pub in_unit : F → Bool
  in_unit x = le (ratio 0 1) x && le x (ratio 1 1)

  -- The four checks of `new`, in their order.
  unfoldable pub is_valid : DeviceControllerConfig → Bool
  is_valid cfg =
      if not (in_unit cfg.target_utilization)
      then false
      else (if (le cfg.rate_min (ratio 0 1) || le cfg.rate_max cfg.rate_min)
          then false
          else (if not (in_unit cfg.filter_alpha)
              then false
              else (if not (in_unit cfg.integral_decay_factor) then false else true)))

  unfoldable pub capacity_of : DeviceControllerConfig → F → Outcome F
  capacity_of cfg rate = clamp f (mul rate cfg.burst_window) cfg.capacity_min cfg.capacity_max

  unfoldable pub start_rate : DeviceControllerConfig → F
  start_rate cfg = max f (min f (ratio 100 1) cfg.rate_max) cfg.rate_min

  module _ {S : Type 0} (backend : DeviceBackend f S) where
    -- A call of the backend.
    abbrev pub on_backend : {A : Type 0} → (S → S × Result A) → Run S A
    on_backend call s = ok (call s)

    -- What `new` does after its checks.
    unfoldable pub initialize : ℕ → DeviceControllerConfig → Run S DeviceController
    initialize device cfg = do
      let start = start_rate cfg
      initial_capacity ← check (capacity_of cfg start)
      _ ← on_backend (λ s. backend.write_capacity s device initial_capacity)
      _ ← on_backend (λ s. backend.write_refill_rate s device start)
      token_state ← on_backend (λ s. (s, backend.read_token_state s device))
      _ ← on_backend (λ s.
          backend.write_token_state s device (record token_state { tokens = initial_capacity }))
      give (record {
        device = device;
        cfg = cfg;
        integral = ratio 0 1;
        last_error = ratio 0 1;
        smoothed_util = none;
        current_rate = start;
        last_token_level = initial_capacity;
        last_timestamp = none;
      })

    unfoldable pub new : ℕ → DeviceControllerConfig → Run S DeviceController
    unfolding initialize
    new device cfg =
        if not (is_valid cfg) then fail invalid_configuration else initialize device cfg
