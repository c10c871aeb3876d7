-- ===== src/Erl/Controller/Steps.antt =====
-- The updates of `DeviceController` (crates/erl/src/hypervisor.rs). The log lines are left out.
use vgpu_rs.Base.{ℕ, Option, none, some, if◌then◌else◌, Outcome, ok, panic, undefined}
use vgpu_rs.Float.{Float, max, clamp}
use vgpu_rs.Erl.{Result, success, DeviceBackend}
use vgpu_rs.Erl.Run.{Run, give, check, ◌>>=◌}
use vgpu_rs.Erl.Controller.{DeviceControllerState, DeviceController, capacity_of}

module _ (f : Float) where
  open f use {F, ratio, lt, add, sub, mul, div, neg, of_nat}

  -- `unwrap_or(0.0)`
  abbrev pub unwrap_or : Option F → F → F
  unwrap_or none x = x
  unwrap_or (some y) x = y

  unfoldable pub state : DeviceController f → Outcome (DeviceControllerState f)
  unfolding capacity_of
  state c = elim (capacity_of f c.cfg c.current_rate) [
    | ok capacity ↦ ok (record {
      target_utilization = c.cfg.target_utilization;
      smoothed_utilization = unwrap_or c.smoothed_util (ratio 0 1);
      current_rate = c.current_rate;
      current_capacity = capacity;
      token_drain_rate = ratio 0 1;
    })
    | panic ↦ panic
    | undefined ↦ undefined
  ]

  unfoldable pub smoothed_value : DeviceController f → F → F
  smoothed_value c measured = elim c.smoothed_util [
    | none ↦ measured
    | some prev ↦
        add (mul c.cfg.filter_alpha measured) (mul (sub (ratio 1 1) c.cfg.filter_alpha) prev)
  ]

  unfoldable pub calculate_base_rate : DeviceController f → F → F → Outcome F
  calculate_base_rate c smoothed_util drain_rate =
      if lt (ratio 1 100) smoothed_util
      then clamp f (mul drain_rate (div c.cfg.target_utilization smoothed_util)) c.cfg.rate_min
          c.cfg.rate_max
      else ok (max f c.current_rate c.cfg.rate_min)

  module _ {S : Type 0} (backend : DeviceBackend f S) where
    abbrev pub World : Type 0
    World = S × DeviceController f

    -- A call of the backend for the controller's device.
    unfoldable pub on_device : {A : Type 0} → (S → ℕ → S × Result A) → Run World A
    on_device call (s, c) = let (s', r) = call s c.device in ok ((s', c), r)

    unfoldable pub controller : Run World (DeviceController f)
    controller (s, c) = ok ((s, c), success c)

    unfoldable pub change : (DeviceController f → DeviceController f) → Run World (Unit {0})
    change g (s, c) = ok ((s, g c), success tt)

    unfoldable pub smooth_utilization : F → Run World F
    unfolding controller change
    smooth_utilization measured = do
      c ← controller
      let smoothed = smoothed_value c measured
      _ ← change (λ c. record c { smoothed_util = some smoothed })
      give smoothed

    unfoldable pub estimate_drain_rate : F → Run World F
    unfolding controller change on_device
    estimate_drain_rate delta_time = do
      token_state ← on_device (λ s device. (s, backend.read_token_state s device))
      c ← controller
      let current_tokens = token_state.tokens
      let expected_tokens = add c.last_token_level (mul c.current_rate delta_time)
      let drain_rate = max f (div (sub expected_tokens current_tokens) delta_time) (ratio 0 1)
      _ ← change (λ c. record c { last_token_level = current_tokens })
      give drain_rate

    unfoldable pub compute_pid_correction : F → F → Run World F
    unfolding controller change
    compute_pid_correction error delta_time = do
      c ← controller
      let p = mul c.cfg.kp error
      let decayed = mul c.integral c.cfg.integral_decay_factor
      integral ← check (clamp f (add decayed (mul error delta_time)) (neg (ratio 1 1)) (ratio 1 1))
      let i = mul c.cfg.ki integral
      let derivative = div (sub error c.last_error) delta_time
      let d = mul c.cfg.kd derivative
      _ ← change (λ c. record c { integral = integral; last_error = error })
      check (clamp f (add (add p i) d) (neg (ratio 1 2)) (ratio 1 2))

    unfoldable pub clamp_tokens_to_capacity : F → Run World (Unit {0})
    unfolding on_device
    clamp_tokens_to_capacity capacity = do
      token_state ← on_device (λ s device. (s, backend.read_token_state s device))
      if lt capacity token_state.tokens
          then on_device (λ s device.
            backend.write_token_state s device (record token_state { tokens = capacity }))
          else give tt

    -- The last steps of `update_internal`: the refill and what is written to the device.
    unfoldable pub publish : F → F → F → Run World (Unit {0})
    unfolding on_device
    publish new_rate new_capacity delta_time = do
      _ ← on_device (λ s device. backend.fetch_add_tokens s device (mul new_rate delta_time))
      _ ← on_device (λ s device. backend.write_refill_rate s device new_rate)
      _ ← on_device (λ s device. backend.write_capacity s device new_capacity)
      clamp_tokens_to_capacity new_capacity

    unfoldable pub update_internal : F → F → Run World (DeviceControllerState f)
    unfolding controller change publish
    update_internal measured_util delta_time = do
      measured ← check (clamp f measured_util (ratio 0 1) (ratio 1 1))
      smoothed ← smooth_utilization measured
      drain_rate ← estimate_drain_rate delta_time
      c ← controller
      base_rate ← check (calculate_base_rate c smoothed drain_rate)
      correction ← compute_pid_correction (sub c.cfg.target_utilization smoothed) delta_time
      new_rate ←
          check (clamp f (mul base_rate (add (ratio 1 1) correction)) c.cfg.rate_min c.cfg.rate_max)
      _ ← change (λ c. record c { current_rate = new_rate })
      new_capacity ← check (capacity_of f c.cfg new_rate)
      _ ← publish new_rate new_capacity delta_time
      give (record {
        target_utilization = c.cfg.target_utilization;
        smoothed_utilization = smoothed;
        current_rate = new_rate;
        current_capacity = new_capacity;
        token_drain_rate = drain_rate;
      })

    -- The present state, with nothing changed.
    unfoldable pub keep : Run World (DeviceControllerState f)
    unfolding controller
    keep = do c ← controller; check (state c)

    unfoldable pub update : F → F → Run World (DeviceControllerState f)
    unfolding controller
    update utilization delta_time = do
      c ← controller
      if lt delta_time c.cfg.min_delta_time then keep else update_internal utilization delta_time

    -- `update_with_timestamp` after its reading of the last timestamp.
    unfoldable pub update_after : F → F → F → Option F → Run World (DeviceControllerState f)
    unfolding change
    update_after utilization seconds min_delta_time last_timestamp = elim last_timestamp [
      | none ↦ do
        _ ← change (λ c. record c { last_timestamp = some seconds })
        update_internal utilization min_delta_time
      | some prev ↦ if lt (sub seconds prev) min_delta_time then keep else (do
        _ ← change (λ c. record c { last_timestamp = some seconds })
        update_internal utilization (sub seconds prev))
    ]

    unfoldable pub update_with_timestamp : F → ℕ → Run World (DeviceControllerState f)
    unfolding controller update_after
    update_with_timestamp utilization timestamp_micros = do
      c ← controller
      update_after utilization (div (of_nat timestamp_micros) (ratio 1000000 1))
          c.cfg.min_delta_time c.last_timestamp
