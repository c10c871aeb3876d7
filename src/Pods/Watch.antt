-- ===== src/Pods/Watch.antt =====
-- The controllers of the monitoring cycle and the update of the second layout:
-- `normalize_percentage` and `update_v2_state` of crates/hypervisor/src/core/pod/coordinator.rs, and
-- `ErlConfig` of crates/hypervisor/src/config/mod.rs. The memories that paths lead to are numbered,
-- since a controller keeps the memory it was made on.
pub mod Controllers
pub mod Cycle
pub mod Layout
mod Examples
use vgpu_rs.Base.{
  ℕ, ◌≡◌, ◌↔◌, arith, refl, inl, inr, Bool-cases, ◌/◌, ◌^◌, ◌*◌, Bool, true, false, ◌&&◌, not, List,
  [], ◌∷◌, Option, none, some, ◌==◌, if◌then◌else◌, Outcome, ok, panic, ◌>>=◌,
}
use vgpu_rs.Float.{Float, clamp}
use vgpu_rs.Device.{DeviceConfig}
use vgpu_rs.State.Versions.{
  SharedDeviceState, version, has_device, update_heartbeat, set_pod_memory_used,
}
use vgpu_rs.Erl.{RateLimitError, Result, success, failure}
use vgpu_rs.Erl.Adapter.{adapter}
use vgpu_rs.Erl.Controller.{
  DeviceControllerConfig, default_config, DeviceController, DeviceControllerState,
}
use vgpu_rs.Erl.Controller
use vgpu_rs.Erl.Controller.Steps.{update_with_timestamp}
use vgpu_rs.Dict.{Dict, Eq, fetch, assign}
use vgpu_rs.Paths.{PodIdentifier, identifier_eq}
use vgpu_rs.Pods.{Text, has_none, PodStateStore}
use vgpu_rs.Pods.Store.{
  pod_path, get_pods_using_device, get_host_pids_for_pod, get_device_config_for_pod,
}
use vgpu_rs.Pods.Shares.{DeviceSnapshot, get_pod_utilization, get_pod_memory, update_v1_state}

-- The key of a controller: a pod and a device.
pub record ControllerKey : Type 0 where
  pub pod : PodIdentifier
  pub device_idx : ℕ

pub key_beq_iff :
    (a b : ControllerKey)
    → ((identifier_eq.beq a.pod b.pod && a.device_idx == b.device_idx) ≡ true) ↔ (a ≡ b)
key_beq_iff a b = ground (arith, identifier_eq.beq_iff a.pod b.pod)

instance abbrev pub key_eq : Eq ControllerKey
key_eq = record {
  beq = λ a b. identifier_eq.beq a.pod b.pod && a.device_idx == b.device_idx;
  beq_iff = key_beq_iff;
}

pub data UpdateError : Type 0 where
  open_failed : UpdateError
  device_not_found : ℕ → UpdateError
  creation_failed : RateLimitError → UpdateError
  update_failed : RateLimitError → UpdateError
  snapshot_failed : UpdateError

-- The memory `m` becomes `state`.
abbrev pub put_memory : ℕ → SharedDeviceState → (ℕ → SharedDeviceState) → ℕ → SharedDeviceState
put_memory m state memories j = if m == j then state else memories j

pub put_memory-same :
    (m : ℕ) (s : SharedDeviceState) (memories : ℕ → SharedDeviceState)
    → put_memory m s memories m ≡ s
put_memory-same m s memories = let here : (m == m) ≡ true = ground arith in rw here refl

pub put_memory-again :
    (m : ℕ) (s t : SharedDeviceState) (memories : ℕ → SharedDeviceState) (j : ℕ)
    → put_memory m t (put_memory m s memories) j ≡ put_memory m t memories j
put_memory-again m s t memories j = elim (Bool-cases (m == j)) [
  | inl same ↦ rw same refl
  | inr other ↦ rw other refl
]

module _ (f : Float) where
  open f use {F, ratio, div, of_nat}

  -- A percentage above 100 counts as 100.
  unfoldable pub normalize_percentage : ℕ → Outcome F
  unfolding clamp
  normalize_percentage percent =
      clamp f (div (of_nat percent) (ratio 100 1)) (ratio 0 1) (ratio 1 1)

  pub record ErlConfig : Type 0 where
    pub update_interval_ms : ℕ
    pub rate_min : F
    pub rate_max : F
    pub kp : F
    pub ki : F
    pub kd : F
    pub filter_alpha : F
    pub burst_window : F
    pub capacity_min : F
    pub capacity_max : F
    pub integral_decay_factor : F

  unfoldable pub to_device_controller_config : ErlConfig → F → DeviceControllerConfig f
  unfolding default_config
  to_device_controller_config c target = record (default_config f) {
    target_utilization = target;
    rate_min = c.rate_min;
    rate_max = c.rate_max;
    kp = c.kp;
    ki = c.ki;
    kd = c.kd;
    filter_alpha = c.filter_alpha;
    burst_window = c.burst_window;
    capacity_min = c.capacity_min;
    capacity_max = c.capacity_max;
    integral_decay_factor = c.integral_decay_factor;
  }

  -- A controller and the memory that its backend writes.
  pub record Controlled : Type 0 where
    pub memory : ℕ
    pub controller : DeviceController f

  pub record Watch : Type 0 where
    pub memories : ℕ → SharedDeviceState
    pub controllers : Dict ControllerKey Controlled

  abbrev pub failure_of : {A : Type 0} → Result A → Option UpdateError
  failure_of (success a) = none
  failure_of (failure e) = some (update_failed e)

  -- `update_with_timestamp` of the controller under a key.
  unfoldable pub run_controller :
      ControllerKey → ℕ → F → Controlled → Watch → Outcome (Watch × Option UpdateError)
  unfolding update_with_timestamp adapter assign
  run_controller key timestamp utilization entry w = do
    out ←
        update_with_timestamp f (adapter f) utilization timestamp
          (w.memories entry.memory, entry.controller)
    ok (
      record {
        memories = put_memory entry.memory out.0.0 w.memories;
        controllers =
            assign key (record { memory = entry.memory; controller = out.0.1 }) w.controllers;
      },
      failure_of out.1,
    )

  -- The new controller, if there is one, is used at once.
  unfoldable pub use_created :
      ControllerKey
      → ℕ
      → F
      → ℕ
      → Watch
      → SharedDeviceState × Result (DeviceController f)
      → Outcome (Watch × Option UpdateError)
  unfolding run_controller
  use_created key timestamp utilization memory w (state, failure e) =
      ok (record w { memories = put_memory memory state w.memories }, some (creation_failed e))
  use_created key timestamp utilization memory w (state, success c) =
      run_controller key timestamp utilization (record { memory = memory; controller = c })
        (record w { memories = put_memory memory state w.memories })

  unfoldable pub create_and_run :
      ErlConfig → ControllerKey → ℕ → F → F → ℕ → ℕ → Watch → Outcome (Watch × Option UpdateError)
  unfolding use_created to_device_controller_config adapter Controller.new
  create_and_run config key timestamp target utilization memory index w = do
    out ←
        Controller.new f (adapter f) index (to_device_controller_config config target)
          (w.memories memory)
    use_created key timestamp utilization memory w out

  unfoldable pub update_v2_state :
      ErlConfig
      → PodIdentifier
      → DeviceConfig
      → ℕ
      → ℕ
      → ℕ
      → Watch
      → Outcome (Watch × Option UpdateError)
  unfolding normalize_percentage fetch run_controller create_and_run
  update_v2_state config pod device memory total timestamp w = do
    let key : ControllerKey = record { pod = pod; device_idx = device.device_idx }
    target ← normalize_percentage device.up_limit
    utilization ← normalize_percentage total
    elim (fetch key w.controllers) [
      | some entry ↦ run_controller key timestamp utilization entry w
      | none ↦ create_and_run config key timestamp target utilization memory device.device_idx w
    ]
