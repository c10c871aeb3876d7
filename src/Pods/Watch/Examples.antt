-- ===== src/Pods/Watch/Examples.antt =====
-- A watcher whose controller was made on a memory that the pod no longer has.
use vgpu_rs.Base.{◌≡◌, refl, [], ◌∷◌, none, some, replicate, ok, arith, true}
use vgpu_rs.Float.{in_bounds}
use vgpu_rs.Float.Tests.{hundredths}
use vgpu_rs.Device.{DeviceConfig}
use vgpu_rs.Device.V1
use vgpu_rs.Device.V1.{DeviceEntryV1}
use vgpu_rs.Device.V2
use vgpu_rs.Device.V2.{DeviceEntryV2}
use vgpu_rs.Set
use vgpu_rs.State
use vgpu_rs.State.{DeviceState}
use vgpu_rs.State.Versions.{SharedDeviceState, v1, v2, ops_v1, active_at, has_device}
use vgpu_rs.Erl.Adapter.Refines.{device_account}
use vgpu_rs.Erl.Controller
use vgpu_rs.Erl.Controller.{DeviceController, DeviceControllerConfig, is_valid, in_unit}
use vgpu_rs.Erl.Controller.Checks.{IsSound, IsSteady}
use vgpu_rs.Dict.{fetch}
use vgpu_rs.Paths.{PodIdentifier}
use vgpu_rs.Pods.Watch.{
  ControllerKey, key_eq, ErlConfig, to_device_controller_config, normalize_percentage, Watch,
  update_v2_state,
}
use vgpu_rs.Pods.Shares.{DeviceSnapshot, get_pod_utilization}
use vgpu_rs.Pods.Shares.Delta.{IsModerate}
use vgpu_rs.Pods.Watch.Cycle.{process_pod_utilization_update}
use vgpu_rs.Pods.Watch.Layout.{HasShared, process_pod_utilization_update-HasShared}
use vgpu_rs.Pods.Watch.Controllers.{IsTuned, HasUpdated, update_v2_state-Updates}

abbrev entry : DeviceEntryV2
entry = record {
  uuid = replicate 64 0;
  device_info = record {
    up_limit = 50;
    mem_limit = 4096;
    total_cuda_cores = 10240;
    pod_memory_used = 0;
    erl_token_refill_rate = 1000;
    erl_token_capacity = 10000;
    erl_current_tokens = 5000;
    erl_last_token_update = 0;
  };
  active = 1;
}

abbrev shared : SharedDeviceState
shared = v2 (record {
  devices = entry ∷ replicate 15 (record entry { active = 0 });
  device_count = 1;
  last_heartbeat = 1000;
  pids = Set.new 2048;
  pids_lock = record { lock = 0; pid = 7 };
})

abbrev config : ErlConfig hundredths
config = record {
  update_interval_ms = 100;
  rate_min = 1000;
  rate_max = 10000000;
  kp = 50;
  ki = 10;
  kd = 5;
  filter_alpha = 30;
  burst_window = 200;
  capacity_min = 10000;
  capacity_max = 20000000;
  integral_decay_factor = 95;
}

abbrev device : DeviceConfig
device = record {
  device_idx = 0;
  device_uuid = [];
  up_limit = 50;
  mem_limit = 4096;
  sm_count = 80;
  max_thread_per_sm = 2048;
  total_cuda_cores = 10240;
}

abbrev cfg : DeviceControllerConfig hundredths
cfg = to_device_controller_config hundredths config 50

cfg-IsSound : IsSound hundredths cfg
unfolding is_valid in_unit to_device_controller_config Controller.default_config
cfg-IsSound = record { valid = refl; min_number = refl; max_number = refl; capacities = refl }

target : normalize_percentage hundredths 50 ≡ ok 50
unfolding normalize_percentage
target = refl

abbrev regulator : DeviceController hundredths
regulator = record {
  device = 0;
  cfg = cfg;
  integral = 0;
  last_error = 0;
  smoothed_util = some 40;
  current_rate = 10000;
  last_token_level = 6000;
  last_timestamp = some 100;
}

regulator-IsSteady : IsSteady hundredths regulator
unfolding to_device_controller_config Controller.default_config
regulator-IsSteady = record { sound = cfg-IsSound; rate = in_bounds refl refl }

abbrev pod : PodIdentifier
pod = record { namespace = b'a' ∷ []; name = b'p' ∷ [] }

abbrev key : ControllerKey
key = record { pod = pod; device_idx = 0 }

-- The controller is on memory 0; the pod's path now leads to memory 1.
abbrev watch : Watch hundredths
watch = record {
  memories = λ j. shared;
  controllers = (key, record { memory = 0; controller = regulator }) ∷ [];
}

tuned : IsTuned hundredths watch.memories 0 (record { memory = 0; controller = regulator })
unfolding device_account active_at V2.is_active
tuned = record {
  same_device = refl;
  steady = regulator-IsSteady;
  account = record {
    state = record { tokens = 5000; last_update = 0 };
    quota = record { capacity = 10000; refill_rate = 1000 };
  };
  present = refl;
}

update_v2_state-Updates_example :
    (w : Watch hundredths) × (update_v2_state hundredths config pod device 1 70 2000000 watch
      ≡ ok (w, none))
    × HasUpdated hundredths watch key 0 w
unfolding fetch
update_v2_state-Updates_example =
    update_v2_state-Updates hundredths config pod device 1 70 2000000 watch 50 target cfg-IsSound
      tuned

-- The memory that the pod has now is not written.
left_behind :
    (w : Watch hundredths) × (update_v2_state hundredths config pod device 1 70 2000000 watch
      ≡ ok (w, none))
    × (w.memories 1 ≡ watch.memories 1)
unfolding fetch
left_behind =
    let (w, ran, u) =
      update_v2_state-Updates hundredths config pod device 1 70 2000000 watch 50 target cfg-IsSound
        tuned in
    (w, ran, u.elsewhere 1)

-- A memory of the first layout.
abbrev old_entry : DeviceEntryV1
old_entry = record {
  uuid = [];
  device_info = record {
    available_cuda_cores = 100;
    up_limit = 50;
    mem_limit = 4096;
    total_cuda_cores = 10240;
    pod_memory_used = 0;
  };
  active = 1;
}

abbrev old_state : DeviceState DeviceEntryV1
old_state = record {
  devices = old_entry ∷ [];
  device_count = 1;
  last_heartbeat = 1000;
  pids = Set.new 2048;
  pids_lock = record { lock = 0; pid = 7 };
}

abbrev old_watch : Watch hundredths
old_watch = record { memories = λ j. v1 old_state; controllers = [] }

abbrev small : DeviceConfig
small = record device { sm_count = 20; max_thread_per_sm = 128 }

abbrev snapshot : DeviceSnapshot
snapshot = record {
  process_utilizations = (5, record { sm_util = 30; codec_util = 2 }) ∷ [];
  process_memories = (5, 4096) ∷ [];
  timestamp = 1000000000;
}

small-IsModerate : IsModerate small (get_pod_utilization snapshot (5 ∷ [])) 100
unfolding get_pod_utilization fetch
small-IsModerate = record {
  few = omega arith;
  word = omega arith;
  powerful = omega arith;
  limited = omega arith;
  near = omega arith;
  cores = omega arith;
  within = omega arith;
}

has_old : has_device hundredths (v1 old_state) 0 ≡ true
unfolding has_device State.has_device ops_v1 V1.is_active
has_old = refl

old_found : active_at V1.is_active old_state.devices 0 ≡ some old_entry
unfolding active_at V1.is_active
old_found = refl

process_pod_utilization_update-HasShared_example :
    (w : Watch hundredths) × (process_pod_utilization_update hundredths config pod
        (some 3)
        small
        snapshot
        (5 ∷ [])
        old_watch
      ≡ ok (w, none))
    × HasShared hundredths config pod small snapshot (5 ∷ []) 3 old_watch old_state old_entry w
process_pod_utilization_update-HasShared_example =
    process_pod_utilization_update-HasShared hundredths config pod small snapshot (5 ∷ []) 3
      old_watch old_state old_entry refl has_old old_found small-IsModerate
