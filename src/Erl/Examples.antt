-- ===== src/Erl/Examples.antt =====
-- A device of the second layout under control, at which the theorems apply.
use vgpu_rs.Base.{◌≡◌, ◌⊎◌, refl, true, false, ◌∷◌, some, replicate, if◌then◌else◌}
use vgpu_rs.Float.{in_bounds}
use vgpu_rs.Float.Tests.{hundredths}
use vgpu_rs.Device.V2
use vgpu_rs.Device.V2.{DeviceEntryV2}
use vgpu_rs.Device.Tokens.{sub_value}
use vgpu_rs.Set
use vgpu_rs.State.Versions.{SharedDeviceState, v2, active_at}
use vgpu_rs.Erl.{Account, TokenStore, success, with_tokens}
use vgpu_rs.Erl.Run.{Yields}
use vgpu_rs.Erl.Adapter.{adapter}
use vgpu_rs.Erl.Adapter.Refines.{device_account, adapter-TokenStore}
use vgpu_rs.Erl.Limiter
use vgpu_rs.Erl.Limiter.{KernelLimiterConfig, estimate_kernel_cost, try_acquire_at, current_tokens}
use vgpu_rs.Erl.Limiter.Admission.{try_acquire_at-Admission}
use vgpu_rs.Erl.Controller
use vgpu_rs.Erl.Controller.{DeviceController, DeviceControllerConfig, is_valid, in_unit, new}
use vgpu_rs.Erl.Controller.Checks.{IsSound, IsSteady}
use vgpu_rs.Erl.Controller.Start.{new-IsSteady}
use vgpu_rs.Erl.Controller.Steps.{update}
use vgpu_rs.Erl.Controller.Internal.{IsUpdated}
use vgpu_rs.Erl.Controller.Update.{IsKept, update-IsUpdated}

-- An active entry with a capacity of 100 and 50 tokens.
abbrev entry : DeviceEntryV2
entry = record {
  uuid = replicate 64 0;
  device_info = record {
    up_limit = 50;
    mem_limit = 4096;
    total_cuda_cores = 10240;
    pod_memory_used = 0;
    erl_token_refill_rate = 1000;
    erl_token_capacity = 10000;
    erl_current_tokens = 5000;
    erl_last_token_update = 0;
  };
  active = 1;
}

abbrev shared : SharedDeviceState
shared = v2 (record {
  devices = entry ∷ replicate 15 (record entry { active = 0 });
  device_count = 1;
  last_heartbeat = 1000;
  pids = Set.new 2048;
  pids_lock = record { lock = 0; pid = 7 };
})

abbrev account : Account hundredths
account = record {
  state = record { tokens = 5000; last_update = 0 };
  quota = record { capacity = 10000; refill_rate = 1000 };
}

shared-account : device_account hundredths 0 shared ≡ some account
unfolding device_account active_at V2.is_active
shared-account = refl

adapter-TokenStore_example :
    TokenStore hundredths (adapter hundredths) 0 (device_account hundredths 0)
adapter-TokenStore_example = adapter-TokenStore hundredths 0

abbrev limits : KernelLimiterConfig hundredths
limits = Limiter.default_config hundredths

try_acquire_at-Admission_example :
    let cost = estimate_kernel_cost hundredths limits 16 256 in
    let admitted = hundredths.le cost 5000 in
    let left = if admitted then sub_value hundredths 5000 cost else 5000 in
    (s : SharedDeviceState) × (try_acquire_at hundredths
        (adapter hundredths)
        limits
        shared
        0
        16
        256
        0
      ≡ (s, success admitted))
    × (device_account hundredths 0 s ≡ some (with_tokens hundredths account left))
    × (current_tokens hundredths (adapter hundredths) s 0 ≡ success left)
try_acquire_at-Admission_example =
    try_acquire_at-Admission hundredths (adapter hundredths) 0 (device_account hundredths 0)
      (adapter-TokenStore hundredths 0) limits shared account 16 256 0 shared-account refl refl

abbrev cfg : DeviceControllerConfig hundredths
cfg = Controller.default_config hundredths

cfg-IsSound : IsSound hundredths cfg
unfolding is_valid in_unit Controller.default_config
cfg-IsSound = record { valid = refl; min_number = refl; max_number = refl; capacities = refl }

new-IsSteady_example : Yields (new hundredths (adapter hundredths) 0 cfg shared) (λ s c.
    (c.cfg ≡ cfg)
    × (c.device ≡ 0)
    × IsSteady hundredths c
    × (hundredths.le cfg.rate_min c.current_rate ≡ true)
    × (hundredths.le c.current_rate cfg.rate_max ≡ true)
    × ((b : Account hundredths) × (device_account hundredths 0 s ≡ some b)
        × (b.quota.refill_rate ≡ c.current_rate)
        × (hundredths.le cfg.capacity_min b.quota.capacity ≡ true)
        × (hundredths.le b.quota.capacity cfg.capacity_max ≡ true)
        × (b.state.tokens ≡ b.quota.capacity)))
new-IsSteady_example =
    new-IsSteady hundredths (adapter hundredths) 0 (device_account hundredths 0)
      (adapter-TokenStore hundredths 0) cfg shared account cfg-IsSound refl shared-account

-- A controller with a rate of 100 and a last timestamp of one second.
abbrev regulator : DeviceController hundredths
regulator = record {
  device = 0;
  cfg = cfg;
  integral = 0;
  last_error = 0;
  smoothed_util = some 40;
  current_rate = 10000;
  last_token_level = 6000;
  last_timestamp = some 100;
}

regulator-IsSteady : IsSteady hundredths regulator
unfolding Controller.default_config
regulator-IsSteady = record { sound = cfg-IsSound; rate = in_bounds refl refl }

update-IsUpdated_example :
    Yields (update hundredths (adapter hundredths) 60 10 (shared, regulator)) (λ w st.
      ((hundredths.lt 10 cfg.min_delta_time ≡ true)
        × IsKept hundredths (adapter hundredths) regulator shared w st)
      ⊎ ((hundredths.lt 10 cfg.min_delta_time ≡ false)
          × IsUpdated hundredths (adapter hundredths) regulator (device_account hundredths 0) w st))
update-IsUpdated_example =
    update-IsUpdated hundredths (adapter hundredths) regulator (device_account hundredths 0)
      (adapter-TokenStore hundredths 0) shared account 60 10 regulator-IsSteady shared-account
