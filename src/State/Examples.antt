-- ===== src/State/Examples.antt =====
-- A state with one device, at which the theorems apply.
use vgpu_rs.Base.{
  ℕ, ◌≡◌, ◌≢◌, ◌↔◌, [], ◌∷◌, none, some, arith, length, get_or, ◌==◌, if◌then◌else◌, ok,
}
use vgpu_rs.Float.Tests.{hundredths}
use vgpu_rs.Device.{DeviceConfig}
use vgpu_rs.Device.V2.{DeviceEntryV2}
use vgpu_rs.State.{EntryOps, DeviceState, new, iter_active_devices, add_pid, remove_pid}
use vgpu_rs.State.Configure.{entry_of, new-devices}
use vgpu_rs.State.Pids.{PidsValid, Registered, Adds, new-PidsValid, add_pid-Adds, remove_pid-exact}
use vgpu_rs.State.Versions
use vgpu_rs.State.Versions.{
  ops_v2, SharedDeviceState, DeviceSummary, get_device_info, set_pod_memory_used,
}
use vgpu_rs.State.Versions.Access.{shown, set_pod_memory_used-get_device_info}

abbrev third : DeviceConfig
third = record {
  device_idx = 3;
  device_uuid = 71 ∷ 80 ∷ [];
  up_limit = 50;
  mem_limit = 4096;
  sm_count = 10;
  max_thread_per_sm = 1024;
  total_cuda_cores = 10240;
}

abbrev ops : EntryOps DeviceEntryV2
ops = ops_v2 hundredths

abbrev one_device : DeviceState DeviceEntryV2
one_device = new ops 7 1000 (third ∷ [])

new-devices_example :
    (get_or one_device.devices 3 ops.blank ≡ entry_of ops 1000 3 (third ∷ []) ops.blank)
    × (one_device.device_count ≡ length (iter_active_devices ops one_device))
new-devices_example = new-devices ops 7 1000 (third ∷ []) 3 (omega arith)

one_device-PidsValid : PidsValid one_device
one_device-PidsValid = new-PidsValid ops 7 1000 (third ∷ [])

add_pid-Adds_example :
    (s : DeviceState DeviceEntryV2) × (add_pid one_device 42 ≡ ok s)
    × PidsValid s
    × Adds one_device 42 one_device-PidsValid s
add_pid-Adds_example = add_pid-Adds one_device 42 one_device-PidsValid

-- Process 42 has registered.
abbrev registered : DeviceState DeviceEntryV2
registered = add_pid-Adds_example.0

remove_pid-exact_example :
    (s : DeviceState DeviceEntryV2) × (remove_pid registered 42 ≡ ok s)
    × PidsValid s
    × ((q : ℕ) → Registered s q ↔ (Registered registered q × (q ≢ 42)))
remove_pid-exact_example = remove_pid-exact registered 42 add_pid-Adds_example.2

abbrev shared : SharedDeviceState
shared = Versions.new hundredths 7 1000 (third ∷ [])

set_pod_memory_used-get_device_info_example :
    let (s', done) = set_pod_memory_used shared 3 512 in
    (done ≡ shown (get_device_info shared 3))
    × (get_device_info s' 3 ≡ (
        if 3 == 3
        then elim (get_device_info shared 3) [
          | none ↦ none
          | some d ↦ some (record d { pod_memory_used = 512 })
        ]
        else get_device_info shared 3))
set_pod_memory_used-get_device_info_example = set_pod_memory_used-get_device_info shared 3 512 3
