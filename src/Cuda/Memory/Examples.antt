-- ===== src/Cuda/Memory/Examples.antt =====
-- A device with a limit of 4096 bytes, and allocations that the theorems apply to.
use vgpu_rs.Base.{
  ◌≡◌, ◌+◌, ◌-◌, ◌^◌, refl, true, false, [], ◌∷◌, some, leb, if◌then◌else◌, arith, ok,
}
use vgpu_rs.Device.V1
use vgpu_rs.Device.V1.{DeviceEntryV1}
use vgpu_rs.Set
use vgpu_rs.Mutex
use vgpu_rs.State.Versions.{SharedDeviceState, v1, active_at}
use vgpu_rs.Cuda.{answer}
use vgpu_rs.Cuda.Limits.{get_pod_memory_usage}
use vgpu_rs.Cuda.Memory.{
  cuda_success, cuda_error_out_of_memory, mem_alloc_v2, array_create_v2, unsigned_int8,
  request_size, allocate, info, mem_get_info, nvml_usage, allocate_array_request_size,
  get_array_base_size,
}
use vgpu_rs.Cuda.Memory.Bounds.{allocate-Obeys, mem_get_info-wraps}

abbrev entry : DeviceEntryV1
entry = record {
  uuid = [];
  device_info = record {
    available_cuda_cores = 100;
    up_limit = 100;
    mem_limit = 4096;
    total_cuda_cores = 2560;
    pod_memory_used = 4000;
  };
  active = 1;
}

abbrev state : SharedDeviceState
state = v1 (record {
  devices = entry ∷ [];
  device_count = 1;
  last_heartbeat = 1000;
  pids = Set.new 1;
  pids_lock = Mutex.new 7;
})

usage : get_pod_memory_usage (answer state) 0 ≡ answer (4000, 4096)
unfolding get_pod_memory_usage active_at V1.is_active
usage = refl

size : request_size (mem_alloc_v2 100) ≡ ok 100
unfolding request_size
size = refl

allocate-Obeys_example :
    allocate (mem_alloc_v2 100) (answer 0) (answer state) cuda_success
    ≡ ok (if leb (4000 + 100) 4096 then (cuda_success, true) else (cuda_error_out_of_memory, false))
allocate-Obeys_example =
    allocate-Obeys (mem_alloc_v2 100) 0 4000 4096 100 state cuda_success size usage (omega arith)

-- The same device when the pod uses more than its limit.
abbrev over_state : SharedDeviceState
over_state = v1 (record {
  devices = record entry { device_info = record entry.device_info { pod_memory_used = 5000 } } ∷ [];
  device_count = 1;
  last_heartbeat = 1000;
  pids = Set.new 1;
  pids_lock = Mutex.new 7;
})

over_usage : get_pod_memory_usage (answer over_state) 0 ≡ answer (5000, 4096)
unfolding get_pod_memory_usage active_at V1.is_active
over_usage = refl

mem_get_info-wraps_example :
    (mem_get_info (answer 0) (answer over_state)
      ≡ info (if leb 5000 4096 then 4096 - 5000 else 2 ^ 64 - (5000 - 4096)) 4096)
    × (nvml_usage (get_pod_memory_usage (answer over_state) 0)
        ≡ some (4096, if leb 5000 4096 then 4096 - 5000 else 0, 5000))
mem_get_info-wraps_example =
    mem_get_info-wraps 0 5000 4096 over_state over_usage (omega arith) (omega arith)

-- An array of one dimension has a height of zero: it counts as no memory at all. An array of a million
-- bytes counts as eight times as many.
array_sizes :
    (request_size (
        array_create_v2
          (record { width = 10 ^ 6; height = 0; format = unsigned_int8; num_channels = 1 }))
      ≡ ok 0)
    × (request_size (
          array_create_v2
            (record { width = 1000; height = 1000; format = unsigned_int8; num_channels = 1 }))
        ≡ ok 8000000)
unfolding request_size allocate_array_request_size get_array_base_size
array_sizes = (refl, refl)
