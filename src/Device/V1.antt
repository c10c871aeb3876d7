-- ===== src/Device/V1.antt =====
-- The legacy layout: `SharedDeviceInfoV1` and `DeviceEntryV1`. An `i32` is its bit pattern.
use vgpu_rs.Base.{ℕ, ◌+◌, ◌-◌, ◌^◌, Bool, not, List, replicate, ◌==◌, if◌then◌else◌, u32}
use vgpu_rs.Device.Bytes.{max_uuid_len, store_uuid, load_uuid}

pub record SharedDeviceInfoV1 : Type 0 where
  pub available_cuda_cores : ℕ
  pub up_limit : ℕ
  pub mem_limit : ℕ
  pub total_cuda_cores : ℕ
  pub pod_memory_used : ℕ

unfoldable pub new_info : ℕ → ℕ → ℕ → SharedDeviceInfoV1
new_info total_cuda_cores up_limit mem_limit = record {
  available_cuda_cores = 0;
  up_limit = up_limit;
  mem_limit = mem_limit;
  total_cuda_cores = total_cuda_cores;
  pod_memory_used = 0;
}

unfoldable pub set_available_cores : SharedDeviceInfoV1 → ℕ → SharedDeviceInfoV1
set_available_cores d cores = record d { available_cuda_cores = cores }

-- `fetch_add` and `fetch_sub` wrap around, and return the old value.
unfoldable pub fetch_add_available_cores : SharedDeviceInfoV1 → ℕ → SharedDeviceInfoV1 × ℕ
fetch_add_available_cores d cores = (
  record d { available_cuda_cores = u32 (d.available_cuda_cores + cores) },
  d.available_cuda_cores,
)

unfoldable pub fetch_sub_available_cores : SharedDeviceInfoV1 → ℕ → SharedDeviceInfoV1 × ℕ
fetch_sub_available_cores d cores = (
  record d { available_cuda_cores = u32 (d.available_cuda_cores + 2 ^ 32 - cores) },
  d.available_cuda_cores,
)

unfoldable pub set_up_limit : SharedDeviceInfoV1 → ℕ → SharedDeviceInfoV1
set_up_limit d limit = record d { up_limit = limit }

unfoldable pub set_mem_limit : SharedDeviceInfoV1 → ℕ → SharedDeviceInfoV1
set_mem_limit d limit = record d { mem_limit = limit }

unfoldable pub set_total_cores : SharedDeviceInfoV1 → ℕ → SharedDeviceInfoV1
set_total_cores d cores = record d { total_cuda_cores = cores }

unfoldable pub set_pod_memory_used : SharedDeviceInfoV1 → ℕ → SharedDeviceInfoV1
set_pod_memory_used d memory = record d { pod_memory_used = memory }

pub record DeviceEntryV1 : Type 0 where
  pub uuid : List ℕ
  pub device_info : SharedDeviceInfoV1
  pub active : ℕ

unfoldable pub new_entry : DeviceEntryV1
unfolding new_info
new_entry = record { uuid = replicate max_uuid_len 0; device_info = new_info 0 0 0; active = 0 }

unfoldable pub set_uuid : DeviceEntryV1 → List ℕ → DeviceEntryV1
set_uuid e bytes = record e { uuid = store_uuid bytes }

unfoldable pub get_uuid : DeviceEntryV1 → List ℕ
get_uuid e = load_uuid e.uuid

unfoldable pub is_active : DeviceEntryV1 → Bool
is_active e = not (e.active == 0)

unfoldable pub set_active : DeviceEntryV1 → Bool → DeviceEntryV1
set_active e active = record e { active = if active then 1 else 0 }
