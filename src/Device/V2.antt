-- ===== src/Device/V2.antt =====
-- The layout with the token bucket: `SharedDeviceInfoV2` and `DeviceEntryV2`. The `f64` fields hold
-- bits.
use vgpu_rs.Base.{ℕ, Bool, not, List, replicate, ◌==◌, if◌then◌else◌}
use vgpu_rs.Float.{Float}
use vgpu_rs.Device.Bytes.{max_uuid_len, store_uuid, load_uuid}

pub record SharedDeviceInfoV2 : Type 0 where
  pub up_limit : ℕ
  pub mem_limit : ℕ
  pub total_cuda_cores : ℕ
  pub pod_memory_used : ℕ
  pub erl_token_refill_rate : ℕ
  pub erl_token_capacity : ℕ
  pub erl_current_tokens : ℕ
  pub erl_last_token_update : ℕ

pub record DeviceEntryV2 : Type 0 where
  pub uuid : List ℕ
  pub device_info : SharedDeviceInfoV2
  pub active : ℕ

unfoldable pub set_up_limit : SharedDeviceInfoV2 → ℕ → SharedDeviceInfoV2
set_up_limit d limit = record d { up_limit = limit }

unfoldable pub set_mem_limit : SharedDeviceInfoV2 → ℕ → SharedDeviceInfoV2
set_mem_limit d limit = record d { mem_limit = limit }

unfoldable pub set_total_cores : SharedDeviceInfoV2 → ℕ → SharedDeviceInfoV2
set_total_cores d cores = record d { total_cuda_cores = cores }

unfoldable pub set_pod_memory_used : SharedDeviceInfoV2 → ℕ → SharedDeviceInfoV2
set_pod_memory_used d memory = record d { pod_memory_used = memory }

module _ (f : Float) where
  open f use {F, ratio, to_bits, from_bits}

  unfoldable pub new_info : ℕ → ℕ → ℕ → SharedDeviceInfoV2
  new_info total_cuda_cores up_limit mem_limit = record {
    up_limit = up_limit;
    mem_limit = mem_limit;
    total_cuda_cores = total_cuda_cores;
    pod_memory_used = 0;
    erl_token_refill_rate = to_bits (ratio 10 1);
    erl_token_capacity = to_bits (ratio 100 1);
    erl_current_tokens = to_bits (ratio 100 1);
    erl_last_token_update = to_bits (ratio 0 1);
  }

  unfoldable pub get_erl_token_capacity : SharedDeviceInfoV2 → F
  get_erl_token_capacity d = from_bits d.erl_token_capacity

  unfoldable pub set_erl_token_capacity : SharedDeviceInfoV2 → F → SharedDeviceInfoV2
  set_erl_token_capacity d capacity = record d { erl_token_capacity = to_bits capacity }

  unfoldable pub get_erl_token_refill_rate : SharedDeviceInfoV2 → F
  get_erl_token_refill_rate d = from_bits d.erl_token_refill_rate

  unfoldable pub set_erl_token_refill_rate : SharedDeviceInfoV2 → F → SharedDeviceInfoV2
  set_erl_token_refill_rate d rate = record d { erl_token_refill_rate = to_bits rate }

  unfoldable pub get_erl_current_tokens : SharedDeviceInfoV2 → F
  get_erl_current_tokens d = from_bits d.erl_current_tokens

  unfoldable pub set_erl_current_tokens : SharedDeviceInfoV2 → F → SharedDeviceInfoV2
  set_erl_current_tokens d tokens = record d { erl_current_tokens = to_bits tokens }

  unfoldable pub get_erl_last_token_update : SharedDeviceInfoV2 → F
  get_erl_last_token_update d = from_bits d.erl_last_token_update

  unfoldable pub set_erl_last_token_update : SharedDeviceInfoV2 → F → SharedDeviceInfoV2
  set_erl_last_token_update d timestamp = record d { erl_last_token_update = to_bits timestamp }

  unfoldable pub load_erl_token_state : SharedDeviceInfoV2 → F × F
  unfolding get_erl_current_tokens get_erl_last_token_update
  load_erl_token_state d = (get_erl_current_tokens d, get_erl_last_token_update d)

  unfoldable pub store_erl_token_state : SharedDeviceInfoV2 → F → F → SharedDeviceInfoV2
  unfolding set_erl_current_tokens set_erl_last_token_update
  store_erl_token_state d tokens timestamp =
      set_erl_last_token_update (set_erl_current_tokens d tokens) timestamp

  unfoldable pub load_erl_quota : SharedDeviceInfoV2 → F × F
  unfolding get_erl_token_capacity get_erl_token_refill_rate
  load_erl_quota d = (get_erl_token_capacity d, get_erl_token_refill_rate d)

  unfoldable pub new_entry : DeviceEntryV2
  unfolding new_info
  new_entry = record { uuid = replicate max_uuid_len 0; device_info = new_info 0 0 0; active = 0 }

unfoldable pub set_uuid : DeviceEntryV2 → List ℕ → DeviceEntryV2
set_uuid e bytes = record e { uuid = store_uuid bytes }

unfoldable pub get_uuid : DeviceEntryV2 → List ℕ
get_uuid e = load_uuid e.uuid

unfoldable pub is_active : DeviceEntryV2 → Bool
is_active e = not (e.active == 0)

unfoldable pub set_active : DeviceEntryV2 → Bool → DeviceEntryV2
set_active e active = record e { active = if active then 1 else 0 }
