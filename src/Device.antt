-- ===== src/Device.antt =====
-- crates/utils/src/shared_memory/mod.rs: the device entries of the shared memory.
--
-- `V1` and `V2` are the two layouts; an atomic field is a field of the record, and each store a
-- function. `Uuid` is about the fixed-size name field, `Tokens` about the token bucket that the
-- processes update concurrently.
pub mod Bytes
pub mod V1
pub mod V2
pub mod Uuid
pub mod Tokens
mod Examples
use vgpu_rs.Base.{ℕ, List}

-- `DeviceConfig`; the UUID by its bytes.
pub record DeviceConfig : Type 0 where
  pub device_idx : ℕ
  pub device_uuid : List ℕ
  pub up_limit : ℕ
  pub mem_limit : ℕ
  pub sm_count : ℕ
  pub max_thread_per_sm : ℕ
  pub total_cuda_cores : ℕ
