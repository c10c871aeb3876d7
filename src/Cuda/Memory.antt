-- ===== src/Cuda/Memory.antt =====
-- The hooks of memory allocations and of memory queries:
-- crates/cuda-limiter/src/detour/mem.rs, with `round_up` of mod.rs. What the driver answers to the call
-- that a hook stands for is an argument.
use vgpu_rs.Base.{
  ℕ, ◌+◌, ◌-◌, ◌*◌, ◌%◌, ◌^◌, Bool, true, false, Option, none, some, ltb, leb, ◌==◌, if◌then◌else◌,
  u64, Outcome, ok, panic, ◌>>=◌,
}
use vgpu_rs.State.Versions.{SharedDeviceState}
use vgpu_rs.Cuda.{LimiterError, device_not_healthy, Answer, answer, error}
use vgpu_rs.Cuda.Limits.{get_pod_memory_usage}
pub mod Bounds
mod Examples

-- The codes of the driver that this part tells apart.
pub data CuResult : Type 0 where
  cuda_success : CuResult
  cuda_error_out_of_memory : CuResult
  cuda_error_unknown : CuResult
  other : ℕ → CuResult

pub data ArrayFormat : Type 0 where
  unsigned_int8 signed_int8 unsigned_int16 signed_int16 half unsigned_int32 signed_int32 float
        other_format :
      ArrayFormat

unfoldable pub get_array_base_size : ArrayFormat → ℕ
get_array_base_size unsigned_int8 = 8
get_array_base_size signed_int8 = 8
get_array_base_size unsigned_int16 = 16
get_array_base_size signed_int16 = 16
get_array_base_size half = 16
get_array_base_size unsigned_int32 = 32
get_array_base_size signed_int32 = 32
get_array_base_size float = 32
get_array_base_size other_format = 32

pub record ArrayDescriptor : Type 0 where
  pub width : ℕ
  pub height : ℕ
  pub format : ArrayFormat
  pub num_channels : ℕ

pub record Array3DDescriptor : Type 0 where
  pub width : ℕ
  pub height : ℕ
  pub depth : ℕ
  pub format : ArrayFormat
  pub num_channels : ℕ

-- Products of 64-bit words wrap around.
abbrev pub u64_mul : ℕ → ℕ → ℕ
u64_mul a b = u64 (a * b)

unfoldable pub allocate_array_request_size : ArrayDescriptor → ℕ
unfolding get_array_base_size
allocate_array_request_size d =
    u64_mul (u64_mul (u64_mul (get_array_base_size d.format) d.num_channels) d.height) d.width

unfoldable pub allocate_array_3d_request_size : Array3DDescriptor → ℕ
unfolding get_array_base_size
allocate_array_3d_request_size d =
    u64_mul
      (u64_mul (u64_mul (u64_mul (get_array_base_size d.format) d.num_channels) d.height) d.width)
      d.depth

-- `is_multiple_of`: of zero, only zero is a multiple. The remainder by zero panics.
unfoldable pub round_up : ℕ → ℕ → Outcome ℕ
round_up n base =
    if base == 0
    then if n == 0 then ok n else panic
    else if n % base == 0
    then ok n
    else ok (u64 (n + base - n % base))

-- The allocations that are hooked, with the arguments that their size depends on.
pub data Request : Type 0 where
  mem_alloc_v2 mem_alloc mem_alloc_managed mem_create mem_alloc_async mem_alloc_from_pool_async :
      ℕ → Request
  mem_alloc_pitch_v2 : ℕ → ℕ → ℕ → Request
  mem_alloc_pitch : ℕ → ℕ → Request
  array_create_v2 array_create : ArrayDescriptor → Request
  array_3d_create_v2 array_3d_create : Array3DDescriptor → Request
  mipmapped_array_create : Array3DDescriptor → ℕ → Request

unfoldable pub request_size : Request → Outcome ℕ
unfolding allocate_array_request_size allocate_array_3d_request_size round_up
request_size (mem_alloc_v2 bytesize) = ok bytesize
request_size (mem_alloc bytesize) = ok bytesize
request_size (mem_alloc_managed bytesize) = ok bytesize
request_size (mem_create size) = ok size
request_size (mem_alloc_async bytesize) = ok bytesize
request_size (mem_alloc_from_pool_async bytesize) = ok bytesize
request_size (mem_alloc_pitch_v2 width height element_size) =
    round_up (u64_mul width height) element_size
request_size (mem_alloc_pitch width height) = ok (u64_mul width height)
request_size (array_create_v2 d) = ok (allocate_array_request_size d)
request_size (array_create d) = ok (allocate_array_request_size d)
request_size (array_3d_create_v2 d) = ok (allocate_array_3d_request_size d)
request_size (array_3d_create d) = ok (allocate_array_3d_request_size d)
request_size (mipmapped_array_create d levels) = ok (allocate_array_3d_request_size d)

abbrev pub saturating_add : ℕ → ℕ → ℕ
saturating_add a b = if ltb (a + b) (2 ^ 64) then a + b else 2 ^ 64 - 1

-- What a hook makes of the usage: `none` if it calls the driver.
unfoldable pub check_usage : Answer (ℕ × ℕ) → ℕ → Option CuResult
check_usage (answer usage) size =
    if ltb usage.1 (saturating_add usage.0 size) then some cuda_error_out_of_memory else none
check_usage (error (device_not_healthy index heartbeat)) size = none
check_usage (error e) size = some cuda_error_unknown

-- `check_and_alloc!`: the device of the context, the shared memory, the size.
unfoldable pub check_and_alloc : Answer ℕ → Answer SharedDeviceState → ℕ → Option CuResult
unfolding check_usage get_pod_memory_usage
check_and_alloc (error e) memory size = none
check_and_alloc (answer index) memory size = check_usage (get_pod_memory_usage memory index) size

abbrev pub or_native : CuResult → Option CuResult → CuResult
or_native native none = native
or_native native (some result) = result

-- A hooked allocation: its result, and whether the driver was called.
unfoldable pub allocate :
    Request → Answer ℕ → Answer SharedDeviceState → CuResult → Outcome (CuResult × Bool)
unfolding request_size check_and_alloc
allocate request device memory native = do
  size ← request_size request
  let verdict = check_and_alloc device memory size
  ok (or_native native verdict, elim verdict [ none ↦ true | some r ↦ false ])

-- `cuMemGetInfo`: the free and the total memory.
pub data MemInfo : Type 0 where
  info : ℕ → ℕ → MemInfo
  failed_with : CuResult → MemInfo
  native_info : MemInfo

unfoldable pub usage_info : Answer (ℕ × ℕ) → MemInfo
usage_info (answer usage) = info (u64 (usage.1 + 2 ^ 64 - usage.0)) usage.1
usage_info (error e) = failed_with cuda_error_unknown

unfoldable pub mem_get_info : Answer ℕ → Answer SharedDeviceState → MemInfo
unfolding usage_info get_pod_memory_usage
mem_get_info (error e) memory = native_info
mem_get_info (answer index) memory = usage_info (get_pod_memory_usage memory index)

-- `get_pod_memory_usage_cu` and `cuDeviceTotalMem`.
unfoldable pub get_pod_memory_usage_cu : Answer ℕ → Answer SharedDeviceState → Answer (ℕ × ℕ)
unfolding get_pod_memory_usage
get_pod_memory_usage_cu (error e) memory = error e
get_pod_memory_usage_cu (answer index) memory = get_pod_memory_usage memory index

unfoldable pub device_total_mem : Answer ℕ → Answer SharedDeviceState → Option ℕ × CuResult
unfolding get_pod_memory_usage_cu
device_total_mem device memory = elim (get_pod_memory_usage_cu device memory) [
  | answer usage ↦ (some usage.1, cuda_success)
  | error e ↦ (none, cuda_error_unknown)
]

-- `nvmlDeviceGetMemoryInfo` after its look-up of the device: total, free and used.
unfoldable pub nvml_usage : Answer (ℕ × ℕ) → Option (ℕ × ℕ × ℕ)
nvml_usage (answer usage) = some (usage.1, usage.1 - usage.0, usage.0)
nvml_usage (error e) = none
