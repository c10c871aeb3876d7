-- ===== src/Pods/Shares.antt =====
-- The utilisation of a pod and the share of cores that it is given (first layout): `DeviceSnapshot` of
-- crates/hypervisor/src/core/pod/utilization.rs, and `calculate_delta`, `calculate_increment` and
-- `update_v1_state` of coordinator.rs. An `i32` is its bit pattern; arithmetic wraps around.
use vgpu_rs.Base.{
  ℕ, ◌+◌, ◌-◌, ◌*◌, ◌/◌, ◌%◌, ◌^◌, ◌||◌, ◌&&◌, Bool, true, false, List, [], ◌∷◌, Option, none, some,
  ltb, leb, ◌==◌, if◌then◌else◌, u32, u64, Outcome, ok, panic, ◌>>=◌,
}
use vgpu_rs.Device.{DeviceConfig}
use vgpu_rs.Device.V1.{set_available_cores}
use vgpu_rs.State.Versions.{SharedDeviceState, with_device}
use vgpu_rs.Dict.{Dict, Eq, nat_eq, fetch}
pub mod Utilization
pub mod Delta
mod Examples

pub record ProcessUtilization : Type 0 where
  pub sm_util : ℕ
  pub codec_util : ℕ

pub record DeviceSnapshot : Type 0 where
  pub process_utilizations : Dict ℕ ProcessUtilization
  pub process_memories : Dict ℕ ℕ
  pub timestamp : ℕ

unfoldable pub utilization_from : Dict ℕ ProcessUtilization → ℕ → List ℕ → ℕ
unfolding fetch
utilization_from utilizations total [] = total
utilization_from utilizations total (pid ∷ pids) = elim (fetch pid utilizations) [
  | none ↦ utilization_from utilizations total pids
  | some p ↦ utilization_from utilizations (u32 (total + u32 (p.sm_util + p.codec_util))) pids
]

unfoldable pub get_pod_utilization : DeviceSnapshot → List ℕ → ℕ
unfolding utilization_from
get_pod_utilization snapshot pids = utilization_from snapshot.process_utilizations 0 pids

unfoldable pub memory_from : Dict ℕ ℕ → ℕ → List ℕ → ℕ
unfolding fetch
memory_from memories total [] = total
memory_from memories total (pid ∷ pids) = elim (fetch pid memories) [
  | none ↦ memory_from memories total pids
  | some bytes ↦ memory_from memories (u64 (total + bytes)) pids
]

unfoldable pub get_pod_memory : DeviceSnapshot → List ℕ → ℕ
unfolding memory_from
get_pod_memory snapshot pids = memory_from snapshot.process_memories 0 pids

-- Operations on the bits of an `i32`.
abbrev pub i32_add : ℕ → ℕ → ℕ
i32_add a b = u32 (a + b)

abbrev pub i32_sub : ℕ → ℕ → ℕ
i32_sub a b = u32 (a + 2 ^ 32 - b)

abbrev pub i32_mul : ℕ → ℕ → ℕ
i32_mul a b = u32 (a * b)

abbrev pub i32_lt : ℕ → ℕ → Bool
i32_lt a b = ltb ((a + 2 ^ 31) % 2 ^ 32) ((b + 2 ^ 31) % 2 ^ 32)

-- `abs`
abbrev pub i32_abs : ℕ → ℕ
i32_abs a = if leb (2 ^ 31) a then 2 ^ 32 - a else a

-- `/`, towards zero; by zero it panics, and so does the least number by -1.
unfoldable pub i32_div : ℕ → ℕ → Outcome ℕ
i32_div a b =
    if b == 0 || (a == 2 ^ 31 && b == 2 ^ 32 - 1)
    then panic
    else (let q = i32_abs a / i32_abs b in
        ok (
          if leb (2 ^ 31) a
          then (if leb (2 ^ 31) b then q else u32 (2 ^ 32 - q))
          else if leb (2 ^ 31) b
          then u32 (2 ^ 32 - q)
          else q))

-- The increment before the scaling.
unfoldable pub base_increment : DeviceConfig → ℕ → Outcome ℕ
unfolding i32_div
base_increment device utilization_diff = do
  cores ←
      i32_div
        (i32_mul (i32_mul (u32 device.sm_count) (u32 device.sm_count))
          (u32 device.max_thread_per_sm))
        256
  i32_div (i32_mul cores utilization_diff) 10

-- When the difference is large, the increment is scaled.
unfoldable pub scale_above : ℕ → ℕ → ℕ → ℕ → Outcome ℕ
unfolding i32_div
scale_above half up_limit utilization_diff increment =
    if i32_lt half utilization_diff
    then i32_div (i32_mul (i32_mul increment utilization_diff) 2) (i32_add up_limit 1)
    else ok increment

unfoldable pub scale_increment : ℕ → ℕ → ℕ → Outcome ℕ
unfolding i32_div scale_above
scale_increment up_limit utilization_diff increment =
    i32_div up_limit 2 >>= λ half. scale_above half up_limit utilization_diff increment

unfoldable pub calculate_increment : DeviceConfig → ℕ → Outcome ℕ
unfolding base_increment scale_increment
calculate_increment device utilization_diff = do
  increment ← base_increment device utilization_diff
  scale_increment (u32 device.up_limit) utilization_diff increment

unfoldable pub utilization_diff : ℕ → ℕ → ℕ
utilization_diff up_limit user_current =
    let apart = i32_abs (i32_sub up_limit (u32 user_current)) in if i32_lt apart 5 then 5 else apart

-- The new share, from the increment.
unfoldable pub adjust_share : DeviceConfig → ℕ → ℕ → ℕ → ℕ
adjust_share device user_current share increment =
    if leb user_current device.up_limit
    then if i32_lt (u32 device.total_cuda_cores) (i32_add share increment)
      then u32 device.total_cuda_cores
      else i32_add share increment
    else if i32_lt (i32_sub share increment) 0
    then 0
    else i32_sub share increment

unfoldable pub calculate_delta : DeviceConfig → ℕ → ℕ → Outcome ℕ
unfolding calculate_increment utilization_diff adjust_share
calculate_delta device user_current share = do
  increment ← calculate_increment device (utilization_diff (u32 device.up_limit) user_current)
  ok (adjust_share device user_current share increment)

-- The share of a device that is not there is zero, and nothing is written for it.
unfoldable pub current_share : SharedDeviceState → ℕ → ℕ
unfolding with_device
current_share state index =
    elim ((with_device state index (λ e. (e, e.device_info.available_cuda_cores))
      (λ e. (e, 0))).1) [ none ↦ 0 | some share ↦ share ]

unfoldable pub write_share : SharedDeviceState → ℕ → ℕ → SharedDeviceState
unfolding with_device set_available_cores
write_share state index share =
    (with_device {A = Unit {0}} state index
      (λ e. (record e { device_info = set_available_cores e.device_info share }, tt))
      (λ e. (e, tt))).0

unfoldable pub update_v1_state :
    SharedDeviceState → DeviceConfig → ℕ → ℕ → Outcome SharedDeviceState
unfolding current_share write_share calculate_delta
update_v1_state state device index total_utilization = do
  share ← calculate_delta device total_utilization (current_share state index)
  ok (write_share state index share)
