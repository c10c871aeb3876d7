-- ===== src/Cuda.antt =====
-- The rate limiter of the CUDA library: crates/cuda-limiter/src/limiter.rs. What the process finds in
-- the shared memory and on the clock at each attempt, and what the CUDA and NVML libraries answer, are
-- arguments.
use vgpu_rs.Base.{
  ℕ, zero, suc, ◌+◌, ◌-◌, ◌*◌, ◌%◌, ◌^◌, Bool, true, false, ◌&&◌, not, List, [], ◌∷◌, Option, none,
  some, ltb, leb, ◌==◌, if◌then◌else◌, u32, get_elem?,
}
use vgpu_rs.Float.{Float}
use vgpu_rs.Device.V1
use vgpu_rs.Device.V1.{DeviceEntryV1, fetch_sub_available_cores}
use vgpu_rs.Device.V2.{DeviceEntryV2}
use vgpu_rs.State.Versions.{
  SharedDeviceState, version, has_device, is_healthy, get_last_heartbeat, with_device_v1,
  with_device,
}
use vgpu_rs.Erl.{RateLimitError, Result, success, failure}
use vgpu_rs.Erl.Limiter.{KernelLimiterConfig, try_acquire_at}
use vgpu_rs.Erl.Adapter.{adapter}
use vgpu_rs.Dict.{Dict, Eq, nat_eq, fetch, assign}
pub mod Waiting
pub mod Cores
pub mod Cache
pub mod Limits
pub mod Memory
pub mod Launch
pub mod Devices
mod Examples

-- The errors that this part returns. A text that shows another error stands for that error.
pub data LimiterError : Type 0 where
  shared_memory : List ℕ → LimiterError
  device_not_configured : ℕ → LimiterError
  device_dim_not_configured : ℕ → LimiterError
  device_not_healthy : ℕ → ℕ → LimiterError
  rate_limit : RateLimitError → LimiterError
  erl_admission_failed : ℕ → LimiterError → LimiterError
  unsupported_version : ℕ → ℕ → LimiterError
  nvml : List ℕ → LimiterError
  cuda : ℕ → LimiterError

pub data Answer (A : Type 0) : Type 0 where
  answer : A → Answer A
  error : LimiterError → Answer A

abbrev pub rate_limiter_health_check_interval : ℕ
rate_limiter_health_check_interval = 10

-- In nanoseconds.
abbrev pub up_limit_cache_ttl : ℕ
up_limit_cache_ttl = 60 * 10 ^ 9

-- `none` is `Ok(())`.
unfoldable pub check_device_health : Float → SharedDeviceState → ℕ → ℕ → Option LimiterError
unfolding has_device is_healthy get_last_heartbeat
check_device_health f state now index =
    if not (has_device f state index)
    then some (device_not_configured index)
    else if not (is_healthy state now 2)
    then some (device_not_healthy index (get_last_heartbeat state))
    else none

-- `wait_and_retry`: the nth attempt is `check n`; after the nth wait, at every tenth, the health of the
-- device as it then is decides. The result comes with the number of waits.
module _ (check : ℕ → Answer Bool) (health : ℕ → Option LimiterError) where
  unfoldable pub wait_and_retry : ℕ → ℕ → Option (Answer (Unit {0}) × ℕ)
  wait_and_retry zero wait_times = none
  wait_and_retry (suc fuel) wait_times =
      let rest = wait_and_retry fuel (wait_times + 1) in
      elim (check wait_times) [
        | error e ↦ some (error e, wait_times)
        | answer admitted ↦
            if admitted
            then some (answer tt, wait_times)
            else if (wait_times + 1) % rate_limiter_health_check_interval == 0
            then elim (health (wait_times + 1)) [
              | some e ↦ some (error e, wait_times + 1)
              | none ↦ rest
            ]
            else rest
      ]

-- `a >= b` for two `i32`, given by their bits.
abbrev pub i32_ge : ℕ → ℕ → Bool
i32_ge a b = leb ((b + 2 ^ 31) % 2 ^ 32) ((a + 2 ^ 31) % 2 ^ 32)

unfoldable pub after_taking : ℕ → SharedDeviceState × Option ℕ → SharedDeviceState × Answer Bool
after_taking index (state, none) = (state, error (device_not_configured index))
after_taking index (state, some _) = (state, answer true)

unfoldable pub subtract_cores : ℕ → DeviceEntryV1 → DeviceEntryV1 × ℕ
unfolding fetch_sub_available_cores
subtract_cores kernel_size e =
    let (info, old) = fetch_sub_available_cores e.device_info kernel_size in
    (record e { device_info = info }, old)

unfoldable pub available_cores : ℕ → SharedDeviceState → Option ℕ
unfolding with_device_v1
available_cores index state =
    (with_device_v1 state index (λ e. (e, e.device_info.available_cuda_cores))).1

-- One attempt of `rate_limiter_v1`, undisturbed between its two accesses.
unfoldable pub attempt_v1 : ℕ → ℕ → SharedDeviceState → SharedDeviceState × Answer Bool
unfolding after_taking subtract_cores available_cores with_device_v1
attempt_v1 index kernel_size state = elim (available_cores index state) [
  | none ↦ (state, error (device_not_configured index))
  | some available ↦
      if i32_ge available kernel_size
      then after_taking index (with_device_v1 state index (subtract_cores kernel_size))
      else (state, answer false)
]

-- `try_erl_admission_control`, and what `rate_limiter_v2` makes of its error.
unfoldable pub try_erl_admission_control : ℕ → Result Bool → Answer Bool
try_erl_admission_control index (success admitted) = answer admitted
try_erl_admission_control index (failure e) = error (erl_admission_failed index (rate_limit e))

unfoldable pub again_failed : ℕ → Answer Bool → Answer Bool
again_failed index (answer admitted) = answer admitted
again_failed index (error e) = error (erl_admission_failed index e)

-- One attempt of `rate_limiter_v2`.
unfoldable pub attempt_v2 :
    (f : Float)
    → KernelLimiterConfig f
    → ℕ
    → ℕ
    → ℕ
    → Float.F f
    → SharedDeviceState
    → SharedDeviceState × Answer Bool
unfolding try_acquire_at try_erl_admission_control again_failed adapter
attempt_v2 f config index grids blocks now state =
    let (state', admitted) = try_acquire_at f (adapter f) config state index grids blocks now in
    (state', again_failed index (try_erl_admission_control index admitted))

-- A limit that was read from the shared memory, and the time of the reading.
pub record CachedUpLimit : Type 0 where
  pub value : ℕ
  pub last_refresh : ℕ

-- How `rate_limiter` goes on: it returns, or waits for cores or for tokens.
pub data Decision : Type 0 where
  returns : Answer (Unit {0}) → Decision
  waits_v1 : Decision
  waits_v2 : Decision

-- The cached limit admits without a look at the shared memory.
unfoldable pub is_fast : Dict ℕ CachedUpLimit → ℕ → ℕ → Bool
unfolding fetch
is_fast cache index now = elim (fetch index cache) [
  | none ↦ false
  | some cached ↦ leb 100 cached.value && ltb (now - cached.last_refresh) up_limit_cache_ttl
]

unfoldable pub get_up_limit : SharedDeviceState → ℕ → Option ℕ
unfolding with_device
get_up_limit state index =
    (with_device state index (λ e. (e, e.device_info.up_limit))
      (λ e. (e, e.device_info.up_limit))).1

unfoldable pub dispatch : ℕ → ℕ → Decision
dispatch index version =
    if version == 1
    then waits_v1
    else if version == 2
    then waits_v2
    else returns (error (unsupported_version version index))

unfoldable pub after_health : Option LimiterError → SharedDeviceState → ℕ → Decision
unfolding dispatch version
after_health (some e) state index = returns (error e)
after_health none state index = dispatch index (version state)

-- The slow path, once the limit is in the cache.
unfoldable pub enforce : Float → ℕ → ℕ → SharedDeviceState → ℕ → Decision
unfolding after_health check_device_health
enforce f up_limit index state wall =
    if leb 100 up_limit
    then returns (answer tt)
    else after_health (check_device_health f state wall index) state index

unfoldable pub after_limit :
    Float
    → SharedDeviceState
    → ℕ
    → ℕ
    → ℕ
    → Dict ℕ CachedUpLimit
    → Option ℕ
    → Dict ℕ CachedUpLimit × Decision
unfolding assign enforce
after_limit f state index now wall cache none =
    (cache, returns (error (device_not_configured index)))
after_limit f state index now wall cache (some up_limit) = (
  assign index (record { value = up_limit; last_refresh = now }) cache,
  enforce f up_limit index state wall,
)

unfoldable pub slow_path :
    Float
    → Answer SharedDeviceState
    → ℕ
    → ℕ
    → ℕ
    → Dict ℕ CachedUpLimit
    → Dict ℕ CachedUpLimit × Decision
unfolding after_limit get_up_limit
slow_path f (error e) index now wall cache = (cache, returns (error e))
slow_path f (answer state) index now wall cache =
    after_limit f state index now wall cache (get_up_limit state index)

-- `rate_limiter` up to its loop. `now` is the monotone clock in nanoseconds, `wall` the time of day in
-- seconds.
unfoldable pub decide :
    Float
    → Answer SharedDeviceState
    → ℕ
    → ℕ
    → ℕ
    → Dict ℕ CachedUpLimit
    → Dict ℕ CachedUpLimit × Decision
unfolding is_fast slow_path
decide f memory index now wall cache =
    if is_fast cache index now
    then (cache, returns (answer tt))
    else slow_path f memory index now wall cache

-- `rate_limiter`: `attempts_v1` and `attempts_v2` are the attempts as the shared memory is at each.
unfoldable pub run_decision :
    (ℕ → Answer Bool)
    → (ℕ → Answer Bool)
    → (ℕ → Option LimiterError)
    → ℕ
    → Decision
    → Option (Answer (Unit {0}) × ℕ)
unfolding wait_and_retry
run_decision attempts_v1 attempts_v2 health fuel (returns result) = some (result, 0)
run_decision attempts_v1 attempts_v2 health fuel waits_v1 = wait_and_retry attempts_v1 health fuel 0
run_decision attempts_v1 attempts_v2 health fuel waits_v2 = wait_and_retry attempts_v2 health fuel 0
