-- ===== src/Cuda/Examples.antt =====
-- A process on a device of the first layout, at which the theorems apply.
use vgpu_rs.Base.{
  ltb, ◌||◌, ◌%◌, ℕ, ◌+◌, ◌-◌, ◌^◌, ◌≡◌, ◌≤◌, ◌<◌, ◌↔◌, refl, Bool, true, false, [], ◌∷◌, Option,
  some, arith, leb, if◌then◌else◌, inr,
}
use vgpu_rs.Float.Tests.{hundredths}
use vgpu_rs.Device.V1
use vgpu_rs.Device.V1.{DeviceEntryV1}
use vgpu_rs.State.Versions.{SharedDeviceState, v1, active_at}
use vgpu_rs.Set
use vgpu_rs.Mutex
use vgpu_rs.Dict.{Dict, nat_eq, fetch}
use vgpu_rs.Cuda.{
  LimiterError, device_not_configured, Answer, answer, wait_and_retry, available_cores, attempt_v1,
  CachedUpLimit, returns, get_up_limit, decide, up_limit_cache_ttl,
}
use vgpu_rs.Cuda.Waiting.{AllRefused, wait_and_retry-ends, wait_and_retry-Admits}
use vgpu_rs.Cuda.Cores.{attempt_v1-Takes, attempt_v1-wide}
use vgpu_rs.Cuda.Cache.{IsObserved, decide-free}

-- Refused twice, then granted.
abbrev third_time : ℕ → Answer Bool
third_time n = answer (leb 2 n)

abbrev never : ℕ → Answer Bool
never n = answer false

abbrev gone : ℕ → Option LimiterError
gone n = some (device_not_configured 0)

wait_and_retry-Admits_example :
    (wait_and_retry third_time gone 5 0 ≡ some (answer tt, 2))
    ↔ (AllRefused third_time gone 0 2 × (third_time 2 ≡ answer true))
wait_and_retry-Admits_example = wait_and_retry-Admits third_time gone 5 2 (omega arith)

wait_and_retry-ends_example :
    (result : Answer (Unit {0})) × (waits : ℕ) × (wait_and_retry never gone 15 0
      ≡ some (result, waits))
    × (waits ≤ 15)
wait_and_retry-ends_example = wait_and_retry-ends never gone 15 5 (omega arith) (λ j later. refl)

abbrev entry : DeviceEntryV1
entry = record {
  uuid = [];
  device_info = record {
    available_cuda_cores = 100;
    up_limit = 100;
    mem_limit = 4096;
    total_cuda_cores = 2560;
    pod_memory_used = 0;
  };
  active = 1;
}

abbrev state : SharedDeviceState
state = v1 (record {
  devices = entry ∷ [];
  device_count = 1;
  last_heartbeat = 1000;
  pids = Set.new 1;
  pids_lock = Mutex.new 7;
})

hundred : available_cores 0 state ≡ some 100
unfolding available_cores active_at V1.is_active
hundred = refl

attempt_v1-Takes_example :
    ((attempt_v1 0 30 state).1 ≡ answer (leb 30 100))
    × (available_cores 0 (attempt_v1 0 30 state).0 ≡ some (if leb 30 100 then 100 - 30 else 100))
attempt_v1-Takes_example = attempt_v1-Takes 0 30 100 state hundred (omega arith) (omega arith)

attempt_v1-wide_example :
    ((attempt_v1 0 (2 ^ 32 - 5) state).1 ≡ answer (ltb 100 (2 ^ 31) || leb (2 ^ 32 - 5) 100))
    × (available_cores 0 (attempt_v1 0 (2 ^ 32 - 5) state).0
        ≡ some (
            if ltb 100 (2 ^ 31) || leb (2 ^ 32 - 5) 100
            then (100 + (2 ^ 32 - (2 ^ 32 - 5))) % 2 ^ 32
            else 100))
attempt_v1-wide_example =
    attempt_v1-wide 0 (2 ^ 32 - 5) 100 state hundred (omega arith) (omega arith) (omega arith)

abbrev no_cache : Dict ℕ CachedUpLimit
no_cache = []

-- The limit is always 100.
abbrev constant : ℕ → ℕ → ℕ
constant t index = 100

no_cache-IsObserved : IsObserved constant 5 no_cache
unfolding fetch
no_cache-IsObserved index = tt

limit_100 : get_up_limit state 0 ≡ some 100
unfolding get_up_limit active_at V1.is_active
limit_100 = refl

admitted_at_once : (decide hundredths (answer state) 0 5 1001 no_cache).1 ≡ returns (answer tt)
unfolding decide active_at V1.is_active
admitted_at_once = refl

decide-free_example : (t : ℕ) × (100 ≤ constant t 0) × (t ≤ 5) × (5 < t + up_limit_cache_ttl)
decide-free_example =
    decide-free constant hundredths 0 5 1001 no_cache no_cache-IsObserved (answer state)
      (inr limit_100) admitted_at_once
