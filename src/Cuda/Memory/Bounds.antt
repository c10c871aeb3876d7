-- ===== src/Cuda/Memory/Bounds.antt =====
-- Which allocations reach the driver, the rounding of a size, and the memory that is shown as free.
use vgpu_rs.Base.{
  ℕ, ◌+◌, ◌-◌, ◌*◌, ◌/◌, ◌%◌, ◌^◌, ◌≡◌, ◌≤◌, ◌<◌, refl, ap, ◌∙◌, inl, inr, Bool, true, false,
  Option, none, some, leb, ◌==◌, if◌then◌else◌, u64, arith, Bool-cases, Outcome, ok, ◌>>=◌,
}
use native.Mathlib.Nat.{mod-lt, mod-eq-sub-mul-div, mul-div-le, mul-mod_right}
use vgpu_rs.State.Versions.{SharedDeviceState}
use vgpu_rs.Cuda.{answer}
use vgpu_rs.Cuda.Limits.{get_pod_memory_usage}
use vgpu_rs.Cuda.Memory.{
  CuResult, cuda_error_out_of_memory, Request, request_size, round_up, check_usage, check_and_alloc,
  or_native, allocate, info, usage_info, mem_get_info, nvml_usage,
}

usage_checked :
    (used limit size : ℕ)
    → limit < 2 ^ 64 - 1
    → check_usage (answer (used, limit)) size
      ≡ (if leb (used + size) limit then none else some cuda_error_out_of_memory)
unfolding check_usage
usage_checked used limit size below = ground arith

abbrev pub verdict_of : CuResult → Option CuResult → CuResult × Bool
verdict_of native verdict =
    (or_native native verdict, elim verdict [ none ↦ true | some r ↦ false ])

-- A hooked allocation on a device whose usage is known, with a limit below 2^64 - 1, reaches the driver
-- exactly if the memory used and the size of the request are together not above the limit, and then
-- gives the driver's result; otherwise it is out of memory.
pub allocate-Obeys :
    (request : Request) (index used limit size : ℕ) (state : SharedDeviceState) (native : CuResult)
    → request_size request ≡ ok size
    → get_pod_memory_usage (answer state) index ≡ answer (used, limit)
    → limit < 2 ^ 64 - 1
    → allocate request (answer index) (answer state) native
      ≡ ok (if leb (used + size) limit then (native, true) else (cuda_error_out_of_memory, false))
unfolding allocate check_and_alloc
allocate-Obeys request index used limit size state native sized usage below =
    ap
      (λ (o : Outcome ℕ). o >>= λ n.
        ok (verdict_of native (check_usage (get_pod_memory_usage (answer state) index) n)))
      sized
    ∙ ap (λ u. ok (verdict_of native (check_usage u size))) usage
    ∙ ap (λ v. ok (verdict_of native v)) (usage_checked used limit size below)
    ∙ elim (Bool-cases (leb (used + size) limit)) [
      | inl fits ↦ rw fits refl
      | inr over ↦ rw over refl
    ]

-- The free memory that `cuMemGetInfo` shows wraps around if the pod uses more than its limit, which
-- `nvmlDeviceGetMemoryInfo` shows as zero. (The usage and the limit are 64-bit words.)
pub mem_get_info-wraps :
    (index used limit : ℕ) (state : SharedDeviceState)
    → get_pod_memory_usage (answer state) index ≡ answer (used, limit)
    → used < 2 ^ 64
    → limit < 2 ^ 64
    → (mem_get_info (answer index) (answer state)
        ≡ info (if leb used limit then limit - used else 2 ^ 64 - (used - limit)) limit)
      × (nvml_usage (get_pod_memory_usage (answer state) index)
          ≡ some (limit, if leb used limit then limit - used else 0, used))
unfolding mem_get_info usage_info nvml_usage
mem_get_info-wraps index used limit state usage small below =
    let free : u64 (limit + 2 ^ 64 - used)
        ≡ (if leb used limit then limit - used else 2 ^ 64 - (used - limit)) =
      ground arith in
    let shown : limit - used ≡ (if leb used limit then limit - used else 0) = ground arith in
    (
      ap usage_info usage ∙ ap (λ n. info n limit) free,
      ap nvml_usage usage ∙ ap (λ n. some (limit, n, used)) shown,
    )

-- A size is rounded up to the least multiple of a positive base that is not below it, if there is no
-- overflow.
pub round_up-Least :
    (n base : ℕ)
    → 0 < base
    → n + base < 2 ^ 64
    → (m : ℕ) × (round_up n base ≡ ok m) × (n ≤ m) × (m < n + base) × (m % base ≡ 0)
unfolding round_up
round_up-Least n base positive small =
    let some_base : (base == 0) ≡ false = ground arith in
    elim (Bool-cases (n % base == 0)) [
      | inl even ↦ (n, rw (some_base, even) refl, omega arith, omega arith, ground arith)
      | inr odd ↦
          let rest : n % base < base = mod-lt n positive in
          let kept : u64 (n + base - n % base) ≡ n + base - n % base = ground arith in
          let next : n + base - n % base ≡ base * (n / base + 1) =
            grind (arith, mod-eq-sub-mul-div n base, mul-div-le n base) in
          let multiple : (n + base - n % base) % base ≡ 0 =
            ap (λ m. m % base) next ∙ mul-mod_right base (n / base + 1) in
          (n + base - n % base, rw (some_base, odd, kept) refl, omega arith, grind arith, multiple)
    ]
