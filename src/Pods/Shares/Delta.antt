-- ===== src/Pods/Shares/Delta.antt =====
-- The new share of cores stays between zero and the cores of the device.
use vgpu_rs.Base.{
  ℕ, ◌+◌, ◌-◌, ◌*◌, ◌/◌, ◌^◌, ◌≡◌, ◌≤◌, ◌<◌, ◌⊎◌, refl, ap, ◌∙◌, inl, inr, arith, leb,
  if◌then◌else◌, u32, Outcome, ok, ◌>>=◌, Bool-cases,
}
use vgpu_rs.Device.{DeviceConfig}
use vgpu_rs.Pods.Shares.{
  i32_add, i32_sub, i32_mul, i32_lt, i32_div, base_increment, scale_above, scale_increment,
  calculate_increment, utilization_diff, adjust_share, calculate_delta,
}

i32_div_pos : (a b : ℕ) → a < 2 ^ 31 → 0 < b → b < 2 ^ 31 → i32_div a b ≡ ok (a / b)
unfolding i32_div
i32_div_pos a b ha positive hb = ground arith

-- The power of the device, in the unit of the increments.
abbrev pub power : DeviceConfig → ℕ
power device = device.sm_count * device.sm_count * device.max_thread_per_sm

power_word :
    (device : DeviceConfig)
    → device.sm_count ≤ 2 ^ 13
    → device.max_thread_per_sm < 2 ^ 32
    → power device ≤ 2 ^ 26
    → i32_mul (i32_mul (u32 device.sm_count) (u32 device.sm_count)) (u32 device.max_thread_per_sm)
      ≡ power device
power_word device few word small =
    let s : u32 device.sm_count ≡ device.sm_count = omega arith in
    let t : u32 device.max_thread_per_sm ≡ device.max_thread_per_sm = omega arith in
    let square : device.sm_count * device.sm_count ≤ 2 ^ 13 * 2 ^ 13 = grind arith in
    let ss : u32 (device.sm_count * device.sm_count) ≡ device.sm_count * device.sm_count =
      omega arith in
    rw (s, t, ss) (omega arith)

base_increment_lem :
    (device : DeviceConfig) (d : ℕ)
    → device.sm_count ≤ 2 ^ 13
    → device.max_thread_per_sm < 2 ^ 32
    → power device ≤ 2 ^ 26
    → d ≤ 200
    → (increment : ℕ) × (base_increment device d ≡ ok increment) × (increment ≤ 2 ^ 18 * 200 / 10)
unfolding base_increment
base_increment_lem device d few word small near =
    let p = power device in
    let cores : p / 256 ≤ 2 ^ 18 = omega arith in
    let product : p / 256 * d ≤ 2 ^ 18 * 200 = grind arith in
    let kept : i32_mul (p / 256) d ≡ p / 256 * d = omega arith in
    (
      p / 256 * d / 10,
      ap (λ m. i32_div m 256 >>= λ c. i32_div (i32_mul c d) 10) (power_word device few word small)
          ∙ ap (λ (o : Outcome ℕ). o >>= λ c. i32_div (i32_mul c d) 10)
              (i32_div_pos p 256 (omega arith) (omega arith) (omega arith))
          ∙ ap (λ m. i32_div m 10) kept
          ∙ i32_div_pos (p / 256 * d) 10 (omega arith) (omega arith) (omega arith),
      omega arith,
    )

scale_increment_lem :
    (up_limit d increment : ℕ)
    → up_limit ≤ 100
    → d ≤ 200
    → increment ≤ 2 ^ 18 * 200 / 10
    → (scaled : ℕ) × (scale_increment up_limit d increment ≡ ok scaled)
      × (scaled ≤ 2 ^ 18 * 200 / 10 * 400)
unfolding scale_increment scale_above
scale_increment_lem up_limit d increment limited near small =
    let half =
      ap (λ (o : Outcome ℕ). o >>= λ h. scale_above h up_limit d increment)
        (i32_div_pos up_limit 2 (omega arith) (omega arith) (omega arith)) in
    elim (Bool-cases (i32_lt (up_limit / 2) d)) [
      | inr close ↦ (increment, half ∙ rw (close) refl, omega arith)
      | inl far ↦
          let product : increment * d ≤ 2 ^ 18 * 200 / 10 * 200 = grind arith in
          let kept : i32_mul (i32_mul increment d) 2 ≡ increment * d * 2 = omega arith in
          let next : i32_add up_limit 1 ≡ up_limit + 1 = omega arith in
          (
            increment * d * 2 / (up_limit + 1),
            half
                ∙ rw (far, kept, next)
                    (i32_div_pos (increment * d * 2) (up_limit + 1) (omega arith) (omega arith)
                      (omega arith)),
            grind arith,
          )
    ]

utilization_diff-le :
    (up_limit user_current : ℕ)
    → up_limit ≤ 100
    → user_current ≤ 200
    → utilization_diff up_limit user_current ≤ 200
unfolding utilization_diff
utilization_diff-le up_limit user_current limited near = ground arith

-- What the limits, the configuration and the share are in practice.
pub record IsModerate (device : DeviceConfig) (user_current share : ℕ) : Type 0 where
  pub few : device.sm_count ≤ 2 ^ 13
  pub word : device.max_thread_per_sm < 2 ^ 32
  pub powerful : power device ≤ 2 ^ 26
  pub limited : device.up_limit ≤ 100
  pub near : user_current ≤ 200
  pub cores : device.total_cuda_cores ≤ 2 ^ 25
  pub within : share ≤ device.total_cuda_cores

calculate_increment_lem :
    (device : DeviceConfig) (user_current share : ℕ)
    → IsModerate device user_current share
    → (increment : ℕ) × (calculate_increment device
          (utilization_diff (u32 device.up_limit) user_current)
        ≡ ok increment)
      × (increment ≤ 2 ^ 18 * 200 / 10 * 400)
unfolding calculate_increment
calculate_increment_lem device user_current share m =
    let up : u32 device.up_limit ≡ device.up_limit = omega (arith, m.limited) in
    let d = utilization_diff (u32 device.up_limit) user_current in
    let low : u32 device.up_limit ≤ 100 = omega (arith, m.limited) in
    let near : d ≤ 200 = utilization_diff-le (u32 device.up_limit) user_current low m.near in
    let (increment, made, small) = base_increment_lem device d m.few m.word m.powerful near in
    let (scaled, done, bound) =
      scale_increment_lem (u32 device.up_limit) d increment low near small in
    (
      scaled,
      ap (λ (o : Outcome ℕ). o >>= λ i. scale_increment (u32 device.up_limit) d i) made ∙ done,
      bound,
    )

-- The share grows if the utilisation is within the limit, and falls if it is above.
abbrev pub Follows : DeviceConfig → ℕ → ℕ → ℕ → Type 0
Follows device user_current share new_share =
    ((user_current ≤ device.up_limit) × (share ≤ new_share))
    ⊎ ((device.up_limit < user_current) × (new_share ≤ share))

rise-le :
    (total share increment : ℕ)
    → total ≤ 2 ^ 25
    → share ≤ total
    → increment ≤ 2 ^ 18 * 200 / 10 * 400
    → let risen =
        if i32_lt (u32 total) (i32_add share increment)
        then u32 total
        else i32_add share increment in
      (risen ≤ total) × (share ≤ risen)
rise-le total share increment few within small =
    let kept : i32_add share increment ≡ share + increment = omega arith in
    let word : u32 total ≡ total = omega arith in
    rw (kept, word)
      elim (Bool-cases (i32_lt total (share + increment))) [
        | inl over ↦ rw over (omega arith, within)
        | inr inside ↦ rw inside (ground arith, omega arith)
      ]

fall-le :
    (total share increment : ℕ)
    → total ≤ 2 ^ 25
    → share ≤ total
    → increment ≤ 2 ^ 18 * 200 / 10 * 400
    → let fallen = if i32_lt (i32_sub share increment) 0 then 0 else i32_sub share increment in
      (fallen ≤ total) × (fallen ≤ share)
fall-le total share increment few within small =
    elim (Bool-cases (i32_lt (i32_sub share increment) 0)) [
      | inl negative ↦ rw negative (omega arith, omega arith)
      | inr positive ↦
          let above : increment ≤ share = ground arith in
          let kept : i32_sub share increment ≡ share - increment = omega arith in
          rw (positive, kept) (omega arith, omega arith)
    ]

adjust_share_lem :
    (device : DeviceConfig) (user_current share increment : ℕ)
    → IsModerate device user_current share
    → increment ≤ 2 ^ 18 * 200 / 10 * 400
    → (adjust_share device user_current share increment ≤ device.total_cuda_cores)
      × Follows device user_current share (adjust_share device user_current share increment)
unfolding adjust_share
adjust_share_lem device user_current share increment m small =
    elim (Bool-cases (leb user_current device.up_limit)) [
      | inl low ↦
          let (bound, more) =
            rise-le device.total_cuda_cores share increment m.cores m.within small in
          rw low (bound, inl (ground arith, more))
      | inr high ↦
          let (bound, less) =
            fall-le device.total_cuda_cores share increment m.cores m.within small in
          rw high (bound, inr (ground arith, less))
    ]

-- The new share of a device (the cores that its limiter may take) does not panic, lies between zero
-- and all cores of the device, and is not below the old one if the utilisation is within the limit,
-- and not above it otherwise. The conditions: at most 2^13 multiprocessors, their square times the
-- threads of one at most 2^26, at most 2^25 cores, a limit of at most 100, a utilisation of at most
-- 200, and an old share within the cores.
pub calculate_delta-IsBounded :
    (device : DeviceConfig) (user_current share : ℕ)
    → IsModerate device user_current share
    → (new_share : ℕ) × (calculate_delta device user_current share ≡ ok new_share)
      × (new_share ≤ device.total_cuda_cores)
      × Follows device user_current share new_share
unfolding calculate_delta
calculate_delta-IsBounded device user_current share m =
    let (increment, made, small) = calculate_increment_lem device user_current share m in
    let (bound, follows) = adjust_share_lem device user_current share increment m small in
    (
      adjust_share device user_current share increment,
      ap (λ (o : Outcome ℕ). o >>= λ i. ok (adjust_share device user_current share i)) made,
      bound,
      follows,
    )
