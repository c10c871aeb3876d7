-- ===== src/Cuda/Cores.antt =====
-- What an attempt on the first layout does with the cores of a device.
use vgpu_rs.Base.{
  ℕ, ◌+◌, ◌-◌, ◌^◌, ◌≡◌, ◌≤◌, ◌<◌, refl, sym, ap, ◌∙◌, inl, inr, true, Option, none, some, arith,
  leb, ltb, ◌||◌, ◌%◌, set, if◌then◌else◌, u32, Bool-cases, Option-cases,
}
use vgpu_rs.Device.V1
use vgpu_rs.Device.V1.{DeviceEntryV1, fetch_sub_available_cores}
use vgpu_rs.Device.V2.{DeviceEntryV2}
use vgpu_rs.State.{DeviceState}
use vgpu_rs.State.Versions.{SharedDeviceState, v1, v2, active_at, with_device_v1}
use vgpu_rs.State.Versions.Access.{
  active_at-set, active_at-is_active, with_device_v1-none, with_device_v1-some,
}
use vgpu_rs.Cuda.{answer, i32_ge, after_taking, subtract_cores, available_cores, attempt_v1}

some_cores : {a b : ℕ} → some a ≡ some b → a ≡ b
some_cores h = cc

-- The cores that are left, by the bits.
abbrev left : ℕ → ℕ → ℕ
left a size = u32 (a + 2 ^ 32 - size)

available_v1 :
    (index : ℕ) (s : DeviceState DeviceEntryV1) {e : DeviceEntryV1}
    → active_at V1.is_active s.devices index ≡ some e
    → available_cores index (v1 s) ≡ some (e.device_info.available_cuda_cores)
unfolding available_cores
available_v1 index s {e} found =
    ap (λ (r : SharedDeviceState × Option ℕ). r.1)
      (with_device_v1-some s index (λ e. (e, e.device_info.available_cuda_cores)) e found)

unavailable_v1 :
    (index : ℕ) (s : DeviceState DeviceEntryV1)
    → active_at V1.is_active s.devices index ≡ none
    → available_cores index (v1 s) ≡ none
unfolding available_cores
unavailable_v1 index s gap =
    ap (λ (r : SharedDeviceState × Option ℕ). r.1)
      (with_device_v1-none s index (λ e. (e, e.device_info.available_cuda_cores)) gap)

unavailable_v2 : (index : ℕ) (s : DeviceState DeviceEntryV2) → available_cores index (v2 s) ≡ none
unfolding available_cores with_device_v1
unavailable_v2 index s = refl

kept_active :
    (e : DeviceEntryV1) (size : ℕ)
    → V1.is_active e ≡ true
    → V1.is_active (subtract_cores size e).0 ≡ true
unfolding V1.is_active subtract_cores
kept_active e size h = h

taken_v1 :
    (index size : ℕ) (s : DeviceState DeviceEntryV1) {e : DeviceEntryV1}
    → active_at V1.is_active s.devices index ≡ some e
    → let (s', r) = after_taking index (with_device_v1 (v1 s) index (subtract_cores size)) in
      (r ≡ answer true)
      × (available_cores index s' ≡ some (left (e.device_info.available_cuda_cores) size))
unfolding subtract_cores fetch_sub_available_cores after_taking
taken_v1 index size s {e} found =
    let e' = (subtract_cores size e).0 in
    let done = with_device_v1-some s index (subtract_cores size) e found in
    let there : active_at V1.is_active (set s.devices index e') index ≡ some e' =
      active_at-set V1.is_active s.devices index index e e' found
        (kept_active e size (active_at-is_active V1.is_active s.devices index e found))
      ∙ ground arith in
    rw done (refl, available_v1 index (record s { devices = set s.devices index e' }) there)

-- One attempt, by the bits of the available cores and of the kernel's size.
attempt_lem :
    (index size a : ℕ) (state : SharedDeviceState)
    → available_cores index state ≡ some a
    → ((attempt_v1 index size state).1 ≡ answer (i32_ge a size))
      × (available_cores index (attempt_v1 index size state).0
          ≡ some (if i32_ge a size then left a size else a))
unfolding attempt_v1
attempt_lem index size a (v2 s) has = absurd (cc (sym (unavailable_v2 index s) ∙ has))
attempt_lem index size a (v1 s) has = elim (Option-cases (active_at V1.is_active s.devices index)) [
  | inl gap ↦ absurd (cc (sym (unavailable_v1 index s gap) ∙ has))
  | inr (e, found) ↦
      let same : e.device_info.available_cuda_cores ≡ a =
        some_cores (sym (available_v1 index s found) ∙ has) in
      elim (Bool-cases (i32_ge a size)) [
        | inl fits ↦
            let taken = taken_v1 index size s found in
            rw (has, attempt_v1, fits) (taken.0, taken.1 ∙ ap (λ n. some (left n size)) same)
        | inr short ↦ rw (has, attempt_v1, short) (refl, has)
      ]
]

-- With cores that are available, not negative, and a kernel of less than 2^31 blocks: the attempt is
-- granted exactly if the kernel's blocks do not exceed the cores, which are then fewer by the blocks
-- and not negative; otherwise they are as they were.
pub attempt_v1-Takes :
    (index grids a : ℕ) (state : SharedDeviceState)
    → available_cores index state ≡ some a
    → a < 2 ^ 31
    → grids < 2 ^ 31
    → ((attempt_v1 index grids state).1 ≡ answer (leb grids a))
      × (available_cores index (attempt_v1 index grids state).0
          ≡ some (if leb grids a then a - grids else a))
attempt_v1-Takes index grids a state has cores small =
    let (granted, after) = attempt_lem index grids a state has in
    let same : i32_ge a grids ≡ leb grids a = ground arith in
    (
      granted ∙ ap answer same,
      after ∙ (elim (Bool-cases (leb grids a)) [
        | inl fits ↦ rw (same, fits) (ap some (ground arith))
        | inr short ↦ rw (same, short) refl
      ]),
    )

-- A kernel of 2^31 blocks or more counts as negative, and a word of cores of 2^31 or more as well. With
-- cores that are not negative such a kernel is granted; with negative cores exactly if its word is not
-- above that of the cores. If it is granted, the word of the cores grows by what the blocks lack to 2^32,
-- modulo 2^32; if not, it stays.
pub attempt_v1-wide :
    (index grids a : ℕ) (state : SharedDeviceState)
    → available_cores index state ≡ some a
    → a < 2 ^ 32
    → 2 ^ 31 ≤ grids
    → grids < 2 ^ 32
    → ((attempt_v1 index grids state).1 ≡ answer (ltb a (2 ^ 31) || leb grids a))
      × (available_cores index (attempt_v1 index grids state).0
          ≡ some (if ltb a (2 ^ 31) || leb grids a then (a + (2 ^ 32 - grids)) % 2 ^ 32 else a))
attempt_v1-wide index grids a state has cores wide word =
    let (granted, after) = attempt_lem index grids a state has in
    let same : i32_ge a grids ≡ (ltb a (2 ^ 31) || leb grids a) = ground arith in
    let grown : left a grids ≡ (a + (2 ^ 32 - grids)) % 2 ^ 32 = omega arith in
    (granted ∙ ap answer same, after ∙ rw (same, grown) refl)
