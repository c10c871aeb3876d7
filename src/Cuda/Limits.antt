-- ===== src/Cuda/Limits.antt =====
-- Queries of the limiter: memory, whether no device is limited, and the numbers of the devices
-- (`get_pod_memory_usage`, `all_devices_unlimited`, `device_raw_index_by_cu_device` and others of
-- crates/cuda-limiter/src/limiter.rs).
use vgpu_rs.Base.{
  ℕ, ◌≡◌, ◌≤◌, ◌↔◌, refl, sym, ap, ◌∙◌, inl, inr, Bool, true, false, List, [], ◌∷◌, Option, none,
  some, arith, ltb, ltb→le, le→ltb, if◌then◌else◌, All, get_elem?, length, Option-cases, u32,
}
use vgpu_rs.State.Versions.{SharedDeviceState, with_device}
use vgpu_rs.Dict.{Dict, nat_eq, fetch, assign, fetch-assign, beq_refl}
use vgpu_rs.Cuda.{device_not_configured, Answer, answer, error}

abbrev Text : Type 0
Text = List ℕ

-- The memory used by the pod and its limit. An unhealthy device is only logged.
unfoldable pub get_pod_memory_usage : Answer SharedDeviceState → ℕ → Answer (ℕ × ℕ)
unfolding with_device
get_pod_memory_usage (error e) index = error e
get_pod_memory_usage (answer state) index =
    elim ((with_device {A = ℕ × ℕ} state index
      (λ e. (e, (e.device_info.pod_memory_used, e.device_info.mem_limit)))
      (λ e. (e, (e.device_info.pod_memory_used, e.device_info.mem_limit)))).1) [
        | none ↦ error (device_not_configured index)
        | some usage ↦ answer usage
      ]

-- The limits of a device, zero if it has none.
unfoldable pub limits_or_zero : SharedDeviceState → ℕ → ℕ × ℕ
unfolding with_device
limits_or_zero state index =
    elim ((with_device {A = ℕ × ℕ} state index
      (λ e. (e, (e.device_info.up_limit, e.device_info.mem_limit)))
      (λ e. (e, (e.device_info.up_limit, e.device_info.mem_limit)))).1) [
        | none ↦ (0, 0)
        | some limits ↦ limits
      ]

unfoldable pub enough_memory : ℕ → Option ℕ → Bool
enough_memory mem_limit none = false
enough_memory mem_limit (some total) = if ltb mem_limit total then false else true

-- The loop over the devices; `total_memory` is what NVML answers for a device.
unfoldable pub unlimited_from : SharedDeviceState → (ℕ → Option ℕ) → List (ℕ × Text) → Bool
unfolding limits_or_zero enough_memory
unlimited_from state total_memory [] = true
unlimited_from state total_memory (gpu ∷ gpus) =
    let (up_limit, mem_limit) = limits_or_zero state gpu.0 in
    if ltb up_limit 100
    then false
    else if enough_memory mem_limit (total_memory gpu.0)
    then unlimited_from state total_memory gpus
    else false

unfoldable pub all_devices_unlimited :
    Answer SharedDeviceState → (ℕ → Option ℕ) → List (ℕ × Text) → Bool
unfolding unlimited_from
all_devices_unlimited (error e) total_memory gpu_idx_uuids = false
all_devices_unlimited (answer state) total_memory gpu_idx_uuids =
    unlimited_from state total_memory gpu_idx_uuids

unfoldable pub nvml_index_mapping : List (ℕ × Text) → ℕ → Answer ℕ
nvml_index_mapping gpu_idx_uuids index = elim (get_elem? gpu_idx_uuids index) [
  | none ↦ error (device_not_configured index)
  | some gpu ↦ answer gpu.0
]

unfoldable pub get_device_count : List (ℕ × Text) → ℕ
get_device_count gpu_idx_uuids = u32 (length gpu_idx_uuids)

-- The raw index of a device that is not in the mapping: its UUID, then the index that NVML has for it.
unfoldable pub remember : ℕ → Dict ℕ (ℕ × Text) → Text → Answer ℕ → Dict ℕ (ℕ × Text) × Answer ℕ
unfolding assign
remember cu_device mapping uuid (error e) = (mapping, error e)
remember cu_device mapping uuid (answer index) =
    (assign cu_device (index, uuid) mapping, answer index)

unfoldable pub look_up :
    (Text → Answer ℕ) → ℕ → Dict ℕ (ℕ × Text) → Answer Text → Dict ℕ (ℕ × Text) × Answer ℕ
unfolding remember
look_up index_of cu_device mapping (error e) = (mapping, error e)
look_up index_of cu_device mapping (answer uuid) = remember cu_device mapping uuid (index_of uuid)

unfoldable pub device_raw_index_by_cu_device :
    (ℕ → Answer Text) → (Text → Answer ℕ) → ℕ → Dict ℕ (ℕ × Text) → Dict ℕ (ℕ × Text) × Answer ℕ
unfolding fetch look_up
device_raw_index_by_cu_device uuid_of index_of cu_device mapping = elim (fetch cu_device mapping) [
  | some known ↦ (mapping, answer known.0)
  | none ↦ look_up index_of cu_device mapping (uuid_of cu_device)
]

-- The device is not limited: its limit is 100 or more, and its memory limit is not below its memory.
abbrev pub IsUnlimited : SharedDeviceState → (ℕ → Option ℕ) → ℕ × Text → Type 0
IsUnlimited state total_memory gpu =
    (100 ≤ (limits_or_zero state gpu.0).0)
    × ((total : ℕ) × (total_memory gpu.0 ≡ some total) × (total ≤ (limits_or_zero state gpu.0).1))

memory_fits :
    (mem_limit : ℕ) (o : Option ℕ)
    → enough_memory mem_limit o ≡ true
    → (total : ℕ) × (o ≡ some total) × (total ≤ mem_limit)
unfolding enough_memory
memory_fits mem_limit none h = cc
memory_fits mem_limit (some total) h = (total, refl, ground arith)

fits_memory :
    (mem_limit total : ℕ) (o : Option ℕ)
    → o ≡ some total
    → total ≤ mem_limit
    → enough_memory mem_limit o ≡ true
unfolding enough_memory
fits_memory mem_limit total o at h = rw (at, enough_memory) (rw (le→ltb mem_limit total h) refl)

all_tests :
    (p q r : Bool)
    → (if p then false else if q then r else false) ≡ true
    → (p ≡ false) × (q ≡ true) × (r ≡ true)
all_tests true q r h = cc
all_tests false true r h = (refl, refl, h)
all_tests false false r h = cc

module _ (state : SharedDeviceState) (total_memory : ℕ → Option ℕ) where
  unlimited→All :
      (gpus : List (ℕ × Text))
      → unlimited_from state total_memory gpus ≡ true
      → All (IsUnlimited state total_memory) gpus
  unfolding unlimited_from
  unlimited→All [] h = tt
  unlimited→All (gpu ∷ gpus) h =
      let limits = limits_or_zero state gpu.0 in
      let (high, fits, rest) =
        all_tests (ltb limits.0 100) (enough_memory limits.1 (total_memory gpu.0))
          (unlimited_from state total_memory gpus) h in
      ((ltb→le _ _ high, memory_fits limits.1 (total_memory gpu.0) fits), unlimited→All gpus rest)

  All→unlimited :
      (gpus : List (ℕ × Text))
      → All (IsUnlimited state total_memory) gpus
      → unlimited_from state total_memory gpus ≡ true
  unfolding unlimited_from
  All→unlimited [] a = refl
  All→unlimited (gpu ∷ gpus) a =
      let limits = limits_or_zero state gpu.0 in
      let (high, (total, known, fits)) = a.0 in
      rw
        (
          le→ltb limits.0 100 high,
          fits_memory limits.1 total (total_memory gpu.0) known fits,
          All→unlimited gpus a.1,
        )
        refl

  -- All devices count as unlimited exactly if each has a limit of 100 or more and a memory limit that is
  -- not below the memory that NVML reports for it.
  pub all_devices_unlimited_iff :
      (gpus : List (ℕ × Text))
      → (all_devices_unlimited (answer state) total_memory gpus ≡ true)
        ↔ All (IsUnlimited state total_memory) gpus
  unfolding all_devices_unlimited
  all_devices_unlimited_iff gpus = (unlimited→All gpus, All→unlimited gpus)

remembered :
    (cu_device i : ℕ) (mapping : Dict ℕ (ℕ × Text)) (uuid : Text) (a : Answer ℕ)
    → (remember cu_device mapping uuid a).1 ≡ answer i
    → fetch cu_device (remember cu_device mapping uuid a).0 ≡ some (i, uuid)
unfolding remember
remembered cu_device i mapping uuid (error e) h = cc
remembered cu_device i mapping uuid (answer index) h =
    fetch-assign cu_device cu_device (index, uuid) mapping ∙ rw (beq_refl cu_device) (cc)

found_later :
    (index_of : Text → Answer ℕ) (cu_device i : ℕ) (mapping : Dict ℕ (ℕ × Text)) (a : Answer Text)
    → (look_up index_of cu_device mapping a).1 ≡ answer i
    → (uuid : Text) × (fetch cu_device (look_up index_of cu_device mapping a).0 ≡ some (i, uuid))
unfolding look_up
found_later index_of cu_device i mapping (error e) h = cc
found_later index_of cu_device i mapping (answer uuid) h =
    (uuid, remembered cu_device i mapping uuid (index_of uuid) h)

known_index :
    (uuid_of : ℕ → Answer Text) (index_of : Text → Answer ℕ) (cu_device i : ℕ)
    (mapping : Dict ℕ (ℕ × Text))
    → (device_raw_index_by_cu_device uuid_of index_of cu_device mapping).1 ≡ answer i
    → (uuid : Text) × (fetch cu_device
          (device_raw_index_by_cu_device uuid_of index_of cu_device mapping).0
        ≡ some (i, uuid))
unfolding device_raw_index_by_cu_device
known_index uuid_of index_of cu_device i mapping h = elim (Option-cases (fetch cu_device mapping)) [
  | inl absent ↦
      let same : device_raw_index_by_cu_device uuid_of index_of cu_device mapping
          ≡ look_up index_of cu_device mapping (uuid_of cu_device) =
        rw (absent, device_raw_index_by_cu_device) refl in
      rw same (
        found_later index_of cu_device i mapping (uuid_of cu_device)
          (sym (ap (λ (r : Dict ℕ (ℕ × Text) × Answer ℕ). r.1) same) ∙ h))
  | inr (known, found) ↦
      let same : device_raw_index_by_cu_device uuid_of index_of cu_device mapping
          ≡ (mapping, answer known.0) =
        rw (found, device_raw_index_by_cu_device) refl in
      let at : known.0 ≡ i =
        answered (sym (ap (λ (r : Dict ℕ (ℕ × Text) × Answer ℕ). r.1) same) ∙ h) in
      rw same (known.1, found ∙ ap (λ k. some (k, known.1)) at)
]
  where
    answered : {a b : ℕ} → answer a ≡ answer b → a ≡ b
    answered e = cc

-- A raw index that was found once is given again by every later call on the mapping, whatever the
-- libraries then answer, and the mapping stays as it is.
pub device_raw_index_by_cu_device-again :
    (uuid_of uuid_of' : ℕ → Answer Text) (index_of index_of' : Text → Answer ℕ) (cu_device i : ℕ)
    (mapping : Dict ℕ (ℕ × Text))
    → (device_raw_index_by_cu_device uuid_of index_of cu_device mapping).1 ≡ answer i
    → let mapping' = (device_raw_index_by_cu_device uuid_of index_of cu_device mapping).0 in
      device_raw_index_by_cu_device uuid_of' index_of' cu_device mapping' ≡ (mapping', answer i)
unfolding device_raw_index_by_cu_device
device_raw_index_by_cu_device-again uuid_of uuid_of' index_of index_of' cu_device i mapping h =
    let (uuid, found) = known_index uuid_of index_of cu_device i mapping h in
    again (device_raw_index_by_cu_device uuid_of index_of cu_device mapping).0 uuid found
  where
    again :
        (m : Dict ℕ (ℕ × Text)) (uuid : Text)
        → fetch cu_device m ≡ some (i, uuid)
        → device_raw_index_by_cu_device uuid_of' index_of' cu_device m ≡ (m, answer i)
    again m uuid found =
        ap
          (λ (o : Option (ℕ × Text)). elim o [
            | some known ↦ (m, answer known.0)
            | none ↦ look_up index_of' cu_device m (uuid_of' cu_device)
          ])
          found
