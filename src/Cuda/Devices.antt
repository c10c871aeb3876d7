-- ===== src/Cuda/Devices.antt =====
-- The devices of a limiter: `Limiter`, `new`, `insert_cu_device_if_not_exists` and
-- `device_raw_index_by_nvml_handle` of crates/cuda-limiter/src/limiter.rs. What the CUDA and NVML
-- libraries answer are arguments.
use vgpu_rs.Base.{
  ℕ, ◌≡◌, refl, sym, ap, ◌∙◌, inl, inr, Bool, true, false, ◌||◌, ◌&&◌, List, [], ◌∷◌, Option, none,
  some, ltb, ◌==◌, if◌then◌else◌, Option-cases,
}
use vgpu_rs.Dict.{Dict, nat_eq, bytes_beq, fetch, contains_key, fetch-assign, beq_refl}
use vgpu_rs.Cuda.{Answer, answer, error, CachedUpLimit}
use vgpu_rs.Cuda.Limits.{remember, look_up, device_raw_index_by_cu_device}

abbrev Text : Type 0
Text = List ℕ

-- The order of texts by their bytes.
unfoldable pub text_leb : Text → Text → Bool
text_leb [] t = true
text_leb (a ∷ s) [] = false
text_leb (a ∷ s) (b ∷ t) = ltb a b || (a == b && text_leb s t)

unfoldable pub insert_text : Text → List Text → List Text
unfolding text_leb
insert_text s [] = s ∷ []
insert_text s (t ∷ ts) = if text_leb s t then s ∷ t ∷ ts else t ∷ insert_text s ts

unfoldable pub sort_texts : List Text → List Text
unfolding insert_text
sort_texts [] = []
sort_texts (t ∷ ts) = insert_text t (sort_texts ts)

-- `dedup` keeps the first of a run of equal texts.
unfoldable pub dedup_after : Text → List Text → List Text
dedup_after s [] = []
dedup_after s (t ∷ ts) = if bytes_beq s t then dedup_after s ts else t ∷ dedup_after t ts

unfoldable pub dedup : List Text → List Text
unfolding dedup_after
dedup [] = []
dedup (t ∷ ts) = t ∷ dedup_after t ts

-- The index of each device; the first failure ends the loop.
unfoldable pub with_indices : (Text → Answer ℕ) → List Text → Answer (List (ℕ × Text))
with_indices index_of [] = answer []
with_indices index_of (uuid ∷ uuids) =
    let rest = with_indices index_of uuids in
    elim (index_of uuid) [
      | error e ↦ error e
      | answer index ↦ elim rest [ error e ↦ error e | answer gpus ↦ answer ((index, uuid) ∷ gpus) ]
    ]

pub record DeviceDim : Type 0 where
  pub block_x : ℕ
  pub block_y : ℕ
  pub block_z : ℕ

-- The state of a limiter. Its two cells are empty until they are first used, and NVML is an argument
-- of what calls it.
pub record Limiter : Type 0 where
  pub current_devices_dim : Dict ℕ DeviceDim
  pub cu_device_mapping : Dict ℕ (ℕ × Text)
  pub gpu_idx_uuids : List (ℕ × Text)
  pub compute_shard : Bool
  pub isolation : Option Text
  pub up_limit_cache : Dict ℕ CachedUpLimit

unfoldable pub assemble : Bool → Option Text → Answer (List (ℕ × Text)) → Answer Limiter
assemble compute_shard isolation (error e) = error e
assemble compute_shard isolation (answer gpu_idx_uuids) = answer (record {
  current_devices_dim = [];
  cu_device_mapping = [];
  gpu_idx_uuids = gpu_idx_uuids;
  compute_shard = compute_shard;
  isolation = isolation;
  up_limit_cache = [];
})

-- `index_of` is the index that NVML gives the device with a UUID, or its failure. (The source asks for
-- the UUID with the prefix "GPU-" in place of "gpu-".)
unfoldable pub new : (Text → Answer ℕ) → List Text → Bool → Option Text → Answer Limiter
unfolding sort_texts dedup with_indices assemble
new index_of gpu_uuids compute_shard isolation =
    assemble compute_shard isolation (with_indices index_of (dedup (sort_texts gpu_uuids)))

abbrev pub forget : {A : Type 0} → Answer A → Answer (Unit {0})
forget (answer a) = answer tt
forget (error e) = error e

unfoldable pub insert_cu_device_if_not_exists :
    Answer Text → (Text → Answer ℕ) → ℕ → Dict ℕ (ℕ × Text) → Dict ℕ (ℕ × Text) × Answer (Unit {0})
unfolding fetch look_up
insert_cu_device_if_not_exists uuid index_of cu_device mapping =
    if contains_key cu_device mapping
    then (mapping, answer tt)
    else let (mapping', index) = look_up index_of cu_device mapping uuid in (mapping', forget index)

-- The first device that has the handle; a device whose handle is not to be had is passed over. `none`
-- is the error that the device is not found.
unfoldable pub device_raw_index_by_nvml_handle : (ℕ → Answer ℕ) → ℕ → List (ℕ × Text) → Option ℕ
device_raw_index_by_nvml_handle handle_of handle [] = none
device_raw_index_by_nvml_handle handle_of handle (gpu ∷ gpus) =
    let rest = device_raw_index_by_nvml_handle handle_of handle gpus in
    elim (handle_of gpu.0) [
      | error e ↦ rest
      | answer found ↦ if found == handle then some gpu.0 else rest
    ]

remembered :
    (cu_device : ℕ) (mapping : Dict ℕ (ℕ × Text)) (uuid : Text) (index : Answer ℕ)
    → forget (remember cu_device mapping uuid index).1 ≡ answer tt
    → (known : ℕ × Text) × (fetch cu_device (remember cu_device mapping uuid index).0 ≡ some known)
unfolding remember
remembered cu_device mapping uuid (error e) done = cc
remembered cu_device mapping uuid (answer index) done = (
  (index, uuid),
  fetch-assign cu_device cu_device (index, uuid) mapping ∙ rw (beq_refl cu_device) refl,
)

looked_up :
    (index_of : Text → Answer ℕ) (cu_device : ℕ) (mapping : Dict ℕ (ℕ × Text)) (uuid : Answer Text)
    → forget (look_up index_of cu_device mapping uuid).1 ≡ answer tt
    → (known : ℕ × Text) × (fetch cu_device (look_up index_of cu_device mapping uuid).0
        ≡ some known)
unfolding look_up
looked_up index_of cu_device mapping (error e) done = cc
looked_up index_of cu_device mapping (answer uuid) done =
    remembered cu_device mapping uuid (index_of uuid) done

known_index :
    (uuid_of : ℕ → Answer Text) (later : Text → Answer ℕ) (cu_device : ℕ)
    (mapping : Dict ℕ (ℕ × Text)) (known : ℕ × Text)
    → fetch cu_device mapping ≡ some known
    → device_raw_index_by_cu_device uuid_of later cu_device mapping ≡ (mapping, answer known.0)
unfolding device_raw_index_by_cu_device
known_index uuid_of later cu_device mapping known found =
    rw (found, device_raw_index_by_cu_device) refl

inserted :
    (uuid : Answer Text) (index_of : Text → Answer ℕ) (cu_device : ℕ) (mapping : Dict ℕ (ℕ × Text))
    → (insert_cu_device_if_not_exists uuid index_of cu_device mapping).1 ≡ answer tt
    → (known : ℕ × Text) × (fetch cu_device
          (insert_cu_device_if_not_exists uuid index_of cu_device mapping).0
        ≡ some known)
unfolding insert_cu_device_if_not_exists
inserted uuid index_of cu_device mapping done =
    let made = look_up index_of cu_device mapping uuid in
    let start : Option (ℕ × Text) → Dict ℕ (ℕ × Text) × Answer (Unit {0}) = λ o.
      if (elim o [ none ↦ false | some k ↦ true ])
      then (mapping, answer tt)
      else (made.0, forget made.1) in
    elim (Option-cases (fetch cu_device mapping)) [
      | inr (known, found) ↦ (known, ap (λ o. fetch cu_device (start o).0) found ∙ found)
      | inl absent ↦
          let (known, found) =
            looked_up index_of cu_device mapping uuid (sym (ap (λ o. (start o).1) absent) ∙ done) in
          (known, ap (λ o. fetch cu_device (start o).0) absent ∙ found)
    ]

-- Once a device was inserted without an error, its raw index is found in the mapping, whatever the
-- libraries then answer, and the mapping stays as it is.
pub device_raw_index_by_cu_device-insert :
    (uuid : Answer Text) (index_of : Text → Answer ℕ) (cu_device : ℕ) (mapping : Dict ℕ (ℕ × Text))
    (uuid_of : ℕ → Answer Text) (later : Text → Answer ℕ)
    → let (mapping', done) = insert_cu_device_if_not_exists uuid index_of cu_device mapping in
      done ≡ answer tt
      → (index : ℕ) × (device_raw_index_by_cu_device uuid_of later cu_device mapping'
          ≡ (mapping', answer index))
device_raw_index_by_cu_device-insert uuid index_of cu_device mapping uuid_of later done =
    let (known, found) = inserted uuid index_of cu_device mapping done in
    (
      known.0,
      known_index uuid_of later cu_device
          (insert_cu_device_if_not_exists uuid index_of cu_device mapping).0 known found,
    )
