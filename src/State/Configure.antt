-- ===== src/State/Configure.antt =====
-- `new`: which devices are active, what their entries hold, and how many there are.
use vgpu_rs.Base.{
  ℕ, zero, suc, ◌+◌, ◌≤◌, ◌<◌, ◌≡◌, refl, sym, ap, ◌∙◌, inl, inr, Bool, true, false, not, ◌&&◌,
  ◌||◌, List, [], ◌∷◌, arith, length, get_or, set, replicate, length-set, length-replicate,
  get_or-set, Bool-cases, ltb, leb, ◌==◌, if◌then◌else◌,
}
use vgpu_rs.Device.{DeviceConfig}
use vgpu_rs.State.{
  max_devices, EntryOps, saturating_succ, enumerate_from, keep, configure_device, configure_devices,
  new, has_device, iter_active_devices,
}

-- Is there a configuration of the device?
abbrev pub names : List DeviceConfig → ℕ → Bool
names [] i = false
names (c ∷ configs) i = c.device_idx == i || names configs i

abbrev one_if : Bool → ℕ
one_if b = if b then 1 else 0

module _ {ℓ} {A : Type ℓ} (p : A → Bool) where
  length-keep_step :
      (x : A) (xs : List A) → length (keep p (x ∷ xs)) ≡ one_if (p x) + length (keep p xs)
  unfolding keep
  length-keep_step x xs = ground arith

  length-keep-set :
      (xs : List A) (i : ℕ) (v d : A)
      → i < length xs
      → length (keep p (set xs i v)) + one_if (p (get_or xs i d))
        ≡ length (keep p xs) + one_if (p v)
  length-keep-set [] i v d h = elim h [ ]
  length-keep-set (x ∷ xs) zero v d h = omega (arith, length-keep_step x xs, length-keep_step v xs)
  length-keep-set (x ∷ xs) (suc i) v d h = omega (
    arith,
    length-keep_step x xs,
    length-keep_step x (set xs i v),
    length-keep-set xs i v d (omega arith),
  )

  length-keep-le : (xs : List A) → length (keep p xs) ≤ length xs
  unfolding keep
  length-keep-le [] = omega arith
  length-keep-le (x ∷ xs) = ground (arith, length-keep-le xs)

  length-keep-enumerate :
      (i : ℕ) (xs : List A) → length (keep (λ t. p t.1) (enumerate_from i xs)) ≡ length (keep p xs)
  unfolding keep enumerate_from
  length-keep-enumerate i [] = refl
  length-keep-enumerate i (x ∷ xs) = ground (arith, length-keep-enumerate (i + 1) xs)

  keep-none : (n : ℕ) (v : A) → p v ≡ false → length (keep p (replicate n v)) ≡ 0
  unfolding keep
  keep-none zero v e = refl
  keep-none (suc n) v e = rw e (keep-none n v e)

get_or-replicate {ℓ} : {A : Type ℓ} (n i : ℕ) (v : A) → get_or (replicate n v) i v ≡ v
get_or-replicate zero i v = refl
get_or-replicate (suc n) zero v = refl
get_or-replicate (suc n) (suc i) v = get_or-replicate n i v

module _ {E : Type 0} (ops : EntryOps E) where
  open ops use {blank, is_active, configure, blank_inactive, configure_active}

  -- The entry of a device after its configurations, in order.
  pub entry_of : ℕ → ℕ → List DeviceConfig → E → E
  entry_of now i [] e = e
  entry_of now i (c ∷ configs) e =
      entry_of now i configs (if c.device_idx == i then configure c now e else e)

  -- One round: what it leaves at each index, and the count.
  record Round (now : ℕ) (devices : List E) (n : ℕ) (c : DeviceConfig) : Type 0 where
    sized : length (configure_device ops now (devices, n) c).0 ≡ max_devices
    entry :
        (i : ℕ)
        → i < max_devices
        → get_or (configure_device ops now (devices, n) c).0 i blank ≡ (
            if c.device_idx == i
            then configure c now (get_or devices i blank)
            else get_or devices i blank)
    counted :
        (configure_device ops now (devices, n) c).1
        ≡ length (keep is_active (configure_device ops now (devices, n) c).0)

  module _ (now : ℕ) (devices : List E) (n : ℕ) (c : DeviceConfig)
      (sized : length devices ≡ max_devices) (counted : n ≡ length (keep is_active devices)) where
    Round-skipped : leb max_devices c.device_idx ≡ true → Round now devices n c
    unfolding configure_device
    Round-skipped skip = record {
      sized = rw skip sized;
      entry = λ i h. let e : (c.device_idx == i) ≡ false = ground arith in rw (skip, e);
      counted = rw skip counted;
    }

    abbrev old : E
    old = get_or devices c.device_idx blank

    abbrev stored : List E
    stored = set devices c.device_idx (configure c now old)

    entry_stored :
        c.device_idx < max_devices
        → (i : ℕ)
        → get_or stored i blank ≡ (
            if c.device_idx == i
            then configure c now (get_or devices i blank)
            else get_or devices i blank)
    entry_stored h i =
        get_or-set devices c.device_idx i (configure c now old) blank (omega (arith, sized))
        ∙ elim (Bool-cases (c.device_idx == i)) [
          | inl same ↦ let e : c.device_idx ≡ i = ground arith in rw (same, e)
          | inr other ↦ rw other
        ]

    count_stored :
        c.device_idx < max_devices
        → (if not (is_active old) then saturating_succ n else n) ≡ length (keep is_active stored)
    count_stored h =
        let grown =
          length-keep-set is_active devices c.device_idx (configure c now old) blank
            (omega (arith, sized)) in
        let le = length-keep-le is_active devices in
        ground (arith, grown, le, configure_active c now old)

    Round-stored : leb max_devices c.device_idx ≡ false → Round now devices n c
    unfolding configure_device
    Round-stored fits = record {
      sized = rw fits (length-set devices c.device_idx _ ∙ sized);
      entry = λ i h. rw fits (entry_stored (ground arith) i);
      counted = rw fits (count_stored (ground arith));
    }

    round : Round now devices n c
    round = elim (Bool-cases (leb max_devices c.device_idx)) [
      | inl skip ↦ Round-skipped skip
      | inr fits ↦ Round-stored fits
    ]

  record Rounds (now : ℕ) (devices : List E) (n : ℕ) (configs : List DeviceConfig) : Type 0 where
    sized : length (configure_devices ops now (devices, n) configs).0 ≡ max_devices
    entry :
        (i : ℕ)
        → i < max_devices
        → get_or (configure_devices ops now (devices, n) configs).0 i blank
          ≡ entry_of now i configs (get_or devices i blank)
    counted :
        (configure_devices ops now (devices, n) configs).1
        ≡ length (keep is_active (configure_devices ops now (devices, n) configs).0)

  rounds :
      (now : ℕ) (devices : List E) (n : ℕ) (configs : List DeviceConfig)
      → length devices ≡ max_devices
      → n ≡ length (keep is_active devices)
      → Rounds now devices n configs
  unfolding configure_devices entry_of
  rounds now devices n [] sized counted = record {
    sized = sized;
    entry = λ i h. refl;
    counted = counted;
  }
  rounds now devices n (c ∷ configs) sized counted =
      let r = round now devices n c sized counted in
      let (devices', n') = configure_device ops now (devices, n) c in
      let rest = rounds now devices' n' configs r.sized r.counted in
      record {
        sized = rest.sized;
        entry = λ i h. rest.entry i h ∙ ap (entry_of now i configs) (r.entry i h);
        counted = rest.counted;
      }

  start :
      (now : ℕ) (configs : List DeviceConfig) → Rounds now (replicate max_devices blank) 0 configs
  start now configs =
      rounds now (replicate max_devices blank) 0 configs (length-replicate max_devices blank)
        (sym (keep-none is_active max_devices blank blank_inactive))

  -- After `new`, the entry of a device in range is what the configurations that name it make, in
  -- order, of a blank entry; and `device_count` is the number of active entries.
  pub new-devices :
      (pid now : ℕ) (configs : List DeviceConfig) (i : ℕ)
      → i < max_devices
      → (get_or (new ops pid now configs).devices i blank ≡ entry_of now i configs blank)
        × ((new ops pid now configs).device_count
            ≡ length (iter_active_devices ops (new ops pid now configs)))
  unfolding new iter_active_devices
  new-devices pid now configs i h =
      let r = start now configs in
      (
        r.entry i h ∙ ap (entry_of now i configs) (get_or-replicate max_devices i blank),
        r.counted ∙ sym (length-keep-enumerate is_active 0 _),
      )

  entry_of-active :
      (now i : ℕ) (configs : List DeviceConfig) (e : E)
      → is_active (entry_of now i configs e) ≡ (names configs i || is_active e)
  unfolding entry_of
  entry_of-active now i [] e = refl
  entry_of-active now i (c ∷ configs) e = elim (Bool-cases (c.device_idx == i)) [
    | inl same ↦ rw same (
        entry_of-active now i configs (configure c now e)
        ∙ ground (arith, configure_active c now e))
    | inr other ↦ rw other (entry_of-active now i configs e)
  ]

  -- After `new`, the devices are those in range that a configuration names.
  pub has_device-new :
      (pid now : ℕ) (configs : List DeviceConfig) (i : ℕ)
      → has_device ops (new ops pid now configs) i ≡ (ltb i max_devices && names configs i)
  unfolding has_device
  has_device-new pid now configs i = elim (Bool-cases (ltb i max_devices)) [
    | inr out ↦ rw out
    | inl inside ↦ rw inside (
        ap is_active ((new-devices pid now configs i (ground arith)).0)
        ∙ entry_of-active now i configs blank
        ∙ ground (arith, blank_inactive))
  ]
