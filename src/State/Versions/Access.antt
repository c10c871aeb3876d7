-- ===== src/State/Versions/Access.antt =====
-- Access to a device through the two layouts.
use vgpu_rs.Base.{
  ℕ, ◌≡◌, refl, ap, subst, ◌⊎◌, inl, inr, Bool, true, false, List, Option, none, some, arith,
  length, set, get_elem?-set, get_elem?_ge, Bool-cases, Option-cases, ltb, ◌==◌, if◌then◌else◌,
}
use vgpu_rs.Device.V1
use vgpu_rs.Device.V1.{DeviceEntryV1}
use vgpu_rs.Device.V2
use vgpu_rs.Device.V2.{DeviceEntryV2}
use vgpu_rs.State.{DeviceState}
use vgpu_rs.State.Versions.{
  SharedDeviceState, DeviceSummary, with_device_v1, with_device_v2, v1, v2, active_at, with_device,
  get_device_info, set_pod_memory_used, view_v1, view_v2,
}

module _ {E : Type 0} (is_active : E → Bool) (devices : List E) where
  pub active_at-set :
      (index j : ℕ) (e e' : E)
      → active_at is_active devices index ≡ some e
      → is_active e' ≡ true
      → active_at is_active (set devices index e') j
        ≡ (if index == j then some e' else active_at is_active devices j)
  unfolding active_at
  active_at-set index j e e' found active = elim (Bool-cases (ltb index (length devices))) [
    | inl inside ↦
        rw (get_elem?-set devices index j e' (ground arith), active_at)
          (elim (Bool-cases (index == j)) [ inl same ↦ rw same (rw active) | inr other ↦ rw other ])
    | inr out ↦ let gap = get_elem?_ge devices index (ground arith) in ground arith
  ]

  pub active_at-is_active :
      (index : ℕ) (e : E) → active_at is_active devices index ≡ some e → is_active e ≡ true
  unfolding active_at
  active_at-is_active index e found = ground arith

  -- A look at the devices through a view, after a change of the device at an index.
  module _ {D : Type 0} (view : E → D) (touch : E → E) (touch_view : D → D) where
    abbrev look : List E → ℕ → Option D
    look ds j = elim (active_at is_active ds j) [ none ↦ none | some e ↦ some (view e) ]

    look-set :
        (index j : ℕ) (e : E)
        → active_at is_active devices index ≡ some e
        → is_active (touch e) ≡ true
        → view (touch e) ≡ touch_view (view e)
        → look (set devices index (touch e)) j ≡ (
            if index == j
            then elim (look devices j) [ none ↦ none | some d ↦ some (touch_view d) ]
            else look devices j)
    look-set index j e found active touched =
        rw (active_at-set index j e (touch e) found active, look)
          (elim (Bool-cases (index == j)) [
            | inl same ↦
                let at : index ≡ j = ground arith in
                let here : active_at is_active devices j ≡ some e =
                  subst (λ i. active_at is_active devices i ≡ some e) at found in
                rw (same, here) (ap some touched)
            | inr other ↦ rw other refl
          ])

    unchanged :
        (index j : ℕ)
        → active_at is_active devices index ≡ none
        → look devices j ≡ (
            if index == j
            then elim (look devices j) [ none ↦ none | some d ↦ some (touch_view d) ]
            else look devices j)
    unchanged index j gap = elim (Bool-cases (index == j)) [
      | inl same ↦
          let at : index ≡ j = ground arith in
          let here : active_at is_active devices j ≡ none =
            subst (λ i. active_at is_active devices i ≡ none) at gap in
          rw (same, here, look)
      | inr other ↦ rw other refl
    ]

-- `get_device_info` shows a device exactly if there is one at the index.
abbrev pub shown : Option DeviceSummary → Bool
shown none = false
shown (some _) = true

module _ {A : Type 0} where
  pub with_device_v1-none :
      (s : DeviceState DeviceEntryV1) (index : ℕ) (g : DeviceEntryV1 → DeviceEntryV1 × A)
      → active_at V1.is_active s.devices index ≡ none
      → with_device_v1 (v1 s) index g ≡ (v1 s, none)
  unfolding with_device_v1
  with_device_v1-none s index g gap = rw (gap, with_device_v1) refl

  pub with_device_v1-some :
      (s : DeviceState DeviceEntryV1) (index : ℕ) (g : DeviceEntryV1 → DeviceEntryV1 × A)
      (e : DeviceEntryV1)
      → active_at V1.is_active s.devices index ≡ some e
      → with_device_v1 (v1 s) index g
        ≡ (v1 (record s { devices = set s.devices index (g e).0 }), some (g e).1)
  unfolding with_device_v1
  with_device_v1-some s index g e found = rw (found, with_device_v1) refl

  pub with_device_v2-none :
      (s : DeviceState DeviceEntryV2) (index : ℕ) (g : DeviceEntryV2 → DeviceEntryV2 × A)
      → active_at V2.is_active s.devices index ≡ none
      → with_device_v2 (v2 s) index g ≡ (v2 s, none)
  unfolding with_device_v2
  with_device_v2-none s index g gap = rw (gap, with_device_v2) refl

  pub with_device_v2-some :
      (s : DeviceState DeviceEntryV2) (index : ℕ) (g : DeviceEntryV2 → DeviceEntryV2 × A)
      (e : DeviceEntryV2)
      → active_at V2.is_active s.devices index ≡ some e
      → with_device_v2 (v2 s) index g
        ≡ (v2 (record s { devices = set s.devices index (g e).0 }), some (g e).1)
  unfolding with_device_v2
  with_device_v2-some s index g e found = rw (found, with_device_v2) refl

abbrev reported : SharedDeviceState × Option (Unit {0}) → SharedDeviceState × Bool
reported (s, done) = (s, elim done [ none ↦ false | some _ ↦ true ])

abbrev touch_v1 : ℕ → DeviceEntryV1 → DeviceEntryV1
touch_v1 memory e = record e { device_info = V1.set_pod_memory_used e.device_info memory }

abbrev touch_v2 : ℕ → DeviceEntryV2 → DeviceEntryV2
touch_v2 memory e = record e { device_info = V2.set_pod_memory_used e.device_info memory }

abbrev shown_memory : ℕ → DeviceSummary → DeviceSummary
shown_memory memory d = record d { pod_memory_used = memory }

set_memory_v1 :
    (s : DeviceState DeviceEntryV1) (index memory : ℕ)
    → ((active_at V1.is_active s.devices index ≡ none)
        × (set_pod_memory_used (v1 s) index memory ≡ (v1 s, false)))
      ⊎ ((e : DeviceEntryV1) × (active_at V1.is_active s.devices index ≡ some e)
          × (set_pod_memory_used (v1 s) index memory
              ≡ (v1 (record s { devices = set s.devices index (touch_v1 memory e) }), true)))
unfolding set_pod_memory_used with_device
set_memory_v1 s index memory = elim (Option-cases (active_at V1.is_active s.devices index)) [
  | inl gap ↦ inl (gap, ap reported (with_device_v1-none s index _ gap))
  | inr (e, found) ↦ inr (e, found, ap reported (with_device_v1-some s index _ e found))
]

set_memory_v2 :
    (s : DeviceState DeviceEntryV2) (index memory : ℕ)
    → ((active_at V2.is_active s.devices index ≡ none)
        × (set_pod_memory_used (v2 s) index memory ≡ (v2 s, false)))
      ⊎ ((e : DeviceEntryV2) × (active_at V2.is_active s.devices index ≡ some e)
          × (set_pod_memory_used (v2 s) index memory
              ≡ (v2 (record s { devices = set s.devices index (touch_v2 memory e) }), true)))
unfolding set_pod_memory_used with_device
set_memory_v2 s index memory = elim (Option-cases (active_at V2.is_active s.devices index)) [
  | inl gap ↦ inl (gap, ap reported (with_device_v2-none s index _ gap))
  | inr (e, found) ↦ inr (e, found, ap reported (with_device_v2-some s index _ e found))
]

-- In both layouts: to set the memory of a device reports whether an active device has the index; if
-- so, `get_device_info` of that device shows the new value and otherwise what it showed, and no other
-- device shows a change.
pub set_pod_memory_used-get_device_info :
    (s : SharedDeviceState) (index memory j : ℕ)
    → let (s', done) = set_pod_memory_used s index memory in
      (done ≡ shown (get_device_info s index))
      × (get_device_info s' j ≡ (
          if index == j
          then elim (get_device_info s j) [
            | none ↦ none
            | some d ↦ some (record d { pod_memory_used = memory })
          ]
          else get_device_info s j))
unfolding get_device_info V1.get_uuid V2.get_uuid V1.is_active V2.is_active V1.set_pod_memory_used
    V2.set_pod_memory_used
set_pod_memory_used-get_device_info (v1 s) index memory j = elim (set_memory_v1 s index memory) [
  | inl (gap, kept) ↦ (
    rw (kept, gap, get_device_info) refl,
    rw (kept) (
        unchanged V1.is_active s.devices view_v1 (touch_v1 memory) (shown_memory memory) index j
          gap),
  )
  | inr (e, found, written) ↦ (
    rw (written, found, get_device_info) refl,
    rw written (
        look-set V1.is_active s.devices view_v1 (touch_v1 memory) (shown_memory memory) index j e
          found (active_at-is_active V1.is_active s.devices index e found) refl),
  )
]
set_pod_memory_used-get_device_info (v2 s) index memory j = elim (set_memory_v2 s index memory) [
  | inl (gap, kept) ↦ (
    rw (kept, gap, get_device_info) refl,
    rw (kept) (
        unchanged V2.is_active s.devices view_v2 (touch_v2 memory) (shown_memory memory) index j
          gap),
  )
  | inr (e, found, written) ↦ (
    rw (written, found, get_device_info) refl,
    rw written (
        look-set V2.is_active s.devices view_v2 (touch_v2 memory) (shown_memory memory) index j e
          found (active_at-is_active V2.is_active s.devices index e found) refl),
  )
]
