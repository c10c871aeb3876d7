-- ===== src/Pods/Watch/Layout.antt =====
-- An update of the first layout in the monitoring cycle: the memory used, the share of cores, and the
-- heartbeat of a pod's memory.
use vgpu_rs.Base.{
  ℕ, ◌≡◌, ◌≤◌, ◌/◌, ◌^◌, refl, sym, ap, ◌∙◌, inl, inr, true, not, List, Option, none, some, ◌==◌,
  if◌then◌else◌, set, arith, Bool-cases, Outcome, ok, ◌>>=◌,
}
use vgpu_rs.Float.{Float}
use vgpu_rs.Device.{DeviceConfig}
use vgpu_rs.Device.V1
use vgpu_rs.Device.V1.{DeviceEntryV1, set_available_cores}
use vgpu_rs.State
use vgpu_rs.State.{DeviceState}
use vgpu_rs.State.Versions.{
  SharedDeviceState, v1, active_at, has_device, with_device, set_pod_memory_used, update_heartbeat,
  version,
}
use vgpu_rs.State.Versions.Access.{active_at-set, active_at-is_active, with_device_v1-some}
use vgpu_rs.Paths.{PodIdentifier}
use vgpu_rs.Pods.Shares.{
  DeviceSnapshot, get_pod_utilization, get_pod_memory, calculate_delta, current_share, write_share,
  update_v1_state,
}
use vgpu_rs.Pods.Shares.Delta.{IsModerate, Follows, calculate_delta-IsBounded}
use vgpu_rs.Pods.Watch.{
  UpdateError, device_not_found, put_memory, put_memory-same, put_memory-again, ErlConfig, Watch,
}
use vgpu_rs.Pods.Watch.Cycle.{beat, update_layout, update_opened, process_pod_utilization_update}

-- The entry with this memory used, and with this share.
abbrev pub with_used : ℕ → DeviceEntryV1 → DeviceEntryV1
with_used memory e = record e { device_info = V1.set_pod_memory_used e.device_info memory }

abbrev pub with_share : ℕ → DeviceEntryV1 → DeviceEntryV1
with_share share e = record e { device_info = set_available_cores e.device_info share }

-- The devices of the first layout after a write of the active one at an index.
abbrev put_entry : ℕ → DeviceEntryV1 → DeviceState DeviceEntryV1 → DeviceState DeviceEntryV1
put_entry index e s = record s { devices = set s.devices index e }

module _ (index : ℕ) (s : DeviceState DeviceEntryV1) (e : DeviceEntryV1)
    (found : active_at V1.is_active s.devices index ≡ some e) where
  used-v1 :
      (memory : ℕ)
      → (set_pod_memory_used (v1 s) index memory).0 ≡ v1 (put_entry index (with_used memory e) s)
  unfolding set_pod_memory_used with_device
  used-v1 memory =
      ap (λ (r : SharedDeviceState × Option (Unit {0})). r.0)
        (with_device_v1-some {A = Unit {0}} s index (λ d. (with_used memory d, tt)) e found)

  share-v1 : current_share (v1 s) index ≡ e.device_info.available_cuda_cores
  unfolding current_share with_device
  share-v1 =
      ap (λ (r : SharedDeviceState × Option ℕ). elim r.1 [ none ↦ 0 | some share ↦ share ])
        (with_device_v1-some s index (λ d. (d, d.device_info.available_cuda_cores)) e found)

  written-v1 :
      (share : ℕ) → write_share (v1 s) index share ≡ v1 (put_entry index (with_share share e) s)
  unfolding write_share with_device
  written-v1 share =
      ap (λ (r : SharedDeviceState × Option (Unit {0})). r.0)
        (with_device_v1-some {A = Unit {0}} s index (λ d. (with_share share d, tt)) e found)

share_written :
    (device : DeviceConfig) (total : ℕ) (s : DeviceState DeviceEntryV1) (e : DeviceEntryV1)
    → active_at V1.is_active s.devices device.device_idx ≡ some e
    → IsModerate device total (e.device_info.available_cuda_cores)
    → (share : ℕ) × (update_v1_state (v1 s) device device.device_idx total
        ≡ ok (v1 (put_entry device.device_idx (with_share share e) s)))
      × (share ≤ device.total_cuda_cores)
      × Follows device total (e.device_info.available_cuda_cores) share
unfolding update_v1_state
share_written device total s e found moderate =
    let index = device.device_idx in
    let (share, made, bound, follows) =
      calculate_delta-IsBounded device total (e.device_info.available_cuda_cores) moderate in
    let finish : ℕ → Outcome SharedDeviceState = λ share. ok (write_share (v1 s) index share) in
    (
      share,
      ap (λ old. calculate_delta device total old >>= finish) (share-v1 index s e found)
          ∙ ap (λ (o : Outcome ℕ). o >>= finish) made
          ∙ ap ok (written-v1 index s e found share),
      bound,
      follows,
    )

module _ (f : Float) (config : ErlConfig f) (pod : PodIdentifier) (device : DeviceConfig)
    (snapshot : DeviceSnapshot) (host_pids : List ℕ) (memory : ℕ) where
  abbrev pub total : ℕ
  total = get_pod_utilization snapshot host_pids

  layout_written :
      (w : Watch f) (s : DeviceState DeviceEntryV1) (e : DeviceEntryV1)
      → w.memories memory ≡ v1 s
      → active_at V1.is_active s.devices device.device_idx ≡ some e
      → IsModerate device total (e.device_info.available_cuda_cores)
      → (share : ℕ) × (update_layout f config pod device snapshot host_pids memory w
          ≡ ok (
            record w {
              memories =
                  put_memory memory
                    (v1 (put_entry device.device_idx (with_share share e) s))
                    w.memories;
            },
            none,
          ))
        × (share ≤ device.total_cuda_cores)
        × Follows device total (e.device_info.available_cuda_cores) share
  unfolding update_layout version
  layout_written w s e layout found moderate =
      let (share, made, bound, follows) = share_written device total s e found moderate in
      let finish : SharedDeviceState → Outcome (Watch f × Option UpdateError) =
        λ state'. ok (record w { memories = put_memory memory state' w.memories }, none) in
      let first : (w.memories memory ≡ v1 s) → (version (w.memories memory) == 1) ≡ true =
        λ h. ap (λ st. version st == 1) h in
      (
        share,
        rw (first layout) (
            ap (λ st. update_v1_state st device device.device_idx total >>= finish) layout
            ∙ ap (λ (o : Outcome SharedDeviceState). o >>= finish) made),
        bound,
        follows,
      )

  -- After an update: the pod's memory has the heartbeat of the snapshot and, for the device, the memory
  -- used and the new share; its other devices, the other memories, and the controllers are as before.
  pub record HasShared (w : Watch f) (s : DeviceState DeviceEntryV1) (e : DeviceEntryV1)
      (w' : Watch f) : Type 0 where
    pub state : DeviceState DeviceEntryV1
    pub share : ℕ
    pub layout : w'.memories memory ≡ v1 state
    pub heartbeat : state.last_heartbeat ≡ snapshot.timestamp / 10 ^ 6
    pub entries :
        (j : ℕ)
        → active_at V1.is_active state.devices j ≡ (
            if device.device_idx == j
            then some (with_share share (with_used (get_pod_memory snapshot host_pids) e))
            else active_at V1.is_active s.devices j)
    pub bounded : share ≤ device.total_cuda_cores
    pub follows : Follows device total (e.device_info.available_cuda_cores) share
    pub elsewhere : (j : ℕ) → w'.memories j ≡ put_memory memory (w'.memories memory) w.memories j
    pub same_controllers : w'.controllers ≡ w.controllers

  kept_active :
      (g : DeviceEntryV1 → DeviceEntryV1) (s : DeviceState DeviceEntryV1) (e : DeviceEntryV1)
      (index : ℕ)
      → ((d : DeviceEntryV1) → V1.is_active (g d) ≡ V1.is_active d)
      → active_at V1.is_active s.devices index ≡ some e
      → V1.is_active (g e) ≡ true
  kept_active g s e index same found =
      same e ∙ active_at-is_active V1.is_active s.devices index e found

  -- An update of a pod whose path leads to a memory of the first layout that has the device neither
  -- panics nor fails, if the device, its limit, the pod's utilisation and the old share are moderate (as
  -- for the new share). The new share lies between zero and all cores, and follows the utilisation.
  pub process_pod_utilization_update-HasShared :
      (w : Watch f) (s : DeviceState DeviceEntryV1) (e : DeviceEntryV1)
      → w.memories memory ≡ v1 s
      → has_device f (v1 s) device.device_idx ≡ true
      → active_at V1.is_active s.devices device.device_idx ≡ some e
      → IsModerate device total (e.device_info.available_cuda_cores)
      → (w' : Watch f) × (process_pod_utilization_update f config pod
            (some memory)
            device
            snapshot
            host_pids
            w
          ≡ ok (w', none))
        × HasShared w s e w'
  unfolding process_pod_utilization_update update_opened beat update_heartbeat V1.is_active
      V1.set_pod_memory_used set_available_cores State.update_heartbeat
  process_pod_utilization_update-HasShared w s e layout has found moderate =
      let index = device.device_idx in
      let used = get_pod_memory snapshot host_pids in
      let e1 : DeviceEntryV1 = with_used used e in
      let s1 : DeviceState DeviceEntryV1 = put_entry index e1 s in
      let put1 : Watch f = record w { memories = put_memory memory (v1 s1) w.memories } in
      let entries1 = λ (j : ℕ).
        active_at-set V1.is_active s.devices index j e e1 found
          (kept_active (with_used used) s e index (λ d. refl) found) in
      let here : (index == index) ≡ true = ground arith in
      let found1 : active_at V1.is_active s1.devices index ≡ some e1 =
        entries1 index ∙ rw here refl in
      let (share, updated, bound, follows) =
        layout_written put1 s1 e1 (put_memory-same memory (v1 s1) w.memories) found1 moderate in
      let e2 : DeviceEntryV1 = with_share share e1 in
      let s2 : DeviceState DeviceEntryV1 = put_entry index e2 s1 in
      let w2 : Watch f = record put1 { memories = put_memory memory (v1 s2) put1.memories } in
      let s3 : DeviceState DeviceEntryV1 = record s2 {
        last_heartbeat = snapshot.timestamp / 10 ^ 6;
      } in
      let w3 : Watch f = record w2 { memories = put_memory memory (v1 s3) w2.memories } in
      let time = snapshot.timestamp in
      let body : SharedDeviceState → Outcome (Watch f × Option UpdateError) = λ st.
        update_layout f config pod device snapshot host_pids memory
          (record w { memories = put_memory memory st w.memories })
        >>= λ out. ok (beat f time memory out) in
      let whole : SharedDeviceState → Outcome (Watch f × Option UpdateError) = λ st.
        if not (has_device f st index)
        then ok (w, some (device_not_found index))
        else body (set_pod_memory_used st index used).0 in
      let opened : whole (v1 s) ≡ body (v1 s1) = rw has (ap body (used-v1 index s e found used)) in
      (
        w3,
        ap whole layout
            ∙ opened
            ∙ ap
                (λ (o : Outcome (Watch f × Option UpdateError)).
                  o >>= λ out. ok (beat f time memory out))
                updated
            ∙ ap
                (λ st. ok (
                  record w2 {
                    memories = put_memory memory (update_heartbeat st (time / 10 ^ 6)) w2.memories;
                  },
                  none,
                ))
                (put_memory-same memory (v1 s2) put1.memories),
        record {
          state = s3;
          share = share;
          layout = put_memory-same memory (v1 s3) w2.memories;
          heartbeat = refl;
          entries = λ j.
              active_at-set V1.is_active s1.devices index j e1 e2 found1
                (kept_active (with_share share) s1 e1 index (λ d. refl) found1)
              ∙ elim (Bool-cases (index == j)) [
                | inl same ↦ rw same refl
                | inr other ↦ rw other (entries1 j ∙ rw other refl)
              ];
          bounded = bound;
          follows = follows;
          elsewhere = λ j.
              put_memory-again memory (v1 s2) (v1 s3) put1.memories j
              ∙ put_memory-again memory (v1 s1) (v1 s3) w.memories j
              ∙ ap (λ st. put_memory memory st w.memories j)
                  (sym (put_memory-same memory (v1 s3) w2.memories));
          same_controllers = refl;
        },
      )
