-- ===== src/Pods/Coherent.antt =====
-- The reverse map of the store names only pods that exist and hold the process.
use vgpu_rs.Base.{
  ℕ, ◌≡◌, refl, sym, ap, ◌∙◌, subst, inl, inr, Bool, true, false, ◌||◌, List, [], ◌∷◌, Option, none,
  some, arith, ◌==◌, if◌then◌else◌, Bool-cases, Option-cases,
}
use vgpu_rs.Device.{DeviceConfig}
use vgpu_rs.Dict.{
  Dict, nat_eq, fetch, assign, HasDistinctKeys, fetch-assign, assign-HasDistinctKeys,
}
use vgpu_rs.Paths.{PodIdentifier, identifier_eq}
use vgpu_rs.Pods.{
  Text, PodStatus, member, add_member, drop_member, has_none, PodState, new_state, PodStateStore,
}
use vgpu_rs.Pods.Store.{
  Opening, join_error, open_error, opened, new, register_pod, open_shared_memory, update_pod_status,
}

pub member-add_member :
    (p q : ℕ) (ps : List ℕ) → member q (add_member p ps) ≡ (p == q || member q ps)
unfolding add_member
member-add_member p q ps = elim (Bool-cases (member p ps)) [
  | inl old ↦ elim (Bool-cases (p == q)) [
    | inl same ↦
        let at : p ≡ q = ground arith in rw (old, same) (subst (λ i. member i ps ≡ true) at old)
    | inr other ↦ rw (old, other)
  ]
  | inr fresh ↦ rw fresh
]

pub member-drop_member :
    (p q : ℕ) (ps : List ℕ) → member q (drop_member p ps) ≡ (if p == q then false else member q ps)
unfolding drop_member
member-drop_member p q [] = ground arith
member-drop_member p q (r ∷ ps) = ground (arith, member-drop_member p q ps)

pub member-has_none : (p : ℕ) (ps : List ℕ) → has_none ps ≡ true → member p ps ≡ false
member-has_none p [] h = refl
member-has_none p (q ∷ ps) h = cc

module _ {Info Handle : Type 0} where
  abbrev pub lists : Option (PodState Info Handle) → ℕ → Bool
  lists none p = false
  lists (some pod) p = member p pod.processes

  abbrev pub held : Option PodIdentifier → Dict PodIdentifier (PodState Info Handle) → ℕ → Bool
  held none pods p = true
  held (some id) pods p = lists (fetch id pods) p

  -- The pod that the reverse map names for the process holds it.
  abbrev pub owner_lists : PodStateStore Info Handle → ℕ → Bool
  owner_lists s p = held (fetch p s.pid_to_pod) s.pods p

  pub record IsCoherent (s : PodStateStore Info Handle) : Type 0 where
    pub owners : (p : ℕ) → owner_lists s p ≡ true
    pub pods_distinct : HasDistinctKeys s.pods
    pub pids_distinct : HasDistinctKeys s.pid_to_pod

  pub new-IsCoherent : (base : Text) → IsCoherent (new {Info = Info} {Handle = Handle} base)
  unfolding new fetch
  new-IsCoherent base = record { owners = λ p. refl; pods_distinct = tt; pids_distinct = tt }

  -- A pod is given a new state.
  pub lists-assign :
      (id owner : PodIdentifier) (pod : PodState Info Handle)
      (pods : Dict PodIdentifier (PodState Info Handle)) (p : ℕ)
      → lists (fetch owner (assign id pod pods)) p ≡ (
          if identifier_eq.beq id owner then member p pod.processes else lists (fetch owner pods) p)
  lists-assign id owner pod pods p =
      rw (fetch-assign id owner pod pods) (elim (Bool-cases (identifier_eq.beq id owner)) [
        | inl same ↦ rw same refl
        | inr other ↦ rw other refl
      ])

  pub held-assign :
      (owner : Option PodIdentifier) (id : PodIdentifier) (pod : PodState Info Handle)
      (pods : Dict PodIdentifier (PodState Info Handle)) (p : ℕ)
      → held owner pods p ≡ true
      → (lists (fetch id pods) p ≡ true → member p pod.processes ≡ true)
      → held owner (assign id pod pods) p ≡ true
  held-assign none id pod pods p before keeps = refl
  held-assign (some owner) id pod pods p before keeps =
      lists-assign id owner pod pods p ∙ (elim (Bool-cases (identifier_eq.beq id owner)) [
        | inl same ↦
            let at : id ≡ owner = (identifier_eq.beq_iff id owner).0 same in
            rw same (keeps (ap (λ i. lists (fetch i pods) p) at ∙ before))
        | inr other ↦ rw other before
      ])

  -- The pod is given a new state that holds as many processes.
  pub assign-IsCoherent :
      {s : PodStateStore Info Handle} (id : PodIdentifier) (pod : PodState Info Handle)
      → IsCoherent s
      → ((p : ℕ) → lists (fetch id s.pods) p ≡ true → member p pod.processes ≡ true)
      → IsCoherent (record s { pods = assign id pod s.pods })
  assign-IsCoherent {s} id pod c keeps = record {
    owners = λ p. held-assign (fetch p s.pid_to_pod) id pod s.pods p (c.owners p) (keeps p);
    pods_distinct = assign-HasDistinctKeys id pod s.pods c.pods_distinct;
    pids_distinct = c.pids_distinct;
  }

  pub lists_some :
      {o : Option (PodState Info Handle)} {pod : PodState Info Handle} (p : ℕ)
      → o ≡ some pod
      → lists o p ≡ true
      → member p pod.processes ≡ true
  lists_some p found h = ap (λ o. lists o p) (sym found) ∙ h

  pub lists_none :
      {o : Option (PodState Info Handle)} (p : ℕ) {b : Bool}
      → o ≡ none
      → lists o p ≡ true
      → b ≡ true
  lists_none p absent h = absurd (cc (ap (λ o. lists o p) (sym absent) ∙ h))

  -- Registering a pod keeps the store coherent, whether it is new or not.
  pub register_pod-IsCoherent :
      {s : PodStateStore Info Handle} (id : PodIdentifier) (info : Info)
      (configs : List DeviceConfig)
      → IsCoherent s
      → IsCoherent (register_pod id info configs s).0
  unfolding register_pod new_state
  register_pod-IsCoherent {s} id info configs c = elim (Option-cases (fetch id s.pods)) [
    | inl absent ↦ rw (absent, register_pod) (assign-IsCoherent id _ c (λ p. lists_none p absent))
    | inr (existing, found) ↦
        rw (found, register_pod) (assign-IsCoherent id _ c (λ p. lists_some p found))
  ]

  pub update_pod_status-IsCoherent :
      {s : PodStateStore Info Handle} (id : PodIdentifier) (status : PodStatus)
      → IsCoherent s
      → IsCoherent (update_pod_status id status s).0
  unfolding update_pod_status
  update_pod_status-IsCoherent {s} id status c = elim (Option-cases (fetch id s.pods)) [
    | inl absent ↦ rw (absent, update_pod_status) c
    | inr (existing, found) ↦
        rw (found, update_pod_status) (assign-IsCoherent id _ c (λ p. lists_some p found))
  ]

  pub open_shared_memory-IsCoherent :
      {s : PodStateStore Info Handle} (debug : Text → Text) (id : PodIdentifier)
      (o : Opening Handle)
      → IsCoherent s
      → IsCoherent (open_shared_memory debug id o s).0
  unfolding open_shared_memory
  open_shared_memory-IsCoherent debug id (join_error e) c = c
  open_shared_memory-IsCoherent debug id (open_error e) c = c
  open_shared_memory-IsCoherent {s} debug id (opened handle) c =
      elim (Option-cases (fetch id s.pods)) [
        | inl absent ↦ rw (absent, open_shared_memory) c
        | inr (existing, found) ↦
            rw (found, open_shared_memory) (assign-IsCoherent id _ c (λ p. lists_some p found))
      ]
