-- ===== src/Pods/Manager/Search.antt =====
-- The search for the processes of all pods, with the removal of pods that the cluster has lost.
use vgpu_rs.Base.{
  ℕ, ◌≡◌, refl, sym, ap, ◌∙◌, ◌⊎◌, inl, inr, subst, Bool, true, false, ◌||◌, List, [], ◌∷◌, ◌++◌,
  Option, some, arith, if◌then◌else◌, Bool-cases, Option-cases,
}
use vgpu_rs.Dict.{Dict, nat_eq, fetch, keys, fetch-erase}
use vgpu_rs.Paths.{PodIdentifier, identifier_eq}
use vgpu_rs.Pods.{member, has_none, PodState, PodStateStore}
use vgpu_rs.Pods.Store.{get_pod_processes, unregister_pod}
use vgpu_rs.Pods.Coherent.{lists, held, member-has_none, IsCoherent}
use vgpu_rs.Pods.Processes.{unregister_pod-IsCoherent}
use vgpu_rs.Pods.Effects.{listed, get_pod_processes-listed}
use vgpu_rs.Pods.Manager.{visit_pod, track_pids}

member-append : (p : ℕ) (xs ys : List ℕ) → member p (xs ++ ys) ≡ (member p xs || member p ys)
member-append p [] ys = refl
member-append p (x ∷ xs) ys = ground (arith, member-append p xs ys)

abbrev pub names : PodIdentifier → List PodIdentifier → Bool
names id [] = false
names id (other ∷ ids) = identifier_eq.beq other id || names id ids

module _ {Info Handle : Type 0} where
  pub names-keys :
      (id : PodIdentifier) (pods : Dict PodIdentifier (PodState Info Handle)) (p : ℕ)
      → lists (fetch id pods) p ≡ true
      → names id (keys pods) ≡ true
  unfolding fetch
  names-keys id [] p h = cc
  names-keys id (entry ∷ pods) p h = elim (Bool-cases (identifier_eq.beq entry.0 id)) [
    | inl same ↦ rw same refl
    | inr other ↦ rw other (
        names-keys id pods p
          (ap (λ b. lists (if b then some entry.1 else fetch id pods) p) (sym other) ∙ h))
  ]

  -- An owner lists its process.
  pub owner_lists_it :
      {s : PodStateStore Info Handle} (p : ℕ) {id : PodIdentifier}
      → IsCoherent s
      → fetch p s.pid_to_pod ≡ some id
      → listed s id p ≡ true
  owner_lists_it {s} p c owned = ap (λ o. held o s.pods p) (sym owned) ∙ c.owners p

  pub owner_found :
      {s : PodStateStore Info Handle} (p : ℕ) {id : PodIdentifier}
      → IsCoherent s
      → fetch p s.pid_to_pod ≡ some id
      → (pod : PodState Info Handle) × (fetch id s.pods ≡ some pod)
  owner_found {s} p {id} c owned = elim (Option-cases (fetch id s.pods)) [
    | inl absent ↦ absurd (cc (ap (λ o. lists o p) (sym absent) ∙ owner_lists_it p c owned))
    | inr pod ↦ pod
  ]

  -- A pod that is unregistered had no processes.
  unregister_pod-listed :
      (id : PodIdentifier) (s : PodStateStore Info Handle) (other : PodIdentifier) (j : ℕ)
      → listed (unregister_pod id s).0 other j ≡ listed s other j
  unfolding unregister_pod
  unregister_pod-listed id s other j = elim (Option-cases (fetch id s.pods)) [
    | inl absent ↦ rw (absent, unregister_pod) refl
    | inr (pod, found) ↦
        rw (found, unregister_pod)
          (elim (Bool-cases (has_none pod.processes)) [
            | inr busy ↦ rw busy refl
            | inl empty ↦ rw empty (
                rw (fetch-erase id other s.pods) (elim (Bool-cases (identifier_eq.beq id other)) [
                  | inr apart ↦ rw apart refl
                  | inl same ↦
                      let at : id ≡ other = (identifier_eq.beq_iff id other).0 same in
                      rw same (
                        sym (
                          ap (λ i. lists (fetch i s.pods) j) (sym at)
                          ∙ ap (λ o. lists o j) found
                          ∙ member-has_none j pod.processes empty))
                ]))
          ])
  ]

  unregister_pod-owner :
      (id : PodIdentifier) (s : PodStateStore Info Handle)
      → (unregister_pod id s).0.pid_to_pod ≡ s.pid_to_pod
  unfolding unregister_pod
  unregister_pod-owner id s = elim (Option-cases (fetch id s.pods)) [
    | inl absent ↦ rw (absent, unregister_pod) refl
    | inr (pod, found) ↦
        rw (found, unregister_pod)
          (elim (Bool-cases (has_none pod.processes)) [
            | inr busy ↦ rw busy refl
            | inl empty ↦ rw empty refl
          ])
  ]

  module _ (pod_exists : PodIdentifier → Option Bool) where
    visit_either :
        (id : PodIdentifier) (s : PodStateStore Info Handle)
        → (visit_pod pod_exists id s ≡ s) ⊎ (visit_pod pod_exists id s ≡ (unregister_pod id s).0)
    unfolding visit_pod
    visit_either id s = elim (Bool-cases (has_none (get_pod_processes id s))) [
      | inr busy ↦ inl (rw (busy, visit_pod) refl)
      | inl empty ↦ elim (Option-cases (pod_exists id)) [
        | inl unknown ↦ inl (rw (empty, visit_pod, unknown) refl)
        | inr (exists, answer) ↦ elim (Bool-cases exists) [
          | inl there ↦ inl (rw (empty, visit_pod, answer, there) refl)
          | inr gone ↦ inr (rw (empty, visit_pod, answer, gone) refl)
        ]
      ]
    ]

    -- A visit keeps who owns and lists each process.
    visit-listed :
        (id : PodIdentifier) (s : PodStateStore Info Handle) (other : PodIdentifier) (j : ℕ)
        → listed (visit_pod pod_exists id s) other j ≡ listed s other j
    visit-listed id s other j = elim (visit_either id s) [
      | inl same ↦ ap (λ t. listed t other j) same
      | inr gone ↦ ap (λ t. listed t other j) gone ∙ unregister_pod-listed id s other j
    ]

    visit-owner :
        (id : PodIdentifier) (s : PodStateStore Info Handle)
        → (visit_pod pod_exists id s).pid_to_pod ≡ s.pid_to_pod
    visit-owner id s = elim (visit_either id s) [
      | inl same ↦ ap (λ t. t.pid_to_pod) same
      | inr gone ↦ ap (λ t. t.pid_to_pod) gone ∙ unregister_pod-owner id s
    ]

    visit-IsCoherent :
        (id : PodIdentifier) (s : PodStateStore Info Handle)
        → IsCoherent s
        → IsCoherent (visit_pod pod_exists id s)
    visit-IsCoherent id s c = elim (visit_either id s) [
      | inl same ↦ subst IsCoherent (sym same) c
      | inr gone ↦ subst IsCoherent (sym gone) (unregister_pod-IsCoherent id c)
    ]

    pub track_pids-owner :
        (ids : List PodIdentifier) (s : PodStateStore Info Handle)
        → (track_pids pod_exists ids s).0.pid_to_pod ≡ s.pid_to_pod
    unfolding track_pids
    track_pids-owner [] s = refl
    track_pids-owner (id ∷ ids) s =
        track_pids-owner ids (visit_pod pod_exists id s) ∙ visit-owner id s

    pub track_pids-IsCoherent :
        (ids : List PodIdentifier) (s : PodStateStore Info Handle)
        → IsCoherent s
        → IsCoherent (track_pids pod_exists ids s).0
    unfolding track_pids
    track_pids-IsCoherent [] s c = c
    track_pids-IsCoherent (id ∷ ids) s c =
        track_pids-IsCoherent ids (visit_pod pod_exists id s) (visit-IsCoherent id s c)

    -- Every process of a pod that the search visits is found.
    pub track_pids-member :
        (ids : List PodIdentifier) (s : PodStateStore Info Handle) (id : PodIdentifier) (p : ℕ)
        → names id ids ≡ true
        → listed s id p ≡ true
        → member p (track_pids pod_exists ids s).1 ≡ true
    unfolding track_pids
    track_pids-member [] s id p named h = cc
    track_pids-member (other ∷ ids) s id p named h =
        let later = (track_pids pod_exists ids (visit_pod pod_exists other s)).1 in
        member-append p (get_pod_processes other s) later
        ∙ (elim (Bool-cases (identifier_eq.beq other id)) [
          | inl same ↦
              let at : other ≡ id = (identifier_eq.beq_iff other id).0 same in
              let here : member p (get_pod_processes other s) ≡ true =
                get_pod_processes-listed s other p ∙ ap (λ i. listed s i p) at ∙ h in
              rw here refl
          | inr apart ↦
              let rest : member p later ≡ true =
                track_pids-member ids (visit_pod pod_exists other s) id p
                  (ap (λ b. b || names id ids) (sym apart) ∙ named)
                  (visit-listed other s id p ∙ h) in
              rw rest (ground arith)
        ])
