-- ===== src/Pods/Manager/Exits.antt =====
-- `handle_process_exited` and `check_and_cleanup_dead_processes` forget the dead processes.
use vgpu_rs.Base.{
  ℕ, ◌≡◌, refl, sym, ap, ◌∙◌, ◌⊎◌, inl, inr, Bool, true, false, ◌||◌, List, [], ◌∷◌, Option, none,
  some, arith, ◌==◌, if◌then◌else◌, Bool-cases, Option-cases,
}
use vgpu_rs.Dict.{nat_eq, fetch, keys}
use vgpu_rs.Paths.{PodIdentifier, identifier_eq}
use vgpu_rs.Pods.{member, done}
use vgpu_rs.Pods.Store.{get_pod_by_pid, list_pod_identifiers}
use vgpu_rs.Pods.Coherent.{IsCoherent}
use vgpu_rs.Pods.Processes.{unregister_process-IsCoherent}
use vgpu_rs.Pods.Effects.{unregister_process-owner, unregister_process-done}
use vgpu_rs.Pods.Hypervisor.{ProcessTable}
use vgpu_rs.Pods.Manager.{
  PodManager, handle_process_exited, track_pids, clean_dead, check_and_cleanup_dead_processes,
}
use vgpu_rs.Pods.Manager.Search.{
  names-keys, owner_found, owner_lists_it, track_pids-owner, track_pids-IsCoherent,
  track_pids-member,
}

module _ (table : ProcessTable) where
  open table use {Table, process_exists, remove, exists-remove}

  removed :
      (p : ℕ) (t : Table) → process_exists (if process_exists t p then remove p t else t) p ≡ false
  removed p t = elim (Bool-cases (process_exists t p)) [
    | inl there ↦ rw there (exists-remove p p t ∙ ground arith)
    | inr absent ↦ rw absent absent
  ]

module _ (table : ProcessTable) {Info Handle : Type 0} where
  open table use {Table, process_exists}

  abbrev pub owner : ℕ → PodManager Table Info Handle → Option PodIdentifier
  owner p m = fetch p m.pod_state_store.pid_to_pod

  -- In a coherent store, a process that exited and that a pod owned is owned by none, the hypervisor has
  -- it no longer, and the call succeeds; every other process keeps its owner, and the store stays
  -- coherent.
  pub handle_process_exited-Forgets :
      (p : ℕ) (m : PodManager Table Info Handle) {id : PodIdentifier}
      → IsCoherent m.pod_state_store
      → get_pod_by_pid p m.pod_state_store ≡ some id
      → ((handle_process_exited table p m).1 ≡ done tt)
        × ((j : ℕ)
            → fetch j (handle_process_exited table p m).0.pod_state_store.pid_to_pod
              ≡ (if p == j then none else fetch j m.pod_state_store.pid_to_pod))
        × (process_exists (handle_process_exited table p m).0.hypervisor p ≡ false)
        × IsCoherent (handle_process_exited table p m).0.pod_state_store
  unfolding handle_process_exited get_pod_by_pid
  handle_process_exited-Forgets p m {id} c owned =
      let (pod, found) = owner_found p c owned in
      rw (owned, handle_process_exited, get_pod_by_pid)
        (
          unregister_process-done m.pod_state_store id p found,
          unregister_process-owner m.pod_state_store id p found,
          removed table p m.hypervisor,
          unregister_process-IsCoherent id p c,
        )

  -- The same of the owners and of coherence, for any process.
  handled :
      (p : ℕ) (m : PodManager Table Info Handle)
      → IsCoherent m.pod_state_store
      → IsCoherent (handle_process_exited table p m).0.pod_state_store
        × ((j : ℕ)
            → owner j (handle_process_exited table p m).0 ≡ (if p == j then none else owner j m))
  unfolding handle_process_exited get_pod_by_pid
  handled p m c = elim (Option-cases (get_pod_by_pid p m.pod_state_store)) [
    | inl nobody ↦
        rw (nobody, handle_process_exited, get_pod_by_pid)
          (
            c,
            λ j. elim (Bool-cases (p == j)) [
              | inl same ↦
                  let at : p ≡ j = ground arith in rw same (ap (λ i. owner i m) (sym at) ∙ nobody)
              | inr other ↦ rw other refl
            ],
          )
    | inr (id, owned) ↦
        let forgets = handle_process_exited-Forgets p m c owned in (forgets.3, forgets.1)
  ]

  module _ (is_pid_alive : ℕ → Bool) (j : ℕ) (dead : is_pid_alive j ≡ false) where
    clean_dead-owner :
        (pids : List ℕ) (m : PodManager Table Info Handle)
        → IsCoherent m.pod_state_store
        → (member j pids ≡ true) ⊎ (owner j m ≡ none)
        → owner j (clean_dead table is_pid_alive pids m).0 ≡ none
    unfolding clean_dead
    clean_dead-owner [] m c (inl h) = cc
    clean_dead-owner [] m c (inr h) = h
    clean_dead-owner (p ∷ pids) m c known = elim (Bool-cases (is_pid_alive p)) [
      | inl alive ↦ rw alive (
          clean_dead-owner pids m c (elim known [
            | inr nobody ↦ inr nobody
            | inl listed ↦ elim (Bool-cases (p == j)) [
              | inl same ↦
                  let at : p ≡ j = ground arith in
                  absurd (cc (sym (ap is_pid_alive at), alive, dead))
              | inr other ↦ inl (ap (λ b. b || member j pids) (sym other) ∙ listed)
            ]
          ]))
      | inr gone ↦
          let (c', owners) = handled p m c in
          rw gone (
            clean_dead-owner pids (handle_process_exited table p m).0 c'
              (elim (Bool-cases (p == j)) [
                | inl same ↦ inr (owners j ∙ rw same refl)
                | inr other ↦ elim known [
                  | inl listed ↦ inl (ap (λ b. b || member j pids) (sym other) ∙ listed)
                  | inr nobody ↦ inr (owners j ∙ rw other nobody)
                ]
              ]))
    ]

  -- After the periodic search in a coherent store, no pod owns a process that is dead, whatever the
  -- cluster answers about the pods: the search visits every process that a pod owns.
  pub check_and_cleanup_dead_processes-owner :
      (pod_exists : PodIdentifier → Option Bool) (is_pid_alive : ℕ → Bool)
      (m : PodManager Table Info Handle) (p : ℕ)
      → IsCoherent m.pod_state_store
      → is_pid_alive p ≡ false
      → get_pod_by_pid p
          (check_and_cleanup_dead_processes table pod_exists is_pid_alive m).0.pod_state_store
        ≡ none
  unfolding check_and_cleanup_dead_processes get_pod_by_pid list_pod_identifiers
  check_and_cleanup_dead_processes-owner pod_exists is_pid_alive m p c dead =
      let s = m.pod_state_store in
      let ids = keys s.pods in
      let searched = track_pids pod_exists ids s in
      clean_dead-owner is_pid_alive p dead searched.1 (record m { pod_state_store = searched.0 })
        (track_pids-IsCoherent pod_exists ids s c)
        (elim (Option-cases (fetch p s.pid_to_pod)) [
          | inl nobody ↦ inr (ap (fetch p) (track_pids-owner pod_exists ids s) ∙ nobody)
          | inr (id, owned) ↦
              let listed = owner_lists_it p c owned in
              inl (track_pids-member pod_exists ids s id p (names-keys id s.pods p listed) listed)
        ])
