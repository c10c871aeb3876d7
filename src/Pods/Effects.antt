-- ===== src/Pods/Effects.antt =====
-- Who owns and who lists a process after an operation of the store.
use vgpu_rs.Base.{
  ℕ, ◌≡◌, refl, sym, ap, ◌∙◌, inl, inr, Bool, false, ◌||◌, none, some, ◌==◌, if◌then◌else◌,
  Bool-cases, Option-cases,
}
use vgpu_rs.Dict.{nat_eq, fetch, fetch-erase, fetch-assign, beq_refl}
use vgpu_rs.Paths.{PodIdentifier, identifier_eq}
use vgpu_rs.Pods.{Text, member, done, PodState, add_process, drop_process, PodStateStore}
use vgpu_rs.Pods.Store.{
  Opening, join_error, open_error, opened, get_pod_processes, register_process, unregister_process,
  open_shared_memory,
}
use vgpu_rs.Pods.Coherent.{member-add_member, member-drop_member, lists, lists-assign}

module _ {Info Handle : Type 0} where
  abbrev pub listed : PodStateStore Info Handle → PodIdentifier → ℕ → Bool
  listed s id j = lists (fetch id s.pods) j

  pub get_pod_processes-listed :
      (s : PodStateStore Info Handle) (id : PodIdentifier) (j : ℕ)
      → member j (get_pod_processes id s) ≡ listed s id j
  unfolding get_pod_processes
  get_pod_processes-listed s id j = elim (Option-cases (fetch id s.pods)) [
    | inl absent ↦ rw (absent, get_pod_processes) refl
    | inr (pod, found) ↦ rw (found, get_pod_processes) refl
  ]

  module _ (s : PodStateStore Info Handle) (id : PodIdentifier) (p : ℕ) {pod : PodState Info Handle}
      (found : fetch id s.pods ≡ some pod) where
    pub register_process-owner :
        (j : ℕ)
        → fetch j (register_process id p s).0.pid_to_pod
          ≡ (if p == j then some id else fetch j s.pid_to_pod)
    unfolding register_process
    register_process-owner j = rw (found, register_process) (fetch-assign p j id s.pid_to_pod)

    pub register_process-listed :
        (other : PodIdentifier) (j : ℕ)
        → listed (register_process id p s).0 other j
          ≡ (if identifier_eq.beq id other then p == j || listed s other j else listed s other j)
    unfolding register_process add_process
    register_process-listed other j =
        rw (found, register_process)
          (lists-assign id other (add_process p pod) s.pods j
            ∙ (elim (Bool-cases (identifier_eq.beq id other)) [
              | inl same ↦
                  let at : id ≡ other = (identifier_eq.beq_iff id other).0 same in
                  rw same (
                    member-add_member p j pod.processes
                    ∙ ap (λ o. p == j || lists o j) (sym found ∙ ap (λ i. fetch i s.pods) at))
              | inr different ↦ rw different refl
            ]))

    pub register_process-found :
        fetch id (register_process id p s).0.pods ≡ some (add_process p pod)
    unfolding register_process
    register_process-found =
        rw (found, register_process)
          (fetch-assign id id (add_process p pod) s.pods ∙ rw (beq_refl id) refl)

    pub register_process-done : (register_process id p s).1 ≡ done tt
    unfolding register_process
    register_process-done = rw (found, register_process) refl

    pub unregister_process-done : (unregister_process id p s).1 ≡ done tt
    unfolding unregister_process
    unregister_process-done = rw (found, unregister_process) refl

    pub unregister_process-owner :
        (j : ℕ)
        → fetch j (unregister_process id p s).0.pid_to_pod
          ≡ (if p == j then none else fetch j s.pid_to_pod)
    unfolding unregister_process
    unregister_process-owner j = rw (found, unregister_process) (fetch-erase p j s.pid_to_pod)

    pub unregister_process-listed :
        (other : PodIdentifier) (j : ℕ)
        → listed (unregister_process id p s).0 other j ≡ (
            if identifier_eq.beq id other
            then (if p == j then false else listed s other j)
            else listed s other j)
    unfolding unregister_process drop_process
    unregister_process-listed other j =
        rw (found, unregister_process)
          (lists-assign id other (drop_process p pod).0 s.pods j
            ∙ (elim (Bool-cases (identifier_eq.beq id other)) [
              | inl same ↦
                  let at : id ≡ other = (identifier_eq.beq_iff id other).0 same in
                  rw same (
                    member-drop_member p j pod.processes
                    ∙ ap (λ o. if p == j then false else lists o j)
                        (sym found ∙ ap (λ i. fetch i s.pods) at))
              | inr different ↦ rw different refl
            ]))

  -- Opening the shared memory moves no process.
  pub open_shared_memory-owner :
      (debug : Text → Text) (id : PodIdentifier) (o : Opening Handle)
      (s : PodStateStore Info Handle)
      → (open_shared_memory debug id o s).0.pid_to_pod ≡ s.pid_to_pod
  unfolding open_shared_memory
  open_shared_memory-owner debug id (join_error e) s = refl
  open_shared_memory-owner debug id (open_error e) s = refl
  open_shared_memory-owner debug id (opened handle) s = elim (Option-cases (fetch id s.pods)) [
    | inl absent ↦ rw (absent, open_shared_memory) refl
    | inr (pod, found) ↦ rw (found, open_shared_memory) refl
  ]

  pub open_shared_memory-listed :
      (debug : Text → Text) (id : PodIdentifier) (o : Opening Handle)
      (s : PodStateStore Info Handle) (other : PodIdentifier) (j : ℕ)
      → listed (open_shared_memory debug id o s).0 other j ≡ listed s other j
  unfolding open_shared_memory
  open_shared_memory-listed debug id (join_error e) s other j = refl
  open_shared_memory-listed debug id (open_error e) s other j = refl
  open_shared_memory-listed debug id (opened handle) s other j =
      elim (Option-cases (fetch id s.pods)) [
        | inl absent ↦ rw (absent, open_shared_memory) refl
        | inr (pod, found) ↦
            rw (found, open_shared_memory)
              (lists-assign id other (record pod { shared_memory_handle = some handle }) s.pods j
                ∙ (elim (Bool-cases (identifier_eq.beq id other)) [
                  | inl same ↦
                      let at : id ≡ other = (identifier_eq.beq_iff id other).0 same in
                      rw same (ap (λ o. lists o j) (sym found ∙ ap (λ i. fetch i s.pods) at))
                  | inr different ↦ rw different refl
                ]))
      ]

  -- The pod stays registered.
  pub open_shared_memory-found :
      (debug : Text → Text) (id : PodIdentifier) (o : Opening Handle)
      (s : PodStateStore Info Handle) {pod : PodState Info Handle}
      → fetch id s.pods ≡ some pod
      → (after : PodState Info Handle) × (fetch id (open_shared_memory debug id o s).0.pods
          ≡ some after)
  unfolding open_shared_memory
  open_shared_memory-found debug id (join_error e) s {pod} found = (pod, found)
  open_shared_memory-found debug id (open_error e) s {pod} found = (pod, found)
  open_shared_memory-found debug id (opened handle) s {pod} found =
      rw (found, open_shared_memory)
        (
          record pod { shared_memory_handle = some handle },
          fetch-assign id id _ s.pods ∙ rw (beq_refl id) refl,
        )
