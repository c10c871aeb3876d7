-- ===== src/Pods/Manager/Registration.antt =====
-- `register_process_to_all_components` registers a process everywhere or nowhere.
use vgpu_rs.Base.{
  ℕ, ◌≡◌, refl, sym, ap, ◌∙◌, inl, inr, subst, true, false, ◌||◌, none, some, arith, ◌==◌,
  if◌then◌else◌, Bool-cases, Option-cases,
}
use vgpu_rs.Dict.{nat_eq, fetch}
use vgpu_rs.Paths.{PodIdentifier, identifier_eq}
use vgpu_rs.Pods.{Text, PodResult, done, failed, PodState, PodStateStore}
use vgpu_rs.Pods.Store.{Opening, get_pod, register_process, unregister_process, open_shared_memory}
use vgpu_rs.Pods.Effects.{
  listed, register_process-owner, register_process-listed, register_process-found,
  register_process-done, unregister_process-owner, unregister_process-listed,
  open_shared_memory-owner, open_shared_memory-listed, open_shared_memory-found,
}
use vgpu_rs.Pods.Hypervisor.{ProcessTable}
use vgpu_rs.Pods.Manager.{
  Written, written, refused, PodManager, rollback, add_worker, finish_opening, finish_registration,
  after_register, register_process_to_all_components,
}

module _ {Info Handle : Type 0} (s : PodStateStore Info Handle) where
  -- Who owns and who lists each process is as in `s`.
  pub record HasSamePlaces (after : PodStateStore Info Handle) : Type 0 where
    pub owners : (j : ℕ) → fetch j after.pid_to_pod ≡ fetch j s.pid_to_pod
    pub lists : (other : PodIdentifier) (j : ℕ) → listed after other j ≡ listed s other j

  -- They are as in `s`, but for the process `p`, which the pod `id` has.
  pub record HasAdded (id : PodIdentifier) (p : ℕ) (after : PodStateStore Info Handle)
      : Type 0 where
    pub owners :
        (j : ℕ) → fetch j after.pid_to_pod ≡ (if p == j then some id else fetch j s.pid_to_pod)
    pub lists :
        (other : PodIdentifier) (j : ℕ)
        → listed after other j
          ≡ (if identifier_eq.beq id other then p == j || listed s other j else listed s other j)

  -- To unregister a process that was in no place before takes its registration back.
  pub unregister-HasSamePlaces :
      (id : PodIdentifier) (p : ℕ) {after : PodStateStore Info Handle} {pod : PodState Info Handle}
      → fetch p s.pid_to_pod ≡ none
      → listed s id p ≡ false
      → HasAdded id p after
      → fetch id after.pods ≡ some pod
      → HasSamePlaces (unregister_process id p after).0
  unregister-HasSamePlaces id p {after} unowned unlisted added found = record {
    owners = λ j. unregister_process-owner after id p found j ∙ (elim (Bool-cases (p == j)) [
      | inl same ↦
          let at : p ≡ j = ground arith in rw same (sym unowned ∙ ap (λ i. fetch i s.pid_to_pod) at)
      | inr other ↦ rw other (added.owners j ∙ rw other refl)
    ]);
    lists = λ other j.
        unregister_process-listed after id p found other j ∙ back other j (added.lists other j);
  }
    where
      back :
          (other : PodIdentifier) (j : ℕ)
          → listed after other j
            ≡ (if identifier_eq.beq id other then p == j || listed s other j else listed s other j)
          → (if identifier_eq.beq id other
              then (if p == j then false else listed after other j)
              else listed after other j)
            ≡ listed s other j
      back other j now = elim (Bool-cases (identifier_eq.beq id other)) [
        | inr different ↦ rw different (now ∙ rw different refl)
        | inl same ↦ rw same (elim (Bool-cases (p == j)) [
          | inr apart ↦ rw apart (now ∙ rw (same, apart) refl)
          | inl equal ↦
              let at : p ≡ j = ground arith in
              let there : id ≡ other = (identifier_eq.beq_iff id other).0 same in
              rw equal (sym unlisted ∙ ap (λ i. listed s i p) there ∙ ap (listed s other) at)
        ])
      ]

module _ (table : ProcessTable) {Info Handle : Type 0} where
  open table use {Table, process_exists, register, exists-register}

  -- A failure leaves the process where it was, nowhere, and every other process and the hypervisor
  -- as they were; a success has it in the pod, in the reverse map and in the hypervisor, and every other
  -- process in the places where it was.
  abbrev pub IsSettled :
      PodManager Table Info Handle
      → PodIdentifier
      → ℕ
      → PodManager Table Info Handle × PodResult (Unit {0})
      → Type 0
  IsSettled m id p (after, failed e) =
      HasSamePlaces m.pod_state_store after.pod_state_store × (after.hypervisor ≡ m.hypervisor)
  IsSettled m id p (after, done _) =
      HasAdded m.pod_state_store id p after.pod_state_store
      × ((j : ℕ)
          → process_exists after.hypervisor j
            ≡ (if p == j then true else process_exists m.hypervisor j))

  -- The places of the manager's processes are those of its store.
  rollback-HasSamePlaces :
      (m now : PodManager Table Info Handle) (id : PodIdentifier) (p : ℕ)
      {pod : PodState Info Handle}
      → fetch p m.pod_state_store.pid_to_pod ≡ none
      → listed m.pod_state_store id p ≡ false
      → HasAdded m.pod_state_store id p now.pod_state_store
      → fetch id now.pod_state_store.pods ≡ some pod
      → HasSamePlaces m.pod_state_store (rollback table id p now).pod_state_store
  unfolding rollback
  rollback-HasSamePlaces m now id p unowned unlisted added found =
      unregister-HasSamePlaces m.pod_state_store id p unowned unlisted added found

  add_worker_lem :
      (p : ℕ) (m : PodManager Table Info Handle)
      → ((add_worker table p m).pod_state_store ≡ m.pod_state_store)
        × ((j : ℕ)
            → process_exists (add_worker table p m).hypervisor j
              ≡ (if p == j then true else process_exists m.hypervisor j))
  unfolding add_worker
  add_worker_lem p m = elim (Bool-cases (process_exists m.hypervisor p)) [
    | inl there ↦
        rw (there, add_worker)
          (
            refl,
            λ j. elim (Bool-cases (p == j)) [
              | inl same ↦
                  let at : p ≡ j = ground arith in
                  rw same (ap (process_exists m.hypervisor) (sym at) ∙ there)
              | inr other ↦ rw other refl
            ],
          )
    | inr absent ↦ rw (absent, add_worker) (refl, λ j. exists-register p j m.hypervisor)
  ]

  module _ (m : PodManager Table Info Handle) (id : PodIdentifier) (p : ℕ)
      (unowned : fetch p m.pod_state_store.pid_to_pod ≡ none)
      (unlisted : listed m.pod_state_store id p ≡ false) where
    opening-IsSettled :
        (now : PodManager Table Info Handle) (r : PodStateStore Info Handle × PodResult (Unit {0}))
        {pod : PodState Info Handle}
        → HasAdded m.pod_state_store id p r.0
        → fetch id r.0.pods ≡ some pod
        → now.hypervisor ≡ m.hypervisor
        → IsSettled m id p (finish_opening table id p r now)
    unfolding finish_opening
    opening-IsSettled now (store, failed e) added found same = (
      rollback-HasSamePlaces m (record now { pod_state_store = store }) id p unowned unlisted added
          found,
      same,
    )
    opening-IsSettled now (store, done _) added found same =
        let (kept, there) = add_worker_lem p (record now { pod_state_store = store }) in
        (
          subst (HasAdded m.pod_state_store id p) (sym kept) added,
          λ j. there j ∙ ap (λ h. if p == j then true else process_exists h j) same,
        )

    registration-IsSettled :
        (debug : Text → Text) (answer : Written) (opening : Opening Handle)
        (now : PodManager Table Info Handle) {pod : PodState Info Handle}
        → HasAdded m.pod_state_store id p now.pod_state_store
        → fetch id now.pod_state_store.pods ≡ some pod
        → now.hypervisor ≡ m.hypervisor
        → IsSettled m id p (finish_registration table debug id p answer opening now)
    unfolding finish_registration
    registration-IsSettled debug (refused e) opening now added found same =
        (rollback-HasSamePlaces m now id p unowned unlisted added found, same)
    registration-IsSettled debug written opening now {pod} added found same =
        let (after, still) = open_shared_memory-found debug id opening now.pod_state_store found in
        opening-IsSettled now (open_shared_memory debug id opening now.pod_state_store)
          (record {
            owners = λ j.
                ap (fetch j) (open_shared_memory-owner debug id opening now.pod_state_store)
                ∙ added.owners j;
            lists = λ other j.
                open_shared_memory-listed debug id opening now.pod_state_store other j
                ∙ added.lists other j;
          })
          still same

    register-HasAdded :
        {pod : PodState Info Handle}
        → fetch id m.pod_state_store.pods ≡ some pod
        → HasAdded m.pod_state_store id p (register_process id p m.pod_state_store).0
    register-HasAdded found = record {
      owners = register_process-owner m.pod_state_store id p found;
      lists = register_process-listed m.pod_state_store id p found;
    }

    after_register-IsSettled :
        (debug : Text → Text) (answer : Written) (opening : Opening Handle)
        (r : PodStateStore Info Handle × PodResult (Unit {0})) {pod : PodState Info Handle}
        → r.1 ≡ done tt
        → HasAdded m.pod_state_store id p r.0
        → fetch id r.0.pods ≡ some pod
        → IsSettled m id p (after_register table debug id p answer opening r m)
    unfolding after_register
    after_register-IsSettled debug answer opening (store, failed e) ok added found = absurd (cc ok)
    after_register-IsSettled debug answer opening (store, done _) ok added found =
        registration-IsSettled debug answer opening (record m { pod_state_store = store }) added
          found refl

    -- For a process that no pod owns and that the pod does not list, whatever the shared memory and its
    -- opening answer: if the registration in all components fails, at any step, then every process is
    -- owned and listed by the same pods as before and the hypervisor is as before; if it succeeds, the
    -- pod owns and lists the process and the hypervisor has it, every other process is owned and listed by
    -- the same pods as before, and the hypervisor has the same other processes as before.
    pub register_process_to_all_components-IsSettled :
        (debug : Text → Text) (answer : Written) (opening : Opening Handle)
        → IsSettled m id p (register_process_to_all_components table debug id p answer opening m)
    unfolding register_process_to_all_components get_pod
    register_process_to_all_components-IsSettled debug answer opening =
        elim (Option-cases (fetch id m.pod_state_store.pods)) [
          | inl absent ↦
              rw (absent, register_process_to_all_components, get_pod)
                (record { owners = λ j. refl; lists = λ other j. refl }, refl)
          | inr (pod, found) ↦
              rw (found, register_process_to_all_components, get_pod)
                (after_register-IsSettled debug answer opening
                  (register_process id p m.pod_state_store)
                  (register_process-done m.pod_state_store id p found) (register-HasAdded found)
                  (register_process-found m.pod_state_store id p found))
        ]
