-- ===== src/Pods/Runs.antt =====
-- Sequences of calls of the store.
use vgpu_rs.Base.{ℕ, ◌≡◌, sym, ap, ◌∙◌, true, List, [], ◌∷◌, Option, none, some}
use vgpu_rs.Device.{DeviceConfig}
use vgpu_rs.Dict.{nat_eq, fetch}
use vgpu_rs.Paths.{PodIdentifier, identifier_eq}
use vgpu_rs.Pods.{Text, PodStatus, member, PodState, PodStateStore}
use vgpu_rs.Pods.Store
use vgpu_rs.Pods.Store.{Opening, get_pod_by_pid, get_pod_processes}
use vgpu_rs.Pods.Coherent.{
  lists, held, IsCoherent, new-IsCoherent, register_pod-IsCoherent, update_pod_status-IsCoherent,
  open_shared_memory-IsCoherent,
}
use vgpu_rs.Pods.Processes.{
  unregister_pod-IsCoherent, register_process-IsCoherent, unregister_process-IsCoherent,
}

-- A call that changes the store.
pub data Call (Info Handle : Type 0) : Type 0 where
  registers_pod : PodIdentifier → Info → List DeviceConfig → Call Info Handle
  unregisters_pod : PodIdentifier → Call Info Handle
  registers_process : PodIdentifier → ℕ → Call Info Handle
  unregisters_process : PodIdentifier → ℕ → Call Info Handle
  opens : (Text → Text) → PodIdentifier → Opening Handle → Call Info Handle
  updates_status : PodIdentifier → PodStatus → Call Info Handle

module _ {Info Handle : Type 0} where
  abbrev pub call : Call Info Handle → PodStateStore Info Handle → PodStateStore Info Handle
  call (registers_pod id info configs) s = (Store.register_pod id info configs s).0
  call (unregisters_pod id) s = (Store.unregister_pod id s).0
  call (registers_process id pid) s = (Store.register_process id pid s).0
  call (unregisters_process id pid) s = (Store.unregister_process id pid s).0
  call (opens debug id opening) s = (Store.open_shared_memory debug id opening s).0
  call (updates_status id status) s = (Store.update_pod_status id status s).0

  abbrev pub calls : List (Call Info Handle) → PodStateStore Info Handle → PodStateStore Info Handle
  calls [] s = s
  calls (c ∷ cs) s = calls cs (call c s)

  call-IsCoherent :
      (c : Call Info Handle) {s : PodStateStore Info Handle} → IsCoherent s → IsCoherent (call c s)
  call-IsCoherent (registers_pod id info configs) c = register_pod-IsCoherent id info configs c
  call-IsCoherent (unregisters_pod id) c = unregister_pod-IsCoherent id c
  call-IsCoherent (registers_process id pid) c = register_process-IsCoherent id pid c
  call-IsCoherent (unregisters_process id pid) c = unregister_process-IsCoherent id pid c
  call-IsCoherent (opens debug id opening) c = open_shared_memory-IsCoherent debug id opening c
  call-IsCoherent (updates_status id status) c = update_pod_status-IsCoherent id status c

  calls-IsCoherent :
      (cs : List (Call Info Handle)) {s : PodStateStore Info Handle}
      → IsCoherent s
      → IsCoherent (calls cs s)
  calls-IsCoherent [] c = c
  calls-IsCoherent (first ∷ rest) c = calls-IsCoherent rest (call-IsCoherent first c)

  -- After any sequence of calls on a new store, the two maps agree in this: a pod that the store
  -- names for a process is registered and lists the process. No map has two entries for a key.
  pub calls_new-IsCoherent :
      (cs : List (Call Info Handle)) (base : Text) → IsCoherent (calls cs (Store.new base))
  calls_new-IsCoherent cs base = calls-IsCoherent cs (new-IsCoherent base)

  -- In a coherent store, a pod that is found for a process is registered and has the process in its
  -- list.
  pub get_pod_by_pid-member :
      {s : PodStateStore Info Handle} (p : ℕ) {id : PodIdentifier}
      → IsCoherent s
      → get_pod_by_pid p s ≡ some id
      → member p (get_pod_processes id s) ≡ true
  unfolding get_pod_by_pid get_pod_processes
  get_pod_by_pid-member {s} p {id} c found =
      go (fetch id s.pods) (ap (λ o. held o s.pods p) (sym found) ∙ c.owners p)
    where
      go :
          (o : Option (PodState Info Handle))
          → lists o p ≡ true
          → member p (elim o [ none ↦ [] | some pod ↦ pod.processes ]) ≡ true
      go none h = cc
      go (some pod) h = h
