-- ===== src/Pods/Manager.antt =====
-- Registration and removal of processes in all components, and the search for dead processes:
-- crates/hypervisor/src/core/pod/manager.rs, with the calls that it makes of coordinator.rs.
-- What the shared memory and the operating system answer are arguments.
use vgpu_rs.Base.{
  ℕ, Bool, true, false, ◌&&◌, not, List, [], ◌∷◌, ◌++◌, Option, none, some, ◌==◌, if◌then◌else◌,
  length,
}
use vgpu_rs.Device.{DeviceConfig}
use vgpu_rs.Dict.{Eq, bytes_beq}
use vgpu_rs.Paths.{PodIdentifier}
use vgpu_rs.Pods.{
  Text, PodManagementError, pod_identifier_not_found, registration_failed, PodResult, done, failed,
  has_none, PodState, PodStateStore,
}
use vgpu_rs.Pods.Store.{
  Opening, get_pod, get_pod_by_pid, get_pod_processes, list_pod_identifiers, register_process,
  unregister_process, unregister_pod, open_shared_memory,
}
use vgpu_rs.Pods.Hypervisor.{ProcessTable}
pub mod Registration
pub mod Search
pub mod Exits
pub mod Matches

-- `==` on configurations compares every field.
abbrev pub config_beq : DeviceConfig → DeviceConfig → Bool
config_beq c d =
    c.device_idx == d.device_idx
    && (bytes_beq c.device_uuid d.device_uuid
        && (c.up_limit == d.up_limit
            && (c.mem_limit == d.mem_limit
                && (c.sm_count == d.sm_count
                    && (c.max_thread_per_sm == d.max_thread_per_sm
                        && c.total_cuda_cores == d.total_cuda_cores)))))

-- The loop over the zipped configurations.
unfoldable pub same_configs : List DeviceConfig → List DeviceConfig → Bool
same_configs (c ∷ cs) (d ∷ ds) = if not (config_beq c d) then false else same_configs cs ds
same_configs [] ds = true
same_configs (c ∷ cs) [] = true

-- Does an existing pod have this information and these configurations, in this order?
unfoldable pub check_pod_config_match :
    {Info Handle : Type 0} ⦃e : Eq Info⦄ → PodState Info Handle → Info → List DeviceConfig → Bool
unfolding same_configs
check_pod_config_match ⦃e⦄ existing info configs =
    if not (e.beq existing.pod_info info)
    then false
    else if not (length existing.device_configs == length configs)
    then false
    else same_configs existing.device_configs configs

-- A call of the coordinator that writes a process id to the shared memory, or fails to.
pub data Written : Type 0 where
  written : Written
  refused : Text → Written

pub record PodManager (Table Info Handle : Type 0) : Type 0 where
  pub pod_state_store : PodStateStore Info Handle
  pub hypervisor : Table

module _ {Info Handle : Type 0} where
  -- A pod without processes that the cluster no longer has is unregistered. `pod_exists` is the
  -- cluster's answer, `none` for an error.
  unfoldable pub visit_pod :
      (PodIdentifier → Option Bool)
      → PodIdentifier
      → PodStateStore Info Handle
      → PodStateStore Info Handle
  unfolding get_pod_processes unregister_pod
  visit_pod pod_exists id s =
      if has_none (get_pod_processes id s)
      then elim (pod_exists id) [
        | none ↦ s
        | some exists ↦ if exists then s else (unregister_pod id s).0
      ]
      else s

  -- The processes of all pods.
  unfoldable pub track_pids :
      (PodIdentifier → Option Bool)
      → List PodIdentifier
      → PodStateStore Info Handle
      → PodStateStore Info Handle × List ℕ
  unfolding get_pod_processes visit_pod
  track_pids pod_exists [] s = (s, [])
  track_pids pod_exists (id ∷ ids) s =
      let (last, pids) = track_pids pod_exists ids (visit_pod pod_exists id s) in
      (last, get_pod_processes id s ++ pids)

module _ (table : ProcessTable) {Info Handle : Type 0} where
  open table use {Table, process_exists, register, remove}

  -- Undo the registration in the store; a failure is only logged.
  unfoldable pub rollback :
      PodIdentifier → ℕ → PodManager Table Info Handle → PodManager Table Info Handle
  unfolding unregister_process
  rollback id host_pid m = record m {
    pod_state_store = (unregister_process id host_pid m.pod_state_store).0;
  }

  -- `self.hypervisor`, once the shared memory is open.
  unfoldable pub add_worker : ℕ → PodManager Table Info Handle → PodManager Table Info Handle
  add_worker host_pid m =
      if process_exists m.hypervisor host_pid
      then m
      else record m { hypervisor = register host_pid m.hypervisor }

  unfoldable pub finish_opening :
      PodIdentifier
      → ℕ
      → PodStateStore Info Handle × PodResult (Unit {0})
      → PodManager Table Info Handle
      → PodManager Table Info Handle × PodResult (Unit {0})
  unfolding rollback add_worker
  finish_opening id host_pid (store, failed e) m =
      (rollback id host_pid (record m { pod_state_store = store }), failed e)
  finish_opening id host_pid (store, done _) m =
      (add_worker host_pid (record m { pod_state_store = store }), done tt)

  -- The coordinator's answer, then the opening of the shared memory.
  unfoldable pub finish_registration :
      (Text → Text)
      → PodIdentifier
      → ℕ
      → Written
      → Opening Handle
      → PodManager Table Info Handle
      → PodManager Table Info Handle × PodResult (Unit {0})
  unfolding rollback finish_opening open_shared_memory
  finish_registration debug id host_pid (refused e) opening m =
      (rollback id host_pid m, failed (registration_failed e))
  finish_registration debug id host_pid written opening m =
      finish_opening id host_pid (open_shared_memory debug id opening m.pod_state_store) m

  unfoldable pub after_register :
      (Text → Text)
      → PodIdentifier
      → ℕ
      → Written
      → Opening Handle
      → PodStateStore Info Handle × PodResult (Unit {0})
      → PodManager Table Info Handle
      → PodManager Table Info Handle × PodResult (Unit {0})
  unfolding finish_registration
  after_register debug id host_pid answer opening (store, failed e) m =
      (record m { pod_state_store = store }, failed e)
  after_register debug id host_pid answer opening (store, done _) m =
      finish_registration debug id host_pid answer opening (record m { pod_state_store = store })

  unfoldable pub register_process_to_all_components :
      (Text → Text)
      → PodIdentifier
      → ℕ
      → Written
      → Opening Handle
      → PodManager Table Info Handle
      → PodManager Table Info Handle × PodResult (Unit {0})
  unfolding get_pod register_process after_register
  register_process_to_all_components debug id host_pid answer opening m =
      elim (get_pod id m.pod_state_store) [
        | none ↦ (m, failed (pod_identifier_not_found id))
        | some pod ↦
            after_register debug id host_pid answer opening
              (register_process id host_pid m.pod_state_store) m
      ]

  -- The coordinator's part only writes the shared memory; a failure of it is only logged.
  unfoldable pub handle_process_exited :
      ℕ → PodManager Table Info Handle → PodManager Table Info Handle × PodResult (Unit {0})
  unfolding get_pod_by_pid unregister_process
  handle_process_exited host_pid m = elim (get_pod_by_pid host_pid m.pod_state_store) [
    | none ↦ (m, done tt)
    | some id ↦
        let hypervisor =
          if process_exists m.hypervisor host_pid
          then remove host_pid m.hypervisor
          else m.hypervisor in
        let (store, result) = unregister_process id host_pid m.pod_state_store in
        (record { pod_state_store = store; hypervisor = hypervisor }, result)
  ]

  -- The dead among the processes, each handled.
  unfoldable pub clean_dead :
      (ℕ → Bool) → List ℕ → PodManager Table Info Handle → PodManager Table Info Handle × List ℕ
  unfolding handle_process_exited
  clean_dead is_pid_alive [] m = (m, [])
  clean_dead is_pid_alive (pid ∷ pids) m =
      let alive = clean_dead is_pid_alive pids m in
      let handled = clean_dead is_pid_alive pids (handle_process_exited pid m).0 in
      if is_pid_alive pid then alive else (handled.0, pid ∷ handled.1)

  unfoldable pub check_and_cleanup_dead_processes :
      (PodIdentifier → Option Bool)
      → (ℕ → Bool)
      → PodManager Table Info Handle
      → PodManager Table Info Handle × List ℕ
  unfolding list_pod_identifiers track_pids clean_dead
  check_and_cleanup_dead_processes pod_exists is_pid_alive m =
      let ids = list_pod_identifiers m.pod_state_store in
      let (store, pids) = track_pids pod_exists ids m.pod_state_store in
      clean_dead is_pid_alive pids (record m { pod_state_store = store })
