-- ===== src/Pods/Store.antt =====
-- The operations of `PodStateStore`: crates/hypervisor/src/core/pod/pod_state_store.rs.
use vgpu_rs.Base.{
  ℕ, Bool, true, false, List, [], ◌∷◌, Option, none, some, if◌then◌else◌, ◌++◌, ◌==◌,
}
use mathlib.Core.Option
use Prim.Native.Char.{code}
use Prim.Native.String.{String}
use vgpu_rs.Device.{DeviceConfig}
use vgpu_rs.Dict.{Dict, nat_eq, fetch, assign, erase, keys, contains_key}
use vgpu_rs.Paths.{PodIdentifier, identifier_eq, to_path}
use vgpu_rs.Pods.{
  Text, pod_identifier_not_found, pod_not_empty, shared_memory_error, PodResult, done, failed,
  PodStatus, has_none, PodState, new_state, add_process, drop_process, get_host_pids, uses_device,
  PodStateStore,
}

-- The bytes of a message.
abbrev pub codes : String → List ℕ
codes String.[] = []
codes (String.◌∷◌ c s) = code c ∷ codes s

-- What opening a shared memory on another thread comes to.
pub data Opening (Handle : Type 0) : Type 0 where
  join_error : Text → Opening Handle
  open_error : Text → Opening Handle
  opened : Handle → Opening Handle

unfoldable pub config_for : ℕ → List DeviceConfig → Option DeviceConfig
config_for device_idx [] = none
config_for device_idx (config ∷ configs) =
    if config.device_idx == device_idx then some config else config_for device_idx configs

module _ {Info Handle : Type 0} where
  unfoldable pub new : Text → PodStateStore Info Handle
  new base = record { pods = []; pid_to_pod = []; shm_base_path = base }

  unfoldable pub pod_path : PodIdentifier → PodStateStore Info Handle → Text
  unfolding to_path
  pod_path id s = to_path id s.shm_base_path

  -- An existing pod keeps its processes and its handle.
  unfoldable pub register_pod :
      PodIdentifier
      → Info
      → List DeviceConfig
      → PodStateStore Info Handle
      → PodStateStore Info Handle × PodResult Bool
  unfolding fetch assign new_state
  register_pod id info configs s = elim (fetch id s.pods) [
    | none ↦ (record s { pods = assign id (new_state info configs) s.pods }, done false)
    | some existing ↦
        let fresh : PodState Info Handle = new_state info configs in
        let pod : PodState Info Handle = record fresh {
          processes = existing.processes;
          shared_memory_handle = existing.shared_memory_handle;
        } in
        (record s { pods = assign id pod s.pods }, done true)
  ]

  unfoldable pub unregister_pod :
      PodIdentifier → PodStateStore Info Handle → PodStateStore Info Handle × PodResult (Unit {0})
  unfolding fetch erase
  unregister_pod id s = elim (fetch id s.pods) [
    | none ↦ (s, failed (pod_identifier_not_found id))
    | some pod ↦
        if has_none pod.processes
        then (record s { pods = erase id s.pods }, done tt)
        else (s, failed (pod_not_empty id))
  ]

  unfoldable pub register_process :
      PodIdentifier
      → ℕ
      → PodStateStore Info Handle
      → PodStateStore Info Handle × PodResult (Unit {0})
  unfolding fetch assign add_process
  register_process id pid s = elim (fetch id s.pods) [
    | none ↦ (s, failed (pod_identifier_not_found id))
    | some pod ↦ (
      record s {
        pods = assign id (add_process pid pod) s.pods;
        pid_to_pod = assign pid id s.pid_to_pod;
      },
      done tt,
    )
  ]

  -- The entry of the process in the reverse map goes whichever pod it names.
  unfoldable pub unregister_process :
      PodIdentifier
      → ℕ
      → PodStateStore Info Handle
      → PodStateStore Info Handle × PodResult (Unit {0})
  unfolding fetch assign erase drop_process
  unregister_process id pid s = elim (fetch id s.pods) [
    | none ↦ (s, failed (pod_identifier_not_found id))
    | some pod ↦ (
      record s {
        pods = assign id (drop_process pid pod).0 s.pods;
        pid_to_pod = erase pid s.pid_to_pod;
      },
      done tt,
    )
  ]

  unfoldable pub get_pod : PodIdentifier → PodStateStore Info Handle → Option (PodState Info Handle)
  unfolding fetch
  get_pod id s = fetch id s.pods

  unfoldable pub with_pod :
      {R : Type 0}
      → PodIdentifier
      → (PodState Info Handle → R)
      → PodStateStore Info Handle
      → Option R
  unfolding fetch
  with_pod id f s = Option.map f (fetch id s.pods)

  unfoldable pub get_pod_info : PodIdentifier → PodStateStore Info Handle → Option Info
  unfolding fetch
  get_pod_info id s = Option.map (λ pod. pod.pod_info) (fetch id s.pods)

  unfoldable pub get_pod_by_pid : ℕ → PodStateStore Info Handle → Option PodIdentifier
  unfolding fetch
  get_pod_by_pid pid s = fetch pid s.pid_to_pod

  unfoldable pub contains_pod : PodIdentifier → PodStateStore Info Handle → Bool
  unfolding fetch
  contains_pod id s = contains_key id s.pods

  -- The keys of the entries that pass a test.
  unfoldable pub keys_where :
      (PodState Info Handle → Bool) → Dict PodIdentifier (PodState Info Handle) → List PodIdentifier
  keys_where test [] = []
  keys_where test (entry ∷ m) =
      if test entry.1 then entry.0 ∷ keys_where test m else keys_where test m

  unfoldable pub get_pods_using_device : ℕ → PodStateStore Info Handle → List PodIdentifier
  unfolding keys_where uses_device
  get_pods_using_device device_idx s = keys_where (uses_device device_idx) s.pods

  unfoldable pub get_host_pids_for_pod : PodIdentifier → PodStateStore Info Handle → Option (List ℕ)
  unfolding fetch get_host_pids
  get_host_pids_for_pod id s = Option.map get_host_pids (fetch id s.pods)

  unfoldable pub get_device_config_for_pod :
      PodIdentifier → ℕ → PodStateStore Info Handle → Option DeviceConfig
  unfolding fetch config_for
  get_device_config_for_pod id device_idx s = elim (fetch id s.pods) [
    | none ↦ none
    | some pod ↦ config_for device_idx pod.device_configs
  ]

  -- The shared memory is opened first, on another thread; the store is the one at its return.
  -- `debug` is how the language shows a path in a message.
  unfoldable pub open_shared_memory :
      (Text → Text)
      → PodIdentifier
      → Opening Handle
      → PodStateStore Info Handle
      → PodStateStore Info Handle × PodResult (Unit {0})
  unfolding fetch assign pod_path
  open_shared_memory debug id (join_error e) s =
      (s, failed (shared_memory_error (codes "Task join error: " ++ e)))
  open_shared_memory debug id (open_error e) s = (
    s,
    failed (
        shared_memory_error
          (codes "Failed to open shared memory for " ++ debug (pod_path id s) ++ codes ": " ++ e)),
  )
  open_shared_memory debug id (opened handle) s = elim (fetch id s.pods) [
    | none ↦ (s, failed (pod_identifier_not_found id))
    | some pod ↦ (
      record s { pods = assign id (record pod { shared_memory_handle = some handle }) s.pods },
      done tt,
    )
  ]

  unfoldable pub update_pod_status :
      PodIdentifier
      → PodStatus
      → PodStateStore Info Handle
      → PodStateStore Info Handle × PodResult (Unit {0})
  unfolding fetch assign
  update_pod_status id status s = elim (fetch id s.pods) [
    | none ↦ (s, failed (pod_identifier_not_found id))
    | some pod ↦ (record s { pods = assign id (record pod { status = status }) s.pods }, done tt)
  ]

  unfoldable pub list_pod_identifiers : PodStateStore Info Handle → List PodIdentifier
  list_pod_identifiers s = keys s.pods

  unfoldable pub get_pod_processes : PodIdentifier → PodStateStore Info Handle → List ℕ
  unfolding fetch
  get_pod_processes id s = elim (fetch id s.pods) [ none ↦ [] | some pod ↦ pod.processes ]

  unfoldable pub list_all_processes : PodStateStore Info Handle → List ℕ
  list_all_processes s = keys s.pid_to_pod
