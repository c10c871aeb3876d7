-- ===== src/Pods.antt =====
-- The pods that the hypervisor manages and their processes:
-- crates/hypervisor/src/core/pod/types.rs and pod_state_store.rs. The information about a pod that
-- comes from Kubernetes and the handle of its shared memory are types that the store only keeps.
use vgpu_rs.Base.{
  ℕ, ◌≡◌, refl, Bool, true, false, ◌||◌, not, List, [], ◌∷◌, ◌++◌, map, Option, none, some, arith,
  ltb, leb, ◌==◌, if◌then◌else◌, length, get_or,
}
use mathlib.Core.List.{filter}
use vgpu_rs.Device.{DeviceConfig}
use vgpu_rs.Dict.{Dict, Eq, nat_eq, fetch, assign, erase, keys, contains_key}
use vgpu_rs.Paths.{PodIdentifier, identifier_eq, to_path}
pub mod Store
pub mod Coherent
pub mod Processes
pub mod Runs
pub mod Effects
pub mod Hypervisor
pub mod Manager
pub mod Shares
pub mod Views
pub mod Watch
mod Examples

abbrev pub Text : Type 0
Text = List ℕ

pub data PodManagementError : Type 0 where
  pod_not_found : Text → Text → PodManagementError
  pod_identifier_not_found : PodIdentifier → PodManagementError
  pod_not_empty : PodIdentifier → PodManagementError
  process_not_found : ℕ → PodManagementError
  device_error : Text → PodManagementError
  state_error : Text → PodManagementError
  registration_failed : Text → PodManagementError
  shared_memory_error : Text → PodManagementError
  kubernetes_error : Text → PodManagementError

pub data PodResult (A : Type 0) : Type 0 where
  done : A → PodResult A
  failed : PodManagementError → PodResult A

pub data PodStatus : Type 0 where
  running terminating terminated : PodStatus

-- A `HashSet<u32>`: a list in which `insert` repeats nothing.
abbrev pub member : ℕ → List ℕ → Bool
member p [] = false
member p (q ∷ ps) = q == p || member p ps

unfoldable pub add_member : ℕ → List ℕ → List ℕ
add_member p ps = if member p ps then ps else p ∷ ps

unfoldable pub drop_member : ℕ → List ℕ → List ℕ
drop_member p [] = []
drop_member p (q ∷ ps) = if q == p then drop_member p ps else q ∷ drop_member p ps

abbrev pub has_none : List ℕ → Bool
has_none [] = true
has_none (p ∷ ps) = false

-- `sort_unstable` on numbers.
unfoldable pub insert_sorted : ℕ → List ℕ → List ℕ
insert_sorted p [] = p ∷ []
insert_sorted p (q ∷ ps) = if leb p q then p ∷ q ∷ ps else q ∷ insert_sorted p ps

unfoldable pub sort_unstable : List ℕ → List ℕ
unfolding insert_sorted
sort_unstable [] = []
sort_unstable (p ∷ ps) = insert_sorted p (sort_unstable ps)

pub record PodState (Info Handle : Type 0) : Type 0 where
  pub pod_info : Info
  pub device_configs : List DeviceConfig
  pub processes : List ℕ
  pub shared_memory_handle : Option Handle
  pub status : PodStatus

abbrev pub uses : ℕ → List DeviceConfig → Bool
uses device_idx [] = false
uses device_idx (config ∷ configs) = config.device_idx == device_idx || uses device_idx configs

module _ {Info Handle : Type 0} where
  unfoldable pub new_state : Info → List DeviceConfig → PodState Info Handle
  new_state info configs = record {
    pod_info = info;
    device_configs = configs;
    processes = [];
    shared_memory_handle = none;
    status = running;
  }

  unfoldable pub add_process : ℕ → PodState Info Handle → PodState Info Handle
  unfolding add_member
  add_process pid pod = record pod { processes = add_member pid pod.processes }

  -- The state without the process, and whether it was there.
  unfoldable pub drop_process : ℕ → PodState Info Handle → PodState Info Handle × Bool
  unfolding drop_member
  drop_process pid pod =
      (record pod { processes = drop_member pid pod.processes }, member pid pod.processes)

  unfoldable pub has_processes : ℕ → PodState Info Handle → Bool
  has_processes pid pod = member pid pod.processes

  unfoldable pub get_host_pids : PodState Info Handle → List ℕ
  unfolding sort_unstable
  get_host_pids pod = sort_unstable pod.processes

  unfoldable pub uses_device : ℕ → PodState Info Handle → Bool
  uses_device device_idx pod = uses device_idx pod.device_configs

  unfoldable pub get_processes_for_device : ℕ → PodState Info Handle → List ℕ
  unfolding uses_device get_host_pids
  get_processes_for_device device_idx pod =
      if uses_device device_idx pod then get_host_pids pod else []

pub record PodStateStore (Info Handle : Type 0) : Type 0 where
  pub pods : Dict PodIdentifier (PodState Info Handle)
  pub pid_to_pod : Dict ℕ PodIdentifier
  pub shm_base_path : Text
