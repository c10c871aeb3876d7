-- ===== src/Pods/Examples.antt =====
-- Stores and managers at which the theorems apply, and calls that hurt another pod.
use vgpu_rs.Base.{ℕ, ◌≡◌, refl, Bool, true, false, List, [], ◌∷◌, ◌==◌, none, some, if◌then◌else◌}
use vgpu_rs.Device.{DeviceConfig}
use vgpu_rs.Dict.{nat_eq, fetch}
use vgpu_rs.Paths.{PodIdentifier, identifier_eq}
use vgpu_rs.Pods.{PodResult, done, PodState, running, PodStateStore}
use vgpu_rs.Pods.Store
use vgpu_rs.Pods.Store.{
  Opening, opened, open_error, get_pod_by_pid, get_pod_processes, get_pods_using_device,
}
use vgpu_rs.Pods.Coherent.{IsCoherent}
use vgpu_rs.Pods.Runs.{
  Call, registers_pod, registers_process, unregisters_process, calls, calls_new-IsCoherent,
}
use vgpu_rs.Pods.Hypervisor.{ProcessTable}
use vgpu_rs.Pods.Manager.{
  written, PodManager, register_process_to_all_components, handle_process_exited,
  check_and_cleanup_dead_processes,
}
use vgpu_rs.Pods.Manager.Registration.{IsSettled, register_process_to_all_components-IsSettled}
use vgpu_rs.Pods.Manager.Exits.{
  handle_process_exited-Forgets, check_and_cleanup_dead_processes-owner,
}

abbrev Run : Type 0
Run = List (Call ℕ ℕ)

abbrev here : PodIdentifier
here = record { namespace = b'a' ∷ []; name = b'p' ∷ [] }

abbrev there : PodIdentifier
there = record { namespace = b'a' ∷ []; name = b'q' ∷ [] }

abbrev config : DeviceConfig
config = record {
  device_idx = 0;
  device_uuid = b'g' ∷ [];
  up_limit = 80;
  mem_limit = 2048;
  sm_count = 20;
  max_thread_per_sm = 128;
  total_cuda_cores = 2560;
}

abbrev two_pods : Run
two_pods =
    registers_pod here 1 (config ∷ []) ∷ registers_pod there 2 [] ∷ registers_process here 1234 ∷ []

abbrev empty : PodStateStore ℕ ℕ
empty = Store.new []

abbrev store : PodStateStore ℕ ℕ
store = calls two_pods empty

calls_new-IsCoherent_example : IsCoherent store
calls_new-IsCoherent_example = calls_new-IsCoherent two_pods []

owner_1234 : get_pod_by_pid 1234 store ≡ some here
unfolding get_pod_by_pid Store.register_process Store.register_pod Store.new
owner_1234 = refl

-- A process that is registered in two pods is owned by the second; to unregister it from the first
-- leaves it without an owner, though the second still lists it.
abbrev registered_twice : Run
registered_twice = registers_process there 1234 ∷ unregisters_process here 1234 ∷ []

lost_owner :
    (get_pod_by_pid 1234 (calls registered_twice store) ≡ none)
    × (get_pod_processes there (calls registered_twice store) ≡ 1234 ∷ [])
unfolding get_pod_by_pid get_pod_processes Store.register_process Store.unregister_process
    Store.register_pod Store.new
lost_owner = (refl, refl)

abbrev pod : PodState ℕ ℕ
pod = record {
  pod_info = 1;
  device_configs = config ∷ [];
  processes = 5 ∷ 3 ∷ 4 ∷ [];
  shared_memory_handle = none;
  status = running;
}

-- A table of processes as a test.
abbrev numbers : ProcessTable
numbers = record {
  Table = ℕ → Bool;
  process_exists = λ t j. t j;
  register = λ p t j. if p == j then true else t j;
  remove = λ p t j. if p == j then false else t j;
  exists-register = λ p j t. refl;
  exists-remove = λ p j t. refl;
}

abbrev manager : PodManager (ℕ → Bool) ℕ ℕ
manager = record { pod_state_store = store; hypervisor = λ j. j == 1234 }

-- The shared memory takes the process id, but cannot be opened.
register_process_to_all_components-IsSettled_example :
    IsSettled numbers manager there 7
      (register_process_to_all_components numbers (λ t. t) there 7 written (open_error []) manager)
unfolding Store.register_process Store.register_pod Store.new fetch
register_process_to_all_components-IsSettled_example =
    register_process_to_all_components-IsSettled numbers manager there 7 refl refl (λ t. t) written
      (open_error [])

abbrev exited : PodManager (ℕ → Bool) ℕ ℕ × PodResult (Unit {0})
exited = handle_process_exited numbers 1234 manager

handle_process_exited-Forgets_example :
    (exited.1 ≡ done tt)
    × ((j : ℕ)
        → fetch j exited.0.pod_state_store.pid_to_pod
          ≡ (if 1234 == j then none else fetch j store.pid_to_pod))
    × (exited.0.hypervisor 1234 ≡ false)
    × IsCoherent exited.0.pod_state_store
handle_process_exited-Forgets_example =
    handle_process_exited-Forgets numbers 1234 manager calls_new-IsCoherent_example owner_1234

-- No process is alive.
check_and_cleanup_dead_processes-owner_example :
    get_pod_by_pid 1234
      (check_and_cleanup_dead_processes numbers (λ id. none) (λ p. false) manager).0.pod_state_store
    ≡ none
check_and_cleanup_dead_processes-owner_example =
    check_and_cleanup_dead_processes-owner numbers (λ id. none) (λ p. false) manager 1234
      calls_new-IsCoherent_example refl
