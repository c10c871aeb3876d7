-- ===== src/Scheduler.antt =====
-- crates/hypervisor/src/core/scheduler: the scheduler that weighs processes, with its queues and its
-- registry (weighted/types.rs, weighted/weight_calculator.rs, weighted/queue_manager.rs,
-- weighted/scheduler.rs). Its decisions are in Scheduler/Decisions.
--
-- The registry is an association list. The log lines and metrics are left out. Arithmetic on weights
-- and rounds wraps, as in a release build.
pub mod Queues
pub mod Decisions
pub mod Places
pub mod Calls
pub mod Shapes
pub mod Rounds
pub mod Runs
mod Examples
use vgpu_rs.Base.{
  ℕ, ◌+◌, ◌*◌, Bool, true, false, List, [], ◌∷◌, ◌++◌, Option, none, some, map, length, ◌==◌,
  if◌then◌else◌, u32,
}
use vgpu_rs.Scheduler.Queues.{PriorityQueue}

pub data QosLevel : Type 0 where
  low : QosLevel
  medium : QosLevel
  high : QosLevel
  critical : QosLevel

-- What the scheduler knows of a process (the trait `GpuProcess`), of a trap frame and of a waker.
pub record Client : Type 1 where
  pub Proc : Type 0
  pub Frame : Type 0
  pub Waker : Type 0
  pub pid : Proc → ℕ
  pub qos_level : Proc → QosLevel

unfoldable pub calculate_qos_multiplier : QosLevel → ℕ
calculate_qos_multiplier low = 1
calculate_qos_multiplier medium = 2
calculate_qos_multiplier high = 3
calculate_qos_multiplier critical = 4

-- A map by an association list, in which an insertion replaces.
module _ {A : Type 0} where
  unfoldable pub lookup : ℕ → List (ℕ × A) → Option A
  lookup key [] = none
  lookup key (entry ∷ entries) =
      let rest = lookup key entries in if entry.0 == key then some entry.1 else rest

  unfoldable pub delete : ℕ → List (ℕ × A) → List (ℕ × A)
  delete key [] = []
  delete key (entry ∷ entries) =
      let rest = delete key entries in if entry.0 == key then rest else entry ∷ rest

  unfoldable pub put : ℕ → A → List (ℕ × A) → List (ℕ × A)
  put key a entries = (key, a) ∷ delete key entries

module _ (client : Client) where
  open client use {Proc, Frame, Waker, pid, qos_level}

  pub record Trap : Type 0 where
    pub frame : Frame
    pub waker : Waker
    pub round : ℕ

  pub record WithTraps : Type 0 where
    pub process : Proc
    pub traps : List Trap

  unfoldable pub trap_weight : ℕ → ℕ → List Trap → ℕ
  trap_weight qos_multiplier acc [] = acc
  trap_weight qos_multiplier acc (trap ∷ traps) =
      trap_weight qos_multiplier (u32 (acc + u32 (trap.round * qos_multiplier))) traps

  unfoldable pub weight : WithTraps → ℕ
  unfolding calculate_qos_multiplier trap_weight
  weight p =
      let qos_multiplier = calculate_qos_multiplier (qos_level p.process) in
      u32 (qos_multiplier * 10 + trap_weight qos_multiplier 0 p.traps)

  module _ (queue : PriorityQueue) where
    open queue use {Q, push, remove, len}

    pub record QueueManager : Type 0 where
      pub running_queue : Q
      pub sleep_queue : Q
      pub trap_wait_queue : Q

    unfoldable pub new_queues : QueueManager
    new_queues = record {
      running_queue = queue.new;
      sleep_queue = queue.new;
      trap_wait_queue = queue.new;
    }

    pub data QueueType : Type 0 where
      running : QueueType
      sleep : QueueType
      trap_wait : QueueType

    unfoldable pub remove_from : QueueManager → ℕ → QueueType → QueueManager
    remove_from m p running = record m { running_queue = remove m.running_queue p }
    remove_from m p sleep = record m { sleep_queue = remove m.sleep_queue p }
    remove_from m p trap_wait = record m { trap_wait_queue = remove m.trap_wait_queue p }

    unfoldable pub push_to : QueueManager → ℕ → QueueType → ℕ → QueueManager
    push_to m p running w = record m { running_queue = push m.running_queue p w }
    push_to m p sleep w = record m { sleep_queue = push m.sleep_queue p w }
    push_to m p trap_wait w = record m { trap_wait_queue = push m.trap_wait_queue p w }

    unfoldable pub move_process : QueueManager → ℕ → QueueType → QueueType → ℕ → QueueManager
    unfolding remove_from push_to
    move_process m p from to w = push_to (remove_from m p from) p to w

    unfoldable pub remove_all : QueueManager → ℕ → QueueManager
    remove_all m p = record {
      running_queue = remove m.running_queue p;
      sleep_queue = remove m.sleep_queue p;
      trap_wait_queue = remove m.trap_wait_queue p;
    }

    pub record WeightedScheduler : Type 0 where
      pub processes : List (ℕ × WithTraps)
      pub queues : QueueManager

    unfoldable pub new : WeightedScheduler
    unfolding new_queues
    new = record { processes = []; queues = new_queues }

    pub record SchedulerStats : Type 0 where
      pub total_processes : ℕ
      pub running_processes : ℕ
      pub sleeping_processes : ℕ
      pub trap_waiting_processes : ℕ

    unfoldable pub stats : WeightedScheduler → SchedulerStats
    stats s = record {
      total_processes = length s.processes;
      running_processes = len s.queues.running_queue;
      sleeping_processes = len s.queues.sleep_queue;
      trap_waiting_processes = len s.queues.trap_wait_queue;
    }

    unfoldable pub is_empty : WeightedScheduler → Bool
    is_empty s = length s.processes == 0

    unfoldable pub process_ids : WeightedScheduler → List ℕ
    process_ids s = map (λ entry. entry.0) s.processes

    unfoldable pub update_trap_rounds : WeightedScheduler → WeightedScheduler
    update_trap_rounds s = record s {
      processes =
          map
            (λ (entry : ℕ × WithTraps). (
              entry.0,
              record entry.1 {
                traps = map (λ (t : Trap). record t { round = u32 (t.round + 1) }) entry.1.traps;
              },
            ))
            s.processes;
    }

    unfoldable pub register_process : WeightedScheduler → Proc → WeightedScheduler
    unfolding put weight
    register_process s process =
        let wrapped_process : WithTraps = record { process = process; traps = [] } in
        record {
          processes = put (pid process) wrapped_process s.processes;
          queues = record s.queues {
            running_queue = push s.queues.running_queue (pid process) (weight wrapped_process);
          };
        }

    unfoldable pub remove_process : WeightedScheduler → ℕ → WeightedScheduler
    unfolding lookup delete remove_all
    remove_process s process_id = elim (lookup process_id s.processes) [
      | none ↦ s
      | some _ ↦ record {
        processes = delete process_id s.processes;
        queues = remove_all s.queues process_id;
      }
    ]

    unfoldable pub get_process : WeightedScheduler → ℕ → Option Proc
    unfolding lookup
    get_process s process_id = elim (lookup process_id s.processes) [
      | none ↦ none
      | some p ↦ some p.process
    ]

    unfoldable pub on_trap : WeightedScheduler → ℕ → Frame → Waker → WeightedScheduler
    unfolding lookup put remove_all weight
    on_trap s process_id frame waker = elim (lookup process_id s.processes) [
      | none ↦ s
      | some p ↦
          let trapped : WithTraps = record p {
            traps = p.traps ++ (record { frame = frame; waker = waker; round = 1 } ∷ []);
          } in
          let cleared = remove_all s.queues process_id in
          record {
            processes = put process_id trapped s.processes;
            queues = record cleared {
              trap_wait_queue = push cleared.trap_wait_queue process_id (weight trapped);
            };
          }
    ]
