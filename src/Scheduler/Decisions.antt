-- ===== src/Scheduler/Decisions.antt =====
-- The decisions of the scheduler and what they do to its queues
-- (crates/hypervisor/src/core/scheduler/mod.rs, weighted/decision_engine.rs, weighted/scheduler.rs).
-- A wake carries a waker that does nothing and always the same trap and action: it is left as `wake`.
use vgpu_rs.Base.{
  ℕ, Bool, true, false, ◌&&◌, List, [], ◌∷◌, ◌++◌, Option, none, some, length, ltb, ◌==◌,
  if◌then◌else◌, min,
}
use vgpu_rs.Scheduler.Queues.{PriorityQueue}
use vgpu_rs.Scheduler.{
  Client, Trap, WithTraps, weight, lookup, WeightedScheduler, move_process, running, sleep,
}

pub data SchedulingDecision : Type 0 where
  pause : ℕ → SchedulingDecision
  release : ℕ → SchedulingDecision
  resume : ℕ → SchedulingDecision
  wake : SchedulingDecision

-- `iter().min_by_key(|(_, w)| *w)`, by its weight.
unfoldable pub min_weight : List (ℕ × ℕ) → Option ℕ
min_weight [] = none
min_weight (entry ∷ entries) = elim (min_weight entries) [
  | none ↦ some entry.1
  | some least ↦ some (min entry.1 least)
]

module _ (client : Client) where
  unfoldable pub should_wake_trap : Trap client → Bool
  should_wake_trap trap = ltb 5 trap.round

  -- Can any trap be resolved?
  unfoldable pub any_wake : List (Trap client) → Bool
  unfolding should_wake_trap
  any_wake [] = false
  any_wake (trap ∷ traps) =
      let rest = any_wake traps in if should_wake_trap trap then true else rest

  unfoldable pub should_release : ℕ → WithTraps client → Bool
  should_release w process = ltb w 15 && (length process.traps == 0)

  -- The first running process that should be released.
  unfoldable pub find_release : List (ℕ × WithTraps client) → List (ℕ × ℕ) → List SchedulingDecision
  unfolding lookup should_release
  find_release processes [] = []
  find_release processes (entry ∷ entries) =
      let rest = find_release processes entries in
      elim (lookup entry.0 processes) [
        | none ↦ rest
        | some process ↦ if should_release entry.1 process then release entry.0 ∷ [] else rest
      ]

  module _ (queue : PriorityQueue) where
    open queue use {Q, peek, iter, len}

    unfoldable pub should_resume : ℕ → Q → Bool
    unfolding min_weight
    should_resume w running_queue =
        if ltb (len running_queue) 4
        then true
        else elim (min_weight (iter running_queue)) [ none ↦ true | some least ↦ ltb least w ]

    unfoldable pub wake_decisions : List (ℕ × WithTraps client) → Q → List SchedulingDecision
    unfolding lookup any_wake
    wake_decisions processes trap_wait_queue = elim (peek trap_wait_queue) [
      | none ↦ []
      | some entry ↦ elim (lookup entry.0 processes) [
        | none ↦ []
        | some process ↦ if any_wake process.traps then wake ∷ [] else []
      ]
    ]

    unfoldable pub resume_decisions : Q → Q → List SchedulingDecision
    unfolding should_resume
    resume_decisions running_queue sleep_queue = elim (peek sleep_queue) [
      | none ↦ []
      | some entry ↦ if should_resume entry.1 running_queue then resume entry.0 ∷ [] else []
    ]

    unfoldable pub make_decisions :
        List (ℕ × WithTraps client) → Q → Q → Q → List SchedulingDecision
    unfolding wake_decisions resume_decisions find_release
    make_decisions processes running_queue sleep_queue trap_wait_queue =
        wake_decisions processes trap_wait_queue
        ++ (resume_decisions running_queue sleep_queue
            ++ find_release processes (iter running_queue))

    unfoldable pub schedule : WeightedScheduler client queue → List SchedulingDecision
    unfolding make_decisions
    schedule s =
        make_decisions s.processes s.queues.running_queue s.queues.sleep_queue
          s.queues.trap_wait_queue

    unfoldable pub done_decision :
        WeightedScheduler client queue → SchedulingDecision → WeightedScheduler client queue
    unfolding lookup weight move_process
    done_decision s (resume p) = elim (lookup p s.processes) [
      | none ↦ s
      | some process ↦ record s {
        queues = move_process client queue s.queues p sleep running (weight client process);
      }
    ]
    done_decision s (release p) = elim (lookup p s.processes) [
      | none ↦ s
      | some process ↦ record s {
        queues = move_process client queue s.queues p running sleep (weight client process);
      }
    ]
    done_decision s wake = s
    done_decision s (pause p) = s

    -- The hypervisor reports each decision of a round, in order.
    unfoldable pub done_all :
        WeightedScheduler client queue → List SchedulingDecision → WeightedScheduler client queue
    unfolding done_decision
    done_all s [] = s
    done_all s (d ∷ ds) = done_all (done_decision s d) ds
