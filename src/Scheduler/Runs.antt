-- ===== src/Scheduler/Runs.antt =====
-- Any sequence of calls of the scheduler.
use vgpu_rs.Base.{ℕ, ◌≡◌, refl, sym, subst, inl, inr, false, none, Option-cases}
use vgpu_rs.Scheduler.Queues.{PriorityQueue}
use vgpu_rs.Scheduler.{
  Client, new, lookup, register_process, remove_process, on_trap, update_trap_rounds,
}
use vgpu_rs.Scheduler.Decisions.{schedule, done_all}
use vgpu_rs.Scheduler.Places.{Sched, is_registered, IsConsistent, new-IsConsistent}
use vgpu_rs.Scheduler.Calls.{
  register_process-IsConsistent, remove_process-IsConsistent, on_trap-IsConsistent,
  update_trap_rounds-IsConsistent,
}
use vgpu_rs.Scheduler.Rounds.{schedule-IsConsistent}

module _ (client : Client) (queue : PriorityQueue) where
  open client use {Proc, Frame, Waker, pid}

  -- A call; a process is registered under an id that is not in use, and a round is undisturbed.
  pub data Call : Sched client queue → Sched client queue → Type 0 where
    registers :
        {s : Sched client queue} (process : Proc)
        → is_registered client queue s (pid process) ≡ false
        → Call s (register_process client queue s process)
    removes : {s : Sched client queue} (p : ℕ) → Call s (remove_process client queue s p)
    traps :
        {s : Sched client queue} (p : ℕ) (frame : Frame) (waker : Waker)
        → Call s (on_trap client queue s p frame waker)
    ticks : {s : Sched client queue} → Call s (update_trap_rounds client queue s)
    rounds : {s : Sched client queue} → Call s (done_all client queue s (schedule client queue s))

  pub data Run (s : Sched client queue) : Sched client queue → Type 0 where
    here : Run s s
    next : {t u : Sched client queue} → Run s t → Call t u → Run s u

  trap_ignored :
      (s : Sched client queue) (p : ℕ) (frame : Frame) (waker : Waker)
      → lookup p s.processes ≡ none
      → on_trap client queue s p frame waker ≡ s
  unfolding on_trap
  trap_ignored s p frame waker gap = rw (gap, on_trap) refl

  Call-IsConsistent :
      {s t : Sched client queue}
      → Call s t
      → IsConsistent client queue s
      → IsConsistent client queue t
  Call-IsConsistent {s} (registers process fresh) c =
      (register_process-IsConsistent client queue s c process fresh).0
  Call-IsConsistent {s} (removes p) c = (remove_process-IsConsistent client queue s c p).0
  Call-IsConsistent {s} (traps p frame waker) c = elim (Option-cases (lookup p s.processes)) [
    | inl gap ↦ subst (IsConsistent client queue) (sym (trap_ignored s p frame waker gap)) c
    | inr (process, found) ↦ (on_trap-IsConsistent client queue s c p frame waker (rw found refl)).0
  ]
  Call-IsConsistent {s} ticks c = update_trap_rounds-IsConsistent client queue s c
  Call-IsConsistent {s} rounds c = (schedule-IsConsistent client queue s c).0

  -- From a new scheduler, by any sequence of registrations under ids not in use, removals, traps, ticks of
  -- the rounds, and rounds of decisions that no call disturbs: every registered process is in exactly
  -- one of the three queues, and any other id is in none.
  pub Run-IsConsistent :
      {s : Sched client queue} → Run (new client queue) s → IsConsistent client queue s
  Run-IsConsistent here = new-IsConsistent client queue
  Run-IsConsistent (next run call) = Call-IsConsistent call (Run-IsConsistent run)
