-- ===== src/Scheduler/Calls.antt =====
-- What the calls of the scheduler do to the queues.
use vgpu_rs.Base.{
  ℕ, ◌≡◌, refl, ap, sym, ◌∙◌, inl, inr, true, false, List, [], ◌∷◌, ◌++◌, subst, arith, Bool-cases,
  Option-cases, ◌==◌, if◌then◌else◌,
}
use vgpu_rs.Scheduler.Queues.{PriorityQueue}
use vgpu_rs.Scheduler.{
  Client, WithTraps, lookup, QueueManager, remove_all, register_process, remove_process, on_trap,
  update_trap_rounds, put, delete, weight, push_to, running, trap_wait,
}
use vgpu_rs.Scheduler.Places.{
  one_if, is_some, lookup-delete, lookup-put, lookup-map, Sched, places, is_registered,
  IsConsistent, remove_all-places, push_to-places, push_to-is_in, is_in,
}

module _ (client : Client) (queue : PriorityQueue) (s : Sched client queue)
    (consistent : IsConsistent client queue s) where
  open client use {Proc, Frame, Waker, pid}

  -- Both sides of the invariant, at a process that a call puts into one queue.
  placed :
      (p j : ℕ) (processes : List (ℕ × WithTraps client)) (queues : QueueManager client queue)
      → is_some (lookup j processes) ≡ (if p == j then true else is_registered client queue s j)
      → places client queue queues j ≡ (if p == j then 1 else places client queue s.queues j)
      → places client queue queues j ≡ one_if (is_some (lookup j processes))
  placed p j processes queues known where_now = elim (Bool-cases (p == j)) [
    | inl same ↦ where_now ∙ rw (same, known) (rw same refl)
    | inr other ↦ where_now ∙ rw (other, known) (rw other (consistent j))
  ]

  registered_put :
      (p j : ℕ) (a : WithTraps client)
      → is_some (lookup j (put p a s.processes))
        ≡ (if p == j then true else is_registered client queue s j)
  registered_put p j a =
      ap is_some (lookup-put p a s.processes j)
      ∙ (elim (Bool-cases (p == j)) [ inl same ↦ rw same refl | inr other ↦ rw other refl ])

  -- In a consistent scheduler, a process that is registered under a new id comes into the running queue,
  -- and the scheduler stays consistent.
  pub register_process-IsConsistent :
      (process : Proc)
      → is_registered client queue s (pid process) ≡ false
      → IsConsistent client queue (register_process client queue s process)
        × (is_in client queue (register_process client queue s process).queues (pid process) running
            ≡ true)
  unfolding register_process push_to
  register_process-IsConsistent process fresh =
      let outside : places client queue s.queues (pid process) ≡ 0 =
        consistent (pid process) ∙ rw fresh refl in
      let w = weight client (record { process = process; traps = [] }) in
      (
        (λ j.
            placed (pid process) j _ _
              (registered_put (pid process) j (record { process = process; traps = [] }))
              (push_to-places client queue s.queues (pid process) w j running outside)),
        push_to-is_in client queue s.queues (pid process) w running,
      )

  abbrev Removed : ℕ → Sched client queue → Type 0
  Removed p t =
      IsConsistent client queue t
      × (is_registered client queue t p ≡ false)
      × (places client queue t.queues p ≡ 0)

  -- In a consistent scheduler, the removal of an id, registered or not, leaves it unregistered and
  -- in no queue, and the scheduler consistent.
  pub remove_process-IsConsistent :
      (p : ℕ)
      → IsConsistent client queue (remove_process client queue s p)
        × (is_registered client queue (remove_process client queue s p) p ≡ false)
        × (places client queue (remove_process client queue s p).queues p ≡ 0)
  unfolding remove_process
  remove_process-IsConsistent p = elim (Option-cases (lookup p s.processes)) [
    | inl gap ↦
        let same : remove_process client queue s p ≡ s = rw (gap, remove_process) refl in
        let out : is_registered client queue s p ≡ false = ap is_some gap in
        subst (Removed p) (sym same) (consistent, out, consistent p ∙ ap one_if out)
    | inr (process, found) ↦
        let queues = remove_all client queue s.queues p in
        let same : remove_process client queue s p
            ≡ record { processes = delete p s.processes; queues = queues } =
          rw (found, remove_process) refl in
        subst (Removed p) (sym same) (
          (λ j. remove_all-places client queue s.queues p j ∙ (elim (Bool-cases (p == j)) [
            | inl at ↦ rw (at, lookup-delete p s.processes j) (rw at refl)
            | inr off ↦ rw (off, lookup-delete p s.processes j) (rw off (consistent j))
          ])),
          ap is_some (lookup-delete p s.processes p) ∙ ground arith,
          remove_all-places client queue s.queues p p ∙ ground arith,
        )
  ]

  -- In a consistent scheduler, a trap moves a registered process to the trap queue, from whatever queue it
  -- was in, and the scheduler stays consistent.
  pub on_trap-IsConsistent :
      (p : ℕ) (frame : Frame) (waker : Waker)
      → is_registered client queue s p ≡ true
      → IsConsistent client queue (on_trap client queue s p frame waker)
        × (is_in client queue (on_trap client queue s p frame waker).queues p trap_wait ≡ true)
  unfolding on_trap push_to
  on_trap-IsConsistent p frame waker known = elim (Option-cases (lookup p s.processes)) [
    | inl gap ↦ ground arith
    | inr (process, found) ↦
        let trapped : WithTraps client = record process {
          traps = process.traps ++ (record { frame = frame; waker = waker; round = 1 } ∷ []);
        } in
        let cleared = remove_all client queue s.queues p in
        let w = weight client trapped in
        let same : on_trap client queue s p frame waker ≡ record {
          processes = put p trapped s.processes;
          queues = push_to client queue cleared p trap_wait w;
        } =
          rw (found, on_trap) refl in
        let outside : places client queue cleared p ≡ 0 =
          remove_all-places client queue s.queues p p ∙ ground arith in
        subst (λ t. IsConsistent client queue t × (is_in client queue t.queues p trap_wait ≡ true))
          (sym same)
          (
            (λ j. placed p j (put p trapped s.processes) _ (registered_put p j trapped) (
                push_to-places client queue cleared p w j trap_wait outside
                ∙ (elim (Bool-cases (p == j)) [
                  | inl at ↦ rw at refl
                  | inr off ↦ rw off (remove_all-places client queue s.queues p j ∙ rw off refl)
                ]))),
            push_to-is_in client queue cleared p w trap_wait,
          )
  ]

  -- A tick of the rounds leaves the scheduler consistent.
  pub update_trap_rounds-IsConsistent :
      IsConsistent client queue (update_trap_rounds client queue s)
  unfolding update_trap_rounds
  update_trap_rounds-IsConsistent j = consistent j ∙ sym (ap one_if (lookup-map _ s.processes j))
