-- ===== src/Scheduler/Examples.antt =====
-- A queue by an association list, and runs of the scheduler at which the theorems apply.
use vgpu_rs.Base.{
  ℕ, ◌≡◌, ◌⊎◌, refl, subst, inl, inr, Bool, true, false, List, [], ◌∷◌, All, Option, none, some,
  length, arith, ltb, ◌==◌, if◌then◌else◌, Bool-cases, Option-cases,
}
use vgpu_rs.Scheduler.Queues.{PriorityQueue}
use vgpu_rs.Scheduler.{
  Client, QosLevel, low, lookup, delete, put, new, register_process, on_trap, trap_wait, running,
}
use vgpu_rs.Scheduler.Decisions.{resume, schedule, done_decision, done_all}
use vgpu_rs.Scheduler.Places.{
  is_some, lookup-put, lookup-delete, Sched, places, is_in, is_registered, IsConsistent,
  new-IsConsistent,
}
use vgpu_rs.Scheduler.Calls.{register_process-IsConsistent, on_trap-IsConsistent}
use vgpu_rs.Scheduler.Rounds.{schedule-IsConsistent, late_calls-twice}
use vgpu_rs.Scheduler.Runs.{Run, here, next, registers, traps, rounds, Run-IsConsistent}

abbrev Entries : Type 0
Entries = List (ℕ × ℕ)

abbrev holds : Entries → ℕ → Bool
holds q i = is_some (lookup i q)

-- The first entry of the greatest weight.
greatest : Entries → Option (ℕ × ℕ)
greatest [] = none
greatest (entry ∷ entries) = elim (greatest entries) [
  | none ↦ some entry
  | some best ↦ if ltb entry.1 best.1 then some best else some entry
]

holds-put : (q : Entries) (i w j : ℕ) → holds (put i w q) j ≡ (if i == j then true else holds q j)
holds-put q i w j = ground (arith, lookup-put i w q j)

holds-delete :
    (q : Entries) (i j : ℕ) → holds (delete i q) j ≡ (if i == j then false else holds q j)
holds-delete q i j = ground (arith, lookup-delete i q j)

holds_first : (entry : ℕ × ℕ) (q : Entries) → holds (entry ∷ q) entry.0 ≡ true
unfolding lookup
holds_first entry q = ground arith

holds_later : (entry : ℕ × ℕ) (q : Entries) (i : ℕ) → holds q i ≡ true → holds (entry ∷ q) i ≡ true
unfolding lookup
holds_later entry q i h = ground arith

greatest-step :
    (entry : ℕ × ℕ) (entries : Entries) (best : ℕ × ℕ)
    → greatest (entry ∷ entries) ≡ some best
    → (entry ≡ best) ⊎ (greatest entries ≡ some best)
unfolding greatest
greatest-step entry entries best e = elim (Option-cases (greatest entries)) [
  | inl empty ↦ inl (ground arith)
  | inr (other, found) ↦ elim (Bool-cases (ltb entry.1 other.1)) [
    | inl less ↦ inr (ground arith)
    | inr more ↦ inl (ground arith)
  ]
]

holds-greatest : (q : Entries) (best : ℕ × ℕ) → greatest q ≡ some best → holds q best.0 ≡ true
unfolding greatest
holds-greatest [] best e = ground arith
holds-greatest (entry ∷ entries) best e = elim (greatest-step entry entries best e) [
  | inl same ↦
      subst (λ (b : ℕ × ℕ). holds (entry ∷ entries) b.0 ≡ true) same (holds_first entry entries)
  | inr found ↦ holds_later entry entries best.0 (holds-greatest entries best found)
]

nobody : (i : ℕ) → holds [] i ≡ false
unfolding lookup
nobody i = refl

holds-All :
    (entries q : Entries)
    → ((i : ℕ) → holds entries i ≡ true → holds q i ≡ true)
    → All (λ entry. holds q entry.0 ≡ true) entries
holds-All [] q h = tt
holds-All (entry ∷ entries) q h = (
  h entry.0 (holds_first entry entries),
  holds-All entries q (λ i inside. h i (holds_later entry entries i inside)),
)

abbrev entry_queue : PriorityQueue
entry_queue = record {
  Q = Entries;
  new = [];
  push = λ q i w. put i w q;
  remove = λ q i. delete i q;
  peek = greatest;
  iter = λ q. q;
  len = length;
  contains = holds;
  contains-new = nobody;
  contains-push = holds-put;
  contains-remove = holds-delete;
  contains-peek = λ q i w found. holds-greatest q (i, w) found;
  contains-iter = λ q. holds-All q q (λ i inside. inside);
}

-- Processes are pairs of an id and a level; frames and wakers carry nothing.
abbrev clients : Client
clients = record {
  Proc = ℕ × QosLevel;
  Frame = Unit {0};
  Waker = Unit {0};
  pid = λ p. p.0;
  qos_level = λ p. p.1;
}

abbrev nothing : Sched clients entry_queue
nothing = new clients entry_queue

nothing-IsConsistent : IsConsistent clients entry_queue nothing
nothing-IsConsistent = new-IsConsistent clients entry_queue

nothing_fresh : (i : ℕ) → is_registered clients entry_queue nothing i ≡ false
unfolding new lookup
nothing_fresh i = refl

-- Process 5 is registered.
abbrev one : Sched clients entry_queue
one = register_process clients entry_queue nothing (5, low)

one_known : is_registered clients entry_queue one 5 ≡ true
unfolding register_process new put delete lookup
one_known = refl

-- It waits for a trap.
abbrev trapped : Sched clients entry_queue
trapped = on_trap clients entry_queue one 5 tt tt

abbrev rounded : Sched clients entry_queue
rounded = done_all clients entry_queue trapped (schedule clients entry_queue trapped)

run_rounded : Run clients entry_queue nothing rounded
run_rounded = next (next (next here (registers (5, low) (nothing_fresh 5))) (traps 5 tt tt)) rounds

one-IsConsistent :
    IsConsistent clients entry_queue one × (is_in clients entry_queue one.queues 5 running ≡ true)
one-IsConsistent =
    register_process-IsConsistent clients entry_queue nothing nothing-IsConsistent (5, low)
      (nothing_fresh 5)

trapped-IsConsistent :
    IsConsistent clients entry_queue trapped
    × (is_in clients entry_queue trapped.queues 5 trap_wait ≡ true)
trapped-IsConsistent =
    on_trap-IsConsistent clients entry_queue one one-IsConsistent.0 5 tt tt one_known

Run-IsConsistent_example : IsConsistent clients entry_queue rounded
Run-IsConsistent_example = Run-IsConsistent clients entry_queue run_rounded

schedule-IsConsistent_example :
    IsConsistent clients entry_queue rounded
    × (rounded.queues.trap_wait_queue ≡ trapped.queues.trap_wait_queue)
schedule-IsConsistent_example =
    schedule-IsConsistent clients entry_queue trapped trapped-IsConsistent.0

late_calls-twice_example :
    (places clients entry_queue (done_decision clients entry_queue trapped (resume 5)).queues 5 ≡ 2)
    × (places clients entry_queue (register_process clients entry_queue trapped (5, low)).queues 5
        ≡ 2)
late_calls-twice_example =
    late_calls-twice clients entry_queue trapped (5, low) trapped-IsConsistent.0
      trapped-IsConsistent.1
