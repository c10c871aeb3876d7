-- ===== src/Scheduler/Shapes.antt =====
-- What the three parts of a round can be.
use vgpu_rs.Base.{ℕ, ◌≡◌, ◌⊎◌, refl, inl, inr, true, List, [], ◌∷◌, All, Bool-cases, Option-cases}
use vgpu_rs.Scheduler.Queues.{PriorityQueue}
use vgpu_rs.Scheduler.{Client, WithTraps, lookup, QueueManager}
use vgpu_rs.Scheduler.Decisions.{
  release, resume, wake, any_wake, should_resume, should_release, find_release, wake_decisions,
  resume_decisions,
}
use vgpu_rs.Scheduler.Places.{Sched}

module _ (client : Client) (queue : PriorityQueue) where
  open queue use {Q, contains, contains-peek, peek}

  pub wake_shape :
      (s : Sched client queue)
      → let ds = wake_decisions client queue s.processes s.queues.trap_wait_queue in
        (ds ≡ []) ⊎ (ds ≡ wake ∷ [])
  unfolding wake_decisions
  wake_shape s = elim (Option-cases (peek s.queues.trap_wait_queue)) [
    | inl nobody ↦ inl (rw (nobody, wake_decisions) refl)
    | inr (entry, first) ↦ elim (Option-cases (lookup entry.0 s.processes)) [
      | inl gap ↦ inl (rw (first, gap, wake_decisions) refl)
      | inr (process, found) ↦ elim (Bool-cases (any_wake client process.traps)) [
        | inl on ↦ inr (rw (first, found, on, wake_decisions) refl)
        | inr off ↦ inl (rw (first, found, off, wake_decisions) refl)
      ]
    ]
  ]

  pub resume_shape :
      (m : QueueManager client queue)
      → let ds = resume_decisions client queue m.running_queue m.sleep_queue in
        (ds ≡ []) ⊎ ((p : ℕ) × (ds ≡ resume p ∷ []) × (contains m.sleep_queue p ≡ true))
  unfolding resume_decisions
  resume_shape m = elim (Option-cases (peek m.sleep_queue)) [
    | inl nobody ↦ inl (rw (nobody, resume_decisions) refl)
    | inr (entry, first) ↦ elim (Bool-cases (should_resume client queue entry.1 m.running_queue)) [
      | inl on ↦ inr (
        entry.0,
        rw (first, on, resume_decisions) refl,
        contains-peek m.sleep_queue entry.0 entry.1 first,
      )
      | inr off ↦ inl (rw (first, off, resume_decisions) refl)
    ]
  ]

  pub release_shape :
      (processes : List (ℕ × WithTraps client)) (q : Q) (entries : List (ℕ × ℕ))
      → All (λ entry. contains q entry.0 ≡ true) entries
      → let ds = find_release client processes entries in
        (ds ≡ []) ⊎ ((p : ℕ) × (ds ≡ release p ∷ []) × (contains q p ≡ true))
  unfolding find_release
  release_shape processes q [] inside = inl refl
  release_shape processes q (entry ∷ entries) inside =
      elim (Option-cases (lookup entry.0 processes)) [
        | inl gap ↦ rw (gap, find_release) (release_shape processes q entries inside.1)
        | inr (process, found) ↦ elim (Bool-cases (should_release client entry.1 process)) [
          | inl on ↦ inr (entry.0, rw (found, on, find_release) refl, inside.0)
          | inr off ↦ rw (found, off, find_release) (release_shape processes q entries inside.1)
        ]
      ]
