-- ===== src/Scheduler/Rounds.antt =====
-- What a round of decisions does to the queues, and what goes wrong when a call comes in between.
use vgpu_rs.Base.{
  ℕ, ◌≡◌, ◌⊎◌, refl, ap, sym, subst, ◌∙◌, inl, inr, Bool, true, false, List, [], ◌∷◌, ◌++◌, arith,
  Option-cases,
}
use vgpu_rs.Scheduler.Queues.{PriorityQueue}
use vgpu_rs.Scheduler.{
  Client, lookup, QueueManager, weight, move_process, running, sleep, trap_wait, register_process,
  push_to, remove_from,
}
use vgpu_rs.Scheduler.Decisions.{
  SchedulingDecision, pause, release, resume, wake, find_release, wake_decisions, resume_decisions,
  make_decisions, schedule, done_decision, done_all,
}
use vgpu_rs.Scheduler.Shapes.{wake_shape, resume_shape, release_shape}
use vgpu_rs.Scheduler.Places.{
  one_if, Sched, places, is_in, is_registered, IsConsistent, move_process-places,
}

module _ (client : Client) (queue : PriorityQueue) where
  open queue use {
    Q, contains, contains-push, contains-remove, contains-peek, contains-iter, peek, iter,
  }

  -- The decision fits the queues: it resumes a sleeping process or releases a running one.
  abbrev pub Fits : QueueManager client queue → SchedulingDecision → Type 0
  Fits m (resume p) = contains m.sleep_queue p ≡ true
  Fits m (release p) = contains m.running_queue p ≡ true
  Fits m (pause p) = Unit {0}
  Fits m wake = Unit {0}

  in_place :
      (m : QueueManager client queue) (p : ℕ) (registered : Bool)
      → places client queue m p ≡ one_if registered
      → (contains m.sleep_queue p ≡ true) ⊎ (contains m.running_queue p ≡ true)
      → (registered ≡ true) × (places client queue m p ≡ 1)
  in_place m p registered count (inl inside) = ground arith
  in_place m p registered count (inr inside) = ground arith

  -- A decision that fits, reported to a consistent scheduler, leaves it consistent.
  pub done_decision-IsConsistent :
      (s : Sched client queue) (d : SchedulingDecision)
      → IsConsistent client queue s
      → Fits s.queues d
      → IsConsistent client queue (done_decision client queue s d)
  unfolding done_decision
  done_decision-IsConsistent s (resume p) consistent fits =
      elim (Option-cases (lookup p s.processes)) [
        | inl gap ↦ ground arith
        | inr (process, found) ↦
            let (_, once) = in_place s.queues p _ (consistent p) (inl fits) in
            let w = weight client process in
            let same : done_decision client queue s (resume p)
                ≡ record s { queues = move_process client queue s.queues p sleep running w } =
              rw (found, done_decision) refl in
            subst (IsConsistent client queue) (sym same) (λ j.
              move_process-places client queue s.queues p w j sleep running fits once
              ∙ consistent j)
      ]
  done_decision-IsConsistent s (release p) consistent fits =
      elim (Option-cases (lookup p s.processes)) [
        | inl gap ↦ ground arith
        | inr (process, found) ↦
            let (_, once) = in_place s.queues p _ (consistent p) (inr fits) in
            let w = weight client process in
            let same : done_decision client queue s (release p)
                ≡ record s { queues = move_process client queue s.queues p running sleep w } =
              rw (found, done_decision) refl in
            subst (IsConsistent client queue) (sym same) (λ j.
              move_process-places client queue s.queues p w j running sleep fits once
              ∙ consistent j)
      ]
  done_decision-IsConsistent s (pause p) consistent fits = consistent
  done_decision-IsConsistent s wake consistent fits = consistent

  done_all-append :
      (s : Sched client queue) (xs ys : List SchedulingDecision)
      → done_all client queue s (xs ++ ys) ≡ done_all client queue (done_all client queue s xs) ys
  unfolding done_all
  done_all-append s [] ys = refl
  done_all-append s (x ∷ xs) ys = done_all-append (done_decision client queue s x) xs ys

  -- What a decision keeps: the trap queue and who is registered; and what runs stays running in a resume.
  resume-keeps :
      (s : Sched client queue) (p q : ℕ)
      → contains s.queues.running_queue q ≡ true
      → contains (done_decision client queue s (resume p)).queues.running_queue q ≡ true
  unfolding done_decision move_process push_to remove_from
  resume-keeps s p q inside = elim (Option-cases (lookup p s.processes)) [
    | inl gap ↦ rw (gap, done_decision) inside
    | inr (process, found) ↦
        rw (found, done_decision)
          (contains-push s.queues.running_queue p (weight client process) q ∙ ground arith)
  ]

  trap_queue_kept :
      (s : Sched client queue) (d : SchedulingDecision)
      → (done_decision client queue s d).queues.trap_wait_queue ≡ s.queues.trap_wait_queue
  unfolding done_decision move_process push_to remove_from
  trap_queue_kept s (resume p) = elim (Option-cases (lookup p s.processes)) [
    | inl gap ↦ rw (gap, done_decision) refl
    | inr (process, found) ↦ rw (found, done_decision) refl
  ]
  trap_queue_kept s (release p) = elim (Option-cases (lookup p s.processes)) [
    | inl gap ↦ rw (gap, done_decision) refl
    | inr (process, found) ↦ rw (found, done_decision) refl
  ]
  trap_queue_kept s (pause p) = refl
  trap_queue_kept s wake = refl

  done_all-trap_queue :
      (s : Sched client queue) (ds : List SchedulingDecision)
      → (done_all client queue s ds).queues.trap_wait_queue ≡ s.queues.trap_wait_queue
  unfolding done_all
  done_all-trap_queue s [] = refl
  done_all-trap_queue s (d ∷ ds) =
      done_all-trap_queue (done_decision client queue s d) ds ∙ trap_queue_kept s d

  -- What a list of decisions comes to, in a state from which only some processes are known to run.
  abbrev Kept : Sched client queue → Sched client queue → Type 0
  Kept s t =
      IsConsistent client queue t
      × ((q : ℕ)
          → contains s.queues.running_queue q ≡ true
          → contains t.queues.running_queue q ≡ true)

  after_wake :
      (s : Sched client queue) (ds : List SchedulingDecision)
      → (ds ≡ []) ⊎ (ds ≡ wake ∷ [])
      → done_all client queue s ds ≡ s
  unfolding done_all done_decision
  after_wake s ds (inl e) = rw e refl
  after_wake s ds (inr e) = rw e refl

  after_resume :
      (s : Sched client queue) (ds : List SchedulingDecision)
      → IsConsistent client queue s
      → (ds ≡ []) ⊎ ((p : ℕ) × (ds ≡ resume p ∷ []) × (contains s.queues.sleep_queue p ≡ true))
      → Kept s (done_all client queue s ds)
  unfolding done_all
  after_resume s ds consistent (inl e) =
      subst (λ ds. Kept s (done_all client queue s ds)) (sym e) (consistent, λ q inside. inside)
  after_resume s ds consistent (inr (p, e, fits)) =
      subst (λ ds. Kept s (done_all client queue s ds)) (sym e)
        (
          done_decision-IsConsistent s (resume p) consistent fits,
          λ q inside. resume-keeps s p q inside,
        )

  after_release :
      (s : Sched client queue) (ds : List SchedulingDecision)
      → IsConsistent client queue s
      → (ds ≡ []) ⊎ ((p : ℕ) × (ds ≡ release p ∷ []) × (contains s.queues.running_queue p ≡ true))
      → IsConsistent client queue (done_all client queue s ds)
  unfolding done_all
  after_release s ds consistent (inl e) =
      subst (λ ds. IsConsistent client queue (done_all client queue s ds)) (sym e) consistent
  after_release s ds consistent (inr (p, e, fits)) =
      subst (λ ds. IsConsistent client queue (done_all client queue s ds)) (sym e)
        (done_decision-IsConsistent s (release p) consistent fits)

  -- A round of a consistent scheduler, in which all its decisions are reported in order with no call in
  -- between, leaves it consistent. It leaves the trap queue as it was: no decision takes a process
  -- that waits for a trap out of it.
  pub schedule-IsConsistent :
      (s : Sched client queue)
      → IsConsistent client queue s
      → IsConsistent client queue (done_all client queue s (schedule client queue s))
        × ((done_all client queue s (schedule client queue s)).queues.trap_wait_queue
            ≡ s.queues.trap_wait_queue)
  unfolding schedule make_decisions
  schedule-IsConsistent s consistent =
      let wakes = wake_decisions client queue s.processes s.queues.trap_wait_queue in
      let resumes = resume_decisions client queue s.queues.running_queue s.queues.sleep_queue in
      let releases = find_release client s.processes (iter s.queues.running_queue) in
      let woken = after_wake s wakes (wake_shape client queue s) in
      let (resumed, running_still) =
        after_resume s resumes consistent (resume_shape client queue s.queues) in
      let t = done_all client queue s resumes in
      let fits : (releases ≡ [])
          ⊎ ((p : ℕ) × (releases ≡ release p ∷ []) × (contains t.queues.running_queue p ≡ true)) =
        elim (release_shape client queue s.processes s.queues.running_queue
          (iter s.queues.running_queue) (contains-iter s.queues.running_queue)) [
            | inl e ↦ inl e
            | inr (p, e, inside) ↦ inr (p, e, running_still p inside)
          ] in
      let whole : done_all client queue s (wakes ++ (resumes ++ releases))
          ≡ done_all client queue t releases =
        done_all-append s wakes (resumes ++ releases)
        ∙ ap (λ u. done_all client queue u (resumes ++ releases)) woken
        ∙ done_all-append s resumes releases in
      (
        subst (IsConsistent client queue) (sym whole) (after_release t releases resumed fits),
        done_all-trap_queue s (wakes ++ (resumes ++ releases)),
      )

  -- In a consistent scheduler, a resume that is reported after the process has come to wait for a trap
  -- leaves the process in two queues, and so does a second registration of a process that waits for a
  -- trap.
  pub late_calls-twice :
      (s : Sched client queue) (process : client.Proc)
      → IsConsistent client queue s
      → (is_in client queue s.queues (client.pid process) trap_wait ≡ true)
      → (places client queue
            (done_decision client queue s (resume (client.pid process))).queues
            (client.pid process)
          ≡ 2)
        × (places client queue (register_process client queue s process).queues (client.pid process)
            ≡ 2)
  unfolding done_decision register_process move_process push_to remove_from
  late_calls-twice s process consistent waits =
      let p = client.pid process in
      let count : places client queue s.queues p ≡ one_if (is_registered client queue s p) =
        consistent p in
      let waiting : contains s.queues.trap_wait_queue p ≡ true = waits in
      let idle : contains s.queues.running_queue p ≡ false = ground arith in
      let up : contains s.queues.sleep_queue p ≡ false = ground arith in
      let late : places client queue (done_decision client queue s (resume p)).queues p ≡ 2 =
        elim (Option-cases (lookup p s.processes)) [
          | inl gap ↦ ground arith
          | inr (old, found) ↦
              let pushed : contains (queue.push s.queues.running_queue p (weight client old)) p
                  ≡ true =
                contains-push s.queues.running_queue p (weight client old) p ∙ ground arith in
              let gone : contains (queue.remove s.queues.sleep_queue p) p ≡ false =
                contains-remove s.queues.sleep_queue p p ∙ ground arith in
              rw (found, done_decision) (rw (pushed, gone, waiting) refl)
        ] in
      let pushed : contains
            (queue.push s.queues.running_queue p
              (weight client (record { process = process; traps = [] })))
            p
          ≡ true =
        contains-push s.queues.running_queue p _ p ∙ ground arith in
      (late, rw (pushed, up, waiting) refl)
