-- ===== src/Scheduler/Places.antt =====
-- In which queues a process is.
use vgpu_rs.Base.{
  ℕ, ◌+◌, ◌≡◌, refl, ap, sym, ◌∙◌, inl, inr, Bool, true, false, List, [], ◌∷◌, Option, none, some,
  map, arith, Bool-cases, ◌==◌, if◌then◌else◌,
}
use vgpu_rs.Scheduler.Queues.{PriorityQueue}
use vgpu_rs.Scheduler
use vgpu_rs.Scheduler.{
  Client, WithTraps, lookup, delete, put, WeightedScheduler, QueueManager, remove_all,
  register_process, remove_process, on_trap, update_trap_rounds, new_queues, QueueType, running,
  sleep, trap_wait, push_to, remove_from, move_process,
}

abbrev pub one_if : Bool → ℕ
one_if b = if b then 1 else 0

abbrev pub is_some {ℓ} : {A : Type ℓ} → Option A → Bool
is_some none = false
is_some (some _) = true

module _ {A : Type 0} where
  pub lookup-delete :
      (key : ℕ) (entries : List (ℕ × A)) (j : ℕ)
      → lookup j (delete key entries) ≡ (if key == j then none else lookup j entries)
  unfolding lookup delete
  lookup-delete key [] j = ground arith
  lookup-delete key (entry ∷ entries) j = ground (arith, lookup-delete key entries j)

  pub lookup-put :
      (key : ℕ) (a : A) (entries : List (ℕ × A)) (j : ℕ)
      → lookup j (put key a entries) ≡ (if key == j then some a else lookup j entries)
  unfolding put lookup
  lookup-put key a entries j = ground (arith, lookup-delete key entries j)

  pub lookup-map :
      (g : A → A) (entries : List (ℕ × A)) (j : ℕ)
      → is_some (lookup j (map (λ (entry : ℕ × A). (entry.0, g entry.1)) entries))
        ≡ is_some (lookup j entries)
  unfolding lookup
  lookup-map g [] j = refl
  lookup-map g (entry ∷ entries) j = ground (arith, lookup-map g entries j)

module _ (client : Client) (queue : PriorityQueue) where
  open queue use {contains, contains-new, contains-push, contains-remove}

  abbrev pub Sched : Type 0
  Sched = WeightedScheduler client queue

  -- In how many queues is the process?
  abbrev pub places : QueueManager client queue → ℕ → ℕ
  places m p =
      one_if (contains m.running_queue p)
      + (one_if (contains m.sleep_queue p) + one_if (contains m.trap_wait_queue p))

  abbrev pub is_registered : Sched → ℕ → Bool
  is_registered s p = is_some (lookup p s.processes)

  -- A registered process is in exactly one queue, any other in none.
  abbrev pub IsConsistent : Sched → Type 0
  IsConsistent s = (p : ℕ) → places s.queues p ≡ one_if (is_registered s p)

  pub new-IsConsistent : IsConsistent (Scheduler.new client queue)
  unfolding Scheduler.new new_queues lookup
  new-IsConsistent p = rw (contains-new p)

  pub remove_all-places :
      (m : QueueManager client queue) (p j : ℕ)
      → places (remove_all client queue m p) j ≡ (if p == j then 0 else places m j)
  unfolding remove_all
  remove_all-places m p j = ground (
    arith,
    contains-remove m.running_queue p j,
    contains-remove m.sleep_queue p j,
    contains-remove m.trap_wait_queue p j,
  )

  -- Is the process in the queue?
  abbrev pub is_in : QueueManager client queue → ℕ → QueueType client queue → Bool
  is_in m p running = contains m.running_queue p
  is_in m p sleep = contains m.sleep_queue p
  is_in m p trap_wait = contains m.trap_wait_queue p

  pub push_to-is_in :
      (m : QueueManager client queue) (p w : ℕ) (to : QueueType client queue)
      → is_in (push_to client queue m p to w) p to ≡ true
  unfolding push_to
  push_to-is_in m p w running = contains-push m.running_queue p w p ∙ ground arith
  push_to-is_in m p w sleep = contains-push m.sleep_queue p w p ∙ ground arith
  push_to-is_in m p w trap_wait = contains-push m.trap_wait_queue p w p ∙ ground arith

  -- A process in no queue is put into one.
  pub push_to-places :
      (m : QueueManager client queue) (p w j : ℕ) (to : QueueType client queue)
      → places m p ≡ 0
      → places (push_to client queue m p to w) j ≡ (if p == j then 1 else places m j)
  unfolding push_to
  push_to-places m p w j running none_before = elim (Bool-cases (p == j)) [
    | inl same ↦
        let at : p ≡ j = ground arith in
        let clear : places m j ≡ 0 = ap (places m) (sym at) ∙ none_before in
        ground (arith, contains-push m.running_queue p w j)
    | inr other ↦ ground (arith, contains-push m.running_queue p w j)
  ]
  push_to-places m p w j sleep none_before = elim (Bool-cases (p == j)) [
    | inl same ↦
        let at : p ≡ j = ground arith in
        let clear : places m j ≡ 0 = ap (places m) (sym at) ∙ none_before in
        ground (arith, contains-push m.sleep_queue p w j)
    | inr other ↦ ground (arith, contains-push m.sleep_queue p w j)
  ]
  push_to-places m p w j trap_wait none_before = elim (Bool-cases (p == j)) [
    | inl same ↦
        let at : p ≡ j = ground arith in
        let clear : places m j ≡ 0 = ap (places m) (sym at) ∙ none_before in
        ground (arith, contains-push m.trap_wait_queue p w j)
    | inr other ↦ ground (arith, contains-push m.trap_wait_queue p w j)
  ]

  -- A process in one queue is taken out of it.
  pub remove_from-places :
      (m : QueueManager client queue) (p j : ℕ) (from : QueueType client queue)
      → is_in m p from ≡ true
      → places m p ≡ 1
      → places (remove_from client queue m p from) j ≡ (if p == j then 0 else places m j)
  unfolding remove_from
  remove_from-places m p j running inside once = elim (Bool-cases (p == j)) [
    | inl same ↦
        let at : p ≡ j = ground arith in
        let here : is_in m j running ≡ true = ap (λ i. is_in m i running) (sym at) ∙ inside in
        let one : places m j ≡ 1 = ap (places m) (sym at) ∙ once in
        ground (arith, contains-remove m.running_queue p j)
    | inr other ↦ ground (arith, contains-remove m.running_queue p j)
  ]
  remove_from-places m p j sleep inside once = elim (Bool-cases (p == j)) [
    | inl same ↦
        let at : p ≡ j = ground arith in
        let here : is_in m j sleep ≡ true = ap (λ i. is_in m i sleep) (sym at) ∙ inside in
        let one : places m j ≡ 1 = ap (places m) (sym at) ∙ once in
        ground (arith, contains-remove m.sleep_queue p j)
    | inr other ↦ ground (arith, contains-remove m.sleep_queue p j)
  ]
  remove_from-places m p j trap_wait inside once = elim (Bool-cases (p == j)) [
    | inl same ↦
        let at : p ≡ j = ground arith in
        let here : is_in m j trap_wait ≡ true = ap (λ i. is_in m i trap_wait) (sym at) ∙ inside in
        let one : places m j ≡ 1 = ap (places m) (sym at) ∙ once in
        ground (arith, contains-remove m.trap_wait_queue p j)
    | inr other ↦ ground (arith, contains-remove m.trap_wait_queue p j)
  ]

  -- A process in one queue is moved to another.
  pub move_process-places :
      (m : QueueManager client queue) (p w j : ℕ) (from to : QueueType client queue)
      → is_in m p from ≡ true
      → places m p ≡ 1
      → places (move_process client queue m p from to w) j ≡ places m j
  unfolding move_process
  move_process-places m p w j from to inside once =
      let cleared = remove_from-places m p p from inside once in
      let out : places (remove_from client queue m p from) p ≡ 0 = cleared ∙ ground arith in
      push_to-places (remove_from client queue m p from) p w j to out
      ∙ (elim (Bool-cases (p == j)) [
        | inl same ↦ let at : p ≡ j = ground arith in rw same (sym (ap (places m) (sym at) ∙ once))
        | inr other ↦ rw other (remove_from-places m p j from inside once ∙ rw other refl)
      ])
