-- ===== src/KeyedLock/Calls.antt =====
-- Each call keeps the locks safe: waiting, cancelling, starting to wait.
use vgpu_rs.Base.{
  ℕ, ◌≡◌, ◌≤◌, ◌⊎◌, refl, sym, ap, ◌∙◌, subst, inl, inr, false, List, [], ◌∷◌, ◌++◌, Option, none,
  some, arith, ◌==◌, Bool-cases, get_elem?, All, All-set,
}
use vgpu_rs.Dict.{Dict, Eq, fetch, beq_refl}
use vgpu_rs.KeyedLock.{
  Phase, waiting, holding, finished, refs, is_holding, Task, KeyedAsyncLock, total, refs_to,
  holds_mutex, strong_count, is_locked, acquire, acquire_from, cancel, cancel_from, put_phase,
  get_or_create_lock, start_lock,
}
use vgpu_rs.KeyedLock.Sums.{
  with_task-keeps, total-append, total-set, All-append_one, All-map, All-both, All-at, total_zero,
}
use vgpu_rs.KeyedLock.Creation.{Gives, get_or_create_lock-Gives}
use vgpu_rs.KeyedLock.Exclusion.{Points, IsSafe}

module _ {K : Type 0} where
  pub count_zero :
      (m : ℕ) (ts : List (Task K)) → strong_count m ts ≡ 0 → All (λ t. refs_to m t ≡ 0) ts
  unfolding strong_count
  count_zero m ts h = total_zero (refs_to m) ts h

module _ {K : Type 0} ⦃e : Eq K⦄ where
  -- A task moves on without taking the mutex.
  pub put_phase-IsSafe :
      (i : ℕ) (t : Task K) (p : Phase) (s : KeyedAsyncLock K)
      → get_elem? s.tasks i ≡ some t
      → Points s.locks (record t { phase = p })
      → is_holding p ≤ is_holding t.phase
      → IsSafe s
      → IsSafe (put_phase i t p s)
  put_phase-IsSafe i t p s here point less safe = record {
    points = All-set (Points s.locks) s.tasks i (record t { phase = p }) safe.points point;
    single = λ m.
        ground
          (arith, safe.single m, total-set (holds_mutex m) s.tasks i (record t { phase = p }) here);
  }

  -- A task takes a mutex that nobody has.
  take-IsSafe :
      (i : ℕ) (t : Task K) (s : KeyedAsyncLock K)
      → get_elem? s.tasks i ≡ some t
      → t.phase ≡ waiting
      → is_locked t.mutex s.tasks ≡ false
      → IsSafe s
      → IsSafe (put_phase i t holding s)
  unfolding is_locked
  take-IsSafe i t s here waits free safe = record {
    points =
        All-set (Points s.locks) s.tasks i (record t { phase = holding }) safe.points
          (elim (All-at (Points s.locks) s.tasks i safe.points here) [
            | inl idle ↦ absurd (omega (arith, ap refs (sym waits) ∙ idle))
            | inr found ↦ inr found
          ]);
    single = λ m. elim (Bool-cases (t.mutex == m)) [
      | inl same ↦
          let at : t.mutex ≡ m = ground arith in
          let none_holds : total (holds_mutex m) s.tasks ≡ 0 =
            ap (λ n. total (holds_mutex n) s.tasks) (sym at) ∙ ground arith in
          ground (arith, total-set (holds_mutex m) s.tasks i (record t { phase = holding }) here)
      | inr other ↦ ground (
        arith,
        safe.single m,
        total-set (holds_mutex m) s.tasks i (record t { phase = holding }) here,
      )
    ];
  }

  acquire_from-IsSafe :
      (i : ℕ) (t : Task K) (s : KeyedAsyncLock K) (p : Phase)
      → get_elem? s.tasks i ≡ some t
      → t.phase ≡ p
      → IsSafe s
      → IsSafe (acquire_from i t s p)
  acquire_from-IsSafe i t s waiting here at safe = elim (Bool-cases (is_locked t.mutex s.tasks)) [
    | inl locked ↦ rw locked safe
    | inr free ↦ rw free (take-IsSafe i t s here at free safe)
  ]
  acquire_from-IsSafe i t s _ here at safe = safe

  pub acquire-IsSafe : (i : ℕ) (s : KeyedAsyncLock K) → IsSafe s → IsSafe (acquire i s)
  unfolding acquire
  acquire-IsSafe i s safe =
      with_task-keeps IsSafe i s (λ t. acquire_from i t s t.phase) safe
        (λ t here. acquire_from-IsSafe i t s t.phase here refl safe)

  cancel_from-IsSafe :
      (i : ℕ) (t : Task K) (s : KeyedAsyncLock K) (p : Phase)
      → get_elem? s.tasks i ≡ some t
      → IsSafe s
      → IsSafe (cancel_from i t s p)
  cancel_from-IsSafe i t s waiting here safe =
      put_phase-IsSafe i t finished s here (inl refl) (omega arith) safe
  cancel_from-IsSafe i t s _ here safe = safe

  pub cancel-IsSafe : (i : ℕ) (s : KeyedAsyncLock K) → IsSafe s → IsSafe (cancel i s)
  unfolding cancel
  cancel-IsSafe i s safe =
      with_task-keeps IsSafe i s (λ t. cancel_from i t s t.phase) safe
        (λ t here. cancel_from-IsSafe i t s t.phase here safe)

  -- A task of another key keeps its entry; one of this key is over, or has the mutex that is given.
  moved_point :
      (key : K) (s s' : KeyedAsyncLock K) (m : ℕ) (t : Task K)
      → Gives key s s' m
      → Points s.locks t
      → (fetch key s.locks ≡ some t.mutex → (refs t.phase ≡ 0) ⊎ (t.mutex ≡ m))
      → Points s'.locks t
  moved_point key s s' m t gives (inl idle) agrees = inl idle
  moved_point key s s' m t gives (inr points) agrees = elim (Bool-cases (e.beq key t.key)) [
    | inr other ↦ inr (gives.entries t.key ∙ rw other points)
    | inl same ↦
        let at = (e.beq_iff key t.key).0 same in
        elim (agrees (ap (λ i. fetch i s.locks) at ∙ points)) [
          | inl idle ↦ inl idle
          | inr equal ↦ inr (gives.entries t.key ∙ rw same (ap some (sym equal)))
        ]
  ]

  some_equal :
      (key : K) (locks : Dict K ℕ) {m n : ℕ}
      → fetch key locks ≡ some m
      → fetch key locks ≡ some n
      → n ≡ m
  some_equal key locks f g = cc (sym f ∙ g)

  still-Points :
      (key : K) (s s' : KeyedAsyncLock K) (m : ℕ)
      → Gives key s s' m
      → All (Points s.locks) s.tasks
      → All (Points s'.locks) s.tasks
  still-Points key s s' m gives a = elim gives.origin [
    | inl found ↦
        All-map (Points s.locks) (Points s'.locks) s.tasks
          (λ t p. moved_point key s s' m t gives p (λ h. inr (some_equal key s.locks found h))) a
    | inr (new, inl absent) ↦
        All-map (Points s.locks) (Points s'.locks) s.tasks
          (λ t p. moved_point key s s' m t gives p (λ h. absurd (cc (sym absent ∙ h)))) a
    | inr (new, inr (old, found, dead)) ↦
        All-map (λ t. Points s.locks t × (refs_to old t ≡ 0)) (Points s'.locks) s.tasks
          (λ t p. moved_point key s s' m t gives p.0 (λ h.
            inl (let at : t.mutex ≡ old = some_equal key s.locks found h in unused old t at p.1)))
          (All-both (Points s.locks) (λ t. refs_to old t ≡ 0) s.tasks a
            (count_zero old s.tasks dead))
  ]
    where
      unused : (n : ℕ) (t : Task K) → t.mutex ≡ n → refs_to n t ≡ 0 → refs t.phase ≡ 0
      unused n t at h = ground arith

  started :
      (key : K) (s : KeyedAsyncLock K) {s' : KeyedAsyncLock K} {m : ℕ}
      → get_or_create_lock 2 key s ≡ some (s', m)
      → start_lock key s
        ≡ record s' { tasks = s'.tasks ++ record { key = key; mutex = m; phase = waiting } ∷ [] }
  unfolding start_lock
  started key s given =
      ap
        (λ (o : Option (KeyedAsyncLock K × ℕ)). elim o [
          | none ↦ s
          | some r ↦ record (r.0) {
            tasks = r.0.tasks ++ record { key = key; mutex = r.1; phase = waiting } ∷ [];
          }
        ])
        given

  pub start_lock-IsSafe : (key : K) (s : KeyedAsyncLock K) → IsSafe s → IsSafe (start_lock key s)
  unfolding start_lock
  start_lock-IsSafe key s safe =
      let (s', m, given, gives) = get_or_create_lock-Gives 2 key s (omega arith) in
      let waiter : Task K = record { key = key; mutex = m; phase = waiting } in
      let tasks_eq = ap (λ ts. ts ++ waiter ∷ []) gives.same_tasks in
      subst IsSafe (sym (started key s given)) (record {
        points = subst (All (Points s'.locks)) (sym tasks_eq) (
            All-append_one (Points s'.locks) s.tasks waiter
              (still-Points key s s' m gives safe.points)
              (inr (gives.entries key ∙ rw (beq_refl key) refl)));
        single = λ n. ground (
          arith,
          ap (total (holds_mutex n)) tasks_eq,
          total-append (holds_mutex n) s.tasks (waiter ∷ []),
          safe.single n,
        );
      })
