-- ===== src/KeyedLock/Runs.antt =====
-- Runs of tasks that lock, wait, give up and drop their guards, each `drop` in one step.
use vgpu_rs.Base.{
  ℕ, ◌+◌, ◌≡◌, ◌≤◌, refl, sym, ap, ◌∙◌, subst, inl, inr, true, false, none, some, arith, ◌==◌,
  if◌then◌else◌, Bool-cases, get_elem?,
}
use vgpu_rs.Dict.{Dict, Eq, fetch, erase, fetch-erase}
use vgpu_rs.KeyedLock.{
  holding, finished, refs, Task, KeyedAsyncLock, total, refs_to, strong_count, put_phase, new,
  start_lock, acquire, cancel, drop_guard,
}
use vgpu_rs.KeyedLock.Sums.{total-set, All-map, All-both, All-at}
use vgpu_rs.KeyedLock.Exclusion.{Points, IsSafe, holds_key, new-IsSafe, exclusive}
use vgpu_rs.KeyedLock.Calls.{
  count_zero, put_phase-IsSafe, acquire-IsSafe, cancel-IsSafe, start_lock-IsSafe,
}
use vgpu_rs.KeyedLock.Drops.{drop_guard_lem}

module _ {K : Type 0} ⦃e : Eq K⦄ where
  unlisted_point :
      (locks : Dict K ℕ) (t u : Task K)
      → fetch t.key locks ≡ some t.mutex
      → Points locks u
      → refs_to t.mutex u ≡ 0
      → Points (erase t.key locks) u
  unlisted_point locks t u owned (inl idle) unused = inl idle
  unlisted_point locks t u owned (inr points) unused = elim (Bool-cases (e.beq t.key u.key)) [
    | inr other ↦ inr (fetch-erase t.key u.key locks ∙ rw other points)
    | inl same ↦
        let at = (e.beq_iff t.key u.key).0 same in
        let equal : u.mutex ≡ t.mutex =
          some_inj (sym points ∙ ap (λ k. fetch k locks) (sym at) ∙ owned) in
        inl (idle equal unused)
  ]
    where
      some_inj : {m n : ℕ} → some m ≡ some n → m ≡ n
      some_inj h = cc

      idle : u.mutex ≡ t.mutex → refs_to t.mutex u ≡ 0 → refs u.phase ≡ 0
      idle equal h = ground arith

  -- A task that holds a mutex has the entry of its key.
  owned_entry :
      (locks : Dict K ℕ) (t : Task K)
      → t.phase ≡ holding
      → Points locks t
      → fetch t.key locks ≡ some t.mutex
  owned_entry locks t holds (inl idle) = absurd (omega (arith, ap refs (sym holds) ∙ idle))
  owned_entry locks t holds (inr points) = points

  drop_guard-IsSafe :
      (i : ℕ) (t : Task K) (s : KeyedAsyncLock K)
      → get_elem? s.tasks i ≡ some t
      → t.phase ≡ holding
      → IsSafe s
      → IsSafe (drop_guard i s)
  drop_guard-IsSafe i t s here holds safe =
      let after = put_phase i t finished s in
      let safe' = put_phase-IsSafe i t finished s here (inl refl) (omega arith) safe in
      let owned =
        owned_entry s.locks t holds (All-at (Points s.locks) s.tasks i safe.points here) in
      subst IsSafe (sym (drop_guard_lem i t s here holds)) (record {
        points = elim (Bool-cases (strong_count t.mutex after.tasks == 0)) [
          | inr more ↦ rw more (safe'.points)
          | inl alone ↦ rw alone (
              All-map (λ u. Points s.locks u × (refs_to t.mutex u ≡ 0))
                (Points (erase t.key s.locks)) after.tasks
                (λ u p. unlisted_point s.locks t u owned p.0 p.1)
                (All-both (Points s.locks) (λ u. refs_to t.mutex u ≡ 0) after.tasks (safe'.points)
                  (count_zero t.mutex after.tasks (ground arith))))
        ];
        single = safe'.single;
      })

  count_others :
      (i : ℕ) (t : Task K) (s : KeyedAsyncLock K)
      → get_elem? s.tasks i ≡ some t
      → t.phase ≡ holding
      → strong_count t.mutex (put_phase i t finished s).tasks + 2 ≡ strong_count t.mutex s.tasks
  unfolding strong_count
  count_others i t s at holds =
      ground (arith, total-set (refs_to t.mutex) s.tasks i (record t { phase = finished }) at)

  pub data Step (s : KeyedAsyncLock K) : KeyedAsyncLock K → Type 0 where
    starts : (key : K) → Step s (start_lock key s)
    acquires : (i : ℕ) → Step s (acquire i s)
    cancels : (i : ℕ) → Step s (cancel i s)
    drops :
        (i : ℕ) (t : Task K)
        → get_elem? s.tasks i ≡ some t
        → t.phase ≡ holding
        → Step s (drop_guard i s)

  pub data Run (s : KeyedAsyncLock K) : KeyedAsyncLock K → Type 0 where
    here : Run s s
    next : {t u : KeyedAsyncLock K} → Run s t → Step t u → Run s u

  Step-IsSafe : {s t : KeyedAsyncLock K} → Step s t → IsSafe s → IsSafe t
  Step-IsSafe {s} (starts key) safe = start_lock-IsSafe key s safe
  Step-IsSafe {s} (acquires i) safe = acquire-IsSafe i s safe
  Step-IsSafe {s} (cancels i) safe = cancel-IsSafe i s safe
  Step-IsSafe {s} (drops i t at holds) safe = drop_guard-IsSafe i t s at holds safe

  pub Run-IsSafe : {s t : KeyedAsyncLock K} → IsSafe s → Run s t → IsSafe t
  Run-IsSafe safe here = safe
  Run-IsSafe safe (next run step) = Step-IsSafe step (Run-IsSafe safe run)

  -- In every run from a new lock, of any number of tasks that start to wait, get their mutex, give up
  -- or drop their guard in one step, at most one task at a time holds the lock of a key.
  pub lock-exclusive :
      (key : K) {s : KeyedAsyncLock K} → Run new s → total (holds_key key) s.tasks ≤ 1
  lock-exclusive key {s} run = exclusive key s (Run-IsSafe new-IsSafe run)

  -- When a task drops its guard in one step, the key's entry in the map is gone exactly if no other task
  -- has a reference to the mutex, and every other key's entry is as before.
  pub drop_guard-entries :
      (i : ℕ) (t : Task K) (j : K) {s : KeyedAsyncLock K}
      → Run new s
      → get_elem? s.tasks i ≡ some t
      → t.phase ≡ holding
      → fetch j (drop_guard i s).locks ≡ (
          if e.beq t.key j
          then (if strong_count t.mutex s.tasks == 2 then none else some t.mutex)
          else fetch j s.locks)
  drop_guard-entries i t j {s} run at holds =
      let safe = Run-IsSafe new-IsSafe run in
      let owned = owned_entry s.locks t holds (All-at (Points s.locks) s.tasks i safe.points at) in
      let both = count_others i t s at holds in
      ap (λ (x : KeyedAsyncLock K). fetch j x.locks) (drop_guard_lem i t s at holds)
      ∙ (elim (Bool-cases (strong_count t.mutex (put_phase i t finished s).tasks == 0)) [
        | inl alone ↦
            let two : (strong_count t.mutex s.tasks == 2) ≡ true = ground arith in
            rw (alone, two) (fetch-erase t.key j s.locks)
        | inr more ↦
            let not_two : (strong_count t.mutex s.tasks == 2) ≡ false = ground arith in
            rw (more, not_two)
              (elim (Bool-cases (e.beq t.key j)) [
                | inr other ↦ rw other refl
                | inl same ↦
                    rw same (ap (λ k. fetch k s.locks) (sym ((e.beq_iff t.key j).0 same)) ∙ owned)
              ])
      ])
