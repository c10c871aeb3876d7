-- ===== src/KeyedLock/Drops.antt =====
-- What a whole call of `drop` does: the mutex is free, and the entry of the key goes if no other task
-- has a reference to the mutex.
use vgpu_rs.Base.{
  ℕ, ◌+◌, ◌≡◌, ap, ◌∙◌, inl, inr, true, false, some, arith, ◌==◌, if◌then◌else◌, Bool-cases,
  get_elem?,
}
use vgpu_rs.Dict.{Eq, erase}
use vgpu_rs.KeyedLock.{
  Phase, holding, released, removing, dropping, finished, Task, KeyedAsyncLock, refs_to,
  strong_count, put_phase, release, release_from, check_count, check_from, remove_entry,
  remove_from, finish, finish_from, drop_guard,
}
use vgpu_rs.KeyedLock.Sums.{with_task-some, set_twice, get_elem?-set_self, total-set}

module _ {K : Type 0} ⦃e : Eq K⦄ (i : ℕ) (t : Task K) where
  put_again :
      (p q : Phase) (s : KeyedAsyncLock K)
      → put_phase i (record t { phase = p }) q (put_phase i t p s) ≡ put_phase i t q s
  put_again p q s =
      ap (λ ts. record s { tasks = ts })
        (set_twice s.tasks i (record t { phase = p }) (record t { phase = q }))

  module _ (s : KeyedAsyncLock K) (here : get_elem? s.tasks i ≡ some t) where
    there : (p : Phase) → get_elem? (put_phase i t p s).tasks i ≡ some (record t { phase = p })
    there p = get_elem?-set_self s.tasks i (record t { phase = p }) here

    released_at : t.phase ≡ holding → release i s ≡ put_phase i t released s
    unfolding release
    released_at holds =
        with_task-some i s (λ u. release_from i u s u.phase) here ∙ ap (release_from i t s) holds

    checked_at : check_count i (put_phase i t released s) ≡ (
        if strong_count t.mutex (put_phase i t released s).tasks == 1
        then put_phase i t removing s
        else put_phase i t dropping s)
    unfolding check_count
    checked_at =
        let now = put_phase i t released s in
        with_task-some i now (λ u. check_from i u now u.phase) (there released)
        ∙ (elim (Bool-cases (strong_count t.mutex now.tasks == 1)) [
          | inl last ↦ rw last (put_again released removing s)
          | inr more ↦ rw more (put_again released dropping s)
        ])

    removed_at :
        remove_entry i (put_phase i t removing s)
        ≡ put_phase i t dropping (record s { locks = erase t.key s.locks })
    unfolding remove_entry
    removed_at =
        let now = put_phase i t removing s in
        with_task-some i now (λ u. remove_from i u now u.phase) (there removing)
        ∙ put_again removing dropping (record s { locks = erase t.key s.locks })

    kept_at : remove_entry i (put_phase i t dropping s) ≡ put_phase i t dropping s
    unfolding remove_entry
    kept_at =
        let now = put_phase i t dropping s in
        with_task-some i now (λ u. remove_from i u now u.phase) (there dropping)

    finished_at : finish i (put_phase i t dropping s) ≡ put_phase i t finished s
    unfolding finish
    finished_at =
        let now = put_phase i t dropping s in
        with_task-some i now (λ u. finish_from i u now u.phase) (there dropping)
        ∙ put_again dropping finished s

    -- The references of the others.
    others :
        t.phase ≡ holding
        → strong_count t.mutex (put_phase i t released s).tasks
          ≡ strong_count t.mutex (put_phase i t finished s).tasks + 1
    unfolding strong_count
    others holds = ground (
      arith,
      total-set (refs_to t.mutex) s.tasks i (record t { phase = released }) here,
      total-set (refs_to t.mutex) s.tasks i (record t { phase = finished }) here,
    )

  -- A task that holds a mutex drops its guard, with no other task between the steps: the task is over,
  -- and the entry of its key is removed exactly if no other task has a reference to the mutex.
  pub drop_guard_lem :
      (s : KeyedAsyncLock K)
      → get_elem? s.tasks i ≡ some t
      → t.phase ≡ holding
      → drop_guard i s
        ≡ put_phase i t finished (record s {
          locks =
              if strong_count t.mutex (put_phase i t finished s).tasks == 0
              then erase t.key s.locks
              else s.locks;
        })
  unfolding drop_guard
  drop_guard_lem s here holds =
      ap (λ x. finish i (remove_entry i (check_count i x))) (released_at s here holds)
      ∙ ap (λ x. finish i (remove_entry i x)) (checked_at s here)
      ∙ (elim (Bool-cases (strong_count t.mutex (put_phase i t finished s).tasks == 0)) [
        | inl alone ↦
            let last : (strong_count t.mutex (put_phase i t released s).tasks == 1) ≡ true =
              ground (arith, others s here holds) in
            rw (last, alone)
              (ap (finish i) (removed_at s here)
                ∙ finished_at (record s { locks = erase t.key s.locks }) here)
        | inr more ↦
            let kept : (strong_count t.mutex (put_phase i t released s).tasks == 1) ≡ false =
              ground (arith, others s here holds) in
            rw (kept, more) (ap (finish i) (kept_at s here) ∙ finished_at s here)
      ])
