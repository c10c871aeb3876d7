-- ===== src/KeyedLock.antt =====
-- A lock for each key: `KeyedAsyncLock` and `KeyedLockGuard` of crates/utils/src/keyed_lock.rs.
-- A mutex is a number; the map holds weak references, and the strong references are those of the
-- tasks that wait for a lock, hold it, or drop their guard.
use vgpu_rs.Base.{
  ℕ, zero, suc, ◌+◌, ◌≡◌, refl, Bool, true, false, List, [], ◌∷◌, ◌++◌, Option, none, some,
  get_elem?, set, ltb, ◌==◌, if◌then◌else◌,
}
use vgpu_rs.Dict.{Dict, Eq, fetch, assign, erase}
pub mod Sums
pub mod Creation
pub mod Exclusion
pub mod Calls
pub mod Drops
pub mod Runs
mod Examples

-- Where a task is: before and after it has the mutex, and in the steps of the guard's `drop`.
pub data Phase : Type 0 where
  waiting holding released removing dropping finished : Phase

-- The strong references of a task: the `Arc` of the guard and the one that is kept beside it, then
-- the latter alone.
abbrev pub refs : Phase → ℕ
refs waiting = 2
refs holding = 2
refs released = 1
refs removing = 1
refs dropping = 1
refs finished = 0

abbrev pub is_holding : Phase → ℕ
is_holding waiting = 0
is_holding holding = 1
is_holding released = 0
is_holding removing = 0
is_holding dropping = 0
is_holding finished = 0

pub record Task (K : Type 0) : Type 0 where
  pub key : K
  pub mutex : ℕ
  pub phase : Phase

pub record KeyedAsyncLock (K : Type 0) : Type 0 where
  pub locks : Dict K ℕ
  pub tasks : List (Task K)
  pub next : ℕ

module _ {K : Type 0} where
  abbrev pub total : (Task K → ℕ) → List (Task K) → ℕ
  total f [] = 0
  total f (t ∷ ts) = f t + total f ts

  abbrev pub refs_to : ℕ → Task K → ℕ
  refs_to m t = if t.mutex == m then refs t.phase else 0

  abbrev pub holds_mutex : ℕ → Task K → ℕ
  holds_mutex m t = if t.mutex == m then is_holding t.phase else 0

  -- `Arc::strong_count`.
  unfoldable pub strong_count : ℕ → List (Task K) → ℕ
  strong_count m ts = total (refs_to m) ts

  -- The mutex is locked.
  unfoldable pub is_locked : ℕ → List (Task K) → Bool
  is_locked m ts = ltb 0 (total (holds_mutex m) ts)

  unfoldable pub new : KeyedAsyncLock K
  new = record { locks = []; tasks = []; next = 0 }

  -- A step of the task at a place, if there is one.
  abbrev pub with_task : ℕ → KeyedAsyncLock K → (Task K → KeyedAsyncLock K) → KeyedAsyncLock K
  with_task i s f = elim (get_elem? s.tasks i) [ none ↦ s | some t ↦ f t ]

  abbrev pub put_phase : ℕ → Task K → Phase → KeyedAsyncLock K → KeyedAsyncLock K
  put_phase i t p s = record s { tasks = set s.tasks i (record t { phase = p }) }

  -- `lock_owned().await` is over.
  abbrev pub acquire_from : ℕ → Task K → KeyedAsyncLock K → Phase → KeyedAsyncLock K
  acquire_from i t s waiting = if is_locked t.mutex s.tasks then s else put_phase i t holding s
  acquire_from i t s _ = s

  unfoldable pub acquire : ℕ → KeyedAsyncLock K → KeyedAsyncLock K
  unfolding is_locked
  acquire i s = with_task i s (λ t. acquire_from i t s t.phase)

  -- The future of `lock` is dropped before it has the mutex.
  abbrev pub cancel_from : ℕ → Task K → KeyedAsyncLock K → Phase → KeyedAsyncLock K
  cancel_from i t s waiting = put_phase i t finished s
  cancel_from i t s _ = s

  unfoldable pub cancel : ℕ → KeyedAsyncLock K → KeyedAsyncLock K
  cancel i s = with_task i s (λ t. cancel_from i t s t.phase)

  -- The steps of `drop`: the mutex guard, the count, the removal, the last `Arc`.
  abbrev pub release_from : ℕ → Task K → KeyedAsyncLock K → Phase → KeyedAsyncLock K
  release_from i t s holding = put_phase i t released s
  release_from i t s _ = s

  unfoldable pub release : ℕ → KeyedAsyncLock K → KeyedAsyncLock K
  release i s = with_task i s (λ t. release_from i t s t.phase)

  abbrev pub check_from : ℕ → Task K → KeyedAsyncLock K → Phase → KeyedAsyncLock K
  check_from i t s released =
      if strong_count t.mutex s.tasks == 1
      then put_phase i t removing s
      else put_phase i t dropping s
  check_from i t s _ = s

  unfoldable pub check_count : ℕ → KeyedAsyncLock K → KeyedAsyncLock K
  unfolding strong_count
  check_count i s = with_task i s (λ t. check_from i t s t.phase)

  abbrev pub finish_from : ℕ → Task K → KeyedAsyncLock K → Phase → KeyedAsyncLock K
  finish_from i t s dropping = put_phase i t finished s
  finish_from i t s _ = s

  unfoldable pub finish : ℕ → KeyedAsyncLock K → KeyedAsyncLock K
  finish i s = with_task i s (λ t. finish_from i t s t.phase)

module _ {K : Type 0} ⦃e : Eq K⦄ where
  abbrev pub remove_from : ℕ → Task K → KeyedAsyncLock K → Phase → KeyedAsyncLock K
  remove_from i t s removing = put_phase i t dropping (record s { locks = erase t.key s.locks })
  remove_from i t s _ = s

  unfoldable pub remove_entry : ℕ → KeyedAsyncLock K → KeyedAsyncLock K
  unfolding erase
  remove_entry i s = with_task i s (λ t. remove_from i t s t.phase)

  -- The whole of `drop`, when no other task comes between its steps.
  unfoldable pub drop_guard : ℕ → KeyedAsyncLock K → KeyedAsyncLock K
  unfolding release check_count remove_entry finish
  drop_guard i s = finish i (remove_entry i (check_count i (release i s)))

  -- One round of `get_or_create_lock`: the state and the mutex, or none to go round again.
  unfoldable pub round : K → KeyedAsyncLock K → KeyedAsyncLock K × Option ℕ
  unfolding fetch assign erase strong_count
  round key s = elim (fetch key s.locks) [
    | none ↦ (record s { locks = assign key s.next s.locks; next = suc s.next }, some s.next)
    | some m ↦
        if ltb 0 (strong_count m s.tasks)
        then (s, some m)
        else (record s { locks = erase key s.locks }, none)
  ]

  unfoldable pub get_or_create_lock : ℕ → K → KeyedAsyncLock K → Option (KeyedAsyncLock K × ℕ)
  unfolding round
  get_or_create_lock zero key s = none
  get_or_create_lock (suc fuel) key s =
      let (s', found) = round key s in
      elim found [ none ↦ get_or_create_lock fuel key s' | some m ↦ some (s', m) ]

  -- A task calls `lock`, and waits for the mutex that it was given.
  unfoldable pub start_lock : K → KeyedAsyncLock K → KeyedAsyncLock K
  unfolding get_or_create_lock
  start_lock key s = elim (get_or_create_lock 2 key s) [
    | none ↦ s
    | some (s', m) ↦ record s' {
      tasks = s'.tasks ++ record { key = key; mutex = m; phase = waiting } ∷ [];
    }
  ]
