-- ===== src/Mutex/Orphans.antt =====
-- What the lock does about owners that are killed. The lock word holds the creator's process, not
-- the owner's, so the cleanup asks about the wrong process.
use vgpu_rs.Base.{ℕ, ◌≡◌, ◌≢◌, ◌∙◌, ◌⊎◌, inl, inr, Bool, true, false, arith}
use vgpu_rs.Mutex.{
  trying, critical, dead, cleaning, loading, System, holds, act, advance, Step, run, request, sweep,
  die, expire, Reach, here, next, start,
}
use vgpu_rs.Mutex.Invariant.{Inv, start-Inv, Reach-Inv, Step-alive, creator_alive}

abbrev pub Dead : System → ℕ → Type 0
Dead s i = s.pc i ≡ dead true

Step-Dead : {s t : System} (i : ℕ) → Step s t → Dead s i → Dead t i
unfolding act advance
Step-Dead {s} i (run j) d = ground arith
Step-Dead {s} i (request j e) d = ground arith
Step-Dead {s} i (sweep j e) d = ground arith
Step-Dead {s} i (die j) d = ground arith
Step-Dead {s} i (expire p) d = d

Reach-Dead : {s t : System} (i : ℕ) → Reach s t → Dead s i → Dead t i
Reach-Dead i here d = d
Reach-Dead i (next r st) d = Step-Dead i st (Reach-Dead i r d)

Reach-alive : {s t : System} → Reach s t → creator_alive t ≡ true → creator_alive s ≡ true
Reach-alive here h = h
Reach-alive (next r st) h = Reach-alive r (Step-alive st h)

-- From a new lock, by any interleaving: once a thread is killed with the guard, the lock stays taken
-- and no thread ever gets a guard again, as long as the creator of the lock is alive, whether the
-- killed thread's own process is alive or not.
pub orphaned_for_good :
    {pid : ℕ} {kill : ℕ → Bool} {s t : System}
    → pid ≢ 0
    → Reach (start pid kill) s
    → (i : ℕ) → s.pc i ≡ dead true
    → Reach s t
    → creator_alive t ≡ true
    → (t.mutex.lock ≡ t.mutex.pid) × ((j : ℕ) → t.pc j ≢ critical)
orphaned_for_good {pid} {kill} {s} {t} nz r i d later alive = (
  taken inv.word,
  λ j e.
      let at : i ≡ j = inv.unique i j held (ground arith) in
      let mine : t.pc j ≡ dead true = rw (← at) still in cc,
)
  where
    inv : Inv t
    inv = Reach-Inv later alive (Reach-Inv r (Reach-alive later alive) (start-Inv pid kill nz))

    still : t.pc i ≡ dead true
    still = Reach-Dead i later d

    held : holds (t.pc i) ≡ true
    held = rw still

    taken : (t.mutex.lock ≡ 0) ⊎ (t.mutex.lock ≡ t.mutex.pid) → t.mutex.lock ≡ t.mutex.pid
    taken (inl e) = ground (arith, inv.free e i, held)
    taken (inr e) = e

-- Four accesses of the waiting thread `j`: it fails, loads a holder that is dead, frees the lock and
-- takes it.
abbrev rounds : System → ℕ → System
rounds s j = act (act (act (act s j) j) j) j

rounds_win :
    (s : System) (j : ℕ)
    → s.mutex.pid ≢ 0
    → s.mutex.lock ≡ s.mutex.pid
    → creator_alive s ≡ false
    → s.pc j ≡ trying
    → (rounds s j).pc j ≡ critical
unfolding act advance
rounds_win s j nz taken gone q =
    let first : (act s j).pc j ≡ loading = ground arith in
    let word : (act s j).mutex.lock ≡ s.mutex.pid = ground arith in
    let second : (act (act s j) j).pc j ≡ cleaning s.mutex.pid = ground arith in ground arith

act_other : (s : System) (i j : ℕ) → i ≢ j → (act s j).pc i ≡ s.pc i
unfolding act
act_other s i j ne = ground arith

-- In any state in which one thread has the guard and another waits for it, the lock word names the
-- creator of the lock (as it does whenever the lock is taken), and the creator is dead: the state
-- can be reached in which the cleanup has freed the lock of the living owner and both threads have
-- a guard.
pub broken_by_cleanup :
    (s : System) (i j : ℕ)
    → i ≢ j
    → s.mutex.pid ≢ 0
    → s.mutex.lock ≡ s.mutex.pid
    → creator_alive s ≡ false
    → s.pc i ≡ critical
    → s.pc j ≡ trying
    → (t : System) × Reach s t × (t.pc i ≡ critical) × (t.pc j ≡ critical)
broken_by_cleanup s i j ne nz taken gone p q = (
  rounds s j,
  next (next (next (next here (run j)) (run j)) (run j)) (run j),
  act_other (act (act (act s j) j) j) i j ne
      ∙ act_other (act (act s j) j) i j ne
      ∙ act_other (act s j) i j ne
      ∙ act_other s i j ne
      ∙ p,
  rounds_win s j nz taken gone q,
)
