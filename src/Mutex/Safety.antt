-- ===== src/Mutex/Safety.antt =====
-- Mutual exclusion, and when the lock is taken and given back.
use vgpu_rs.Base.{ℕ, ◌≡◌, ◌≢◌, Bool, true, arith}
use vgpu_rs.Mutex.{idle, trying, critical, System, act, advance, Reach, start}
use vgpu_rs.Mutex.Invariant.{start-Inv, Reach-Inv, creator_alive}

-- From a new lock, by any interleaving of any number of threads, in which threads may be killed at
-- any point: while the process that created the lock is alive, two threads that have a guard are one.
pub mutual_exclusion :
    {pid : ℕ} {kill : ℕ → Bool} {s : System}
    → pid ≢ 0
    → Reach (start pid kill) s
    → creator_alive s ≡ true
    → (i j : ℕ) → s.pc i ≡ critical
    → s.pc j ≡ critical
    → i ≡ j
mutual_exclusion {pid} {kill} {s} nz r alive i j p q =
    (Reach-Inv r alive (start-Inv pid kill nz)).unique i j (ground arith) (ground arith)

-- From a new lock, by any interleaving, in a state in which the creator is alive, one thread has
-- the guard, and another is at its attempt: the owner's drop frees the lock, the other's attempt
-- then gets the guard, and the first has it no longer.
pub hand_over :
    {pid : ℕ} {kill : ℕ → Bool} {s : System}
    → pid ≢ 0
    → Reach (start pid kill) s
    → creator_alive s ≡ true
    → (i j : ℕ) → i ≢ j
    → s.pc i ≡ critical
    → s.pc j ≡ trying
    → ((act s i).mutex.lock ≡ 0)
      × ((act (act s i) j).pc j ≡ critical)
      × ((act (act s i) j).pc i ≡ idle)
unfolding act advance
hand_over {pid} {kill} {s} nz r alive i j ne p q =
    let inv = Reach-Inv r alive (start-Inv pid kill nz) in ground (arith, inv.word, inv.free)
