-- ===== src/Mutex/Examples.antt =====
-- Runs of the lock, at which the theorems apply: process 7 creates it, threads 0 and 1 use it.
use vgpu_rs.Base.{ℕ, ◌≡◌, ◌≢◌, refl, Bool, true, false, arith}
use vgpu_rs.Mutex.{
  trying, critical, dead, System, act, advance, move_to, try_lock, new, holds, is_process_alive,
  update, run, request, die, Reach, here, next, start,
}
use vgpu_rs.Mutex.Invariant.{creator_alive}
use vgpu_rs.Mutex.Safety.{mutual_exclusion}
use vgpu_rs.Mutex.Orphans.{orphaned_for_good, broken_by_cleanup}

abbrev all_alive : ℕ → Bool
all_alive _ = true

abbrev asked : System
asked = move_to (start 7 all_alive) 0 trying

-- Thread 0 has the guard, and then thread 1 tries.
abbrev taken_by_0 : System
taken_by_0 = act asked 0

abbrev contended : System
contended = move_to taken_by_0 1 trying

run_taken : Reach (start 7 all_alive) taken_by_0
run_taken = next (next here (request 0 refl)) (run 0)

run_contended : Reach (start 7 all_alive) contended
unfolding act advance try_lock new
run_contended = next run_taken (request 1 refl)

owner : contended.pc 0 ≡ critical
unfolding act advance try_lock new
owner = refl

waiter : contended.pc 1 ≡ trying
waiter = refl

alive : creator_alive contended ≡ true
unfolding act advance try_lock new is_process_alive
alive = refl

mutual_exclusion_example : ◌≡◌ {A = ℕ} 0 0
mutual_exclusion_example =
    mutual_exclusion {pid = 7} {kill = all_alive} (λ e. ground arith) run_contended alive 0 0 owner
      owner

-- Thread 0 is killed with the guard.
abbrev killed : System
killed = move_to contended 0 (dead (holds (contended.pc 0)))

run_killed : Reach (start 7 all_alive) killed
run_killed = next run_contended (die 0)

killed_owner : killed.pc 0 ≡ dead true
unfolding act advance try_lock new
killed_owner = refl

killed_alive : creator_alive killed ≡ true
unfolding act advance try_lock new is_process_alive
killed_alive = refl

orphaned_for_good_example :
    (killed.mutex.lock ≡ killed.mutex.pid) × ((j : ℕ) → killed.pc j ≢ critical)
orphaned_for_good_example =
    orphaned_for_good {pid = 7} {kill = all_alive} (λ e. ground arith) run_killed 0 killed_owner
      here killed_alive

-- The creator has exited while thread 0 has the guard.
abbrev expired : System
expired = record contended { kill = update contended.kill 7 false }

expired_word : expired.mutex.lock ≡ expired.mutex.pid
unfolding act advance try_lock new
expired_word = refl

expired_gone : creator_alive expired ≡ false
unfolding act advance try_lock new is_process_alive
expired_gone = refl

expired_creator : expired.mutex.pid ≡ 7
unfolding act advance try_lock new
expired_creator = refl

expired_nonzero : expired.mutex.pid ≢ 0
expired_nonzero e = ground (arith, expired_creator)

broken_by_cleanup_example :
    (t : System) × Reach expired t × (t.pc 0 ≡ critical) × (t.pc 1 ≡ critical)
broken_by_cleanup_example =
    broken_by_cleanup expired 0 1 (λ e. ground arith) expired_nonzero expired_word expired_gone
      owner waiter
