-- ===== src/KeyedLock/Examples.antt =====
-- Runs of a lock on numbers, and an interleaving of the steps of `drop` that lets two tasks hold the
-- lock of one key.
use vgpu_rs.Base.{ℕ, ◌≡◌, ◌≤◌, refl, none, some, arith, get_elem?, if◌then◌else◌, ◌==◌}
use vgpu_rs.Dict.{nat_eq, fetch}
use vgpu_rs.KeyedLock.{
  holding, Task, KeyedAsyncLock, total, strong_count, new, start_lock, acquire, release,
  check_count, remove_entry, drop_guard, get_or_create_lock,
}
use vgpu_rs.KeyedLock.Creation.{Gives, get_or_create_lock-Gives}
use vgpu_rs.KeyedLock.Exclusion.{holds_key}
use vgpu_rs.KeyedLock.Runs.{Run, here, next, starts, acquires, lock-exclusive, drop_guard-entries}

abbrev empty : KeyedAsyncLock ℕ
empty = new

-- Two tasks start to wait for the lock of key 7, and the first gets it.
abbrev contended : KeyedAsyncLock ℕ
contended = acquire 1 (acquire 0 (start_lock 7 (start_lock 7 empty)))

contended_run : Run empty contended
contended_run = next (next (next (next here (starts 7)) (starts 7)) (acquires 0)) (acquires 1)

lock-exclusive_example : total (holds_key 7) contended.tasks ≤ 1
lock-exclusive_example = lock-exclusive 7 contended_run

abbrev holder : Task ℕ
holder = record { key = 7; mutex = 0; phase = holding }

contended_holder : get_elem? contended.tasks 0 ≡ some holder
unfolding start_lock acquire new
contended_holder = refl

drop_guard-entries_example : fetch 7 (drop_guard 0 contended).locks ≡ (
    if 7 == 7
    then (if strong_count 0 contended.tasks == 2 then none else some 0)
    else fetch 7 contended.locks)
drop_guard-entries_example = drop_guard-entries 0 holder 7 contended_run contended_holder refl

get_or_create_lock-Gives_example :
    (s' : KeyedAsyncLock ℕ) × (m : ℕ) × (get_or_create_lock 2 7 empty ≡ some (s', m))
    × Gives 7 empty s' m
get_or_create_lock-Gives_example = get_or_create_lock-Gives 2 7 empty (omega arith)

-- The first task counts one reference; a second task takes the mutex of the entry before the first
-- removes it; a third task then makes a new mutex. The second and the third both hold the lock.
abbrev raced : KeyedAsyncLock ℕ
raced = acquire 2 (
    start_lock 7 (
      remove_entry 0
        (acquire 1 (start_lock 7 (check_count 0 (release 0 (acquire 0 (start_lock 7 empty))))))))

two_holders : total (holds_key 7) raced.tasks ≡ 2
unfolding start_lock acquire release check_count remove_entry new
two_holders = refl
