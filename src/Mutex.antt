-- ===== src/Mutex.antt =====
-- crates/utils/src/shared_memory/mutex.rs: the spin lock that processes share.
--
-- A call of `lock`, `unlock` or `cleanup_orphaned_lock` is a run of atomic accesses of the lock word,
-- and other processes run between them. `Pc` says where a thread stands, `advance` makes its next
-- access, and `Step` is the interleaving. `kill` stands for `libc::kill(pid, 0) == 0`. Memory is
-- sequentially consistent. The spinning and yielding between two attempts has no effect here.
pub mod Invariant
pub mod Safety
pub mod Orphans
mod Examples
use vgpu_rs.Base.{ℕ, ◌≡◌, Bool, true, false, not, ◌&&◌, ◌==◌, if◌then◌else◌, u32}

-- `pid` is the process that called `new`: it lies in the shared memory, and every process that maps
-- the memory reads it.
pub record ShmMutex : Type 0 where
  pub lock : ℕ
  pub pid : ℕ

pub data Pc : Type 0 where
  -- not in a call
  idle : Pc
  -- in `lock`, before the compare-exchange that takes the lock
  trying : Pc
  -- in `try_cleanup_dead_lock`, before the load of the holder, and after it
  loading : Pc
  cleaning : ℕ → Pc
  -- with a guard
  critical : Pc
  -- in `cleanup_orphaned_lock`, before the load of the holder, and before the store
  sweep_loading : Pc
  sweep_storing : Pc
  -- killed, with or without a guard
  dead : Bool → Pc

-- `ShmMutex::new`, called by the process `pid`.
pub new : ℕ → ShmMutex
new pid = record { lock = 0; pid = pid }

-- `compare_exchange`: the new value of the word, and whether it was exchanged.
abbrev pub compare_exchange : ℕ → ℕ → ℕ → ℕ × Bool
compare_exchange word current new_word = if word == current then (new_word, true) else (word, false)

pub is_process_alive : (ℕ → Bool) → ℕ → Bool
is_process_alive kill pid = if pid == 0 then false else kill (u32 pid)

-- The test that `try_cleanup_dead_lock` and `cleanup_orphaned_lock` make of the holder.
pub is_orphaned : (ℕ → Bool) → ℕ → Bool
unfolding is_process_alive
is_orphaned kill holder = not (holder == 0) && not (is_process_alive kill holder)

-- One round of the loop of `lock`: take the lock if it is free.
pub try_lock : ShmMutex → ShmMutex × Pc
try_lock m =
    let (word, won) = compare_exchange m.lock 0 m.pid in
    (record m { lock = word }, if won then critical else loading)

-- The load of the holder in `try_cleanup_dead_lock`.
pub load_holder : (ℕ → Bool) → ShmMutex → Pc
unfolding is_orphaned
load_holder kill m = if is_orphaned kill m.lock then cleaning m.lock else trying

-- The compare-exchange of `try_cleanup_dead_lock`: whether it wins or not, `lock` tries again.
pub clean_holder : ShmMutex → ℕ → ShmMutex
clean_holder m holder = record m { lock = (compare_exchange m.lock holder 0).0 }

-- The drop of a guard.
pub unlock : ShmMutex → ShmMutex
unlock m = record m { lock = (compare_exchange m.lock m.pid 0).0 }

-- The load of `cleanup_orphaned_lock`.
pub sweep_load : (ℕ → Bool) → ShmMutex → Pc
unfolding is_orphaned
sweep_load kill m = if is_orphaned kill m.lock then sweep_storing else idle

-- The next access of a thread.
pub advance : (ℕ → Bool) → ShmMutex → Pc → ShmMutex × Pc
unfolding try_lock load_holder clean_holder unlock sweep_load
advance kill m idle = (m, idle)
advance kill m trying = try_lock m
advance kill m loading = (m, load_holder kill m)
advance kill m (cleaning holder) = (clean_holder m holder, trying)
advance kill m critical = (unlock m, idle)
advance kill m sweep_loading = (m, sweep_load kill m)
advance kill m sweep_storing = (record m { lock = 0 }, idle)
advance kill m (dead held) = (m, dead held)

pub record System : Type 0 where
  pub mutex : ShmMutex
  pub pc : ℕ → Pc
  pub kill : ℕ → Bool

abbrev pub update {ℓ} : {A : Type ℓ} → (ℕ → A) → ℕ → A → ℕ → A
update f i a j = if i == j then a else f j

-- Does the thread own the guard, or did it when it was killed?
abbrev pub holds : Pc → Bool
holds critical = true
holds (dead held) = held
holds _ = false

abbrev pub move_to : System → ℕ → Pc → System
move_to s i p = record s { pc = update s.pc i p }

-- Thread `i` makes its next access.
pub act : System → ℕ → System
act s i =
    let (m, p) = advance s.kill s.mutex (s.pc i) in record s { mutex = m; pc = update s.pc i p }

pub data Step : System → System → Type 0 where
  run : {s : System} (i : ℕ) → Step s (act s i)
  request : {s : System} (i : ℕ) → s.pc i ≡ idle → Step s (move_to s i trying)
  sweep : {s : System} (i : ℕ) → s.pc i ≡ idle → Step s (move_to s i sweep_loading)
  die : {s : System} (i : ℕ) → Step s (move_to s i (dead (holds (s.pc i))))
  -- From now on `kill(pid, 0)` fails for this process.
  expire : {s : System} (pid : ℕ) → Step s (record s { kill = update s.kill pid false })

pub data Reach (s : System) : System → Type 0 where
  here : Reach s s
  next : {t u : System} → Reach s t → Step t u → Reach s u

abbrev pub start : ℕ → (ℕ → Bool) → System
start pid kill = record { mutex = new pid; pc = λ _. idle; kill = kill }
