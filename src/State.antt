-- ===== src/State.antt =====
-- crates/utils/src/shared_memory/mod.rs: the device state that the hypervisor and the limiters share.
--
-- `DeviceState` is `SharedDeviceStateV1` and `SharedDeviceStateV2`, which differ in their entries
-- only: `EntryOps` says what the state needs of an entry, and `Versions` has the two instances and the
-- enum over them. `now` is what `current_unix_timestamp` returns. The lock around `pids` is the
-- subject of `Mutex`; here a call has it from its first access to its last.
pub mod Configure
pub mod Health
pub mod Pids
pub mod Versions
mod Examples
use vgpu_rs.Base.{
  ℕ, ◌+◌, ◌-◌, ◌^◌, ◌≤◌, ◌<◌, min, ◌≡◌, Bool, true, false, not, ◌&&◌, ◌||◌, List, [], ◌∷◌, Option,
  none, some, map, get_or, get_elem?, set, replicate, ltb, leb, ◌==◌, if◌then◌else◌, u32, Outcome,
  ok, ◌>>=◌,
}
use vgpu_rs.Device.{DeviceConfig}
use vgpu_rs.Set.{Set, insert_if_absent, remove_value, iter}
use vgpu_rs.Set
use vgpu_rs.Mutex.{ShmMutex, is_orphaned}
use vgpu_rs.Mutex

-- `MAX_PROCESSES` and `MAX_DEVICES`
abbrev pub max_processes : ℕ
max_processes = 2048

abbrev pub max_devices : ℕ
max_devices = 16

-- A device entry as the state uses it: `configure` is what the loop of `new` does to an entry.
pub record EntryOps (E : Type 0) : Type 0 where
  pub blank : E
  pub is_active : E → Bool
  pub configure : DeviceConfig → ℕ → E → E
  pub blank_inactive : is_active blank ≡ false
  pub configure_active : (c : DeviceConfig) (now : ℕ) (e : E) → is_active (configure c now e) ≡ true

pub record DeviceState (E : Type 0) : Type 0 where
  pub devices : List E
  pub device_count : ℕ
  pub last_heartbeat : ℕ
  pub pids : Set ℕ
  pub pids_lock : ShmMutex

-- `u32::saturating_add(1)`
abbrev pub saturating_succ : ℕ → ℕ
saturating_succ n = min (n + 1) (2 ^ 32 - 1)

-- `iter().enumerate()` from an index on
pub enumerate_from {ℓ} : {A : Type ℓ} → ℕ → List A → List (ℕ × A)
enumerate_from i [] = []
enumerate_from i (x ∷ xs) = (i, x) ∷ enumerate_from (i + 1) xs

pub keep {ℓ} : {A : Type ℓ} → (A → Bool) → List A → List A
keep p [] = []
keep p (x ∷ xs) = let rest = keep p xs in if p x then x ∷ rest else rest

module _ {E : Type 0} (ops : EntryOps E) where
  open ops use {blank, is_active, configure}

  -- One round of the loop of `new`: an index that is too large is skipped.
  pub configure_device : ℕ → List E × ℕ → DeviceConfig → List E × ℕ
  configure_device now (devices, active_devices) config =
      if leb max_devices config.device_idx
      then (devices, active_devices)
      else (let entry = get_or devices config.device_idx blank in
          (
            set devices config.device_idx (configure config now entry),
            if not (is_active entry) then saturating_succ active_devices else active_devices,
          ))

  pub configure_devices : ℕ → List E × ℕ → List DeviceConfig → List E × ℕ
  configure_devices now acc [] = acc
  configure_devices now acc (config ∷ configs) =
      configure_devices now (configure_device now acc config) configs

  -- `new`, by the process `pid` at the time `now`.
  pub new : ℕ → ℕ → List DeviceConfig → DeviceState E
  unfolding configure_device configure_devices
  new pid now configs =
      let (devices, active_devices) =
        configure_devices now (replicate max_devices blank, 0) configs in
      record {
        devices = devices;
        device_count = active_devices;
        last_heartbeat = now;
        pids = Set.new max_processes;
        pids_lock = Mutex.new pid;
      }

  unfoldable pub has_device : DeviceState E → ℕ → Bool
  has_device s index = ltb index max_devices && is_active (get_or s.devices index blank)

  unfoldable pub iter_all_devices : DeviceState E → List (ℕ × E)
  unfolding enumerate_from
  iter_all_devices s = enumerate_from 0 s.devices

  unfoldable pub iter_active_devices : DeviceState E → List (ℕ × E)
  unfolding enumerate_from keep
  iter_active_devices s = keep (λ t. is_active t.1) (enumerate_from 0 s.devices)

module _ {E : Type 0} where
  unfoldable pub update_heartbeat : DeviceState E → ℕ → DeviceState E
  update_heartbeat s timestamp = record s { last_heartbeat = timestamp }

  -- `timeout` in seconds.
  unfoldable pub is_healthy : DeviceState E → ℕ → ℕ → Bool
  is_healthy s now timeout =
      if now == 0
      then false
      else (if s.last_heartbeat == 0 || ltb now s.last_heartbeat
          then false
          else leb (now - s.last_heartbeat) timeout)

  pub add_pid : DeviceState E → ℕ → Outcome (DeviceState E)
  add_pid s pid = do
    (pids, _) ← insert_if_absent max_processes ◌==◌ s.pids pid
    ok (record s { pids = pids })

  pub remove_pid : DeviceState E → ℕ → Outcome (DeviceState E)
  remove_pid s pid = do
    (pids, _) ← remove_value max_processes ◌==◌ s.pids pid
    ok (record s { pids = pids })

  pub get_all_pids : DeviceState E → Outcome (List ℕ)
  get_all_pids s = do entries ← iter max_processes s.pids; ok (map (λ t. t.1) entries)

  -- `cleanup_orphaned_lock`, with nobody else at work.
  pub cleanup_orphaned_locks : (ℕ → Bool) → DeviceState E → DeviceState E
  cleanup_orphaned_locks kill s =
      if is_orphaned kill s.pids_lock.lock
      then record s { pids_lock = record (s.pids_lock) { lock = 0 } }
      else s
