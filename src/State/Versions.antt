-- ===== src/State/Versions.antt =====
-- `SharedDeviceState`: the two layouts behind one interface.
pub mod Access
use vgpu_rs.Base.{
  ℕ, ◌≡◌, refl, Bool, true, false, List, [], Option, none, some, get_elem?, set, length, ◌==◌,
  if◌then◌else◌, Outcome, ok, ◌>>=◌,
}
use vgpu_rs.Float.{Float}
use vgpu_rs.Device.{DeviceConfig}
use vgpu_rs.Device.V1
use vgpu_rs.Device.V1.{DeviceEntryV1}
use vgpu_rs.Device.V2
use vgpu_rs.Device.V2.{DeviceEntryV2}
use vgpu_rs.State
use vgpu_rs.State.{DeviceState, EntryOps}

-- What the loop of `SharedDeviceStateV1::new` does to an entry.
unfoldable pub configure_v1 : DeviceConfig → ℕ → DeviceEntryV1 → DeviceEntryV1
unfolding V1.set_uuid V1.set_active V1.set_total_cores V1.set_available_cores V1.set_up_limit
    V1.set_mem_limit
configure_v1 config now entry =
    let named = V1.set_uuid entry config.device_uuid in
    let cores = V1.set_total_cores named.device_info config.total_cuda_cores in
    let available = V1.set_available_cores cores config.total_cuda_cores in
    let limited = V1.set_mem_limit (V1.set_up_limit available config.up_limit) config.mem_limit in
    V1.set_active (record named { device_info = limited }) true

unfoldable pub ops_v1 : EntryOps DeviceEntryV1
unfolding configure_v1 V1.new_entry V1.is_active
ops_v1 = record {
  blank = V1.new_entry;
  is_active = V1.is_active;
  configure = configure_v1;
  blank_inactive = refl;
  configure_active = λ c now e. refl;
}

-- What the loop of `SharedDeviceStateV2::new` does to an entry.
unfoldable pub configure_v2 : (f : Float) → DeviceConfig → ℕ → DeviceEntryV2 → DeviceEntryV2
unfolding V2.set_uuid V2.set_active V2.set_total_cores V2.set_up_limit V2.set_mem_limit
    V2.set_erl_token_capacity V2.set_erl_token_refill_rate V2.set_erl_current_tokens
    V2.set_erl_last_token_update
configure_v2 f config now entry =
    let named = V2.set_uuid entry config.device_uuid in
    let cores = V2.set_total_cores named.device_info config.total_cuda_cores in
    let limited = V2.set_mem_limit (V2.set_up_limit cores config.up_limit) config.mem_limit in
    let sized = V2.set_erl_token_capacity f limited (f.ratio 100 1) in
    let refilled = V2.set_erl_token_refill_rate f sized (f.ratio 10 1) in
    let filled = V2.set_erl_current_tokens f refilled (f.ratio 100 1) in
    let stamped = V2.set_erl_last_token_update f filled (f.of_nat now) in
    V2.set_active (record named { device_info = stamped }) true

unfoldable pub ops_v2 : Float → EntryOps DeviceEntryV2
unfolding configure_v2 V2.new_entry V2.is_active
ops_v2 f = record {
  blank = V2.new_entry f;
  is_active = V2.is_active;
  configure = configure_v2 f;
  blank_inactive = refl;
  configure_active = λ c now e. refl;
}

pub data SharedDeviceState : Type 0 where
  v1 : DeviceState DeviceEntryV1 → SharedDeviceState
  v2 : DeviceState DeviceEntryV2 → SharedDeviceState

-- `SharedDeviceState::new` makes the second layout.
unfoldable pub new : Float → ℕ → ℕ → List DeviceConfig → SharedDeviceState
unfolding ops_v2
new f pid now configs = v2 (State.new (ops_v2 f) pid now configs)

unfoldable pub version : SharedDeviceState → ℕ
version (v1 _) = 1
version (v2 _) = 2

unfoldable pub has_erl : SharedDeviceState → Bool
has_erl (v1 _) = false
has_erl (v2 _) = true

unfoldable pub has_device : Float → SharedDeviceState → ℕ → Bool
unfolding ops_v1 ops_v2
has_device f (v1 s) index = State.has_device ops_v1 s index
has_device f (v2 s) index = State.has_device (ops_v2 f) s index

unfoldable pub device_count : SharedDeviceState → ℕ
device_count (v1 s) = s.device_count
device_count (v2 s) = s.device_count

unfoldable pub update_heartbeat : SharedDeviceState → ℕ → SharedDeviceState
update_heartbeat (v1 s) timestamp = v1 (State.update_heartbeat s timestamp)
update_heartbeat (v2 s) timestamp = v2 (State.update_heartbeat s timestamp)

unfoldable pub get_last_heartbeat : SharedDeviceState → ℕ
get_last_heartbeat (v1 s) = s.last_heartbeat
get_last_heartbeat (v2 s) = s.last_heartbeat

unfoldable pub is_healthy : SharedDeviceState → ℕ → ℕ → Bool
is_healthy (v1 s) now timeout = State.is_healthy s now timeout
is_healthy (v2 s) now timeout = State.is_healthy s now timeout

unfoldable pub add_pid : SharedDeviceState → ℕ → Outcome SharedDeviceState
add_pid (v1 s) pid = do s' ← State.add_pid s pid; ok (v1 s')
add_pid (v2 s) pid = do s' ← State.add_pid s pid; ok (v2 s')

unfoldable pub remove_pid : SharedDeviceState → ℕ → Outcome SharedDeviceState
remove_pid (v1 s) pid = do s' ← State.remove_pid s pid; ok (v1 s')
remove_pid (v2 s) pid = do s' ← State.remove_pid s pid; ok (v2 s')

unfoldable pub get_all_pids : SharedDeviceState → Outcome (List ℕ)
get_all_pids (v1 s) = State.get_all_pids s
get_all_pids (v2 s) = State.get_all_pids s

unfoldable pub cleanup_orphaned_locks : (ℕ → Bool) → SharedDeviceState → SharedDeviceState
cleanup_orphaned_locks kill (v1 s) = v1 (State.cleanup_orphaned_locks kill s)
cleanup_orphaned_locks kill (v2 s) = v2 (State.cleanup_orphaned_locks kill s)

-- `devices.get(index).filter(|device| device.is_active())`
unfoldable pub active_at {ℓ} : {E : Type ℓ} → (E → Bool) → List E → ℕ → Option E
active_at is_active devices index = elim (get_elem? devices index) [
  | none ↦ none
  | some e ↦ if is_active e then some e else none
]

-- `with_device_v1` and `with_device_v2`: a closure on the active device at an index may change the
-- device, and its result is returned.
module _ {A : Type 0} where
  unfoldable pub with_device_v1 :
      SharedDeviceState → ℕ → (DeviceEntryV1 → DeviceEntryV1 × A) → SharedDeviceState × Option A
  with_device_v1 (v1 s) index g = elim (active_at V1.is_active s.devices index) [
    | none ↦ (v1 s, none)
    | some e ↦ let (e', a) = g e in (v1 (record s { devices = set s.devices index e' }), some a)
  ]
  with_device_v1 (v2 s) index g = (v2 s, none)

  unfoldable pub with_device_v2 :
      SharedDeviceState → ℕ → (DeviceEntryV2 → DeviceEntryV2 × A) → SharedDeviceState × Option A
  with_device_v2 (v1 s) index g = (v1 s, none)
  with_device_v2 (v2 s) index g = elim (active_at V2.is_active s.devices index) [
    | none ↦ (v2 s, none)
    | some e ↦ let (e', a) = g e in (v2 (record s { devices = set s.devices index e' }), some a)
  ]

  unfoldable pub with_device :
      SharedDeviceState
      → ℕ
      → (DeviceEntryV1 → DeviceEntryV1 × A)
      → (DeviceEntryV2 → DeviceEntryV2 × A)
      → SharedDeviceState × Option A
  unfolding with_device_v1 with_device_v2
  with_device (v1 s) index g1 g2 = with_device_v1 (v1 s) index g1
  with_device (v2 s) index g1 g2 = with_device_v2 (v2 s) index g2

-- The tuple that `get_device_info` returns.
pub record DeviceSummary : Type 0 where
  pub uuid : List ℕ
  pub available_cores : ℕ
  pub total_cores : ℕ
  pub mem_limit : ℕ
  pub pod_memory_used : ℕ
  pub up_limit : ℕ
  pub active : Bool

abbrev pub view_v1 : DeviceEntryV1 → DeviceSummary
view_v1 e = record {
  uuid = V1.get_uuid e;
  available_cores = e.device_info.available_cuda_cores;
  total_cores = e.device_info.total_cuda_cores;
  mem_limit = e.device_info.mem_limit;
  pod_memory_used = e.device_info.pod_memory_used;
  up_limit = e.device_info.up_limit;
  active = V1.is_active e;
}

abbrev pub view_v2 : DeviceEntryV2 → DeviceSummary
view_v2 e = record {
  uuid = V2.get_uuid e;
  available_cores = 0;
  total_cores = e.device_info.total_cuda_cores;
  mem_limit = e.device_info.mem_limit;
  pod_memory_used = e.device_info.pod_memory_used;
  up_limit = e.device_info.up_limit;
  active = V2.is_active e;
}

unfoldable pub get_device_info : SharedDeviceState → ℕ → Option DeviceSummary
get_device_info (v1 s) index = elim (active_at V1.is_active s.devices index) [
  | none ↦ none
  | some e ↦ some (view_v1 e)
]
get_device_info (v2 s) index = elim (active_at V2.is_active s.devices index) [
  | none ↦ none
  | some e ↦ some (view_v2 e)
]

-- The new state, and whether the device exists.
unfoldable pub set_pod_memory_used : SharedDeviceState → ℕ → ℕ → SharedDeviceState × Bool
unfolding with_device V1.set_pod_memory_used V2.set_pod_memory_used
set_pod_memory_used s index memory =
    let (s', done) =
      with_device {A = Unit {0}} s index
        (λ e. (record e { device_info = V1.set_pod_memory_used e.device_info memory }, tt))
        (λ e. (record e { device_info = V2.set_pod_memory_used e.device_info memory }, tt)) in
    (s', elim done [ none ↦ false | some _ ↦ true ])

unfoldable pub iter_active_devices : Float → SharedDeviceState → List (ℕ × DeviceEntryV2)
unfolding ops_v2
iter_active_devices f (v1 s) = []
iter_active_devices f (v2 s) = State.iter_active_devices (ops_v2 f) s

unfoldable pub iter_all_devices : Float → SharedDeviceState → List (ℕ × DeviceEntryV2)
unfolding ops_v2
iter_all_devices f (v1 s) = []
iter_all_devices f (v2 s) = State.iter_all_devices (ops_v2 f) s
