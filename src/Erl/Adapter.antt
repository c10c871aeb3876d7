-- ===== src/Erl/Adapter.antt =====
-- `ErlSharedMemoryAdapter`: the backend over the shared memory
-- (crates/utils/src/shared_memory/erl_adapter.rs). Only an active device of the second layout is
-- there.
pub mod Refines
pub mod Missing
use vgpu_rs.Base.{ℕ, Option, none, some}
use vgpu_rs.Float.{Float}
use vgpu_rs.Device.V2.{
  DeviceEntryV2, load_erl_token_state, store_erl_token_state, load_erl_quota,
  set_erl_token_refill_rate, set_erl_token_capacity,
}
use vgpu_rs.Device.Tokens.{fetch_sub_erl_tokens, fetch_add_erl_tokens}
use vgpu_rs.State.Versions.{SharedDeviceState, with_device_v2}
use vgpu_rs.Erl.{
  RateLimitError, storage_failure, invalid_configuration, Result, success, failure, TokenState,
  DeviceQuota, DeviceBackend,
}

-- `ok_or_else`
unfoldable pub ok_or : {S A : Type 0} → RateLimitError → S × Option A → S × Result A
ok_or e (s, none) = (s, failure e)
ok_or e (s, some a) = (s, success a)

module _ (f : Float) where
  open f use {F}

  -- The calls' closures on the entry of the device.
  abbrev pub load_state : DeviceEntryV2 → DeviceEntryV2 × TokenState f
  load_state dev =
      let (tokens, ts) = load_erl_token_state f dev.device_info in
      (dev, record { tokens = tokens; last_update = ts })

  abbrev pub store_state : TokenState f → DeviceEntryV2 → DeviceEntryV2 × Unit {0}
  store_state state dev = (
    record dev {
      device_info = store_erl_token_state f dev.device_info state.tokens state.last_update;
    },
    tt,
  )

  abbrev pub load_quota : DeviceEntryV2 → DeviceEntryV2 × DeviceQuota f
  load_quota dev =
      let (capacity, rate) = load_erl_quota f dev.device_info in
      (dev, record { capacity = capacity; refill_rate = rate })

  abbrev pub store_rate : F → DeviceEntryV2 → DeviceEntryV2 × Unit {0}
  store_rate refill_rate dev =
      (record dev { device_info = set_erl_token_refill_rate f dev.device_info refill_rate }, tt)

  abbrev pub store_capacity : F → DeviceEntryV2 → DeviceEntryV2 × Unit {0}
  store_capacity capacity dev =
      (record dev { device_info = set_erl_token_capacity f dev.device_info capacity }, tt)

  abbrev pub subtract : F → DeviceEntryV2 → DeviceEntryV2 × F
  subtract cost dev =
      let (info, before) = fetch_sub_erl_tokens f dev.device_info cost in
      (record dev { device_info = info }, before)

  abbrev pub add : F → DeviceEntryV2 → DeviceEntryV2 × F
  add amount dev =
      let (info, before) = fetch_add_erl_tokens f dev.device_info amount in
      (record dev { device_info = info }, before)

  -- `impl DeviceBackend for ErlSharedMemoryAdapter`
  unfoldable pub adapter : DeviceBackend f SharedDeviceState
  unfolding ok_or
  adapter = record {
    read_token_state = λ s device. (ok_or storage_failure (with_device_v2 s device load_state)).1;
    write_token_state =
        λ s device state. ok_or storage_failure (with_device_v2 s device (store_state state));
    read_quota = λ s device. (ok_or storage_failure (with_device_v2 s device load_quota)).1;
    write_refill_rate = λ s device refill_rate.
        ok_or invalid_configuration (with_device_v2 s device (store_rate refill_rate));
    write_capacity = λ s device capacity.
        ok_or invalid_configuration (with_device_v2 s device (store_capacity capacity));
    fetch_sub_tokens =
        λ s device cost. ok_or storage_failure (with_device_v2 s device (subtract cost));
    fetch_add_tokens =
        λ s device amount. ok_or storage_failure (with_device_v2 s device (add amount));
  }
