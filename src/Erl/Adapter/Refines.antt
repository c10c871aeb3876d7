-- ===== src/Erl/Adapter/Refines.antt =====
-- The adapter keeps the promise of a backend.
use vgpu_rs.Base.{
  ℕ, ◌≡◌, refl, ap, ◌∙◌, inl, inr, true, not, Option, none, some, set, arith, ◌==◌, if◌then◌else◌,
  Bool-cases, Option-cases,
}
use vgpu_rs.Float.{Float}
use vgpu_rs.Device.V2
use vgpu_rs.Device.V2.{
  DeviceEntryV2, get_erl_current_tokens, get_erl_last_token_update, get_erl_token_capacity,
  get_erl_token_refill_rate, set_erl_current_tokens, set_erl_last_token_update,
  load_erl_token_state, store_erl_token_state, load_erl_quota, set_erl_token_refill_rate,
  set_erl_token_capacity,
}
use vgpu_rs.Device.Tokens.{
  fetch_sub_erl_tokens, fetch_add_erl_tokens, sub_tokens, add_tokens, sub_value, add_value,
}
use vgpu_rs.State.{DeviceState}
use vgpu_rs.State.Versions.{SharedDeviceState, v1, v2, with_device_v2, active_at}
use vgpu_rs.State.Versions.Access.{active_at-set, active_at-is_active, with_device_v2-some}
use vgpu_rs.Erl.{
  RateLimitError, storage_failure, invalid_configuration, success, TokenState, Account, TokenStore,
  Gives, with_tokens,
}
use vgpu_rs.Erl.Adapter.{
  ok_or, load_state, store_state, load_quota, store_rate, store_capacity, subtract, add, adapter,
}

module _ (f : Float) where
  open f use {F, from_bits, to_bits, lt, from_bits-to_bits}

  -- The account of an entry, and of the active device at an index.
  abbrev entry_account : DeviceEntryV2 → Account f
  entry_account dev = record {
    state = record {
      tokens = from_bits dev.device_info.erl_current_tokens;
      last_update = from_bits dev.device_info.erl_last_token_update;
    };
    quota = record {
      capacity = from_bits dev.device_info.erl_token_capacity;
      refill_rate = from_bits dev.device_info.erl_token_refill_rate;
    };
  }

  unfoldable pub device_account : ℕ → SharedDeviceState → Option (Account f)
  device_account index (v1 s) = none
  device_account index (v2 s) = elim (active_at V2.is_active s.devices index) [
    | none ↦ none
    | some e ↦ some (entry_account e)
  ]

  -- A device with an account is an active entry of the second layout.
  found_entry :
      (index : ℕ) (s : SharedDeviceState) (a : Account f)
      → device_account index s ≡ some a
      → (d : DeviceState DeviceEntryV2) × (e : DeviceEntryV2) × (s ≡ v2 d)
        × (active_at V2.is_active d.devices index ≡ some e)
        × (entry_account e ≡ a)
  unfolding device_account
  found_entry index (v1 s) a h = ground arith
  found_entry index (v2 s) a h = elim (Option-cases (active_at V2.is_active s.devices index)) [
    | inl gap ↦ ground arith
    | inr (e, found) ↦ (s, e, refl, found, ground arith)
  ]

  -- An entry written at the index is the device's new account.
  account_written :
      (index : ℕ) (d : DeviceState DeviceEntryV2) (e e' : DeviceEntryV2)
      → active_at V2.is_active d.devices index ≡ some e
      → V2.is_active e' ≡ true
      → device_account index (v2 (record d { devices = set d.devices index e' }))
        ≡ some (entry_account e')
  unfolding device_account
  account_written index d e e' found active =
      let there : active_at V2.is_active (set d.devices index e') index ≡ some e' =
        active_at-set V2.is_active d.devices index index e e' found active ∙ ground arith in
      rw (there, device_account) refl

  -- Any call of the adapter whose closure keeps the entry active.
  module _ {R : Type 0} (error : RateLimitError) (g : DeviceEntryV2 → DeviceEntryV2 × R) where
    call-Gives :
        (index : ℕ) (s : SharedDeviceState) (a : Account f) (reads : Account f → R)
        (turns : Account f → Account f)
        → ((e : DeviceEntryV2) → (g e).0.active ≡ e.active)
        → ((e : DeviceEntryV2) → (g e).1 ≡ reads (entry_account e))
        → ((e : DeviceEntryV2) → entry_account (g e).0 ≡ turns (entry_account e))
        → device_account index s ≡ some a
        → Gives f
            (device_account index)
            (ok_or error (with_device_v2 s index g))
            (reads a)
            (turns a)
    unfolding ok_or V2.is_active
    call-Gives index s a reads turns keeps gives becomes h =
        let (d, e, at, found, shown) = found_entry index s a h in
        let active : V2.is_active e ≡ true =
          active_at-is_active V2.is_active d.devices index e found in
        let kept : V2.is_active (g e).0 ≡ true = ap (λ n. not (n == 0)) (keeps e) ∙ active in
        let s' : SharedDeviceState = v2 (record d { devices = set d.devices index (g e).0 }) in
        (
          s',
          ap (λ s. ok_or error (with_device_v2 s index g)) at
              ∙ ap (ok_or error) (with_device_v2-some d index g e found)
              ∙ ap (λ r. (s', success r)) (gives e ∙ ap reads shown),
          account_written index d e (g e).0 found kept ∙ ap some (becomes e ∙ ap turns shown),
        )

  -- What the closures do to the account of an entry.
  store_state-account :
      (t : TokenState f) (e : DeviceEntryV2)
      → entry_account (store_state f t e).0 ≡ record (entry_account e) { state = t }
  unfolding store_erl_token_state set_erl_current_tokens set_erl_last_token_update
  store_state-account t e = rw (from_bits-to_bits t.tokens, from_bits-to_bits t.last_update)

  store_rate-account :
      (rate : F) (e : DeviceEntryV2)
      → entry_account (store_rate f rate e).0
        ≡ record (entry_account e) { quota = record (entry_account e).quota { refill_rate = rate } }
  unfolding set_erl_token_refill_rate
  store_rate-account rate e = rw (from_bits-to_bits rate)

  store_capacity-account :
      (capacity : F) (e : DeviceEntryV2)
      → entry_account (store_capacity f capacity e).0 ≡ record (entry_account e) {
        quota = record (entry_account e).quota { capacity = capacity };
      }
  unfolding set_erl_token_capacity
  store_capacity-account capacity e = rw (from_bits-to_bits capacity)

  abbrev after_sub : F → Account f → Account f
  after_sub cost a =
      if lt a.state.tokens cost then a else with_tokens f a (sub_value f a.state.tokens cost)

  subtract-account :
      (cost : F) (e : DeviceEntryV2)
      → ((subtract f cost e).0.active ≡ e.active)
        × ((subtract f cost e).1 ≡ (entry_account e).state.tokens)
        × (entry_account (subtract f cost e).0 ≡ after_sub cost (entry_account e))
  unfolding fetch_sub_erl_tokens sub_tokens
  subtract-account cost e =
      elim (Bool-cases (lt (from_bits e.device_info.erl_current_tokens) cost)) [
        | inl less ↦ (refl, rw less refl, rw less refl)
        | inr enough ↦ (
          refl,
          rw enough refl,
          rw
              (
                enough,
                from_bits-to_bits (sub_value f (from_bits e.device_info.erl_current_tokens) cost),
              )
              refl,
        )
      ]

  add-account :
      (amount : F) (e : DeviceEntryV2)
      → entry_account (add f amount e).0
        ≡ with_tokens f
            (entry_account e)
            (add_value f (entry_account e).quota.capacity (entry_account e).state.tokens amount)
  unfolding fetch_add_erl_tokens add_tokens get_erl_token_capacity
  add-account amount e = ap (with_tokens f (entry_account e)) (
      from_bits-to_bits
        (add_value f (entry_account e).quota.capacity (entry_account e).state.tokens amount))

  -- The adapter keeps the promise of a backend, for every device: the account is that of the active
  -- device of the second layout at the index, read from its bits.
  pub adapter-TokenStore : (device : ℕ) → TokenStore f (adapter f) device (device_account device)
  unfolding adapter load_erl_token_state load_erl_quota get_erl_current_tokens
      get_erl_last_token_update get_erl_token_capacity get_erl_token_refill_rate
      fetch_add_erl_tokens add_tokens
  adapter-TokenStore device = record {
    reads_tokens = λ s a h.
        let (_, read, _) =
          call-Gives storage_failure (load_state f) device s a (λ a. a.state) (λ a. a) (λ e. refl)
            (λ e. refl) (λ e. refl) h in
        ap (λ r. r.1) read;
    reads_quota = λ s a h.
        let (_, read, _) =
          call-Gives storage_failure (load_quota f) device s a (λ a. a.quota) (λ a. a) (λ e. refl)
            (λ e. refl) (λ e. refl) h in
        ap (λ r. r.1) read;
    writes_tokens = λ s a t h.
        call-Gives storage_failure (store_state f t) device s a (λ a. tt)
          (λ a. record a { state = t }) (λ e. refl) (λ e. refl) (store_state-account t) h;
    writes_rate = λ s a rate h.
        call-Gives invalid_configuration (store_rate f rate) device s a (λ a. tt)
          (λ a. record a { quota = record a.quota { refill_rate = rate } }) (λ e. refl) (λ e. refl)
          (store_rate-account rate) h;
    writes_capacity = λ s a capacity h.
        call-Gives invalid_configuration (store_capacity f capacity) device s a (λ a. tt)
          (λ a. record a { quota = record a.quota { capacity = capacity } }) (λ e. refl) (λ e. refl)
          (store_capacity-account capacity) h;
    subtracts = λ s a cost h.
        call-Gives storage_failure (subtract f cost) device s a (λ a. a.state.tokens)
          (after_sub cost) (λ e. (subtract-account cost e).0) (λ e. (subtract-account cost e).1)
          (λ e. (subtract-account cost e).2) h;
    adds = λ s a amount h.
        call-Gives storage_failure (add f amount) device s a (λ a. a.state.tokens)
          (λ a. with_tokens f a (add_value f a.quota.capacity a.state.tokens amount)) (λ e. refl)
          (λ e. refl) (add-account amount) h;
  }
