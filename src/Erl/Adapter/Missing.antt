-- ===== src/Erl/Adapter/Missing.antt =====
-- Calls of the adapter on a device that is not there.
use vgpu_rs.Base.{ℕ, ◌≡◌, refl, ap, inl, inr, none, arith, Option-cases}
use vgpu_rs.Float.{Float}
use vgpu_rs.Device.V2
use vgpu_rs.Device.V2.{DeviceEntryV2}
use vgpu_rs.State.Versions.{SharedDeviceState, v1, v2, with_device_v2, active_at}
use vgpu_rs.State.Versions.Access.{with_device_v2-none}
use vgpu_rs.Erl.{storage_failure, invalid_configuration, failure, TokenState}
use vgpu_rs.Erl.Adapter.{
  ok_or, load_state, store_state, load_quota, store_rate, store_capacity, subtract, add, adapter,
}
use vgpu_rs.Erl.Adapter.Refines.{device_account}

module _ (f : Float) where
  open f use {F}

  skipped :
      {A : Type 0} (g : DeviceEntryV2 → DeviceEntryV2 × A) (device : ℕ) (s : SharedDeviceState)
      → device_account f device s ≡ none
      → with_device_v2 s device g ≡ (s, none)
  unfolding device_account with_device_v2
  skipped g device (v1 s) gap = refl
  skipped g device (v2 s) gap = elim (Option-cases (active_at V2.is_active s.devices device)) [
    | inl out ↦ with_device_v2-none s device g out
    | inr (e, found) ↦ ground arith
  ]

  -- Of a device without an account (no active entry at the index, or the first layout), each call of
  -- the adapter fails and changes nothing: the writes of the rate and of the capacity with an
  -- invalid configuration, all others with a storage failure.
  pub adapter_missing :
      (device : ℕ) (s : SharedDeviceState)
      → device_account f device s ≡ none
      → (state : TokenState f) (x : F)
      → ((adapter f).read_token_state s device ≡ failure storage_failure)
        × ((adapter f).write_token_state s device state ≡ (s, failure storage_failure))
        × ((adapter f).read_quota s device ≡ failure storage_failure)
        × ((adapter f).write_refill_rate s device x ≡ (s, failure invalid_configuration))
        × ((adapter f).write_capacity s device x ≡ (s, failure invalid_configuration))
        × ((adapter f).fetch_sub_tokens s device x ≡ (s, failure storage_failure))
        × ((adapter f).fetch_add_tokens s device x ≡ (s, failure storage_failure))
  unfolding adapter ok_or
  adapter_missing device s gap state x = (
    ap (λ r. (ok_or storage_failure r).1) (skipped (load_state f) device s gap),
    ap (ok_or storage_failure) (skipped (store_state f state) device s gap),
    ap (λ r. (ok_or storage_failure r).1) (skipped (load_quota f) device s gap),
    ap (ok_or invalid_configuration) (skipped (store_rate f x) device s gap),
    ap (ok_or invalid_configuration) (skipped (store_capacity f x) device s gap),
    ap (ok_or storage_failure) (skipped (subtract f x) device s gap),
    ap (ok_or storage_failure) (skipped (add f x) device s gap),
  )
