-- ===== src/Erl/Controller/Update.antt =====
-- What an update keeps.
use vgpu_rs.Base.{
  ℕ, ◌≡◌, refl, ap, ◌∙◌, ◌⊎◌, inl, inr, Bool, true, false, Option, none, some, Bool-cases,
  Option-cases, Outcome, ok,
}
use vgpu_rs.Float.{Float}
use vgpu_rs.Float.Laws.{clamp-IsNanOrWithin}
use vgpu_rs.Erl.{DeviceBackend, TokenStore, Account, Result}
use vgpu_rs.Erl.Run.{check, ◌>>=◌, after, Yields}
use vgpu_rs.Erl.Controller.{DeviceController, DeviceControllerState, capacity_of}
use vgpu_rs.Erl.Controller.Checks.{IsSteady}
use vgpu_rs.Erl.Controller.Internal.{IsUpdated, update_internal-IsUpdated}
use vgpu_rs.Erl.Controller.Steps.{
  unwrap_or, state, controller, change, keep, update, update_after, update_with_timestamp,
}

module _ (f : Float) where
  open f use {F, ratio, lt, le, add, sub, mul, div, neg}

  module _ {S : Type 0} (backend : DeviceBackend f S) where
    -- What an update that comes too early leaves: everything as it was. The result shows the rate.
    abbrev pub IsKept :
        DeviceController f → S → S × DeviceController f → DeviceControllerState f → Type 0
    IsKept c s w st = (w ≡ (s, c)) × (st.current_rate ≡ c.current_rate)

    module _ (c : DeviceController f) (account : S → Option (Account f))
        (store : TokenStore f backend c.device account) where
      pub keep-IsKept : (s : S) → IsSteady f c → Yields (keep f backend (s, c)) (IsKept c s)
      unfolding keep controller state capacity_of ◌>>=◌ after check
      keep-IsKept s steady =
          let (capacity, clamped, _) =
            clamp-IsNanOrWithin f (mul c.current_rate c.cfg.burst_window) c.cfg.capacity_min
              c.cfg.capacity_max steady.sound.capacities in
          let shown : (st : DeviceControllerState f) × (state f c ≡ ok st)
              × (st.current_rate ≡ c.current_rate) =
            (
              record {
                target_utilization = c.cfg.target_utilization;
                smoothed_utilization = unwrap_or f c.smoothed_util (ratio 0 1);
                current_rate = c.current_rate;
                current_capacity = capacity;
                token_drain_rate = ratio 0 1;
              },
              rw (clamped, state, capacity_of) refl,
              refl,
            ) in
          let (st, at, same) = shown in ((s, c), st, ap (λ o. check o (s, c)) at, (refl, same))

      -- An update of a controller with a sound configuration and a rate that lies between its bounds
      -- or is a NaN, on a device that a backend has and keeps its promise about, never panics and
      -- never fails. One with a time step below the minimal one changes nothing, and its result shows
      -- the rate. Any other leaves the configuration, the device and the timestamp; a rate that lies
      -- between the bounds or is a NaN; an integral that lies within [-1, 1] or is a NaN; and on the
      -- device this rate, the capacity that belongs to it (the rate times the burst window, clamped),
      -- which lies between the bounds or is a NaN, and at most as many tokens as that, unless these or the capacity are a NaN; and its result shows the rate and the
      -- capacity.
      pub update-IsUpdated :
          (s : S) (a : Account f) (utilization delta : F)
          → IsSteady f c
          → account s ≡ some a
          → Yields (update f backend utilization delta (s, c)) (λ w st.
            ((lt delta c.cfg.min_delta_time ≡ true) × IsKept c s w st)
            ⊎ ((lt delta c.cfg.min_delta_time ≡ false) × IsUpdated f backend c account w st))
      unfolding update controller ◌>>=◌ after
      update-IsUpdated s a utilization delta steady h =
          elim (Bool-cases (lt delta c.cfg.min_delta_time)) [
            | inl early ↦
                let (w, st, at, kept) = keep-IsKept s steady in
                (w, st, rw (early, update) at, inl (early, kept))
            | inr due ↦
                let (w, st, at, updated) =
                  update_internal-IsUpdated f backend c account store s a utilization delta steady
                    h in
                (w, st, rw (due, update) at, inr (due, updated))
          ]

    -- Does a timestamp come too early after the last one?
    pub is_early : DeviceController f → F → Bool
    is_early c seconds = elim c.last_timestamp [
      | none ↦ false
      | some prev ↦ lt (sub seconds prev) c.cfg.min_delta_time
    ]

    module _ (c : DeviceController f) (account : S → Option (Account f))
        (store : TokenStore f backend c.device account) where
      abbrev remember : F → DeviceController f
      remember seconds = record c { last_timestamp = some seconds }

      -- An update by a timestamp, of a controller with a sound configuration and a rate that lies
      -- between its bounds or is a NaN, on a device that a backend has and keeps its promise about,
      -- never panics and never fails. If it comes earlier than the minimal time after the last
      -- timestamp, nothing changes. If there is no last timestamp or it comes later, the timestamp is
      -- remembered, and the rest is as an update leaves it.
      pub update_with_timestamp-IsUpdated :
          (s : S) (a : Account f) (utilization : F) (timestamp_micros : ℕ)
          → IsSteady f c
          → account s ≡ some a
          → let seconds = div (f.of_nat timestamp_micros) (ratio 1000000 1) in
            Yields (update_with_timestamp f backend utilization timestamp_micros (s, c)) (λ w st.
              ((is_early c seconds ≡ true) × IsKept c s w st)
              ⊎ ((is_early c seconds ≡ false)
                  × IsUpdated f backend (record c { last_timestamp = some seconds }) account w st))
      unfolding update_with_timestamp update_after controller change ◌>>=◌ after is_early
      update_with_timestamp-IsUpdated s a utilization timestamp_micros steady h =
          let seconds : F = div (f.of_nat timestamp_micros) (ratio 1000000 1) in
          let c1 : DeviceController f = remember seconds in
          let again = λ (delta : F).
            update_internal-IsUpdated f backend c1 account store s a utilization delta
              (record { sound = steady.sound; rate = steady.rate }) h in
          let start : Option F
              → Outcome ((S × DeviceController f) × Result (DeviceControllerState f)) =
            λ last. update_after f backend utilization seconds c.cfg.min_delta_time last (s, c) in
          elim (Option-cases c.last_timestamp) [
            | inl first ↦
                let (w, st, at, updated) = again c.cfg.min_delta_time in
                (w, st, ap start first ∙ at, inr (rw first refl, updated))
            | inr (prev, last) ↦ elim (Bool-cases (lt (sub seconds prev) c.cfg.min_delta_time)) [
              | inl early ↦
                  let (w, st, at, kept) = keep-IsKept c account store s steady in
                  (
                    w,
                    st,
                    ap start last ∙ rw (early, update_after) at,
                    inl (rw (last, early) refl, kept),
                  )
              | inr late ↦
                  let (w, st, at, updated) = again (sub seconds prev) in
                  (
                    w,
                    st,
                    ap start last ∙ rw (late, update_after) at,
                    inr (rw (last, late) refl, updated),
                  )
            ]
          ]
