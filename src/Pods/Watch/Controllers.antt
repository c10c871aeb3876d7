-- ===== src/Pods/Watch/Controllers.antt =====
-- The controllers of the second layout over the updates of the monitoring cycle.
use vgpu_rs.Base.{
  ℕ, ◌≡◌, refl, sym, ap, ◌∙◌, subst, inl, inr, Option, none, some, if◌then◌else◌, Option-cases,
  Outcome, ok, ◌>>=◌,
}
use vgpu_rs.Float.{Float}
use vgpu_rs.Float.Laws.{clamp-IsNanOrWithin}
use vgpu_rs.Device.{DeviceConfig}
use vgpu_rs.State.Versions.{SharedDeviceState}
use vgpu_rs.Erl.{Account, Result}
use vgpu_rs.Erl.Run.{Yields}
use vgpu_rs.Erl.Adapter.{adapter}
use vgpu_rs.Erl.Adapter.Refines.{device_account, adapter-TokenStore}
use vgpu_rs.Erl.Controller.{DeviceController}
use vgpu_rs.Erl.Controller.Checks.{IsSound, IsSteady, unit_ordered}
use vgpu_rs.Erl.Controller.Start.{new-IsStarted, IsStarted-IsSteady}
use vgpu_rs.Erl.Controller.Steps.{update_with_timestamp}
use vgpu_rs.Erl.Controller.Update.{update_with_timestamp-IsUpdated}
use vgpu_rs.Dict.{fetch, assign, fetch-assign}
use vgpu_rs.Paths.{PodIdentifier}
use vgpu_rs.Pods.Watch.{
  ControllerKey, key_eq, UpdateError, put_memory, put_memory-same, put_memory-again,
  normalize_percentage, ErlConfig, to_device_controller_config, Controlled, Watch, failure_of,
  run_controller, use_created, create_and_run, update_v2_state,
}

module _ (f : Float) where
  open f use {F}

  -- A controller that is steady, on a memory that has its device.
  pub record IsTuned (memories : ℕ → SharedDeviceState) (device : ℕ) (entry : Controlled f)
      : Type 0 where
    pub same_device : entry.controller.device ≡ device
    pub steady : IsSteady f entry.controller
    pub account : Account f
    pub present : device_account f device (memories entry.memory) ≡ some account

  -- After an update the controller of the key is tuned, on a memory `m`, and only this memory and the
  -- key's entry have changed.
  pub record HasUpdated (w : Watch f) (key : ControllerKey) (m : ℕ) (w' : Watch f) : Type 0 where
    pub entry : Controlled f
    pub same_memory : entry.memory ≡ m
    pub tuned : IsTuned w'.memories key.device_idx entry
    pub entries :
        (k : ControllerKey)
        → fetch k w'.controllers ≡ (if key_eq.beq key k then some entry else fetch k w.controllers)
    pub elsewhere : (j : ℕ) → w'.memories j ≡ put_memory m (w'.memories m) w.memories j

  update-Keeps :
      (c : DeviceController f) (s : SharedDeviceState) (a : Account f) (utilization : F)
      (timestamp : ℕ)
      → IsSteady f c
      → device_account f c.device s ≡ some a
      → Yields (update_with_timestamp f (adapter f) utilization timestamp (s, c)) (λ w st.
        (w.1.device ≡ c.device)
        × IsSteady f w.1
        × ((b : Account f) × (device_account f c.device w.0 ≡ some b)))
  update-Keeps c s a utilization timestamp steady h =
      let (w, st, at, ends) =
        update_with_timestamp-IsUpdated f (adapter f) c (device_account f c.device)
          (adapter-TokenStore f c.device) s a utilization timestamp steady h in
      (
        w,
        st,
        at,
        elim ends [
          | inl (early, (same, rate)) ↦
              subst
                (λ (v : SharedDeviceState × DeviceController f).
                  (v.1.device ≡ c.device)
                  × IsSteady f v.1
                  × ((b : Account f) × (device_account f c.device v.0 ≡ some b)))
                (sym same) (refl, steady, (a, h))
          | inr (due, u) ↦ (u.same_device, u.steady, (u.left, u.present))
        ],
      )

  run_controller-Updates :
      (key : ControllerKey) (timestamp : ℕ) (utilization : F) (entry : Controlled f) (w : Watch f)
      → IsTuned w.memories key.device_idx entry
      → (w' : Watch f) × (run_controller f key timestamp utilization entry w ≡ ok (w', none))
        × HasUpdated w key entry.memory w'
  unfolding run_controller
  run_controller-Updates key timestamp utilization entry w tuned =
      let c = entry.controller in
      let m = entry.memory in
      let present : device_account f c.device (w.memories m) ≡ some tuned.account =
        subst (λ d. device_account f d (w.memories m) ≡ some tuned.account) (sym tuned.same_device)
          tuned.present in
      let (v, st, at, (same, steady, (b, shown))) =
        update-Keeps c (w.memories m) tuned.account utilization timestamp tuned.steady present in
      let entry' : Controlled f = record { memory = m; controller = v.1 } in
      let w' : Watch f = record {
        memories = put_memory m v.0 w.memories;
        controllers = assign key entry' w.controllers;
      } in
      (
        w',
        ap
            (λ (o : Outcome ((SharedDeviceState × DeviceController f) × Result _)). o >>= λ out.
              ok (
                record {
                  memories = put_memory m out.0.0 w.memories;
                  controllers =
                      assign key (record { memory = m; controller = out.0.1 }) w.controllers;
                },
                failure_of f out.1,
              ))
            at,
        record {
          entry = entry';
          same_memory = refl;
          tuned = record {
            same_device = same ∙ tuned.same_device;
            steady = steady;
            account = b;
            present =
                ap (device_account f key.device_idx) (put_memory-same m v.0 w.memories)
                ∙ subst (λ d. device_account f d v.0 ≡ some b) tuned.same_device shown;
          };
          entries = λ k. fetch-assign key k entry' w.controllers;
          elsewhere =
              λ j. ap (λ s. put_memory m s w.memories j) (sym (put_memory-same m v.0 w.memories));
        },
      )

  create_and_run-Updates :
      (config : ErlConfig f) (key : ControllerKey) (timestamp : ℕ) (target utilization : F)
      (memory : ℕ) (w : Watch f) (a : Account f)
      → IsSound f (to_device_controller_config f config target)
      → device_account f key.device_idx (w.memories memory) ≡ some a
      → (w' : Watch f) × (create_and_run f config key timestamp target utilization memory
            key.device_idx w
          ≡ ok (w', none))
        × HasUpdated w key memory w'
  unfolding create_and_run use_created
  create_and_run-Updates config key timestamp target utilization memory w a sound h =
      let device = key.device_idx in
      let store = adapter-TokenStore f device in
      let (s, c, at, started) =
        new-IsStarted f (adapter f) device (device_account f device) store
          (to_device_controller_config f config target) (w.memories memory) a sound h in
      let w1 : Watch f = record w { memories = put_memory memory s w.memories } in
      let entry : Controlled f = record { memory = memory; controller = c } in
      let tuned : IsTuned w1.memories device entry = record {
        same_device = started.same_device;
        steady =
            IsStarted-IsSteady f (adapter f) device (device_account f device) store
              (to_device_controller_config f config target) s c sound started;
        account = started.left;
        present =
            ap (device_account f device) (put_memory-same memory s w.memories) ∙ started.present;
      } in
      let (w', ran, u) = run_controller-Updates key timestamp utilization entry w1 tuned in
      (
        w',
        ap
              (λ (o : Outcome (SharedDeviceState × Result (DeviceController f))).
                o >>= λ out. use_created f key timestamp utilization memory w out)
              at
            ∙ ran,
        record {
          entry = u.entry;
          same_memory = u.same_memory;
          tuned = u.tuned;
          entries = u.entries;
          elsewhere =
              λ j. u.elsewhere j ∙ put_memory-again memory s (w'.memories memory) w.memories j;
        },
      )

  -- What the update of a device needs of the key's controller, or, for a new one, of the memory.
  abbrev pub IsReady : ℕ → ℕ → Watch f → Option (Controlled f) → Type 0
  IsReady device memory w none =
      (a : Account f) × (device_account f device (w.memories memory) ≡ some a)
  IsReady device memory w (some entry) = IsTuned w.memories device entry

  -- The memory that an update writes.
  abbrev pub written_memory : ℕ → Option (Controlled f) → ℕ
  written_memory memory none = memory
  written_memory memory (some entry) = entry.memory

  -- The update of the second layout neither panics nor fails, if the configuration is sound for the
  -- target of the device, and the key's controller is steady on a memory that has the device, or there
  -- is none and the opened memory has the device. After it the key has such a controller, every other
  -- key has what it had, and only one memory has changed: that which the key's controller was made on,
  -- or the opened one, if there was no controller.
  pub update_v2_state-Updates :
      (config : ErlConfig f) (pod : PodIdentifier) (device : DeviceConfig)
      (memory total timestamp : ℕ) (w : Watch f) (target : F)
      → normalize_percentage f device.up_limit ≡ ok target
      → IsSound f (to_device_controller_config f config target)
      → let key : ControllerKey = record { pod = pod; device_idx = device.device_idx } in
        IsReady device.device_idx memory w (fetch key w.controllers)
        → (w' : Watch f) × (update_v2_state f config pod device memory total timestamp w
            ≡ ok (w', none))
          × HasUpdated w key (written_memory memory (fetch key w.controllers)) w'
  unfolding update_v2_state normalize_percentage
  update_v2_state-Updates config pod device memory total timestamp w target at sound ready =
      let key : ControllerKey = record { pod = pod; device_idx = device.device_idx } in
      let (utilization, now, _) =
        clamp-IsNanOrWithin f (f.div (f.of_nat total) (f.ratio 100 1)) (f.ratio 0 1) (f.ratio 1 1)
          (unit_ordered f) in
      let next : F → F → Outcome (Watch f × Option UpdateError) = λ t u.
        elim (fetch key w.controllers) [
          | some entry ↦ run_controller f key timestamp u entry w
          | none ↦ create_and_run f config key timestamp t u memory device.device_idx w
        ] in
      let start : update_v2_state f config pod device memory total timestamp w
          ≡ next target utilization =
        ap (λ (o : Outcome F). o >>= λ t. normalize_percentage f total >>= λ u. next t u) at
        ∙ ap (λ (o : Outcome F). o >>= λ u. next target u) now in
      elim (Option-cases (fetch key w.controllers)) [
        | inl absent ↦
            let (a, h) = subst (IsReady device.device_idx memory w) absent ready in
            let (w', ran, u) =
              create_and_run-Updates config key timestamp target utilization memory w a sound h in
            (w', start ∙ rw absent ran, rw absent u)
        | inr (entry, found) ↦
            let tuned = subst (IsReady device.device_idx memory w) found ready in
            let (w', ran, u) = run_controller-Updates key timestamp utilization entry w tuned in
            (w', start ∙ rw found ran, rw found u)
      ]
