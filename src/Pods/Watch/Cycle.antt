-- ===== src/Pods/Watch/Cycle.antt =====
-- A cycle over the pods of a device: `process_pod_utilization_update` and
-- `run_device_monitoring_cycle_static` of crates/hypervisor/src/core/pod/coordinator.rs.
use vgpu_rs.Base.{
  ℕ, ◌/◌, ◌^◌, not, List, [], ◌∷◌, Option, none, some, ◌==◌, if◌then◌else◌, Outcome, ok, ◌>>=◌,
}
use vgpu_rs.Float.{Float}
use vgpu_rs.Device.{DeviceConfig}
use vgpu_rs.State.Versions.{version, has_device, update_heartbeat, set_pod_memory_used}
use vgpu_rs.Paths.{PodIdentifier, identifier_eq}
use vgpu_rs.Pods.{Text, has_none, PodStateStore}
use vgpu_rs.Pods.Store.{
  pod_path, get_pods_using_device, get_host_pids_for_pod, get_device_config_for_pod,
}
use vgpu_rs.Pods.Shares.{DeviceSnapshot, get_pod_utilization, get_pod_memory, update_v1_state}
use vgpu_rs.Pods.Watch.{
  UpdateError, open_failed, device_not_found, snapshot_failed, put_memory, ErlConfig, Watch,
  update_v2_state,
}

module _ (f : Float) where
  -- The update of the layout that the memory has.
  unfoldable pub update_layout :
      ErlConfig f
      → PodIdentifier
      → DeviceConfig
      → DeviceSnapshot
      → List ℕ
      → ℕ
      → Watch f
      → Outcome (Watch f × Option UpdateError)
  unfolding version update_v1_state update_v2_state get_pod_utilization
  update_layout config pod device snapshot host_pids memory w =
      let total = get_pod_utilization snapshot host_pids in
      let state = w.memories memory in
      if version state == 1
      then (do
        state' ← update_v1_state state device device.device_idx total
        ok (record w { memories = put_memory memory state' w.memories }, none))
      else if version state == 2
      then update_v2_state f config pod device memory total snapshot.timestamp w
      else ok (w, none)

  -- The heartbeat, unless the update failed.
  unfoldable pub beat : ℕ → ℕ → Watch f × Option UpdateError → Watch f × Option UpdateError
  unfolding update_heartbeat
  beat timestamp memory (w, some e) = (w, some e)
  beat timestamp memory (w, none) = (
    record w {
      memories =
          put_memory memory (update_heartbeat (w.memories memory) (timestamp / 10 ^ 6)) w.memories;
    },
    none,
  )

  unfoldable pub update_opened :
      ErlConfig f
      → PodIdentifier
      → DeviceConfig
      → DeviceSnapshot
      → List ℕ
      → ℕ
      → Watch f
      → Outcome (Watch f × Option UpdateError)
  unfolding has_device set_pod_memory_used get_pod_memory update_layout beat
  update_opened config pod device snapshot host_pids memory w =
      let state = w.memories memory in
      if not (has_device f state device.device_idx)
      then ok (w, some (device_not_found device.device_idx))
      else (do
        let used =
            (set_pod_memory_used state device.device_idx (get_pod_memory snapshot host_pids)).0
        out ←
            update_layout config pod device snapshot host_pids memory
              (record w { memories = put_memory memory used w.memories })
        ok (beat snapshot.timestamp memory out))

  -- `opening` is what the opening of the pod's path comes to: the number of a memory, if it succeeds.
  unfoldable pub process_pod_utilization_update :
      ErlConfig f
      → PodIdentifier
      → Option ℕ
      → DeviceConfig
      → DeviceSnapshot
      → List ℕ
      → Watch f
      → Outcome (Watch f × Option UpdateError)
  unfolding update_opened
  process_pod_utilization_update config pod none device snapshot host_pids w =
      ok (w, some open_failed)
  process_pod_utilization_update config pod (some memory) device snapshot host_pids w =
      update_opened config pod device snapshot host_pids memory w

  module _ {Info Handle : Type 0} (config : ErlConfig f) (pods : PodStateStore Info Handle)
      (opening : Text → Option ℕ) where
    -- A pod of the cycle. A failure is only logged.
    unfoldable pub watch_pod : ℕ → DeviceSnapshot → PodIdentifier → Watch f → Outcome (Watch f)
    unfolding get_host_pids_for_pod get_device_config_for_pod pod_path
        process_pod_utilization_update
    watch_pod device_idx snapshot pod w = elim (get_host_pids_for_pod pod pods) [
      | none ↦ ok w
      | some host_pids ↦
          if has_none host_pids
          then ok w
          else elim (get_device_config_for_pod pod device_idx pods) [
            | none ↦ ok w
            | some device ↦ (do
              out ←
                  process_pod_utilization_update config pod (opening (pod_path pod pods)) device
                    snapshot host_pids w
              ok out.0)
          ]
    ]

    unfoldable pub watch_pods :
        ℕ → DeviceSnapshot → List PodIdentifier → Watch f → Outcome (Watch f)
    unfolding watch_pod
    watch_pods device_idx snapshot [] w = ok w
    watch_pods device_idx snapshot (pod ∷ rest) w = do
      w' ← watch_pod device_idx snapshot pod w
      watch_pods device_idx snapshot rest w'

    -- The cycle, with the last timestamp seen. The store is the same during a cycle; `answer` is the
    -- snapshot that the GPU library gives, if it gives one.
    unfoldable pub run_device_monitoring_cycle_static :
        ℕ → Option DeviceSnapshot → ℕ → Watch f → Outcome (Watch f × ℕ × Option UpdateError)
    unfolding get_pods_using_device watch_pods
    run_device_monitoring_cycle_static device_idx answer last_seen w =
        elim (get_pods_using_device device_idx pods) [
          | [] ↦ ok (w, last_seen, none)
          | pod ∷ rest ↦ elim answer [
            | none ↦ ok (w, last_seen, some snapshot_failed)
            | some snapshot ↦ (do
              w' ← watch_pods device_idx snapshot (pod ∷ rest) w
              ok (w', snapshot.timestamp, none))
          ]
        ]
