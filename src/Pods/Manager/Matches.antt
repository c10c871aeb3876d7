-- ===== src/Pods/Manager/Matches.antt =====
-- `check_pod_config_match` decides whether a registration would change a pod.
use vgpu_rs.Base.{◌≡◌, ◌↔◌, refl, true, List, [], ◌∷◌, arith, length}
use vgpu_rs.Device.{DeviceConfig}
use vgpu_rs.Dict.{Eq, bytes_beq_iff}
use vgpu_rs.Pods.{PodState}
use vgpu_rs.Pods.Manager.{config_beq, same_configs, check_pod_config_match}

config_beq_iff : (c d : DeviceConfig) → (config_beq c d ≡ true) ↔ (c ≡ d)
config_beq_iff c d = ground (arith, bytes_beq_iff c.device_uuid d.device_uuid)

same_configs→eq :
    (cs ds : List DeviceConfig) → length cs ≡ length ds → same_configs cs ds ≡ true → cs ≡ ds
unfolding same_configs
same_configs→eq [] [] l h = refl
same_configs→eq [] (d ∷ ds) l h = absurd (omega arith)
same_configs→eq (c ∷ cs) [] l h = absurd (omega arith)
same_configs→eq (c ∷ cs) (d ∷ ds) l h = ground (arith, config_beq_iff c d, same_configs→eq cs ds)

same_configs_refl : (cs : List DeviceConfig) → same_configs cs cs ≡ true
unfolding same_configs
same_configs_refl [] = refl
same_configs_refl (c ∷ cs) = rw ((config_beq_iff c c).1 refl) (same_configs_refl cs)

module _ {Info Handle : Type 0} ⦃e : Eq Info⦄ where
  -- The test of a registered pod against new information and new configurations holds exactly if the
  -- information is equal and the lists of configurations are equal, in order and in every field.
  pub check_pod_config_match_iff :
      (existing : PodState Info Handle) (info : Info) (configs : List DeviceConfig)
      → (check_pod_config_match existing info configs ≡ true)
        ↔ ((existing.pod_info ≡ info) × (existing.device_configs ≡ configs))
  unfolding check_pod_config_match
  check_pod_config_match_iff existing info configs = (
    λ h.
        ground (
          arith,
          e.beq_iff existing.pod_info info,
          same_configs→eq existing.device_configs configs,
        ),
    λ same.
        rw (same.0, same.1, (e.beq_iff info info).1 refl)
          (ground (arith, same_configs_refl configs)),
  )
