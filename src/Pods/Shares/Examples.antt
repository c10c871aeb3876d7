-- ===== src/Pods/Shares/Examples.antt =====
-- A device and a snapshot at which the theorems on shares apply.
use vgpu_rs.Base.{ℕ, ◌≡◌, ◌≤◌, refl, arith, [], ◌∷◌, ok}
use vgpu_rs.Device.{DeviceConfig}
use vgpu_rs.Dict.{nat_eq}
use vgpu_rs.Pods.Shares.{
  DeviceSnapshot, calculate_increment, utilization_diff, calculate_delta, base_increment,
  scale_increment, scale_above, i32_div, adjust_share,
}
use vgpu_rs.Pods.Shares.Delta.{IsModerate, Follows, calculate_delta-IsBounded}

abbrev device : DeviceConfig
device = record {
  device_idx = 0;
  device_uuid = [];
  up_limit = 80;
  mem_limit = 2048;
  sm_count = 20;
  max_thread_per_sm = 128;
  total_cuda_cores = 2560;
}

device-IsModerate : IsModerate device 60 1000
device-IsModerate = record {
  few = omega arith;
  word = omega arith;
  powerful = omega arith;
  limited = omega arith;
  near = omega arith;
  cores = omega arith;
  within = omega arith;
}

calculate_delta-IsBounded_example :
    (new_share : ℕ) × (calculate_delta device 60 1000 ≡ ok new_share)
    × (new_share ≤ 2560)
    × Follows device 60 1000 new_share
calculate_delta-IsBounded_example = calculate_delta-IsBounded device 60 1000 device-IsModerate

-- On a large device, with a low limit and a total over many processes, the increment leaves the range
-- of an `i32`: the share grows beyond all cores although the utilisation is far above the limit.
abbrev large : DeviceConfig
large = record {
  device_idx = 0;
  device_uuid = [];
  up_limit = 5;
  mem_limit = 2048;
  sm_count = 132;
  max_thread_per_sm = 2048;
  total_cuda_cores = 16896;
}

large_device : calculate_delta large 305 1000 ≡ ok 297652882
unfolding calculate_delta calculate_increment utilization_diff base_increment scale_increment
    scale_above i32_div adjust_share
large_device = refl

abbrev snapshot : DeviceSnapshot
snapshot = record {
  process_utilizations =
      (5, record { sm_util = 30; codec_util = 2 })
      ∷ (6, record { sm_util = 40; codec_util = 0 })
      ∷ [];
  process_memories = (5, 4096) ∷ [];
  timestamp = 7;
}
