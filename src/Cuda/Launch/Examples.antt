-- ===== src/Cuda/Launch/Examples.antt =====
-- Launches at which the theorems apply, and a grid whose size wraps around.
use vgpu_rs.Base.{ℕ, ◌-◌, true, none, ◌^◌, ◌≡◌, refl, List, [], ◌∷◌}
use vgpu_rs.Cuda.{Answer, answer}
use vgpu_rs.Cuda.Devices.{Limiter, new}
use vgpu_rs.Cuda.Launch.{
  BlockShape, launch_size, launch_kernel, launch, launch_grid, launch_grid_async, set_block_shapes,
  launch_size-set_block_shapes,
}

-- The number of blocks of a grid wraps around: a grid of 2^32 blocks counts as none.
wrapped_grid : launch_size [] 0 (launch_kernel (2 ^ 17) (2 ^ 15) 1 256 1 1) ≡ (0, 256)
unfolding launch_size
wrapped_grid = refl

abbrev shapes : List BlockShape
shapes = record { device = answer 0; x = 16; y = 16; z = 1 } ∷ []

abbrev limiter : Limiter
limiter = record {
  current_devices_dim = [];
  cu_device_mapping = [];
  gpu_idx_uuids = (0, 65 ∷ []) ∷ (1, 66 ∷ []) ∷ [];
  compute_shard = true;
  isolation = none;
  up_limit_cache = [];
}

abbrev index_of : List ℕ → Answer ℕ
index_of [] = answer 0
index_of (c ∷ uuid) = answer (c - 65)

made : new index_of ((66 ∷ []) ∷ (65 ∷ []) ∷ (66 ∷ []) ∷ []) true none ≡ answer limiter
unfolding new
made = refl

launch_size-set_block_shapes_example :
    (launch_size (set_block_shapes shapes []) 0 launch ≡ (1, 1))
    × (launch_size (set_block_shapes shapes []) 0 (launch_grid 4 4) ≡ (16, 1))
    × (launch_size (set_block_shapes shapes []) 0 (launch_grid_async 4 4) ≡ (16, 1))
launch_size-set_block_shapes_example =
    launch_size-set_block_shapes index_of ((66 ∷ []) ∷ (65 ∷ []) ∷ (66 ∷ []) ∷ []) true none limiter
      made shapes 0 4 4
