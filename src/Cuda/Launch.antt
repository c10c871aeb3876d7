-- ===== src/Cuda/Launch.antt =====
-- The hooks of kernel launches: crates/cuda-limiter/src/detour/gpu.rs, and the block dimensions of
-- limiter.rs. A failure of the rate limiter is only logged, and the driver is called in any case.
mod Examples
use vgpu_rs.Base.{
  ℕ, Bool, sym, ap, ◌*◌, ◌%◌, ◌^◌, ◌≡◌, refl, List, [], ◌∷◌, Option, none, some, u32,
}
use vgpu_rs.Dict.{Dict, Eq, nat_eq, fetch, assign}
use vgpu_rs.Cuda.{LimiterError, device_dim_not_configured, Answer, answer, error}
use vgpu_rs.Cuda.Devices.{DeviceDim, Limiter, new, assemble, with_indices, dedup, sort_texts}

unfoldable pub get_block_dimensions : Dict ℕ DeviceDim → ℕ → Answer (ℕ × ℕ × ℕ)
unfolding fetch
get_block_dimensions dims index = elim (fetch index dims) [
  | none ↦ error (device_dim_not_configured index)
  | some d ↦ answer (d.block_x, d.block_y, d.block_z)
]

unfoldable pub set_block_dimensions :
    Dict ℕ DeviceDim → ℕ → ℕ → ℕ → ℕ → Dict ℕ DeviceDim × Answer (Unit {0})
unfolding fetch assign
set_block_dimensions dims index x y z = elim (fetch index dims) [
  | none ↦ (dims, error (device_dim_not_configured index))
  | some d ↦ (assign index (record { block_x = x; block_y = y; block_z = z }) dims, answer tt)
]

-- The launches that are hooked: grid and block dimensions, or a width and a height of a grid.
pub data Launch : Type 0 where
  launch_kernel_ptsz launch_kernel launch_cooperative_kernel_ptsz launch_cooperative_kernel :
      ℕ → ℕ → ℕ → ℕ → ℕ → ℕ → Launch
  launch : Launch
  launch_grid launch_grid_async : ℕ → ℕ → Launch

-- Products of 32-bit words wrap around.
abbrev pub product : ℕ → ℕ → ℕ → ℕ
product x y z = u32 (u32 (x * y) * z)

abbrev pub blocks_of : Answer (ℕ × ℕ × ℕ) → ℕ
blocks_of (answer (x, y, z)) = product x y z
blocks_of (error e) = 1

-- The grids and the blocks that the rate limiter is given.
unfoldable pub launch_size : Dict ℕ DeviceDim → ℕ → Launch → ℕ × ℕ
unfolding get_block_dimensions
launch_size dims index (launch_kernel_ptsz gx gy gz bx by bz) = (product gx gy gz, product bx by bz)
launch_size dims index (launch_kernel gx gy gz bx by bz) = (product gx gy gz, product bx by bz)
launch_size dims index (launch_cooperative_kernel_ptsz gx gy gz bx by bz) =
    (product gx gy gz, product bx by bz)
launch_size dims index (launch_cooperative_kernel gx gy gz bx by bz) =
    (product gx gy gz, product bx by bz)
launch_size dims index launch = (1, blocks_of (get_block_dimensions dims index))
launch_size dims index (launch_grid width height) =
    (u32 (width * height), blocks_of (get_block_dimensions dims index))
launch_size dims index (launch_grid_async width height) =
    (u32 (width * height), blocks_of (get_block_dimensions dims index))

-- What the rate limiter is asked: the device, the grids and the blocks; nothing if the context has no
-- device.
unfoldable pub limiter_call : Dict ℕ DeviceDim → Answer ℕ → Launch → Option (ℕ × ℕ × ℕ)
unfolding launch_size
limiter_call dims (error e) l = none
limiter_call dims (answer index) l =
    let (grids, blocks) = launch_size dims index l in some (index, grids, blocks)

-- `cuFuncSetBlockShape`.
unfoldable pub set_block_shape : Dict ℕ DeviceDim → Answer ℕ → ℕ → ℕ → ℕ → Dict ℕ DeviceDim
unfolding set_block_dimensions
set_block_shape dims (error e) x y z = dims
set_block_shape dims (answer index) x y z = (set_block_dimensions dims index x y z).0

pub record BlockShape : Type 0 where
  pub device : Answer ℕ
  pub x : ℕ
  pub y : ℕ
  pub z : ℕ

unfoldable pub set_block_shapes : List BlockShape → Dict ℕ DeviceDim → Dict ℕ DeviceDim
unfolding set_block_shape
set_block_shapes [] dims = dims
set_block_shapes (shape ∷ shapes) dims =
    set_block_shapes shapes (set_block_shape dims shape.device shape.x shape.y shape.z)

no_shape : (device : Answer ℕ) (x y z : ℕ) → set_block_shape [] device x y z ≡ []
unfolding set_block_shape set_block_dimensions fetch
no_shape (error e) x y z = refl
no_shape (answer index) x y z = refl

no_shapes : (shapes : List BlockShape) → set_block_shapes shapes [] ≡ []
unfolding set_block_shapes
no_shapes [] = refl
no_shapes (shape ∷ shapes) = rw (no_shape shape.device shape.x shape.y shape.z) (no_shapes shapes)

starts_without_dims :
    (gpus : Answer (List (ℕ × List ℕ))) (compute_shard : Bool) (isolation : Option (List ℕ))
    (limiter : Limiter)
    → assemble compute_shard isolation gpus ≡ answer limiter
    → limiter.current_devices_dim ≡ []
unfolding assemble
starts_without_dims (answer gpus) compute_shard isolation limiter made =
    let given : Answer Limiter → Dict ℕ DeviceDim =
      λ a. elim a [ error e ↦ [] | answer l ↦ l.current_devices_dim ] in
    sym (ap given made)
starts_without_dims (error e) compute_shard isolation limiter made = cc

-- A limiter that `new` makes has no block dimensions, and whatever shapes are set it has none: a
-- launch that relies on a shape that was set is counted as one block.
pub launch_size-set_block_shapes :
    (index_of : List ℕ → Answer ℕ) (gpu_uuids : List (List ℕ)) (compute_shard : Bool)
    (isolation : Option (List ℕ)) (limiter : Limiter)
    → new index_of gpu_uuids compute_shard isolation ≡ answer limiter
    → (shapes : List BlockShape) (index width height : ℕ)
    → let dims = set_block_shapes shapes limiter.current_devices_dim in
      (launch_size dims index launch ≡ (1, 1))
      × (launch_size dims index (launch_grid width height) ≡ (u32 (width * height), 1))
      × (launch_size dims index (launch_grid_async width height) ≡ (u32 (width * height), 1))
unfolding launch_size get_block_dimensions fetch new
launch_size-set_block_shapes index_of gpu_uuids compute_shard isolation limiter made shapes index
      width height =
    rw
      (
        starts_without_dims (with_indices index_of (dedup (sort_texts gpu_uuids))) compute_shard
            isolation limiter made,
        no_shapes shapes,
      )
      (refl, refl, refl)
