-- ===== src/Device/Bytes.antt =====
-- The fixed-size UUID field, the same in both layouts.
use vgpu_rs.Base.{
  ℕ, ◌+◌, ◌-◌, min, List, [], ◌∷◌, ◌++◌, length, take, drop, replicate, ◌==◌, if◌then◌else◌,
}

-- `MAX_UUID_LEN`
abbrev pub max_uuid_len : ℕ
max_uuid_len = 64

-- `write_bytes(ptr, 0, MAX_UUID_LEN)`, then `copy_nonoverlapping(bytes, ptr, copy_len)`.
unfoldable pub store_uuid : List ℕ → List ℕ
store_uuid bytes =
    let copy_len = min (length bytes) (max_uuid_len - 1) in
    take copy_len bytes ++ drop copy_len (replicate max_uuid_len 0)

-- `iter().position(|&b| b == 0).unwrap_or(MAX_UUID_LEN - 1)`, and the bytes before it.
unfoldable pub null_pos : List ℕ → ℕ → ℕ
null_pos [] i = max_uuid_len - 1
null_pos (b ∷ bytes) i = let rest = null_pos bytes (i + 1) in if b == 0 then i else rest

unfoldable pub load_uuid : List ℕ → List ℕ
load_uuid bytes = take (null_pos bytes 0) bytes
