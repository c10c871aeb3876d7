-- ===== src/Bitmap/Examples.antt =====
-- Bitmaps of two words, at which the theorems apply.
use vgpu_rs.Base.{ℕ, ◌≡◌, true, some, arith, ◌==◌, if◌then◌else◌, ok}
use vgpu_rs.Bitmap.{Bitmap, new, test_and_set}
use vgpu_rs.Bitmap.Bits.{IsBitmap, bit, new-IsBitmap, write_bit}
use vgpu_rs.Bitmap.Search.{Finds, find_next_zero-Finds}

marking :
    (bitmap : Bitmap) × (test_and_set (new 2) 40 true ≡ ok (bitmap, bit (new 2) 40))
    × IsBitmap 2 bitmap
    × ((j : ℕ) → bit bitmap j ≡ (if 40 == j then true else bit (new 2) j))
marking = write_bit (new 2) 40 true (new-IsBitmap 2) (omega arith)

-- The bitmap in which bit 40 is set.
abbrev marked : Bitmap
marked = marking.0

find_next_zero-Finds_example : Finds marked 2 40 (some 50)
find_next_zero-Finds_example =
    find_next_zero-Finds marked 40 (some 50) marking.2 (omega arith) (omega arith)
