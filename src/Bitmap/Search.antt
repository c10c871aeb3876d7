-- ===== src/Bitmap/Search.antt =====
-- What `find_next_zero` finds: the first bit from the offset on that is not set, before the end.
use vgpu_rs.Base.{
  ℕ, ◌+◌, ◌*◌, ◌/◌, ◌%◌, ◌^◌, ◌≤◌, ◌<◌, min, ◌≡◌, ◌∙◌, inl, inr, Bool, true, false, Option, none,
  some, arith, length, take, drop, get_elem?-get_or, take-length, Bool-cases, leb, ◌==◌,
  if◌then◌else◌, ok, u32,
}
use vgpu_rs.Bitmap.Words.{word_bits, zero_word, max_word, word_eq, leading_ones}
use vgpu_rs.Bitmap.{
  Bitmap, find_in_row, find_in_rows, find_from_column, before_end, div_round_up, find_next_zero,
}
use vgpu_rs.Bitmap.Bits.{IsBitmap, bit}
use vgpu_rs.Bitmap.Rows.{FirstFalse, FirstFalse-extend}
use vgpu_rs.Bitmap.Columns.{rows_from, masked, in_row_full, in_row_found}

abbrev pub end_of : ℕ → Option ℕ → ℕ
end_of hi none = hi
end_of hi (some end) = min hi end

FirstFalse-before_end :
    (f : ℕ → Bool) (lo hi : ℕ) (end r : Option ℕ)
    → FirstFalse f lo hi r
    → FirstFalse f lo (end_of hi end) (before_end end r)
unfolding before_end
FirstFalse-before_end f lo hi none none first = first
FirstFalse-before_end f lo hi (some end) none first = λ j a b. first j a (omega arith)
FirstFalse-before_end f lo hi none (some z) first = first
FirstFalse-before_end f lo hi (some end) (some z) first = elim (Bool-cases (leb end z)) [
  | inl past ↦ rw past (λ j a b. first.3 j a (ground arith))
  | inr found ↦ rw found (first.0, ground (arith, first.1), first.2, first.3)
]

abbrev pub Finds : Bitmap → ℕ → ℕ → Option ℕ → Type 0
Finds bitmap n offset end =
    let hi = end_of (n * word_bits) end in
    (r : Option ℕ) × (find_next_zero bitmap offset end ≡ ok r) × FirstFalse (bit bitmap) offset hi r

aligned_start :
    (offset : ℕ)
    → (offset % word_bits == 0) ≡ true
    → div_round_up offset word_bits * word_bits ≡ offset
unfolding div_round_up
aligned_start offset e = ground arith

inside_start :
    (offset : ℕ)
    → (offset % word_bits == 0) ≡ false
    → div_round_up offset word_bits ≡ offset / word_bits + 1
unfolding div_round_up
inside_start offset e = ground arith

column_aligned :
    (bitmap : Bitmap) (offset : ℕ)
    → (offset % word_bits == 0) ≡ true
    → find_from_column bitmap offset ≡ ok none
unfolding find_from_column
column_aligned bitmap offset e = rw e

module _ {n : ℕ} (bitmap : Bitmap) (valid : IsBitmap n bitmap)
    (small : n * word_bits ≤ 2 ^ 32) where
  column_inside :
      (offset : ℕ) (h : offset < n * word_bits)
      → (offset % word_bits == 0) ≡ false
      → find_from_column bitmap offset
        ≡ ok (
            if word_eq (masked bitmap valid small offset h) max_word
            then none
            else some (
                u32 (
                  offset / word_bits * word_bits
                  + leading_ones (masked bitmap valid small offset h))))
  unfolding find_from_column find_in_row
  column_inside offset h e =
      let found =
        get_elem?-get_or bitmap (offset / word_bits) zero_word (omega (arith, valid.rows)) in
      rw (e, found, find_from_column)

  all_rows : take (u32 (length bitmap)) bitmap ≡ bitmap
  all_rows = take-length _ bitmap (omega (arith, valid.rows))

  -- The column's result, or the first row after it.
  abbrev joined : ℕ → Option ℕ → Option ℕ
  joined start none = find_in_rows (drop start bitmap) start
  joined start (some nz) = some nz

  finds :
      (offset : ℕ) (end in_row : Option ℕ)
      → find_from_column bitmap offset ≡ ok in_row
      → FirstFalse
          (bit bitmap)
          offset
          (n * word_bits)
          (joined (div_round_up offset word_bits) in_row)
      → Finds bitmap n offset end
  unfolding find_next_zero
  finds offset end none column first = (
    before_end end (joined (div_round_up offset word_bits) none),
    rw (column, all_rows, find_next_zero),
    FirstFalse-before_end _ offset _ end _ first,
  )
  finds offset end (some nz) column first = (
    before_end end (some nz),
    rw (column, find_next_zero),
    FirstFalse-before_end _ offset _ end _ first,
  )

-- Of a valid bitmap of `n` rows, searched from an offset inside it, `find_next_zero` returns, and
-- what it returns is the first bit that is not set from the offset on and before the end (if one
-- is given) and before the last row's end; it is `none` exactly if there is no such bit.
pub find_next_zero-Finds :
    {n : ℕ} (bitmap : Bitmap) (offset : ℕ) (end : Option ℕ)
    → IsBitmap n bitmap
    → n * word_bits ≤ 2 ^ 32
    → offset < n * word_bits
    → Finds bitmap n offset end
find_next_zero-Finds {n} bitmap offset end valid small h =
    elim (Bool-cases (offset % word_bits == 0)) [
      | inl aligned ↦
          let at : div_round_up offset word_bits * word_bits ≡ offset =
            aligned_start offset aligned in
          finds bitmap valid small offset end none (column_aligned bitmap offset aligned)
            (rw at at (rows_from bitmap valid small (div_round_up offset word_bits) (omega arith)))
      | inr inside ↦
          let column = column_inside bitmap valid small offset h inside in
          let next = inside_start offset inside in
          elim (Bool-cases (word_eq (masked bitmap valid small offset h) max_word)) [
            | inl full ↦ finds bitmap valid small offset end none (column ∙ rw full) (
                FirstFalse-extend _ offset (div_round_up offset word_bits * word_bits) _ _
                  (omega arith)
                  (λ j a b. in_row_full bitmap valid small offset h full j a (omega arith))
                  (rows_from bitmap valid small (div_round_up offset word_bits) (omega arith)))
            | inr free ↦
                finds bitmap valid small offset end
                  (some (
                    u32 (
                      offset / word_bits * word_bits
                      + leading_ones (masked bitmap valid small offset h))))
                  (column ∙ rw free) (in_row_found bitmap valid small offset h free)
          ]
    ]
