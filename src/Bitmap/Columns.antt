-- ===== src/Bitmap/Columns.antt =====
-- The search of `find_next_zero` inside of a word, and in the words after it.
use vgpu_rs.Base.{
  ℕ, zero, suc, ◌+◌, ◌-◌, ◌*◌, ◌/◌, ◌%◌, ◌^◌, ◌≤◌, ◌<◌, ◌≡◌, refl, sym, ap, ◌∙◌, true, false, ◌||◌,
  ◌++◌, Option, none, some, arith, length, get_or, drop, replicate, length-replicate, length-append,
  get_or-drop, length-drop, All-get_or, All-drop, ltb, u32,
}
use vgpu_rs.Bitmap.Words.{
  Word, word_bits, IsWord, zero_word, max_word, or_word, word_eq, shl, low_ones, leading_ones,
  get_or-or_word, length-or_word,
}
use vgpu_rs.Bitmap.{Bitmap, find_in_rows}
use vgpu_rs.Bitmap.Bits.{IsBitmap, bit, row_of}
use vgpu_rs.Bitmap.Rows.{
  FirstFalse, leading_ones-true, leading_ones-false, leading_ones-lt, all_ones, bit_from,
  find_in_rows_lem,
}

-- The mask of the columns before `col`.
abbrev pub taken : ℕ → Word
taken col = shl (low_ones col) (word_bits - col)

pub drop-zeros : (n : ℕ) (w : Word) → drop n (replicate n false ++ w) ≡ w
drop-zeros zero w = refl
drop-zeros (suc n) w = drop-zeros n w

pub taken_lem : (col : ℕ) → taken col ≡ replicate col true ++ replicate (word_bits - col) false
taken_lem col = rw (drop-zeros (word_bits - col) (replicate col true))

pub get_or-ones : (c m k : ℕ) → get_or (replicate c true ++ replicate m false) k false ≡ ltb k c
get_or-ones zero zero k = ground arith
get_or-ones zero (suc m) zero = ground arith
get_or-ones zero (suc m) (suc k) = get_or-ones zero m k ∙ ground arith
get_or-ones (suc c) m zero = ground arith
get_or-ones (suc c) m (suc k) = ground (arith, get_or-ones c m k)

pub length-taken : (col : ℕ) → col < word_bits → length (taken col) ≡ word_bits
length-taken col h = omega (
  arith,
  ap length (taken_lem col),
  length-append (replicate col true) (replicate (word_bits - col) false),
  length-replicate col true,
  length-replicate (word_bits - col) false,
)

module _ {n : ℕ} (bitmap : Bitmap) (valid : IsBitmap n bitmap)
    (small : n * word_bits ≤ 2 ^ 32) where
  -- The rows from `s` on are those of `drop s`.
  pub bit_from-drop : (s j : ℕ) → s * word_bits ≤ j → bit_from (drop s bitmap) s j ≡ bit bitmap j
  unfolding bit_from bit
  bit_from-drop s j h =
      let at : s + (j / word_bits - s) ≡ j / word_bits = omega arith in
      ap (λ w. get_or w (j % word_bits) false)
        (get_or-drop s bitmap (j / word_bits - s) zero_word
          ∙ ap (λ i. get_or bitmap i zero_word) at)

  pub rows_from :
      (s : ℕ)
      → s ≤ n
      → FirstFalse (bit bitmap) (s * word_bits) (n * word_bits) (find_in_rows (drop s bitmap) s)
  rows_from s h =
      let len : (s + length (drop s bitmap)) * word_bits ≡ n * word_bits =
        omega (arith, length-drop s bitmap, valid.rows) in
      convert _ (
        rw len at
          (find_in_rows_lem (drop s bitmap) s (All-drop IsWord s bitmap valid.words) (omega arith)))
    where
      convert :
          (r : Option ℕ)
          → FirstFalse (bit_from (drop s bitmap) s) (s * word_bits) (n * word_bits) r
          → FirstFalse (bit bitmap) (s * word_bits) (n * word_bits) r
      convert none f = λ j a b. sym (bit_from-drop s j a) ∙ f j a b
      convert (some z) f = (
        f.0,
        f.1,
        sym (bit_from-drop s z f.0) ∙ f.2,
        λ j a b. sym (bit_from-drop s j a) ∙ f.3 j a b,
      )

  module _ (offset : ℕ) (h : offset < n * word_bits) where
    abbrev pub masked : Word
    masked = or_word (row_of bitmap offset) (taken (offset % word_bits))

    pub row-length : length (row_of bitmap offset) ≡ word_bits
    row-length =
        All-get_or IsWord bitmap (offset / word_bits) zero_word valid.words
          (omega (arith, valid.rows))

    pub masked-bit :
        (k : ℕ)
        → get_or masked k false
          ≡ (get_or (row_of bitmap offset) k false || ltb k (offset % word_bits))
    masked-bit k =
        get_or-or_word _ _ k (row-length ∙ sym (length-taken (offset % word_bits) (omega arith)))
        ∙ rw (
          taken_lem (offset % word_bits),
          get_or-ones (offset % word_bits) (word_bits - offset % word_bits) k,
        )

    pub masked-length : length masked ≡ word_bits
    masked-length =
        length-or_word _ _ (row-length ∙ sym (length-taken (offset % word_bits) (omega arith)))
        ∙ row-length

    -- A bit of the offset's row, from the offset on, is the bit of the masked row.
    pub bit-masked :
        (j : ℕ)
        → offset ≤ j
        → j / word_bits ≡ offset / word_bits
        → bit bitmap j ≡ get_or masked (j % word_bits) false
    unfolding bit
    bit-masked j le e = rw e (ground (arith, masked-bit (j % word_bits)))

    pub in_row_full :
        word_eq masked max_word ≡ true
        → (j : ℕ) → offset ≤ j
        → j < (offset / word_bits + 1) * word_bits
        → bit bitmap j ≡ true
    in_row_full full j a b =
        bit-masked j a (omega arith) ∙ all_ones masked 64 (j % word_bits) full (omega arith)

    pub in_row_found :
        word_eq masked max_word ≡ false
        → FirstFalse
            (bit bitmap)
            offset
            (n * word_bits)
            (some (u32 (offset / word_bits * word_bits + leading_ones masked)))
    in_row_found free =
        let lt : leading_ones masked < 64 = leading_ones-lt masked 64 masked-length free in
        let ge : offset % word_bits ≤ leading_ones masked = column_le (leading_ones-false masked) in
        let z : u32 (offset / word_bits * word_bits + leading_ones masked)
            ≡ offset / word_bits * word_bits + leading_ones masked =
          omega arith in
        let col : (offset / word_bits * word_bits + leading_ones masked) % word_bits
            ≡ leading_ones masked =
          omega arith in
        rw z (
          omega arith,
          omega arith,
          bit-masked _ (omega arith) (omega arith) ∙ rw col (leading_ones-false masked),
          λ j a b.
              bit-masked j a (omega arith) ∙ leading_ones-true masked (j % word_bits) (omega arith),
        )
      where
        column_le :
            get_or masked (leading_ones masked) false ≡ false
            → offset % word_bits ≤ leading_ones masked
        column_le e = ground (arith, masked-bit (leading_ones masked))
