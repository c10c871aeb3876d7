-- ===== src/Bitmap/Bits.antt =====
-- Reads and writes of a bitmap, by its bits.
use vgpu_rs.Base.{
  ℕ, zero, suc, ◌-◌, ◌*◌, ◌/◌, ◌%◌, ◌<◌, ◌≡◌, refl, sym, ap, ◌∙◌, inl, inr, Bool, true, false, some,
  arith, length, get_elem?, get_or, set, replicate, All, length-set, length-replicate, get_or-set,
  get_elem?-get_or, All-get_or, All-set, All-replicate, Bool-cases, ◌==◌, if◌then◌else◌, ok,
}
use vgpu_rs.Bitmap.Words.{
  Word, word_bits, IsWord, zero_word, and_word, or_word, not_word, word_eq, single, take-single,
  get_or-single, word_eq-and_word-single, get_or-or_word, get_or-and_word, get_or-not_word,
  length-or_word, length-and_word, length-not_word, length-single,
}
use vgpu_rs.Bitmap.{Bitmap, new, bit_mask, test, test_and_set}

-- `n` rows of 64 bits.
pub record IsBitmap (n : ℕ) (bitmap : Bitmap) : Type 0 where
  pub rows : length bitmap ≡ n
  pub words : All IsWord bitmap

abbrev pub row_of : Bitmap → ℕ → Word
row_of bitmap i = get_or bitmap (i / word_bits) zero_word

-- The bit at an offset.
unfoldable pub bit : Bitmap → ℕ → Bool
bit bitmap i = get_or (row_of bitmap i) (i % word_bits) false

pub bit_mask_lem : (i : ℕ) → bit_mask i ≡ single (i % word_bits) (63 - i % word_bits)
unfolding bit_mask
bit_mask_lem i = take-single 64 (i % word_bits) (63 - i % word_bits) 63 (omega arith) (omega arith)

length-bit_mask : (i : ℕ) → length (bit_mask i) ≡ word_bits
length-bit_mask i =
    ap length (bit_mask_lem i) ∙ length-single (i % word_bits) (63 - i % word_bits) ∙ omega arith

get_or-bit_mask : (i k : ℕ) → get_or (bit_mask i) k false ≡ (k == i % word_bits)
get_or-bit_mask i k = rw (bit_mask_lem i) (get_or-single (i % word_bits) (63 - i % word_bits) k)

module _ {n : ℕ} (bitmap : Bitmap) (valid : IsBitmap n bitmap) (i : ℕ) (h : i < n * word_bits) where
  row_lt : i / word_bits < length bitmap
  row_lt = omega (arith, valid.rows)

  row-IsWord : length (row_of bitmap i) ≡ word_bits
  row-IsWord = All-get_or IsWord bitmap (i / word_bits) zero_word valid.words row_lt

  row_found : get_elem? bitmap (i / word_bits) ≡ some (row_of bitmap i)
  row_found = get_elem?-get_or bitmap (i / word_bits) zero_word row_lt

  masked_row : word_eq (and_word (row_of bitmap i) (bit_mask i)) (bit_mask i) ≡ bit bitmap i
  unfolding bit
  masked_row = rw (bit_mask_lem i) (
      word_eq-and_word-single (row_of bitmap i) (i % word_bits) (63 - i % word_bits)
        (row-IsWord ∙ omega arith))

  -- A read in range does not panic, and gives the bit.
  pub test_lem : test bitmap i ≡ ok (bit bitmap i)
  unfolding test
  test_lem = rw (row_found, test) (ap ok masked_row)

  abbrev pub written_row : Bool → Word
  written_row val =
      if val
      then or_word (row_of bitmap i) (bit_mask i)
      else and_word (row_of bitmap i) (not_word (bit_mask i))

  -- The bitmap after a write.
  abbrev pub written : Bool → Bitmap
  written val = set bitmap (i / word_bits) (written_row val)

  -- A write in range does not panic, and returns the bit as it was.
  pub test_and_set_lem : (val : Bool) → test_and_set bitmap i val ≡ ok (written val, bit bitmap i)
  unfolding test_and_set
  test_and_set_lem val = rw (row_found, test_and_set) (ap (λ b. ok (written val, b)) masked_row)

  length-not_mask : length (not_word (bit_mask i)) ≡ word_bits
  length-not_mask = length-not_word (bit_mask i) ∙ length-bit_mask i

  written_row-IsWord : (val : Bool) → IsWord (written_row val)
  written_row-IsWord true = length-or_word _ _ (row-IsWord ∙ sym (length-bit_mask i)) ∙ row-IsWord
  written_row-IsWord false = length-and_word _ _ (row-IsWord ∙ sym length-not_mask) ∙ row-IsWord

  pub written-IsBitmap : (val : Bool) → IsBitmap n (written val)
  written-IsBitmap val = record {
    rows = length-set bitmap _ _ ∙ valid.rows;
    words = All-set IsWord bitmap _ _ valid.words (written_row-IsWord val);
  }

  get_or-written_row :
      (val : Bool) (k : ℕ)
      → k < word_bits
      → get_or (written_row val) k false
        ≡ (if i % word_bits == k then val else get_or (row_of bitmap i) k false)
  get_or-written_row true k kh =
      get_or-or_word _ _ k (row-IsWord ∙ sym (length-bit_mask i))
      ∙ rw (get_or-bit_mask i k) (ground arith)
  get_or-written_row false k kh =
      get_or-and_word _ _ k (row-IsWord ∙ sym length-not_mask)
      ∙ rw (get_or-not_word (bit_mask i) k (omega (arith, length-bit_mask i)), get_or-bit_mask i k)
          (ground arith)

  same_row : (j : ℕ) → j / word_bits ≡ i / word_bits → (i == j) ≡ (i % word_bits == j % word_bits)
  same_row j e = ground arith

  -- A write changes the bit at its offset, and no other.
  pub bit-written :
      (val : Bool) (j : ℕ) → bit (written val) j ≡ (if i == j then val else bit bitmap j)
  unfolding bit
  bit-written val j = elim (Bool-cases (i / word_bits == j / word_bits)) [
    | inl e ↦
        let row : get_or (written val) (j / word_bits) zero_word ≡ written_row val =
          get_or-set bitmap (i / word_bits) (j / word_bits) _ zero_word row_lt ∙ rw e in
        let same : j / word_bits ≡ i / word_bits = ground arith in
        rw (row, get_or-written_row val (j % word_bits) (omega arith), same_row j same, same)
    | inr e ↦
        let row : get_or (written val) (j / word_bits) zero_word ≡ row_of bitmap j =
          get_or-set bitmap (i / word_bits) (j / word_bits) _ zero_word row_lt ∙ rw e in
        let ne : (i == j) ≡ false = ground arith in rw (row, ne)
  ]

pub new-IsBitmap : (n : ℕ) → IsBitmap n (new n)
unfolding new
new-IsBitmap n = record {
  rows = length-replicate n zero_word;
  words = All-replicate IsWord n zero_word refl;
}

-- A new bitmap has no bit set.
pub bit-new : (n i : ℕ) → bit (new n) i ≡ false
unfolding new bit
bit-new n i = row_zero n (i / word_bits)
  where
    zeros : (m k : ℕ) → get_or (replicate m false) k false ≡ false
    zeros zero k = refl
    zeros (suc m) zero = refl
    zeros (suc m) (suc k) = zeros m k

    row_zero :
        (n r : ℕ)
        → get_or (get_or (replicate n zero_word) r zero_word) (i % word_bits) false ≡ false
    row_zero zero r = zeros 64 (i % word_bits)
    row_zero (suc n) zero = zeros 64 (i % word_bits)
    row_zero (suc n) (suc r) = row_zero n r

-- Of a valid bitmap, a write of a bit in range does not panic. It returns the bit as it was, and
-- leaves a valid bitmap in which this bit has the new value and every other bit is as it was.
pub write_bit :
    {n : ℕ} (bitmap : Bitmap) (i : ℕ) (val : Bool)
    → IsBitmap n bitmap
    → i < n * word_bits
    → (bitmap' : Bitmap) × (test_and_set bitmap i val ≡ ok (bitmap', bit bitmap i))
      × IsBitmap n bitmap'
      × ((j : ℕ) → bit bitmap' j ≡ (if i == j then val else bit bitmap j))
write_bit bitmap i val valid h = (
  written bitmap valid i h val,
  test_and_set_lem bitmap valid i h val,
  written-IsBitmap bitmap valid i h val,
  bit-written bitmap valid i h val,
)
