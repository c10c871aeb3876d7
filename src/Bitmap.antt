-- ===== src/Bitmap.antt =====
-- crates/utils/src/shared_memory/bitmap.rs: a bitmap over an array of 64-bit words.
--
-- `Words` models the word operations that the file uses, and this file the methods of `Bitmap`; a row
-- that does not exist panics, as `self.0[idx]` does. `Bits` relates reads and writes to the bits,
-- `Search` says what `find_next_zero` finds.
pub mod Words
pub mod Bits
pub mod Rows
pub mod Columns
pub mod Search
mod Examples
use vgpu_rs.Base.{
  ℕ, zero, suc, ◌+◌, ◌-◌, ◌*◌, ◌/◌, ◌%◌, ◌≡◌, refl, Bool, true, false, not, List, [], ◌∷◌, ◌++◌,
  Option, none, some, length, get_elem?, set, take, drop, replicate, leb, ◌==◌, if◌then◌else◌, u32,
  Outcome, ok, or_panic, ◌>>=◌,
}
use Words.{
  Word, word_bits, zero_word, max_word, one_word, and_word, or_word, not_word, word_eq, shl, shr,
  low_ones, leading_ones,
}

-- `Bitmap<N>([u64; N])`
abbrev pub Bitmap : Type 0
Bitmap = List Word

-- `Bitmap::<N>::new()`
pub new : ℕ → Bitmap
new n = replicate n zero_word

pub bit_mask : ℕ → Word
bit_mask offset = shr (shl one_word (word_bits - 1)) (offset % word_bits)

pub test : Bitmap → ℕ → Outcome Bool
unfolding bit_mask
test bitmap offset = do
  let mask = bit_mask offset
  row ← or_panic (get_elem? bitmap (offset / word_bits))
  ok (word_eq (and_word row mask) mask)

-- The new bitmap, and the bit as it was before.
pub test_and_set : Bitmap → ℕ → Bool → Outcome (Bitmap × Bool)
unfolding bit_mask
test_and_set bitmap offset val = do
  let mask = bit_mask offset
  let idx = offset / word_bits
  row ← or_panic (get_elem? bitmap idx)
  let row' = if val then or_word row mask else and_word row (not_word mask)
  ok (set bitmap idx row', word_eq (and_word row mask) mask)

-- `div_round_up!(offset, u64::BITS)`
pub div_round_up : ℕ → ℕ → ℕ
div_round_up n d = (n + d - 1) / d

-- `Some(row * u64::BITS + ones)`, in `u32`
abbrev pub position : ℕ → ℕ → ℕ
position row ones = u32 (row * word_bits + ones)

-- The search in the middle of a row: the bits before the column are masked as taken.
pub find_in_row : Word → ℕ → ℕ → Option ℕ
find_in_row word row col =
    let num = or_word word (shl (low_ones col) (word_bits - col)) in
    if word_eq num max_word then none else some (position row (leading_ones num))

-- `for i in div_round_up!(offset, 64)..len`, over the rows that are left.
pub find_in_rows : List Word → ℕ → Option ℕ
find_in_rows [] i = none
find_in_rows (num ∷ rows) i =
    let rest = find_in_rows rows (i + 1) in
    if word_eq num zero_word
    then some (u32 (i * word_bits))
    else (if word_eq num max_word then rest else some (position i (leading_ones num)))

pub find_from_column : Bitmap → ℕ → Outcome (Option ℕ)
unfolding find_in_row
find_from_column bitmap offset =
    let col = offset % word_bits in
    let row = offset / word_bits in
    if col == 0
    then ok none
    else (do word ← or_panic (get_elem? bitmap row); ok (find_in_row word row col))

-- `next_zero.and_then(|nz| match end { Some(end) if nz >= end => None, _ => Some(nz) })`
pub before_end : Option ℕ → Option ℕ → Option ℕ
before_end end none = none
before_end none (some nz) = some nz
before_end (some end) (some nz) = if leb end nz then none else some nz

pub find_next_zero : Bitmap → ℕ → Option ℕ → Outcome (Option ℕ)
find_next_zero bitmap offset end = do
  in_row ← find_from_column bitmap offset
  let start = div_round_up offset word_bits
  let rest = find_in_rows (drop start (take (u32 (length bitmap)) bitmap)) start
  ok (before_end end (elim in_row [ none ↦ rest | some nz ↦ some nz ]))
