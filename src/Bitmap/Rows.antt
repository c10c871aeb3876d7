-- ===== src/Bitmap/Rows.antt =====
-- The search over whole rows finds the first bit that is not set.
use vgpu_rs.Base.{
  ℕ, zero, suc, ◌+◌, ◌-◌, ◌*◌, ◌/◌, ◌%◌, ◌^◌, ◌≤◌, ◌<◌, ◌≡◌, refl, ◌∙◌, inl, inr, Bool, true, false,
  List, [], ◌∷◌, Option, none, some, arith, length, get_or, replicate, All, Bool-cases, ltb, u32,
}
use vgpu_rs.Bitmap.Words.{Word, word_bits, IsWord, zero_word, max_word, word_eq, leading_ones}
use vgpu_rs.Bitmap.{position, find_in_rows}

-- The first position in `lo ≤ j < hi` at which `f` is false.
abbrev pub FirstFalse : (ℕ → Bool) → ℕ → ℕ → Option ℕ → Type 0
FirstFalse f lo hi none = (j : ℕ) → lo ≤ j → j < hi → f j ≡ true
FirstFalse f lo hi (some z) =
    (lo ≤ z) × (z < hi) × (f z ≡ false) × ((j : ℕ) → lo ≤ j → j < z → f j ≡ true)

pub FirstFalse-extend :
    (f : ℕ → Bool) (lo mid hi : ℕ) (r : Option ℕ)
    → lo ≤ mid
    → ((j : ℕ) → lo ≤ j → j < mid → f j ≡ true)
    → FirstFalse f mid hi r
    → FirstFalse f lo hi r
FirstFalse-extend f lo mid hi none h below first = λ j a b. elim (Bool-cases (ltb j mid)) [
  | inl e ↦ below j a (ground arith)
  | inr e ↦ first j (ground arith) b
]
FirstFalse-extend f lo mid hi (some z) h below first = (
  omega (arith, first.0),
  first.1,
  first.2,
  λ j a b. elim (Bool-cases (ltb j mid)) [
    | inl e ↦ below j a (ground arith)
    | inr e ↦ first.3 j (ground arith) b
  ],
)

-- One word: its first zero is where its leading ones end.
pub leading_ones-true : (w : Word) (j : ℕ) → j < leading_ones w → get_or w j false ≡ true
leading_ones-true [] j h = elim h [ ]
leading_ones-true (true ∷ w) zero h = refl
leading_ones-true (true ∷ w) (suc j) h = leading_ones-true w j (omega arith)
leading_ones-true (false ∷ w) j h = elim h [ ]

pub leading_ones-false : (w : Word) → get_or w (leading_ones w) false ≡ false
leading_ones-false [] = refl
leading_ones-false (true ∷ w) = leading_ones-false w
leading_ones-false (false ∷ w) = refl

pub leading_ones-lt :
    (w : Word) (m : ℕ) → length w ≡ m → word_eq w (replicate m true) ≡ false → leading_ones w < m
leading_ones-lt [] zero e h = cc
leading_ones-lt [] (suc m) e h = absurd (omega arith)
leading_ones-lt (a ∷ w) zero e h = absurd (omega arith)
leading_ones-lt (true ∷ w) (suc m) e h = omega (arith, leading_ones-lt w m (omega arith) h)
leading_ones-lt (false ∷ w) (suc m) e h = omega arith

pub all_ones :
    (w : Word) (m j : ℕ) → word_eq w (replicate m true) ≡ true → j < m → get_or w j false ≡ true
all_ones [] (suc m) j h lt = cc
all_ones w zero j h lt = absurd (omega arith)
all_ones (true ∷ w) (suc m) zero h lt = refl
all_ones (true ∷ w) (suc m) (suc j) h lt = all_ones w m j h (omega arith)
all_ones (false ∷ w) (suc m) j h lt = cc

all_zeros : (w : Word) (m : ℕ) → word_eq w (replicate m false) ≡ true → get_or w 0 false ≡ false
all_zeros [] m h = refl
all_zeros (true ∷ w) zero h = cc
all_zeros (true ∷ w) (suc m) h = cc
all_zeros (false ∷ w) m h = refl

-- The bit `j` of the rows `ws`, the first of which has the number `i`.
unfoldable pub bit_from : List Word → ℕ → ℕ → Bool
bit_from ws i j = get_or (get_or ws (j / word_bits - i) zero_word) (j % word_bits) false

bit_from_first :
    (w : Word) (ws : List Word) (i j : ℕ)
    → j / word_bits ≡ i
    → bit_from (w ∷ ws) i j ≡ get_or w (j % word_bits) false
unfolding bit_from
bit_from_first w ws i j e = let z : j / word_bits - i ≡ 0 = omega arith in rw z

bit_from_later :
    (w : Word) (ws : List Word) (i j : ℕ)
    → i < j / word_bits
    → bit_from (w ∷ ws) i j ≡ bit_from ws (i + 1) j
unfolding bit_from
bit_from_later w ws i j h =
    let z : j / word_bits - i ≡ suc (j / word_bits - (i + 1)) = omega arith in rw z

module _ (w : Word) (ws : List Word) (i : ℕ) where
  full_row :
      word_eq w max_word ≡ true
      → (j : ℕ) → i * word_bits ≤ j
      → j < (i + 1) * word_bits
      → bit_from (w ∷ ws) i j ≡ true
  full_row h j lo hi =
      bit_from_first w ws i j (omega arith) ∙ all_ones w 64 (j % word_bits) h (omega arith)

  FirstFalse-next :
      (hi : ℕ) (r : Option ℕ)
      → FirstFalse (bit_from ws (i + 1)) ((i + 1) * word_bits) hi r
      → FirstFalse (bit_from (w ∷ ws) i) ((i + 1) * word_bits) hi r
  FirstFalse-next hi none first = λ j a b. bit_from_later w ws i j (omega arith) ∙ first j a b
  FirstFalse-next hi (some z) first = (
    first.0,
    first.1,
    bit_from_later w ws i z (omega (arith, first.0)) ∙ first.2,
    λ j a b. bit_from_later w ws i j (omega arith) ∙ first.3 j a b,
  )

  -- A row that is not full has its first zero after its leading ones.
  FirstFalse-leading :
      (hi : ℕ)
      → IsWord w
      → word_eq w max_word ≡ false
      → (i + 1) * word_bits ≤ hi
      → hi ≤ 2 ^ 32
      → FirstFalse (bit_from (w ∷ ws) i) (i * word_bits) hi (some (position i (leading_ones w)))
  FirstFalse-leading hi word h room small =
      let lt : leading_ones w < 64 = leading_ones-lt w 64 word h in
      let at : u32 (i * word_bits + leading_ones w) ≡ i * word_bits + leading_ones w =
        omega arith in
      let col : (i * word_bits + leading_ones w) % word_bits ≡ leading_ones w = omega arith in
      rw at (
        omega arith,
        omega arith,
        bit_from_first w ws i _ (omega arith) ∙ rw col (leading_ones-false w),
        λ j a b.
            bit_from_first w ws i j (omega arith)
            ∙ leading_ones-true w (j % word_bits) (omega arith),
      )

  FirstFalse-zero :
      (hi : ℕ)
      → word_eq w zero_word ≡ true
      → (i + 1) * word_bits ≤ hi
      → hi ≤ 2 ^ 32
      → FirstFalse (bit_from (w ∷ ws) i) (i * word_bits) hi (some (u32 (i * word_bits)))
  FirstFalse-zero hi h room small =
      let at : u32 (i * word_bits) ≡ i * word_bits = omega arith in
      let col : (i * word_bits) % word_bits ≡ 0 = omega arith in
      rw at (
        omega arith,
        omega arith,
        bit_from_first w ws i _ (omega arith) ∙ rw col (all_zeros w 64 h),
        λ j a b. absurd (omega arith),
      )

-- The loop over the rows finds the first zero bit of them.
pub find_in_rows_lem :
    (ws : List Word) (i : ℕ)
    → All IsWord ws
    → (i + length ws) * word_bits ≤ 2 ^ 32
    → FirstFalse (bit_from ws i) (i * word_bits) ((i + length ws) * word_bits) (find_in_rows ws i)
unfolding find_in_rows
find_in_rows_lem [] i a small = λ j lo hi. absurd (omega arith)
find_in_rows_lem (w ∷ ws) i a small = elim (Bool-cases (word_eq w zero_word)) [
  | inl zeros ↦ rw zeros (FirstFalse-zero w ws i _ zeros (omega arith) small)
  | inr mixed ↦ rw mixed (elim (Bool-cases (word_eq w max_word)) [
    | inl full ↦
        let end : (i + 1 + length ws) * word_bits ≡ (i + suc (length ws)) * word_bits =
          omega arith in
        rw full (
          FirstFalse-extend _ (i * word_bits) ((i + 1) * word_bits) _ _ (omega arith)
            (full_row w ws i full)
            (FirstFalse-next w ws i _ _
              (rw end at (find_in_rows_lem ws (i + 1) a.1 (omega arith)))))
    | inr free ↦ rw free (FirstFalse-leading w ws i _ a.0 free (omega arith) small)
  ])
]
