-- ===== src/Bitmap/Words.antt =====
-- A `u64` of the bitmap as its 64 bits, most significant first: the bit at offset `k` of a word is
-- the one that `(1 << 63) >> k` selects. `&`, `|` and `!` work bit by bit.
use vgpu_rs.Base.{
  ℕ, zero, suc, ◌+◌, ◌-◌, ◌≤◌, ◌<◌, ◌≡◌, refl, ap, Bool, true, false, not, ◌&&◌, ◌||◌, List, [],
  ◌∷◌, ◌++◌, map, arith, length, get_or, take, drop, replicate, ◌==◌, length-append,
  length-replicate,
}

abbrev pub Word : Type 0
Word = List Bool

-- `u64::BITS`
abbrev pub word_bits : ℕ
word_bits = 64

abbrev pub IsWord : Word → Type 0
IsWord w = length w ≡ word_bits

abbrev pub zero_word : Word
zero_word = replicate word_bits false

-- `u64::MAX`
abbrev pub max_word : Word
max_word = replicate word_bits true

abbrev pub one_word : Word
one_word = replicate 63 false ++ true ∷ []

abbrev pub and_word : Word → Word → Word
and_word [] w = []
and_word (a ∷ v) [] = []
and_word (a ∷ v) (b ∷ w) = (a && b) ∷ and_word v w

abbrev pub or_word : Word → Word → Word
or_word [] w = []
or_word (a ∷ v) [] = []
or_word (a ∷ v) (b ∷ w) = (a || b) ∷ or_word v w

abbrev pub not_word : Word → Word
not_word = map not

abbrev pub bool_eq : Bool → Bool → Bool
bool_eq true b = b
bool_eq false b = not b

abbrev pub word_eq : Word → Word → Bool
word_eq [] [] = true
word_eq [] (b ∷ w) = false
word_eq (a ∷ v) [] = false
word_eq (a ∷ v) (b ∷ w) = bool_eq a b && word_eq v w

-- `w << k` and `w >> k`, for `k < 64`.
abbrev pub shl : Word → ℕ → Word
shl w k = drop k w ++ replicate k false

abbrev pub shr : Word → ℕ → Word
shr w k = take word_bits (replicate k false ++ w)

-- `(1 << k) - 1`, for `k < 64`: the low `k` bits.
abbrev pub low_ones : ℕ → Word
low_ones k = replicate (word_bits - k) false ++ replicate k true

-- `w.leading_ones()`
abbrev pub leading_ones : Word → ℕ
leading_ones [] = 0
leading_ones (true ∷ w) = suc (leading_ones w)
leading_ones (false ∷ w) = 0

-- A single one at position `k`, with `m` zeros after it.
abbrev pub single : ℕ → ℕ → Word
single k m = replicate k false ++ true ∷ replicate m false

pub take-single : (n k m m' : ℕ) → n ≡ k + 1 + m → m ≤ m' → take n (single k m') ≡ single k m
take-single zero k m m' e h = absurd (omega arith)
take-single (suc n) zero m m' e h = ap (◌∷◌ true) (take-zeros n m m' (omega arith) h)
  where
    take-zeros : (n m m' : ℕ) → n ≡ m → m ≤ m' → take n (replicate m' false) ≡ replicate m false
    take-zeros zero zero m' e h = refl
    take-zeros zero (suc m) m' e h = absurd (omega arith)
    take-zeros (suc n) zero m' e h = absurd (omega arith)
    take-zeros (suc n) (suc m) zero e h = absurd (omega arith)
    take-zeros (suc n) (suc m) (suc m') e h =
        ap (◌∷◌ false) (take-zeros n m m' (omega arith) (omega arith))
take-single (suc n) (suc k) m m' e h = ap (◌∷◌ false) (take-single n k m m' (omega arith) h)

pub get_or-single : (k m i : ℕ) → get_or (single k m) i false ≡ (i == k)
get_or-single zero m zero = refl
get_or-single zero m (suc i) = get_or-zeros m i
  where
    get_or-zeros : (m i : ℕ) → get_or (replicate m false) i false ≡ (suc i == 0)
    get_or-zeros zero i = ground arith
    get_or-zeros (suc m) zero = ground arith
    get_or-zeros (suc m) (suc i) = ground (arith, get_or-zeros m i)
get_or-single (suc k) m zero = ground arith
get_or-single (suc k) m (suc i) = ground (arith, get_or-single k m i)

-- `(row & mask) == mask` reads the bit of a mask with a single one.
pub word_eq-and_word-single :
    (w : Word) (k m : ℕ)
    → length w ≡ k + 1 + m
    → word_eq (and_word w (single k m)) (single k m) ≡ get_or w k false
word_eq-and_word-single [] k m e = absurd (omega arith)
word_eq-and_word-single (true ∷ w) zero m e = zeros_clear w m (omega arith)
  where
    zeros_clear :
        (w : Word) (m : ℕ)
        → length w ≡ m
        → word_eq (and_word w (replicate m false)) (replicate m false) ≡ true
    zeros_clear [] zero e = refl
    zeros_clear [] (suc m) e = absurd (omega arith)
    zeros_clear (a ∷ w) zero e = absurd (omega arith)
    zeros_clear (true ∷ w) (suc m) e = zeros_clear w m (omega arith)
    zeros_clear (false ∷ w) (suc m) e = zeros_clear w m (omega arith)
word_eq-and_word-single (false ∷ w) zero m e = refl
word_eq-and_word-single (true ∷ w) (suc k) m e = word_eq-and_word-single w k m (omega arith)
word_eq-and_word-single (false ∷ w) (suc k) m e = word_eq-and_word-single w k m (omega arith)

pub get_or-or_word :
    (v w : Word) (i : ℕ)
    → length v ≡ length w
    → get_or (or_word v w) i false ≡ (get_or v i false || get_or w i false)
get_or-or_word [] [] i e = refl
get_or-or_word [] (b ∷ w) i e = absurd (omega arith)
get_or-or_word (a ∷ v) [] i e = absurd (omega arith)
get_or-or_word (a ∷ v) (b ∷ w) zero e = refl
get_or-or_word (a ∷ v) (b ∷ w) (suc i) e = get_or-or_word v w i (omega arith)

pub get_or-and_word :
    (v w : Word) (i : ℕ)
    → length v ≡ length w
    → get_or (and_word v w) i false ≡ (get_or v i false && get_or w i false)
get_or-and_word [] [] i e = refl
get_or-and_word [] (b ∷ w) i e = absurd (omega arith)
get_or-and_word (a ∷ v) [] i e = absurd (omega arith)
get_or-and_word (a ∷ v) (b ∷ w) zero e = refl
get_or-and_word (a ∷ v) (b ∷ w) (suc i) e = get_or-and_word v w i (omega arith)

pub get_or-not_word :
    (w : Word) (i : ℕ) → i < length w → get_or (not_word w) i false ≡ not (get_or w i false)
get_or-not_word [] i h = absurd (omega arith)
get_or-not_word (a ∷ w) zero h = refl
get_or-not_word (a ∷ w) (suc i) h = get_or-not_word w i (omega arith)

pub length-or_word : (v w : Word) → length v ≡ length w → length (or_word v w) ≡ length v
length-or_word [] w e = refl
length-or_word (a ∷ v) [] e = absurd (omega arith)
length-or_word (a ∷ v) (b ∷ w) e = ap suc (length-or_word v w (omega arith))

pub length-and_word : (v w : Word) → length v ≡ length w → length (and_word v w) ≡ length v
length-and_word [] w e = refl
length-and_word (a ∷ v) [] e = absurd (omega arith)
length-and_word (a ∷ v) (b ∷ w) e = ap suc (length-and_word v w (omega arith))

pub length-not_word : (w : Word) → length (not_word w) ≡ length w
length-not_word [] = refl
length-not_word (a ∷ w) = ap suc (length-not_word w)

pub length-single : (k m : ℕ) → length (single k m) ≡ k + 1 + m
length-single k m = omega (
  arith,
  length-append (replicate k false) (true ∷ replicate m false),
  length-replicate k false,
  length-replicate m false,
)
