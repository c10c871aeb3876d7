-- ===== src/Float/Tests.antt =====
-- An instance of the interface, by which the witnesses run: non-negative fixed-point numbers in
-- hundredths, without NaN.
use native.Mathlib.Nat.{le-div_iff_mul-le, le_of_mul-le-mul_right, mul-div-le, mul-le-mul_right}
use vgpu_rs.Base.{
  ℕ, ◌+◌, ◌-◌, ◌*◌, ◌/◌, ◌≤◌, ◌<◌, ◌≡◌, refl, inl, inr, ◌⊎◌, true, false, not, ◌&&◌, arith, ltb,
  leb, Bool-cases,
}
use vgpu_rs.Float.{Float}

pub ratio_mono : (n d m e : ℕ) → 0 < d → 0 < e → n * e ≤ m * d → n * 100 / d ≤ m * 100 / e
ratio_mono n d m e p q h =
    (le-div_iff_mul-le q).1 (
      le_of_mul-le-mul_right {k = d} (grind (arith, mul-le-mul_right e (mul-div-le (n * 100) d))) p)

-- The laws, as lemmas.
pub irrefl : (a : ℕ) → ltb a a ≡ false
irrefl a = ground arith

pub trans : (a b c : ℕ) → ltb a b ≡ true → ltb b c ≡ true → ltb a c ≡ true
trans a b c p q = ground arith

pub le_iff : (a b : ℕ) → leb a b ≡ (not false && not false && not (ltb b a))
le_iff a b = ground arith

pub ratio_order :
    (n d m e : ℕ) → 0 < d → 0 < e → n * e ≤ m * d → leb (n * 100 / d) (m * 100 / e) ≡ true
ratio_order n d m e p q h = ground (arith, ratio_mono n d m e p q h)

pub neg_order : (a : ℕ) → leb 0 a ≡ true → leb 0 a ≡ true
neg_order a h = h

pub sub_order : (a c : ℕ) → leb 0 c ≡ true → ltb a (a - c) ≡ false
sub_order a c h = ground arith

pub total : (a b c : ℕ) → ltb a c ≡ true → (ltb a b ≡ true) ⊎ (ltb b c ≡ true)
total a b c h = elim (Bool-cases (ltb a b)) [ inl lt ↦ inl lt | inr ge ↦ inr (ground arith) ]

abbrev pub hundredths : Float
hundredths = record {
  F = ℕ;
  ratio = λ n d. n * 100 / d;
  lt = ltb;
  le = leb;
  is_nan = λ _. false;
  add = λ a b. a + b;
  sub = λ a b. a - b;
  mul = λ a b. a * b / 100;
  div = λ a b. a * 100 / b;
  neg = λ _. 0;
  exp = λ _. 0;
  of_nat = λ n. n * 100;
  epsilon = 1;
  to_bits = λ a. a;
  from_bits = λ a. a;
  lt_irrefl = irrefl;
  lt_trans = trans;
  lt_total = λ a b c _ h. total a b c h;
  le_lem = le_iff;
  le_ratio = ratio_order;
  le_neg = neg_order;
  sub_le = sub_order;
  from_bits-to_bits = λ a. refl;
}
