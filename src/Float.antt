-- ===== src/Float.antt =====
-- `f64`, by its operations and those laws of IEEE 754 and of Rust's documentation that the proofs
-- need. `ratio n d` is the value nearest to n / d, which the literals of the source are written by.
-- Comparisons with a NaN are false. `max`, `min` and `clamp` are defined as the standard library
-- documents them.
pub mod Tests
pub mod Laws
use vgpu_rs.Base.{
  ℕ, suc, ◌*◌, ◌≤◌, ◌<◌, ◌≡◌, ◌⊎◌, Bool, true, false, not, ◌&&◌, if◌then◌else◌, Outcome, ok, panic,
}

pub record Float : Type 1 where
  pub F : Type 0
  pub ratio : ℕ → ℕ → F
  pub lt : F → F → Bool
  pub le : F → F → Bool
  pub is_nan : F → Bool
  pub add : F → F → F
  pub sub : F → F → F
  pub mul : F → F → F
  pub div : F → F → F
  pub neg : F → F
  pub exp : F → F
  -- `as f64`, `f64::EPSILON`
  pub of_nat : ℕ → F
  pub epsilon : F
  pub to_bits : F → ℕ
  pub from_bits : ℕ → F
  pub lt_irrefl : (a : F) → lt a a ≡ false
  pub lt_trans : (a b c : F) → lt a b ≡ true → lt b c ≡ true → lt a c ≡ true
  -- Numbers are ordered linearly.
  pub lt_total : (a b c : F) → is_nan b ≡ false → lt a c ≡ true → (lt a b ≡ true) ⊎ (lt b c ≡ true)
  pub le_lem : (a b : F) → le a b ≡ (not (is_nan a) && not (is_nan b) && not (lt b a))
  pub le_ratio : (n d m e : ℕ) → 0 < d → 0 < e → n * e ≤ m * d → le (ratio n d) (ratio m e) ≡ true
  pub le_neg : (a : F) → le (ratio 0 1) a ≡ true → le (neg a) a ≡ true
  pub sub_le : (a c : F) → le (ratio 0 1) c ≡ true → lt a (sub a c) ≡ false
  pub from_bits-to_bits : (a : F) → from_bits (to_bits a) ≡ a

module _ (f : Float) where
  open f use {F, lt, le, is_nan}

  -- `f64::max` and `f64::min`: the other operand, if one is NaN.
  unfoldable pub max : F → F → F
  max a b = if is_nan a then b else (if is_nan b then a else (if lt a b then b else a))

  unfoldable pub min : F → F → F
  min a b = if is_nan a then b else (if is_nan b then a else (if lt b a then b else a))

  -- `f64::clamp` asserts `lo <= hi`, and lets a NaN through.
  unfoldable pub clamp : F → F → F → Outcome F
  clamp x lo hi =
      if le lo hi then ok (if lt x lo then lo else (if lt hi x then hi else x)) else panic

  -- The value is a NaN, or a number between `lo` and `hi`.
  pub data IsNanOrWithin (lo hi x : F) : Type 0 where
    nan_value : is_nan x ≡ true → IsNanOrWithin lo hi x
    in_bounds : le lo x ≡ true → le x hi ≡ true → IsNanOrWithin lo hi x
