-- ===== src/Float/Laws.antt =====
-- Bounds of `max`, `min` and `clamp`.
use vgpu_rs.Base.{◌⊎◌, ◌≡◌, ◌∙◌, inl, inr, true, false, arith, Bool-cases, ok, panic}
use vgpu_rs.Float.{Float, max, min, clamp, IsNanOrWithin, nan_value, in_bounds}

module _ (f : Float) where
  open f use {F, ratio, lt, le, is_nan, lt_irrefl, lt_trans, lt_total, le_lem, neg}

  pub le_parts :
      (a b : F) → le a b ≡ true → (is_nan a ≡ false) × (is_nan b ≡ false) × (lt b a ≡ false)
  le_parts a b h = ground (arith, le_lem a b)

  pub le_of_parts : (a b : F) → is_nan a ≡ false → is_nan b ≡ false → lt b a ≡ false → le a b ≡ true
  le_of_parts a b p q r = le_lem a b ∙ rw (p, q, r)

  -- A maximum is not below a number, whatever the other operand is.
  pub max-ge : (a b : F) → is_nan b ≡ false → le b (max f a b) ≡ true
  unfolding max
  max-ge a b h = elim (Bool-cases (is_nan a)) [
    | inl nan ↦ rw nan (le_of_parts b b h h (lt_irrefl b))
    | inr number ↦ elim (Bool-cases (lt a b)) [
      | inl below ↦ rw (number, h, below) (le_of_parts b b h h (lt_irrefl b))
      | inr above ↦ rw (number, h, above) (le_of_parts b a h number above)
    ]
  ]

  -- A maximum of numbers below a bound is below it.
  pub max-le : (a b c : F) → lt c a ≡ false → lt c b ≡ false → lt c (max f a b) ≡ false
  unfolding max
  max-le a b c p q = ground arith

  pub min-le : (a b : F) → is_nan b ≡ false → lt b (min f a b) ≡ false
  unfolding min
  min-le a b h = ground (arith, lt_irrefl b)

  -- A number is within bounds that it is not beyond.
  pub number-IsNanOrWithin :
      (x lo hi : F) → le lo hi ≡ true → lt x lo ≡ false → lt hi x ≡ false → IsNanOrWithin f lo hi x
  number-IsNanOrWithin x lo hi h not_below not_above =
      let (low, high, _) = le_parts lo hi h in
      elim (Bool-cases (is_nan x)) [
        | inl e ↦ nan_value e
        | inr number ↦
            in_bounds (le_of_parts lo x low number not_below)
              (le_of_parts x hi number high not_above)
      ]

  -- A clamp between bounds in order does not panic, and what it gives lies within them or is a NaN.
  pub clamp-IsNanOrWithin :
      (x lo hi : F) → le lo hi ≡ true → (y : F) × (clamp f x lo hi ≡ ok y) × IsNanOrWithin f lo hi y
  unfolding clamp
  clamp-IsNanOrWithin x lo hi h =
      let (_, _, ordered) = le_parts lo hi h in
      elim (Bool-cases (lt x lo)) [
        | inl below ↦ (lo, rw (h, below), number-IsNanOrWithin lo lo hi h (lt_irrefl lo) ordered)
        | inr fine ↦ elim (Bool-cases (lt hi x)) [
          | inl above ↦
              (hi, rw (h, fine, above), number-IsNanOrWithin hi lo hi h ordered (lt_irrefl hi))
          | inr fits ↦ (x, rw (h, fine, fits), number-IsNanOrWithin x lo hi h fine fits)
        ]
      ]

  -- A number that is clamped between bounds in order is a number between them.
  pub clamp_within :
      (x lo hi : F)
      → le lo hi ≡ true
      → is_nan x ≡ false
      → (y : F) × (clamp f x lo hi ≡ ok y) × (le lo y ≡ true) × (le y hi ≡ true)
  unfolding clamp
  clamp_within x lo hi h number =
      let (low, high, ordered) = le_parts lo hi h in
      elim (Bool-cases (lt x lo)) [
        | inl below ↦ (lo, rw (h, below), le_of_parts lo lo low low (lt_irrefl lo), h)
        | inr fine ↦ elim (Bool-cases (lt hi x)) [
          | inl above ↦ (hi, rw (h, fine, above), h, le_of_parts hi hi high high (lt_irrefl hi))
          | inr fits ↦ (
            x,
            rw (h, fine, fits),
            le_of_parts lo x low number fine,
            le_of_parts x hi number high fits,
          )
        ]
      ]

  -- What is not above a bound is at most the bound, or one of the two is a NaN.
  pub not_above :
      (x hi : F) → lt hi x ≡ false → (is_nan x ≡ true) ⊎ (is_nan hi ≡ true) ⊎ (le x hi ≡ true)
  not_above x hi h = elim (Bool-cases (is_nan x)) [
    | inl e ↦ inl e
    | inr number ↦ elim (Bool-cases (is_nan hi)) [
      | inl e ↦ inr (inl e)
      | inr high ↦ inr (inr (le_of_parts x hi number high h))
    ]
  ]

  -- A clamp panics exactly if the bounds are not in order.
  pub clamp_panic : (x lo hi : F) → le lo hi ≡ false → clamp f x lo hi ≡ panic
  unfolding clamp
  clamp_panic x lo hi h = rw h
