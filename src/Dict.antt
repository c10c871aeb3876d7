-- ===== src/Dict.antt =====
-- A hash map (DashMap, HashMap) as an association list without repeated keys, over any type of keys
-- with a test of equality.
use vgpu_rs.Base.{
  ℕ, ◌≡◌, refl, ◌↔◌, Bool, true, false, ◌&&◌, List, [], ◌∷◌, map, Option, none, some, arith, ◌==◌,
  ==_iff, if◌then◌else◌, Bool-cases, inl, inr,
}

pub record Eq (A : Type 0) : Type 0 where
  pub beq : A → A → Bool
  pub beq_iff : (a b : A) → (beq a b ≡ true) ↔ (a ≡ b)

instance abbrev pub nat_eq : Eq ℕ
nat_eq = record { beq = ◌==◌; beq_iff = ==_iff }

-- Texts are lists of bytes.
abbrev pub bytes_beq : List ℕ → List ℕ → Bool
bytes_beq [] [] = true
bytes_beq [] (y ∷ ys) = false
bytes_beq (x ∷ xs) [] = false
bytes_beq (x ∷ xs) (y ∷ ys) = x == y && bytes_beq xs ys

pub bytes_beq→eq : (xs ys : List ℕ) → bytes_beq xs ys ≡ true → xs ≡ ys
bytes_beq→eq [] [] h = refl
bytes_beq→eq [] (y ∷ ys) h = cc
bytes_beq→eq (x ∷ xs) [] h = cc
bytes_beq→eq (x ∷ xs) (y ∷ ys) h = ground (arith, bytes_beq→eq xs ys)

pub bytes_beq_refl : (xs : List ℕ) → bytes_beq xs xs ≡ true
bytes_beq_refl [] = refl
bytes_beq_refl (x ∷ xs) = ground (arith, bytes_beq_refl xs)

pub bytes_beq_iff : (xs ys : List ℕ) → (bytes_beq xs ys ≡ true) ↔ (xs ≡ ys)
bytes_beq_iff xs ys = (bytes_beq→eq xs ys, λ e. rw e (bytes_beq_refl ys))

module _ {K : Type 0} ⦃e : Eq K⦄ where
  pub beq_refl : (k : K) → e.beq k k ≡ true
  beq_refl k = (e.beq_iff k k).1 refl

abbrev pub Dict : Type 0 → Type 0 → Type 0
Dict K V = List (K × V)

module _ {K V : Type 0} ⦃e : Eq K⦄ where
  unfoldable pub fetch : K → Dict K V → Option V
  fetch k [] = none
  fetch k (entry ∷ m) = if e.beq entry.0 k then some entry.1 else fetch k m

  unfoldable pub erase : K → Dict K V → Dict K V
  erase k [] = []
  erase k (entry ∷ m) = let rest = erase k m in if e.beq entry.0 k then rest else entry ∷ rest

  unfoldable pub assign : K → V → Dict K V → Dict K V
  unfolding erase
  assign k v m = (k, v) ∷ erase k m

abbrev pub keys : {K V : Type 0} → Dict K V → List K
keys m = map (λ entry. entry.0) m

module _ {K V : Type 0} ⦃e : Eq K⦄ where
  abbrev pub contains_key : K → Dict K V → Bool
  contains_key k m = elim (fetch k m) [ none ↦ false | some _ ↦ true ]

  -- No key has two entries.
  abbrev pub HasDistinctKeys : Dict K V → Type 0
  HasDistinctKeys [] = Unit {0}
  HasDistinctKeys (entry ∷ m) = (fetch entry.0 m ≡ none) × HasDistinctKeys m

  pub fetch-erase :
      (k j : K) (m : Dict K V) → fetch j (erase k m) ≡ (if e.beq k j then none else fetch j m)
  unfolding fetch erase
  fetch-erase k j [] = ground arith
  fetch-erase k j (entry ∷ m) =
      ground (arith, e.beq_iff k j, e.beq_iff entry.0 k, e.beq_iff entry.0 j, fetch-erase k j m)

  pub fetch-assign :
      (k j : K) (v : V) (m : Dict K V)
      → fetch j (assign k v m) ≡ (if e.beq k j then some v else fetch j m)
  unfolding fetch assign
  fetch-assign k j v m = ground (arith, fetch-erase k j m)

  pub erase-HasDistinctKeys :
      (k : K) (m : Dict K V) → HasDistinctKeys m → HasDistinctKeys (erase k m)
  unfolding erase
  erase-HasDistinctKeys k [] d = tt
  erase-HasDistinctKeys k (entry ∷ m) d = elim (Bool-cases (e.beq entry.0 k)) [
    | inl same ↦ rw same (erase-HasDistinctKeys k m d.1)
    | inr other ↦ rw other (
        let absent : fetch entry.0 (erase k m) ≡ none =
          ground (arith, fetch-erase k entry.0 m, d.0) in
        (absent, erase-HasDistinctKeys k m d.1))
  ]

  pub assign-HasDistinctKeys :
      (k : K) (v : V) (m : Dict K V) → HasDistinctKeys m → HasDistinctKeys (assign k v m)
  unfolding assign
  assign-HasDistinctKeys k v m d =
      let absent : fetch k (erase k m) ≡ none = ground (arith, fetch-erase k k m, beq_refl k) in
      (absent, erase-HasDistinctKeys k m d)
