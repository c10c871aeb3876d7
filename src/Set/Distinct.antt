-- ===== src/Set/Distinct.antt =====
-- A set used as a set of values: `insert_if_absent` and `remove_value` keep the values distinct.
use vgpu_rs.Base.{
  ℕ, ◌+◌, ◌≡◌, ◌↔◌, ◌⊎◌, refl, sym, ap, ◌∙◌, inl, inr, Bool, true, false, Option, none, some, arith,
  Bool-cases, ◌==◌, if◌then◌else◌, ok,
}
use vgpu_rs.Set.{Set, insert, remove, insert_if_absent, remove_value}
use vgpu_rs.Set.View.{view, IsValid}
use vgpu_rs.Set.Insert.{Inserts, full, taken, insert-Insertion}
use vgpu_rs.Set.Remove.{remove-Removal}
use vgpu_rs.Set.Values.{
  InsertsIfAbsent, present, absent, insert_if_absent-Deduplication, IsDistinct, Removes, missing,
  removed, remove_value-ValueRemoval,
}

module _ {ℓ} {T : Type ℓ} (n : ℕ) (eq : T → T → Bool)
    (eq_iff : (a b : T) → (eq a b ≡ true) ↔ (a ≡ b)) where
  -- The set holds the value, under some index.
  abbrev pub Holds : Set T → T → Type ℓ
  Holds s v = (i : ℕ) × (view s i ≡ some v)

  pub InsertsIfAbsent-IsDistinct :
      (s s' : Set T) (valid : IsValid n s) (value : T) (r : Option ℕ)
      → IsDistinct n eq s
      → InsertsIfAbsent n eq s valid value s' r
      → IsDistinct n eq s'
  InsertsIfAbsent-IsDistinct s s' valid value (some i) d (present k found e) =
      λ a b v w p q. d a b v w (ap (λ x. view x a) (sym e) ∙ p) (ap (λ x. view x b) (sym e) ∙ q)
  InsertsIfAbsent-IsDistinct s s' valid value (some i) d
        (absent r new (taken k h free before shown len)) =
      λ a b v w p q same. elim (Bool-cases (i == a)) [
        | inl at_a ↦ elim (Bool-cases (i == b)) [
          | inl at_b ↦ ground arith
          | inr off_b ↦
              let old : view s b ≡ some w = sym (shown b ∙ rw off_b) ∙ q in
              let mine : v ≡ value = ground (arith, shown a) in
              let clash : eq w value ≡ false = new b w (omega arith) old in
              let hit : eq w value ≡ true = (eq_iff w value).1 (sym ((eq_iff v w).0 same) ∙ mine) in
              cc
        ]
        | inr off_a ↦
            let old : view s a ≡ some v = sym (shown a ∙ rw off_a) ∙ p in
            elim (Bool-cases (i == b)) [
              | inl at_b ↦
                  let mine : w ≡ value = ground (arith, shown b) in
                  let clash : eq v value ≡ false = new a v (omega arith) old in
                  let hit : eq v value ≡ true = (eq_iff v value).1 ((eq_iff v w).0 same ∙ mine) in
                  cc
              | inr off_b ↦ d a b v w old (sym (shown b ∙ rw off_b) ∙ q) same
            ]
      ]
  InsertsIfAbsent-IsDistinct s s' valid value none d (absent r new (full e all)) =
      λ a b v w p q. d a b v w (ap (λ x. view x a) (sym e) ∙ p) (ap (λ x. view x b) (sym e) ∙ q)

  pub Removes-IsDistinct :
      (s s' : Set T) (valid : IsValid n s) (value : T) (r : Option (ℕ × T))
      → IsDistinct n eq s
      → Removes n eq s valid value s' r
      → IsDistinct n eq s' × ¬ Holds s' value
  Removes-IsDistinct s s' valid value none d (missing new e) = (
    (λ a b v w p q. d a b v w (ap (λ x. view x a) (sym e) ∙ p) (ap (λ x. view x b) (sym e) ∙ q)),
    λ held.
        let clash : eq value value ≡ false =
          new held.0 value (omega arith) (ap (λ x. view x held.0) (sym e) ∙ held.1) in
        let hit : eq value value ≡ true = (eq_iff value value).1 refl in cc,
  )
  Removes-IsDistinct s s' valid value (some t) d (removed i v shown hit gone len) = (
    (λ a b u w p q. d a b u w (kept a u p) (kept b w q)),
    λ held. elim (Bool-cases (i == held.0)) [
      | inl here ↦ let g : view s' held.0 ≡ none = gone held.0 ∙ rw here in let h = held.1 in cc
      | inr other ↦
          let old = kept held.0 value held.1 in
          let at : i ≡ held.0 = d i held.0 v value shown old hit in ground arith
    ],
  )
    where
      kept : (j : ℕ) (w : T) → view s' j ≡ some w → view s j ≡ some w
      kept j w e = elim (Bool-cases (i == j)) [
        | inl here ↦ let g : view s' j ≡ none = gone j ∙ rw here in cc
        | inr other ↦ sym (gone j ∙ rw other) ∙ e
      ]

  -- After `insert_if_absent` the value is held, unless the set was full of other values.
  pub InsertsIfAbsent-Holds :
      (s s' : Set T) (valid : IsValid n s) (value : T) (r : Option ℕ)
      → InsertsIfAbsent n eq s valid value s' r
      → Holds s' value ⊎ (r ≡ none)
  InsertsIfAbsent-Holds s s' valid value (some i) (present k (v, a, h, shown, hit, first) e) =
      inl (i, ap (λ x. view x i) e ∙ shown ∙ ap some ((eq_iff v value).0 hit))
  InsertsIfAbsent-Holds s s' valid value (some i) (absent r new (taken k h free before shown len)) =
      inl (i, shown i ∙ ground arith)
  InsertsIfAbsent-Holds s s' valid value none (absent r new (full e all)) = inr refl

  -- Of a valid set of distinct values, where `eq` is equality: `insert_if_absent` returns and leaves
  -- a valid set of distinct values, which holds the value if an index is returned.
  pub insert_if_absent-IsDistinct :
      (s : Set T) (value : T)
      → IsValid n s
      → IsDistinct n eq s
      → (s' : Set T) × (r : Option ℕ) × (insert_if_absent n eq s value ≡ ok (s', r))
        × IsValid n s'
        × IsDistinct n eq s'
        × (Holds s' value ⊎ (r ≡ none))
  insert_if_absent-IsDistinct s value valid d =
      let (s', r, e, valid', ins) = insert_if_absent-Deduplication n eq s valid value in
      (
        s',
        r,
        e,
        valid',
        InsertsIfAbsent-IsDistinct s s' valid value r d ins,
        InsertsIfAbsent-Holds s s' valid value r ins,
      )

  -- Of a valid set of distinct values, where `eq` is equality: `remove_value` returns and leaves a
  -- valid set of distinct values, which no longer holds the value.
  pub remove_value-IsDistinct :
      (s : Set T) (value : T)
      → IsValid n s
      → IsDistinct n eq s
      → (s' : Set T) × (r : Option (ℕ × T)) × (remove_value n eq s value ≡ ok (s', r))
        × IsValid n s'
        × IsDistinct n eq s'
        × ¬ Holds s' value
  remove_value-IsDistinct s value valid d =
      let (s', r, e, valid', gone) = remove_value-ValueRemoval n eq s valid value in
      let (d', absent') = Removes-IsDistinct s s' valid value r d gone in
      (s', r, e, valid', d', absent')

-- Of a valid set: inserting a value and removing it at the index that was returned gives the value
-- back, and leaves a valid set with the abstract map and the length as they were.
pub remove-insert {ℓ} :
    {T : Type ℓ} (n : ℕ) (s s' : Set T) (value : T) (i : ℕ)
    → IsValid n s
    → insert n s value ≡ ok (s', some i)
    → (s'' : Set T) × (remove n s' i ≡ ok (s'', some value))
      × IsValid n s''
      × ((j : ℕ) → view s'' j ≡ view s j)
      × (s''.len ≡ s.len)
remove-insert n s s' value i valid e = inserted (insert-Insertion n s value valid)
  where
    removed_again :
        (t : Set _)
        → t ≡ s'
        → IsValid n t
        → view s i ≡ none
        → ((j : ℕ) → view t j ≡ (if i == j then some value else view s j))
        → t.len ≡ s.len + 1
        → (s'' : Set _) × (remove n s' i ≡ ok (s'', some value))
          × IsValid n s''
          × ((j : ℕ) → view s'' j ≡ view s j)
          × (s''.len ≡ s.len)
    removed_again t same valid' free shown len =
        let (s'', e', valid'', gone, len') = remove-Removal n t valid' i in
        let here : view t i ≡ some value = shown i ∙ ground arith in
        (
          s'',
          rw (← same) (e' ∙ rw here),
          valid'',
          (λ j. elim (Bool-cases (i == j)) [
            | inl at ↦ let eq : i ≡ j = ground arith in gone j ∙ rw at (rw (← eq) (sym free))
            | inr off ↦ gone j ∙ rw off (shown j ∙ rw off)
          ]),
          omega (arith, len, rw here at len'),
        )

    inserted :
        ((t : Set _) × (r : Option ℕ) × (insert n s value ≡ ok (t, r))
          × IsValid n t
          × Inserts n s value t r)
        → (s'' : Set _) × (remove n s' i ≡ ok (s'', some value))
          × IsValid n s''
          × ((j : ℕ) → view s'' j ≡ view s j)
          × (s''.len ≡ s.len)
    inserted (t, none, e', valid', ins) = cc
    inserted (t, some k, e', valid', taken a h free before shown len) =
        let same : t ≡ s' = cc in
        let at : k ≡ i = ground arith in
        removed_again t same valid' (rw at at free) (rw at at shown) len
