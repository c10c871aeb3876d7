-- ===== src/Set/Listing.antt =====
-- `iter` yields the entries of the abstract map.
use vgpu_rs.Base.{
  ℕ, zero, suc, ◌+◌, ◌-◌, ◌≤◌, ◌<◌, ◌≡◌, refl, sym, ap, inl, inr, List, [], ◌∷◌, Option, none, some,
  arith, Bool-cases, ◌==◌, ok,
}
use vgpu_rs.Set.{Set, next, entries_loop, iter}
use vgpu_rs.Set.Iter.{NextEntry, end, entry, next-NextEntry}
use vgpu_rs.Set.View.{view, IsValid}

-- The entries that the abstract map shows from an index on.
unfoldable pub listing {ℓ} : {T : Type ℓ} → Set T → ℕ → ℕ → List (ℕ × T)
listing s zero i = []
listing s (suc rounds) i =
    let rest = listing s rounds (i + 1) in elim (view s i) [ none ↦ rest | some v ↦ (i, v) ∷ rest ]

module _ {ℓ} {T : Type ℓ} (n : ℕ) (s : Set T) (valid : IsValid n s) where
  listing-none :
      (left current : ℕ)
      → current + left ≡ n
      → ((j : ℕ) → current ≤ j → j < n → view s j ≡ none)
      → listing s left current ≡ []
  unfolding listing
  listing-none zero current e empty = refl
  listing-none (suc left) current e empty =
      let gap = empty current (omega arith) (omega arith) in
      rw (gap, listing)
        (listing-none left (current + 1) (omega arith) (λ j a b. empty j (omega arith) b))

  listing_entry :
      (left current i left' : ℕ) (v : T)
      → current + left ≡ n
      → i + 1 + left' ≡ n
      → current ≤ i
      → view s i ≡ some v
      → ((j : ℕ) → current ≤ j → j < i → view s j ≡ none)
      → listing s left current ≡ (i, v) ∷ listing s left' (i + 1)
  unfolding listing
  listing_entry zero current i left' v e sum le shown before = absurd (omega arith)
  listing_entry (suc left) current i left' v e sum le shown before =
      elim (Bool-cases (current == i)) [
        | inl here ↦
            let at : current ≡ i = ground arith in
            let rest : left ≡ left' = omega arith in rw (at, rest) (rw (shown, listing))
        | inr other ↦
            let gap = before current (omega arith) (ground arith) in
            rw (gap, listing)
              (listing_entry left (current + 1) i left' v (omega arith) sum (ground arith) shown
                (λ j a b. before j (omega arith) b))
      ]

  entries_next :
      (fuel left : ℕ) (r : Option (ℕ × T × ℕ))
      → next n left (n - left) s ≡ ok r
      → NextEntry n s valid (n - left) r
      → ((left' : ℕ)
          → left' < left
          → entries_loop n fuel left' s ≡ ok (listing s left' (n - left')))
      → left ≤ n
      → entries_loop n (suc fuel) left s ≡ ok (listing s left (n - left))
  unfolding entries_loop
  entries_next fuel left none e (end empty) ih room =
      rw (e, entries_loop) (ap ok (sym (listing-none left (n - left) (omega arith) empty)))
  entries_next fuel left (some t) e (entry i v left' a sum shown before) ih room =
      let at : n - left' ≡ i + 1 = omega arith in
      let head = listing_entry left (n - left) i left' v (omega arith) sum a shown before in
      rw (e, ih left' (omega arith), entries_loop) (rw (head, at))

  entries_loop_lem :
      (fuel left : ℕ)
      → left < fuel
      → left ≤ n
      → entries_loop n fuel left s ≡ ok (listing s left (n - left))
  entries_loop_lem zero left h room = elim h [ ]
  entries_loop_lem (suc fuel) left h room =
      let (r, e, at) = next-NextEntry n s valid left (n - left) (omega arith) in
      entries_next fuel left r e at
        (λ left' lt. entries_loop_lem fuel left' (omega arith) (omega arith)) room

  -- Of a valid set, `iter` returns (the fuel suffices), and yields the entries of the abstract map,
  -- each once, by index.
  pub iter-listing : iter n s ≡ ok (listing s n 0)
  unfolding iter
  iter-listing =
      let at : n - n ≡ 0 = omega arith in
      rw at at (entries_loop_lem (n + 1) n (omega arith) (omega arith))
