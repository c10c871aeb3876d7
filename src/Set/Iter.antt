-- ===== src/Set/Iter.antt =====
-- Iteration over the slots in use, and what is built on it.
use vgpu_rs.Base.{
  ℕ, zero, suc, ◌+◌, ◌-◌, ◌≤◌, ◌<◌, ◌≡◌, refl, inl, inr, Bool, true, false, Option, none, some,
  arith, Bool-cases, ltb, ◌==◌, ok,
}
use vgpu_rs.Bitmap.Bits.{bit}
use vgpu_rs.Set.{Set, next, find_loop, find_index_of}
use vgpu_rs.Set.View.{view, IsValid, test_used, read_slot_lem, view_free, view_used, view_out}

module _ {ℓ} {T : Type ℓ} (n : ℕ) (s : Set T) (valid : IsValid n s) where
  -- The first entry from `current` on, and the slots left after it.
  pub data NextEntry (current : ℕ) : Option (ℕ × T × ℕ) → Type ℓ where
    end : ((j : ℕ) → current ≤ j → j < n → view s j ≡ none) → NextEntry current none
    entry :
        (i : ℕ) (v : T) (left : ℕ)
        → current ≤ i
        → i + 1 + left ≡ n
        → view s i ≡ some v
        → ((j : ℕ) → current ≤ j → j < i → view s j ≡ none)
        → NextEntry current (some (i, v, left))

  next_skip :
      (current : ℕ) (r : Option (ℕ × T × ℕ))
      → view s current ≡ none
      → NextEntry (current + 1) r
      → NextEntry current r
  next_skip current none e (end after) = end λ j a b. elim (Bool-cases (current == j)) [
    | inl here ↦ let at : current ≡ j = ground arith in rw (← at) e
    | inr other ↦ after j (ground arith) b
  ]
  next_skip current (some t) e (entry i v left a sum shown before) =
      entry i v left (omega arith) sum shown λ j b c. elim (Bool-cases (current == j)) [
        | inl here ↦ let at : current ≡ j = ground arith in rw (← at) e
        | inr other ↦ before j (ground arith) c
      ]

  pub next-NextEntry :
      (left current : ℕ)
      → current + left ≡ n
      → (r : Option (ℕ × T × ℕ)) × (next n left current s ≡ ok r) × NextEntry current r
  unfolding next
  next-NextEntry zero current e = (none, refl, end (λ j a b. absurd (omega arith)))
  next-NextEntry (suc left) current e = elim (Bool-cases (bit s.bitmap current)) [
    | inr free ↦
        let (r, eq, h) = next-NextEntry left (current + 1) (omega arith) in
        (
          r,
          rw (test_used s valid current (omega arith), next) (rw free eq),
          next_skip current r (view_free s current free) h,
        )
    | inl busy ↦
        let (v, held) = valid.init current (omega arith) busy in
        (
          some (current, v, left),
          rw (test_used s valid current (omega arith), next)
              (rw (busy, read_slot_lem s valid current (omega arith) held)),
          entry current v left (omega arith) (omega arith)
              (view_used s valid current (omega arith) busy held) (λ j a b. absurd (omega arith)),
        )
  ]

  -- The first index at which a value equal to `value` is held, or none.
  abbrev pub FirstMatch : (T → T → Bool) → T → ℕ → Option ℕ → Type ℓ
  FirstMatch eq value current none =
      (j : ℕ) (w : T) → current ≤ j → view s j ≡ some w → eq w value ≡ false
  FirstMatch eq value current (some i) =
      (v : T) × (current ≤ i)
      × (i < n)
      × (view s i ≡ some v)
      × (eq v value ≡ true)
      × ((j : ℕ) (w : T) → current ≤ j → j < i → view s j ≡ some w → eq w value ≡ false)

  match_later :
      (eq : T → T → Bool) (value : T) (current i : ℕ) (v : T) (r : Option ℕ)
      → current ≤ i
      → view s i ≡ some v
      → eq v value ≡ false
      → ((j : ℕ) → current ≤ j → j < i → view s j ≡ none)
      → FirstMatch eq value (i + 1) r
      → FirstMatch eq value current r
  match_later eq value current i v none le shown differs before later = no_match
    where
      no_match : (j : ℕ) (w : T) → current ≤ j → view s j ≡ some w → eq w value ≡ false
      no_match j w a e = elim (Bool-cases (ltb j i)) [
        | inl lt ↦ let gap = before j a (ground arith) in ground arith
        | inr ge ↦ elim (Bool-cases (i == j)) [
          | inl here ↦
              let at : i ≡ j = ground arith in
              let shown' : view s j ≡ some v = rw (← at) shown in
              let same : w ≡ v = ground arith in rw same differs
          | inr other ↦ later j w (ground arith) e
        ]
      ]
  match_later eq value current i v (some k) le shown differs before (u, a, b, c, d, first) =
      (u, omega arith, b, c, d, λ j w p q e. no_match j w p q e)
    where
      no_match : (j : ℕ) (w : T) → current ≤ j → j < k → view s j ≡ some w → eq w value ≡ false
      no_match j w p q e = elim (Bool-cases (ltb j i)) [
        | inl lt ↦ let gap = before j p (ground arith) in ground arith
        | inr ge ↦ elim (Bool-cases (i == j)) [
          | inl here ↦
              let at : i ≡ j = ground arith in
              let shown' : view s j ≡ some v = rw (← at) shown in
              let same : w ≡ v = ground arith in rw same differs
          | inr other ↦ first j w (ground arith) q e
        ]
      ]

  module _ (eq : T → T → Bool) (value : T) where
    abbrev Finds : ℕ → ℕ → ℕ → Type ℓ
    Finds fuel left current =
        (r : Option ℕ) × (find_loop n eq fuel left s value ≡ ok r) × FirstMatch eq value current r

    find_next :
        (fuel left : ℕ) (r : Option (ℕ × T × ℕ))
        → next n left (n - left) s ≡ ok r
        → NextEntry (n - left) r
        → ((left' : ℕ) → left' < left → Finds fuel left' (n - left'))
        → left ≤ n
        → Finds (suc fuel) left (n - left)
    unfolding find_loop
    find_next fuel left none e (end empty) ih room = (
      none,
      rw (e, find_loop),
      λ j w a shown. elim (Bool-cases (ltb j n)) [
        | inl inside ↦ let gap = empty j a (ground arith) in ground arith
        | inr out ↦ let gap = view_out n s valid j (ground arith) in ground arith
      ],
    )
    find_next fuel left (some t) e (entry i v left' a sum shown before) ih room =
        elim (Bool-cases (eq v value)) [
          | inl hit ↦ (
            some i,
            rw (e, find_loop) (rw hit),
            (v, a, omega arith, shown, hit, λ j w p q held. let gap = before j p q in ground arith),
          )
          | inr miss ↦
              let (r, eq', found) = ih left' (omega arith) in
              let at : n - left' ≡ i + 1 = omega arith in
              (
                r,
                rw (e, find_loop) (rw miss eq'),
                match_later eq value (n - left) i v r a shown miss before (rw at at found),
              )
        ]

    find_loop-Finds : (fuel left : ℕ) → left < fuel → left ≤ n → Finds fuel left (n - left)
    find_loop-Finds zero left h room = elim h [ ]
    find_loop-Finds (suc fuel) left h room =
        let (r, e, at) = next-NextEntry left (n - left) (omega arith) in
        find_next fuel left r e at
          (λ left' lt. find_loop-Finds fuel left' (omega arith) (omega arith)) room

    -- Of a valid set, `find_index_of` returns (the fuel suffices), and finds the least index whose
    -- value `eq` accepts; none if there is no such index.
    pub find_index_of-FirstMatch :
        (r : Option ℕ) × (find_index_of n eq s value ≡ ok r) × FirstMatch eq value 0 r
    unfolding find_index_of
    find_index_of-FirstMatch =
        let (r, e, found) = find_loop-Finds (n + 1) n (omega arith) (omega arith) in
        let at : n - n ≡ 0 = omega arith in (r, e, rw at at found)
