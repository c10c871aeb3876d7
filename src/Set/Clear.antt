-- ===== src/Set/Clear.antt =====
-- `clear` empties a set.
use vgpu_rs.Base.{
  ℕ, zero, suc, ◌+◌, ◌<◌, ◌≡◌, refl, ◌∙◌, inl, inr, false, none, arith, set, Bool-cases, ltb, ◌==◌,
  if◌then◌else◌, Outcome, ok,
}
use vgpu_rs.Bitmap.Bits.{bit, write_bit}
use vgpu_rs.Set.{Set, clear_slot, clear_loop, clear}
use vgpu_rs.Set.View.{
  view, IsValid, Edit, len-edit, in_range, u32_index, test_used, read_slot_lem, write_slot_lem,
  view_free, count, count-none, count-update, view_out,
}

module _ {ℓ} {T : Type ℓ} where
  -- The set with the length that its bitmap gives: in the loop `len` is stale.
  abbrev recount : ℕ → Set T → Set T
  recount n s = record s { len = count (bit s.bitmap) n }

  abbrev Cleared : ℕ → ℕ → Set T → Outcome (Set T) → Type ℓ
  Cleared n i s r =
      (s' : Set T) × (r ≡ ok s')
      × IsValid n (recount n s')
      × ((j : ℕ) → bit s'.bitmap j ≡ (if i == j then false else bit s.bitmap j))

  clear_slot-Cleared :
      (n : ℕ) (s : Set T) (i : ℕ)
      → IsValid n (recount n s)
      → i < n
      → Cleared n i s (clear_slot n s i)
  unfolding clear_slot
  clear_slot-Cleared n s i valid h = elim (Bool-cases (bit s.bitmap i)) [
    | inr free ↦ (
      s,
      rw (test_used (recount n s) valid i h, clear_slot) (rw free),
      valid,
      λ j. elim (Bool-cases (i == j)) [
        | inl here ↦ let at : i ≡ j = ground arith in rw here (rw (← at) free)
        | inr other ↦ rw other
      ],
    )
    | inl busy ↦
        let (v, held) = valid.init i h busy in
        let (bitmap, eq, bits, marked) =
          write_bit s.bitmap i false valid.bits (in_range (recount n s) valid i h) in
        let s' : Set T = record { slots = set s.slots i none; bitmap = bitmap; len = s.len } in
        let edit : Edit n (recount n s) i none (recount n s') = record {
          bits = bits;
          marked = marked;
          stored = refl;
        } in
        (
          s',
          rw (test_used (recount n s) valid i h, clear_slot)
              (rw (
                busy,
                read_slot_lem (recount n s) valid i h held,
                write_slot_lem (recount n s) valid i h none,
                u32_index (recount n s) valid i h,
                eq,
              )),
          recount-edit s' edit,
          marked,
        )
  ]
    where
      recount-edit :
          (s' : Set T) → Edit n (recount n s) i none (recount n s') → IsValid n (recount n s')
      recount-edit s' edit =
          len-edit (recount n s) (recount n s') i none valid edit h
            (omega (arith, count-update (bit s.bitmap) (bit s'.bitmap) i false n edit.marked h))

  abbrev Emptied : ℕ → ℕ → ℕ → Set T → Type ℓ
  Emptied n rounds i s =
      (s' : Set T) × (clear_loop n rounds i s ≡ ok s')
      × IsValid n (recount n s')
      × ((j : ℕ) → j < n → bit s'.bitmap j ≡ false)

  clear_loop-Emptied :
      (n rounds i : ℕ) (s : Set T)
      → i + rounds ≡ n
      → IsValid n (recount n s)
      → ((j : ℕ) → j < i → bit s.bitmap j ≡ false)
      → Emptied n rounds i s
  unfolding clear_loop
  clear_loop-Emptied n zero i s e valid below = (s, refl, valid, λ j h. below j (omega arith))
  clear_loop-Emptied n (suc rounds) i s e valid below =
      let (s', eq, valid', marked) = clear_slot-Cleared n s i valid (omega arith) in
      let (t, eq', valid'', none_left) =
        clear_loop-Emptied n rounds (i + 1) s' (omega arith) valid'
          (λ j h. marked j ∙ cleared j h) in
      (t, rw (eq, clear_loop) eq', valid'', none_left)
    where
      cleared : (j : ℕ) → j < i + 1 → (if i == j then false else bit s.bitmap j) ≡ false
      cleared j h = elim (Bool-cases (i == j)) [
        | inl here ↦ rw here
        | inr other ↦ rw other (below j (ground arith))
      ]

  -- Of a valid set, `clear` returns and leaves a valid set that holds nothing at any index.
  pub clear_empty :
      (n : ℕ) (s : Set T)
      → IsValid n s
      → (s' : Set T) × (clear n s ≡ ok s')
        × IsValid n s'
        × (s'.len ≡ 0)
        × ((j : ℕ) → view s' j ≡ none)
  unfolding clear
  clear_empty n s valid =
      let (s', eq, valid', none_left) =
        clear_loop-Emptied n n 0 s (omega arith) start (λ j h. absurd (omega arith)) in
      let empty : count (bit s'.bitmap) n ≡ 0 = count-none (bit s'.bitmap) n none_left in
      let emptied : IsValid n (record s' { len = 0 }) = rw empty at valid' in
      (
        record s' { len = 0 },
        rw (eq, clear),
        emptied,
        refl,
        λ j. elim (Bool-cases (ltb j n)) [
          | inl inside ↦ view_free (record s' { len = 0 }) j (none_left j (ground arith))
          | inr out ↦ view_out n (record s' { len = 0 }) emptied j (ground arith)
        ],
      )
    where
      start : IsValid n (recount n s)
      start = rw valid.counted at valid
