-- ===== src/Set/Insert.antt =====
-- `insert` takes the first free slot.
use vgpu_rs.Base.{
  ℕ, ◌+◌, ◌*◌, ◌≤◌, ◌<◌, ◌≡◌, ◌≢◌, refl, true, false, Option, none, some, arith, set, ◌==◌,
  if◌then◌else◌, u32, u64, ok,
}
use vgpu_rs.Bitmap.{find_next_zero}
use vgpu_rs.Bitmap.Words.{word_bits}
use vgpu_rs.Bitmap.Bits.{bit, write_bit}
use vgpu_rs.Bitmap.Rows.{FirstFalse}
use vgpu_rs.Bitmap.Search.{end_of, find_next_zero-Finds}
use vgpu_rs.Set.{Set, insert}
use vgpu_rs.Set.View.{
  view, IsValid, Edit, view-edit, len-edit, in_range, u32_index, write_slot_lem, view_free,
  count-le,
}

-- What `insert` leaves and returns: all slots are in use, and nothing changes; or the first free
-- slot now holds the value.
pub data Inserts {ℓ} {T : Type ℓ} (n : ℕ) (s : Set T) (value : T) (s' : Set T)
    : Option ℕ → Type ℓ where
  full : s' ≡ s → ((j : ℕ) → j < n → view s j ≢ none) → Inserts n s value s' none
  taken :
      (i : ℕ)
      → i < n
      → view s i ≡ none
      → ((j : ℕ) → j < i → view s j ≢ none)
      → ((j : ℕ) → view s' j ≡ (if i == j then some value else view s j))
      → s'.len ≡ s.len + 1
      → Inserts n s value s' (some i)

abbrev pub Insertion {ℓ} : {T : Type ℓ} → ℕ → Set T → T → Type ℓ
Insertion n s value =
    (s' : Set _) × (r : Option ℕ) × (insert n s value ≡ ok (s', r))
    × IsValid n s'
    × Inserts n s value s' r

module _ {ℓ} {T : Type ℓ} (n : ℕ) (s : Set T) (value : T) (valid : IsValid n s) where
  used_shows : (j : ℕ) → j < n → bit s.bitmap j ≡ true → view s j ≢ none
  unfolding view
  used_shows j h used e = let (v, q) = valid.init j h used in ground arith

  insert_full :
      insert n s value ≡ ok (s, none)
      → ((j : ℕ) → 0 ≤ j → j < n → bit s.bitmap j ≡ true)
      → Insertion n s value
  insert_full e all = (s, none, e, valid, full refl (λ j h. used_shows j h (all j (omega arith) h)))

  insert_at :
      (i : ℕ)
      → i < n
      → bit s.bitmap i ≡ false
      → ((j : ℕ) → j < i → bit s.bitmap j ≡ true)
      → (s' : Set T) → insert n s value ≡ ok (s', some i)
      → s'.len ≡ u64 (s.len + 1)
      → Edit n s i (some value) s'
      → Insertion n s value
  insert_at i h free below s' e len edit =
      let grown : s'.len ≡ s.len + 1 =
        omega (arith, len, valid.counted, count-le (bit s.bitmap) n, valid.small) in
      (
        s',
        some i,
        e,
        len-edit s s' i (some value) valid edit h (ground (arith, free, grown)),
        taken i h (view_free s i free) (λ j lt. used_shows j (omega arith) (below j lt))
            (view-edit s s' i (some value) valid edit h) grown,
      )

  insert_found :
      (r : Option ℕ)
      → find_next_zero s.bitmap 0 (some (u32 n)) ≡ ok r
      → FirstFalse (bit s.bitmap) 0 n r
      → Insertion n s value
  unfolding insert
  insert_found none e first = insert_full (rw (e, insert)) first
  insert_found (some i) e first =
      let h : i < n = first.1 in
      let at : u32 i ≡ i = u32_index s valid i h in
      let (bitmap, eq, bits, marked) =
        write_bit s.bitmap i true valid.bits (in_range s valid i h) in
      insert_at i h first.2 (λ j lt. first.3 j (omega arith) lt)
        (record { slots = set s.slots i (some value); bitmap = bitmap; len = u64 (s.len + 1) })
        (rw (e, insert) (rw (at, eq, write_slot_lem s valid i h (some value)))) refl
        (record { bits = bits; marked = marked; stored = refl })

  -- Of a valid set, `insert` returns, and leaves a valid set. It stores the value in the first slot
  -- that is not in use and returns its index, or, if all `n` slots are in use, returns none and
  -- changes nothing.
  pub insert-Insertion : Insertion n s value
  insert-Insertion =
      let (r, e, first) =
        find_next_zero-Finds s.bitmap 0 (some (u32 n)) valid.bits valid.small
          (omega (arith, valid.room)) in
      let edge : end_of (n * word_bits) (some (u32 n)) ≡ n = omega (arith, valid.small) in
      insert_found r e (rw edge at first)
