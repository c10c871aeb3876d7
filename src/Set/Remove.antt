-- ===== src/Set/Remove.antt =====
-- Operations at an index: `get`, `contains`, `get_mut`, `remove`.
use vgpu_rs.Base.{
  ℕ, ◌+◌, ◌-◌, ◌^◌, ◌≤◌, ◌<◌, ◌≡◌, refl, ◌∙◌, inl, inr, true, false, not, none, some, arith, set,
  Bool-cases, ltb, leb, ◌==◌, if◌then◌else◌, u64, ok,
}
use mathlib.Core.Option
use vgpu_rs.Bitmap.Bits.{bit, write_bit}
use vgpu_rs.Set.{Set, is_free, contains, get, get_mut, remove}
use vgpu_rs.Set.View.{
  view, slot, is_some, IsValid, Edit, view-edit, len-edit, in_range, u32_index, test_used,
  read_slot_lem, write_slot_lem, view_free, view_used, view_out, count-le, count-pos, one_if,
}

module _ {ℓ} {T : Type ℓ} where
  module _ (n : ℕ) (s : Set T) (valid : IsValid n s) (index : ℕ) where
    is_free_outside : n ≤ index → is_free n s index ≡ ok true
    unfolding is_free
    is_free_outside h = let e : leb n index ≡ true = ground arith in rw e

    is_free_inside : index < n → is_free n s index ≡ ok (not (bit s.bitmap index))
    unfolding is_free
    is_free_inside h =
        let e : leb n index ≡ false = ground arith in rw e (rw (test_used s valid index h))

    -- The three cases of an operation at an index: outside, inside but not in use, in use.
    pub data At : Type ℓ where
      unused : view s index ≡ none → is_free n s index ≡ ok true → At
      used :
          index < n
          → (v : T) → view s index ≡ some v
          → slot s index ≡ some v
          → bit s.bitmap index ≡ true
          → is_free n s index ≡ ok false
          → At

    pub at_index : At
    at_index = elim (Bool-cases (ltb index n)) [
      | inr out ↦ unused (view_out n s valid index (ground arith)) (is_free_outside (ground arith))
      | inl inside ↦ elim (Bool-cases (bit s.bitmap index)) [
        | inr free ↦ unused (view_free s index free) (is_free_inside (ground arith) ∙ rw free)
        | inl busy ↦
            let (v, e) = valid.init index (ground arith) busy in
            used (ground arith) v (view_used s valid index (ground arith) busy e) e busy
              (is_free_inside (ground arith) ∙ rw busy)
      ]
    ]

    get_cases : At → get n s index ≡ ok (view s index)
    unfolding get
    get_cases (unused e free) = rw (free, get) (rw e)
    get_cases (used h v e held busy free) =
        rw (free, get) (rw (read_slot_lem s valid index h held) (rw e))

    -- Of a valid set, `get` returns and shows the abstract map, at every index; it never reads an
    -- empty slot.
    pub get-view : get n s index ≡ ok (view s index)
    get-view = get_cases at_index

    contains_inside : index < n → contains n s index ≡ ok (bit s.bitmap index)
    unfolding contains
    contains_inside h =
        let e : ltb index n ≡ true = ground arith in rw e (test_used s valid index h)

    -- `contains` tells whether the map has the index.
    pub contains-view : contains n s index ≡ ok (is_some (view s index))
    unfolding contains
    contains-view = elim (Bool-cases (ltb index n)) [
      | inr out ↦ rw out (rw (view_out n s valid index (ground arith)))
      | inl inside ↦ rw inside (test_used s valid index (ground arith) ∙ shown (ground arith))
    ]
      where
        shown : index < n → ok (bit s.bitmap index) ≡ ok (is_some (view s index))
        shown h = elim (Bool-cases (bit s.bitmap index)) [
          | inl busy ↦
              let (v, e) = valid.init index h busy in rw (busy, view_used s valid index h busy e)
          | inr free ↦ rw (free, view_free s index free)
        ]

    abbrev pub Removal : Type ℓ
    Removal =
        (s' : Set T) × (remove n s index ≡ ok (s', view s index))
        × IsValid n s'
        × ((j : ℕ) → view s' j ≡ (if index == j then none else view s j))
        × (s'.len + one_if (is_some (view s index)) ≡ s.len)

    remove_cases : At → Removal
    unfolding remove
    remove_cases (unused e free) =
        (s, rw (free, remove) (rw e), valid, (λ j. same j), rw e (omega arith))
      where
        same : (j : ℕ) → view s j ≡ (if index == j then none else view s j)
        same j = elim (Bool-cases (index == j)) [
          | inl here ↦ let at : index ≡ j = ground arith in rw here (rw (← at) e)
          | inr other ↦ rw other
        ]
    remove_cases (used h v e held busy free) =
        let (bitmap, eq, bits, marked) =
          write_bit s.bitmap index false valid.bits (in_range s valid index h) in
        let s' : Set T = record {
          slots = set s.slots index none;
          bitmap = bitmap;
          len = u64 (s.len + 2 ^ 64 - 1);
        } in
        let edit : Edit n s index none s' = record {
          bits = bits;
          marked = marked;
          stored = refl;
        } in
        let shrunk : u64 (s.len + 2 ^ 64 - 1) + 1 ≡ s.len = omega (
          arith,
          valid.counted,
          valid.small,
          count-le (bit s.bitmap) n,
          count-pos (bit s.bitmap) n index h busy,
        ) in
        (
          s',
          rw (free, remove)
              (rw (
                u32_index s valid index h,
                eq,
                read_slot_lem s valid index h held,
                write_slot_lem s valid index h none,
                e,
              )),
          len-edit s s' index none valid edit h (ground (arith, busy, shrunk)),
          view-edit s s' index none valid edit h,
          rw e shrunk,
        )

    -- Of a valid set, `remove` returns, leaves a valid set, takes out exactly the value at the index
    -- (none if there is none, and then nothing changes), and `len` falls by one if a value was there.
    pub remove-Removal : Removal
    remove-Removal = remove_cases at_index

    abbrev pub Update : (T → T) → Type ℓ
    Update f =
        (s' : Set T) × (get_mut n s index f ≡ ok (s', is_some (view s index)))
        × IsValid n s'
        × ((j : ℕ) → view s' j ≡ (if index == j then Option.map f (view s j) else view s j))

    get_mut_cases : (f : T → T) → At → Update f
    unfolding get_mut
    get_mut_cases f (unused e free) = (s, rw (free, get_mut) (rw e), valid, (λ j. same j))
      where
        same : (j : ℕ) → view s j ≡ (if index == j then Option.map f (view s j) else view s j)
        same j = elim (Bool-cases (index == j)) [
          | inl here ↦ let at : index ≡ j = ground arith in rw (here, ← at, e)
          | inr other ↦ rw other
        ]
    get_mut_cases f (used h v e held busy free) =
        let s' : Set T = record s { slots = set s.slots index (some (f v)) } in
        let edit : Edit n s index (some (f v)) s' = record {
          bits = valid.bits;
          marked = λ j. kept j;
          stored = refl;
        } in
        (
          s',
          rw (free, get_mut)
              (rw (
                read_slot_lem s valid index h held,
                write_slot_lem s valid index h (some (f v)),
                e,
              )),
          len-edit s s' index (some (f v)) valid edit h (ground (arith, busy)),
          λ j. view-edit s s' index (some (f v)) valid edit h j ∙ shown j,
        )
      where
        kept : (j : ℕ) → bit s.bitmap j ≡ (if index == j then true else bit s.bitmap j)
        kept j = elim (Bool-cases (index == j)) [
          | inl here ↦ let at : index ≡ j = ground arith in rw here (rw (← at) busy)
          | inr other ↦ rw other
        ]

        shown :
            (j : ℕ)
            → (if index == j then some (f v) else view s j)
              ≡ (if index == j then Option.map f (view s j) else view s j)
        shown j = elim (Bool-cases (index == j)) [
          | inl here ↦ let at : index ≡ j = ground arith in rw (here, ← at, e)
          | inr other ↦ rw other
        ]

    -- Of a valid set, a write through `get_mut` returns and leaves a valid set, reports whether the
    -- index holds a value, and changes the value at the index, if there is one, and nothing else.
    pub get_mut-Update : (f : T → T) → Update f
    get_mut-Update f = get_mut_cases f at_index
