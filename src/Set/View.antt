-- ===== src/Set/View.antt =====
-- The abstract map of a set, from slots in use to values, and the invariant of a set.
use vgpu_rs.Base.{
  List, [], ◌∷◌, ℕ, zero, suc, ◌+◌, ◌*◌, ◌^◌, ◌≤◌, ◌<◌, ◌≡◌, refl, ap, ◌∙◌, inl, inr, Bool, true,
  false, Option, none, some, arith, length, get_elem?, get_or, set, length-replicate, length-set,
  get_or-set, get_elem?-get_or, Bool-cases, ◌==◌, if◌then◌else◌, u32, ok,
}
use vgpu_rs.Bitmap.{test}
use vgpu_rs.Bitmap.Words.{word_bits}
use vgpu_rs.Bitmap.Bits.{IsBitmap, bit, test_lem, new-IsBitmap, bit-new}
use vgpu_rs.Set.{Set, new, read_slot, write_slot}

-- How many of the first `n` positions satisfy `f`.
unfoldable pub count : (ℕ → Bool) → ℕ → ℕ
count f zero = 0
count f (suc n) = count f n + (if f n then 1 else 0)

abbrev pub one_if : Bool → ℕ
one_if b = if b then 1 else 0

count-same : (f g : ℕ → Bool) (n : ℕ) → ((j : ℕ) → j < n → f j ≡ g j) → count f n ≡ count g n
unfolding count
count-same f g zero h = refl
count-same f g (suc n) h =
    let e = h n (omega arith) in let ih = count-same f g n (λ j lt. h j (omega arith)) in rw (e, ih)

-- To change the value at one position changes the count by that position.
pub count-update :
    (f g : ℕ → Bool) (i : ℕ) (b : Bool) (n : ℕ)
    → ((j : ℕ) → g j ≡ (if i == j then b else f j))
    → i < n
    → count g n + one_if (f i) ≡ count f n + one_if b
unfolding count
count-update f g i b zero h lt = absurd (omega arith)
count-update f g i b (suc n) h lt = elim (Bool-cases (i == n)) [
  | inl e ↦
      let same = count-same g f n (λ j l. h j ∙ ground arith) in
      let here : i ≡ n = ground arith in
      let last : g n ≡ b = h n ∙ rw e in rw (same, last, here) (omega arith)
  | inr e ↦
      let last : g n ≡ f n = h n ∙ rw e in
      let ih = count-update f g i b n h (ground arith) in rw last (omega (arith, ih))
]

pub count-le : (f : ℕ → Bool) (n : ℕ) → count f n ≤ n
unfolding count
count-le f zero = omega arith
count-le f (suc n) = ground (arith, count-le f n)

-- A count that is full counts every position.
pub count-lt : (f : ℕ → Bool) (n i : ℕ) → i < n → f i ≡ false → count f n < n
unfolding count
count-lt f zero i h e = elim h [ ]
count-lt f (suc n) i h e = elim (Bool-cases (i == n)) [
  | inl last ↦
      let here : i ≡ n = ground arith in
      let off : f n ≡ false = rw (← here) e in rw off (omega (arith, count-le f n))
  | inr below ↦ ground (arith, count-lt f n i (ground arith) e)
]

pub count-pos : (f : ℕ → Bool) (n i : ℕ) → i < n → f i ≡ true → 0 < count f n
unfolding count
count-pos f zero i h e = elim h [ ]
count-pos f (suc n) i h e = elim (Bool-cases (i == n)) [
  | inl last ↦
      let here : i ≡ n = ground arith in let on : f n ≡ true = rw (← here) e in rw on (omega arith)
  | inr below ↦ ground (arith, count-pos f n i (ground arith) e)
]

pub count-none : (f : ℕ → Bool) (n : ℕ) → ((j : ℕ) → j < n → f j ≡ false) → count f n ≡ 0
unfolding count
count-none f zero h = refl
count-none f (suc n) h =
    let e = h n (omega arith) in let ih = count-none f n (λ j lt. h j (omega arith)) in rw (e, ih)

pub count-eq-zero : (f : ℕ → Bool) (n : ℕ) → ((j : ℕ) → f j ≡ false) → count f n ≡ 0
unfolding count
count-eq-zero f zero h = refl
count-eq-zero f (suc n) h = let e = h n in let ih = count-eq-zero f n h in rw (e, ih)

module _ {ℓ} {T : Type ℓ} where
  abbrev pub slot : Set T → ℕ → Option T
  slot s i = get_or s.slots i none

  -- The value in use at an index.
  unfoldable pub view : Set T → ℕ → Option T
  view s i = if bit s.bitmap i then slot s i else none

  -- `n` slots, which the bitmap's size admits; each slot in use holds a value; `len` counts them.
  pub record IsValid (n : ℕ) (s : Set T) : Type ℓ where
    pub room : 0 < n
    pub small : n * word_bits ≤ 2 ^ 32
    pub bits : IsBitmap n s.bitmap
    pub sized : length s.slots ≡ n
    pub init : (i : ℕ) → i < n → bit s.bitmap i ≡ true → (v : T) × (slot s i ≡ some v)
    pub counted : s.len ≡ count (bit s.bitmap) n

  module _ {n : ℕ} (s : Set T) (valid : IsValid n s) (i : ℕ) (h : i < n) where
    pub in_range : i < n * word_bits
    in_range = omega arith

    pub u32_index : u32 i ≡ i
    u32_index = omega (arith, valid.small)

    pub test_used : test s.bitmap (u32 i) ≡ ok (bit s.bitmap i)
    test_used = rw u32_index (test_lem s.bitmap valid.bits i in_range)

    pub slot_found : get_elem? s.slots i ≡ some (slot s i)
    slot_found = get_elem?-get_or s.slots i none (omega (arith, valid.sized))

    pub read_slot_lem : {v : T} → slot s i ≡ some v → read_slot n s.slots i ≡ ok v
    unfolding read_slot
    read_slot_lem e = rw slot_found (rw e)

    pub write_slot_lem : (v : Option T) → write_slot n s.slots i v ≡ ok (set s.slots i v)
    unfolding write_slot
    write_slot_lem v = rw slot_found

    pub view_used : {v : T} → bit s.bitmap i ≡ true → slot s i ≡ some v → view s i ≡ some v
    unfolding view
    view_used used e = rw used e

    -- A slot in use is one that the view shows.
    pub bit_of_view : {v : T} → view s i ≡ some v → (bit s.bitmap i ≡ true) × (slot s i ≡ some v)
    unfolding view
    bit_of_view e = ground arith

  pub view_free : (s : Set T) (i : ℕ) → bit s.bitmap i ≡ false → view s i ≡ none
  unfolding view
  view_free s i e = rw e

  pub bit_of_view_free :
      {n : ℕ} (s : Set T) → IsValid n s → (i : ℕ) → i < n → view s i ≡ none → bit s.bitmap i ≡ false
  unfolding view
  bit_of_view_free s valid i h e = elim (Bool-cases (bit s.bitmap i)) [
    | inl used ↦ let (v, held) = valid.init i h used in absurd (clash used held)
    | inr free ↦ free
  ]
    where
      clash : {v : T} → bit s.bitmap i ≡ true → slot s i ≡ some v → ⊥
      clash used held = ground arith

  get_or_ge : (xs : List (Option T)) (i : ℕ) → length xs ≤ i → get_or xs i none ≡ none
  get_or_ge [] i h = refl
  get_or_ge (x ∷ xs) zero h = absurd (omega arith)
  get_or_ge (x ∷ xs) (suc i) h = get_or_ge xs i (omega arith)

  -- Nothing shows outside the slots.
  pub view_out : (n : ℕ) (s : Set T) → IsValid n s → (i : ℕ) → n ≤ i → view s i ≡ none
  unfolding view
  view_out n s valid i h = let e = get_or_ge s.slots i (omega (arith, valid.sized)) in ground arith

  abbrev pub is_some : Option T → Bool
  is_some none = false
  is_some (some v) = true

  -- What an edit of slot `i` to `v` leaves.
  pub record Edit (n : ℕ) (s : Set T) (i : ℕ) (v : Option T) (s' : Set T) : Type ℓ where
    pub bits : IsBitmap n s'.bitmap
    pub marked : (j : ℕ) → bit s'.bitmap j ≡ (if i == j then is_some v else bit s.bitmap j)
    pub stored : s'.slots ≡ set s.slots i v

  module _ {n : ℕ} (s s' : Set T) (i : ℕ) (v : Option T) (valid : IsValid n s)
      (edit : Edit n s i v s') (h : i < n) where
    slot-edit : (j : ℕ) → slot s' j ≡ (if i == j then v else slot s j)
    slot-edit j =
        ap (λ xs. get_or xs j none) edit.stored
        ∙ get_or-set s.slots i j v none (omega (arith, valid.sized))

    pub view-edit : (j : ℕ) → view s' j ≡ (if i == j then v else view s j)
    unfolding view
    view-edit j = ground (arith, slot-edit j, edit.marked j)

    pub len-edit : s'.len + one_if (bit s.bitmap i) ≡ s.len + one_if (is_some v) → IsValid n s'
    len-edit e = record {
      room = valid.room;
      small = valid.small;
      bits = edit.bits;
      sized = ap length edit.stored ∙ length-set s.slots i v ∙ valid.sized;
      init = λ j lt used. init_edit j lt used;
      counted = omega (
        arith,
        e,
        valid.counted,
        count-update (bit s.bitmap) (bit s'.bitmap) i (is_some v) n edit.marked h,
      );
    }
      where
        held : (o : Option T) → is_some o ≡ true → (w : T) × (o ≡ some w)
        held none e = cc
        held (some w) e = (w, refl)

        init_edit : (j : ℕ) → j < n → bit s'.bitmap j ≡ true → (w : T) × (slot s' j ≡ some w)
        init_edit j lt used = elim (Bool-cases (i == j)) [
          | inl same ↦
              let (w, q) = held v (ground (arith, edit.marked j)) in
              (w, ground (arith, slot-edit j, q))
          | inr other ↦
              let (w, q) = valid.init j lt (ground (arith, edit.marked j)) in
              (w, ground (arith, slot-edit j, q))
        ]

-- A new set is valid and holds nothing.
pub new-IsValid {ℓ} :
    (T : Type ℓ) (n : ℕ) → 0 < n → n * word_bits ≤ 2 ^ 32 → IsValid {T = T} n (new n)
unfolding new
new-IsValid T n room small = record {
  room = room;
  small = small;
  bits = new-IsBitmap n;
  sized = length-replicate n none;
  init = λ i lt used. absurd (clash i used);
  counted = ground (arith, count-eq-zero (bit (new {T = T} n).bitmap) n (λ j. bit-new n j));
}
  where
    clash : (i : ℕ) → bit (new {T = T} n).bitmap i ≡ true → ⊥
    clash i used = ground (arith, bit-new n i)

pub view-new {ℓ} : (T : Type ℓ) (n i : ℕ) → view (new {T = T} n) i ≡ none
unfolding new view
view-new T n i = let e = bit-new n i in rw e
