-- ===== src/Set.antt =====
-- crates/utils/src/shared_memory/set.rs: a fixed number of slots, with a bitmap of those in use.
--
-- `capacity` is the const generic `N`. A slot is `none` while nothing is stored in it: a read of such
-- a slot is the undefined behaviour of `assume_init`, and a value that is moved out or dropped leaves
-- the slot empty. `View` is the abstract map of a set, `Valid` its invariant; the other modules say
-- what the operations do to both.
pub mod View
pub mod Insert
pub mod Remove
pub mod Clear
pub mod Iter
pub mod Listing
pub mod Values
pub mod Distinct
mod Examples
use vgpu_rs.Base.{
  ℕ, zero, suc, ◌+◌, ◌-◌, ◌%◌, ◌^◌, ◌≡◌, Bool, true, false, not, List, [], ◌∷◌, Option, none, some,
  get_elem?, get_or, set, replicate, ltb, leb, ◌==◌, if◌then◌else◌, u32, u64, Outcome, ok, panic,
  or_panic, assume_init, ◌>>=◌,
}
use vgpu_rs.Bitmap
use vgpu_rs.Bitmap.{Bitmap, test, test_and_set, find_next_zero}

pub record Set {ℓ} (T : Type ℓ) : Type ℓ where
  pub slots : List (Option T)
  pub bitmap : Bitmap
  pub len : ℕ

module _ {ℓ} {T : Type ℓ} (capacity : ℕ) where
  pub new : Set T
  new = record { slots = replicate capacity none; bitmap = Bitmap.new capacity; len = 0 }

  pub is_empty : Set T → Bool
  is_empty s = s.len == 0

  pub contains : Set T → ℕ → Outcome Bool
  contains s index = if ltb index capacity then test s.bitmap (u32 index) else ok false

  -- `self.data[index].write(value)`
  pub write_slot : List (Option T) → ℕ → Option T → Outcome (List (Option T))
  write_slot slots index v = do _ ← or_panic (get_elem? slots index); ok (set slots index v)

  -- `self.data[index].assume_init_ref()`
  pub read_slot : List (Option T) → ℕ → Outcome T
  read_slot slots index = do slot ← or_panic (get_elem? slots index); assume_init slot

  -- The slot that is taken, if one is free.
  pub insert : Set T → T → Outcome (Set T × Option ℕ)
  unfolding write_slot
  insert s value = do
    free ← find_next_zero s.bitmap 0 (some (u32 capacity))
    elim free [
      | none ↦ ok (s, none)
      | some index ↦ do
        (bitmap, _) ← test_and_set s.bitmap (u32 index) true
        slots ← write_slot s.slots index (some value)
        ok (record { slots = slots; bitmap = bitmap; len = u64 (s.len + 1) }, some index)
    ]

  -- `index >= N || !self.bitmap.test(index as u32)`
  pub is_free : Set T → ℕ → Outcome Bool
  is_free s index =
      if leb capacity index then ok true else (do used ← test s.bitmap (u32 index); ok (not used))

  pub remove : Set T → ℕ → Outcome (Set T × Option T)
  unfolding is_free read_slot write_slot
  remove s index = do
    free ← is_free s index
    if free then ok (s, none) else (do
      (bitmap, _) ← test_and_set s.bitmap (u32 index) false
      value ← read_slot s.slots index
      slots ← write_slot s.slots index none
      ok (record { slots = slots; bitmap = bitmap; len = u64 (s.len + 2 ^ 64 - 1) }, some value))

  pub get : Set T → ℕ → Outcome (Option T)
  unfolding is_free read_slot
  get s index = do
    free ← is_free s index
    if free then ok none else (do value ← read_slot s.slots index; ok (some value))

  -- The caller's write through the reference that `get_mut` returns is the function `f`.
  pub get_mut : Set T → ℕ → (T → T) → Outcome (Set T × Bool)
  unfolding is_free read_slot write_slot
  get_mut s index f = do
    free ← is_free s index
    if free then ok (s, false) else (do
      value ← read_slot s.slots index
      slots ← write_slot s.slots index (some (f value))
      ok (record s { slots = slots }, true))

  -- One round of the loop of `clear`: a used slot is dropped and marked free.
  pub clear_slot : Set T → ℕ → Outcome (Set T)
  unfolding read_slot write_slot
  clear_slot s i = do
    used ← test s.bitmap (u32 i)
    if used
        then (do
          _ ← read_slot s.slots i
          slots ← write_slot s.slots i none
          (bitmap, _) ← test_and_set s.bitmap (u32 i) false
          ok (record { slots = slots; bitmap = bitmap; len = s.len }))
        else ok s

  -- `for i in 0..N`, by the rounds that are left.
  pub clear_loop : ℕ → ℕ → Set T → Outcome (Set T)
  clear_loop zero i s = ok s
  clear_loop (suc rounds) i s = do s' ← clear_slot s i; clear_loop rounds (i + 1) s'

  pub clear : Set T → Outcome (Set T)
  unfolding clear_loop
  clear s = do s' ← clear_loop capacity 0 s; ok (record s' { len = 0 })

  -- `SetIter::next`: `left` is `N - current`. It yields an entry and what is then left.
  pub next : ℕ → ℕ → Set T → Outcome (Option (ℕ × T × ℕ))
  next zero current s = ok none
  next (suc left) current s =
      let rest = next left (current + 1) s in
      do
        used ← test s.bitmap (u32 current)
        if used
            then (do value ← read_slot s.slots current; ok (some (current, value, left)))
            else rest

  -- `for (index, existing) in self.iter()` up to the first match. `fuel` bounds the entries.
  pub find_loop : (T → T → Bool) → ℕ → ℕ → Set T → T → Outcome (Option ℕ)
  find_loop eq zero left s value = ok none
  find_loop eq (suc fuel) left s value = do
    entry ← next left (capacity - left) s
    elim entry [
      | none ↦ ok none
      | some (index, existing, left') ↦
          let rest = find_loop eq fuel left' s value in
          if eq existing value then ok (some index) else rest
    ]

  pub find_index_of : (T → T → Bool) → Set T → T → Outcome (Option ℕ)
  unfolding find_loop
  find_index_of eq s value = find_loop eq (capacity + 1) capacity s value

  -- The entries of `iter()`, in order.
  pub entries_loop : ℕ → ℕ → Set T → Outcome (List (ℕ × T))
  entries_loop zero left s = ok []
  entries_loop (suc fuel) left s = do
    entry ← next left (capacity - left) s
    elim entry [
      | none ↦ ok []
      | some (index, value, left') ↦ do rest ← entries_loop fuel left' s; ok ((index, value) ∷ rest)
    ]

  pub iter : Set T → Outcome (List (ℕ × T))
  unfolding entries_loop
  iter s = entries_loop (capacity + 1) capacity s

  pub insert_if_absent : (T → T → Bool) → Set T → T → Outcome (Set T × Option ℕ)
  insert_if_absent eq s value = do
    found ← find_index_of eq s value
    elim found [ some index ↦ ok (s, some index) | none ↦ insert s value ]

  pub remove_value : (T → T → Bool) → Set T → T → Outcome (Set T × Option (ℕ × T))
  remove_value eq s value = do
    found ← find_index_of eq s value
    elim found [
      | none ↦ ok (s, none)
      | some index ↦ do
        (s', removed) ← remove s index
        ok (s', elim removed [ none ↦ none | some v ↦ some (index, v) ])
    ]
