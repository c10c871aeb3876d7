-- ===== src/Set/Values.antt =====
-- Operations by value: `insert_if_absent` and `remove_value`.
use vgpu_rs.Base.{ℕ, ◌+◌, ◌≡◌, refl, Bool, true, Option, none, some, ◌==◌, if◌then◌else◌, ok}
use vgpu_rs.Set.{Set, find_index_of, insert_if_absent, remove_value}
use vgpu_rs.Set.View.{view, IsValid}
use vgpu_rs.Set.Insert.{Inserts, insert-Insertion}
use vgpu_rs.Set.Remove.{remove-Removal}
use vgpu_rs.Set.Iter.{FirstMatch, find_index_of-FirstMatch}

module _ {ℓ} {T : Type ℓ} (n : ℕ) (eq : T → T → Bool) where
  -- What `insert_if_absent` leaves and returns.
  pub data InsertsIfAbsent (s : Set T) (valid : IsValid n s) (value : T) (s' : Set T)
      : Option ℕ → Type ℓ where
    present :
        (i : ℕ)
        → FirstMatch n s valid eq value 0 (some i)
        → s' ≡ s
        → InsertsIfAbsent s valid value s' (some i)
    absent :
        (r : Option ℕ)
        → FirstMatch n s valid eq value 0 none
        → Inserts n s value s' r
        → InsertsIfAbsent s valid value s' r

  abbrev pub Deduplication : (s : Set T) → IsValid n s → T → Type ℓ
  Deduplication s valid value =
      (s' : Set T) × (r : Option ℕ) × (insert_if_absent n eq s value ≡ ok (s', r))
      × IsValid n s'
      × InsertsIfAbsent s valid value s' r

  found_again :
      (s : Set T) (valid : IsValid n s) (value : T) (r : Option ℕ)
      → find_index_of n eq s value ≡ ok r
      → FirstMatch n s valid eq value 0 r
      → Deduplication s valid value
  unfolding insert_if_absent
  found_again s valid value (some i) e found =
      (s, some i, rw (e, insert_if_absent), valid, present i found refl)
  found_again s valid value none e found =
      let (s', r, e', valid', ins) = insert-Insertion n s value valid in
      (s', r, rw (e, insert_if_absent) e', valid', absent r found ins)

  -- Of a valid set, `insert_if_absent` returns and leaves a valid set: the index of the first equal
  -- value and no change, or, if no value is equal, what `insert` gives.
  pub insert_if_absent-Deduplication :
      (s : Set T) (valid : IsValid n s) (value : T) → Deduplication s valid value
  insert_if_absent-Deduplication s valid value =
      let (r, e, found) = find_index_of-FirstMatch n s valid eq value in
      found_again s valid value r e found

  -- No two indexes hold equal values.
  abbrev pub IsDistinct : Set T → Type ℓ
  IsDistinct s = (i j : ℕ) (v w : T) → view s i ≡ some v → view s j ≡ some w → eq v w ≡ true → i ≡ j

  -- What `remove_value` leaves and returns.
  pub data Removes (s : Set T) (valid : IsValid n s) (value : T) (s' : Set T)
      : Option (ℕ × T) → Type ℓ where
    missing : FirstMatch n s valid eq value 0 none → s' ≡ s → Removes s valid value s' none
    removed :
        (i : ℕ) (v : T)
        → view s i ≡ some v
        → eq v value ≡ true
        → ((j : ℕ) → view s' j ≡ (if i == j then none else view s j))
        → s'.len + 1 ≡ s.len
        → Removes s valid value s' (some (i, v))

  abbrev pub ValueRemoval : (s : Set T) → IsValid n s → T → Type ℓ
  ValueRemoval s valid value =
      (s' : Set T) × (r : Option (ℕ × T)) × (remove_value n eq s value ≡ ok (s', r))
      × IsValid n s'
      × Removes s valid value s' r

  remove_found :
      (s : Set T) (valid : IsValid n s) (value : T) (r : Option ℕ)
      → find_index_of n eq s value ≡ ok r
      → FirstMatch n s valid eq value 0 r
      → ValueRemoval s valid value
  unfolding remove_value
  remove_found s valid value none e found =
      (s, none, rw (e, remove_value), valid, missing found refl)
  remove_found s valid value (some i) e (v, a, h, shown, hit, first) =
      let (s', e', valid', gone, len) = remove-Removal n s valid i in
      (
        s',
        some (i, v),
        rw (e, remove_value) (rw e' (rw shown)),
        valid',
        removed i v shown hit gone (rw shown at len),
      )

  -- Of a valid set, `remove_value` returns and leaves a valid set: it takes out one value equal to
  -- the given one and returns it with its index, or, if no value is equal, changes nothing.
  pub remove_value-ValueRemoval :
      (s : Set T) (valid : IsValid n s) (value : T) → ValueRemoval s valid value
  remove_value-ValueRemoval s valid value =
      let (r, e, found) = find_index_of-FirstMatch n s valid eq value in
      remove_found s valid value r e found
