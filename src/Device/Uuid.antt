-- ===== src/Device/Uuid.antt =====
-- A UUID that is stored and read again.
use vgpu_rs.Base.{
  ℕ, zero, suc, ◌+◌, ◌-◌, ◌<◌, min, ◌≡◌, ◌≢◌, refl, sym, ap, ◌∙◌, List, [], ◌∷◌, ◌++◌, arith,
  length, take, drop, replicate, All, take-length, inl, inr, Bool-cases, ◌==◌, false, ltb,
}
use vgpu_rs.Device.Bytes.{max_uuid_len, store_uuid, load_uuid, null_pos}
use vgpu_rs.Device.V1
use vgpu_rs.Device.V1.{DeviceEntryV1}
use vgpu_rs.Device.V2
use vgpu_rs.Device.V2.{DeviceEntryV2}

abbrev pub NoNull : List ℕ → Type 0
NoNull = All (λ b. b ≢ 0)

-- The position of the null that follows bytes without one.
null_pos-append : (xs ys : List ℕ) (i : ℕ) → NoNull xs → null_pos (xs ++ 0 ∷ ys) i ≡ i + length xs
unfolding null_pos
null_pos-append [] ys i h = omega arith
null_pos-append (x ∷ xs) ys i h =
    let e : (x == 0) ≡ false = ground (arith, h.0) in
    rw e (null_pos-append xs ys (i + 1) h.1 ∙ omega arith)

take-append : (xs ys : List ℕ) → take (length xs) (xs ++ ys) ≡ xs
take-append [] ys = refl
take-append (x ∷ xs) ys = ap (◌∷◌ x) (take-append xs ys)

NoNull-take : (n : ℕ) (xs : List ℕ) → NoNull xs → NoNull (take n xs)
NoNull-take zero xs h = tt
NoNull-take (suc n) [] h = tt
NoNull-take (suc n) (x ∷ xs) h = (h.0, NoNull-take n xs h.1)

abbrev zeros : ℕ → List ℕ
zeros n = replicate n 0

drop-zeros : (k n : ℕ) → k < n → drop k (zeros n) ≡ 0 ∷ zeros (n - k - 1)
drop-zeros zero (suc n) h = let e : suc n - 0 - 1 ≡ n = omega arith in rw e
drop-zeros (suc k) (suc n) h =
    let e : suc n - suc k - 1 ≡ n - k - 1 = omega arith in rw e (drop-zeros k n (omega arith))
drop-zeros k zero h = elim h [ ]

take-min : (n : ℕ) (xs : List ℕ) → take (min (length xs) n) xs ≡ take n xs
take-min n xs = elim (Bool-cases (ltb n (length xs))) [
  | inl lt ↦ let e : min (length xs) n ≡ n = ground arith in rw e
  | inr ge ↦
      let e : min (length xs) n ≡ length xs = ground arith in
      rw e (take-length (length xs) xs (omega arith) ∙ sym (take-length n xs (ground arith)))
]

load_uuid-store_uuid :
    (bytes : List ℕ) → NoNull bytes → load_uuid (store_uuid bytes) ≡ take (max_uuid_len - 1) bytes
unfolding load_uuid store_uuid
load_uuid-store_uuid bytes h =
    let k = min (length bytes) 63 in
    let tail = drop-zeros k 64 (omega arith) in
    let at = null_pos-append (take k bytes) (zeros (64 - k - 1)) 0 (NoNull-take k bytes h) in
    let len : 0 + length (take k bytes) ≡ length (take k bytes) = omega arith in
    rw (tail, at, len) (take-append (take k bytes) _ ∙ take-min 63 bytes)

-- In both layouts, for bytes none of which is null: the UUID that is read is the one that was
-- stored, cut to 63 bytes. (A shorter one comes back whole.)
pub get_uuid-set_uuid :
    (d : DeviceEntryV1) (e : DeviceEntryV2) (bytes : List ℕ)
    → NoNull bytes
    → (V1.get_uuid (V1.set_uuid d bytes) ≡ take (max_uuid_len - 1) bytes)
      × (V2.get_uuid (V2.set_uuid e bytes) ≡ take (max_uuid_len - 1) bytes)
unfolding V1.get_uuid V1.set_uuid V2.get_uuid V2.set_uuid
get_uuid-set_uuid d e bytes h = (load_uuid-store_uuid bytes h, load_uuid-store_uuid bytes h)
