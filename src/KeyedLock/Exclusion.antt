-- ===== src/KeyedLock/Exclusion.antt =====
-- Between whole calls of `drop`, at most one task holds the lock of a key.
use vgpu_rs.Base.{
  ℕ, ◌≡◌, ◌≤◌, ◌⊎◌, refl, sym, ap, ◌∙◌, inl, inr, List, none, some, arith, if◌then◌else◌,
  Bool-cases, Option-cases, All,
}
use vgpu_rs.Dict.{Dict, Eq, fetch}
use vgpu_rs.KeyedLock.{
  Phase, waiting, holding, released, removing, dropping, finished, refs, is_holding, Task,
  KeyedAsyncLock, total, holds_mutex, new,
}
use vgpu_rs.KeyedLock.Sums.{All-map, total_le}

idle-holding : (p : Phase) → refs p ≡ 0 → is_holding p ≡ 0
idle-holding waiting h = refl
idle-holding holding h = absurd (omega arith)
idle-holding released h = refl
idle-holding removing h = refl
idle-holding dropping h = refl
idle-holding finished h = refl

module _ {K : Type 0} ⦃e : Eq K⦄ where
  -- The task is over, or the map has its mutex for its key.
  abbrev pub Points : Dict K ℕ → Task K → Type 0
  Points locks t = (refs t.phase ≡ 0) ⊎ (fetch t.key locks ≡ some t.mutex)

  pub record IsSafe (s : KeyedAsyncLock K) : Type 0 where
    pub points : All (Points s.locks) s.tasks
    pub single : (m : ℕ) → total (holds_mutex m) s.tasks ≤ 1

  abbrev pub holds_key : K → Task K → ℕ
  holds_key key t = if e.beq t.key key then is_holding t.phase else 0

  pub new-IsSafe : IsSafe new
  unfolding new
  new-IsSafe = record { points = tt; single = λ m. omega arith }

  -- All who hold the key hold its mutex.
  holds_key-le :
      (key : K) (m : ℕ) (locks : Dict K ℕ) (t : Task K)
      → (fetch key locks ≡ none) ⊎ (fetch key locks ≡ some m)
      → Points locks t
      → holds_key key t ≤ holds_mutex m t
  holds_key-le key m locks t entry (inl idle) = ground (arith, idle-holding t.phase idle)
  holds_key-le key m locks t entry (inr points) = elim (Bool-cases (e.beq t.key key)) [
    | inr other ↦ rw other (omega arith)
    | inl same ↦
        let at = ap (λ i. fetch i locks) (sym ((e.beq_iff t.key key).0 same)) ∙ points in
        rw same (elim entry [
          | inl absent ↦ absurd (cc (sym at ∙ absent))
          | inr found ↦ let equal : t.mutex ≡ m = cc (sym at ∙ found) in ground arith
        ])
  ]

  All-holds :
      (key : K) (m : ℕ) (locks : Dict K ℕ) (ts : List (Task K))
      → (fetch key locks ≡ none) ⊎ (fetch key locks ≡ some m)
      → All (Points locks) ts
      → All (λ t. holds_key key t ≤ holds_mutex m t) ts
  All-holds key m locks ts entry a =
      All-map (Points locks) (λ t. holds_key key t ≤ holds_mutex m t) ts
        (λ t p. holds_key-le key m locks t entry p) a

  pub exclusive : (key : K) (s : KeyedAsyncLock K) → IsSafe s → total (holds_key key) s.tasks ≤ 1
  exclusive key s safe = elim (Option-cases (fetch key s.locks)) [
    | inl absent ↦ omega (
      arith,
      total_le (holds_key key) (holds_mutex 0) s.tasks
          (All-holds key 0 s.locks s.tasks (inl absent) safe.points),
      safe.single 0,
    )
    | inr (m, found) ↦ omega (
      arith,
      total_le (holds_key key) (holds_mutex m) s.tasks
          (All-holds key m s.locks s.tasks (inr found) safe.points),
      safe.single m,
    )
  ]
