-- ===== src/KeyedLock/Creation.antt =====
-- `get_or_create_lock` ends within two rounds.
use vgpu_rs.Base.{
  ℕ, zero, suc, ◌≡◌, ◌≤◌, ◌⊎◌, refl, sym, ap, ◌∙◌, inl, inr, true, false, Option, none, some, arith,
  ltb, if◌then◌else◌, Bool-cases, Option-cases,
}
use vgpu_rs.Dict.{Dict, Eq, fetch, assign, erase, fetch-assign, fetch-erase, beq_refl}
use vgpu_rs.KeyedLock.{KeyedAsyncLock, strong_count, round, get_or_create_lock}

module _ {K : Type 0} ⦃e : Eq K⦄ where
  -- No task has the mutex of the key, if it has one.
  abbrev pub IsUnused : K → KeyedAsyncLock K → Type 0
  IsUnused key s =
      (fetch key s.locks ≡ none)
      ⊎ ((m : ℕ) × (fetch key s.locks ≡ some m) × (strong_count m s.tasks ≡ 0))

  -- The mutex of a key that is in use, with nothing changed, or a new one, in the place of one that no
  -- task uses.
  pub record Gives (key : K) (s : KeyedAsyncLock K) (s' : KeyedAsyncLock K) (m : ℕ) : Type 0 where
    pub same_tasks : s'.tasks ≡ s.tasks
    pub entries : (j : K) → fetch j s'.locks ≡ (if e.beq key j then some m else fetch j s.locks)
    pub origin : (fetch key s.locks ≡ some m) ⊎ ((m ≡ s.next) × IsUnused key s)

  returns :
      (fuel : ℕ) (key : K) (s : KeyedAsyncLock K) {s' : KeyedAsyncLock K} {m : ℕ}
      → round key s ≡ (s', some m)
      → get_or_create_lock (suc fuel) key s ≡ some (s', m)
  unfolding get_or_create_lock
  returns fuel key s found =
      ap
        (λ (r : KeyedAsyncLock K × Option ℕ). elim (r.1) [
          | none ↦ get_or_create_lock fuel key r.0
          | some m ↦ some (r.0, m)
        ])
        found

  goes_round :
      (fuel : ℕ) (key : K) (s : KeyedAsyncLock K) {s' : KeyedAsyncLock K}
      → round key s ≡ (s', none)
      → get_or_create_lock (suc fuel) key s ≡ get_or_create_lock fuel key s'
  unfolding get_or_create_lock
  goes_round fuel key s found =
      ap
        (λ (r : KeyedAsyncLock K × Option ℕ). elim (r.1) [
          | none ↦ get_or_create_lock fuel key r.0
          | some m ↦ some (r.0, m)
        ])
        found

  created : K → KeyedAsyncLock K → KeyedAsyncLock K
  created key s = record s { locks = assign key s.next s.locks; next = suc s.next }

  round_absent :
      (key : K) (s : KeyedAsyncLock K)
      → fetch key s.locks ≡ none
      → round key s ≡ (created key s, some s.next)
  unfolding round created
  round_absent key s absent = rw (absent, round) refl

  round_alive :
      (key : K) (s : KeyedAsyncLock K) (m : ℕ)
      → fetch key s.locks ≡ some m
      → ltb 0 (strong_count m s.tasks) ≡ true
      → round key s ≡ (s, some m)
  unfolding round
  round_alive key s m found alive = rw (found, round, alive) refl

  round_dead :
      (key : K) (s : KeyedAsyncLock K) (m : ℕ)
      → fetch key s.locks ≡ some m
      → ltb 0 (strong_count m s.tasks) ≡ false
      → round key s ≡ (record s { locks = erase key s.locks }, none)
  unfolding round
  round_dead key s m found dead = rw (found, round, dead) refl

  created_entries :
      (key j : K) (s : KeyedAsyncLock K)
      → fetch j (created key s).locks ≡ (if e.beq key j then some s.next else fetch j s.locks)
  unfolding created
  created_entries key j s = fetch-assign key j s.next s.locks

  created_tasks : (key : K) (s : KeyedAsyncLock K) → (created key s).tasks ≡ s.tasks
  unfolding created
  created_tasks key s = refl

  same_entries :
      (key j : K) (s : KeyedAsyncLock K) (m : ℕ)
      → fetch key s.locks ≡ some m
      → fetch j s.locks ≡ (if e.beq key j then some m else fetch j s.locks)
  same_entries key j s m found = elim (Bool-cases (e.beq key j)) [
    | inl same ↦ rw same (ap (λ i. fetch i s.locks) (sym ((e.beq_iff key j).0 same)) ∙ found)
    | inr other ↦ rw other refl
  ]

  gone : (key : K) (locks : Dict K ℕ) → fetch key (erase key locks) ≡ none
  gone key locks = fetch-erase key key locks ∙ rw (beq_refl key) refl

  pruned_entries :
      (key j : K) (n : ℕ) (locks : Dict K ℕ)
      → (if e.beq key j then some n else fetch j (erase key locks))
        ≡ (if e.beq key j then some n else fetch j locks)
  pruned_entries key j n locks = elim (Bool-cases (e.beq key j)) [
    | inl same ↦ rw same refl
    | inr other ↦ rw other (fetch-erase key j locks ∙ rw other refl)
  ]

  -- With two rounds or more, `get_or_create_lock` returns a mutex that the map then has for the key. It
  -- is the one that was there, or a new one if the key has none that a task uses; the tasks and the
  -- entries of the other keys are as before.
  pub get_or_create_lock-Gives :
      (fuel : ℕ) (key : K) (s : KeyedAsyncLock K)
      → 2 ≤ fuel
      → (s' : KeyedAsyncLock K) × (m : ℕ) × (get_or_create_lock fuel key s ≡ some (s', m))
        × Gives key s s' m
  get_or_create_lock-Gives zero key s enough = absurd (omega arith)
  get_or_create_lock-Gives (suc zero) key s enough = absurd (omega arith)
  get_or_create_lock-Gives (suc (suc fuel)) key s enough = elim (Option-cases (fetch key s.locks)) [
    | inl absent ↦ (
      created key s,
      s.next,
      returns (suc fuel) key s (round_absent key s absent),
      record {
        same_tasks = created_tasks key s;
        entries = λ j. created_entries key j s;
        origin = inr (refl, inl absent);
      },
    )
    | inr (m, found) ↦ elim (Bool-cases (ltb 0 (strong_count m s.tasks))) [
      | inl alive ↦ (
        s,
        m,
        returns (suc fuel) key s (round_alive key s m found alive),
        record {
          same_tasks = refl;
          entries = λ j. same_entries key j s m found;
          origin = inl found;
        },
      )
      | inr dead ↦
          let pruned : KeyedAsyncLock K = record s { locks = erase key s.locks } in
          (
            created key pruned,
            s.next,
            goes_round (suc fuel) key s (round_dead key s m found dead)
                ∙ returns fuel key pruned (round_absent key pruned (gone key s.locks)),
            record {
              same_tasks = created_tasks key pruned;
              entries = λ j. created_entries key j pruned ∙ pruned_entries key j s.next s.locks;
              origin = inr (refl, inr (m, found, ground arith));
            },
          )
    ]
  ]
