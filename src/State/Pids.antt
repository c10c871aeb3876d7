-- ===== src/State/Pids.antt =====
-- The registered processes, as an abstract set of numbers.
use vgpu_rs.Base.{
  ℕ, zero, suc, ◌+◌, ◌≤◌, ◌<◌, ◌≡◌, ◌≢◌, ◌↔◌, ◌⊎◌, refl, sym, ap, ◌∙◌, inl, inr, List, [], ◌∷◌,
  Option, none, some, map, arith, Bool-cases, Option-cases, ltb, ◌==◌, ==_iff, if◌then◌else◌, ok,
}
use vgpu_rs.Device.{DeviceConfig}
use vgpu_rs.Set
use vgpu_rs.Set.{Set}
use vgpu_rs.Set.View.{view, IsValid, new-IsValid, view-new, view_out}
use vgpu_rs.Set.Insert.{Inserts, full, taken}
use vgpu_rs.Set.Listing.{listing, iter-listing}
use vgpu_rs.Set.Values.{
  InsertsIfAbsent, present, absent, insert_if_absent-Deduplication, IsDistinct, Removes, missing,
  removed, remove_value-ValueRemoval,
}
use vgpu_rs.Set.Distinct.{InsertsIfAbsent-IsDistinct, Removes-IsDistinct}
use vgpu_rs.State.{max_processes, EntryOps, DeviceState, new, add_pid, remove_pid, get_all_pids}

-- The abstract view: which processes are registered.
abbrev pub Registered : {E : Type 0} → DeviceState E → ℕ → Type 0
Registered s pid = (i : ℕ) × (view s.pids i ≡ some pid)

-- No slot is left.
abbrev pub IsFull : {E : Type 0} → DeviceState E → Type 0
IsFull s = (j : ℕ) → j < max_processes → view s.pids j ≢ none

pub record PidsValid {E : Type 0} (s : DeviceState E) : Type 0 where
  pub valid : IsValid max_processes s.pids
  pub distinct : IsDistinct max_processes ◌==◌ s.pids

pub new-PidsValid :
    {E : Type 0} (ops : EntryOps E) (pid now : ℕ) (configs : List DeviceConfig)
    → PidsValid (new ops pid now configs)
unfolding new
new-PidsValid ops pid now configs = record {
  valid = new-IsValid ℕ max_processes (omega arith) (omega arith);
  distinct = λ i j v w p q same. absurd (nothing i v p);
}
  where
    nothing : (i v : ℕ) → view (Set.new {T = ℕ} max_processes) i ≡ some v → ⊥
    nothing i v p = ground (arith, view-new ℕ max_processes i)

module _ {E : Type 0} (s : DeviceState E) (pid : ℕ) (h : PidsValid s) where
  abbrev with_pids : Set ℕ → DeviceState E
  with_pids pids = record s { pids = pids }

  inserts_kept :
      (s' : Set ℕ) (r : Option ℕ)
      → Inserts max_processes s.pids pid s' r
      → (q : ℕ) → Registered s q
      → Registered (with_pids s') q
  inserts_kept s' none (full e all) q (i, e') = (i, ap (λ x. view x i) e ∙ e')
  inserts_kept s' (some k) (taken a lt free before shown len) q (i, e') = (i, shown i ∙ kept)
    where
      kept : (if k == i then some pid else view s.pids i) ≡ some q
      kept = elim (Bool-cases (k == i)) [
        | inl same ↦
            let at : k ≡ i = ground arith in let gap : view s.pids i ≡ none = rw (← at) free in cc
        | inr other ↦ rw other e'
      ]

  inserts_new :
      (s' : Set ℕ) (r : Option ℕ)
      → Inserts max_processes s.pids pid s' r
      → (q : ℕ) → Registered (with_pids s') q
      → (q ≡ pid) ⊎ Registered s q
  inserts_new s' none (full e all) q (i, e') = inr (i, ap (λ x. view x i) (sym e) ∙ e')
  inserts_new s' (some k) (taken a lt free before shown len) q (i, e') =
      elim (Bool-cases (k == i)) [
        | inl same ↦ inl (ground (arith, shown i))
        | inr other ↦ inr (i, sym (shown i ∙ rw other) ∙ e')
      ]

  -- What `add_pid` does to the registered processes.
  pub record Adds (s' : DeviceState E) : Type 0 where
    pub keeps : (q : ℕ) → Registered s q → Registered s' q
    pub only : (q : ℕ) → Registered s' q → (q ≡ pid) ⊎ Registered s q
    pub there : Registered s' pid ⊎ IsFull s

  add_effect :
      (s' : Set ℕ) (r : Option ℕ)
      → InsertsIfAbsent max_processes ◌==◌ s.pids h.valid pid s' r
      → Adds (with_pids s')
  add_effect s' (some k) (present i (v, a, b, shown, hit, first) e) = record {
    keeps = λ q (j, e'). (j, ap (λ x. view x j) e ∙ e');
    only = λ q (j, e'). inr (j, ap (λ x. view x j) (sym e) ∙ e');
    there = inl (i, ap (λ x. view x i) e ∙ shown ∙ ap some ((==_iff v pid).0 hit));
  }
  add_effect s' none (absent r new (full e all)) = record {
    keeps = inserts_kept s' none (full e all);
    only = inserts_new s' none (full e all);
    there = inr all;
  }
  add_effect s' (some k) (absent r new (taken i lt free before shown len)) = record {
    keeps = inserts_kept s' (some i) (taken i lt free before shown len);
    only = inserts_new s' (some i) (taken i lt free before shown len);
    there = inl (i, shown i ∙ ground arith);
  }

  -- With the invariant (a valid set of distinct processes), `add_pid` returns and keeps it. Every
  -- registered process stays registered, no process but `pid` is new, and `pid` is registered
  -- unless all slots were in use.
  pub add_pid-Adds : (s' : DeviceState E) × (add_pid s pid ≡ ok s') × PidsValid s' × Adds s'
  unfolding add_pid
  add_pid-Adds =
      let (pids, r, e, valid, ins) =
        insert_if_absent-Deduplication max_processes ◌==◌ s.pids h.valid pid in
      (
        with_pids pids,
        rw (e, add_pid),
        record {
          valid = valid;
          distinct =
              InsertsIfAbsent-IsDistinct max_processes ◌==◌ ==_iff s.pids pids h.valid pid r
                h.distinct ins;
        },
        add_effect pids r ins,
      )

  Removes-kept :
      (s' : Set ℕ) (r : Option (ℕ × ℕ))
      → Removes max_processes ◌==◌ s.pids h.valid pid s' r
      → (q : ℕ) → Registered s q
      → q ≢ pid
      → Registered (with_pids s') q
  Removes-kept s' none (missing new e) q (i, e') ne = (i, ap (λ x. view x i) e ∙ e')
  Removes-kept s' (some t) (removed k v shown hit gone len) q (i, e') ne = (i, gone i ∙ kept)
    where
      kept : (if k == i then none else view s.pids i) ≡ some q
      kept = elim (Bool-cases (k == i)) [
        | inl same ↦
            let at : k ≡ i = ground arith in
            let mine : view s.pids i ≡ some v = rw (← at) shown in
            let v_pid : v ≡ pid = (==_iff v pid).0 hit in absurd (ne (ground arith))
        | inr other ↦ rw other e'
      ]

  Removes-old :
      (s' : Set ℕ) (r : Option (ℕ × ℕ))
      → Removes max_processes ◌==◌ s.pids h.valid pid s' r
      → (q : ℕ) → Registered (with_pids s') q
      → Registered s q
  Removes-old s' none (missing new e) q (i, e') = (i, ap (λ x. view x i) (sym e) ∙ e')
  Removes-old s' (some t) (removed k v shown hit gone len) q (i, e') = elim (Bool-cases (k == i)) [
    | inl same ↦ let g : view s' i ≡ none = gone i ∙ rw same in cc
    | inr other ↦ (i, sym (gone i ∙ rw other) ∙ e')
  ]

  -- With the invariant (a valid set of distinct processes), `remove_pid` returns and keeps it, and
  -- takes out `pid` and nothing else.
  pub remove_pid-exact :
      (s' : DeviceState E) × (remove_pid s pid ≡ ok s')
      × PidsValid s'
      × ((q : ℕ) → Registered s' q ↔ (Registered s q × (q ≢ pid)))
  unfolding remove_pid
  remove_pid-exact =
      let (pids, r, e, valid, gone) =
        remove_value-ValueRemoval max_processes ◌==◌ s.pids h.valid pid in
      let (distinct, unregistered) =
        Removes-IsDistinct max_processes ◌==◌ ==_iff s.pids pids h.valid pid r h.distinct gone in
      (
        with_pids pids,
        rw (e, remove_pid),
        record { valid = valid; distinct = distinct },
        λ q. (
          (λ reg. (Removes-old pids r gone q reg, λ eq. unregistered (rw eq at reg))),
          λ both. Removes-kept pids r gone q both.0 both.1,
        ),
      )

abbrev pub Among : ℕ → List ℕ → Type 0
Among q [] = ⊥
Among q (x ∷ xs) = (q ≡ x) ⊎ Among q xs

module _ {E : Type 0} (s : DeviceState E) where
  Among-shown :
      (rounds i q : ℕ) → Among q (map (λ t. t.1) (listing s.pids rounds i)) → Registered s q
  unfolding listing
  Among-shown zero i q m = absurd m
  Among-shown (suc rounds) i q m = elim (Option-cases (view s.pids i)) [
    | inl e ↦ Among-shown rounds (i + 1) q (rw (e, listing) at m)
    | inr (v, e) ↦ first v e (rw (e, listing) at m) (Among-shown rounds (i + 1) q)
  ]
    where
      first :
          (v : ℕ)
          → view s.pids i ≡ some v
          → Among q (v ∷ map (λ t. t.1) (listing s.pids rounds (i + 1)))
          → (Among q (map (λ t. t.1) (listing s.pids rounds (i + 1))) → Registered s q)
          → Registered s q
      first v e (inl here) ih = (i, e ∙ ap some (sym here))
      first v e (inr later) ih = ih later

  shown-Among :
      (rounds i q j : ℕ)
      → i ≤ j
      → j < i + rounds
      → view s.pids j ≡ some q
      → Among q (map (λ t. t.1) (listing s.pids rounds i))
  unfolding listing
  shown-Among zero i q j a b e = absurd (omega arith)
  shown-Among (suc rounds) i q j a b e = elim (Bool-cases (i == j)) [
    | inl here ↦
        let at : i ≡ j = ground arith in
        let shown : view s.pids i ≡ some q = rw at e in rw (shown, listing) (inl refl)
    | inr other ↦
        let rest = shown-Among rounds (i + 1) q j (ground arith) (omega arith) e in
        elim (Option-cases (view s.pids i)) [
          | inl gap ↦ rw (gap, listing) rest
          | inr (v, held) ↦ rw (held, listing) (inr rest)
        ]
  ]

  -- With the invariant (a valid set of distinct processes), `get_all_pids` returns the registered
  -- processes and no others.
  pub get_all_pids-Registered :
      PidsValid s
      → (pids : List ℕ) × (get_all_pids s ≡ ok pids) × ((q : ℕ) → Among q pids ↔ Registered s q)
  unfolding get_all_pids
  get_all_pids-Registered h = (
    map (λ t. t.1) (listing s.pids max_processes 0),
    rw (iter-listing max_processes s.pids h.valid, get_all_pids),
    λ q. (
      Among-shown max_processes 0 q,
      λ (i, e). shown-Among max_processes 0 q i (omega arith) (inside i q e) e,
    ),
  )
    where
      inside : (i q : ℕ) → view s.pids i ≡ some q → i < 0 + max_processes
      inside i q e = elim (Bool-cases (ltb i max_processes)) [
        | inl lt ↦ ground arith
        | inr out ↦ let gap = view_out max_processes s.pids h.valid i (ground arith) in ground arith
      ]
