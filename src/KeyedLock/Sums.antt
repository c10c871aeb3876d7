-- ===== src/KeyedLock/Sums.antt =====
-- Sums over the tasks when one of them changes or one is added.
use vgpu_rs.Base.{
  ℕ, zero, suc, ◌+◌, ◌≡◌, ◌≤◌, refl, subst, sym, ap, Option-cases, inl, inr, List, [], ◌∷◌, ◌++◌,
  Option, none, some, arith, get_elem?, set, All,
}
use vgpu_rs.KeyedLock.{Task, KeyedAsyncLock, total, with_task}

module _ {K : Type 0} (f : Task K → ℕ) where
  pub total-append : (ts us : List (Task K)) → total f (ts ++ us) ≡ total f ts + total f us
  total-append [] us = omega arith
  total-append (t ∷ ts) us = omega (arith, total-append ts us)

  pub total-set :
      (ts : List (Task K)) (i : ℕ) {t : Task K} (v : Task K)
      → get_elem? ts i ≡ some t
      → total f (set ts i v) + f t ≡ total f ts + f v
  total-set [] i v h = cc
  total-set (u ∷ ts) zero v h = ground arith
  total-set (u ∷ ts) (suc i) v h = omega (arith, total-set ts i v h)

module _ {K : Type 0} where
  pub set_twice : (ts : List (Task K)) (i : ℕ) (v w : Task K) → set (set ts i v) i w ≡ set ts i w
  set_twice [] i v w = refl
  set_twice (t ∷ ts) zero v w = refl
  set_twice (t ∷ ts) (suc i) v w = ground (arith, set_twice ts i v w)

  pub get_elem?-set_self :
      (ts : List (Task K)) (i : ℕ) {t : Task K} (v : Task K)
      → get_elem? ts i ≡ some t
      → get_elem? (set ts i v) i ≡ some v
  get_elem?-set_self [] i v h = cc
  get_elem?-set_self (t ∷ ts) zero v h = refl
  get_elem?-set_self (t ∷ ts) (suc i) v h = get_elem?-set_self ts i v h

  pub with_task-some :
      (i : ℕ) (s : KeyedAsyncLock K) (f : Task K → KeyedAsyncLock K) {t : Task K}
      → get_elem? s.tasks i ≡ some t
      → with_task i s f ≡ f t
  with_task-some i s f here = ap (λ (o : Option (Task K)). elim o [ none ↦ s | some t ↦ f t ]) here

  -- A property of the state is kept if each task's step keeps it.
  pub with_task-keeps :
      (P : KeyedAsyncLock K → Type 0) (i : ℕ) (s : KeyedAsyncLock K) (f : Task K → KeyedAsyncLock K)
      → P s
      → ((t : Task K) → get_elem? s.tasks i ≡ some t → P (f t))
      → P (with_task i s f)
  with_task-keeps P i s f now step = elim (Option-cases (get_elem? s.tasks i)) [
    | inl absent ↦
        subst P (sym (ap (λ (o : Option (Task K)). elim o [ none ↦ s | some t ↦ f t ]) absent)) now
    | inr (t, here) ↦ subst P (sym (with_task-some i s f here)) (step t here)
  ]

  pub All-append_one :
      (P : Task K → Type 0) (ts : List (Task K)) (t : Task K)
      → All P ts
      → P t
      → All P (ts ++ t ∷ [])
  All-append_one P [] t a p = (p, tt)
  All-append_one P (u ∷ ts) t a p = (a.0, All-append_one P ts t a.1 p)

  pub All-map :
      (P Q : Task K → Type 0) (ts : List (Task K))
      → ((t : Task K) → P t → Q t)
      → All P ts
      → All Q ts
  All-map P Q [] g a = tt
  All-map P Q (t ∷ ts) g a = (g t a.0, All-map P Q ts g a.1)

  pub All-both :
      (P Q : Task K → Type 0) (ts : List (Task K)) → All P ts → All Q ts → All (λ t. P t × Q t) ts
  All-both P Q [] a b = tt
  All-both P Q (t ∷ ts) a b = ((a.0, b.0), All-both P Q ts a.1 b.1)

  pub All-at :
      (P : Task K → Type 0) (ts : List (Task K)) (i : ℕ) {t : Task K}
      → All P ts
      → get_elem? ts i ≡ some t
      → P t
  All-at P [] i a h = cc
  All-at P (u ∷ ts) zero {t} a h = let at : u ≡ t = cc in subst P at a.0
  All-at P (u ∷ ts) (suc i) a h = All-at P ts i a.1 h

  -- A sum that is zero has only zeros.
  pub total_zero : (f : Task K → ℕ) (ts : List (Task K)) → total f ts ≡ 0 → All (λ t. f t ≡ 0) ts
  total_zero f [] h = tt
  total_zero f (t ∷ ts) h = (omega arith, total_zero f ts (omega arith))

  -- A sum bounds another if each of its terms does.
  pub total_le :
      (f g : Task K → ℕ) (ts : List (Task K)) → All (λ t. f t ≤ g t) ts → total f ts ≤ total g ts
  total_le f g [] a = omega arith
  total_le f g (t ∷ ts) a = omega (arith, a.0, total_le f g ts a.1)
