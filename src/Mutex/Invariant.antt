-- ===== src/Mutex/Invariant.antt =====
-- While the process that created the lock is alive, the lock word says who owns the guard.
use vgpu_rs.Base.{
  ℕ, ◌≡◌, ◌≢◌, refl, sym, ap, ◌∙◌, ◌⊎◌, inl, inr, Bool, true, false, arith, Bool-cases, ◌==◌, u32,
}
use vgpu_rs.Mutex.{
  ShmMutex, Pc, idle, trying, loading, cleaning, critical, sweep_loading, sweep_storing, dead, new,
  advance, System, update, holds, move_to, act, Step, run, request, sweep, die, expire, Reach, here,
  next, start,
}

-- A thread that is about to free a lock that it does not own.
abbrev pub breaks : Pc → Bool
breaks (cleaning holder) = true
breaks sweep_storing = true
breaks _ = false

abbrev pub creator_alive : System → Bool
creator_alive s = s.kill (u32 s.mutex.pid)

pub record Inv (s : System) : Type 0 where
  pub nonzero : s.mutex.pid ≢ 0
  pub word : (s.mutex.lock ≡ 0) ⊎ (s.mutex.lock ≡ s.mutex.pid)
  pub free : s.mutex.lock ≡ 0 → (i : ℕ) → holds (s.pc i) ≡ false
  pub unique : (i j : ℕ) → holds (s.pc i) ≡ true → holds (s.pc j) ≡ true → i ≡ j
  pub harmless : (i : ℕ) → breaks (s.pc i) ≡ false

-- The lock word after an access of a thread at `p`, and where the thread then stands.
record Access (kill : ℕ → Bool) (m : ShmMutex) (p : Pc) : Type 0 where
  same_pid : (advance kill m p).0.pid ≡ m.pid
  word : ((advance kill m p).0.lock ≡ 0) ⊎ ((advance kill m p).0.lock ≡ m.pid)
  harmless : breaks (advance kill m p).1 ≡ false
  takes : holds (advance kill m p).1 ≡ true → (holds p ≡ true) ⊎ (m.lock ≡ 0)
  owned : (advance kill m p).0.lock ≡ 0 → holds (advance kill m p).1 ≡ false
  freed : (advance kill m p).0.lock ≡ 0 → (m.lock ≡ 0) ⊎ (holds p ≡ true)

advance-Access :
    (kill : ℕ → Bool) (m : ShmMutex) (p : Pc)
    → m.pid ≢ 0
    → (m.lock ≡ 0) ⊎ (m.lock ≡ m.pid)
    → kill (u32 m.pid) ≡ true
    → (m.lock ≡ 0 → holds p ≡ false)
    → breaks p ≡ false
    → Access kill m p
unfolding advance
advance-Access kill m idle nz w alive free ok = ground arith
advance-Access kill m trying nz w alive free ok = ground arith
advance-Access kill m loading nz w alive free ok = ground arith
advance-Access kill m (cleaning h) nz w alive free ok = ground arith
advance-Access kill m critical nz w alive free ok = ground arith
advance-Access kill m sweep_loading nz w alive free ok = ground arith
advance-Access kill m sweep_storing nz w alive free ok = ground arith
advance-Access kill m (dead held) nz w alive free ok = ground arith

module _ (s : System) (inv : Inv s) (alive : creator_alive s ≡ true) (i : ℕ) where
  access : Access s.kill s.mutex (s.pc i)
  access =
      advance-Access s.kill s.mutex (s.pc i) inv.nonzero inv.word alive (λ e. inv.free e i)
        (inv.harmless i)

  act_free : (act s i).mutex.lock ≡ 0 → (j : ℕ) → holds ((act s i).pc j) ≡ false
  unfolding act
  act_free e j = elim (Bool-cases (i == j)) [
    | inl own ↦ rw own (access.owned e)
    | inr other ↦ rw other (elim (access.freed e) [
      | inl was ↦ inv.free was j
      | inr held ↦ elim (Bool-cases (holds (s.pc j))) [
        | inr f ↦ f
        | inl t ↦ let at : i ≡ j = inv.unique i j held t in ground arith
      ]
    ])
  ]

  -- A thread that newly owns the guard found the lock free, so that nobody else owns it.
  newcomer :
      (j : ℕ) → holds (advance s.kill s.mutex (s.pc i)).1 ≡ true → holds (s.pc j) ≡ true → i ≡ j
  newcomer j t h = elim (access.takes t) [
    | inl held ↦ inv.unique i j held h
    | inr was ↦ let f = inv.free was j in cc
  ]

  act_unique : (a b : ℕ) → holds ((act s i).pc a) ≡ true → holds ((act s i).pc b) ≡ true → a ≡ b
  unfolding act
  act_unique a b p q = elim (Bool-cases (i == a)) [
    | inl at_a ↦ elim (Bool-cases (i == b)) [
      | inl at_b ↦ ground arith
      | inr off_b ↦
          let e : i ≡ a = ground arith in
          let new : holds (advance s.kill s.mutex (s.pc i)).1 ≡ true = rw at_a at p in
          let old : holds (s.pc b) ≡ true = rw off_b at q in rw (← e) (newcomer b new old)
    ]
    | inr off_a ↦
        let old : holds (s.pc a) ≡ true = rw off_a at p in
        elim (Bool-cases (i == b)) [
          | inl at_b ↦
              let e : i ≡ b = ground arith in
              let new : holds (advance s.kill s.mutex (s.pc i)).1 ≡ true = rw at_b at q in
              rw (← e) (sym (newcomer a new old))
          | inr off_b ↦ inv.unique a b old (rw off_b at q)
        ]
  ]

  act_harmless : (j : ℕ) → breaks ((act s i).pc j) ≡ false
  unfolding act
  act_harmless j = elim (Bool-cases (i == j)) [
    | inl own ↦ rw own access.harmless
    | inr other ↦ rw other (inv.harmless j)
  ]

  act-Inv : Inv (act s i)
  unfolding act
  act-Inv = record {
    nonzero = rw access.same_pid inv.nonzero;
    word = rw access.same_pid access.word;
    free = act_free;
    unique = act_unique;
    harmless = act_harmless;
  }

  -- To move a thread to a point that owns no more and breaks nothing.
  move_to-Inv : (p : Pc) → holds p ≡ holds (s.pc i) → breaks p ≡ false → Inv (move_to s i p)
  move_to-Inv p same ok = record {
    nonzero = inv.nonzero;
    word = inv.word;
    free = λ e j. moved j ∙ inv.free e j;
    unique = λ a b h k. inv.unique a b (sym (moved a) ∙ h) (sym (moved b) ∙ k);
    harmless = λ j. elim (Bool-cases (i == j)) [
      | inl own ↦ rw own ok
      | inr other ↦ rw other (inv.harmless j)
    ];
  }
    where
      moved : (j : ℕ) → holds (update s.pc i p j) ≡ holds (s.pc j)
      moved j = elim (Bool-cases (i == j)) [
        | inl own ↦ let e : i ≡ j = ground arith in rw own (same ∙ ap (λ k. holds (s.pc k)) e)
        | inr other ↦ rw other
      ]

pub start-Inv : (pid : ℕ) (kill : ℕ → Bool) → pid ≢ 0 → Inv (start pid kill)
unfolding new
start-Inv pid kill nz = record {
  nonzero = nz;
  word = inl refl;
  free = λ e i. refl;
  unique = λ i j p q. cc;
  harmless = λ i. refl;
}

advance_same_pid : (kill : ℕ → Bool) (m : ShmMutex) (p : Pc) → (advance kill m p).0.pid ≡ m.pid
unfolding advance
advance_same_pid kill m idle = refl
advance_same_pid kill m p = refl

pub act_same_pid : (s : System) (i : ℕ) → (act s i).mutex.pid ≡ s.mutex.pid
unfolding act
act_same_pid s i = advance_same_pid s.kill s.mutex (s.pc i)

-- A process that is alive after a step was alive before it.
pub Step-alive : {s t : System} → Step s t → creator_alive t ≡ true → creator_alive s ≡ true
unfolding act
Step-alive {s} (run i) h = rw (act_same_pid s i) at h
Step-alive (request i e) h = h
Step-alive (sweep i e) h = h
Step-alive (die i) h = h
Step-alive {s} (expire pid) h = ground arith

pub Step-Inv : {s t : System} → Step s t → creator_alive t ≡ true → Inv s → Inv t
Step-Inv {s} (run i) h inv = act-Inv s inv (Step-alive (run {s = s} i) h) i
Step-Inv {s} (request i e) h inv = move_to-Inv s inv h i trying (rw e) refl
Step-Inv {s} (sweep i e) h inv = move_to-Inv s inv h i sweep_loading (rw e) refl
Step-Inv {s} (die i) h inv = move_to-Inv s inv h i (dead (holds (s.pc i))) refl refl
Step-Inv {s} (expire pid) h inv = record {
  nonzero = inv.nonzero;
  word = inv.word;
  free = inv.free;
  unique = inv.unique;
  harmless = inv.harmless;
}

pub Reach-Inv : {s t : System} → Reach s t → creator_alive t ≡ true → Inv s → Inv t
Reach-Inv here h inv = inv
Reach-Inv (next r st) h inv = Step-Inv st h (Reach-Inv r (Step-alive st h) inv)
