-- ===== src/Device/Tokens/Linear.antt =====
-- The loops are atomic: each call takes effect at one access, as one pass without interference does.
use vgpu_rs.Base.{
  ℕ, ◌≡◌, refl, ap, sym, subst, inl, inr, true, false, Option, none, some, arith, ◌==◌, Bool-cases,
}
use vgpu_rs.Float.{Float}
use vgpu_rs.Device.Tokens.{
  Bucket, sub_value, add_value, sub_tokens, add_tokens, Pc, idle, sub_loading, sub_swapping,
  add_starting, add_loading, add_swapping, done, sub_loaded, swap, advance, System, act, Step, run,
  call_sub, call_add, stores_tokens, stores_capacity, Reach, here, next, update,
}

module _ (f : Float) where
  open f use {F, ratio, lt, le, from_bits, to_bits, from_bits-to_bits}

  pub data Call : Type 0 where
    sub : F → Call
    add : F → Call

  -- The call that a thread is in.
  abbrev pub call_of : Pc f → Option Call
  call_of idle = none
  call_of (sub_loading cost) = some (sub cost)
  call_of (sub_swapping cost bits) = some (sub cost)
  call_of (add_starting amount) = some (add amount)
  call_of (add_loading amount capacity) = some (add amount)
  call_of (add_swapping amount capacity bits) = some (add amount)
  call_of (done before) = none

  -- The capacity that a thread has loaded in its call.
  abbrev pub loaded_capacity : Pc f → Option F
  loaded_capacity (add_loading amount capacity) = some capacity
  loaded_capacity (add_swapping amount capacity bits) = some capacity
  loaded_capacity _ = none

  -- The parameters say which tokens and which capacities may be stored.
  module _ (Tokens Capacity : F → Type 0) where
    -- What an access of a thread does to the bucket and to its call: nothing yet, or the whole call,
    -- an addition with the capacity that it has loaded.
    pub data Commit (b : Bucket) (p : Pc f) (b' : Bucket) (p' : Pc f) : Type 0 where
      silent : b' ≡ b → call_of p' ≡ call_of p → Commit b p b' p'
      subtracts :
          (cost : F)
          → call_of p ≡ some (sub cost)
          → b' ≡ record b { word = (sub_tokens f b.word cost).0 }
          → p' ≡ done (sub_tokens f b.word cost).1
          → Commit b p b' p'
      adds :
          (amount capacity : F)
          → call_of p ≡ some (add amount)
          → loaded_capacity p ≡ some capacity
          → Capacity capacity
          → b' ≡ record b { word = (add_tokens f capacity b.word amount).0 }
          → p' ≡ done (add_tokens f capacity b.word amount).1
          → Commit b p b' p'

    -- What the locals of a thread say.
    abbrev pub IsFresh : Pc f → Type 0
    IsFresh (sub_loading cost) = le (ratio 0 1) cost ≡ true
    IsFresh (sub_swapping cost bits) =
        (le (ratio 0 1) cost ≡ true) × (lt (from_bits bits) cost ≡ false)
    IsFresh (add_loading amount capacity) = Capacity capacity
    IsFresh (add_swapping amount capacity bits) = Capacity capacity
    IsFresh _ = Unit {0}

    Commit-load : (b : Bucket) (cost : F) → Commit b (sub_loading cost) b (sub_loaded f cost b.word)
    unfolding sub_loaded sub_tokens
    Commit-load b cost = elim (Bool-cases (lt (from_bits b.word) cost)) [
      | inl short ↦ subtracts cost refl (rw short) (rw short)
      | inr enough ↦ silent refl (rw enough)
    ]

    Commit-sub :
        (b : Bucket) (cost : F) (bits : ℕ)
        → lt (from_bits bits) cost ≡ false
        → let r = swap f b bits (sub_value f (from_bits bits) cost) (sub_loading cost) in
          Commit b (sub_swapping cost bits) r.0 r.1
    unfolding swap sub_tokens
    Commit-sub b cost bits enough = elim (Bool-cases (b.word == bits)) [
      | inl same ↦
          let at : b.word ≡ bits = ground arith in
          let enough' : lt (from_bits b.word) cost ≡ false = rw at enough in
          rw same (
            subtracts cost refl
              (rw enough'
                (ap (λ w. record b { word = to_bits (sub_value f (from_bits w) cost) }) (sym at)))
              (rw enough' (ap (λ w. done (from_bits w)) (sym at))))
      | inr changed ↦ rw changed (silent refl refl)
    ]

    Commit-add :
        (b : Bucket) (amount capacity : F) (bits : ℕ)
        → Capacity capacity
        → let r =
            swap f b bits
              (add_value f capacity (from_bits bits) amount)
              (add_loading amount capacity) in
          Commit b (add_swapping amount capacity bits) r.0 r.1
    unfolding swap add_tokens
    Commit-add b amount capacity bits allowed = elim (Bool-cases (b.word == bits)) [
      | inl same ↦
          let at : b.word ≡ bits = ground arith in
          rw same (
            adds amount capacity refl refl allowed
              (ap (λ w. record b { word = to_bits (add_value f capacity (from_bits w) amount) })
                (sym at))
              (ap (λ w. done (from_bits w)) (sym at)))
      | inr changed ↦ rw changed (silent refl refl)
    ]

    advance-Commit :
        (b : Bucket) (p : Pc f) → IsFresh p → Commit b p (advance f b p).0 (advance f b p).1
    unfolding advance
    advance-Commit b idle fresh = silent refl refl
    advance-Commit b (sub_loading cost) fresh = Commit-load b cost
    advance-Commit b (sub_swapping cost bits) fresh = Commit-sub b cost bits fresh.1
    advance-Commit b (add_starting amount) fresh = silent refl refl
    advance-Commit b (add_loading amount capacity) fresh = silent refl refl
    advance-Commit b (add_swapping amount capacity bits) fresh =
        Commit-add b amount capacity bits fresh
    advance-Commit b (done before) fresh = silent refl refl

    advance-IsFresh :
        (b : Bucket) (p : Pc f)
        → Capacity (from_bits b.capacity)
        → IsFresh p
        → IsFresh (advance f b p).1
    unfolding advance swap sub_loaded
    advance-IsFresh b idle allowed fresh = tt
    advance-IsFresh b (sub_loading cost) allowed fresh =
        elim (Bool-cases (lt (from_bits b.word) cost)) [
          | inl short ↦ rw short tt
          | inr enough ↦ rw enough (fresh, enough)
        ]
    advance-IsFresh b (sub_swapping cost bits) allowed fresh = elim (Bool-cases (b.word == bits)) [
      | inl same ↦ rw same tt
      | inr changed ↦ rw changed fresh.0
    ]
    advance-IsFresh b (add_starting amount) allowed fresh = allowed
    advance-IsFresh b (add_loading amount capacity) allowed fresh = fresh
    advance-IsFresh b (add_swapping amount capacity bits) allowed fresh =
        elim (Bool-cases (b.word == bits)) [
          | inl same ↦ rw same tt
          | inr changed ↦ rw changed fresh
        ]
    advance-IsFresh b (done before) allowed fresh = tt

    same_capacity : (b : Bucket) (p : Pc f) → (advance f b p).0.capacity ≡ b.capacity
    unfolding advance swap
    same_capacity b idle = refl
    same_capacity b (sub_loading cost) = refl
    same_capacity b (sub_swapping cost bits) = ground arith
    same_capacity b (add_starting amount) = refl
    same_capacity b (add_loading amount capacity) = refl
    same_capacity b (add_swapping amount capacity bits) = ground arith
    same_capacity b (done before) = refl

    -- The capacity may be stored, and so may every capacity that a thread has loaded.
    abbrev pub AllFresh : System f → Type 0
    AllFresh s = Capacity (from_bits s.bucket.capacity) × ((i : ℕ) → IsFresh (s.pc i))

    begun-AllFresh :
        (s : System f) (i : ℕ) (p : Pc f)
        → AllFresh s
        → IsFresh p
        → AllFresh (record s { pc = update f s.pc i p })
    begun-AllFresh s i p (allowed, fresh) own = (
      allowed,
      λ j. elim (Bool-cases (i == j)) [ inl same ↦ rw same own | inr other ↦ rw other (fresh j) ],
    )

    Step-AllFresh : {s t : System f} → Step f Tokens Capacity s t → AllFresh s → AllFresh t
    unfolding act
    Step-AllFresh {s} (run i) (allowed, fresh) =
        let kept : Capacity (from_bits (advance f s.bucket (s.pc i)).0.capacity) =
          subst (λ c. Capacity (from_bits c)) (sym (same_capacity s.bucket (s.pc i))) allowed in
        (
          kept,
          (begun-AllFresh s i (advance f s.bucket (s.pc i)).1 (allowed, fresh)
              (advance-IsFresh s.bucket (s.pc i) allowed (fresh i))).1,
        )
    Step-AllFresh {s} (call_sub i cost h) fresh = begun-AllFresh s i (sub_loading cost) fresh h
    Step-AllFresh {s} (call_add i amount) fresh = begun-AllFresh s i (add_starting amount) fresh tt
    Step-AllFresh (stores_tokens tokens h) fresh = fresh
    Step-AllFresh (stores_capacity capacity h) (allowed, fresh) =
        (subst Capacity (sym (from_bits-to_bits capacity)) h, fresh)

    pub Reach-AllFresh : {s t : System f} → Reach f Tokens Capacity s t → AllFresh s → AllFresh t
    Reach-AllFresh here fresh = fresh
    Reach-AllFresh (next r st) fresh = Step-AllFresh st (Reach-AllFresh r fresh)

  abbrev pub quiet : Bucket → System f
  quiet b = record { bucket = b; pc = λ _. idle }

  module _ (Tokens Capacity : F → Type 0) where
    pub act-Commit :
        {b : Bucket} {s : System f}
        → Capacity (from_bits b.capacity)
        → Reach f Tokens Capacity (quiet b) s
        → (i : ℕ) → Commit Tokens Capacity s.bucket (s.pc i) (act f s i).bucket ((act f s i).pc i)
    unfolding act
    act-Commit {b} {s} allowed r i =
        let e : (i == i) ≡ true = ground arith in
        let fresh = Reach-AllFresh Tokens Capacity r (allowed, λ _. tt) in
        rw e (advance-Commit Tokens Capacity s.bucket (s.pc i) (fresh.1 i))
