-- ===== src/Device/Tokens/Bounds.antt =====
-- The tokens and the capacity stay between zero and a limit.
use vgpu_rs.Base.{ℕ, ◌≡◌, inl, inr, true, false, arith, Bool-cases, some, subst, sym}
use vgpu_rs.Float.{Float}
use vgpu_rs.Float.Laws.{le_parts, le_of_parts, max-ge, max-le, min-le}
use vgpu_rs.Device.Tokens.{
  Bucket, sub_value, add_value, sub_tokens, add_tokens, Pc, sub_loading, sub_swapping, System, run,
  call_sub, call_add, stores_tokens, stores_capacity, Reach, here, next,
}
use vgpu_rs.Device.Tokens.Linear.{
  Call, Commit, silent, subtracts, adds, IsFresh, Reach-AllFresh, act-Commit, quiet, call_of,
}

module _ (f : Float) where
  open f use {
    F, ratio, lt, le, is_nan, lt_total, lt_irrefl, sub_le, from_bits, to_bits, from_bits-to_bits,
  }

  -- What is not above a value that is not above the bound is not above the bound.
  not_above_trans :
      (bound x y : F) → is_nan x ≡ false → lt bound x ≡ false → lt x y ≡ false → lt bound y ≡ false
  not_above_trans bound x y number p q = elim (Bool-cases (lt bound y)) [
    | inr fine ↦ fine
    | inl above ↦ elim (lt_total bound x y number above) [
      | inl r ↦ ground arith
      | inr r ↦ ground arith
    ]
  ]

  module _ (limit : F) where
    -- A number between zero and the limit.
    abbrev pub IsInLimit : F → Type 0
    IsInLimit x = (le (ratio 0 1) x ≡ true) × (le x limit ≡ true)

    -- Both words are such numbers.
    pub record IsBounded (b : Bucket) : Type 0 where
      pub capacity : IsInLimit (from_bits b.capacity)
      pub tokens : IsInLimit (from_bits b.word)

    in_limit :
        (x : F) → IsInLimit x → (y : F) → lt limit y ≡ false → le (ratio 0 1) y ≡ true → IsInLimit y
    in_limit x h y fits positive =
        (positive, le_of_parts f y limit (le_parts f _ _ positive).1 (le_parts f _ _ h.1).1 fits)

    sub_tokens-IsInLimit :
        (word : ℕ) (cost : F)
        → le (ratio 0 1) cost ≡ true
        → IsInLimit (from_bits word)
        → IsInLimit (from_bits (sub_tokens f word cost).0)
    unfolding sub_tokens sub_value
    sub_tokens-IsInLimit word cost nonneg h = elim (Bool-cases (lt (from_bits word) cost)) [
      | inl short ↦ rw short h
      | inr enough ↦
          let (zero_number, number, _) = le_parts f _ _ h.0 in
          rw (enough, from_bits-to_bits)
            (in_limit (from_bits word) h _
              (max-le f _ (ratio 0 1) limit
                (not_above_trans limit (from_bits word) _ number (le_parts f _ _ h.1).2
                  (sub_le (from_bits word) cost nonneg))
                (not_above_trans limit (from_bits word) (ratio 0 1) number (le_parts f _ _ h.1).2
                  (le_parts f _ _ h.0).2))
              (max-ge f _ (ratio 0 1) zero_number))
    ]

    add_tokens-IsInLimit :
        (word : ℕ) (amount capacity : F)
        → IsInLimit capacity
        → IsInLimit (from_bits (add_tokens f capacity word amount).0)
    unfolding add_tokens add_value
    add_tokens-IsInLimit word amount capacity h =
        let (zero_number, number, positive) = le_parts f _ _ h.0 in
        let fits = (le_parts f _ _ h.1).2 in
        rw from_bits-to_bits (
          in_limit capacity h _
            (not_above_trans limit capacity _ number fits
              (max-le f _ (ratio 0 1) capacity (min-le f _ capacity number) positive))
            (max-ge f _ (ratio 0 1) zero_number))

    -- A thread in a subtraction asks for a cost that is not negative.
    cost_nonneg :
        (p : Pc f) (cost : F)
        → IsFresh f IsInLimit IsInLimit p
        → call_of f p ≡ some (Call.sub cost)
        → le (ratio 0 1) cost ≡ true
    cost_nonneg (sub_loading c) cost fresh e = let at : c ≡ cost = cc in rw (← at) fresh
    cost_nonneg (sub_swapping c bits) cost fresh e = let at : c ≡ cost = cc in rw (← at) fresh.0
    cost_nonneg p cost fresh e = cc

    Commit-IsBounded :
        (b b' : Bucket) (p p' : Pc f)
        → IsFresh f IsInLimit IsInLimit p
        → Commit f IsInLimit IsInLimit b p b' p'
        → IsBounded b
        → IsBounded b'
    Commit-IsBounded b b' p p' fresh (silent e _) bounded = rw e bounded
    Commit-IsBounded b b' p p' fresh (subtracts cost call e _) bounded = rw e (record {
      capacity = bounded.capacity;
      tokens = sub_tokens-IsInLimit b.word cost (cost_nonneg p cost fresh call) bounded.tokens;
    })
    Commit-IsBounded b b' p p' fresh (adds amount capacity _ _ allowed e _) bounded = rw e (record {
      capacity = bounded.capacity;
      tokens = add_tokens-IsInLimit b.word amount capacity allowed;
    })

    -- From a bucket at rest whose capacity and tokens are numbers between zero and a limit, by any
    -- interleaving of calls (the costs are not negative, the amounts are any values), of stores of
    -- tokens and of stores of the capacity (the stored values are numbers between zero and the limit):
    -- the capacity and the tokens are numbers between zero and the limit.
    pub tokens-IsBounded :
        {b : Bucket} {s : System f}
        → IsBounded b
        → Reach f IsInLimit IsInLimit (quiet f b) s
        → IsBounded s.bucket
    tokens-IsBounded h here = h
    tokens-IsBounded {b} h (next {t} r (run i)) =
        let fresh = Reach-AllFresh f IsInLimit IsInLimit r (h.capacity, λ _. tt) in
        Commit-IsBounded t.bucket _ (t.pc i) _ (fresh.1 i)
          (act-Commit f IsInLimit IsInLimit h.capacity r i) (tokens-IsBounded h r)
    tokens-IsBounded h (next r (call_sub i cost nonneg)) = tokens-IsBounded h r
    tokens-IsBounded h (next r (call_add i amount)) = tokens-IsBounded h r
    tokens-IsBounded h (next r (stores_tokens tokens ok)) = record {
      capacity = (tokens-IsBounded h r).capacity;
      tokens = subst IsInLimit (sym (from_bits-to_bits tokens)) ok;
    }
    tokens-IsBounded h (next r (stores_capacity capacity ok)) = record {
      capacity = subst IsInLimit (sym (from_bits-to_bits capacity)) ok;
      tokens = (tokens-IsBounded h r).tokens;
    }
