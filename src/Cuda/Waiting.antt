-- ===== src/Cuda/Waiting.antt =====
-- `wait_and_retry` ends soon after the device becomes unhealthy, and with the first attempt that is not
-- refused.
use vgpu_rs.Base.{
  ℕ, zero, suc, ◌+◌, ◌*◌, ◌/◌, ◌%◌, ◌≡◌, ◌≤◌, ◌<◌, ◌⊎◌, ◌↔◌, refl, sym, ap, ◌∙◌, subst, inl, inr,
  Bool, true, false, Option, none, some, arith, ◌==◌, Bool-cases, Option-cases,
}
use vgpu_rs.Cuda.{LimiterError, Answer, answer, error, wait_and_retry}

abbrev pub is_failing : Option LimiterError → Bool
is_failing none = false
is_failing (some e) = true

-- The attempt is refused.
abbrev pub is_refused : Answer Bool → Bool
is_refused (answer true) = false
is_refused (answer false) = true
is_refused (error e) = false

pub Answer-cases :
    (c : Answer Bool)
    → ((c ≡ answer true) ⊎ (c ≡ answer false)) ⊎ ((e : LimiterError) × (c ≡ error e))
Answer-cases (answer true) = inl (inl refl)
Answer-cases (answer false) = inl (inr refl)
Answer-cases (error e) = inr (e, refl)

module _ (check : ℕ → Answer Bool) (health : ℕ → Option LimiterError) where
  Ends : ℕ → ℕ → ℕ → Type 0
  Ends fuel n target =
      (result : Answer (Unit {0})) × (waits : ℕ) × (wait_and_retry check health fuel n
        ≡ some (result, waits))
      × (waits ≤ target)

  -- A refused attempt, and no failure of the health at the wait after it: the loop goes round.
  goes_round :
      (fuel n : ℕ)
      → check n ≡ answer false
      → (((n + 1) % 10 == 0) ≡ false) ⊎ (health (n + 1) ≡ none)
      → wait_and_retry check health (suc fuel) n ≡ wait_and_retry check health fuel (n + 1)
  unfolding wait_and_retry
  goes_round fuel n refused (inl early) = rw (refused, wait_and_retry, early) refl
  goes_round fuel n refused (inr healthy) = elim (Bool-cases ((n + 1) % 10 == 0)) [
    | inl tenth ↦ rw (refused, wait_and_retry, tenth, healthy) refl
    | inr early ↦ rw (refused, wait_and_retry, early) refl
  ]

  gives_up :
      (fuel n : ℕ) {e : LimiterError}
      → check n ≡ answer false
      → ((n + 1) % 10 == 0) ≡ true
      → health (n + 1) ≡ some e
      → wait_and_retry check health (suc fuel) n ≡ some (error e, n + 1)
  unfolding wait_and_retry
  gives_up fuel n refused tenth sick = rw (refused, wait_and_retry, tenth, sick) refl

  admits :
      (fuel n : ℕ)
      → check n ≡ answer true
      → wait_and_retry check health (suc fuel) n ≡ some (answer tt, n)
  unfolding wait_and_retry
  admits fuel n at = rw (at, wait_and_retry) refl

  breaks :
      (fuel n : ℕ) {e : LimiterError}
      → check n ≡ error e
      → wait_and_retry check health (suc fuel) n ≡ some (error e, n)
  unfolding wait_and_retry
  breaks fuel n at = rw (at, wait_and_retry) refl

  wait-Ends :
      (fuel n target : ℕ)
      → n < target
      → target ≤ n + fuel
      → target % 10 ≡ 0
      → is_failing (health target) ≡ true
      → Ends fuel n target
  unfolding Ends
  wait-Ends zero n target before enough tenth failing = absurd (omega arith)
  wait-Ends (suc fuel) n target before enough tenth failing =
      let later : (n + 1 < target) → Ends fuel (n + 1) target =
        λ more. wait-Ends fuel (n + 1) target more (omega arith) tenth failing in
      elim (Answer-cases (check n)) [
        | inr (e, at) ↦ (error e, n, breaks fuel n at, omega arith)
        | inl (inl at) ↦ (answer tt, n, admits fuel n at, omega arith)
        | inl (inr refused) ↦ elim (Bool-cases ((n + 1) % 10 == 0)) [
          | inr early ↦
              let (result, waits, done, bound) = later (ground arith) in
              (result, waits, goes_round fuel n refused (inl early) ∙ done, bound)
          | inl now ↦ elim (Option-cases (health (n + 1))) [
            | inr (e, sick) ↦ (error e, n + 1, gives_up fuel n refused now sick, omega arith)
            | inl healthy ↦
                let (result, waits, done, bound) = later (ground arith) in
                (result, waits, goes_round fuel n refused (inr healthy) ∙ done, bound)
          ]
        ]
      ]

  -- If the device is unhealthy from the dth wait on, then the loop returns after at most d + 10 waits,
  -- whatever the attempts answer: no kernel waits for ever for a hypervisor that is gone.
  pub wait_and_retry-ends :
      (fuel d : ℕ)
      → d + 10 ≤ fuel
      → ((j : ℕ) → d ≤ j → is_failing (health j) ≡ true)
      → (result : Answer (Unit {0})) × (waits : ℕ) × (wait_and_retry check health fuel 0
          ≡ some (result, waits))
        × (waits ≤ d + 10)
  unfolding Ends
  wait_and_retry-ends fuel d enough unhealthy =
      let target = 10 * (d / 10 + 1) in
      let (result, waits, done, bound) =
        wait-Ends fuel 0 target (omega arith) (omega arith) (omega arith)
          (unhealthy target (omega arith)) in
      (result, waits, done, omega arith)

  -- From the nth attempt on, k attempts are refused, and no health check after them fails.
  abbrev pub AllRefused : ℕ → ℕ → Type 0
  AllRefused n zero = Unit {0}
  AllRefused n (suc k) =
      (check n ≡ answer false)
      × ((((n + 1) % 10 == 0) ≡ false) ⊎ (health (n + 1) ≡ none))
      × AllRefused (n + 1) k

  refused_then :
      (fuel n k : ℕ)
      → k < fuel
      → AllRefused n k
      → check (n + k) ≡ answer true
      → wait_and_retry check health fuel n ≡ some (answer tt, n + k)
  refused_then zero n k less quiet at = absurd (omega arith)
  refused_then (suc fuel) n zero less quiet at =
      admits fuel n (ap check (omega arith) ∙ at) ∙ ap (λ w. some (answer tt, w)) (omega arith)
  refused_then (suc fuel) n (suc k) less quiet at =
      goes_round fuel n quiet.0 quiet.1
      ∙ refused_then fuel (n + 1) k (omega arith) quiet.2 (ap check (omega arith) ∙ at)
      ∙ ap (λ w. some (answer tt, w)) (omega arith)

  Admitted : ℕ → ℕ → ℕ → Type 0
  Admitted fuel n w = (k : ℕ) × (w ≡ n + k) × (k < fuel) × AllRefused n k × (check w ≡ answer true)

  Admitted-later :
      (fuel n w : ℕ)
      → check n ≡ answer false
      → (((n + 1) % 10 == 0) ≡ false) ⊎ (health (n + 1) ≡ none)
      → Admitted fuel (n + 1) w
      → Admitted (suc fuel) n w
  unfolding Admitted
  Admitted-later fuel n w refused calm (k, same, less, quiet, at) =
      (suc k, omega arith, omega arith, (refused, calm, quiet), at)

  Admitted-after :
      (fuel n w : ℕ) → wait_and_retry check health fuel n ≡ some (answer tt, w) → Admitted fuel n w
  unfolding Admitted wait_and_retry
  Admitted-after zero n w h = cc
  Admitted-after (suc fuel) n w h = elim (Answer-cases (check n)) [
    | inr (e, at) ↦ absurd (cc (sym (breaks fuel n at) ∙ h))
    | inl (inl at) ↦
        let same : n ≡ w = admitted_at (sym (admits fuel n at) ∙ h) in
        (0, omega arith, omega arith, tt, ap check (sym same) ∙ at)
    | inl (inr refused) ↦ elim (Bool-cases ((n + 1) % 10 == 0)) [
      | inr early ↦
          Admitted-later fuel n w refused (inl early)
            (Admitted-after fuel (n + 1) w (sym (goes_round fuel n refused (inl early)) ∙ h))
      | inl now ↦ elim (Option-cases (health (n + 1))) [
        | inr (e, sick) ↦ absurd (cc (sym (gives_up fuel n refused now sick) ∙ h))
        | inl healthy ↦
            Admitted-later fuel n w refused (inr healthy)
              (Admitted-after fuel (n + 1) w (sym (goes_round fuel n refused (inr healthy)) ∙ h))
      ]
    ]
  ]
    where
      admitted_at :
          ◌≡◌ {A = Option (Answer (Unit {0}) × ℕ)} (some (answer tt, n)) (some (answer tt, w))
          → n ≡ w
      admitted_at e = cc

  -- With any fuel above w, the loop admits the kernel after exactly w waits if and only if the attempts
  -- before the wth are refused, no health check on the way fails, and the wth attempt is granted.
  pub wait_and_retry-Admits :
      (fuel w : ℕ)
      → w < fuel
      → (wait_and_retry check health fuel 0 ≡ some (answer tt, w))
        ↔ (AllRefused 0 w × (check w ≡ answer true))
  unfolding Admitted
  wait_and_retry-Admits fuel w less = (
    λ h.
        let (k, same, _, quiet, at) = Admitted-after fuel 0 w h in
        (subst (AllRefused 0) (omega arith) quiet, at),
    λ (quiet, at).
        refused_then fuel 0 w less quiet (ap check (omega arith) ∙ at)
        ∙ ap (λ n. some (answer tt, n)) (omega arith),
  )
