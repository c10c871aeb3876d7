-- ===== src/Cuda/Cache.antt =====
-- The cached limits of `rate_limiter`: what admits a kernel without a wait.
use vgpu_rs.Base.{
  ℕ, ◌+◌, ◌-◌, ◌≡◌, ◌≤◌, ◌<◌, ◌⊎◌, refl, sym, ap, ◌∙◌, subst, inl, inr, Bool, true, false, ◌&&◌,
  Option, none, some, arith, leb, ltb, ◌==◌, if◌then◌else◌, Bool-cases, Option-cases,
}
use vgpu_rs.Float.{Float}
use vgpu_rs.State.Versions.{SharedDeviceState, version}
use vgpu_rs.Dict.{Dict, nat_eq, fetch, assign, fetch-assign}
use vgpu_rs.Cuda.{
  LimiterError, Answer, answer, error, CachedUpLimit, Decision, returns, waits_v1, waits_v2,
  is_fast, get_up_limit, dispatch, after_health, enforce, check_device_health, after_limit,
  slow_path, decide, up_limit_cache_ttl,
}

-- The kernel is admitted at once.
abbrev is_free : Decision → Bool
is_free (returns (answer _)) = true
is_free (returns (error e)) = false
is_free waits_v1 = false
is_free waits_v2 = false

abbrev fast_entry : ℕ → Option CachedUpLimit → Bool
fast_entry now none = false
fast_entry now (some cached) =
    leb 100 cached.value && ltb (now - cached.last_refresh) up_limit_cache_ttl

-- `limit t index` is the limit of a device at a time.
module _ (limit : ℕ → ℕ → ℕ) where
  -- A cached value was the limit at the time of its reading, which is not later than now.
  abbrev pub WasRead : ℕ → ℕ → Option CachedUpLimit → Type 0
  WasRead now index none = Unit {0}
  WasRead now index (some cached) =
      (cached.value ≡ limit cached.last_refresh index) × (cached.last_refresh ≤ now)

  abbrev pub IsObserved : ℕ → Dict ℕ CachedUpLimit → Type 0
  IsObserved now cache = (index : ℕ) → WasRead now index (fetch index cache)

  -- What is found in the shared memory is the limit at the time.
  abbrev pub Shows : ℕ → ℕ → Answer SharedDeviceState → Type 0
  Shows now index (error e) = Unit {0}
  Shows now index (answer state) =
      (get_up_limit state index ≡ none) ⊎ (get_up_limit state index ≡ some (limit now index))

  assign-IsObserved :
      (index now : ℕ) (cache : Dict ℕ CachedUpLimit)
      → IsObserved now cache
      → IsObserved now (assign index (record { value = limit now index; last_refresh = now }) cache)
  assign-IsObserved index now cache o j =
      let fresh : CachedUpLimit = record { value = limit now index; last_refresh = now } in
      subst (WasRead now j) (sym (fetch-assign index j fresh cache))
        (elim (Bool-cases (index == j)) [
          | inl same ↦ let at : index ≡ j = ground arith in rw same (ap (limit now) at, omega arith)
          | inr other ↦ rw other (o j)
        ])

  module _ (f : Float) (index now wall : ℕ) (cache : Dict ℕ CachedUpLimit)
      (observed : IsObserved now cache) where
    after_limit-IsObserved :
        (state : SharedDeviceState) (o : Option ℕ)
        → (o ≡ none) ⊎ (o ≡ some (limit now index))
        → IsObserved now (after_limit f state index now wall cache o).0
    unfolding after_limit
    after_limit-IsObserved state none shows = observed
    after_limit-IsObserved state (some up_limit) shows =
        let at : limit now index ≡ up_limit = elim shows [ inl h ↦ cc | inr h ↦ cc ] in
        subst (λ l. IsObserved now (assign index (record { value = l; last_refresh = now }) cache))
          at (assign-IsObserved index now cache observed)

    slow_path-IsObserved :
        (memory : Answer SharedDeviceState)
        → Shows now index memory
        → IsObserved now (slow_path f memory index now wall cache).0
    unfolding slow_path
    slow_path-IsObserved (error e) shows = observed
    slow_path-IsObserved (answer state) shows =
        after_limit-IsObserved state (get_up_limit state index) shows

    -- If every limit in the cache was the device's limit when it was read, not later than now, and the
    -- shared memory shows the device's limit now or no device, then the same holds of the cache after
    -- the call.
    pub decide-IsObserved :
        (memory : Answer SharedDeviceState)
        → Shows now index memory
        → IsObserved now (decide f memory index now wall cache).0
    unfolding decide
    decide-IsObserved memory shows = elim (Bool-cases (is_fast cache index now)) [
      | inl fast ↦ rw (fast, decide) observed
      | inr slow ↦ rw (slow, decide) (slow_path-IsObserved memory shows)
    ]

    -- The device had no limit below 100 at a time less than a minute ago.
    WasFree : Type 0
    WasFree = (t : ℕ) × (100 ≤ limit t index) × (t ≤ now) × (now < t + up_limit_cache_ttl)

    never_free :
        (e : Option LimiterError) (state : SharedDeviceState)
        → is_free (after_health e state index) ≡ false
    unfolding after_health dispatch
    never_free (some e) state = refl
    never_free none state = elim (Bool-cases (version state == 1)) [
      | inl first ↦ rw first refl
      | inr other ↦ elim (Bool-cases (version state == 2)) [
        | inl second ↦ rw (other, second) refl
        | inr unknown ↦ rw (other, unknown) refl
      ]
    ]

    enforce-free :
        (state : SharedDeviceState) (up_limit : ℕ)
        → is_free (enforce f up_limit index state wall) ≡ true
        → 100 ≤ up_limit
    unfolding enforce
    enforce-free state up_limit free = elim (Bool-cases (leb 100 up_limit)) [
      | inl high ↦ ground arith
      | inr low ↦
          let waits : is_free (enforce f up_limit index state wall) ≡ false =
            rw low (never_free (check_device_health f state wall index) state) in
          absurd (cc (sym free ∙ waits))
    ]

    after_limit-free :
        (state : SharedDeviceState) (o : Option ℕ)
        → (o ≡ none) ⊎ (o ≡ some (limit now index))
        → is_free (after_limit f state index now wall cache o).1 ≡ true
        → 100 ≤ limit now index
    unfolding after_limit
    after_limit-free state none shows free = cc
    after_limit-free state (some up_limit) shows free =
        let at : up_limit ≡ limit now index = elim shows [ inl h ↦ cc | inr h ↦ cc ] in
        subst (λ l. 100 ≤ l) at (enforce-free state up_limit free)

    slow_path-free :
        (memory : Answer SharedDeviceState)
        → Shows now index memory
        → is_free (slow_path f memory index now wall cache).1 ≡ true
        → 100 ≤ limit now index
    unfolding slow_path
    slow_path-free (error e) shows free = cc
    slow_path-free (answer state) shows free =
        after_limit-free state (get_up_limit state index) shows free

    fast-WasFree : is_fast cache index now ≡ true → WasFree
    unfolding is_fast WasFree
    fast-WasFree fast = elim (Option-cases (fetch index cache)) [
      | inl absent ↦ absurd (cc (ap (fast_entry now) (sym absent) ∙ fast))
      | inr (cached, found) ↦
          let test = ap (fast_entry now) (sym found) ∙ fast in
          let (read, past) : (cached.value ≡ limit cached.last_refresh index)
              × (cached.last_refresh ≤ now) =
            subst (WasRead now index) found (observed index) in
          (cached.last_refresh, ground arith, past, ground arith)
    ]

    -- If every limit in the cache was the device's limit when it was read, which was not later than now,
    -- the shared memory shows the device's limit now or no device, and the call admits the kernel without
    -- a wait, then there is a time, not later than now and less than a minute ago, at which the device's
    -- limit was 100 or more.
    pub decide-free :
        (memory : Answer SharedDeviceState)
        → Shows now index memory
        → (decide f memory index now wall cache).1 ≡ returns (answer tt)
        → (t : ℕ) × (100 ≤ limit t index) × (t ≤ now) × (now < t + up_limit_cache_ttl)
    unfolding decide WasFree
    decide-free memory shows free = elim (Bool-cases (is_fast cache index now)) [
      | inl fast ↦ fast-WasFree fast
      | inr slow ↦
          let free_slow : is_free (slow_path f memory index now wall cache).1 ≡ true =
            ap
              (λ b.
                is_free
                  (if b
                    then (cache, returns (answer tt))
                    else slow_path f memory index now wall cache).1)
              (sym slow)
            ∙ ap is_free free in
          (now, slow_path-free memory shows free_slow, omega arith, omega arith)
    ]
