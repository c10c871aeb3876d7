-- ===== src/Erl.antt =====
-- The crate `erl`: the errors, the token state, and the trait `DeviceBackend` with what its documents
-- promise of a device (`TokenStore`). The reason texts of the errors are left out.
pub mod Run
pub mod Adapter
pub mod Limiter
pub mod Controller
mod Examples
use vgpu_rs.Base.{ℕ, ◌≡◌, Option, some, if◌then◌else◌}
use vgpu_rs.Float.{Float}
use vgpu_rs.Device.Tokens.{sub_value, add_value}

pub data RateLimitError : Type 0 where
  storage_failure : RateLimitError
  invalid_configuration : RateLimitError

pub data Result (A : Type 0) : Type 0 where
  success : A → Result A
  failure : RateLimitError → Result A

module _ (f : Float) where
  open f use {F, lt}

  pub record TokenState : Type 0 where
    pub tokens : F
    pub last_update : F

  pub record DeviceQuota : Type 0 where
    pub capacity : F
    pub refill_rate : F

  -- The trait, over the state `S` of the shared storage. A call gives the new state and its result.
  pub record DeviceBackend (S : Type 0) : Type 0 where
    pub read_token_state : S → ℕ → Result TokenState
    pub write_token_state : S → ℕ → TokenState → S × Result (Unit {0})
    pub read_quota : S → ℕ → Result DeviceQuota
    pub write_refill_rate : S → ℕ → F → S × Result (Unit {0})
    pub write_capacity : S → ℕ → F → S × Result (Unit {0})
    pub fetch_sub_tokens : S → ℕ → F → S × Result F
    pub fetch_add_tokens : S → ℕ → F → S × Result F

  -- What a device keeps, seen from outside.
  pub record Account : Type 0 where
    pub state : TokenState
    pub quota : DeviceQuota

  abbrev pub with_tokens : Account → F → Account
  with_tokens a tokens = record a { state = record a.state { tokens = tokens } }

  -- A call that succeeds with a value and turns the account of the device into another.
  abbrev pub Gives : {S R : Type 0} → (S → Option Account) → S × Result R → R → Account → Type 0
  Gives {S} account call r a = (s : S) × (call ≡ (s, success r)) × (account s ≡ some a)

  -- The promise of a backend about a device whose account the state shows: reads give the account and writes change
  -- it; a subtraction is refused if there is too little, and an addition stops at the capacity.
  pub record TokenStore {S : Type 0} (backend : DeviceBackend S) (device : ℕ)
      (account : S → Option Account) : Type 0 where
    pub reads_tokens :
        (s : S) (a : Account)
        → account s ≡ some a
        → backend.read_token_state s device ≡ success a.state
    pub reads_quota :
        (s : S) (a : Account) → account s ≡ some a → backend.read_quota s device ≡ success a.quota
    pub writes_tokens :
        (s : S) (a : Account) (t : TokenState)
        → account s ≡ some a
        → Gives account (backend.write_token_state s device t) tt (record a { state = t })
    pub writes_rate :
        (s : S) (a : Account) (rate : F)
        → account s ≡ some a
        → Gives account
            (backend.write_refill_rate s device rate)
            tt
            (record a { quota = record a.quota { refill_rate = rate } })
    pub writes_capacity :
        (s : S) (a : Account) (capacity : F)
        → account s ≡ some a
        → Gives account
            (backend.write_capacity s device capacity)
            tt
            (record a { quota = record a.quota { capacity = capacity } })
    pub subtracts :
        (s : S) (a : Account) (cost : F)
        → account s ≡ some a
        → Gives account
            (backend.fetch_sub_tokens s device cost)
            a.state.tokens
            (if lt a.state.tokens cost then a else with_tokens a (sub_value f a.state.tokens cost))
    pub adds :
        (s : S) (a : Account) (amount : F)
        → account s ≡ some a
        → Gives account
            (backend.fetch_add_tokens s device amount)
            a.state.tokens
            (with_tokens a (add_value f a.quota.capacity a.state.tokens amount))
