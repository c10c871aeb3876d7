-- ===== src/Device/Tokens.antt =====
-- The token bucket: `fetch_sub_erl_tokens` and `fetch_add_erl_tokens`.
--
-- `sub_tokens` and `add_tokens` are one pass of the loops with nobody else at work. Under
-- concurrency the word may change between a thread's load and its compare-exchange, and the loop
-- goes round again: `Pc` says where a thread stands in the loop, and `advance` makes its next access.
-- Any thread may also store the tokens or the capacity, as the controller does.
pub mod Linear
pub mod Bounds
use vgpu_rs.Base.{ℕ, ◌≡◌, Bool, true, false, ◌==◌, if◌then◌else◌}
use vgpu_rs.Float.{Float, max, min}
use vgpu_rs.Device.V2.{
  SharedDeviceInfoV2, get_erl_token_capacity, get_erl_current_tokens, set_erl_current_tokens,
}

-- The two words of a device that the loops access, as bits.
pub record Bucket : Type 0 where
  pub word : ℕ
  pub capacity : ℕ

module _ (f : Float) where
  open f use {F, ratio, lt, le, add, sub, to_bits, from_bits}

  pub sub_value : F → F → F
  sub_value current cost = max f (sub current cost) (ratio 0 1)

  pub add_value : F → F → F → F
  add_value capacity current amount = max f (min f (add current amount) capacity) (ratio 0 1)

  -- The new bits and the value before the subtraction, which is refused if there is too little.
  unfoldable pub sub_tokens : ℕ → F → ℕ × F
  unfolding sub_value
  sub_tokens bits cost =
      let current = from_bits bits in
      if lt current cost then (bits, current) else (to_bits (sub_value current cost), current)

  -- The new bits and the value before the addition, which stops at the capacity.
  unfoldable pub add_tokens : F → ℕ → F → ℕ × F
  unfolding add_value
  add_tokens capacity bits amount =
      let current = from_bits bits in (to_bits (add_value capacity current amount), current)

  -- The calls on a device that no other thread accesses.
  unfoldable pub fetch_sub_erl_tokens : SharedDeviceInfoV2 → F → SharedDeviceInfoV2 × F
  unfolding sub_tokens
  fetch_sub_erl_tokens d cost =
      let (bits, before) = sub_tokens d.erl_current_tokens cost in
      (record d { erl_current_tokens = bits }, before)

  unfoldable pub fetch_add_erl_tokens : SharedDeviceInfoV2 → F → SharedDeviceInfoV2 × F
  unfolding add_tokens get_erl_token_capacity
  fetch_add_erl_tokens d amount =
      let (bits, before) = add_tokens (get_erl_token_capacity f d) d.erl_current_tokens amount in
      (record d { erl_current_tokens = bits }, before)

  pub data Pc : Type 0 where
    idle : Pc
    -- in `fetch_sub_erl_tokens(cost)`: before the load, and before the compare-exchange
    sub_loading : F → Pc
    sub_swapping : F → ℕ → Pc
    -- in `fetch_add_erl_tokens(amount)`: before the load of the capacity, then likewise
    add_starting : F → Pc
    add_loading : F → F → Pc
    add_swapping : F → F → ℕ → Pc
    -- the call has returned
    done : F → Pc

  -- After the load: return if there is too little.
  pub sub_loaded : F → ℕ → Pc
  sub_loaded cost bits =
      if lt (from_bits bits) cost then done (from_bits bits) else sub_swapping cost bits

  -- `compare_exchange(bits, new_bits)`: return if the word is still the one that was loaded.
  pub swap : Bucket → ℕ → F → Pc → Bucket × Pc
  swap b bits new_value again =
      if b.word == bits
      then (record b { word = to_bits new_value }, done (from_bits bits))
      else (b, again)

  pub advance : Bucket → Pc → Bucket × Pc
  unfolding sub_loaded swap sub_value add_value
  advance b idle = (b, idle)
  advance b (sub_loading cost) = (b, sub_loaded cost b.word)
  advance b (sub_swapping cost bits) =
      swap b bits (sub_value (from_bits bits) cost) (sub_loading cost)
  advance b (add_starting amount) = (b, add_loading amount (from_bits b.capacity))
  advance b (add_loading amount capacity) = (b, add_swapping amount capacity b.word)
  advance b (add_swapping amount capacity bits) =
      swap b bits (add_value capacity (from_bits bits) amount) (add_loading amount capacity)
  advance b (done before) = (b, done before)

  pub record System : Type 0 where
    pub bucket : Bucket
    pub pc : ℕ → Pc

  abbrev pub update : (ℕ → Pc) → ℕ → Pc → ℕ → Pc
  update pc i p j = if i == j then p else pc j

  pub act : System → ℕ → System
  act s i = let (b, p) = advance s.bucket (s.pc i) in record { bucket = b; pc = update s.pc i p }

  -- A thread makes an access or begins a call, with a cost that is not negative; or somebody stores
  -- the tokens (`set_erl_current_tokens`) or the capacity (`set_erl_token_capacity`). The parameters say
  -- which values may be stored.
  module _ (Tokens Capacity : F → Type 0) where
    pub data Step : System → System → Type 0 where
      run : {s : System} (i : ℕ) → Step s (act s i)
      call_sub :
          {s : System} (i : ℕ) (cost : F)
          → le (ratio 0 1) cost ≡ true
          → Step s (record s { pc = update s.pc i (sub_loading cost) })
      call_add :
          {s : System} (i : ℕ) (amount : F)
          → Step s (record s { pc = update s.pc i (add_starting amount) })
      stores_tokens :
          {s : System} (tokens : F)
          → Tokens tokens
          → Step s (record s { bucket = record s.bucket { word = to_bits tokens } })
      stores_capacity :
          {s : System} (capacity : F)
          → Capacity capacity
          → Step s (record s { bucket = record s.bucket { capacity = to_bits capacity } })

    pub data Reach (s : System) : System → Type 0 where
      here : Reach s s
      next : {t u : System} → Reach s t → Step t u → Reach s u
