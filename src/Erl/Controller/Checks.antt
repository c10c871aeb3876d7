-- ===== src/Erl/Controller/Checks.antt =====
-- What a configuration must satisfy, and what a controller keeps.
use vgpu_rs.Base.{◌≡◌, ◌⊎◌, true, false, arith}
use vgpu_rs.Float.{Float, min, IsNanOrWithin}
use vgpu_rs.Float.Laws.{le_parts, le_of_parts, max-ge, max-le, min-le}
use vgpu_rs.Erl.{Account}
use vgpu_rs.Erl.Controller.{DeviceControllerConfig, DeviceController, is_valid, start_rate}

module _ (f : Float) where
  open f use {F, ratio, lt, le, is_nan, le_lem, lt_irrefl, lt_trans, le_neg, le_ratio, neg}

  -- The configuration passes the checks of `new`, its rates are numbers and its capacities are in
  -- order.
  pub record IsSound (cfg : DeviceControllerConfig f) : Type 0 where
    pub valid : is_valid f cfg ≡ true
    pub min_number : is_nan cfg.rate_min ≡ false
    pub max_number : is_nan cfg.rate_max ≡ false
    pub capacities : le cfg.capacity_min cfg.capacity_max ≡ true

  -- The controller's rate lies between the configured bounds, or is a NaN.
  pub record IsSteady (c : DeviceController f) : Type 0 where
    pub sound : IsSound c.cfg
    pub rate : IsNanOrWithin f c.cfg.rate_min c.cfg.rate_max c.current_rate

  -- The device has the controller's rate, a capacity that lies between the configured bounds or is a
  -- NaN, and at most as many tokens as that, unless these or the capacity are a NaN.
  pub record IsRegulated (c : DeviceController f) (a : Account f) : Type 0 where
    pub refill : a.quota.refill_rate ≡ c.current_rate
    pub capacity : IsNanOrWithin f c.cfg.capacity_min c.cfg.capacity_max a.quota.capacity
    pub tokens :
        (is_nan a.state.tokens ≡ true)
        ⊎ (is_nan a.quota.capacity ≡ true)
        ⊎ (le a.state.tokens a.quota.capacity ≡ true)

  valid_rates :
      (cfg : DeviceControllerConfig f)
      → is_valid f cfg ≡ true
      → le cfg.rate_max cfg.rate_min ≡ false
  unfolding is_valid
  valid_rates cfg h = ground arith

  pub rates_ordered :
      (cfg : DeviceControllerConfig f) → IsSound cfg → le cfg.rate_min cfg.rate_max ≡ true
  rates_ordered cfg sound =
      let low : le cfg.rate_max cfg.rate_min ≡ false = valid_rates cfg sound.valid in
      let no : lt cfg.rate_max cfg.rate_min ≡ false = ground (
        arith,
        sound.min_number,
        sound.max_number,
        le_lem cfg.rate_max cfg.rate_min,
        lt_trans cfg.rate_min cfg.rate_max cfg.rate_min,
        lt_irrefl cfg.rate_min,
      ) in
      le_of_parts f cfg.rate_min cfg.rate_max sound.min_number sound.max_number no

  -- The first rate is a number between the configured bounds.
  pub start_rate_within :
      (cfg : DeviceControllerConfig f)
      → IsSound cfg
      → (le cfg.rate_min (start_rate f cfg) ≡ true) × (le (start_rate f cfg) cfg.rate_max ≡ true)
  unfolding start_rate
  start_rate_within cfg sound =
      let above : le cfg.rate_min (start_rate f cfg) ≡ true =
        max-ge f (min f (ratio 100 1) cfg.rate_max) cfg.rate_min sound.min_number in
      (
        above,
        le_of_parts f (start_rate f cfg) cfg.rate_max (le_parts f cfg.rate_min _ above).1
            sound.max_number
            (max-le f (min f (ratio 100 1) cfg.rate_max) cfg.rate_min cfg.rate_max
              (min-le f (ratio 100 1) cfg.rate_max sound.max_number)
              (le_parts f cfg.rate_min cfg.rate_max (rates_ordered cfg sound)).2),
      )

  -- The literals by which the controller clamps are in order.
  pub unit_ordered : le (ratio 0 1) (ratio 1 1) ≡ true
  unit_ordered = le_ratio 0 1 1 1 (ground arith) (ground arith) (ground arith)

  pub sign_ordered : le (neg (ratio 1 1)) (ratio 1 1) ≡ true
  sign_ordered = le_neg (ratio 1 1) unit_ordered

  pub half_ordered : le (neg (ratio 1 2)) (ratio 1 2) ≡ true
  half_ordered = le_neg (ratio 1 2) (le_ratio 0 1 1 2 (ground arith) (ground arith) (ground arith))
