-- ===== src/Common/GasLimit.antt =====
-- The gas limit adjustment of ethereum/common.py.
use shopper.Prelude.{
  ℕ, ◌+◌, ◌-◌, ◌*◌, ◌/◌, ◌≤◌, min, max, ◌≡◌, refl, ◌↔◌, Bool, true, ◌&&◌, arith, ltb, leb,
  if◌then◌else◌,
}
use shopper.Exceptions.{Result, ok, raised, assertion_error}
use shopper.Config.{Config, default_config}
use shopper.Block.{Header}

-- `abs(a - b)` of two numbers
abbrev pub distance : ℕ → ℕ → ℕ
distance a b = (a - b) + (b - a)

unfoldable pub check_gaslimit : Header → ℕ → Config → Bool
check_gaslimit parent gas_limit config =
    let gl = parent.gas_limit / config.gaslimit_adjmax_factor in
    leb (distance gas_limit parent.gas_limit) gl && leb config.min_gas_limit gas_limit

-- The limit before the assertion that it passes `check_gaslimit`.
unfoldable pub next_gaslimit : Header → Config → ℕ
next_gaslimit parent config =
    let decay = parent.gas_limit / config.gaslimit_ema_factor in
    let new_contribution =
      parent.gas_used * config.blklim_factor_nom / config.blklim_factor_den
      / config.gaslimit_ema_factor in
    let gl = max (parent.gas_limit - decay + new_contribution) config.min_gas_limit in
    if ltb gl config.genesis_gas_limit
    then min config.genesis_gas_limit (parent.gas_limit + decay)
    else gl

unfoldable pub calc_gaslimit : Header → Config → Result ℕ
calc_gaslimit parent config =
    let gl = next_gaslimit parent config in
    if check_gaslimit parent gl config then ok gl else raised assertion_error

-- The gas limit test passes exactly when the new limit is at least the minimum and differs from
-- the parent's, up or down, by at most the parent's limit over the adjustment factor.
pub check_gaslimit_iff :
    (parent : Header) (gas_limit : ℕ) (config : Config)
    → (check_gaslimit parent gas_limit config ≡ true) ↔ (
        (gas_limit ≤ parent.gas_limit + parent.gas_limit / config.gaslimit_adjmax_factor)
        × (parent.gas_limit ≤ gas_limit + parent.gas_limit / config.gaslimit_adjmax_factor)
        × (config.min_gas_limit ≤ gas_limit))
unfolding check_gaslimit
check_gaslimit_iff parent gas_limit config = ground arith

-- The three bounds at the limit that `calc_gaslimit` proposes.
next_gaslimit_bounds :
    (daos : ℕ → ℕ → ℕ) (parent : Header)
    → 5000 ≤ parent.gas_limit
    → parent.gas_used ≤ parent.gas_limit
    → (next_gaslimit parent (default_config daos) ≤ parent.gas_limit + parent.gas_limit / 1024)
      × (parent.gas_limit ≤ next_gaslimit parent (default_config daos) + parent.gas_limit / 1024)
      × (5000 ≤ next_gaslimit parent (default_config daos))
unfolding next_gaslimit
next_gaslimit_bounds daos parent low used = ground arith

-- Under the default configuration, for a parent whose limit is at least the minimum and that used
-- no more gas than its limit, the assertion in `calc_gaslimit` never fails: a limit is returned,
-- and it passes the test that `validate_header` makes of it.
pub calc_gaslimit_total :
    (daos : ℕ → ℕ → ℕ) (parent : Header)
    → 5000 ≤ parent.gas_limit
    → parent.gas_used ≤ parent.gas_limit
    → (gl : ℕ) × (calc_gaslimit parent (default_config daos) ≡ ok gl)
      × (check_gaslimit parent gl (default_config daos) ≡ true)
calc_gaslimit_total daos parent low used =
    let gl = next_gaslimit parent (default_config daos) in
    let passes =
      (check_gaslimit_iff parent gl (default_config daos)).1
        (next_gaslimit_bounds daos parent low used) in
    (gl, unfold calc_gaslimit in rw passes refl, passes)
