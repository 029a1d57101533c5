-- ===== src/Common/Validation.antt =====
-- `validate_header` of ethereum/common.py. The state enters by its previous headers, its
-- configuration and its block number; a header that is there counts as true in Python.
use shopper.Prelude.{
  ℕ, ◌+◌, ◌^◌, ◌≤◌, ◌<◌, ◌≡◌, ◌↔◌, ◌⊎◌, Bool, true, not, ◌&&◌, arith, ltb, leb, ◌==◌, if◌then◌else◌,
  List, [], ◌∷◌, length, list_eq, list_eq_iff,
}
use shopper.Exceptions.{Result, ok, raised, value_error, index_error, ◌>>◌}
use shopper.Config.{Config}
use shopper.Block.{Header}
use shopper.Common.GasLimit.{check_gaslimit}
use shopper.Common.Difficulty.{calc_difficulty}

abbrev pub raise_if : Bool → Result (Unit {0})
raise_if c = if c then raised value_error else ok tt

-- `0 <= number - fork < 10`
abbrev pub near_dao_fork : ℕ → ℕ → Bool
near_dao_fork number fork = leb fork number && ltb number (fork + 10)

module _ (blank_uncles_hash : ℕ) where
  -- The tests against the parent, in their order.
  unfoldable pub validate_child : ℕ → Config → Header → Header → Result (Unit {0})
  validate_child block_number config parent header = do
    raise_if (not (header.prevhash == parent.hash))
    raise_if (not (header.number == parent.number + 1))
    raise_if (not (check_gaslimit parent header.gas_limit config))
    raise_if (
        not (header.difficulty == calc_difficulty blank_uncles_hash parent header.timestamp config))
    raise_if (ltb header.gas_limit header.gas_used)
    raise_if
        (ltb 32 (length header.extra_data) && not (leb config.serenity_fork_blknum block_number))
    raise_if (ltb 1024 (length header.extra_data))
    raise_if (leb header.timestamp parent.timestamp)
    raise_if (leb (2 ^ 256) header.timestamp)

  unfoldable pub validate_header : List Header → ℕ → Config → Header → Result (Unit {0})
  validate_header [] block_number config header = raised index_error
  validate_header (parent ∷ ancestors) block_number config header = do
    validate_child block_number config parent header
    raise_if (leb (2 ^ 63) header.gas_limit)
    raise_if (
        near_dao_fork header.number config.dao_fork_blknum
        && not (list_eq header.extra_data config.dao_fork_blkextra))

  -- What a header must satisfy to follow its parent.
  pub record IsChild (block_number : ℕ) (config : Config) (parent header : Header) : Type 0 where
    pub links : header.prevhash ≡ parent.hash
    pub successor : header.number ≡ parent.number + 1
    pub gas_limit_ok : check_gaslimit parent header.gas_limit config ≡ true
    pub difficulty_ok :
        header.difficulty ≡ calc_difficulty blank_uncles_hash parent header.timestamp config
    pub gas_ok : header.gas_used ≤ header.gas_limit
    pub extra_ok : (length header.extra_data ≤ 32) ⊎ (config.serenity_fork_blknum ≤ block_number)
    pub extra_max : length header.extra_data ≤ 1024
    pub later : parent.timestamp < header.timestamp
    pub time_max : header.timestamp < 2 ^ 256

  validate_child_iff :
      (block_number : ℕ) (config : Config) (parent header : Header)
      → (validate_child block_number config parent header ≡ ok tt)
        ↔ IsChild block_number config parent header
  unfolding validate_child
  validate_child_iff block_number config parent header = (λ h. ground arith, λ h. ground arith)

  -- A header is accepted after its parent exactly when it links to it and has the next number, a
  -- gas limit and a difficulty that follow the adjustment rules, uses no more gas than its limit,
  -- has extra data of at most 32 bytes (1024 from Serenity on), a later timestamp below 2 ^ 256,
  -- a gas limit below 2 ^ 63, and near the DAO fork the fork's extra data.
  pub validate_header_iff :
      (parent : Header) (ancestors : List Header) (block_number : ℕ) (config : Config)
      (header : Header)
      → (validate_header (parent ∷ ancestors) block_number config header ≡ ok tt) ↔ (
          IsChild block_number config parent header
          × (header.gas_limit < 2 ^ 63)
          × ((header.number < config.dao_fork_blknum)
              ⊎ (config.dao_fork_blknum + 10 ≤ header.number)
              ⊎ (header.extra_data ≡ config.dao_fork_blkextra)))
  unfolding validate_header
  validate_header_iff parent ancestors block_number config header =
      let child = validate_child_iff block_number config parent header in
      let extra = list_eq_iff header.extra_data config.dao_fork_blkextra in
      (λ h. ground (arith, child, extra), λ h. ground (arith, child, extra))
