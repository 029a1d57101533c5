-- ===== src/Consensus/Uncles.antt =====
-- `validate_uncles` of ethereum/pow/consensus.py.
use shopper.Prelude.{
  ℕ, ◌+◌, ◌-◌, Bool, true, not, ◌&&◌, ltb, leb, ◌==◌, if◌then◌else◌, Option, none, some, List, [],
  ◌∷◌, ◌++◌, map, length, take, drop,
}
use shopper.Exceptions.{Result, ok, raised, ◌>>◌, verification_failed, assertion_error, index_error}
use shopper.Dict.{Dict}
use shopper.Config.{Config}
use shopper.Block.{Header}
use shopper.State.{State}
use shopper.Vm.Code.{contains}
use shopper.Common.Difficulty.{calc_difficulty}
use shopper.Messages.Validation.{require}
use shopper.Consensus.{Block, Hashing}

abbrev pub hashes : List Header → List ℕ
hashes l = map (λ (x : Header). x.hash) l

-- The hashes of recent uncles, by block number.
unfoldable pub recent_hashes : ℕ → ℕ → Dict (List ℕ) → List ℕ
recent_hashes block_number depth [] = []
recent_hashes block_number depth ((blknum, uncles) ∷ d) =
    let rest = recent_hashes block_number depth d in
    if ltb blknum block_number && leb (block_number - depth) blknum then uncles ++ rest else rest

-- `[x for x in chain if x.hash == h][0]`
unfoldable pub first_with : ℕ → List Header → Option Header
first_with h [] = none
first_with h (x ∷ l) = let rest = first_with h l in if x.hash == h then some x else rest

unfoldable pub ancestor_chain : State → Header → List Header
ancestor_chain s header = header ∷ take (s.config.max_uncle_depth + 1) s.prev_headers

-- The tests of one uncle against its parent.
unfoldable pub validate_against :
    Hashing → Config → List ℕ → Header → Option Header → Result (Unit {0})
validate_against x config ineligible uncle none = raised index_error
validate_against x config ineligible uncle (some parent) =
    require (uncle.difficulty == calc_difficulty x.blank_uncles_hash parent uncle.timestamp config)
      verification_failed
    >> require (uncle.number == parent.number + 1) verification_failed
    >> require (leb parent.timestamp uncle.timestamp) verification_failed
    >> require (not (contains uncle.hash ineligible)) verification_failed
    >> require (leb uncle.gas_used uncle.gas_limit) verification_failed
    >> require (x.check_pow uncle) assertion_error

unfoldable pub validate_uncle : Hashing → Config → List Header → List ℕ → Header → Result (Unit {0})
validate_uncle x config chain ineligible uncle =
    require (contains uncle.prevhash (hashes (drop 2 chain))) verification_failed
    >> validate_against x config ineligible uncle (first_with uncle.prevhash chain)

-- Each uncle that passes is ineligible for those after it.
unfoldable pub validate_each :
    Hashing → Config → List Header → List ℕ → List Header → Result (Unit {0})
validate_each x config chain ineligible [] = ok tt
validate_each x config chain ineligible (uncle ∷ uncles) =
    validate_uncle x config chain ineligible uncle
    >> validate_each x config chain (uncle.hash ∷ ineligible) uncles

abbrev pub all_below : ℕ → List Header → Bool
all_below n [] = true
all_below n (u ∷ us) = ltb u.number n && all_below n us

-- The block itself, its ancestors, and the recent uncles.
unfoldable pub ineligible_hashes : State → Header → List ℕ
ineligible_hashes s header =
    hashes (ancestor_chain s header)
    ++ recent_hashes s.block_number s.config.max_uncle_depth s.recent_uncles

unfoldable pub validate_uncles : Hashing → State → Block → Result (Unit {0})
validate_uncles x s block =
    require (x.uncles_hash block.uncles == block.header.uncles_hash) verification_failed
    >> require (leb (length block.uncles) s.config.max_uncles) verification_failed
    >> require (all_below block.header.number block.uncles) verification_failed
    >> validate_each x s.config (ancestor_chain s block.header) (ineligible_hashes s block.header)
        block.uncles
