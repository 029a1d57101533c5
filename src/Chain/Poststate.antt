-- ===== src/Chain/Poststate.antt =====
-- `mk_poststate_of_blockhash` of ethereum/pow/chain.py: the state after a block that is stored.
pub mod Ends
pub mod Genuine
use shopper.Prelude.{
  ℕ, zero, suc, ◌+◌, ◌-◌, ltb, leb, if◌then◌else◌, Option, none, some, List, [], ◌∷◌, ◌++◌, length,
  take, pos,
}
use shopper.Exceptions.{Result, ok, raised, key_error, plain_exception, ◌>>=◌}
use shopper.Dict.{Dict, lookup, insert}
use shopper.Config.{Config}
use shopper.Block.{Header}
use shopper.State.{State, Vars}
use shopper.Consensus.{Block}
use shopper.Consensus.Uncles.{hashes}
use shopper.Consensus.Blocks.{update_block_env_variables}
use shopper.Chain.{ChainDb, Rules, Stored}
use shopper.Chain.Stored.{genesis_mark, body}

-- `STATE_DEFAULTS` of ethereum/state.py
unfoldable pub default_vars : Vars
default_vars = record {
  txindex = 0;
  gas_used = pos 0;
  gas_limit = 3141592;
  block_number = 0;
  block_coinbase = 0;
  block_difficulty = 1;
  timestamp = 0;
  logs = [];
  receipts = [];
  bloom = 0;
  suicides = [];
  recent_uncles = [];
  prev_headers = [];
  refunds = 0;
}

-- The previous headers and recent uncles that are collected, and where the walk ended: at a block
-- whose parent is no stored block, in which round.
pub record Walk : Type 0 where
  pub headers : List Header
  pub uncles : Dict (List ℕ)
  pub last : Block
  pub round : ℕ

unfoldable pub visit : ℕ → ℕ → Block → Walk → Walk
visit number i b w = record {
  headers = w.headers ++ b.header ∷ [];
  uncles = if ltb i 6 then insert (number - i) (hashes b.uncles) w.uncles else w.uncles;
  last = b;
  round = i;
}

-- The parent, where it is a block that can be decoded.
abbrev pub step_back : (Block → Walk → Walk) → Walk → Option Stored → Walk
step_back go w (some (body p)) = go p w
step_back go w _ = w

-- The loop, with `rounds` of them left after this one.
unfoldable pub walk_back : ChainDb → ℕ → ℕ → ℕ → Block → Walk → Walk
walk_back db number zero i b w = visit number i b w
walk_back db number (suc rounds) i b w =
    let w1 = visit number i b w in
    step_back (walk_back db number rounds (i + 1)) w1 (lookup b.header.prevhash db.bodies)

-- The uncles before the genesis state that are near enough.
unfoldable pub near_uncles : ℕ → ℕ → Dict (List ℕ) → Dict (List ℕ) → Dict (List ℕ)
near_uncles number depth [] uncles = uncles
near_uncles number depth ((blknum, l) ∷ d) uncles =
    near_uncles number depth d
      (if leb number (blknum + depth) then insert blknum l uncles else uncles)

-- Where the walk came to the genesis block, what the genesis state knows of before it. Another end
-- is a dangling `prevhash`.
abbrev pub before_genesis :
    Config → ChainDb → ℕ → Walk → Option Stored → Result (List Header × Dict (List ℕ))
before_genesis config db number w none = raised key_error
before_genesis config db number w (some (body b)) = raised plain_exception
before_genesis config db number w (some genesis_mark) =
    let g = db.genesis_state in
    ok (
      w.headers ++ take (config.prev_header_depth - w.round) g.prev_headers,
      near_uncles number config.max_uncle_depth g.recent_uncles w.uncles,
    )

unfoldable pub ancestry : Config → ChainDb → ℕ → Walk → Result (List Header × Dict (List ℕ))
ancestry config db number w =
    if ltb w.round config.prev_header_depth
    then before_genesis config db number w (lookup w.last.header.prevhash db.bodies)
    else ok (w.headers, w.uncles)

-- The state's variables before the walk.
unfoldable pub block_state : Rules → Config → Block → State
block_state x config block =
    let blank : State = record {
      config = config;
      root = x.trie_at block.header.state_root;
      vars = default_vars;
      cache = [];
      journal = [];
    } in
    let s = update_block_env_variables block blank in
    record s {
      vars = record s.vars {
        gas_used = pos block.header.gas_used;
        txindex = length block.transactions;
        recent_uncles = [];
      };
    }

abbrev pub with_ancestry : State → List Header × Dict (List ℕ) → State
with_ancestry s (headers, uncles) = record s {
  vars = record s.vars { prev_headers = headers; recent_uncles = uncles };
}

unfoldable pub poststate_of : Rules → Config → ChainDb → Block → Result State
poststate_of x config db block =
    let s = block_state x config block in
    let begin : Walk = record { headers = []; uncles = []; last = block; round = 0 } in
    let w = walk_back db block.header.number config.prev_header_depth 0 block begin in
    ancestry config db block.header.number w >>= λ seen. ok (with_ancestry s seen)

abbrev pub stored_state : Rules → Config → ChainDb → Option Stored → Result State
stored_state x config db none = raised plain_exception
stored_state x config db (some genesis_mark) = ok db.genesis_state
stored_state x config db (some (body b)) = poststate_of x config db b

unfoldable pub mk_poststate_of_blockhash : Rules → Config → ChainDb → ℕ → Result State
mk_poststate_of_blockhash x config db h = stored_state x config db (lookup h db.bodies)
