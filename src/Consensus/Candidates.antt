-- ===== src/Consensus/Candidates.antt =====
-- How a miner fills a block: `add_transactions` of ethereum/common.py, `get_uncle_candidates` of
-- ethereum/pow/consensus.py and `make_head_candidate` of ethereum/meta.py.
use shopper.Prelude.{
  ℕ, zero, suc, ◌+◌, Bool, true, false, not, ◌&&◌, ltb, ◌==◌, if◌then◌else◌, Option, none, some,
  List, [], ◌∷◌, ◌++◌, take, drop, length, pos, pos_part, ◌-ℤ◌,
}
use shopper.Exceptions.{
  Exn, Result, ok, raised, out_of_fuel, insufficient_balance, block_gas_limit_reached,
  insufficient_start_gas, invalid_nonce, unsigned_transaction, ◌>>=◌,
}
use shopper.Dict.{Dict}
use shopper.Block.{Header}
use shopper.State.{Address, State, Log}
use shopper.Vm.{Externals}
use shopper.Vm.Code.{contains}
use shopper.Messages.{Transaction}
use shopper.TransactionQueue.{Heapq, TransactionQueue, pop_transaction}
use shopper.Consensus.{Block, Hashing}
use shopper.Consensus.Uncles.{hashes}
use shopper.Consensus.Rewards.{finalize}
use shopper.Consensus.Blocks.{
  Step, apply_bounded, initialize, mk_block_from_prevstate, set_execution_results,
}

-- The exceptions that leave a transaction out of the block.
unfoldable pub is_skipped : Exn → Bool
is_skipped insufficient_balance = true
is_skipped block_gas_limit_reached = true
is_skipped insufficient_start_gas = true
is_skipped invalid_nonce = true
is_skipped unsigned_transaction = true
is_skipped _ = false

-- What the miner changes: the block, the queue, the state.
pub record Filling : Type 0 where
  pub block : Block
  pub queue : TransactionQueue
  pub state : State

abbrev pub append_transaction : Transaction → Block → Block
append_transaction tx block = record block { transactions = block.transactions ++ tx ∷ [] }

-- A transaction that is applied, or is left out; another exception goes on to the caller.
abbrev pub filled :
    Transaction → TransactionQueue → Block → Result (Bool × List ℕ) × State → Result Filling
filled tx q block (ok output, s) =
    ok (record { block = append_transaction tx block; queue = q; state = s })
filled tx q block (raised e, s) =
    if is_skipped e then ok (record { block = block; queue = q; state = s }) else raised e

-- `state.gas_limit - state.gas_used`, which is not negative within a block.
abbrev pub gas_left : State → ℕ
gas_left s = pos_part (pos s.gas_limit -ℤ s.gas_used)

abbrev pub pop_next : Heapq → ℕ → Filling → Option Transaction × TransactionQueue
pop_next h min_gasprice f = pop_transaction h (gas_left f.state) 16 min_gasprice f.queue

-- The loop, with the rounds bounded by `fuel`.
unfoldable pub add_loop : ℕ → Heapq → (List Log → ℕ) → Externals → ℕ → Filling → Result Filling
add_loop zero h bloom_of e min_gasprice f = raised out_of_fuel
add_loop (suc fuel) h bloom_of e min_gasprice f =
    let (tx, q) = pop_next h min_gasprice f in
    elim tx [
      | none ↦ ok (record f { queue = q })
      | some t ↦
          (filled t q f.block (apply_bounded bloom_of e t f.state) >>= λ g.
          add_loop fuel h bloom_of e min_gasprice g)
    ]

-- `add_transactions`. A queue counts as empty when its heap is, whatever is aside.
unfoldable pub add_transactions : Heapq → (List Log → ℕ) → Externals → ℕ → Filling → Result Filling
add_transactions h bloom_of e min_gasprice f =
    if length f.queue.txs == 0
    then ok f
    else add_loop (length f.queue.txs + length f.queue.aside + 1) h bloom_of e min_gasprice f

-- What `get_uncle_candidates` asks the chain: the children of a block, and the header of one.
pub record ChainView : Type 0 where
  pub get_child_hashes : ℕ → List ℕ
  pub header_of : ℕ → Header

-- The hashes of all recent uncles.
unfoldable pub all_recent : Dict (List ℕ) → List ℕ
all_recent [] = []
all_recent ((blknum, uncles) ∷ d) = uncles ++ all_recent d

-- `for c in child_hashes: ...`
unfoldable pub pick_children : ChainView → List ℕ → List ℕ → List Header → List Header
pick_children v ineligible [] uncles = uncles
pick_children v ineligible (c ∷ cs) uncles = pick_children v ineligible cs (
    if not (contains c ineligible) && ltb (length uncles) 2
    then uncles ++ v.header_of c ∷ []
    else uncles)

unfoldable pub pick_uncles : ChainView → List ℕ → List Header → List Header → List Header
pick_uncles v ineligible [] uncles = uncles
pick_uncles v ineligible (p ∷ ps) uncles =
    let picked = pick_children v ineligible (v.get_child_hashes p.hash) uncles in
    let rest = pick_uncles v ineligible ps picked in if length picked == 2 then picked else rest

-- The candidates are children of the ancestors from the parent's parent on.
unfoldable pub get_uncle_candidates : ChainView → State → List Header
get_uncle_candidates v s =
    let near = take s.config.max_uncle_depth s.prev_headers in
    let ineligible = all_recent s.recent_uncles ++ hashes near in
    pick_uncles v ineligible (drop 1 near) []

-- The rest of `make_head_candidate`, once the transactions are in.
abbrev pub sealed_candidate : Hashing → Filling → Block × State
sealed_candidate x f = set_execution_results x (finalize f.block f.state) f.block

abbrev pub fill_started :
    Hashing
    → Heapq
    → (List Log → ℕ)
    → Externals
    → ℕ
    → TransactionQueue
    → Block
    → Step
    → Result (Block × State)
fill_started x h bloom_of e min_gasprice q block (raised f, s) = raised f
fill_started x h bloom_of e min_gasprice q block (ok _, s) =
    add_transactions h bloom_of e min_gasprice (record { block = block; queue = q; state = s })
    >>= λ f. ok (sealed_candidate x f)

-- The uncles, and their hash in the header.
unfoldable pub with_uncles : Hashing → List Header → Block → Block
with_uncles x uncles block =
    let header = record block.header { uncles_hash = x.uncles_hash uncles } in
    record block { uncles = uncles; header = record header { hash = x.header_hash header } }

-- `make_head_candidate`, on the state after the parent.
unfoldable pub make_head_candidate :
    Hashing
    → Heapq
    → (List Log → ℕ)
    → Externals
    → ChainView
    → ℕ
    → Address
    → List ℕ
    → ℕ
    → TransactionQueue
    → State
    → Result (Block × State)
make_head_candidate x h bloom_of e v now coinbase extra_data min_gasprice q s =
    mk_block_from_prevstate x s.config s.prev_headers now coinbase extra_data >>= λ made.
    let block = with_uncles x (get_uncle_candidates v s) made in
    fill_started x h bloom_of e min_gasprice q block (initialize (some block) s)
