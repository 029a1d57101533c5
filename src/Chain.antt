-- ===== src/Chain.antt =====
-- ethereum/pow/chain.py: the chain with its index, its scores and its queues, and what it reads.
-- The database is kept by kind of key: `block:`, `score:`, `child:` and `txindex:` have a dictionary
-- each, and `bodies` are the blocks under their hashes. The change logs and the pruning of trie
-- nodes (`changed:`, `deletes:`, `address:`) have no place here, as the state has no trie nodes.
pub mod Scores
pub mod Poststate
pub mod Reorg
pub mod Adding
pub mod Stores
pub mod Scored
pub mod Index
pub mod Listing
pub mod TimeQueue
use shopper.Prelude.{
  ℕ, zero, suc, ◌+◌, ◌-◌, Bool, true, false, ◌==◌, if◌then◌else◌, Option, none, some, List, [], ◌∷◌,
  ◌++◌, map, reverse, get_elem?,
}
use shopper.Exceptions.{Exn, Result, ok, raised, attribute_error, out_of_fuel, ◌>>=◌}
use shopper.Dict.{Dict, lookup, insert}
use shopper.Block.{Header}
use shopper.State.{Root, State, Log}
use shopper.Vm.{Externals}
use shopper.Vm.Code.{contains}
use shopper.Messages.{Transaction}
use shopper.Consensus.{Block, Hashing}

-- What a block's hash leads to: `b'GENESIS'`, or the block.
pub data Stored : Type 0 where
  genesis_mark : Stored
  body : Block → Stored

pub record ChainDb : Type 0 where
  pub genesis_number : ℕ
  -- `GENESIS_RLP` and `GENESIS_STATE`
  pub genesis : Block
  pub genesis_state : State
  pub index : Dict ℕ
  pub scores : Dict ℕ
  pub children : Dict (List ℕ)
  pub bodies : Dict Stored
  pub tx_positions : Dict (ℕ × ℕ)
  pub saved_head : Option ℕ

-- `draws` counts the random numbers that were drawn.
pub record Chain : Type 0 where
  pub db : ChainDb
  pub head_hash : ℕ
  pub state : State
  pub time_queue : List Block
  pub parent_queue : Dict (List Block)
  pub localtime : ℕ
  pub draws : ℕ

-- What the chain takes from elsewhere: the hashes and seals of blocks, the machine's externals,
-- the n-th random number below a bound, and the contents of the trie under a root hash.
pub record Rules : Type 0 where
  pub hashing : Hashing
  pub bloom_of : List Log → ℕ
  pub externals : Externals
  pub randrange : ℕ → ℕ → ℕ
  pub trie_at : ℕ → Root

-- A call that may raise, with the chain that it leaves.
abbrev pub Call {ℓ} : Type ℓ → Type ℓ
Call A = Result A × Chain

abbrev pub and_with {ℓ κ} : {A : Type ℓ} {B : Type κ} → Call A → (A → Chain → Call B) → Call B
and_with (raised e, c) k = (raised e, c)
and_with (ok a, c) k = k a c

-- `hash in self.db`
abbrev pub has {ℓ} : {A : Type ℓ} → Option A → Bool
has none = false
has (some a) = true

unfoldable pub has_blockhash : ChainDb → ℕ → Bool
has_blockhash db h = has (lookup h db.bodies)

abbrev pub decode_block : Block → Option Stored → Option Block
decode_block genesis none = none
decode_block genesis (some genesis_mark) = some genesis
decode_block genesis (some (body b)) = some b

unfoldable pub get_block : ChainDb → ℕ → Option Block
get_block db h = decode_block db.genesis (lookup h db.bodies)

unfoldable pub get_parent : ChainDb → Block → Option Block
get_parent db block =
    if block.header.number == db.genesis_number then none else get_block db block.header.prevhash

-- `head`
unfoldable pub head : Chain → Option Block
head c = get_block c.db c.head_hash

unfoldable pub get_blockhash_by_number : ChainDb → ℕ → Option ℕ
get_blockhash_by_number db number = lookup number db.index

-- A missing hash is looked up as None, which leads to nothing.
abbrev get_block_at : ChainDb → Option ℕ → Option Block
get_block_at db none = none
get_block_at db (some h) = get_block db h

unfoldable pub get_block_by_number : ChainDb → ℕ → Option Block
get_block_by_number db number = get_block_at db (get_blockhash_by_number db number)

abbrev or_empty {ℓ} : {A : Type ℓ} → Option (List A) → List A
or_empty none = []
or_empty (some l) = l

unfoldable pub get_child_hashes : ChainDb → ℕ → List ℕ
get_child_hashes db h = or_empty (lookup h db.children)

unfoldable pub get_children : ChainDb → ℕ → List (Option Block)
get_children db h = map (get_block db) (get_child_hashes db h)

unfoldable pub add_child : Block → ChainDb → ChainDb
add_child child db =
    let existing = get_child_hashes db child.header.prevhash in
    if contains child.header.hash existing then db else record db {
      children = insert child.header.prevhash (existing ++ child.header.hash ∷ []) db.children;
    }

-- `__contains__` and `has_block`, for a block: it is the one that the index has at its number.
abbrev is_this : Block → Option Block → Bool
is_this block none = false
is_this block (some b) = b.header.hash == block.header.hash

unfoldable pub has_block : ChainDb → Block → Bool
has_block db block = is_this block (get_block_by_number db block.header.number)

-- `get_chain`, whose loop runs over at most `count` numbers from `from` on. It gives None where it
-- comes to the last of them.
unfoldable pub chain_from : ChainDb → ℕ → ℕ → List (Option Block) → Option (List (Option Block))
chain_from db zero from chain = none
chain_from db (suc count) from chain = elim (get_blockhash_by_number db from) [
  | none ↦ some chain
  | some h ↦ chain_from db count (from + 1) (chain ++ get_block db h ∷ [])
]

unfoldable pub get_chain : ChainDb → ℕ → ℕ → Option (List (Option Block))
get_chain db from to = chain_from db (to - from) from []

unfoldable pub get_tx_position : ChainDb → ℕ → Option (ℕ × ℕ)
get_tx_position db tx_hash = lookup tx_hash db.tx_positions

-- `get_transaction`: the transaction, its block and its index.
abbrev at_position : ChainDb → Option (ℕ × ℕ) → Option (Transaction × Block × ℕ)
at_position db none = none
at_position db (some (number, i)) = elim (get_block_by_number db number) [
  | none ↦ none
  | some b ↦ elim (get_elem? b.transactions i) [ none ↦ none | some tx ↦ some (tx, b, i) ]
]

unfoldable pub get_transaction : ChainDb → ℕ → Option (Transaction × Block × ℕ)
get_transaction db tx_hash = at_position db (get_tx_position db tx_hash)

-- `get_blockhashes_from_hash`: the hashes of at most `max_num` ancestors.
unfoldable pub ancestor_hashes : ChainDb → ℕ → Header → List ℕ
ancestor_hashes db zero header = []
ancestor_hashes db (suc n) header = elim (get_block db header.prevhash) [
  | none ↦ []
  | some b ↦ b.header.hash ∷ (if b.header.number == 0 then [] else ancestor_hashes db n b.header)
]

unfoldable pub get_blockhashes_from_hash : ChainDb → ℕ → ℕ → List ℕ
get_blockhashes_from_hash db h max_num = elim (get_block db h) [
  | none ↦ []
  | some b ↦ ancestor_hashes db max_num b.header
]
