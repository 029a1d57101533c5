-- ===== src/Consensus.antt =====
-- Blocks: ethereum/pow/consensus.py, and the rest of ethereum/common.py. What hashes: the list of
-- uncles, a header, the state's root and the tries of a block's lists, is a field of `Hashing`.
pub mod Uncles
pub mod Accepted
pub mod Rewards
pub mod Blocks
pub mod Applied
pub mod Candidates
pub mod Endings
pub mod Filled
use shopper.Prelude.{ℕ, Bool, List}
use shopper.Block.{Header}
use shopper.State.{Root, Receipt}
use shopper.Trie.{Node}
use shopper.Messages.{Transaction}

-- `Block` of ethereum/block.py.
pub record Block : Type 0 where
  pub header : Header
  pub transactions : List Transaction
  pub uncles : List Header

-- `header_hash` is `sha3(rlp.encode(header))`, `uncles_hash` the same for a list of headers,
-- `blank_uncles_hash` for the empty list; `state_root` and `trie_root` are root hashes; `encode_*`
-- is `rlp.encode`; `check_pow` is the test of ethereum/pow/ethpow.py.
pub record Hashing : Type 0 where
  pub header_hash : Header → ℕ
  pub uncles_hash : List Header → ℕ
  pub blank_uncles_hash : ℕ
  pub state_root : Root → ℕ
  pub trie_root : Node → ℕ
  pub encode_index : ℕ → List ℕ
  pub encode_receipt : Receipt → List ℕ
  pub encode_transaction : Transaction → List ℕ
  pub check_pow : Header → Bool
