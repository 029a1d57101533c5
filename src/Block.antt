-- ===== src/Block.antt =====
-- ethereum/block.py. Byte strings of fixed length (hashes, addresses) are the numbers that they
-- spell big-endian. A header carries its `hash`, which the source computes as `sha3(rlp(header))`.
use shopper.Prelude.{ℕ, List}

pub record Header : Type 0 where
  pub hash : ℕ
  pub prevhash : ℕ
  pub uncles_hash : ℕ
  pub coinbase : ℕ
  pub state_root : ℕ
  pub tx_list_root : ℕ
  pub receipts_root : ℕ
  pub bloom : ℕ
  pub difficulty : ℕ
  pub number : ℕ
  pub gas_limit : ℕ
  pub gas_used : ℕ
  pub timestamp : ℕ
  pub extra_data : List ℕ
