-- ===== src/State.antt =====
-- ethereum/state.py: the accounts, their cache, and the journal of undo steps.
--
-- The tries are their contents: a root hash is the dictionary that it commits to, and two roots
-- are compared as such. Code is kept by value, where the source keeps its hash and reads the
-- code back from the database. An address is a number below 2 ^ 160, normalised already. Not
-- modelled: the lists of trie nodes to delete, log listeners, and the on-disk copy of accounts
-- that is written when executing on the head.
pub mod Ops
pub mod Snapshots
pub mod Undo
pub mod Journal
pub mod Revert
pub mod Journaled
pub mod Transfer
use native.Mathlib.Decide.{ℕ_discrete}
use shopper.Prelude.{
  ℕ, Bool, true, false, ◌&&◌, leb, ◌==◌, Option, none, some, List, [], ◌∷◌, ℤ, pos, eqb_ℤ,
}
use shopper.Config.{Config}
use shopper.Block.{Header}
use shopper.Dict.{Dict, lookup, insert}

abbrev pub Address : Type 0
Address = ℕ

-- `_Account`, as it is stored in the state trie
pub record AccountData : Type 0 where
  pub nonce : ℕ
  pub balance : ℤ
  pub storage : Dict ℕ
  pub code : List ℕ

abbrev pub Root : Type 0
Root = Dict AccountData

unfoldable pub Root-discrete : Discrete Root
Root-discrete = hlevel ℕ_discrete

-- `Account`, as it is cached
pub record Account : Type 0 where
  pub nonce : ℕ
  pub balance : ℤ
  pub storage : Dict ℕ
  pub code : List ℕ
  pub storage_cache : Dict ℕ
  pub storage_trie : Dict ℕ
  pub touched : Bool
  pub existent_at_start : Bool
  pub deleted : Bool

pub record Log : Type 0 where
  pub address : Address
  pub topics : List ℕ
  pub bytes : List ℕ

pub data ReceiptRoot : Type 0 where
  status : Bool → ReceiptRoot
  root : Root → ReceiptRoot

pub record Receipt : Type 0 where
  pub state_root : ReceiptRoot
  pub gas_used : ℤ
  pub bloom : ℕ
  pub logs : List Log

-- The variables of `STATE_DEFAULTS`.
pub record Vars : Type 0 where
  pub txindex : ℕ
  pub gas_used : ℤ
  pub gas_limit : ℕ
  pub block_number : ℕ
  pub block_coinbase : Address
  pub block_difficulty : ℕ
  pub timestamp : ℕ
  pub logs : List Log
  pub receipts : List Receipt
  pub bloom : ℕ
  pub suicides : List Address
  pub recent_uncles : Dict (List ℕ)
  pub prev_headers : List Header
  pub refunds : ℕ

-- An attribute of an account, with a value for it.
pub data Attr : Type 0 where
  balance : ℤ → Attr
  nonce : ℕ → Attr
  code : List ℕ → Attr
  touched : Bool → Attr
  deleted : Bool → Attr

-- An attribute of the state that `set_param` sets, with a value for it.
pub data Param : Type 0 where
  refunds : ℕ → Param
  bloom : ℕ → Param
  txindex : ℕ → Param

-- An undo step. The account object that a step of the source holds is the one that the cache
-- holds for its address, since the cache loses no object while the journal has an entry.
pub data Entry : Type 0 where
  set_attr : Address → Attr → Entry
  set_storage : Address → ℕ → ℕ → Entry
  set_storage_cache : Address → Dict ℕ → Entry
  set_storage_root : Address → Dict ℕ → Entry
  pop_suicide pop_log pop_receipt : Entry
  set_var : Param → Entry

pub record State : Type 0 where
  pub config : Config
  pub root : Root
  pub vars : Vars
  pub open vars use *
  pub cache : Dict Account
  -- the last step first
  pub journal : List Entry

-- `is_HOMESTEAD` and its kin, which compare the block number with the fork's.
abbrev pub is_homestead : State → Bool
is_homestead s = leb s.config.homestead_fork_blknum s.block_number

abbrev pub is_anti_dos : State → Bool
is_anti_dos s = leb s.config.anti_dos_fork_blknum s.block_number

abbrev pub is_spurious_dragon : State → Bool
is_spurious_dragon s = leb s.config.spurious_dragon_fork_blknum s.block_number

abbrev pub is_metropolis : State → Bool
is_metropolis s = leb s.config.metropolis_fork_blknum s.block_number

abbrev pub is_constantinople : State → Bool
is_constantinople s = leb s.config.constantinople_fork_blknum s.block_number

abbrev pub is_serenity : State → Bool
is_serenity s = leb s.config.serenity_fork_blknum s.block_number

-- `is_DAO(at_fork_height=True)`
abbrev pub at_dao_fork : State → Bool
at_dao_fork s = s.block_number == s.config.dao_fork_blknum

abbrev is_empty {ℓ} : {A : Type ℓ} → List A → Bool
is_empty [] = true
is_empty (x ∷ xs) = false

unfoldable pub is_blank : Account → Bool
is_blank a = a.nonce == 0 && eqb_ℤ a.balance (pos 0) && is_empty a.code

unfoldable pub blank_account : ℕ → Account
blank_account initial_nonce = record {
  nonce = initial_nonce;
  balance = pos 0;
  storage = [];
  code = [];
  storage_cache = [];
  storage_trie = [];
  touched = false;
  existent_at_start = false;
  deleted = false;
}

-- `Account.__init__` from the stored data
unfoldable pub stored_account : AccountData → Account
stored_account d = record {
  nonce = d.nonce;
  balance = d.balance;
  storage = d.storage;
  code = d.code;
  storage_cache = [];
  storage_trie = d.storage;
  touched = false;
  existent_at_start = true;
  deleted = false;
}

abbrev pub load : Config → Option AccountData → Account
load config none = blank_account config.account_initial_nonce
load config (some d) = stored_account d

abbrev pub cached_or : Option Account → Account → Account
cached_or none a = a
cached_or (some a) b = a

-- The account that `get_and_cache_account` returns.
unfoldable pub account : Address → State → Account
account a s = cached_or (lookup a s.cache) (load s.config (lookup a s.root))

-- The account object of an address, changed in place.
unfoldable pub put_account : Address → Account → State → State
put_account a acct s = record s { cache = insert a acct s.cache }

-- `get_and_cache_account`, for its effect on the cache.
unfoldable pub cache_account : Address → State → State
cache_account a s = put_account a (account a s) s

abbrev pub get_attr : Attr → Account → Attr
get_attr (balance _) a = balance a.balance
get_attr (nonce _) a = nonce a.nonce
get_attr (code _) a = code a.code
get_attr (touched _) a = touched a.touched
get_attr (deleted _) a = deleted a.deleted

abbrev pub setattr : Attr → Account → Account
setattr (balance v) a = record a { balance = v }
setattr (nonce v) a = record a { nonce = v }
setattr (code v) a = record a { code = v }
setattr (touched v) a = record a { touched = v }
setattr (deleted v) a = record a { deleted = v }

abbrev pub push : Entry → State → State
push e s = record s { journal = e ∷ s.journal }

unfoldable pub set_and_journal : Address → Attr → State → State
set_and_journal a p s =
    let acct = account a s in push (set_attr a (get_attr p acct)) (put_account a (setattr p acct) s)
