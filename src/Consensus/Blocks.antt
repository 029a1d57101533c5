-- ===== src/Consensus/Blocks.antt =====
-- The block-level transition: `initialize` of ethereum/pow/consensus.py, `apply_block` of
-- ethereum/meta.py, and what they call in ethereum/common.py.
use shopper.Prelude.{
  ℕ, ◌+◌, max, Bool, true, false, ◌==◌, if◌then◌else◌, Option, none, some, List, [], ◌∷◌, pos,
  pos_part, eqb_ℤ,
}
use shopper.Exceptions.{Exn, Result, ok, raised, ◌>>=◌, value_error, assertion_error, index_error}
use shopper.Dict.{insert}
use shopper.Config.{Config}
use shopper.Block.{Header}
use shopper.State.{Address, State, Receipt, Log, at_dao_fork}
use shopper.State.Ops.{transfer_value, get_balance, add_block_header}
use shopper.State.Snapshots.{Snapshot, snapshot, revert, commit}
use shopper.Common.GasLimit.{calc_gaslimit}
use shopper.Common.Difficulty.{calc_difficulty}
use shopper.Common.Validation.{validate_header}
use shopper.Trie.{Node, blank}
use shopper.Trie.History.{update_key}
use shopper.Vm.{Externals}
use shopper.Vm.Calls.{max_depth}
use shopper.Messages.{Transaction}
use shopper.Messages.Validation.{require}
use shopper.Messages.Transactions.{apply_transaction}
use shopper.Consensus.{Block, Hashing}
use shopper.Consensus.Uncles.{hashes, validate_uncles}
use shopper.Consensus.Rewards.{finalize}

-- A step on the state that may raise.
abbrev pub Step : Type 0
Step = Result (Unit {0}) × State

abbrev pub and_then : Step → (State → Step) → Step
and_then (raised e, s) k = (raised e, s)
and_then (ok _, s) k = k s

unfoldable pub update_block_env_variables : Block → State → State
update_block_env_variables block s =
    let h = block.header in
    record s {
      vars = record s.vars {
        timestamp = h.timestamp;
        gas_limit = h.gas_limit;
        block_number = h.number;
        recent_uncles = insert h.number (hashes block.uncles) s.recent_uncles;
        block_coinbase = h.coinbase;
        block_difficulty = h.difficulty;
      };
    }

-- The loop over the accounts of the child DAOs. Whether a transfer is made is not looked at.
unfoldable pub withdraw_dao : Address → List Address → State → Step
withdraw_dao to [] s = (ok tt, s)
withdraw_dao to (acct ∷ l) s =
    let (balance, s1) = get_balance acct s in
    let (r, s2) = transfer_value acct to balance s1 in
    and_then ((r >>= λ made. ok tt), s2) λ s3. withdraw_dao to l s3

abbrev in_block : Option Block → State → State
in_block none s = s
in_block (some block) s = update_block_env_variables block s

-- The counters and the block's variables, before the DAO fork is looked at.
unfoldable pub started : Option Block → State → State
started block s =
    let cleared = record s {
      vars = record s.vars { txindex = 0; gas_used = pos 0; bloom = 0; receipts = [] };
    } in
    in_block block cleared

unfoldable pub initialize : Option Block → State → Step
initialize block s =
    let s1 = started block s in
    if at_dao_fork s1
    then withdraw_dao s1.config.dao_withdrawer s1.config.child_dao_list s1
    else (ok tt, s1)

-- `mk_receipt_sha` and `mk_transaction_sha`: the trie of a list, by index.
unfoldable pub list_trie {ℓ} : {A : Type ℓ} → (ℕ → List ℕ) → (A → List ℕ) → ℕ → List A → Node → Node
list_trie index encode i [] t = t
list_trie index encode i (a ∷ l) t =
    list_trie index encode (i + 1) l (update_key (index i) (encode a) t)

unfoldable pub mk_receipt_sha : Hashing → List Receipt → ℕ
mk_receipt_sha x l = x.trie_root (list_trie x.encode_index x.encode_receipt 0 l blank)

unfoldable pub mk_transaction_sha : Hashing → List Transaction → ℕ
mk_transaction_sha x l = x.trie_root (list_trie x.encode_index x.encode_transaction 0 l blank)

unfoldable pub validate_transaction_tree : Hashing → Block → Result (Unit {0})
validate_transaction_tree x block =
    require (block.header.tx_list_root == mk_transaction_sha x block.transactions) value_error

unfoldable pub set_execution_results : Hashing → State → Block → Block × State
set_execution_results x s block =
    let s1 = commit false s in
    let header = record block.header {
      receipts_root = mk_receipt_sha x s1.receipts;
      tx_list_root = mk_transaction_sha x block.transactions;
      state_root = x.state_root s1.root;
      gas_used = pos_part s1.gas_used;
      bloom = s1.bloom;
    } in
    (record block { header = record header { hash = x.header_hash header } }, s1)

unfoldable pub verify_execution_results : Hashing → Block → State → Step
verify_execution_results x block s =
    let s1 = commit false s in
    and_then (require (block.header.bloom == s.bloom) value_error, s)
      λ s0.
        and_then (require (block.header.state_root == x.state_root s1.root) value_error, s1)
          λ s2.
            and_then
              (require (block.header.receipts_root == mk_receipt_sha x s1.receipts) value_error, s1)
              λ s3. (require (eqb_ℤ (pos block.header.gas_used) s1.gas_used) value_error, s1)

unfoldable pub post_finalize : Block → State → State
post_finalize block s = add_block_header block.header s

-- The block on top of a parent, with a gas limit.
unfoldable pub new_block : Hashing → Config → Header → ℕ → Address → List ℕ → ℕ → Block
new_block x config parent now coinbase extra_data gas_limit =
    let header : Header = record {
      hash = 0;
      prevhash = parent.hash;
      uncles_hash = x.blank_uncles_hash;
      coinbase = coinbase;
      state_root = x.trie_root blank;
      tx_list_root = x.trie_root blank;
      receipts_root = x.trie_root blank;
      bloom = 0;
      difficulty = calc_difficulty x.blank_uncles_hash parent now config;
      number = parent.number + 1;
      gas_limit = gas_limit;
      gas_used = 0;
      timestamp = max now (parent.timestamp + 1);
      extra_data = extra_data;
    } in
    record {
      header = record header { hash = x.header_hash header };
      transactions = [];
      uncles = [];
    }

-- `mk_block_from_prevstate`
unfoldable pub mk_block_from_prevstate :
    Hashing → Config → List Header → ℕ → Address → List ℕ → Result Block
mk_block_from_prevstate x config [] now coinbase extra_data = raised index_error
mk_block_from_prevstate x config (parent ∷ ancestors) now coinbase extra_data =
    calc_gaslimit parent config >>= λ gas_limit.
    ok (new_block x config parent now coinbase extra_data gas_limit)

-- `apply_transaction`, with rounds and depth that are enough for its gas.
abbrev pub apply_bounded :
    (List Log → ℕ) → Externals → Transaction → State → Result (Bool × List ℕ) × State
apply_bounded bloom_of e tx s = apply_transaction bloom_of (tx.startgas + 1) max_depth e tx s

-- `for tx in block.transactions: apply_transaction(state, tx)`
unfoldable pub apply_transactions : (List Log → ℕ) → Externals → List Transaction → State → Step
apply_transactions bloom_of e [] s = (ok tt, s)
apply_transactions bloom_of e (tx ∷ txs) s =
    let (r, s1) = apply_bounded bloom_of e tx s in
    and_then ((r >>= λ output. ok tt), s1) λ s2. apply_transactions bloom_of e txs s2

-- What `except (ValueError, AssertionError)` takes.
abbrev pub is_caught : Exn → Bool
is_caught value_error = true
is_caught assertion_error = true
is_caught _ = false

abbrev pub reraised : Exn → State → Result State → Step
reraised e s (ok t) = (raised e, t)
reraised e s (raised f) = (raised f, s)

unfoldable pub recover : Snapshot → Step → Step
recover snap (ok _, s) = (ok tt, s)
recover snap (raised e, s) = if is_caught e then reraised e s (revert snap s) else (raised e, s)

-- The body of the `try`.
unfoldable pub transition : Hashing → (List Log → ℕ) → Externals → Block → State → Step
transition x bloom_of e block s = and_then (initialize (some block) s) λ s1.
    and_then
      (
        validate_header x.blank_uncles_hash s1.prev_headers s1.block_number s1.config block.header,
        s1,
      )
      λ s2.
        and_then (require (x.check_pow block.header) assertion_error, s2)
          λ s3.
            and_then (validate_uncles x s3 block, s3)
              λ s4.
                and_then (validate_transaction_tree x block, s4)
                  λ s5. and_then (apply_transactions bloom_of e block.transactions s5) λ s6.
                    and_then (verify_execution_results x block (finalize block s6))
                      λ s7. (ok tt, post_finalize block s7)

unfoldable pub apply_block : Hashing → (List Log → ℕ) → Externals → Block → State → Step
apply_block x bloom_of e block s = recover (snapshot s) (transition x bloom_of e block s)
