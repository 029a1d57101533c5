-- ===== src/Tests/Blocks.antt =====
-- Blocks (ethereum/pow/consensus.py, ethereum/common.py, ethereum/meta.py) at fixed inputs.
use shopper.Prelude.{
  ◌+◌, ◌*◌, ◌/◌, ◌≤◌, ◌<◌, ◌≡◌, ◌↔◌, refl, true, ◌==◌, if◌then◌else◌, [], ◌∷◌, All, length, arith,
  pos, pos_part, neg_part, ◌+ℤ◌,
}
use shopper.Exceptions.{ok}
use shopper.Block.{Header}
use shopper.State.{State, account, set_and_journal, put_account}
use shopper.State.Ops.{delta_balance, set_balance}
use shopper.State.Snapshots.{commit}
use shopper.Common.GasLimit.{check_gaslimit}
use shopper.Common.Difficulty.{calc_difficulty}
use shopper.Vm.Code.{contains}
use shopper.Vm.Gas.{IsAnswer}
use shopper.Common.Validation.{IsChild, validate_header, validate_child}
use shopper.Consensus.{Block, Hashing}
use shopper.Consensus.Uncles.{
  recent_hashes, validate_each, validate_uncle, validate_against, first_with, ancestor_chain,
  ineligible_hashes, validate_uncles,
}
use shopper.Consensus.Accepted.Spent.{IsSpent}
use shopper.Consensus.Accepted.{IsUncle, AreDistinct, validate_uncles_iff}
use shopper.Consensus.Rewards.{
  finalize, reward_uncles, forget_uncles, uncle_reward, uncle_reward-bounds, paid_for,
  block_reward_of, nephew_reward_of, balance-finalize,
}
use shopper.Consensus.Blocks.{
  recover, transition, initialize, started, update_block_env_variables, mk_transaction_sha,
  mk_receipt_sha, apply_transactions, apply_block, set_execution_results, verify_execution_results,
  validate_transaction_tree, mk_block_from_prevstate,
}
use shopper.Consensus.Applied.{
  IsApplied, apply_block-ok, verify-set_execution_results, mk_block_from_prevstate-IsChild,
}
use shopper.Consensus.Endings.{apply_block-IsAnswer}
use shopper.Tests.States.{main_config, no_contracts, start, vars0}
use shopper.Tests.Failures.{externals}
use shopper.Tests.Endings.{no-SpecialsAreSettled}

abbrev pub hashing : Hashing
hashing = record {
  header_hash = λ h. 1000 + h.number;
  uncles_hash = length;
  blank_uncles_hash = 0;
  state_root = λ root. 0;
  trie_root = λ node. 0;
  encode_index = λ i. i ∷ [];
  encode_receipt = λ r. [];
  encode_transaction = λ tx. [];
  check_pow = λ h. true;
}

abbrev pub genesis : Header
genesis = record {
  hash = 1000;
  prevhash = 0;
  uncles_hash = 0;
  coinbase = 0;
  state_root = 0;
  tx_list_root = 0;
  receipts_root = 0;
  bloom = 0;
  difficulty = 1;
  number = 0;
  gas_limit = 3141592;
  gas_used = 0;
  timestamp = 0;
  extra_data = [];
}

abbrev pub on_genesis : State
on_genesis = record start { vars = record vars0 { prev_headers = genesis ∷ [] } }

abbrev pub first_block : Block
first_block = record {
  header = record genesis {
    hash = 1001;
    prevhash = 1000;
    number = 1;
    timestamp = 10;
    coinbase = 9;
  };
  transactions = [];
  uncles = [];
}

abbrev pub after_first : State
after_first = (apply_block hashing (λ logs. 0) externals first_block on_genesis).1

first_accepted :
    apply_block hashing (λ logs. 0) externals first_block on_genesis ≡ (ok tt, after_first)
unfolding apply_block recover transition initialize started update_block_env_variables
    validate_header validate_child check_gaslimit calc_difficulty validate_uncles validate_each
    validate_transaction_tree mk_transaction_sha mk_receipt_sha apply_transactions
    verify_execution_results finalize reward_uncles forget_uncles delta_balance set_balance
    set_and_journal put_account commit
first_accepted = refl

apply_block-ok_example : IsApplied hashing first_block on_genesis after_first
apply_block-ok_example =
    apply_block-ok hashing (λ logs. 0) externals first_block on_genesis after_first first_accepted

apply_block-IsAnswer_example :
    IsAnswer (apply_block hashing (λ logs. 0) externals first_block on_genesis).0
apply_block-IsAnswer_example =
    apply_block-IsAnswer hashing (λ logs. 0) externals first_block on_genesis no-SpecialsAreSettled

-- A block with one uncle, a sibling of its parent.
abbrev uncle : Header
uncle = record first_block.header { hash = 2001; coinbase = 8; timestamp = 11 }

abbrev second_block : Block
second_block = record {
  header = record genesis {
    hash = 1002;
    prevhash = 1001;
    number = 2;
    uncles_hash = 1;
    coinbase = 9;
  };
  transactions = [];
  uncles = uncle ∷ [];
}

abbrev on_first : State
on_first = record start {
  vars = record vars0 { block_number = 2; prev_headers = first_block.header ∷ genesis ∷ [] };
}

validate_uncles_iff_example : (validate_uncles hashing on_first second_block ≡ ok tt) ↔ (
    (length (uncle ∷ []) ≡ 1)
    × (1 ≤ 2)
    × All (λ u. u.number < 2) (uncle ∷ [])
    × All (IsUncle hashing on_first second_block.header) (uncle ∷ [])
    × All (λ u. ¬ IsSpent on_first second_block.header u.hash) (uncle ∷ [])
    × AreDistinct (uncle ∷ []))
validate_uncles_iff_example = validate_uncles_iff hashing on_first second_block

uncle_accepted : validate_uncles hashing on_first second_block ≡ ok tt
unfolding validate_uncles validate_each validate_uncle contains ancestor_chain validate_against
    first_with calc_difficulty ineligible_hashes recent_hashes
uncle_accepted = refl

uncle_reward-bounds_example :
    (neg_part (uncle_reward 5000 8 1 2) ≡ 0)
    × (5000 / 4 ≤ pos_part (uncle_reward 5000 8 1 2))
    × (8 * pos_part (uncle_reward 5000 8 1 2) ≤ 7 * 5000)
uncle_reward-bounds_example = uncle_reward-bounds 5000 1 2 (omega arith) (omega arith)

balance-finalize_example :
    (account 8 (finalize second_block on_first)).balance
    ≡ paid_for (block_reward_of on_first) 8 2 8 (uncle ∷ []) (
        if 8 == 9
        then (account 8 on_first).balance
          +ℤ pos (block_reward_of on_first + nephew_reward_of on_first * 1)
        else (account 8 on_first).balance)
balance-finalize_example = balance-finalize second_block 8 on_first

verify-set_execution_results_example :
    (verify_execution_results hashing
        (set_execution_results hashing on_first second_block).0
        on_first
      ≡ (ok tt, (set_execution_results hashing on_first second_block).1))
    × (validate_transaction_tree hashing (set_execution_results hashing on_first second_block).0
        ≡ ok tt)
verify-set_execution_results_example =
    verify-set_execution_results hashing second_block on_first refl

mk_block_from_prevstate-IsChild_example :
    (block : Block) × (mk_block_from_prevstate hashing main_config (genesis ∷ []) 10 9 []
      ≡ ok block)
    × IsChild 0 1 main_config genesis block.header
mk_block_from_prevstate-IsChild_example =
    mk_block_from_prevstate-IsChild hashing no_contracts genesis [] 1 10 9 [] (omega arith)
      (omega arith) (omega arith) (omega arith) (omega arith)
