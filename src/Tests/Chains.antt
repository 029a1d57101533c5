-- ===== src/Tests/Chains.antt =====
-- A chain (ethereum/pow/chain.py) with its genesis block alone, and blocks that are added to it.
use shopper.Prelude.{
  map, ℕ, ◌≡◌, ◌==◌, if◌then◌else◌, refl, subst, ap, ◌∙◌, true, none, some, [], ◌∷◌, inl, inr,
  arith,
}
use shopper.Exceptions.{ok}
use shopper.Dict.{lookup, insert}
use shopper.Block.{Header}
use shopper.Chain.{ChainDb, Chain, Rules, get_block, get_chain}
use shopper.Chain.Stored.{genesis_mark}
use shopper.Chain.Stores.{Fits, IsStore}
use shopper.Chain.Scored.{IsRandrange, IsScored}
use shopper.Chain.Scored.Found.{Scores, score_of-Scores}
use shopper.Chain.Index.{IsIndex}
use shopper.Chain.Listing.{branch_of, get_chain-branch_of}
use shopper.Chain.TimeQueue.{Leaves, due, late, add_front, process_time_queue_lem}
use shopper.Chain.TimeQueue.Quiet.{Waits}
use shopper.Chain.{get_parent, get_blockhash_by_number, add_child, get_child_hashes}
use shopper.Chain.Scores.{get_score, score_of, find_score, fill_scores, put_score, next_score}
use shopper.Chain.Reorg.{put_index, put_txs}
use shopper.Chain.Adding.{
  receive, finish_block, extend_head, extend_index, store_block, add_waiting, add_block,
  process_time_queue,
}
use shopper.State.{set_and_journal, put_account}
use shopper.State.Ops.{delta_balance, set_balance}
use shopper.State.Snapshots.{commit}
use shopper.Common.GasLimit.{check_gaslimit}
use shopper.Common.Difficulty.{calc_difficulty}
use shopper.Vm.Code.{contains}
use shopper.Common.Validation.{validate_header, validate_child}
use shopper.Consensus.Uncles.{validate_each, validate_uncles}
use shopper.Consensus.Rewards.{finalize, reward_uncles, forget_uncles}
use shopper.Consensus.Blocks.{
  recover, transition, initialize, started, update_block_env_variables, mk_transaction_sha,
  mk_receipt_sha, apply_transactions, apply_block, verify_execution_results,
  validate_transaction_tree,
}
use shopper.Chain.Adding.Genuine.{IsGenuine}
use shopper.Chain.Adding.Judged.{InOrder}
use shopper.Chain.Adding.Accepted.{Outcome, add_block-Outcome}
use shopper.Tests.Failures.{externals}
use shopper.Tests.Endings.{no-SpecialsAreSettled}
use shopper.Tests.Blocks.{hashing, genesis, first_block, on_genesis}

abbrev rules : Rules
rules = record {
  hashing = hashing;
  bloom_of = λ logs. 0;
  externals = externals;
  randrange = λ k n. 0;
  trie_at = λ h. [];
}

rules-IsRandrange : IsRandrange rules
rules-IsRandrange k n = omega arith

abbrev header_of : ℕ → Header
header_of h = if h == 1001 then first_block.header else genesis

abbrev only_genesis : Chain
only_genesis = record {
  db = record {
    genesis_number = 0;
    genesis = record { header = genesis; transactions = []; uncles = [] };
    genesis_state = on_genesis;
    index = (0, 1000) ∷ [];
    scores = (1000, 0) ∷ [];
    children = [];
    bodies = (1000, genesis_mark) ∷ [];
    tx_positions = [];
    saved_head = none;
  };
  head_hash = 1000;
  state = on_genesis;
  time_queue = [];
  parent_queue = [];
  localtime = 1000000;
  draws = 0;
}

only_genesis-IsStore : IsStore header_of only_genesis.db
only_genesis-IsStore = record {
  genesis_stored = unfold lookup in refl;
  genesis_hashed = refl;
  genesis_numbered = refl;
  one_genesis = λ h e. unfold lookup in ground arith;
  linked = λ h b e. absurd (unfold lookup in ground arith);
}

only_genesis-IsScored : IsScored header_of 1000 only_genesis.db.scores
only_genesis-IsScored = record {
  start = 0;
  genesis_scored = unfold lookup in refl;
  scored = λ h s e. inl (unfold lookup in ground arith);
}

only_genesis-IsIndex : IsIndex header_of 0 1000 only_genesis.db.index 1000
only_genesis-IsIndex = record {
  height = 0;
  main = refl;
  top = λ n above. unfold lookup in ground arith;
}

only_genesis-InOrder : InOrder header_of only_genesis
only_genesis-InOrder = record {
  chain = record {
    store = only_genesis-IsStore;
    scored = only_genesis-IsScored;
    index = only_genesis-IsIndex;
    indexed =
        λ n h e. (only_genesis.db.genesis, ap (get_block only_genesis.db) (only h n e) ∙ found);
    head_scored = (0, unfold lookup in refl);
    head_stored = (only_genesis.db.genesis, found);
  };
  genuine = real;
  genesis_genuine = real;
}
  where
    only : (h n : ℕ) → lookup n only_genesis.db.index ≡ some h → h ≡ 1000
    only h n e = unfold lookup in ground arith

    real : IsGenuine header_of on_genesis
    real p l first =
        let same : genesis ≡ p = ground arith in
        subst (λ (q : Header). header_of q.hash ≡ q) same refl

    found : get_block only_genesis.db 1000 ≡ some only_genesis.db.genesis
    found = unfold get_block lookup in refl

add_block-Outcome_example :
    Outcome header_of first_block only_genesis (add_block 1 rules first_block only_genesis)
add_block-Outcome_example =
    add_block-Outcome header_of rules 0 first_block only_genesis rules-IsRandrange
      no-SpecialsAreSettled only_genesis-InOrder refl (unfold lookup in refl)

first_added : (add_block 1 rules first_block only_genesis).0 ≡ ok true
unfolding add_block receive finish_block extend_head extend_index put_index put_txs get_score
    score_of find_score fill_scores put_score next_score get_parent get_block
    get_blockhash_by_number store_block add_child get_child_hashes add_waiting contains lookup
    insert apply_block recover transition initialize started update_block_env_variables
    validate_header validate_child check_gaslimit calc_difficulty validate_uncles validate_each
    validate_transaction_tree mk_transaction_sha mk_receipt_sha apply_transactions
    verify_execution_results finalize reward_uncles forget_uncles delta_balance set_balance
    set_and_journal put_account commit
first_added = refl

first_block-Fits : Fits header_of only_genesis.db first_block
first_block-Fits = record {
  hashed = refl;
  parent = only_genesis.db.genesis;
  parent_stored = unfold get_block lookup in refl;
  successor = refl;
  above_genesis = omega arith;
}

score_of-Scores_example :
    (s : ℕ) × (c1 : Chain) × (score_of rules first_block only_genesis ≡ (ok s, c1))
    × Scores header_of 1001 only_genesis s c1
score_of-Scores_example =
    score_of-Scores header_of rules first_block only_genesis rules-IsRandrange only_genesis-IsStore
      only_genesis-IsScored (inr first_block-Fits)

abbrev expecting : Chain
expecting = record only_genesis { time_queue = first_block ∷ []; localtime = 5 }

expecting-Waits : Waits 5 (first_block ∷ []) expecting
expecting-Waits = record {
  time = refl;
  same = refl;
  all_due = λ h l e. absurd (unfold lookup in ground arith);
}

process_time_queue_lem_example :
    (process_time_queue 1 rules 20 expecting
      ≡ add_front 1 rules (due 20 (first_block ∷ [])) (record expecting { localtime = 20 }))
    × Leaves (late 20 (first_block ∷ [])) (process_time_queue 1 rules 20 expecting)
process_time_queue_lem_example =
    process_time_queue_lem 1 rules 20 expecting (tt, tt) expecting-Waits (omega arith)

abbrev grown : ChainDb
grown = record only_genesis.db { index = (0, 1000) ∷ (1, 1001) ∷ [] }

get_chain-branch_of_example :
    get_chain grown 1 10 ≡ some (map (get_block grown) (branch_of header_of 1 1001))
get_chain-branch_of_example =
    get_chain-branch_of header_of grown 1001 10
      (record {
        height = 1;
        main = (refl, unfold lookup in refl, refl);
        top = λ n above. unfold lookup in ground arith;
      })
      (omega arith)
