-- ===== src/Consensus/Applied.antt =====
-- What a block that `apply_block` of ethereum/meta.py accepts satisfies, and that the blocks made
-- by ethereum/common.py satisfy it.
mod Steps
use shopper.Prelude.{
  ℕ, ◌+◌, max, ◌≤◌, ◌<◌, ◌^◌, ◌≡◌, refl, sym, ap, subst, Bool, true, false, ◌==◌, if◌then◌else◌,
  some, List, ◌∷◌, length, pos, pos_part, neg_part, eqb_ℤ, arith, ==_iff, inl,
}
use shopper.Exceptions.{Exn, Result, ok, raised, value_error, assertion_error, ◌>>=◌}
use shopper.Config.{default_config}
use shopper.Block.{Header}
use shopper.State.{State, Log}
use shopper.State.Snapshots.{Snapshot, snapshot, revert, commit}
use shopper.State.Ops.{add_block_header}
use shopper.Common.GasLimit.{calc_gaslimit_total}
use shopper.Common.Difficulty.{calc_difficulty}
use shopper.Common.Validation.{validate_header, IsChild}
use shopper.Vm.{Externals}
use shopper.Messages.Validation.{require}
use shopper.Consensus.{Block, Hashing}
use shopper.Consensus.Uncles.{validate_uncles}
use shopper.Consensus.Rewards.{finalize}
use shopper.Consensus.Blocks.{
  Step, and_then, initialize, mk_receipt_sha, mk_transaction_sha, validate_transaction_tree,
  set_execution_results, verify_execution_results, post_finalize, mk_block_from_prevstate,
  new_block, apply_transactions, is_caught, recover, transition, apply_block, reraised,
}
use shopper.Consensus.Applied.Steps.{
  and_then-ok, check-ok, recover-ok, require-ok, check_of, require_of, same_of,
}

-- What the header of a block says of the state after its transactions.
pub record Matches (x : Hashing) (block : Block) (s : State) : Type 0 where
  pub bloom : block.header.bloom ≡ s.bloom
  pub state_root : block.header.state_root ≡ x.state_root s.root
  pub receipts_root : block.header.receipts_root ≡ mk_receipt_sha x s.receipts
  pub gas_used : pos block.header.gas_used ≡ s.gas_used

verify_execution_results-ok :
    (x : Hashing) (block : Block) (s t : State)
    → verify_execution_results x block s ≡ (ok tt, t)
    → (t ≡ commit false s) × Matches x block t
unfolding verify_execution_results commit
verify_execution_results-ok x block s t h =
    let s1 = commit false s in
    let header = block.header in
    let (bloom, h1) = check-ok (require (header.bloom == s.bloom) value_error) s _ t h in
    let (root, h2) =
      check-ok (require (header.state_root == x.state_root s1.root) value_error) s1 _ t h1 in
    let (receipts, h3) =
      check-ok (require (header.receipts_root == mk_receipt_sha x s1.receipts) value_error) s1 _ t
        h2 in
    let used =
      require-ok (eqb_ℤ (pos header.gas_used) s1.gas_used) value_error
        (ap (λ (r : Step). r.0) h3) in
    let same : t ≡ s1 = sym (ap (λ (r : Step). r.1) h3) in
    (
      same,
      subst (Matches x block) (sym same) (record {
        bloom = (==_iff header.bloom s.bloom).0 (require-ok _ value_error bloom);
        state_root =
            (==_iff header.state_root (x.state_root s1.root)).0 (require-ok _ value_error root);
        receipts_root =
            (==_iff header.receipts_root (mk_receipt_sha x s1.receipts)).0
              (require-ok _ value_error receipts);
        gas_used = ground arith;
      }),
    )

-- What an accepted block passed, in the state after its initialization.
pub record IsApplied (x : Hashing) (block : Block) (s t : State) : Type 0 where
  pub started : State
  pub initialized : initialize (some block) s ≡ (ok tt, started)
  pub header_ok :
      validate_header x.blank_uncles_hash started.prev_headers started.block_number started.config
        block.header
      ≡ ok tt
  pub sealed : x.check_pow block.header ≡ true
  pub uncles_ok : validate_uncles x started block ≡ ok tt
  pub transactions_ok : block.header.tx_list_root ≡ mk_transaction_sha x block.transactions
  pub done : State
  pub extended : t ≡ add_block_header block.header done
  pub matches : Matches x block done

-- A block that `apply_block` accepts has passed its initialization, a header that follows the
-- previous ones, a seal, valid uncles, and a transaction root that is its list's; and its bloom,
-- state root, receipt root and gas used are those of the state that comes out, which has its header
-- on top of the previous ones.
pub apply_block-ok :
    (x : Hashing) (bloom_of : List Log → ℕ) (e : Externals) (block : Block) (s t : State)
    → apply_block x bloom_of e block s ≡ (ok tt, t)
    → IsApplied x block s t
unfolding apply_block transition post_finalize
apply_block-ok x bloom_of e block s t h =
    let h0 = recover-ok (snapshot s) (transition x bloom_of e block s) t h in
    let (s1, initialized, h1) = and_then-ok (initialize (some block) s) _ t h0 in
    let header =
      validate_header x.blank_uncles_hash s1.prev_headers s1.block_number s1.config block.header in
    let (header_ok, h2) = check-ok header s1 _ t h1 in
    let (seal_ok, h3) = check-ok (require (x.check_pow block.header) assertion_error) s1 _ t h2 in
    let (uncles_ok, h4) = check-ok (validate_uncles x s1 block) s1 _ t h3 in
    let (tree_ok, h5) = check-ok (validate_transaction_tree x block) s1 _ t h4 in
    let (s6, applied, h6) =
      and_then-ok (apply_transactions bloom_of e block.transactions s1) _ t h5 in
    let (s7, verified, h7) =
      and_then-ok (verify_execution_results x block (finalize block s6)) _ t h6 in
    record {
      started = s1;
      initialized = initialized;
      header_ok = header_ok;
      sealed = require-ok (x.check_pow block.header) assertion_error seal_ok;
      uncles_ok = uncles_ok;
      transactions_ok = tree-ok tree_ok;
      done = s7;
      extended = sym (ap (λ (r : Step). r.1) h7);
      matches =
          let known = verify_execution_results-ok x block (finalize block s6) s7 verified in
          known.1;
    }
  where
    tree-ok :
        validate_transaction_tree x block ≡ ok tt
        → block.header.tx_list_root ≡ mk_transaction_sha x block.transactions
    tree-ok k =
        unfold validate_transaction_tree in
        (==_iff block.header.tx_list_root (mk_transaction_sha x block.transactions)).0
          (require-ok _ value_error k)

verify_execution_results-of :
    (x : Hashing) (block : Block) (s : State)
    → Matches x block (commit false s)
    → verify_execution_results x block s ≡ (ok tt, commit false s)
unfolding verify_execution_results commit
verify_execution_results-of x block s m =
    let s1 = commit false s in
    let used = m.gas_used in
    let last : (require (eqb_ℤ (pos block.header.gas_used) s1.gas_used) value_error, s1)
        ≡ (ok tt, s1) =
      ap (λ (r : Result (Unit {0})). (r, s1)) (require_of _ value_error (ground arith)) in
    check_of _ s _ _ (same_of _ _ m.bloom) (
      check_of _ s1 _ _ (same_of _ _ m.state_root)
        (check_of _ s1 _ _ (same_of _ _ m.receipts_root) last))

-- A validator that comes to the same state as the miner before its results are set accepts them:
-- the block with its results passes the checks of its transaction root and of its results, if the
-- gas used is not negative, and both go on in the same state.
pub verify-set_execution_results :
    (x : Hashing) (block : Block) (s : State)
    → neg_part s.gas_used ≡ 0
    → let sealed = (set_execution_results x s block).0 in
      (verify_execution_results x sealed s ≡ (ok tt, (set_execution_results x s block).1))
      × (validate_transaction_tree x sealed ≡ ok tt)
unfolding set_execution_results validate_transaction_tree
verify-set_execution_results x block s whole =
    let sealed = (set_execution_results x s block).0 in
    (
      verify_execution_results-of x sealed s
          (record { bloom = refl; state_root = refl; receipts_root = refl; gas_used = kept }),
      same_of (mk_transaction_sha x block.transactions) (mk_transaction_sha x block.transactions)
          refl,
    )
  where
    kept : pos (pos_part (commit false s).gas_used) ≡ (commit false s).gas_used
    kept = unfold commit in ground arith

-- A block that is made on top of a parent, later than it, with extra data of at most 32 bytes, has
-- a header that follows the parent, under the default configuration: for a parent whose gas limit
-- is at least the minimum and whose gas used is within it.
pub mk_block_from_prevstate-IsChild :
    (x : Hashing) (daos : ℕ → ℕ → ℕ) (parent : Header) (ancestors : List Header)
    (block_number now coinbase : ℕ) (extra_data : List ℕ)
    → parent.timestamp < now
    → now < 2 ^ 256
    → length extra_data ≤ 32
    → 5000 ≤ parent.gas_limit
    → parent.gas_used ≤ parent.gas_limit
    → (block : Block) × (mk_block_from_prevstate x
          (default_config daos)
          (parent ∷ ancestors)
          now
          coinbase
          extra_data
        ≡ ok block)
      × IsChild x.blank_uncles_hash block_number (default_config daos) parent block.header
unfolding mk_block_from_prevstate new_block
mk_block_from_prevstate-IsChild x daos parent ancestors block_number now coinbase extra_data later
      bounded short low used =
    let (gl, e, passes) = calc_gaslimit_total daos parent low used in
    let block = new_block x (default_config daos) parent now coinbase extra_data gl in
    let latest : max now (parent.timestamp + 1) ≡ now = omega arith in
    let made =
      ap
        (λ r. r >>= λ limit.
          ok (new_block x (default_config daos) parent now coinbase extra_data limit))
        e in
    (
      block,
      made,
      record {
        links = refl;
        successor = refl;
        gas_limit_ok = passes;
        difficulty_ok =
            ap (λ t. calc_difficulty x.blank_uncles_hash parent t (default_config daos))
              (sym latest);
        gas_ok = omega arith;
        extra_ok = inl short;
        extra_max = omega arith;
        later = ground arith;
        time_max = ground arith;
      },
    )
