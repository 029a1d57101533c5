-- ===== src/Consensus/Endings.antt =====
-- Applying a block (ethereum/meta.py) ends.
use shopper.Prelude.{
  ℕ, ◌+◌, refl, Bool, true, false, if◌then◌else◌, Option, none, some, List, [], ◌∷◌, arith, drop,
}
use shopper.Exceptions.{Exn, Result, ok, raised, verification_failed, ◌>>◌, ◌>>=◌}
use shopper.State.{Address, State, Log, at_dao_fork}
use shopper.Block.{Header}
use shopper.Config.{Config}
use shopper.Common.Validation.{validate_header, validate_child}
use shopper.State.Ops.{get_balance, transfer_value}
use shopper.State.Snapshots.{snapshot, revert}
use shopper.Vm.Code.{contains}
use shopper.Messages.Validation.{require}
use shopper.Vm.{Externals}
use shopper.Vm.Calls.{max_depth}
use shopper.Vm.Gas.{IsReal, IsAnswer}
use shopper.Messages.{Transaction}
use shopper.Messages.Settled.{SpecialsAreSettled, revert-IsAnswer, transfer_value-IsAnswer}
use shopper.Messages.Settled.Nested.{apply_transaction-IsAnswer, IsAnswer-both, require-IsAnswer}
use shopper.Consensus.{Block, Hashing}
use shopper.Consensus.Blocks.{
  Step, and_then, apply_bounded, withdraw_dao, started, initialize, validate_transaction_tree,
  apply_transactions, verify_execution_results, transition, recover, reraised, apply_block,
  is_caught,
}
use shopper.Consensus.Rewards.{finalize}
use shopper.Consensus.Uncles.{
  hashes, first_with, ancestor_chain, ineligible_hashes, validate_against, validate_uncle,
  validate_each, validate_uncles,
}

pub apply_bounded-IsAnswer :
    (bloom_of : List Log → ℕ) (e : Externals) (tx : Transaction) (s : State)
    → SpecialsAreSettled e
    → IsAnswer (apply_bounded bloom_of e tx s).0
apply_bounded-IsAnswer bloom_of e tx s sound =
    apply_transaction-IsAnswer bloom_of (tx.startgas + 1) max_depth e tx s sound (omega arith)
      (omega arith)

and_then-IsAnswer :
    (r : Step) (k : State → Step)
    → IsAnswer r.0
    → ((s : State) → IsAnswer (k s).0)
    → IsAnswer (and_then r k).0
and_then-IsAnswer (raised f, s) k h hk = h
and_then-IsAnswer (ok _, s) k h hk = hk s

forget-IsAnswer :
    {A : Type 0} (r : Result A) → IsAnswer r → IsAnswer {A = Unit {0}} (r >>= λ a. ok tt)
forget-IsAnswer (raised f) h = h
forget-IsAnswer (ok a) h = tt

withdraw_dao-IsAnswer :
    (to : Address) (l : List Address) (s : State) → IsAnswer (withdraw_dao to l s).0
unfolding withdraw_dao
withdraw_dao-IsAnswer to [] s = tt
withdraw_dao-IsAnswer to (acct ∷ l) s =
    let read = get_balance acct s in
    let moved = transfer_value acct to read.0 read.1 in
    and_then-IsAnswer ((moved.0 >>= λ made. ok tt), moved.1) (λ s3. withdraw_dao to l s3)
      (forget-IsAnswer moved.0 (transfer_value-IsAnswer acct to read.0 read.1))
      (λ s3. withdraw_dao-IsAnswer to l s3)

if-IsAnswer :
    (b : Bool) (p q : Step) → IsAnswer p.0 → IsAnswer q.0 → IsAnswer (if b then p else q).0
if-IsAnswer true p q hp hq = hp
if-IsAnswer false p q hp hq = hq

initialize-IsAnswer : (block : Option Block) (s : State) → IsAnswer (initialize block s).0
unfolding initialize
initialize-IsAnswer block s =
    let s1 = started block s in
    let to = s1.config.dao_withdrawer in
    let l = s1.config.child_dao_list in
    if-IsAnswer (at_dao_fork s1) (withdraw_dao to l s1) (ok tt, s1) (withdraw_dao-IsAnswer to l s1)
      tt

validate_header-IsAnswer :
    (blank : ℕ) (hs : List Header) (n : ℕ) (config : Config) (header : Header)
    → IsAnswer (validate_header blank hs n config header)
unfolding validate_header validate_child
validate_header-IsAnswer blank [] n config header = refl
validate_header-IsAnswer blank (parent ∷ hs) n config header = ground arith

validate_against-IsAnswer :
    (x : Hashing) (config : Config) (ineligible : List ℕ) (u : Header) (p : Option Header)
    → IsAnswer (validate_against x config ineligible u p)
unfolding validate_against
validate_against-IsAnswer x config ineligible u none = refl
validate_against-IsAnswer x config ineligible u (some p) = ground arith

validate_each-IsAnswer :
    (x : Hashing) (config : Config) (chain : List Header) (ineligible : List ℕ) (us : List Header)
    → IsAnswer (validate_each x config chain ineligible us)
unfolding validate_each validate_uncle
validate_each-IsAnswer x config chain ineligible [] = tt
validate_each-IsAnswer x config chain ineligible (u ∷ us) =
    let against = validate_against x config ineligible u (first_with u.prevhash chain) in
    let old = contains u.prevhash (hashes (drop 2 chain)) in
    IsAnswer-both (require old verification_failed >> against) _
      (IsAnswer-both (require old verification_failed) against
        (require-IsAnswer old verification_failed refl)
        (validate_against-IsAnswer x config ineligible u (first_with u.prevhash chain)))
      (validate_each-IsAnswer x config chain (u.hash ∷ ineligible) us)

validate_uncles-IsAnswer :
    (x : Hashing) (s : State) (block : Block) → IsAnswer (validate_uncles x s block)
unfolding validate_uncles
validate_uncles-IsAnswer x s block =
    let chain = ancestor_chain s block.header in
    let spent = ineligible_hashes s block.header in
    ground (arith, validate_each-IsAnswer x s.config chain spent block.uncles)

apply_transactions-IsAnswer :
    (bloom_of : List Log → ℕ) (e : Externals) (txs : List Transaction) (s : State)
    → SpecialsAreSettled e
    → IsAnswer (apply_transactions bloom_of e txs s).0
unfolding apply_transactions
apply_transactions-IsAnswer bloom_of e [] s sound = tt
apply_transactions-IsAnswer bloom_of e (tx ∷ txs) s sound =
    let r = apply_bounded bloom_of e tx s in
    and_then-IsAnswer ((r.0 >>= λ output. ok tt), r.1) (λ s2. apply_transactions bloom_of e txs s2)
      (forget-IsAnswer r.0 (apply_bounded-IsAnswer bloom_of e tx s sound))
      (λ s2. apply_transactions-IsAnswer bloom_of e txs s2 sound)

verify_execution_results-IsAnswer :
    (x : Hashing) (block : Block) (s : State) → IsAnswer (verify_execution_results x block s).0
unfolding verify_execution_results
verify_execution_results-IsAnswer x block s = ground arith

transition-IsAnswer :
    (x : Hashing) (bloom_of : List Log → ℕ) (e : Externals) (block : Block) (s : State)
    → SpecialsAreSettled e
    → IsAnswer (transition x bloom_of e block s).0
unfolding transition validate_transaction_tree
transition-IsAnswer x bloom_of e block s sound =
    and_then-IsAnswer (initialize (some block) s) _ (initialize-IsAnswer (some block) s) λ s1.
      and_then-IsAnswer _ _ (validate_header-IsAnswer _ _ _ _ block.header) λ s2.
        and_then-IsAnswer _ _ (require-IsAnswer _ _ refl) λ s3.
          and_then-IsAnswer _ _ (validate_uncles-IsAnswer x s3 block) λ s4.
            and_then-IsAnswer _ _ (require-IsAnswer _ _ refl) λ s5.
              and_then-IsAnswer _ _
                (apply_transactions-IsAnswer bloom_of e block.transactions s5 sound)
                λ s6.
                  and_then-IsAnswer _ _
                    (verify_execution_results-IsAnswer x block (finalize block s6)) λ s7. tt

-- Applying any block to any state ends: it gives a result or raises an exception of the source,
-- after the state is reverted or without, where the precompiled contracts reply within their gas.
pub apply_block-IsAnswer :
    (x : Hashing) (bloom_of : List Log → ℕ) (e : Externals) (block : Block) (s : State)
    → SpecialsAreSettled e
    → IsAnswer (apply_block x bloom_of e block s).0
unfolding apply_block recover
apply_block-IsAnswer x bloom_of e block s sound =
    recover-IsAnswer (transition x bloom_of e block s)
      (transition-IsAnswer x bloom_of e block s sound)
  where
    reraised-IsAnswer :
        (f : Exn) (t : State) (r : Result State)
        → IsReal f
        → IsAnswer r
        → IsAnswer (reraised f t r).0
    reraised-IsAnswer f t (ok u) real h = real
    reraised-IsAnswer f t (raised g) real h = h

    recover-IsAnswer : (r : Step) → IsAnswer r.0 → IsAnswer (recover (snapshot s) r).0
    recover-IsAnswer (ok _, t) h = tt
    recover-IsAnswer (raised f, t) h =
        if-IsAnswer (is_caught f) (reraised f t (revert (snapshot s) t)) (raised f, t)
          (reraised-IsAnswer f t (revert (snapshot s) t) h (revert-IsAnswer (snapshot s) t)) h
