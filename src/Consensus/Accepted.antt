-- ===== src/Consensus/Accepted.antt =====
-- Which uncles `validate_uncles` of ethereum/pow/consensus.py accepts.
mod Kin
pub mod Spent
mod Each
use shopper.Prelude.{
  ℕ, suc, ◌+◌, ◌≤◌, ◌<◌, ◌≡◌, ◌↔◌, refl, Bool, true, false, leb, ◌==◌, Option, none, some, List, [],
  ◌∷◌, length, drop, All, arith, subst, sym,
}
use shopper.Exceptions.{Exn, Result, ok, raised, ◌>>◌, verification_failed}
use shopper.Config.{Config}
use shopper.Block.{Header}
use shopper.State.{State}
use shopper.Vm.Code.{contains}
use shopper.Common.Difficulty.{calc_difficulty}
use shopper.Messages.Validation.{require}
use shopper.Consensus.{Block, Hashing}
use shopper.Consensus.Accepted.Kin.{IsFirst, IsOlder, first_with_iff, contains-IsOlder}
use shopper.Consensus.Accepted.Spent.{IsSpent, fresh_iff}
pub use shopper.Consensus.Accepted.Each.{AreDistinct}
use shopper.Consensus.Accepted.Each.{IsSibling, IsAdmitted, IsFresh, validate_each_iff}
use shopper.Consensus.Uncles.{
  hashes, first_with, ancestor_chain, validate_against, validate_uncle, validate_each, all_below,
  ineligible_hashes, validate_uncles,
}

below_iff : (n : ℕ) (us : List Header) → (all_below n us ≡ true) ↔ All (λ u. u.number < n) us
below_iff n [] = (λ a. tt, λ a. refl)
below_iff n (u ∷ us) =
    let rest = below_iff n us in
    (λ h. (ground arith, rest.0 (ground arith)), λ a. both a.0 (rest.1 a.1))
  where
    both : u.number < n → all_below n us ≡ true → all_below n (u ∷ us) ≡ true
    both lt h = ground arith

checks_iff :
    (a b c : Bool) (r : Result (Unit {0}))
    → (require a verification_failed
          >> require b verification_failed
          >> require c verification_failed
          >> r
        ≡ ok tt)
      ↔ ((a ≡ true) × (b ≡ true) × (c ≡ true) × (r ≡ ok tt))
checks_iff a b c r = (λ h. ground arith, λ h. ground arith)

-- An uncle of a block: it names as its parent an ancestor in reach other than the block's parent,
-- and is a sealed sibling under the first header with that hash.
pub record IsUncle (x : Hashing) (s : State) (header uncle : Header) : Type 0 where
  pub parent : Header
  pub old : IsOlder s.prev_headers (s.config.max_uncle_depth + 1) uncle.prevhash
  pub found : IsFirst (header ∷ s.prev_headers) (s.config.max_uncle_depth + 2) uncle.prevhash parent
  pub sibling : IsSibling x s.config parent uncle

first_in_chain :
    (s : State) (header : Header) (h : ℕ) (p : Header)
    → (first_with h (ancestor_chain s header) ≡ some p)
      ↔ IsFirst (header ∷ s.prev_headers) (s.config.max_uncle_depth + 2) h p
unfolding ancestor_chain
first_in_chain s header h p =
    let depth = s.config.max_uncle_depth in
    let next : suc (depth + 1) ≡ depth + 2 = omega arith in
    let given = first_with_iff h (suc (depth + 1)) (header ∷ s.prev_headers) p in
    (
      λ e. subst (λ n. IsFirst (header ∷ s.prev_headers) n h p) next (given.0 e),
      λ f. given.1 (subst (λ n. IsFirst (header ∷ s.prev_headers) n h p) (sym next) f),
    )

IsAdmitted-iff :
    (x : Hashing) (s : State) (header uncle : Header)
    → IsAdmitted x s.config (ancestor_chain s header) uncle ↔ IsUncle x s header uncle
unfolding ancestor_chain
IsAdmitted-iff x s header uncle =
    let old = contains-IsOlder s.config.max_uncle_depth uncle.prevhash s.prev_headers in
    (
      λ a. record {
        parent = a.parent;
        old = old.0 a.old;
        found = (first_in_chain s header uncle.prevhash a.parent).0 a.found;
        sibling = a.sibling;
      },
      λ u. record {
        parent = u.parent;
        old = old.1 u.old;
        found = (first_in_chain s header uncle.prevhash u.parent).1 u.found;
        sibling = u.sibling;
      },
    )

All-iff : (P Q : Header → Type 0) (l : List Header) → ((u : Header) → P u ↔ Q u) → All P l ↔ All Q l
All-iff P Q [] each = (λ a. tt, λ a. tt)
All-iff P Q (u ∷ l) each =
    let rest = All-iff P Q l each in
    (λ a. ((each u).0 a.0, rest.0 a.1), λ a. ((each u).1 a.0, rest.1 a.1))

-- The uncles of a block are accepted exactly when their hash is the one in the header, there are at
-- most as many as allowed, each has a lower number than the block, each names as its parent one of
-- the previous headers, the block's parent aside and at most the uncle depth further back, and is a
-- sealed child of the first of these and the block with that hash, by number, time, difficulty and
-- gas, none has the hash of the block, of the parent or another previous header within the uncle
-- depth further back, or of an uncle kept for a number below the block's by at most that depth, and
-- no two are the same.
pub validate_uncles_iff :
    (x : Hashing) (s : State) (block : Block)
    → (validate_uncles x s block ≡ ok tt) ↔ (
        (x.uncles_hash block.uncles ≡ block.header.uncles_hash)
        × (length block.uncles ≤ s.config.max_uncles)
        × All (λ u. u.number < block.header.number) block.uncles
        × All (IsUncle x s block.header) block.uncles
        × All (λ u. ¬ IsSpent s block.header u.hash) block.uncles
        × AreDistinct block.uncles)
unfolding validate_uncles
validate_uncles_iff x s block =
    let chain = ancestor_chain s block.header in
    let spent = ineligible_hashes s block.header in
    let each = validate_each_iff x s.config chain spent block.uncles in
    let below = below_iff block.header.number block.uncles in
    let kin =
      All-iff (IsAdmitted x s.config chain) (IsUncle x s block.header) block.uncles
        (IsAdmitted-iff x s block.header) in
    let unspent =
      All-iff (IsFresh spent) (λ u. ¬ IsSpent s block.header u.hash) block.uncles
        (λ u. fresh_iff s block.header u.hash) in
    let same_hash = x.uncles_hash block.uncles == block.header.uncles_hash in
    let few = leb (length block.uncles) s.config.max_uncles in
    let lower = all_below block.header.number block.uncles in
    let all = checks_iff same_hash few lower (validate_each x s.config chain spent block.uncles) in
    (
      λ h.
          let (a, b, c, d) = all.0 h in
          let (kins, fresh, distinct) = each.0 d in
          (ground arith, ground arith, below.0 c, kin.0 kins, unspent.0 fresh, distinct),
      λ (a, b, c, kins, fresh, distinct).
          all.1
            (ground arith, ground arith, below.1 c, each.1 (kin.1 kins, unspent.1 fresh, distinct)),
    )
