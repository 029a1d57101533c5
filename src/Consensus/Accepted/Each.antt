-- ===== src/Consensus/Accepted/Each.antt =====
-- The tests of the uncles one by one in `validate_uncles` of ethereum/pow/consensus.py.
use shopper.Prelude.{
  ℕ, ◌+◌, ◌≤◌, ◌≡◌, ◌↔◌, refl, Bool, true, false, Option, none, some, List, [], ◌∷◌, drop, All,
  arith, subst, sym,
}
use shopper.Exceptions.{Exn, Result, ok, raised, ◌>>◌, verification_failed}
use shopper.Config.{Config}
use shopper.Block.{Header}
use shopper.Vm.Code.{contains}
use shopper.Common.Difficulty.{calc_difficulty}
use shopper.Messages.Validation.{require}
use shopper.Consensus.{Hashing}
use shopper.Consensus.Uncles.{hashes, first_with, validate_against, validate_uncle, validate_each}

-- Two checks, one after the other.
require_iff :
    (b : Bool) (e : Exn) (r : Result (Unit {0}))
    → (require b e >> r ≡ ok tt) ↔ ((b ≡ true) × (r ≡ ok tt))
require_iff true e r = ground arith
require_iff false e r = ground arith

module _ (x : Hashing) (config : Config) where
  -- What an uncle must satisfy as the child of an ancestor.
  pub record IsSibling (parent uncle : Header) : Type 0 where
    pub difficulty_ok :
        uncle.difficulty ≡ calc_difficulty x.blank_uncles_hash parent uncle.timestamp config
    pub successor : uncle.number ≡ parent.number + 1
    pub later : parent.timestamp ≤ uncle.timestamp
    pub gas_ok : uncle.gas_used ≤ uncle.gas_limit
    pub sealed : x.check_pow uncle ≡ true

  -- What the tests of an uncle say of the code's own lists.
  pub record IsAdmitted (chain : List Header) (uncle : Header) : Type 0 where
    pub parent : Header
    pub old : contains uncle.prevhash (hashes (drop 2 chain)) ≡ true
    pub found : first_with uncle.prevhash chain ≡ some parent
    pub sibling : IsSibling parent uncle

  validate_against_iff :
      (ineligible : List ℕ) (uncle parent : Header)
      → (validate_against x config ineligible uncle (some parent) ≡ ok tt)
        ↔ (IsSibling parent uncle × (contains uncle.hash ineligible ≡ false))
  unfolding validate_against
  validate_against_iff ineligible uncle parent = (λ h. ground arith, λ h. ground arith)

  validate_uncle_iff :
      (chain : List Header) (ineligible : List ℕ) (uncle : Header)
      → (validate_uncle x config chain ineligible uncle ≡ ok tt)
        ↔ (IsAdmitted chain uncle × (contains uncle.hash ineligible ≡ false))
  unfolding validate_uncle
  validate_uncle_iff chain ineligible uncle = (
    λ h.
        let (old, rest) = (both (first_with uncle.prevhash chain)).0 h in
        accepted old (first_with uncle.prevhash chain) refl rest,
    λ (u, fresh). (both (first_with uncle.prevhash chain)).1 (
      u.old,
      subst (λ r. validate_against x config ineligible uncle r ≡ ok tt) (sym u.found)
          ((validate_against_iff ineligible uncle u.parent).1 (u.sibling, fresh)),
    ),
  )
    where
      both :
          (r : Option Header)
          → (require (contains uncle.prevhash (hashes (drop 2 chain))) verification_failed
                >> validate_against x config ineligible uncle r
              ≡ ok tt)
            ↔ ((contains uncle.prevhash (hashes (drop 2 chain)) ≡ true)
                × (validate_against x config ineligible uncle r ≡ ok tt))
      both r = require_iff _ verification_failed (validate_against x config ineligible uncle r)

      accepted :
          contains uncle.prevhash (hashes (drop 2 chain)) ≡ true
          → (r : Option Header) → first_with uncle.prevhash chain ≡ r
          → validate_against x config ineligible uncle r ≡ ok tt
          → IsAdmitted chain uncle × (contains uncle.hash ineligible ≡ false)
      accepted old none found h = unfold validate_against in ground arith
      accepted old (some parent) found h =
          let known = (validate_against_iff ineligible uncle parent).0 h in
          (record { parent = parent; old = old; found = found; sibling = known.0 }, known.1)

seq_iff : (p q : Result (Unit {0})) → (p >> q ≡ ok tt) ↔ ((p ≡ ok tt) × (q ≡ ok tt))
seq_iff (ok _) q = (λ h. (refl, h), λ h. h.1)
seq_iff (raised e) q = ground arith

-- An uncle that is in a list of hashes, or not.
abbrev pub IsFresh : List ℕ → Header → Type 0
IsFresh ineligible uncle = contains uncle.hash ineligible ≡ false

-- No two have the same hash.
abbrev pub AreDistinct : List Header → Type 0
AreDistinct [] = Unit
AreDistinct (u ∷ us) = (contains u.hash (hashes us) ≡ false) × AreDistinct us

IsFresh-cons :
    (h : ℕ) (ineligible : List ℕ) (us : List Header)
    → All (IsFresh (h ∷ ineligible)) us
      ↔ (All (IsFresh ineligible) us × (contains h (hashes us) ≡ false))
unfolding contains
IsFresh-cons h ineligible [] = (λ a. (tt, refl), λ a. tt)
IsFresh-cons h ineligible (u ∷ us) =
    let rest = IsFresh-cons h ineligible us in
    (
      λ a.
          let split = rest.0 a.1 in
          let head = a.0 in let tail = split.1 in ((ground arith, split.0), ground arith),
      λ a. let head = a.0.0 in let all = a.1 in (ground arith, rest.1 (a.0.1, ground arith)),
    )

pub validate_each_iff :
    (x : Hashing) (config : Config) (chain : List Header) (ineligible : List ℕ) (us : List Header)
    → (validate_each x config chain ineligible us ≡ ok tt)
      ↔ (All (IsAdmitted x config chain) us × All (IsFresh ineligible) us × AreDistinct us)
unfolding validate_each
validate_each_iff x config chain ineligible [] = (λ h. (tt, tt, tt), λ a. refl)
validate_each_iff x config chain ineligible (u ∷ us) =
    let here = validate_uncle_iff x config chain ineligible u in
    let rest = validate_each_iff x config chain (u.hash ∷ ineligible) us in
    let fresh = IsFresh-cons u.hash ineligible us in
    let each =
      seq_iff (validate_uncle x config chain ineligible u)
        (validate_each x config chain (u.hash ∷ ineligible) us) in
    (
      λ h.
          let (first, others) = each.0 h in
          let (kin, own) = here.0 first in
          let (kins, owns, distinct) = rest.0 others in
          let (old, new) = fresh.0 owns in ((kin, kins), (own, old), (new, distinct)),
      λ (kins, owns, distinct).
          each.1
            (here.1 (kins.0, owns.0), rest.1 (kins.1, fresh.1 (owns.1, distinct.0), distinct.1)),
    )
