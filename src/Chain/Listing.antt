-- ===== src/Chain/Listing.antt =====
-- `get_chain` of ethereum/pow/chain.py lists the chain of the head.
use shopper.Prelude.{
  ℕ, zero, suc, ◌+◌, ◌-◌, ◌<◌, ◌≡◌, refl, sym, ap, subst, ◌∙◌, Option, none, some, List, [], ◌∷◌,
  ◌++◌, map, length, append_assoc, append-nil, length-append, arith,
}
use shopper.Dict.{Dict, lookup}
use shopper.Block.{Header}
use shopper.Consensus.{Block}
use shopper.Chain.{ChainDb, get_block, get_blockhash_by_number, chain_from, get_chain}
use shopper.Chain.Index.{IsMain, IsIndex}

-- The index has these hashes from a number on, and then none.
abbrev Runs : Dict ℕ → ℕ → List ℕ → Type 0
Runs index from [] = lookup from index ≡ none
Runs index from (h ∷ hs) = (lookup from index ≡ some h) × Runs index (from + 1) hs

chain_from-some :
    (db : ChainDb) (count from h : ℕ) (chain : List (Option Block))
    → lookup from db.index ≡ some h
    → chain_from db (suc count) from chain
      ≡ chain_from db count (from + 1) (chain ++ get_block db h ∷ [])
unfolding chain_from get_blockhash_by_number
chain_from-some db count from h chain at = rw (at, chain_from) refl

chain_from-none :
    (db : ChainDb) (count from : ℕ) (chain : List (Option Block))
    → lookup from db.index ≡ none
    → chain_from db (suc count) from chain ≡ some chain
unfolding chain_from get_blockhash_by_number
chain_from-none db count from chain at = rw (at, chain_from) refl

chain_from-Runs :
    (db : ChainDb) (count from : ℕ) (hs : List ℕ) (chain : List (Option Block))
    → Runs db.index from hs
    → length hs < count
    → chain_from db count from chain ≡ some (chain ++ map (get_block db) hs)
chain_from-Runs db zero from hs chain runs enough = absurd (omega arith)
chain_from-Runs db (suc count) from [] chain at enough =
    chain_from-none db count from chain at ∙ ap some (sym (append-nil chain))
chain_from-Runs db (suc count) from (h ∷ hs) chain (at, rest) enough =
    chain_from-some db count from h chain at
    ∙ chain_from-Runs db count (from + 1) hs (chain ++ get_block db h ∷ []) rest (omega arith)
    ∙ ap some (append_assoc chain (get_block db h ∷ []) (map (get_block db) hs))

module _ (header_of : ℕ → Header) where
  -- The hashes down to the height `k`'s, the lowest first.
  unfoldable pub branch_of : ℕ → ℕ → List ℕ
  branch_of zero h = []
  branch_of (suc k) h = branch_of k (header_of h).prevhash ++ h ∷ []

  pub length-branch_of : (k h : ℕ) → length (branch_of k h) ≡ k
  unfolding branch_of
  length-branch_of zero h = refl
  length-branch_of (suc k) h = omega (
    arith,
    length-append (branch_of k (header_of h).prevhash) (h ∷ []),
    length-branch_of k (header_of h).prevhash,
  )

  Runs-branch_of :
      (g root : ℕ) (index : Dict ℕ) (k h : ℕ) (tail : List ℕ)
      → IsMain header_of g root index k h
      → Runs index (g + k + 1) tail
      → Runs index (g + 1) (branch_of k h ++ tail)
  unfolding branch_of
  Runs-branch_of g root index zero h tail main runs =
      subst (λ n. Runs index n tail) (omega arith) runs
  Runs-branch_of g root index (suc k) h tail (number, here, rest) runs =
      subst (Runs index (g + 1))
        (sym (append_assoc (branch_of k (header_of h).prevhash) (h ∷ []) tail))
        (Runs-branch_of g root index k (header_of h).prevhash (h ∷ tail) rest (
          ap (λ n. lookup n index) (omega arith) ∙ here,
          subst (λ n. Runs index n tail) (omega arith) runs,
        ))

  -- Where the index is the chain of a head, the listing from the first number above the genesis
  -- block, up to any number above the head's, is the head's branch: every block by its hash, the
  -- lowest first and the head last.
  pub get_chain-branch_of :
      (db : ChainDb) (head to : ℕ)
      → (i : IsIndex header_of db.genesis_number db.genesis.header.hash db.index head)
      → db.genesis_number + i.height + 1 < to
      → get_chain db (db.genesis_number + 1) to
        ≡ some (map (get_block db) (branch_of i.height head))
  unfolding get_chain
  get_chain-branch_of db head to i high =
      let hs = branch_of i.height head in
      let size = length-branch_of i.height head in
      let runs = subst (Runs db.index (db.genesis_number + 1)) (append-nil hs) (
        Runs-branch_of db.genesis_number db.genesis.header.hash db.index i.height head [] i.main
          (i.top (db.genesis_number + i.height + 1) (omega arith))) in
      chain_from-Runs db (to - (db.genesis_number + 1)) (db.genesis_number + 1) hs [] runs
        (omega (arith, size, high))
