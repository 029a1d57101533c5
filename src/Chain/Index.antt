-- ===== src/Chain/Index.antt =====
-- When the index of ethereum/pow/chain.py is the chain of its head. Heights are counted from the
-- genesis block, which has the number `g` and the hash `root`.
use shopper.Prelude.{
  ℕ, zero, suc, ◌+◌, ◌≤◌, ◌<◌, ◌≡◌, ◌≢◌, ◌⊎◌, sym, ap, subst, ◌∙◌, none, some, inl, inr, arith,
}
use shopper.Dict.{Dict, lookup, insert, lookup-insert_other}
use shopper.Block.{Header}
use shopper.Consensus.{Block}

module _ (header_of : ℕ → Header) (g root : ℕ) where
  -- From the height `k` down, the index has the hash `h` and its ancestors.
  abbrev pub IsMain : Dict ℕ → ℕ → ℕ → Type 0
  IsMain index zero h = h ≡ root
  IsMain index (suc k) h =
      ((header_of h).number ≡ g + suc k)
      × (lookup (g + suc k) index ≡ some h)
      × IsMain index k (header_of h).prevhash

  -- The index is that chain and nothing above it.
  pub record IsIndex (index : Dict ℕ) (h : ℕ) : Type 0 where
    pub height : ℕ
    pub main : IsMain index height h
    pub top : (n : ℕ) → g + height < n → lookup n index ≡ none

  -- Blocks by number, from the hash `top` at the height `k` down to what a hash at the height `j`
  -- stands on.
  pub data Down (new_chain : Dict Block) (k top : ℕ) : ℕ → ℕ → Type 0 where
    begun : Down new_chain k top k top
    lower :
        {j h : ℕ} (b : Block)
        → Down new_chain k top (suc j) h
        → lookup (g + suc j) new_chain ≡ some b
        → b.header.hash ≡ h
        → (header_of h).number ≡ g + suc j
        → Down new_chain k top j (header_of h).prevhash

  -- What the index has within its heights is on the chain.
  pub IsMain-at :
      (index : Dict ℕ) (k h j h1 : ℕ)
      → IsMain index k h
      → j < k
      → lookup (g + suc j) index ≡ some h1
      → IsMain index (suc j) h1
  IsMain-at index zero h j h1 main below at = absurd (omega arith)
  IsMain-at index (suc k) h j h1 (number, here, rest) below at = elim (last j k below) [
    | inl same ↦
        (let value : h ≡ h1 =
            (let both = sym here ∙ ap (λ q. lookup (g + suc q) index) (sym same) ∙ at in
              ground arith) in
          subst (λ q. IsMain index (suc q) h1) (sym same)
            (subst (λ q. IsMain index (suc k) q) value (number, here, rest)))
    | inr under ↦ IsMain-at index k (header_of h).prevhash j h1 rest under at
  ]
    where
      last : (j k : ℕ) → j < suc k → (j ≡ k) ⊎ (j < k)
      last j k h = omega arith

  -- The index has no gap.
  pub IsMain-some :
      (index : Dict ℕ) (k h j : ℕ) → IsMain index k h → j < k → lookup (g + suc j) index ≢ none
  IsMain-some index zero h j main below = absurd (omega arith)
  IsMain-some index (suc k) h j (number, here, rest) below = elim (last j k below) [
    | inl same ↦ λ gap.
        absurd (
          let both = sym here ∙ ap (λ q. lookup (g + suc q) index) (sym same) ∙ gap in ground arith)
    | inr under ↦ IsMain-some index k (header_of h).prevhash j rest under
  ]
    where
      last : (j k : ℕ) → j < suc k → (j ≡ k) ⊎ (j < k)
      last j k h = omega arith

  -- Nor have the blocks of the new chain.
  pub Down-some :
      {new_chain : Dict Block} {k top j h : ℕ} (i : ℕ)
      → Down new_chain k top j h
      → j ≤ i
      → i < k
      → lookup (g + suc i) new_chain ≢ none
  Down-some i begun low high = absurd (omega arith)
  Down-some {new_chain} {j = j} i (lower b down at hash number) low high = elim (first j i low) [
    | inl same ↦ λ gap.
        absurd
          (let both = sym at ∙ ap (λ q. lookup (g + suc q) new_chain) same ∙ gap in ground arith)
    | inr above ↦ Down-some i down above high
  ]
    where
      first : (j i : ℕ) → j ≤ i → (j ≡ i) ⊎ (suc j ≤ i)
      first j i h = omega arith

  -- A block put lower down does not matter.
  pub Down-insert :
      {new_chain : Dict Block} {k top j h : ℕ} (n : ℕ) (c : Block)
      → Down new_chain k top j h
      → n ≤ g + j
      → Down (insert n c new_chain) k top j h
  Down-insert n c begun low = begun
  Down-insert {new_chain} {j = j} n c (lower b down at hash number) low =
      lower b (Down-insert n c down (omega arith))
        (lookup-insert_other (g + suc j) n c new_chain (λ same. absurd (omega (arith, same))) ∙ at)
        hash number

  -- An index with the new chain's hashes above the height `j` has the new chain as its own.
  pub IsMain-Down :
      {new_chain : Dict Block} {k top j h : ℕ} (index : Dict ℕ)
      → Down new_chain k top j h
      → ((i : ℕ) (b : Block)
          → j ≤ i
          → lookup (g + suc i) new_chain ≡ some b
          → lookup (g + suc i) index ≡ some b.header.hash)
      → IsMain index j h
      → IsMain index k top
  IsMain-Down index begun hashes main = main
  IsMain-Down {j = j} index (lower b down at hash number) hashes main =
      IsMain-Down index down (λ i c low e. hashes i c (omega arith) e)
        (number, hashes j b (omega arith) at ∙ ap some hash, main)

  -- Heights that two indices share.
  pub IsMain-same :
      (index index1 : Dict ℕ) (k h : ℕ)
      → ((n : ℕ) → n ≤ g + k → lookup n index1 ≡ lookup n index)
      → IsMain index k h
      → IsMain index1 k h
  IsMain-same index index1 zero h same main = main
  IsMain-same index index1 (suc k) h same (number, here, rest) = (
    number,
    same (g + suc k) (omega arith) ∙ here,
    IsMain-same index index1 k (header_of h).prevhash (λ n low. same n (omega arith)) rest,
  )
