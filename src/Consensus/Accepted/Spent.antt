-- ===== src/Consensus/Accepted/Spent.antt =====
-- The hashes that the uncles of a block may not have, in ethereum/pow/consensus.py.
use shopper.Prelude.{
  ℕ, ◌+◌, ◌-◌, ◌≤◌, ◌<◌, ◌≡◌, ◌↔◌, ◌⊎◌, refl, true, false, ◌==◌, ltb, leb, ◌&&◌, ◌||◌, List, [],
  ◌∷◌, ◌++◌, take, arith, inl, inr, Bool-cases,
}
use shopper.Dict.{Dict}
use shopper.Block.{Header}
use shopper.State.{State}
use shopper.Vm.Code.{contains}
use shopper.Consensus.Uncles.{hashes, recent_hashes, ancestor_chain, ineligible_hashes}
use shopper.Consensus.Accepted.Kin.{IsHashIn, contains-hashes}

-- The hash is in one of the lists that are kept for numbers below a block's, at most so far below.
abbrev pub IsRecent : ℕ → ℕ → ℕ → Dict (List ℕ) → Type 0
IsRecent block_number depth h [] = ⊥
IsRecent block_number depth h ((blknum, uncles) ∷ d) =
    ((blknum < block_number) × (block_number ≤ blknum + depth) × (contains h uncles ≡ true))
    ⊎ IsRecent block_number depth h d

contains-append : (h : ℕ) (l k : List ℕ) → contains h (l ++ k) ≡ contains h l || contains h k
unfolding contains
contains-append h [] k = refl
contains-append h (x ∷ l) k = let rest = contains-append h l k in ground arith

recent_hashes_iff :
    (block_number depth h : ℕ) (d : Dict (List ℕ))
    → (contains h (recent_hashes block_number depth d) ≡ true) ↔ IsRecent block_number depth h d
unfolding recent_hashes
recent_hashes_iff block_number depth h [] =
    (λ e. unfold contains in ground arith, λ none. absurd none)
recent_hashes_iff block_number depth h ((blknum, uncles) ∷ d) =
    let rest = recent_hashes_iff block_number depth h d in
    let others = recent_hashes block_number depth d in
    let both = contains-append h uncles others in
    elim (Bool-cases (ltb blknum block_number && leb (block_number - depth) blknum)) [
      | inl e ↦ rw e (
        λ f. elim (Bool-cases (contains h uncles)) [
          | inl g ↦ inl (ground arith, ground arith, g)
          | inr g ↦ inr (rest.0 (ground arith))
        ],
        λ k. elim k [
          | inl (low, near, g) ↦ ground arith
          | inr g ↦ (let seen = rest.1 g in ground arith)
        ],
      )
      | inr e ↦ rw e (
        λ f. inr (rest.0 f),
        λ k. elim k [ inl (low, near, g) ↦ absurd (ground arith) | inr g ↦ rest.1 g ],
      )
    ]

-- A hash that a block's uncles may not have: the block's, one of the previous headers' within one
-- more than the depth, or a recent uncle's.
abbrev pub IsSpent : State → Header → ℕ → Type 0
IsSpent s header h =
    (h ≡ header.hash)
    ⊎ (IsHashIn s.prev_headers (s.config.max_uncle_depth + 1) h
        ⊎ IsRecent s.block_number s.config.max_uncle_depth h s.recent_uncles)

ineligible_hashes_iff :
    (s : State) (header : Header) (h : ℕ)
    → (contains h (ineligible_hashes s header) ≡ true) ↔ IsSpent s header h
unfolding ineligible_hashes ancestor_chain contains
ineligible_hashes_iff s header h =
    let depth = s.config.max_uncle_depth in
    let old = hashes (take (depth + 1) s.prev_headers) in
    let recent = recent_hashes s.block_number depth s.recent_uncles in
    let both = contains-append h old recent in
    let seen = contains-hashes h (depth + 1) s.prev_headers in
    let late = recent_hashes_iff s.block_number depth h s.recent_uncles in
    (
      λ e. elim (Bool-cases (h == header.hash)) [
        | inl same ↦ inl (ground arith)
        | inr other ↦ elim (Bool-cases (contains h old)) [
          | inl f ↦ inr (inl (seen.0 f))
          | inr f ↦ inr (inr (late.0 (ground arith)))
        ]
      ],
      λ k. elim k [
        | inl same ↦ ground arith
        | inr (inl f) ↦ (let g = seen.1 f in ground arith)
        | inr (inr f) ↦ (let g = late.1 f in ground arith)
      ],
    )

pub fresh_iff :
    (s : State) (header : Header) (h : ℕ)
    → (contains h (ineligible_hashes s header) ≡ false) ↔ (¬ IsSpent s header h)
fresh_iff s header h =
    let spent = ineligible_hashes_iff s header h in
    (
      λ e k. let clash = spent.1 k in ground arith,
      λ free. elim (Bool-cases (contains h (ineligible_hashes s header))) [
        | inl e ↦ absurd (free (spent.0 e))
        | inr e ↦ e
      ],
    )
