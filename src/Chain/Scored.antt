-- ===== src/Chain/Scored.antt =====
-- The scores that `get_score` of ethereum/pow/chain.py stores.
pub mod Found
use shopper.Prelude.{
  ℕ, zero, suc, ◌+◌, ◌/◌, ◌^◌, ◌≤◌, ◌<◌, ◌≡◌, ◌≢◌, ◌⊎◌, ◌==◌, if◌then◌else◌, refl, sym, ap, subst,
  ◌∙◌, Option, none, some, List, [], ◌∷◌, inl, inr, arith, Option-cases, Bool-cases, true, false,
  ==_iff,
}
use shopper.Exceptions.{Result, ok}
use shopper.Dict.{Dict, lookup, insert, lookup-insert_same, lookup-insert_other}
use shopper.Block.{Header}
use shopper.Consensus.{Block}
use shopper.Chain.{ChainDb, Chain, Rules, Call, get_parent, get_block}
use shopper.Chain.Stores.{Fits, IsStore, get_block-cases}
use shopper.Chain.Scores.{find_score, put_score, next_score, fill_scores, filled, score_of}

-- `random.randrange` stays below its bound.
abbrev pub IsRandrange : Rules → Type 0
IsRandrange x = (k n : ℕ) → x.randrange k (n + 1) ≤ n

-- Only scores and draws differ.
abbrev pub Rescored : Chain → Chain → Type 0
Rescored c c1 =
    (scores : Dict ℕ) × (draws : ℕ) × (c1
      ≡ record c { db = record c.db { scores = scores }; draws = draws })

module _ (header_of : ℕ → Header) where
  -- A score is its parent's plus the difficulty, and less than a millionth of it more.
  abbrev pub Follows : Dict ℕ → ℕ → ℕ → Type 0
  Follows scores h s =
      (s0 : ℕ) × (lookup (header_of h).prevhash scores ≡ some s0)
      × (s0 + (header_of h).difficulty ≤ s)
      × (s ≤ s0 + (header_of h).difficulty + (header_of h).difficulty / 10 ^ 6)

  pub record IsScored (genesis_hash : ℕ) (scores : Dict ℕ) : Type 0 where
    pub start : ℕ
    pub genesis_scored : lookup genesis_hash scores ≡ some start
    pub scored : (h s : ℕ) → lookup h scores ≡ some s → (h ≡ genesis_hash) ⊎ Follows scores h s

  -- Hashes without a score, each on top of the one before.
  abbrev pub Pending : Dict ℕ → ℕ → List (ℕ × ℕ) → Type 0
  Pending scores key [] = Unit
  Pending scores key ((h, d) ∷ fills) =
      (lookup h scores ≡ none)
      × ((header_of h).prevhash ≡ key)
      × (d ≡ (header_of h).difficulty)
      × ((header_of h).number ≡ (header_of key).number + 1)
      × Pending scores h fills

  abbrev pub last_of : ℕ → List (ℕ × ℕ) → ℕ
  last_of key [] = key
  last_of key ((h, d) ∷ fills) = last_of h fills

  -- A lower number's score does not matter to what is pending.
  pub Pending-insert :
      (scores : Dict ℕ) (key k s : ℕ) (fills : List (ℕ × ℕ))
      → (header_of k).number ≤ (header_of key).number
      → Pending scores key fills
      → Pending (insert k s scores) key fills
  Pending-insert scores key k s [] low p = tt
  Pending-insert scores key k s ((h, d) ∷ fills) low (absent, on, difficulty, above, rest) =
      let differs : h ≢ k = λ same.
        absurd
          (let number = ap (λ q. (header_of q).number) same in omega (arith, number, above, low)) in
      (
        lookup-insert_other h k s scores differs ∙ absent,
        on,
        difficulty,
        above,
        Pending-insert scores h k s fills (omega arith) rest,
      )

  pub IsScored-insert :
      (g h key s0 s : ℕ) (scores : Dict ℕ)
      → IsScored g scores
      → lookup h scores ≡ none
      → (header_of h).prevhash ≡ key
      → lookup key scores ≡ some s0
      → s0 + (header_of h).difficulty ≤ s
      → s ≤ s0 + (header_of h).difficulty + (header_of h).difficulty / 10 ^ 6
      → IsScored g (insert h s scores)
  IsScored-insert g h key s0 s scores sc absent on at_key low high = record {
    start = sc.start;
    genesis_scored = kept g sc.start sc.genesis_scored;
    scored = λ j t e. elim (Bool-cases (j == h)) [
      | inl same ↦ inr (here j t ((==_iff j h).0 same) e)
      | inr other ↦ elim (sc.scored j t (before j t other e)) [
        | inl genesis ↦ inl genesis
        | inr (p, at_p, l, u) ↦ inr (p, kept _ p at_p, l, u)
      ]
    ];
  }
    where
      kept : (j t : ℕ) → lookup j scores ≡ some t → lookup j (insert h s scores) ≡ some t
      kept j t e =
          lookup-insert_other j h s scores
            (λ same. absurd (let there = ap (λ q. lookup q scores) same in cc))
          ∙ e

      before :
          (j t : ℕ)
          → (j == h) ≡ false
          → lookup j (insert h s scores) ≡ some t
          → lookup j scores ≡ some t
      before j t other e =
          sym (lookup-insert_other j h s scores (λ same. absurd (ground arith))) ∙ e

      new : Follows (insert h s scores) h s
      new = (s0, kept _ s0 (ap (λ q. lookup q scores) on ∙ at_key), low, high)

      here :
          (j t : ℕ)
          → j ≡ h
          → lookup j (insert h s scores) ≡ some t
          → Follows (insert h s scores) j t
      here j t same e =
          let at_h : some s ≡ some t =
            sym (lookup-insert_same h s scores)
            ∙ ap (λ q. lookup q (insert h s scores)) (sym same)
            ∙ e in
          let value : s ≡ t = ground arith in
          subst (λ q. Follows (insert h s scores) j q) value
            (subst (λ q. Follows (insert h s scores) q s) (sym same) new)
