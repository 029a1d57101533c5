-- ===== src/Chain/Scored/Found.antt =====
-- `get_score` of ethereum/pow/chain.py finds or makes a score for every block that fits.
use shopper.Prelude.{
  ℕ, zero, suc, ◌+◌, ◌/◌, ◌^◌, ◌<◌, ◌≡◌, ◌⊎◌, refl, sym, ap, subst, ◌∙◌, Option, none, some, List,
  [], ◌∷◌, inl, inr, arith, Option-cases,
}
use shopper.Exceptions.{Result, ok}
use shopper.Dict.{lookup, lookup-insert_same, lookup-insert_other}
use shopper.Block.{Header}
use shopper.Consensus.{Block}
use shopper.Chain.{ChainDb, Chain, Rules, get_parent}
use shopper.Chain.Stores.{Fits, IsStore, get_block-cases}
use shopper.Chain.Scores.{find_score, put_score, next_score, fill_scores, filled, score_of}
use shopper.Chain.Scored.{
  IsRandrange, Rescored, IsScored, Pending, last_of, Pending-insert, IsScored-insert,
}

module _ (header_of : ℕ → Header) where
  -- What a call that scores the hash `h` leaves: only scores and draws differ.
  pub record Scores (h : ℕ) (c : Chain) (s : ℕ) (c1 : Chain) : Type 0 where
    pub rescored : Rescored c c1
    pub scored : IsScored header_of c.db.genesis.header.hash c1.db.scores
    pub found : lookup h c1.db.scores ≡ some s
    pub kept : (j t : ℕ) → lookup j c.db.scores ≡ some t → lookup j c1.db.scores ≡ some t

  fill_scores-Scores :
      (x : Rules) (score key : ℕ) (fills : List (ℕ × ℕ)) (c : Chain)
      → IsRandrange x
      → IsScored header_of c.db.genesis.header.hash c.db.scores
      → lookup key c.db.scores ≡ some score
      → Pending header_of c.db.scores key fills
      → Scores
          (last_of header_of key fills)
          c
          (fill_scores x score fills c).0
          (fill_scores x score fills c).1
  unfolding fill_scores put_score next_score
  fill_scores-Scores x score key [] c random scored at pending = record {
    rescored = (c.db.scores, c.draws, refl);
    scored = scored;
    found = at;
    kept = λ j t e. e;
  }
  fill_scores-Scores x score key ((h, d) ∷ fills) c random scored at
        (absent, on, hard, above, rest) =
      let s = next_score x score d c in
      let drawn = random c.draws (d / 10 ^ 6) in
      let scored1 =
        IsScored-insert header_of c.db.genesis.header.hash h key score s c.db.scores scored absent
          on at (rw (sym hard) (omega arith)) (rw (sym hard) (omega (arith, drawn))) in
      let ih =
        fill_scores-Scores x s h fills (put_score h s c) random scored1
          (lookup-insert_same h s c.db.scores)
          (Pending-insert header_of c.db.scores h h s fills (omega arith) rest) in
      let (scores, draws, same) = ih.rescored in
      record {
        rescored = (scores, draws, same);
        scored = ih.scored;
        found = ih.found;
        kept = λ j t e. ih.kept j t (
            lookup-insert_other j h s c.db.scores (λ here. absurd (
              let there = ap (λ q. lookup q c.db.scores) here in
              let clash = sym absent ∙ sym there ∙ e in ground arith))
            ∙ e);
      }

  -- The place of the walk: at a hash with a score, or at a block that fits.
  abbrev Place : ChainDb → ℕ → ℕ → Option Block → Type 0
  Place db fuel key block =
      ((score : ℕ) × (lookup key db.scores ≡ some score) × (0 < fuel))
      ⊎ ((b : Block) × (block ≡ some b)
          × (b.header.hash ≡ key)
          × Fits header_of db b
          × (b.header.number < fuel))

  abbrev Found : ChainDb → ℕ → Result (ℕ × List (ℕ × ℕ)) → Type 0
  Found db target r =
      (score : ℕ) × (root : ℕ) × (fills : List (ℕ × ℕ)) × (r ≡ ok (score, fills))
      × (lookup root db.scores ≡ some score)
      × Pending header_of db.scores root fills
      × (last_of header_of root fills ≡ target)

  -- The parent of a block that fits is a place.
  Place-parent :
      (db : ChainDb) (fuel : ℕ) (b : Block)
      → IsStore header_of db
      → IsScored header_of db.genesis.header.hash db.scores
      → Fits header_of db b
      → b.header.number < suc fuel
      → Place db fuel b.header.prevhash (get_parent db b)
  unfolding get_parent
  Place-parent db fuel b store scored fits enough =
      let p = fits.parent in
      let up : get_parent db b ≡ some p = ground (arith, fits.above_genesis, fits.parent_stored) in
      let (hash, known, kind) =
        get_block-cases header_of db b.header.prevhash p store fits.parent_stored in
      let number = ap (λ (q : Header). q.number) known in
      elim kind [
        | inl (at, same) ↦
            (let here = store.one_genesis b.header.prevhash at in
              inl (
                scored.start,
                ap (λ q. lookup q db.scores) here ∙ scored.genesis_scored,
                omega (arith, fits.above_genesis),
              ))
        | inr (at, fits_p) ↦
            inr (p, up, hash, fits_p, omega (arith, fits.successor, number, enough))
      ]

  find_score-up :
      (fuel : ℕ) (db : ChainDb) (key : ℕ) (b : Block) (fills : List (ℕ × ℕ))
      → lookup key db.scores ≡ none
      → find_score (suc fuel) db key (some b) fills
        ≡ find_score fuel db b.header.prevhash
            (get_parent db b)
            ((b.header.hash, b.header.difficulty) ∷ fills)
  unfolding find_score
  find_score-up fuel db key b fills absent = rw (absent, find_score) refl

  -- The walk ends at an ancestor with a score.
  find_score-Found :
      (fuel : ℕ) (db : ChainDb) (key : ℕ) (block : Option Block) (fills : List (ℕ × ℕ)) (target : ℕ)
      → IsStore header_of db
      → IsScored header_of db.genesis.header.hash db.scores
      → Place db fuel key block
      → Pending header_of db.scores key fills
      → last_of header_of key fills ≡ target
      → Found db target (find_score fuel db key block fills)
  unfolding find_score
  find_score-Found zero db key block fills target store scored place pending ends =
      absurd
        (elim place [ inl (s, at, enough) ↦ omega arith | inr (b, e, h, f, enough) ↦ omega arith ])
  find_score-Found (suc fuel) db key block fills target store scored place pending ends =
      elim (Option-cases (lookup key db.scores)) [
        | inr (score, at) ↦ (score, key, fills, rw (at, find_score) refl, at, pending, ends)
        | inl absent ↦ elim place [
          | inl (score, at, enough) ↦ absurd (let clash = sym absent ∙ at in ground arith)
          | inr (b, is_b, hash, fits, enough) ↦
              (let header = fits.hashed in
                let on : (header_of b.header.hash).prevhash ≡ b.header.prevhash =
                  ap (λ (q : Header). q.prevhash) header in
                let next : Pending header_of db.scores b.header.prevhash
                    ((b.header.hash, b.header.difficulty) ∷ fills) =
                  (
                    ap (λ q. lookup q db.scores) hash ∙ absent,
                    on,
                    ap (λ (q : Header). q.difficulty) (sym header),
                    ap (λ (q : Header). q.number) header ∙ fits.successor,
                    subst (λ q. Pending header_of db.scores q fills) (sym hash) pending,
                  ) in
                let (s, root, l, e, at, p, t) =
                  find_score-Found fuel db b.header.prevhash (get_parent db b)
                    ((b.header.hash, b.header.difficulty) ∷ fills) target store scored
                    (Place-parent db fuel b store scored fits enough) next
                    (ap (λ q. last_of header_of q fills) hash ∙ ends) in
                (
                  s,
                  root,
                  l,
                  ap (λ q. find_score (suc fuel) db key q fills) is_b
                      ∙ find_score-up fuel db key b fills absent
                      ∙ e,
                  at,
                  p,
                  t,
                ))
        ]
      ]

  -- A block that has a score, or stands on a stored block one number below it, gets a score: the
  -- search for an ancestor with a score ends. Only scores and the count of random draws change, the
  -- scores that were there stay, the block's is stored, and every score but the genesis block's is
  -- at least its parent's plus the difficulty, and at most a millionth of the difficulty more.
  pub score_of-Scores :
      (x : Rules) (b : Block) (c : Chain)
      → IsRandrange x
      → IsStore header_of c.db
      → IsScored header_of c.db.genesis.header.hash c.db.scores
      → ((score : ℕ) × (lookup b.header.hash c.db.scores ≡ some score)) ⊎ Fits header_of c.db b
      → (s : ℕ) × (c1 : Chain) × (score_of x b c ≡ (ok s, c1)) × Scores b.header.hash c s c1
  unfolding score_of
  score_of-Scores x b c random store scored place =
      let (score, root, fills, e, at, pending, ends) =
        find_score-Found (b.header.number + 2) c.db b.header.hash (some b) [] b.header.hash store
          scored
          (elim place [
            | inl (s, at) ↦ inl (s, at, omega arith)
            | inr fits ↦ inr (b, refl, refl, fits, omega arith)
          ])
          tt refl in
      let made = fill_scores-Scores x score root fills c random scored at pending in
      (
        (fill_scores x score fills c).0,
        (fill_scores x score fills c).1,
        rw e refl,
        subst (λ q. Scores q c (fill_scores x score fills c).0 (fill_scores x score fills c).1) ends
            made,
      )

  find_score-here :
      (fuel : ℕ) (db : ChainDb) (key s : ℕ) (block : Option Block) (fills : List (ℕ × ℕ))
      → lookup key db.scores ≡ some s
      → find_score (suc fuel) db key block fills ≡ ok (s, fills)
  unfolding find_score
  find_score-here fuel db key s block fills at = rw (at, find_score) refl

  -- A score that is there is found, and nothing changes.
  pub score_of-found :
      (x : Rules) (b : Block) (c : Chain) (s : ℕ)
      → lookup b.header.hash c.db.scores ≡ some s
      → score_of x b c ≡ (ok s, c)
  unfolding score_of fill_scores
  score_of-found x b c s at =
      let rounds : b.header.number + 2 ≡ suc (b.header.number + 1) = omega arith in
      ap (filled x c) (
        ap (λ n. find_score n c.db b.header.hash (some b) []) rounds
        ∙ find_score-here (b.header.number + 1) c.db b.header.hash s (some b) [] at)
