-- ===== src/Chain/Reorg/Ancestor.antt =====
-- What the search for the common ancestor in `Chain.add_block` of ethereum/pow/chain.py finds.
use shopper.Prelude.{
  ℕ, zero, suc, ◌+◌, ◌-◌, ◌≤◌, ◌<◌, ◌≡◌, ◌⊎◌, ◌==◌, leb, refl, sym, ap, subst, ◌∙◌, true,
  if◌then◌else◌, Option, none, some, inl, inr, arith, Bool-cases, ==_iff,
}
use shopper.Exceptions.{Result, ok}
use shopper.Dict.{Dict, lookup, insert, lookup-insert_same, lookup-insert_other}
use shopper.Block.{Header}
use shopper.Consensus.{Block}
use shopper.Chain.{ChainDb, get_parent, get_blockhash_by_number}
use shopper.Chain.Stored.{genesis_mark, body}
use shopper.Chain.Stores.{Fits, IsStore, get_block-cases}
use shopper.Chain.Index.{IsMain, IsIndex, Down, lower, IsMain-at, Down-insert}
use shopper.Chain.Reorg.{is_at, climbed, find_ancestor}

find_ancestor-turn :
    (fuel : ℕ) (db : ChainDb) (b : Block) (new_chain : Dict Block)
    → db.genesis_number < b.header.number
    → find_ancestor (suc fuel) db (some b) new_chain ≡ (
        if is_at (lookup b.header.number db.index) b.header.hash
        then ok (insert b.header.number b new_chain, b)
        else climbed
            (lookup b.header.prevhash db.bodies)
            (insert b.header.number b new_chain)
            b
            (find_ancestor fuel db (get_parent db b) (insert b.header.number b new_chain)))
unfolding find_ancestor get_blockhash_by_number
find_ancestor-turn fuel db b new_chain above =
    let high : leb db.genesis_number b.header.number ≡ true = ground arith in
    rw (high, find_ancestor) refl

is_at_lem : (o : Option ℕ) (h : ℕ) → is_at o h ≡ true → o ≡ some h
is_at_lem none h e = ground arith
is_at_lem (some a) h e = ground arith

lt_or_le : (i n : ℕ) → (i < n) ⊎ (n ≤ i)
lt_or_le i n = omega arith

-- `P` is what is said of the hashes of the blocks that are collected.
module _ (header_of : ℕ → Header) (P : ℕ → Type 0) where
  -- The blocks down to `b`, which stands on the main chain at the height `height`.
  pub record IsBranch (db : ChainDb) (k top : ℕ) (new_chain : Dict Block) (b : Block) : Type 0 where
    pub height : ℕ
    pub number : b.header.number ≡ db.genesis_number + suc height
    pub main :
        IsMain header_of db.genesis_number db.genesis.header.hash db.index height b.header.prevhash
    pub down :
        Down header_of db.genesis_number db.genesis.header.hash new_chain k top height
          b.header.prevhash
    pub low : suc height ≤ k
    pub each : (n : ℕ) (a : Block) → lookup n new_chain ≡ some a → P a.header.hash
    pub nothing_above : (n : ℕ) → db.genesis_number + k < n → lookup n new_chain ≡ none

  abbrev Branched : ChainDb → ℕ → ℕ → Result (Dict Block × Block) → Type 0
  Branched db k top r =
      (new_chain : Dict Block) × (b : Block) × (r ≡ ok (new_chain, b))
      × IsBranch db k top new_chain b

  get_parent-Fits :
      (db : ChainDb) (b : Block) (fits : Fits header_of db b) → get_parent db b ≡ some fits.parent
  unfolding get_parent
  get_parent-Fits db b fits = ground (arith, fits.above_genesis, fits.parent_stored)

  -- The walk down to a block on the main chain.
  pub find_ancestor-Branched :
      (fuel : ℕ) (db : ChainDb) (head k top m : ℕ) (b : Block) (new_chain : Dict Block)
      → IsStore header_of db
      → IsIndex header_of db.genesis_number db.genesis.header.hash db.index head
      → Fits header_of db b
      → b.header.number ≡ db.genesis_number + suc m
      → suc m ≤ k
      → Down header_of db.genesis_number db.genesis.header.hash new_chain k top
          (suc m)
          b.header.hash
      → ((n : ℕ) → db.genesis_number + k < n → lookup n new_chain ≡ none)
      → ((n : ℕ) (a : Block) → lookup n new_chain ≡ some a → P a.header.hash)
      → P b.header.hash
      → ((h : ℕ) (a : Block) → lookup h db.bodies ≡ some (body a) → P h)
      → b.header.number < fuel
      → Branched db k top (find_ancestor fuel db (some b) new_chain)
  find_ancestor-Branched zero db head k top m b new_chain store index fits number low down above
        each here_p stored_p enough =
      absurd (omega arith)
  find_ancestor-Branched (suc fuel) db head k top m b new_chain store index fits number low down
        above each here_p stored_p enough =
      elim (Bool-cases (is_at (lookup b.header.number db.index) b.header.hash)) [
        | inl on_main ↦ (
          with_b,
          b,
          turn ∙ rw on_main refl,
          branch (
              let here : lookup (g + suc m) db.index ≡ some b.header.hash =
                ap (λ q. lookup q db.index) (sym number) ∙ is_at_lem _ b.header.hash on_main in
              subst (λ q. IsMain header_of g root db.index m q) on
                (IsMain-at header_of g root db.index index.height head m b.header.hash index.main
                  (inside here) here).2),
        )
        | inr off ↦ elim kind [
          | inl (mark, same) ↦ (
            with_b,
            b,
            turn ∙ rw off (rw mark refl),
            branch (
                let prev = store.one_genesis b.header.prevhash mark in
                let at_root = store.genesis_numbered in
                let genesis_header =
                  ap (λ (q : Header). q.number) (ap header_of prev ∙ store.genesis_hashed) in
                let zero_m : zero ≡ m =
                  omega (arith, fits.successor, at_root, genesis_header, number) in
                subst (λ q. IsMain header_of g root db.index q b.header.prevhash) zero_m prev),
          )
          | inr (at, fits_p) ↦
              (let up = get_parent-Fits db b fits in
                let p_number = ap (λ (q : Header). q.number) known in
                let next : m ≡ suc (m - 1) =
                  omega (arith, fits.successor, p_number, fits_p.above_genesis, number) in
                let (nc, b1, e, is_branch) =
                  find_ancestor-Branched fuel db head k top (m - 1) p with_b store index fits_p
                    (omega (arith, fits.successor, p_number, number, next)) (omega arith)
                    (subst (λ q. Down header_of g root with_b k top q p.header.hash) next
                      (subst (λ q. Down header_of g root with_b k top m q) (sym hash) at_m))
                    above_b each_b (subst P (sym hash) (stored_p b.header.prevhash p at)) stored_p
                    (omega (arith, fits.successor, p_number, enough)) in
                (
                  nc,
                  b1,
                  turn ∙ rw off (rw at (ap (λ q. find_ancestor fuel db q with_b) up ∙ e)),
                  is_branch,
                ))
        ]
      ]
    where
      g : ℕ
      g = db.genesis_number

      root : ℕ
      root = db.genesis.header.hash

      with_b : Dict Block
      with_b = insert b.header.number b new_chain

      on : (header_of b.header.hash).prevhash ≡ b.header.prevhash
      on = ap (λ (q : Header). q.prevhash) fits.hashed

      turn : find_ancestor (suc fuel) db (some b) new_chain ≡ (
          if is_at (lookup b.header.number db.index) b.header.hash
          then ok (with_b, b)
          else climbed
              (lookup b.header.prevhash db.bodies)
              with_b
              b
              (find_ancestor fuel db (get_parent db b) with_b))
      turn = find_ancestor-turn fuel db b new_chain fits.above_genesis

      at_m : Down header_of g root with_b k top m b.header.prevhash
      at_m =
          subst (λ q. Down header_of g root with_b k top m q) on
            (lower b (Down-insert header_of g root b.header.number b down (omega (arith, number)))
              (ap (λ q. lookup q with_b) (sym number)
                ∙ lookup-insert_same b.header.number b new_chain)
              refl (ap (λ (q : Header). q.number) fits.hashed ∙ number))

      above_b : (n : ℕ) → g + k < n → lookup n with_b ≡ none
      above_b n high =
          lookup-insert_other n b.header.number b new_chain
            (λ same. absurd (omega (arith, same, number)))
          ∙ above n high

      each_b : (n : ℕ) (a : Block) → lookup n with_b ≡ some a → P a.header.hash
      each_b n a e = elim (Bool-cases (n == b.header.number)) [
        | inl same ↦
            (let at_b = ap (λ q. lookup q with_b) (sym ((==_iff n b.header.number).0 same)) ∙ e in
              let this : b ≡ a =
                (let both = sym (lookup-insert_same b.header.number b new_chain) ∙ at_b in
                  ground arith) in
              subst (λ (q : Block). P q.header.hash) this here_p)
        | inr other ↦ each n a (
            sym (lookup-insert_other n b.header.number b new_chain (λ same. absurd (ground arith)))
            ∙ e)
      ]

      branch : IsMain header_of g root db.index m b.header.prevhash → IsBranch db k top with_b b
      branch main = record {
        height = m;
        number = number;
        main = main;
        down = at_m;
        low = low;
        each = each_b;
        nothing_above = above_b;
      }

      inside : lookup (g + suc m) db.index ≡ some b.header.hash → m < index.height
      inside here = elim (lt_or_le m index.height) [
        | inl below ↦ below
        | inr out ↦
            absurd (let clash = sym here ∙ index.top (g + suc m) (omega arith) in ground arith)
      ]

      p : Block
      p = fits.parent

      hash : p.header.hash ≡ b.header.prevhash
      hash = (get_block-cases header_of db b.header.prevhash p store fits.parent_stored).0

      known : header_of b.header.prevhash ≡ p.header
      known = (get_block-cases header_of db b.header.prevhash p store fits.parent_stored).1

      kind :
          ((lookup b.header.prevhash db.bodies ≡ some genesis_mark) × (p ≡ db.genesis))
          ⊎ ((lookup b.header.prevhash db.bodies ≡ some (body p)) × Fits header_of db p)
      kind = (get_block-cases header_of db b.header.prevhash p store fits.parent_stored).2
