-- ===== src/Chain/Adding/Kept.antt =====
-- `Chain.add_block` of ethereum/pow/chain.py keeps the index, the store and the scores in order:
-- a block that extends the head, and a block that makes its branch the main chain.
use shopper.Prelude.{
  ℕ, zero, suc, ◌+◌, ◌≡◌, ◌≢◌, ◌⊎◌, refl, sym, ap, subst, ◌∙◌, true, ◌==◌, ==_iff, some, inl, inr,
  arith, Bool-cases,
}
use shopper.Exceptions.{ok}
use shopper.Dict.{Dict, lookup, insert, lookup-insert_same, lookup-insert_other}
use shopper.Block.{Header}
use shopper.State.{State}
use shopper.Consensus.{Block}
use shopper.Chain.{ChainDb, Chain, Rules, and_with, get_block, get_blockhash_by_number}
use shopper.Chain.Stores.{Fits, IsStore, Fits-with, IsStore-with}
use shopper.Chain.Scores.{get_score}
use shopper.Chain.Scored.{IsRandrange, IsScored}
use shopper.Chain.Scored.Found.{score_of-Scores}
use shopper.Chain.Index.{IsMain, IsIndex, IsMain-same}
use shopper.Chain.Reorg.{is_at, put_index, put_txs}
use shopper.Chain.Reorg.Patched.{put_txs_lem}
use shopper.Chain.Adding.{put_head, extend_index}

module _ (header_of : ℕ → Header) where
  -- The database and the head in order.
  pub record IsChain (c : Chain) : Type 0 where
    pub store : IsStore header_of c.db
    pub scored : IsScored header_of c.db.genesis.header.hash c.db.scores
    pub index :
        IsIndex header_of c.db.genesis_number c.db.genesis.header.hash c.db.index c.head_hash
    pub indexed :
        (n h : ℕ) → lookup n c.db.index ≡ some h → (b : Block) × (get_block c.db h ≡ some b)
    pub head_scored : (s : ℕ) × (lookup c.head_hash c.db.scores ≡ some s)
    pub head_stored : (b : Block) × (get_block c.db c.head_hash ≡ some b)

  -- The head's number is its height above the genesis block.
  head-number :
      (c : Chain) (i : IsChain c)
      → (header_of c.head_hash).number ≡ c.db.genesis_number + i.index.height
  head-number c i = at i.index.height i.index.main
    where
      at :
          (k : ℕ)
          → IsMain header_of c.db.genesis_number c.db.genesis.header.hash c.db.index k c.head_hash
          → (header_of c.head_hash).number ≡ c.db.genesis_number + k
      at zero same =
          let genesis =
            ap (λ (q : Header). q.number) (ap header_of same ∙ i.store.genesis_hashed) in
          omega (arith, genesis, i.store.genesis_numbered)
      at (suc k) (number, here, rest) = number

  -- What becomes of a chain that takes a block as its head: the index is the block's chain, and
  -- leads to what was stored and the block.
  unfoldable pub Heads : Block → Chain → Chain → Type 0
  Heads block c c1 =
      (index scores : Dict ℕ) × (p : Dict (ℕ × ℕ)) × (draws : ℕ) × (s : State) × (c1 ≡ record c {
        db = record c.db { index = index; scores = scores; tx_positions = p };
        head_hash = block.header.hash;
        draws = draws;
        state = s;
      })
      × IsScored header_of c.db.genesis.header.hash scores
      × IsIndex header_of c.db.genesis_number c.db.genesis.header.hash index block.header.hash
      × ((n h : ℕ)
          → lookup n index ≡ some h
          → (h ≡ block.header.hash) ⊎ ((b : Block) × (get_block c.db h ≡ some b)))
      × ((j u : ℕ) → lookup j c.db.scores ≡ some u → lookup j scores ≡ some u)

  -- The head's index with a block on top.
  IsIndex-insert :
      (c : Chain) (block : Block)
      → IsChain c
      → Fits header_of c.db block
      → block.header.prevhash ≡ c.head_hash
      → IsIndex header_of c.db.genesis_number c.db.genesis.header.hash
          (insert block.header.number block.header.hash c.db.index)
          block.header.hash
  IsIndex-insert c block i fits on = record {
    height = suc k;
    main = (
      ap (λ (q : Header). q.number) fits.hashed ∙ number,
      ap (λ q. lookup q new) (sym number)
          ∙ lookup-insert_same block.header.number block.header.hash c.db.index,
      subst (IsMain header_of g root new k)
          (sym on ∙ ap (λ (q : Header). q.prevhash) (sym fits.hashed))
          (IsMain-same header_of g root c.db.index new k c.head_hash
            (λ n low. other n (λ same. absurd (omega (arith, same, number)))) i.index.main),
    );
    top = λ n high.
        other n (λ same. absurd (omega (arith, same, number))) ∙ i.index.top n (omega arith);
  }
    where
      g : ℕ
      g = c.db.genesis_number

      root : ℕ
      root = c.db.genesis.header.hash

      k : ℕ
      k = i.index.height

      new : Dict ℕ
      new = insert block.header.number block.header.hash c.db.index

      number : block.header.number ≡ g + suc k
      number =
          let at = head-number c i in
          let prev = ap (λ q. (header_of q).number) on in omega (arith, fits.successor, at, prev)

      other : (n : ℕ) → n ≢ block.header.number → lookup n new ≡ lookup n c.db.index
      other n differ = lookup-insert_other n block.header.number block.header.hash c.db.index differ

  put_head-at :
      (block : Block) (c : Chain) (db : ChainDb)
      → lookup block.header.number db.index ≡ some block.header.hash
      → put_head block c db ≡ (ok true, record c { head_hash = block.header.hash; db = db })
  unfolding get_blockhash_by_number
  put_head-at block c db at =
      let found : is_at (lookup block.header.number db.index) block.header.hash ≡ true =
        ap (λ q. is_at q block.header.hash) at ∙ same block.header.hash in
      rw found refl
    where
      same : (h : ℕ) → (h == h) ≡ true
      same h = ground arith

  pub extend_index-Heads :
      (x : Rules) (block : Block) (c : Chain)
      → IsRandrange x
      → IsChain c
      → Fits header_of c.db block
      → block.header.prevhash ≡ c.head_hash
      → (c1 : Chain) × (extend_index x block c ≡ (ok true, c1))
        × Heads block c c1
        × ((s : ℕ) × (lookup block.header.hash c1.db.scores ≡ some s))
        × (c1.state ≡ c.state)
  unfolding extend_index get_score put_index get_blockhash_by_number Heads
  extend_index-Heads x block c random i fits on =
      let number = block.header.number in
      let new = insert number block.header.hash c.db.index in
      let indexed = record c { db = put_index number block.header.hash c.db } in
      let (s, c1, e, sc) =
        score_of-Scores header_of x block indexed random
          (IsStore-with header_of c.db new c.db.scores c.db.children c.db.tx_positions
            c.db.saved_head i.store)
          i.scored
          (inr (
            Fits-with header_of c.db new c.db.scores c.db.children c.db.tx_positions c.db.saved_head
              block fits)) in
      let (scores, draws, same) = sc.rescored in
      let c2 = record indexed { db = record indexed.db { scores = scores }; draws = draws } in
      let (p, put) = put_txs_lem x number 0 block.transactions c2.db in
      let db3 = record c2.db { tx_positions = p } in
      (
        record c2 { head_hash = block.header.hash; db = db3 },
        ap
              (λ r.
                and_with r
                  λ score c3. put_head block c3 (put_txs x number 0 block.transactions c3.db))
              e
            ∙ ap (λ c3. put_head block c3 (put_txs x number 0 block.transactions c3.db)) same
            ∙ ap (put_head block c2) put
            ∙ put_head-at block c2 db3 (lookup-insert_same number block.header.hash c.db.index),
        (
          new,
          scores,
          p,
          draws,
          c.state,
          refl,
          subst (λ q. IsScored header_of c.db.genesis.header.hash q)
              (ap (λ (q : Chain). q.db.scores) same) sc.scored,
          IsIndex-insert c block i fits on,
          λ n h at. elim (Bool-cases (n == number)) [
            | inl here ↦ inl (
                let both =
                  sym (lookup-insert_same number block.header.hash c.db.index)
                  ∙ ap (λ q. lookup q new) (sym ((==_iff n number).0 here))
                  ∙ at in
                ground arith)
            | inr other ↦ inr (
                i.indexed n h (
                  sym (
                    lookup-insert_other n number block.header.hash c.db.index
                      (λ same. absurd (ground arith)))
                  ∙ at))
          ],
          λ j u at.
              subst (λ q. lookup j q ≡ some u) (ap (λ (q : Chain). q.db.scores) same)
                (sc.kept j u at),
        ),
        (
          s,
          subst (λ q. lookup block.header.hash q ≡ some s) (ap (λ (q : Chain). q.db.scores) same)
              sc.found,
        ),
        refl,
      )
