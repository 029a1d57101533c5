-- ===== src/Chain/Stores.antt =====
-- When the database of ethereum/pow/chain.py is in order. `header_of` is the header that a hash is
-- of: no two blocks have the same hash.
pub mod Inserted
use shopper.Prelude.{
  ℕ, ◌+◌, ◌<◌, ◌≡◌, ◌⊎◌, refl, sym, ap, subst, Option, none, some, true, false, List, ◌==◌, ==_iff,
  Bool-cases, inl, inr, arith, ◌∙◌,
}
use shopper.Dict.{Dict, lookup, insert, lookup-insert_same, lookup-insert_other}
use shopper.Block.{Header}
use shopper.Consensus.{Block}
use shopper.Chain.{ChainDb, Stored, has, has_blockhash, get_block, decode_block}
use shopper.Chain.Stored.{genesis_mark, body}

module _ (header_of : ℕ → Header) where
  -- A block that can stand on what is stored: its parent is, one number lower.
  pub record Fits (db : ChainDb) (b : Block) : Type 0 where
    pub hashed : header_of b.header.hash ≡ b.header
    pub parent : Block
    pub parent_stored : get_block db b.header.prevhash ≡ some parent
    pub successor : b.header.number ≡ (header_of b.header.prevhash).number + 1
    pub above_genesis : db.genesis_number < b.header.number

  pub record IsStore (db : ChainDb) : Type 0 where
    pub genesis_stored : lookup db.genesis.header.hash db.bodies ≡ some genesis_mark
    pub genesis_hashed : header_of db.genesis.header.hash ≡ db.genesis.header
    pub genesis_numbered : db.genesis.header.number ≡ db.genesis_number
    pub one_genesis : (h : ℕ) → lookup h db.bodies ≡ some genesis_mark → h ≡ db.genesis.header.hash
    pub linked :
        (h : ℕ) (b : Block) → lookup h db.bodies ≡ some (body b) → (b.header.hash ≡ h) × Fits db b

  -- What `get_block` finds is the genesis block or fits.
  pub get_block-cases :
      (db : ChainDb) (h : ℕ) (b : Block)
      → IsStore db
      → get_block db h ≡ some b
      → (b.header.hash ≡ h)
        × (header_of h ≡ b.header)
        × ((lookup h db.bodies ≡ some genesis_mark) × (b ≡ db.genesis)
            ⊎ (lookup h db.bodies ≡ some (body b)) × Fits db b)
  unfolding get_block
  get_block-cases db h b store e = found (lookup h db.bodies) refl e
    where
      found :
          (o : Option Stored)
          → lookup h db.bodies ≡ o
          → decode_block db.genesis o ≡ some b
          → (b.header.hash ≡ h)
            × (header_of h ≡ b.header)
            × ((lookup h db.bodies ≡ some genesis_mark) × (b ≡ db.genesis)
                ⊎ (lookup h db.bodies ≡ some (body b)) × Fits db b)
      found none at here = ground arith
      found (some genesis_mark) at here =
          let same : db.genesis ≡ b = ground arith in
          let at_genesis : h ≡ db.genesis.header.hash = store.one_genesis h at in
          (
            ap (λ (q : Block). q.header.hash) (sym same) ∙ sym at_genesis,
            ap header_of at_genesis ∙ store.genesis_hashed ∙ ap (λ (q : Block). q.header) same,
            inl (at, sym same),
          )
      found (some (body c)) at here =
          let same : c ≡ b = ground arith in
          let at_b : lookup h db.bodies ≡ some (body b) =
            subst (λ q. lookup h db.bodies ≡ some (body q)) same at in
          let (hash, fits) = store.linked h b at_b in
          (hash, ap header_of (sym hash) ∙ fits.hashed, inr (at_b, fits))

  -- The other kinds of key do not matter.
  pub Fits-with :
      (db : ChainDb) (index scores : Dict ℕ) (children : Dict (List ℕ)) (p : Dict (ℕ × ℕ))
      (saved : Option ℕ) (b : Block)
      → Fits db b
      → Fits
          (record db {
            index = index;
            scores = scores;
            children = children;
            tx_positions = p;
            saved_head = saved;
          })
          b
  unfolding get_block
  Fits-with db index scores children p saved b f = record {
    hashed = f.hashed;
    parent = f.parent;
    parent_stored = f.parent_stored;
    successor = f.successor;
    above_genesis = f.above_genesis;
  }

  pub IsStore-with :
      (db : ChainDb) (index scores : Dict ℕ) (children : Dict (List ℕ)) (p : Dict (ℕ × ℕ))
      (saved : Option ℕ)
      → IsStore db
      → IsStore (record db {
        index = index;
        scores = scores;
        children = children;
        tx_positions = p;
        saved_head = saved;
      })
  IsStore-with db index scores children p saved s = record {
    genesis_stored = s.genesis_stored;
    genesis_hashed = s.genesis_hashed;
    genesis_numbered = s.genesis_numbered;
    one_genesis = s.one_genesis;
    linked = λ h b e.
        let (hash, fits) = s.linked h b e in
        (hash, Fits-with db index scores children p saved b fits);
  }
