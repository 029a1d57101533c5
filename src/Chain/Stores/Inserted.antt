-- ===== src/Chain/Stores/Inserted.antt =====
-- A block that stands on a stored block can be stored in the database of ethereum/pow/chain.py.
use shopper.Prelude.{
  ℕ, ◌+◌, ◌≡◌, refl, sym, ap, subst, Option, none, some, true, false, ◌==◌, ==_iff, Bool-cases, inl,
  inr, arith, ◌∙◌,
}
use shopper.Dict.{lookup, insert, lookup-insert_same, lookup-insert_other}
use shopper.Block.{Header}
use shopper.Consensus.{Block}
use shopper.Chain.{ChainDb, Stored, has, has_blockhash, get_block, decode_block}
use shopper.Chain.Stored.{genesis_mark, body}
use shopper.Chain.Stores.{Fits, IsStore, get_block-cases}

module _ (header_of : ℕ → Header) where
  -- A block on top of a stored one, with the number after it.
  pub Fits-on :
      (db : ChainDb) (block : Block)
      → IsStore header_of db
      → header_of block.header.hash ≡ block.header
      → has_blockhash db block.header.prevhash ≡ true
      → block.header.number ≡ (header_of block.header.prevhash).number + 1
      → Fits header_of db block
  unfolding has_blockhash
  Fits-on db block store hashed known successor =
      let (p, at) = there (lookup block.header.prevhash db.bodies) refl known in
      let (hash, header, kind) = get_block-cases header_of db block.header.prevhash p store at in
      let number = ap (λ (q : Header). q.number) header in
      record {
        hashed = hashed;
        parent = p;
        parent_stored = at;
        successor = successor;
        above_genesis = elim kind [
          | inl (mark, same) ↦
              (let at_genesis = ap (λ (q : Block). q.header.number) same in
                omega (arith, number, successor, at_genesis, store.genesis_numbered))
          | inr (at_p, fits) ↦ omega (arith, number, successor, fits.above_genesis)
        ];
      }
    where
      there :
          (o : Option Stored)
          → lookup block.header.prevhash db.bodies ≡ o
          → has o ≡ true
          → (p : Block) × (get_block db block.header.prevhash ≡ some p)
      there none at e = absurd (ground arith)
      there (some genesis_mark) at e =
          (db.genesis, unfold get_block in ap (decode_block db.genesis) at)
      there (some (body b)) at e = (b, unfold get_block in ap (decode_block db.genesis) at)

  -- A stored block stays when another is stored.
  pub get_block-insert :
      (db : ChainDb) (block : Block) (h : ℕ) (b : Block)
      → get_block db h ≡ some b
      → (c : Block) × (get_block
            (record db { bodies = insert block.header.hash (body block) db.bodies })
            h
          ≡ some c)
  unfolding get_block
  get_block-insert db block h b e = elim (Bool-cases (h == block.header.hash)) [
    | inl same ↦ (
      block,
      ap (decode_block db.genesis) (
          ap (λ q. lookup q (insert block.header.hash (body block) db.bodies))
            ((==_iff h block.header.hash).0 same)
          ∙ lookup-insert_same block.header.hash (body block) db.bodies),
    )
    | inr other ↦ (
      b,
      ap (decode_block db.genesis) (
            lookup-insert_other h block.header.hash (body block) db.bodies
              (λ same. absurd (ground arith)))
          ∙ e,
    )
  ]

  -- A block that fits can be stored.
  pub IsStore-insert :
      (db : ChainDb) (block : Block)
      → IsStore header_of db
      → Fits header_of db block
      → IsStore header_of (record db { bodies = insert block.header.hash (body block) db.bodies })
  IsStore-insert db block s fits = record {
    genesis_stored =
        lookup-insert_other root block.header.hash (body block) db.bodies (λ same. absurd (
          let header = ap (λ (q : Header). q.number) (ap header_of same ∙ fits.hashed) in
          let genesis = ap (λ (q : Header). q.number) s.genesis_hashed in
          omega (arith, header, genesis, s.genesis_numbered, fits.above_genesis)))
        ∙ s.genesis_stored;
    genesis_hashed = s.genesis_hashed;
    genesis_numbered = s.genesis_numbered;
    one_genesis = λ h e. elim (Bool-cases (h == block.header.hash)) [
      | inl same ↦ absurd (let at = sym (at_block h same) ∙ e in ground arith)
      | inr other ↦ s.one_genesis h (sym (elsewhere h other) ∙ e)
    ];
    linked = λ h b e. elim (Bool-cases (h == block.header.hash)) [
      | inl same ↦
          (let at = sym (at_block h same) ∙ e in
            let this : block ≡ b = ground arith in
            (
              ap (λ (q : Block). q.header.hash) (sym this)
                  ∙ sym ((==_iff h block.header.hash).0 same),
              subst (λ q. Fits header_of new q) this (still block fits),
            ))
      | inr other ↦
          (let (hash, f) = s.linked h b (sym (elsewhere h other) ∙ e) in (hash, still b f))
    ];
  }
    where
      root : ℕ
      root = db.genesis.header.hash

      new : ChainDb
      new = record db { bodies = insert block.header.hash (body block) db.bodies }

      at_block : (h : ℕ) → (h == block.header.hash) ≡ true → lookup h new.bodies ≡ some (body block)
      at_block h same =
          ap (λ q. lookup q new.bodies) ((==_iff h block.header.hash).0 same)
          ∙ lookup-insert_same block.header.hash (body block) db.bodies

      elsewhere :
          (h : ℕ) → (h == block.header.hash) ≡ false → lookup h new.bodies ≡ lookup h db.bodies
      elsewhere h other =
          lookup-insert_other h block.header.hash (body block) db.bodies
            (λ same. absurd (ground arith))

      still : (b : Block) → Fits header_of db b → Fits header_of new b
      still b f =
          let (p, at) = get_block-insert db block b.header.prevhash f.parent f.parent_stored in
          record {
            hashed = f.hashed;
            parent = p;
            parent_stored = at;
            successor = f.successor;
            above_genesis = f.above_genesis;
          }
