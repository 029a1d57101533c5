-- ===== src/Chain/Adding/Storing.antt =====
-- A chain of ethereum/pow/chain.py in order stays so when an accepted block is stored.
use shopper.Prelude.{
  ℕ, ◌≡◌, ◌⊎◌, refl, sym, ap, subst, ◌∙◌, Bool, true, false, if◌then◌else◌, some, List, [], ◌∷◌,
  ◌++◌, inl, inr,
}
use shopper.Dict.{Dict, lookup, insert, lookup-insert_same}
use shopper.Block.{Header}
use shopper.Vm.Code.{contains}
use shopper.Consensus.{Block}
use shopper.Chain.{ChainDb, Chain, decode_block, get_block, add_child, get_child_hashes}
use shopper.Chain.Stored.{body}
use shopper.Chain.Stores.{Fits, IsStore, Fits-with, IsStore-with}
use shopper.Chain.Stores.Inserted.{IsStore-insert, get_block-insert}
use shopper.Chain.Scored.{Rescored, IsScored}
use shopper.Chain.Scored.Found.{Scores}
use shopper.Chain.Index.{IsIndex}
use shopper.Chain.Adding.{store_block}
use shopper.Chain.Adding.Kept.{IsChain, Heads}

add_child_lem :
    (block : Block) (db : ChainDb)
    → (children : Dict (List ℕ)) × (add_child block db ≡ record db { children = children })
unfolding add_child
add_child_lem block db =
    let existing = get_child_hashes db block.header.prevhash in
    either (contains block.header.hash existing)
      (insert block.header.prevhash (existing ++ block.header.hash ∷ []) db.children)
  where
    either :
        (b : Bool) (new : Dict (List ℕ))
        → (children : Dict (List ℕ)) × ((if b then db else record db { children = new })
            ≡ record db { children = children })
    either true new = (db.children, refl)
    either false new = (new, refl)

-- What storing a block leaves.
pub store_block-keeps :
    (block : Block) (c : Chain)
    → ((store_block block c).state ≡ c.state)
      × ((store_block block c).head_hash ≡ c.head_hash)
      × ((store_block block c).db.scores ≡ c.db.scores)
      × ((store_block block c).db.genesis_state ≡ c.db.genesis_state)
unfolding store_block
store_block-keeps block c =
    let (children, same) = add_child_lem block c.db in
    (refl, refl, ap (λ (q : ChainDb). q.scores) same, ap (λ (q : ChainDb). q.genesis_state) same)

module _ (header_of : ℕ → Header) where
  -- A chain is in order once the block that it has accepted is stored.
  pub store_block-IsChain :
      (block : Block) (c : Chain)
      → IsStore header_of c.db
      → Fits header_of c.db block
      → IsScored header_of c.db.genesis.header.hash c.db.scores
      → IsIndex header_of c.db.genesis_number c.db.genesis.header.hash c.db.index c.head_hash
      → ((n h : ℕ)
          → lookup n c.db.index ≡ some h
          → (h ≡ block.header.hash) ⊎ ((b : Block) × (get_block c.db h ≡ some b)))
      → (s : ℕ) × (lookup c.head_hash c.db.scores ≡ some s)
      → (c.head_hash ≡ block.header.hash) ⊎ ((b : Block) × (get_block c.db c.head_hash ≡ some b))
      → IsChain header_of (store_block block c)
  unfolding store_block
  store_block-IsChain block c store fits scored index indexed head_scored at_head =
      let (children, same) = add_child_lem block c.db in
      let db1 = record c.db { children = children; saved_head = some c.head_hash } in
      let db2 = record db1 { bodies = insert block.header.hash (body block) db1.bodies } in
      let stored : (h : ℕ)
          → (h ≡ block.header.hash) ⊎ ((b : Block) × (get_block c.db h ≡ some b))
          → (b : Block) × (get_block db2 h ≡ some b) =
        λ h which. elim which [
          | inl this ↦ (
            block,
            unfold get_block in
                ap (decode_block c.db.genesis) (
                  ap (λ q. lookup q db2.bodies) this
                  ∙ lookup-insert_same block.header.hash (body block) c.db.bodies),
          )
          | inr (b, there) ↦ get_block-insert header_of db1 block h b (unfold get_block in there)
        ] in
      subst
        (λ (db : ChainDb). IsChain header_of (record c {
          db = record db {
            saved_head = some c.head_hash;
            bodies = insert block.header.hash (body block) db.bodies;
          };
        }))
        (sym same)
        (record {
          store =
              IsStore-insert header_of db1 block
                (IsStore-with header_of c.db c.db.index c.db.scores children c.db.tx_positions
                  (some c.head_hash) store)
                (Fits-with header_of c.db c.db.index c.db.scores children c.db.tx_positions
                  (some c.head_hash) block fits);
          scored = scored;
          index = index;
          indexed = λ n h e. stored h (indexed n h e);
          head_scored = head_scored;
          head_stored = stored c.head_hash at_head;
        })

  -- A chain whose head is the block now.
  pub Heads-IsChain :
      (block : Block) (c c1 : Chain)
      → IsChain header_of c
      → Fits header_of c.db block
      → Heads header_of block c c1
      → (s : ℕ) × (lookup block.header.hash c1.db.scores ≡ some s)
      → IsChain header_of (store_block block c1)
  unfolding Heads
  Heads-IsChain block c c1 i fits (index, scores, p, draws, t, same, scored, on, indexed, kept)
        own =
      let c2 : Chain = record c {
        db = record c.db { index = index; scores = scores; tx_positions = p };
        head_hash = block.header.hash;
        draws = draws;
        state = t;
      } in
      subst (λ q. IsChain header_of (store_block block q)) (sym same)
        (store_block-IsChain block c2
          (IsStore-with header_of c.db index scores c.db.children p c.db.saved_head i.store)
          (Fits-with header_of c.db index scores c.db.children p c.db.saved_head block fits) scored
          on (λ n h e. unfold get_block in indexed n h e)
          (own.0, ap (λ (q : Chain). lookup block.header.hash q.db.scores) (sym same) ∙ own.1)
          (inl refl))

  -- The chain after its scores are added to.
  pub Rescored-IsChain :
      (h : ℕ) (c : Chain) (s : ℕ) (c1 : Chain)
      → IsChain header_of c
      → Scores header_of h c s c1
      → IsChain header_of c1
  Rescored-IsChain h c s c1 i sc =
      let (scores, draws, same) = sc.rescored in
      let c2 : Chain = record c { db = record c.db { scores = scores }; draws = draws } in
      let (u, at) = i.head_scored in
      subst (IsChain header_of) (sym same) (record {
        store =
            IsStore-with header_of c.db c.db.index scores c.db.children c.db.tx_positions
              c.db.saved_head i.store;
        scored =
            subst (IsScored header_of c.db.genesis.header.hash)
              (ap (λ (q : Chain). q.db.scores) same) sc.scored;
        index = i.index;
        indexed = λ n k e. unfold get_block in i.indexed n k e;
        head_scored = (
          u,
          subst (λ q. lookup c.head_hash q ≡ some u) (ap (λ (q : Chain). q.db.scores) same)
              (sc.kept c.head_hash u at),
        );
        head_stored = unfold get_block in i.head_stored;
      })

  pub Rescored-Fits :
      (c c1 : Chain) (block : Block)
      → Rescored c c1
      → Fits header_of c.db block
      → Fits header_of c1.db block
  Rescored-Fits c c1 block (scores, draws, same) fits =
      subst (λ (q : Chain). Fits header_of q.db block) (sym same)
        (Fits-with header_of c.db c.db.index scores c.db.children c.db.tx_positions c.db.saved_head
          block fits)
