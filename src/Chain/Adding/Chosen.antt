-- ===== src/Chain/Adding/Chosen.antt =====
-- Which block `Chain.add_block` of ethereum/pow/chain.py makes the head, and that the chain is in
-- order after it.
use shopper.Prelude.{
  ℕ, ◌≤◌, ◌<◌, ◌≡◌, ◌⊎◌, refl, sym, ap, ◌∙◌, true, ltb, if◌then◌else◌, some, inl, inr, arith,
  Bool-cases,
}
use shopper.Exceptions.{ok}
use shopper.Dict.{lookup}
use shopper.Block.{Header}
use shopper.State.{State}
use shopper.Consensus.{Block}
use shopper.Chain.{Chain, Rules, Call, and_with, head}
use shopper.Chain.Stores.{Fits, get_block-cases}
use shopper.Chain.Scores.{get_score, score_of}
use shopper.Chain.Scored.{IsRandrange}
use shopper.Chain.Scored.Found.{score_of-Scores, score_of-found}
use shopper.Chain.Adding.{reorganize, choose_head, store_block}
use shopper.Chain.Adding.Kept.{IsChain, Heads}
use shopper.Chain.Adding.Reorganized.{reorganize-Heads}
use shopper.Chain.Adding.Storing.{
  store_block-IsChain, Heads-IsChain, Rescored-IsChain, Rescored-Fits,
}

module _ (header_of : ℕ → Header) where
  -- The score of the head decides.
  abbrev pub Selected : Block → Chain → Chain → Type 0
  Selected block c c1 =
      (s0 : ℕ) × (s1 : ℕ) × (lookup c.head_hash c1.db.scores ≡ some s0)
      × (lookup block.header.hash c1.db.scores ≡ some s1)
      × (((c1.head_hash ≡ block.header.hash) × (s0 < s1))
          ⊎ ((c1.head_hash ≡ c.head_hash) × (s1 ≤ s0)))

  -- A block on a branch is accepted.
  pub record Accepts (block : Block) (t : State) (c c1 : Chain) : Type 0 where
    pub chain : IsChain header_of (store_block block c1)
    pub selected : Selected block c c1
    pub states : (c1.state ≡ t) ⊎ (c1.state ≡ c.state)
    pub queue : c1.parent_queue ≡ c.parent_queue
    pub genesis_state : c1.db.genesis_state ≡ c.db.genesis_state

  score_of-head :
      (x : Rules) (c : Chain) (i : IsChain header_of c)
      → get_score x (head c) c ≡ (ok i.head_scored.0, c)
  unfolding get_score head
  score_of-head x c i =
      let (b, there) = i.head_stored in
      let (hash, header, kind) = get_block-cases header_of c.db c.head_hash b i.store there in
      let (s, at) = i.head_scored in
      ap (λ o. get_score x o c) there
      ∙ score_of-found header_of x b c s (ap (λ q. lookup q c.db.scores) hash ∙ at)

  choose_head-turn :
      (x : Rules) (block : Block) (t : State) (c c1 : Chain) (s : ℕ)
      → score_of x block c ≡ (ok s, c1)
      → (i : IsChain header_of c1)
      → choose_head x block t c
        ≡ (if ltb i.head_scored.0 s then reorganize x block t c1 else (ok true, c1))
  unfolding choose_head get_score
  choose_head-turn x block t c c1 s e i =
      ap
        (λ (r : Call ℕ). and_with r (λ score c2.
          and_with (get_score x (head c2) c2) λ head_score c3.
            if ltb head_score score then reorganize x block t c3 else (ok true, c3)))
        e
      ∙ ap
          (λ (r : Call ℕ).
            and_with r (λ head_score c3.
              if ltb head_score s then reorganize x block t c3 else (ok true, c3)))
          (score_of-head x c1 i)

  pub choose_head-Accepts :
      (x : Rules) (block : Block) (t : State) (c : Chain)
      → IsRandrange x
      → IsChain header_of c
      → Fits header_of c.db block
      → (c1 : Chain) × (choose_head x block t c ≡ (ok true, c1)) × Accepts block t c c1
  unfolding Heads
  choose_head-Accepts x block t c random i fits =
      let (s1, c1, e1, sc) =
        score_of-Scores header_of x block c random i.store i.scored (inr fits) in
      let i1 = Rescored-IsChain header_of block.header.hash c s1 c1 i sc in
      let fits1 = Rescored-Fits header_of c c1 block sc.rescored fits in
      let (scores, draws, same) = sc.rescored in
      let (s0, at0) = i1.head_scored in
      let head_same = ap (λ (q : Chain). q.head_hash) same in
      let genesis_same = ap (λ (q : Chain). q.db.genesis_state) same in
      let at_old = ap (λ q. lookup q c1.db.scores) (sym head_same) ∙ at0 in
      let turn = choose_head-turn x block t c c1 s1 e1 i1 in
      elim (Bool-cases (ltb s0 s1)) [
        | inl higher ↦
            (let (c2, e2, heads, state) = reorganize-Heads header_of x block t c1 i1 fits1 in
              let (index, scores2, p, draws2, u, at, scored, on, indexed, kept) = heads in
              let keeps : (j v : ℕ)
                  → lookup j c1.db.scores ≡ some v
                  → lookup j c2.db.scores ≡ some v =
                λ j v e. ap (λ (q : Chain). lookup j q.db.scores) at ∙ kept j v e in
              (
                c2,
                turn ∙ rw higher e2,
                record {
                  chain =
                      Heads-IsChain header_of block c1 c2 i1 fits1 heads
                        (s1, keeps block.header.hash s1 sc.found);
                  selected = (
                    s0,
                    s1,
                    keeps c.head_hash s0 at_old,
                    keeps block.header.hash s1 sc.found,
                    inl (ap (λ (q : Chain). q.head_hash) at, ground arith),
                  );
                  states = inl state;
                  queue =
                      ap (λ (q : Chain). q.parent_queue) at
                      ∙ ap (λ (q : Chain). q.parent_queue) same;
                  genesis_state = ap (λ (q : Chain). q.db.genesis_state) at ∙ genesis_same;
                },
              ))
        | inr lower ↦ (
          c1,
          turn ∙ rw lower refl,
          record {
            chain =
                store_block-IsChain header_of block c1 i1.store fits1 i1.scored i1.index
                  (λ n h e. inr (i1.indexed n h e)) i1.head_scored (inr i1.head_stored);
            selected = (s0, s1, at_old, sc.found, inr (head_same, ground arith));
            states = inr (ap (λ (q : Chain). q.state) same);
            queue = ap (λ (q : Chain). q.parent_queue) same;
            genesis_state = genesis_same;
          },
        )
      ]
