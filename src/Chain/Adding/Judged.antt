-- ===== src/Chain/Adding/Judged.antt =====
-- The outcome of applying and scoring a block in `Chain.add_block` of ethereum/pow/chain.py.
use shopper.Prelude.{
  ℕ, ◌≡◌, ◌⊎◌, refl, sym, ap, subst, ◌∙◌, Bool, true, false, if◌then◌else◌, Option, none, some,
  List, inl, inr, arith,
}
use shopper.Exceptions.{Exn, Result, ok, raised}
use shopper.Dict.{Dict, lookup}
use shopper.Block.{Header}
use shopper.State.{State}
use shopper.Consensus.{Block}
use shopper.Consensus.Blocks.{Step}
use shopper.Chain.{Chain, Rules, Call, Stored, has, decode_block, get_block, has_blockhash}
use shopper.Chain.Stores.Inserted.{Fits-on}
use shopper.Chain.Scored.{IsRandrange}
use shopper.Chain.Adding.{is_invalid, rejected, applied, extended, branched, on_branch, store_block}
use shopper.Chain.Poststate.{mk_poststate_of_blockhash}
use shopper.Vm.Gas.{IsReal, IsAnswer}
use shopper.Messages.Settled.{SpecialsAreSettled}
use shopper.Consensus.Endings.{apply_block-IsAnswer}
use shopper.Chain.Adding.Genuine.{IsGenuine, apply_block-successor, apply_block-IsGenuine}
use shopper.Chain.Poststate.Genuine.{mk_poststate-IsGenuine}
use shopper.Chain.Adding.Kept.{IsChain, Heads, extend_index-Heads}
use shopper.Chain.Adding.Storing.{Heads-IsChain, store_block-keeps}
use shopper.Chain.Adding.Chosen.{Selected, choose_head-Accepts}
use shopper.Chain.Poststate.Ends.{mk_poststate-IsAnswer}

module _ (header_of : ℕ → Header) where
  -- The chain in order, and the states that blocks are applied to.
  pub record InOrder (c : Chain) : Type 0 where
    pub chain : IsChain header_of c
    pub genuine : IsGenuine header_of c.state
    pub genesis_genuine : IsGenuine header_of c.db.genesis_state

  -- What an accepted block leads to: it is the head when it stands on the head, and else when its
  -- score is higher than the head's.
  pub record IsAccepted (block : Block) (c c1 : Chain) : Type 0 where
    pub in_order : InOrder c1
    pub queue : c1.parent_queue ≡ c.parent_queue
    pub head_choice :
        ((block.header.prevhash ≡ c.head_hash) × (c1.head_hash ≡ block.header.hash))
        ⊎ Selected header_of block c c1

  -- A block that is not accepted leaves the head.
  pub record IsRefused (c c1 : Chain) : Type 0 where
    pub chain : IsChain header_of c1
    pub same_head : c1.head_hash ≡ c.head_hash

  abbrev pub Verdict : Block → Chain → Bool → Chain → Type 0
  Verdict block c true c1 = IsAccepted block c c1
  Verdict block c false c1 = IsRefused c c1

  -- The outcome of applying and scoring a block, before it is stored.
  abbrev pub Judged : Block → Chain → Call Bool → Type 0
  Judged block c (raised e, c1) = IsReal e
  Judged block c (ok true, c1) = IsAccepted block c (store_block block c1)
  Judged block c (ok false, c1) = IsRefused c c1

  rejected-Judged :
      (block : Block) (c c1 : Chain) (e : Exn)
      → IsReal e
      → IsRefused c c1
      → Judged block c (rejected e c1)
  rejected-Judged block c c1 e real r = either (is_invalid e)
    where
      either : (b : Bool) → Judged block c (if b then (ok false, c1) else (raised e, c1))
      either true = r
      either false = real

  -- State and queues do not matter.
  pub IsChain-with :
      (c : Chain) (s : State) (time_queue : List Block) (parent_queue : Dict (List Block))
      → IsChain header_of c
      → IsChain header_of
          (record c { state = s; time_queue = time_queue; parent_queue = parent_queue })
  IsChain-with c s time_queue parent_queue i = record {
    store = i.store;
    scored = i.scored;
    index = i.index;
    indexed = i.indexed;
    head_scored = i.head_scored;
    head_stored = i.head_stored;
  }

  stored-InOrder :
      (block : Block) (c c1 : Chain)
      → IsChain header_of (store_block block c1)
      → IsGenuine header_of c.db.genesis_state
      → c1.db.genesis_state ≡ c.db.genesis_state
      → IsGenuine header_of c1.state
      → InOrder (store_block block c1)
  stored-InOrder block c c1 chain genesis same genuine =
      let (state, head, scores, genesis_state) = store_block-keeps block c1 in
      record {
        chain = chain;
        genuine = subst (IsGenuine header_of) (sym state) genuine;
        genesis_genuine = subst (IsGenuine header_of) (sym (genesis_state ∙ same)) genesis;
      }

  stored-Selected :
      (block : Block) (c c1 : Chain)
      → Selected header_of block c c1
      → Selected header_of block c (store_block block c1)
  stored-Selected block c c1 (s0, s1, at0, at1, which) =
      let (state, head, scores, genesis_state) = store_block-keeps block c1 in
      (
        s0,
        s1,
        ap (λ q. lookup c.head_hash q) scores ∙ at0,
        ap (λ q. lookup block.header.hash q) scores ∙ at1,
        elim which [
          | inl (new, higher) ↦ inl (head ∙ new, higher)
          | inr (old, lower) ↦ inr (head ∙ old, lower)
        ],
      )

  pub extended-Judged :
      (x : Rules) (block : Block) (c : Chain) (r : Step)
      → IsRandrange x
      → SpecialsAreSettled x.externals
      → InOrder c
      → header_of block.header.hash ≡ block.header
      → block.header.prevhash ≡ c.head_hash
      → has_blockhash c.db block.header.prevhash ≡ true
      → applied x block c.state ≡ r
      → Judged block c (extended x block c r)
  unfolding Heads store_block
  extended-Judged x block c (raised e, s) random settled o hashed on known run =
      rejected-Judged block c (record c { state = s }) e
        (subst (λ (q : Step). IsAnswer q.0) run
          (apply_block-IsAnswer x.hashing x.bloom_of x.externals block c.state settled))
        (record { chain = IsChain-with c s c.time_queue c.parent_queue o.chain; same_head = refl })
  extended-Judged x block c (ok _, s) random settled o hashed on known run =
      let h = x.hashing in
      let successor =
        apply_block-successor header_of h x.bloom_of x.externals block c.state s run o.genuine in
      let after =
        apply_block-IsGenuine header_of h x.bloom_of x.externals block c.state s run hashed in
      let c0 = record c { state = s } in
      let chain = IsChain-with c s c.time_queue c.parent_queue o.chain in
      let fits = Fits-on header_of c.db block o.chain.store hashed known successor in
      let (c1, e, heads, own, state) =
        extend_index-Heads header_of x block c0 random chain fits on in
      let (index, scores, p, draws, u, same, _, _, _, _) = heads in
      let (state2, head, scores2, genesis) = store_block-keeps block c1 in
      subst (Judged block c) (sym e) (record {
        in_order =
            stored-InOrder block c c1 (Heads-IsChain header_of block c0 c1 chain fits heads own)
              o.genesis_genuine (ap (λ (q : Chain). q.db.genesis_state) same)
              (subst (IsGenuine header_of) (sym state) after);
        queue = unfold store_block in ap (λ (q : Chain). q.parent_queue) same;
        head_choice = inl (on, head ∙ ap (λ (q : Chain). q.head_hash) same);
      })

  branched-Judged :
      (x : Rules) (block : Block) (c : Chain) (temp : State) (r : Step)
      → IsRandrange x
      → SpecialsAreSettled x.externals
      → InOrder c
      → header_of block.header.hash ≡ block.header
      → has_blockhash c.db block.header.prevhash ≡ true
      → IsGenuine header_of temp
      → applied x block temp ≡ r
      → Judged block c (branched x block c r)
  branched-Judged x block c temp (raised e, t) random settled o hashed known genuine run =
      rejected-Judged block c c e
        (subst (λ (q : Step). IsAnswer q.0) run
          (apply_block-IsAnswer x.hashing x.bloom_of x.externals block temp settled))
        (record { chain = o.chain; same_head = refl })
  branched-Judged x block c temp (ok _, t) random settled o hashed known genuine run =
      let h = x.hashing in
      let successor =
        apply_block-successor header_of h x.bloom_of x.externals block temp t run genuine in
      let fits = Fits-on header_of c.db block o.chain.store hashed known successor in
      let after =
        apply_block-IsGenuine header_of h x.bloom_of x.externals block temp t run hashed in
      let (c1, e, a) = choose_head-Accepts header_of x block t c random o.chain fits in
      let (state, head, scores, genesis) = store_block-keeps block c1 in
      subst (Judged block c) (sym e) (record {
        in_order =
            stored-InOrder block c c1 a.chain o.genesis_genuine a.genesis_state (elim a.states [
              | inl new ↦ subst (IsGenuine header_of) (sym new) after
              | inr old ↦ subst (IsGenuine header_of) (sym old) o.genuine
            ]);
        queue = unfold store_block in a.queue;
        head_choice = inr (stored-Selected block c c1 a.selected);
      })

  pub head-known :
      (c : Chain) (i : IsChain header_of c) (h : ℕ) → h ≡ c.head_hash → has_blockhash c.db h ≡ true
  unfolding has_blockhash get_block
  head-known c i h on =
      ap (λ q. has (lookup q c.db.bodies)) on
      ∙ there (lookup c.head_hash c.db.bodies) i.head_stored.0 i.head_stored.1
    where
      there : (o : Option Stored) (b : Block) → decode_block c.db.genesis o ≡ some b → has o ≡ true
      there none b e = absurd (ground arith)
      there (some s) b e = refl

  pub on_branch-Judged :
      (x : Rules) (block : Block) (c : Chain) (r : Result State)
      → IsRandrange x
      → SpecialsAreSettled x.externals
      → InOrder c
      → header_of block.header.hash ≡ block.header
      → has_blockhash c.db block.header.prevhash ≡ true
      → mk_poststate_of_blockhash x c.state.config c.db block.header.prevhash ≡ r
      → Judged block c (on_branch x block c r)
  on_branch-Judged x block c (raised e) random settled o hashed known made =
      subst IsAnswer made (mk_poststate-IsAnswer x c.state.config c.db block.header.prevhash)
  on_branch-Judged x block c (ok temp) random settled o hashed known made =
      branched-Judged x block c temp (applied x block temp) random settled o hashed known
        (mk_poststate-IsGenuine header_of x c.state.config c.db block.header.prevhash temp
          o.chain.store o.genesis_genuine made)
        refl
