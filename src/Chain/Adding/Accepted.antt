-- ===== src/Chain/Adding/Accepted.antt =====
-- `Chain.add_block` of ethereum/pow/chain.py, on every branch.
use shopper.Prelude.{
  ℕ, suc, ◌≡◌, refl, sym, ap, subst, ◌∙◌, Bool, true, false, ◌==◌, ==_iff, ltb, if◌then◌else◌, none,
}
use shopper.Exceptions.{ok, raised}
use shopper.Dict.{lookup}
use shopper.Block.{Header}
use shopper.Consensus.{Block}
use shopper.Chain.{Chain, Rules, Call, has_blockhash}
use shopper.Chain.Scored.{IsRandrange}
use shopper.Chain.Adding.{
  applied, extend_head, add_branch, store_block, delay, wait_for_parent, finish_block, unblocked,
  add_waiting, receive, add_block,
}
use shopper.Vm.Gas.{IsReal}
use shopper.Messages.Settled.{SpecialsAreSettled}
use shopper.Chain.Adding.Judged.{
  InOrder, Verdict, Judged, extended-Judged, on_branch-Judged, IsChain-with, head-known,
}

add_waiting-none :
    (add : Block → Chain → Call Bool) (h : ℕ) (c : Chain)
    → lookup h c.parent_queue ≡ none
    → add_waiting add h c ≡ (ok true, c)
unfolding add_waiting
add_waiting-none add h c e = ap (unblocked add h c) e

module _ (header_of : ℕ → Header) where
  -- What `add_block` may come to: an exception of the source, or a verdict.
  abbrev pub Outcome : Block → Chain → Call Bool → Type 0
  Outcome block c (raised e, c1) = IsReal e
  Outcome block c (ok added, c1) = Verdict header_of block c added c1

  Outcome-if :
      (block : Block) (c : Chain) (b : Bool) (p q : Call Bool)
      → (b ≡ true → Outcome block c p)
      → (b ≡ false → Outcome block c q)
      → Outcome block c (if b then p else q)
  Outcome-if block c true p q left right = left refl
  Outcome-if block c false p q left right = right refl

  -- What is judged is stored, and no block waits for it.
  finish_block-Outcome :
      (add : Block → Chain → Call Bool) (block : Block) (c : Chain) (r : Call Bool)
      → lookup block.header.hash c.parent_queue ≡ none
      → Judged header_of block c r
      → Outcome block c (finish_block add block r)
  unfolding finish_block
  finish_block-Outcome add block c (raised e, c2) quiet judged = judged
  finish_block-Outcome add block c (ok false, c2) quiet judged = judged
  finish_block-Outcome add block c (ok true, c2) quiet judged =
      let none_waits = ap (λ q. lookup block.header.hash q) judged.queue ∙ quiet in
      subst (Outcome block c)
        (sym (add_waiting-none add block.header.hash (store_block block c2) none_waits)) judged

  receive-Outcome :
      (x : Rules) (add : Block → Chain → Call Bool) (block : Block) (c : Chain)
      → IsRandrange x
      → SpecialsAreSettled x.externals
      → InOrder header_of c
      → header_of block.header.hash ≡ block.header
      → lookup block.header.hash c.parent_queue ≡ none
      → Outcome block c (receive x add block c)
  unfolding receive extend_head add_branch delay wait_for_parent
  receive-Outcome x add block c random settled o hashed quiet =
      Outcome-if block c (ltb c.localtime block.header.timestamp) _ _
        (λ early. record {
          chain = IsChain-with header_of c c.state _ c.parent_queue o.chain;
          same_head = refl;
        })
        λ due.
          Outcome-if block c (block.header.prevhash == c.head_hash) _ _
            (λ on.
              let here = (==_iff block.header.prevhash c.head_hash).0 on in
              finish_block-Outcome add block c _ quiet (
                extended-Judged header_of x block c (applied x block c.state) random settled o
                  hashed here (head-known header_of c o.chain block.header.prevhash here) refl))
            λ off.
              Outcome-if block c (has_blockhash c.db block.header.prevhash) _ _
                (λ known.
                  finish_block-Outcome add block c _ quiet
                    (on_branch-Judged header_of x block c _ random settled o hashed known refl))
                λ unknown. record {
                  chain = IsChain-with header_of c c.state c.time_queue _ o.chain;
                  same_head = refl;
                }

  -- Where no two blocks have the same hash, the precompiled contracts reply within their gas, and no
  -- block waits for this one, adding a block to a chain in order ends, with an exception of the
  -- source or a verdict. A block that is accepted leaves a chain in order: its index has exactly
  -- the head and its ancestors above the genesis block, by number, all of them stored, and every
  -- score follows its parent's. The block is the head if it stands on the head, or else if its
  -- score is higher than the head's; if not, the head stays. A block that is refused leaves the
  -- head, and index, store and scores in order.
  pub add_block-Outcome :
      (x : Rules) (depth : ℕ) (block : Block) (c : Chain)
      → IsRandrange x
      → SpecialsAreSettled x.externals
      → InOrder header_of c
      → header_of block.header.hash ≡ block.header
      → lookup block.header.hash c.parent_queue ≡ none
      → Outcome block c (add_block (suc depth) x block c)
  unfolding add_block
  add_block-Outcome x depth block c random settled o hashed quiet =
      receive-Outcome x (add_block depth x) block c random settled o hashed quiet
