-- ===== src/Chain/TimeQueue/Quiet.antt =====
-- Adding a block that is due leaves the time queue of ethereum/pow/chain.py as it is.
use shopper.Prelude.{
  ℕ, zero, suc, ◌≤◌, ◌≡◌, refl, sym, ap, subst, ◌∙◌, Bool, true, false, ltb, ◌==◌, if◌then◌else◌,
  Option, none, some, List, [], ◌∷◌, ◌++◌, All, inl, inr, arith, Bool-cases, ==_iff,
}
use shopper.Exceptions.{ok, raised}
use shopper.Dict.{
  lookup, insert, erase, lookup-insert_same, lookup-insert_other, lookup-erase_same,
  lookup-erase_other,
}
use shopper.Consensus.{Block}
use shopper.Chain.{Chain, Rules, Call, and_with, has_blockhash}
use shopper.Chain.Adding.{
  or_empty, applied, extend_head, add_branch, store_block, wait_for_parent, finish_block, add_each,
  forgotten, forget_waiting, unblocked, add_waiting, receive, add_block,
}
use shopper.Chain.TimeQueue.Frame.{Frame, Frame-extended, Frame-on_branch}

abbrev IsDue : ℕ → List Block → Type 0
IsDue now l = All (λ (b : Block). b.header.timestamp ≤ now) l

-- The time, the time queue, and that whatever waits for a parent is due.
pub record Waits (now : ℕ) (queue : List Block) (c : Chain) : Type 0 where
  pub time : c.localtime ≡ now
  pub same : c.time_queue ≡ queue
  pub all_due : (h : ℕ) (l : List Block) → lookup h c.parent_queue ≡ some l → IsDue now l

Waits-Frame :
    {now : ℕ} {queue : List Block} {c c1 : Chain}
    → Waits now queue c
    → Frame c c1
    → Waits now queue c1
Waits-Frame w f = record {
  time = f.time ∙ w.time;
  same = f.queue ∙ w.same;
  all_due = λ h l e. w.all_due h l (ap (λ q. lookup h q) (sym f.waiting) ∙ e);
}

IsDue-append :
    (now : ℕ) (l : List Block) (b : Block)
    → IsDue now l
    → b.header.timestamp ≤ now
    → IsDue now (l ++ b ∷ [])
IsDue-append now [] b all last = (last, tt)
IsDue-append now (a ∷ l) b (first, all) last = (first, IsDue-append now l b all last)

module _ (now : ℕ) (queue : List Block) where
  -- A function that adds due blocks.
  abbrev KeepsWaits : (Block → Chain → Call Bool) → Type 0
  KeepsWaits add =
      (b : Block) (c : Chain)
      → b.header.timestamp ≤ now
      → Waits now queue c
      → Waits now queue (add b c).1

  Waits-wait_for_parent :
      (block : Block) (c : Chain)
      → block.header.timestamp ≤ now
      → Waits now queue c
      → Waits now queue (wait_for_parent block c)
  unfolding wait_for_parent
  Waits-wait_for_parent block c due w = record {
    time = w.time;
    same = w.same;
    all_due = λ h l e. elim (Bool-cases (h == block.header.prevhash)) [
      | inl same ↦
          subst (IsDue now) (value h l ((==_iff h block.header.prevhash).0 same) e) (
            IsDue-append now _ block (before (lookup block.header.prevhash c.parent_queue) refl)
              due)
      | inr other ↦ w.all_due h l (
          sym (
            lookup-insert_other h block.header.prevhash _ c.parent_queue
              (λ same. absurd (ground arith)))
          ∙ e)
    ];
  }
    where
      before :
          (o : Option (List Block))
          → lookup block.header.prevhash c.parent_queue ≡ o
          → IsDue now (or_empty o)
      before none e = tt
      before (some l) e = w.all_due block.header.prevhash l e

      value :
          (h : ℕ) (l : List Block)
          → h ≡ block.header.prevhash
          → lookup h (wait_for_parent block c).parent_queue ≡ some l
          → or_empty (lookup block.header.prevhash c.parent_queue) ++ block ∷ [] ≡ l
      value h l same e =
          let new = or_empty (lookup block.header.prevhash c.parent_queue) ++ block ∷ [] in
          let both =
            sym (lookup-insert_same block.header.prevhash new c.parent_queue)
            ∙ ap (λ q. lookup q (insert block.header.prevhash new c.parent_queue)) (sym same)
            ∙ e in
          ground arith

  Waits-add_each :
      (add : Block → Chain → Call Bool) (l : List Block) (c : Chain)
      → KeepsWaits add
      → IsDue now l
      → Waits now queue c
      → Waits now queue (add_each add l c).1
  unfolding add_each
  Waits-add_each add [] c keeps all w = w
  Waits-add_each add (b ∷ l) c keeps (first, all) w =
      next (add b c) (keeps b c first w) λ c1 w1. Waits-add_each add l c1 keeps all w1
    where
      next :
          (r : Call Bool)
          → Waits now queue r.1
          → ((c1 : Chain) → Waits now queue c1 → Waits now queue (add_each add l c1).1)
          → Waits now queue (and_with r λ added c1. add_each add l c1).1
      next (raised e, c1) w1 ih = w1
      next (ok added, c1) w1 ih = ih c1 w1

  Waits-forget_waiting :
      (h : ℕ) (c : Chain) → Waits now queue c → Waits now queue (forget_waiting h c).1
  unfolding forget_waiting
  Waits-forget_waiting h c w = go (lookup h c.parent_queue)
    where
      kept : (j : ℕ) (l : List Block) → lookup j (erase h c.parent_queue) ≡ some l → IsDue now l
      kept j l e = elim (Bool-cases (j == h)) [
        | inl same ↦ absurd (
            let gone =
              sym (lookup-erase_same h c.parent_queue)
              ∙ ap (λ q. lookup q (erase h c.parent_queue)) (sym ((==_iff j h).0 same))
              ∙ e in
            ground arith)
        | inr other ↦
            w.all_due j l
              (sym (lookup-erase_other j h c.parent_queue (λ same. absurd (ground arith))) ∙ e)
      ]

      go : (o : Option (List Block)) → Waits now queue (forgotten h c o).1
      go none = w
      go (some l) = record { time = w.time; same = w.same; all_due = kept }

  Waits-add_waiting :
      (add : Block → Chain → Call Bool) (h : ℕ) (c : Chain)
      → KeepsWaits add
      → Waits now queue c
      → Waits now queue (add_waiting add h c).1
  unfolding add_waiting
  Waits-add_waiting add h c keeps w = go (lookup h c.parent_queue) refl
    where
      next :
          (r : Call (Unit {0}))
          → Waits now queue r.1
          → Waits now queue (and_with r λ all c1. forget_waiting h c1).1
      next (raised e, c1) w1 = w1
      next (ok all, c1) w1 = Waits-forget_waiting h c1 w1

      go :
          (o : Option (List Block))
          → lookup h c.parent_queue ≡ o
          → Waits now queue (unblocked add h c o).1
      go none at = w
      go (some l) at = next (add_each add l c) (Waits-add_each add l c keeps (w.all_due h l at) w)

  Waits-finish_block :
      (add : Block → Chain → Call Bool) (block : Block) (r : Call Bool)
      → KeepsWaits add
      → Waits now queue r.1
      → Waits now queue (finish_block add block r).1
  unfolding finish_block store_block
  Waits-finish_block add block (raised e, c) keeps w = w
  Waits-finish_block add block (ok false, c) keeps w = w
  Waits-finish_block add block (ok true, c) keeps w =
      Waits-add_waiting add block.header.hash (store_block block c) keeps
        (Waits-Frame w (record { time = refl; queue = refl; waiting = refl }))

  Waits-if :
      (b : Bool) (p q : Call Bool)
      → (b ≡ true → Waits now queue p.1)
      → (b ≡ false → Waits now queue q.1)
      → Waits now queue (if b then p else q).1
  Waits-if true p q left right = left refl
  Waits-if false p q left right = right refl

  receive-Waits :
      (x : Rules) (add : Block → Chain → Call Bool) (block : Block) (c : Chain)
      → KeepsWaits add
      → block.header.timestamp ≤ now
      → Waits now queue c
      → Waits now queue (receive x add block c).1
  unfolding receive extend_head add_branch
  receive-Waits x add block c keeps due w =
      Waits-if (ltb c.localtime block.header.timestamp) _ _
        (λ early. absurd (let time = w.time in ground arith))
        λ on_time.
          Waits-if (block.header.prevhash == c.head_hash) _ _
            (λ on.
              Waits-finish_block add block _ keeps
                (Waits-Frame w (Frame-extended x block c (applied x block c.state))))
            λ off.
              Waits-if (has_blockhash c.db block.header.prevhash) _ _
                (λ known.
                  Waits-finish_block add block _ keeps
                    (Waits-Frame w (Frame-on_branch x block c _)))
                λ unknown. Waits-wait_for_parent block c due w

  -- Whatever adding a due block does, with the blocks that wait for it, the time queue stays.
  pub add_block-Waits : (x : Rules) (depth : ℕ) → KeepsWaits (add_block depth x)
  unfolding add_block
  add_block-Waits x zero block c due w = w
  add_block-Waits x (suc depth) block c due w =
      receive-Waits x (add_block depth x) block c (add_block-Waits x depth) due w

IsDue-later : (t now : ℕ) (l : List Block) → t ≤ now → IsDue t l → IsDue now l
IsDue-later t now [] later all = tt
IsDue-later t now (b ∷ l) later (first, rest) = (omega arith, IsDue-later t now l later rest)

-- What was due is due later.
pub Waits-later :
    (c : Chain) (now : ℕ)
    → Waits c.localtime c.time_queue c
    → c.localtime ≤ now
    → Waits now c.time_queue (record c { localtime = now })
Waits-later c now w later = record {
  time = refl;
  same = refl;
  all_due = λ h l e. IsDue-later c.localtime now l later (w.all_due h l e);
}
