-- ===== src/Chain/TimeQueue/Frame.antt =====
-- What scoring and choosing the head leave of a chain of ethereum/pow/chain.py.
use shopper.Prelude.{
  ℕ, ◌≡◌, refl, ◌∙◌, Bool, true, false, ltb, if◌then◌else◌, Option, none, some, List, [], ◌∷◌,
}
use shopper.Exceptions.{Exn, Result, ok, raised, assertion_error}
use shopper.Dict.{Dict}
use shopper.State.{State}
use shopper.Consensus.{Block}
use shopper.Consensus.Blocks.{Step}
use shopper.Chain.{ChainDb, Chain, Rules, Call, and_with, head, get_blockhash_by_number}
use shopper.Chain.Scores.{get_score, score_of, filled, fill_scores, put_score, next_score}
use shopper.Chain.Reorg.{rewrite_index, put_index, put_txs, is_at}
use shopper.Chain.Adding.{
  is_invalid, rejected, applied, put_head, extended, extend_index, replaced, reorganized,
  reorganize, choose_head, branched, on_branch,
}

-- The fields that scoring and choosing the head leave.
pub record Frame (c c1 : Chain) : Type 0 where
  pub time : c1.localtime ≡ c.localtime
  pub queue : c1.time_queue ≡ c.time_queue
  pub waiting : c1.parent_queue ≡ c.parent_queue

Frame-refl : (c : Chain) → Frame c c
Frame-refl c = record { time = refl; queue = refl; waiting = refl }

Frame-trans : {a b c : Chain} → Frame a b → Frame b c → Frame a c
Frame-trans p q = record {
  time = q.time ∙ p.time;
  queue = q.queue ∙ p.queue;
  waiting = q.waiting ∙ p.waiting;
}

Frame-and_with :
    {A : Type 0} {B : Type 0} (c : Chain) (r : Call A) (k : A → Chain → Call B)
    → Frame c r.1
    → ((a : A) (c1 : Chain) → Frame c c1 → Frame c (k a c1).1)
    → Frame c (and_with r k).1
Frame-and_with c (raised e, c1) k f next = f
Frame-and_with c (ok a, c1) k f next = next a c1 f

Frame-if :
    {A : Type 0} (c : Chain) (b : Bool) (p q : Call A)
    → Frame c p.1
    → Frame c q.1
    → Frame c (if b then p else q).1
Frame-if c true p q f g = f
Frame-if c false p q f g = g

Frame-fill_scores :
    (x : Rules) (score : ℕ) (fills : List (ℕ × ℕ)) (c : Chain)
    → Frame c (fill_scores x score fills c).1
unfolding fill_scores put_score
Frame-fill_scores x score [] c = Frame-refl c
Frame-fill_scores x score ((h, d) ∷ fills) c =
    let f =
      Frame-fill_scores x (next_score x score d c) fills (put_score h (next_score x score d c) c) in
    record { time = f.time; queue = f.queue; waiting = f.waiting }

Frame-filled : (x : Rules) (c : Chain) (r : Result (ℕ × List (ℕ × ℕ))) → Frame c (filled x c r).1
Frame-filled x c (raised e) = Frame-refl c
Frame-filled x c (ok (score, fills)) = Frame-fill_scores x score fills c

Frame-get_score : (x : Rules) (b : Option Block) (c : Chain) → Frame c (get_score x b c).1
unfolding get_score score_of
Frame-get_score x none c = Frame-refl c
Frame-get_score x (some b) c = Frame-filled x c _

Frame-put_head : (block : Block) (c : Chain) (db : ChainDb) → Frame c (put_head block c db).1
Frame-put_head block c db =
    let c1 = record c { head_hash = block.header.hash; db = db } in
    Frame-if c (is_at (get_blockhash_by_number db block.header.number) block.header.hash)
      (ok true, c1) (raised assertion_error, c1)
      (record { time = refl; queue = refl; waiting = refl })
      (record { time = refl; queue = refl; waiting = refl })

Frame-extend_index : (x : Rules) (block : Block) (c : Chain) → Frame c (extend_index x block c).1
unfolding extend_index
Frame-extend_index x block c =
    let indexed = record c { db = put_index block.header.number block.header.hash c.db } in
    let f = Frame-get_score x (some block) indexed in
    Frame-and_with c (get_score x (some block) indexed) _
      (record { time = f.time; queue = f.queue; waiting = f.waiting })
      λ score c1 g.
        Frame-trans g
          (Frame-put_head block c1 (put_txs x block.header.number 0 block.transactions c1.db))

Frame-rejected : (e : Exn) (c : Chain) → Frame c (rejected e c).1
Frame-rejected e c =
    Frame-if c (is_invalid e) (ok false, c) (raised e, c) (Frame-refl c) (Frame-refl c)

pub Frame-extended :
    (x : Rules) (block : Block) (c : Chain) (r : Step) → Frame c (extended x block c r).1
Frame-extended x block c (raised e, s) =
    let f = Frame-rejected e (record c { state = s }) in
    record { time = f.time; queue = f.queue; waiting = f.waiting }
Frame-extended x block c (ok _, s) =
    let f = Frame-extend_index x block (record c { state = s }) in
    record { time = f.time; queue = f.queue; waiting = f.waiting }

Frame-replaced :
    (block : Block) (t : State) (c : Chain) (r : Result (Unit {0}) × ChainDb)
    → Frame c (replaced block t c r).1
Frame-replaced block t c (raised e, db) = record { time = refl; queue = refl; waiting = refl }
Frame-replaced block t c (ok _, db) = record { time = refl; queue = refl; waiting = refl }

Frame-reorganized :
    (x : Rules) (block : Block) (t : State) (c : Chain) (r : Result (Dict Block × Block))
    → Frame c (reorganized x block t c r).1
Frame-reorganized x block t c (raised e) = Frame-refl c
Frame-reorganized x block t c (ok (new_chain, b)) =
    Frame-replaced block t c (rewrite_index x new_chain b.header.number c.db)

Frame-choose_head :
    (x : Rules) (block : Block) (t : State) (c : Chain) → Frame c (choose_head x block t c).1
unfolding choose_head reorganize
Frame-choose_head x block t c =
    Frame-and_with c (get_score x (some block) c) _ (Frame-get_score x (some block) c) λ score c1 f.
      Frame-and_with c (get_score x (head c1) c1) _ (Frame-trans f (Frame-get_score x (head c1) c1))
        λ head_score c2 g.
          Frame-if c (ltb head_score score) (reorganize x block t c2) (ok true, c2)
            (Frame-trans g (Frame-reorganized x block t c2 _)) g

Frame-branched :
    (x : Rules) (block : Block) (c : Chain) (r : Step) → Frame c (branched x block c r).1
Frame-branched x block c (raised e, t) = Frame-rejected e c
Frame-branched x block c (ok _, t) = Frame-choose_head x block t c

pub Frame-on_branch :
    (x : Rules) (block : Block) (c : Chain) (r : Result State) → Frame c (on_branch x block c r).1
Frame-on_branch x block c (raised e) = Frame-refl c
Frame-on_branch x block c (ok temp) = Frame-branched x block c (applied x block temp)
