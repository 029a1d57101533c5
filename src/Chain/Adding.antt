-- ===== src/Chain/Adding.antt =====
-- `add_block` and `process_time_queue` of ethereum/pow/chain.py.
pub mod Genuine
pub mod Kept
pub mod Reorganized
pub mod Storing
pub mod Chosen
pub mod Judged
pub mod Accepted
use shopper.Prelude.{
  ℕ, zero, suc, ◌+◌, Bool, true, false, ◌==◌, ltb, leb, if◌then◌else◌, Option, none, some, List, [],
  ◌∷◌, ◌++◌, length, get_elem?,
}
use shopper.Exceptions.{
  Exn, Result, ok, raised, unknown_parent, overflow_error, index_error, invalid_encoding,
  attribute_error, plain_exception, out_of_fuel, assertion_error, key_error,
}
use shopper.Dict.{Dict, lookup, insert, erase}
use shopper.State.{State}
use shopper.Consensus.{Block}
use shopper.Consensus.Blocks.{Step, apply_block}
use shopper.Chain.{
  ChainDb, Chain, Rules, Stored, Call, and_with, has, has_blockhash, head, add_child,
  get_blockhash_by_number,
}
use shopper.Chain.Stored.{genesis_mark, body}
use shopper.Chain.Scores.{get_score}
use shopper.Chain.Poststate.{mk_poststate_of_blockhash}
use shopper.Chain.Reorg.{is_at, put_index, put_txs, find_ancestor, rewrite_index}

-- The place in the time queue: before the first block that is not earlier.
unfoldable pub insert_by_time : Block → List Block → List Block
insert_by_time block [] = block ∷ []
insert_by_time block (b ∷ l) =
    if ltb b.header.timestamp block.header.timestamp
    then b ∷ insert_by_time block l
    else block ∷ b ∷ l

unfoldable pub delay : Block → Chain → Chain
delay block c = record c { time_queue = insert_by_time block c.time_queue }

abbrev pub or_empty : Option (List Block) → List Block
or_empty none = []
or_empty (some l) = l

-- A block whose parent is not there yet.
unfoldable pub wait_for_parent : Block → Chain → Chain
wait_for_parent block c =
    let h = block.header.prevhash in
    let waiting = or_empty (lookup h c.parent_queue) in
    record c { parent_queue = insert h (waiting ++ block ∷ []) c.parent_queue }

-- What makes a block invalid, `InvalidTransaction` with its subclasses; the rest goes on to the
-- caller.
unfoldable pub is_invalid : Exn → Bool
is_invalid unknown_parent = false
is_invalid overflow_error = false
is_invalid index_error = false
is_invalid invalid_encoding = false
is_invalid attribute_error = false
is_invalid plain_exception = false
is_invalid out_of_fuel = false
is_invalid _ = true

abbrev pub rejected : Exn → Chain → Call Bool
rejected e c = if is_invalid e then (ok false, c) else (raised e, c)

abbrev pub applied : Rules → Block → State → Step
applied x block s = apply_block x.hashing x.bloom_of x.externals block s

-- The block is the head, and the index must have it.
abbrev pub put_head : Block → Chain → ChainDb → Call Bool
put_head block c db =
    let c1 = record c { head_hash = block.header.hash; db = db } in
    if is_at (get_blockhash_by_number db block.header.number) block.header.hash
    then (ok true, c1)
    else (raised assertion_error, c1)

-- The new head on top of the head, once it is applied.
unfoldable pub extend_index : Rules → Block → Chain → Call Bool
extend_index x block c =
    let number = block.header.number in
    let indexed = record c { db = put_index number block.header.hash c.db } in
    and_with (get_score x (some block) indexed)
      λ score c1. put_head block c1 (put_txs x number 0 block.transactions c1.db)

abbrev pub extended : Rules → Block → Chain → Step → Call Bool
extended x block c (raised e, s) = rejected e (record c { state = s })
extended x block c (ok _, s) = extend_index x block (record c { state = s })

unfoldable pub extend_head : Rules → Block → Chain → Call Bool
extend_head x block c = extended x block c (applied x block c.state)

-- The index is rewritten, and the state after the block is the chain's.
abbrev pub replaced : Block → State → Chain → Result (Unit {0}) × ChainDb → Call Bool
replaced block t c (raised e, db) = (raised e, record c { db = db })
replaced block t c (ok _, db) =
    (ok true, record c { db = db; head_hash = block.header.hash; state = t })

abbrev pub reorganized : Rules → Block → State → Chain → Result (Dict Block × Block) → Call Bool
reorganized x block t c (raised e) = (raised e, c)
reorganized x block t c (ok (new_chain, b)) =
    replaced block t c (rewrite_index x new_chain b.header.number c.db)

unfoldable pub reorganize : Rules → Block → State → Chain → Call Bool
reorganize x block t c =
    reorganized x block t c (find_ancestor (block.header.number + 2) c.db (some block) [])

-- The block becomes the head where its score is higher than the head's.
unfoldable pub choose_head : Rules → Block → State → Chain → Call Bool
choose_head x block t c = and_with (get_score x (some block) c) λ score c1.
    and_with (get_score x (head c1) c1)
      λ head_score c2. if ltb head_score score then reorganize x block t c2 else (ok true, c2)

abbrev pub branched : Rules → Block → Chain → Step → Call Bool
branched x block c (raised e, t) = rejected e c
branched x block c (ok _, t) = choose_head x block t c

abbrev pub on_branch : Rules → Block → Chain → Result State → Call Bool
on_branch x block c (raised e) = (raised e, c)
on_branch x block c (ok temp_state) = branched x block c (applied x block temp_state)

unfoldable pub add_branch : Rules → Block → Chain → Call Bool
add_branch x block c =
    on_branch x block c (mk_poststate_of_blockhash x c.state.config c.db block.header.prevhash)

-- The block is stored under its hash, as a child of its parent.
unfoldable pub store_block : Block → Chain → Chain
store_block block c =
    let db = add_child block c.db in
    record c {
      db = record db {
        saved_head = some c.head_hash;
        bodies = insert block.header.hash (body block) db.bodies;
      };
    }

-- `for _blk in self.parent_queue[hash]: self.add_block(_blk)`
unfoldable pub add_each : (Block → Chain → Call Bool) → List Block → Chain → Call (Unit {0})
add_each add [] c = (ok tt, c)
add_each add (b ∷ l) c = and_with (add b c) λ added c1. add_each add l c1

abbrev pub forgotten : ℕ → Chain → Option (List Block) → Call Bool
forgotten h c none = (raised key_error, c)
forgotten h c (some l) = (ok true, record c { parent_queue = erase h c.parent_queue })

-- `del self.parent_queue[hash]`
unfoldable pub forget_waiting : ℕ → Chain → Call Bool
forget_waiting h c = forgotten h c (lookup h c.parent_queue)

abbrev pub unblocked : (Block → Chain → Call Bool) → ℕ → Chain → Option (List Block) → Call Bool
unblocked add h c none = (ok true, c)
unblocked add h c (some l) = and_with (add_each add l c) λ all c1. forget_waiting h c1

-- The blocks that waited for this one.
unfoldable pub add_waiting : (Block → Chain → Call Bool) → ℕ → Chain → Call Bool
add_waiting add h c = unblocked add h c (lookup h c.parent_queue)

-- A block that was applied and scored, if it was valid.
unfoldable pub finish_block : (Block → Chain → Call Bool) → Block → Call Bool → Call Bool
finish_block add block r = and_with r λ valid c.
    if valid then add_waiting add block.header.hash (store_block block c) else (ok false, c)

-- The body of `add_block`, with `add` for its calls of itself.
unfoldable pub receive : Rules → (Block → Chain → Call Bool) → Block → Chain → Call Bool
receive x add block c =
    if ltb c.localtime block.header.timestamp
    then (ok false, delay block c)
    else if block.header.prevhash == c.head_hash
    then finish_block add block (extend_head x block c)
    else if has_blockhash c.db block.header.prevhash
    then finish_block add block (add_branch x block c)
    else (ok false, wait_for_parent block c)

-- `add_block`. A block that waited is added one level deeper; `depth` bounds the levels.
unfoldable pub add_block : ℕ → Rules → Block → Chain → Call Bool
add_block zero x block c = (raised out_of_fuel, c)
add_block (suc depth) x block c = receive x (add_block depth x) block c

-- `time_queue.pop(i)`
unfoldable pub remove_at : ℕ → List Block → List Block
remove_at i [] = []
remove_at zero (b ∷ l) = l
remove_at (suc i) (b ∷ l) = b ∷ remove_at i l

-- A round of the loop, at the i-th block of the queue.
abbrev pub process_turn :
    (ℕ → Chain → Call (Unit {0})) → ℕ → Rules → ℕ → Chain → Option Block → Call (Unit {0})
process_turn go depth x i c none = (ok tt, c)
process_turn go depth x i c (some block) =
    if leb block.header.timestamp c.localtime
    then (and_with (add_block depth x block (record c { time_queue = remove_at i c.time_queue }))
        λ added c1. go (if length c1.time_queue == length c.time_queue then i + 1 else i) c1)
    else (ok tt, c)

-- The loop of `process_time_queue`, its rounds bounded by `fuel`.
unfoldable pub process_from : ℕ → ℕ → Rules → ℕ → Chain → Call (Unit {0})
process_from zero depth x i c = (raised out_of_fuel, c)
process_from (suc fuel) depth x i c =
    process_turn (process_from fuel depth x) depth x i c (get_elem? c.time_queue i)

-- `process_time_queue`, with a round for each block of the queue.
unfoldable pub process_time_queue : ℕ → Rules → ℕ → Chain → Call (Unit {0})
process_time_queue depth x new_time c =
    process_from (length c.time_queue + 1) depth x 0 (record c { localtime = new_time })
