-- ===== src/Chain/TimeQueue.antt =====
-- The queue of blocks from the future in ethereum/pow/chain.py.
pub mod Frame
pub mod Quiet
use shopper.Prelude.{
  ℕ, zero, suc, ◌+◌, ◌≤◌, ◌<◌, ◌≡◌, refl, sym, ap, subst, ◌∙◌, Bool, true, false, ltb, leb, not,
  ◌==◌, if◌then◌else◌, Option, none, some, List, [], ◌∷◌, length, get_elem?, drop, All, inl, inr,
  arith, Bool-cases,
}
use shopper.Exceptions.{Result, ok, raised}
use shopper.Consensus.{Block}
use shopper.Chain.{Chain, Rules, Call, and_with}
use shopper.Chain.Adding.{
  add_block, remove_at, process_turn, process_from, process_time_queue, insert_by_time,
}
use shopper.Chain.TimeQueue.Quiet.{Waits, add_block-Waits, Waits-later}

-- The earliest first.
abbrev pub IsSorted : List Block → Type 0
IsSorted [] = Unit
IsSorted (b ∷ l) = All (λ (a : Block). b.header.timestamp ≤ a.header.timestamp) l × IsSorted l

-- The blocks that a time has come to, and the others.
unfoldable pub due : ℕ → List Block → List Block
due now [] = []
due now (b ∷ l) = if leb b.header.timestamp now then b ∷ due now l else due now l

unfoldable pub late : ℕ → List Block → List Block
late now [] = []
late now (b ∷ l) = if leb b.header.timestamp now then late now l else b ∷ late now l

-- Blocks are taken from the queue's front and added, one after the other.
pub add_front : ℕ → Rules → List Block → Chain → Call (Unit {0})
add_front depth x [] c = (ok tt, c)
add_front depth x (b ∷ l) c =
    and_with (add_block depth x b (record c { time_queue = drop 1 c.time_queue }))
      λ added c1. add_front depth x l c1

insert_by_time-All :
    (t : ℕ) (block : Block) (l : List Block)
    → t ≤ block.header.timestamp
    → All (λ (a : Block). t ≤ a.header.timestamp) l
    → All (λ (a : Block). t ≤ a.header.timestamp) (insert_by_time block l)
unfolding insert_by_time
insert_by_time-All t block [] low all = (low, tt)
insert_by_time-All t block (b ∷ l) low (first, rest) =
    elim (Bool-cases (ltb b.header.timestamp block.header.timestamp)) [
      | inl earlier ↦ rw earlier (first, insert_by_time-All t block l low rest)
      | inr not_earlier ↦ rw not_earlier (low, (first, rest))
    ]

All-weaken :
    (t u : ℕ) (l : List Block)
    → u ≤ t
    → All (λ (a : Block). t ≤ a.header.timestamp) l
    → All (λ (a : Block). u ≤ a.header.timestamp) l
All-weaken t u [] low all = tt
All-weaken t u (b ∷ l) low (first, rest) = (omega arith, All-weaken t u l low rest)

-- A block that is delayed keeps the order.
pub insert_by_time-IsSorted :
    (block : Block) (l : List Block) → IsSorted l → IsSorted (insert_by_time block l)
unfolding insert_by_time
insert_by_time-IsSorted block [] sorted = (tt, tt)
insert_by_time-IsSorted block (b ∷ l) (first, rest) =
    elim (Bool-cases (ltb b.header.timestamp block.header.timestamp)) [
      | inl earlier ↦ rw earlier (
        insert_by_time-All b.header.timestamp block l (ground arith) first,
        insert_by_time-IsSorted block l rest,
      )
      | inr not_earlier ↦ rw not_earlier (
        (ground arith, All-weaken b.header.timestamp block.header.timestamp l (ground arith) first),
        (first, rest),
      )
    ]

due-late :
    (now t : ℕ) (l : List Block)
    → now < t
    → All (λ (a : Block). t ≤ a.header.timestamp) l
    → (due now l ≡ []) × (late now l ≡ l)
unfolding due late
due-late now t [] above all = (refl, refl)
due-late now t (b ∷ l) above (first, rest) =
    let (none_due, all_late) = due-late now t l above rest in
    let after : leb b.header.timestamp now ≡ false = ground arith in
    (rw after none_due, rw after (ap (λ q. b ∷ q) all_late))

-- A run that returns leaves the queue.
abbrev pub Leaves : List Block → Call (Unit {0}) → Type 0
Leaves queue (raised e, c) = Unit
Leaves queue (ok _, c) = c.time_queue ≡ queue

abbrev IsDrained : ℕ → ℕ → Rules → ℕ → List Block → Chain → Type 0
IsDrained fuel depth x now queue c =
    (process_from fuel depth x 0 c ≡ add_front depth x (due now queue) c)
    × Leaves (late now queue) (process_from fuel depth x 0 c)

-- After a block is added, the rest of the queue is next.
next-IsDrained :
    (fuel depth : ℕ) (x : Rules) (now : ℕ) (l : List Block) (r : Call Bool)
    → Waits now l r.1
    → ((c1 : Chain) → Waits now l c1 → IsDrained fuel depth x now l c1)
    → ((and_with r λ added c1.
          process_from fuel depth x (if length c1.time_queue == suc (length l) then 1 else 0) c1)
        ≡ and_with r λ added c1. add_front depth x (due now l) c1)
      × Leaves (late now l) (
          and_with r λ added c1.
            process_from fuel depth x (if length c1.time_queue == suc (length l) then 1 else 0) c1)
next-IsDrained fuel depth x now l (raised e, c1) w ih = (refl, tt)
next-IsDrained fuel depth x now l (ok added, c1) w ih =
    let size = ap length w.same in
    let shorter : (length c1.time_queue == suc (length l)) ≡ false = ground arith in
    rw shorter (ih c1 w)

-- The loop, from the front of the queue.
process_from-IsDrained :
    (fuel depth : ℕ) (x : Rules) (now : ℕ) (queue : List Block) (c : Chain)
    → length queue < fuel
    → IsSorted queue
    → Waits now queue c
    → IsDrained fuel depth x now queue c
unfolding process_from due late add_front remove_at
process_from-IsDrained zero depth x now queue c enough sorted w = absurd (omega arith)
process_from-IsDrained (suc fuel) depth x now [] c enough sorted w =
    let over =
      ap (λ q. process_turn (process_from fuel depth x) depth x 0 c (get_elem? q 0)) w.same in
    (over, subst (Leaves []) (sym over) w.same)
process_from-IsDrained (suc fuel) depth x now (b ∷ l) c enough (first, rest) w =
    let here : Chain = record c { time_queue = b ∷ l; localtime = now } in
    let same : here ≡ c =
      ap (λ q. record c { time_queue = q; localtime = now }) (sym w.same)
      ∙ ap (λ q. record c { localtime = q }) (sym w.time) in
    subst (IsDrained (suc fuel) depth x now (b ∷ l)) same
      (elim (Bool-cases (leb b.header.timestamp now)) [
        | inl now_due ↦ rw now_due (
            next-IsDrained fuel depth x now l (add_block depth x b (record here { time_queue = l }))
              (add_block-Waits now l x depth b (record here { time_queue = l }) (ground arith)
                (record { time = refl; same = refl; all_due = w.all_due }))
              λ c1 w1. process_from-IsDrained fuel depth x now l c1 (omega arith) rest w1)
        | inr not_due ↦
            (let (none_due, all_late) = due-late now b.header.timestamp l (ground arith) first in
              rw not_due
                (ap (λ q. add_front depth x q here) (sym none_due), ap (λ q. b ∷ q) (sym all_late)))
      ])

-- Where the queue is in the order of time, the time does not go back, and the blocks that wait for
-- a parent are due, processing adds exactly the blocks of the queue that are due by the new time,
-- one after the other from the front, with the result that this has. Where it returns, the queue
-- holds the others, in order.
pub process_time_queue_lem :
    (depth : ℕ) (x : Rules) (now : ℕ) (c : Chain)
    → IsSorted c.time_queue
    → Waits c.localtime c.time_queue c
    → c.localtime ≤ now
    → (process_time_queue depth x now c
        ≡ add_front depth x (due now c.time_queue) (record c { localtime = now }))
      × Leaves (late now c.time_queue) (process_time_queue depth x now c)
unfolding process_time_queue
process_time_queue_lem depth x now c sorted w later =
    process_from-IsDrained (length c.time_queue + 1) depth x now c.time_queue
      (record c { localtime = now }) (omega arith) sorted (Waits-later c now w later)
