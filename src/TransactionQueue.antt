-- ===== src/TransactionQueue.antt =====
-- ethereum/transaction_queue.py: transactions by gas price, and those put aside by start gas.
--
-- The two heaps are lists that `heapq`, the library, keeps: its operations are the fields of
-- `Heapq`. Their order is `OrderableTx.__lt__`.
pub mod Popped
use shopper.Prelude.{
  ℕ, zero, suc, ◌+◌, ◌-◌, ◌^◌, min, Bool, true, false, not, ◌&&◌, ◌||◌, ltb, leb, ◌==◌,
  if◌then◌else◌, Option, none, some, List, [], ◌∷◌, map, length, take, ℤ, pos, negsuc, ◌-ℤ◌, ltb_ℤ,
  leb_ℤ, eqb_ℤ,
}
use shopper.Vm.Code.{contains}
use shopper.Messages.{Transaction}

pub record OrderableTx : Type 0 where
  pub prio : ℤ
  pub counter : ℕ
  pub tx : Transaction

-- `PRIO_INFINITY`
abbrev pub prio_infinity : ℤ
prio_infinity = negsuc (2 ^ 100 - 1)

-- `OrderableTx.__lt__`
unfoldable pub lt : OrderableTx → OrderableTx → Bool
lt a b = ltb_ℤ a.prio b.prio || eqb_ℤ a.prio b.prio && ltb a.counter b.counter

abbrev pub Heap : Type 0
Heap = List OrderableTx

-- `heapq.heappush`, and `heapq.heappop` with what it leaves; `none` for an empty heap.
pub record Heapq : Type 0 where
  pub heappush : Heap → OrderableTx → Heap
  pub heappop : Heap → Option (OrderableTx × Heap)

pub record TransactionQueue : Type 0 where
  pub counter : ℕ
  pub txs : Heap
  pub aside : Heap

-- `TransactionQueue()`
abbrev pub empty_queue : TransactionQueue
empty_queue = record { counter = 0; txs = []; aside = [] }

abbrev pub price_prio : Transaction → ℤ
price_prio tx = pos 0 -ℤ pos tx.gasprice

unfoldable pub add_transaction : Heapq → Transaction → Bool → TransactionQueue → TransactionQueue
add_transaction h tx force q =
    let prio = if force then prio_infinity else price_prio tx in
    record q {
      txs = h.heappush q.txs (record { prio = prio; counter = q.counter; tx = tx });
      counter = q.counter + 1;
    }

-- `heapq.heaptop(heap).prio <= max_gas`, for a heap that is not empty
abbrev pub top_within : ℕ → Heap → Bool
top_within max_gas [] = false
top_within max_gas (item ∷ heap) = leb_ℤ item.prio (pos max_gas)

-- One transaction back from aside, with its priority by price.
abbrev pub put_back : Heapq → Option (OrderableTx × Heap) → TransactionQueue → TransactionQueue
put_back h none q = q
put_back h (some (item, aside)) q = record q {
  aside = aside;
  txs = h.heappush q.txs (record item { prio = price_prio item.tx });
}

-- `while len(self.aside) and max_gas >= ...`: at most as many rounds as there are aside.
unfoldable pub restore : ℕ → Heapq → ℕ → TransactionQueue → TransactionQueue
restore zero h max_gas q = q
restore (suc rounds) h max_gas q =
    let rest = restore rounds h max_gas (put_back h (h.heappop q.aside) q) in
    if top_within max_gas q.aside then rest else q

-- The transaction on top is taken, and the queue without it is given on.
abbrev pub popped : Option (OrderableTx × Heap) → TransactionQueue → TransactionQueue
popped none q = q
popped (some (item, txs)) q = record q { txs = txs }

-- The transaction on top is put aside, by its start gas.
abbrev pub put_aside : Heapq → OrderableTx → TransactionQueue → TransactionQueue
put_aside h item q =
    let q1 = popped (h.heappop q.txs) q in
    record q1 { aside = h.heappush q1.aside (record item { prio = pos item.tx.startgas }) }

-- `for i in range(...)`
unfoldable pub seek : ℕ → Heapq → ℕ → ℕ → TransactionQueue → Option Transaction × TransactionQueue
seek zero h max_gas min_gasprice q = (none, q)
seek (suc depth) h max_gas min_gasprice q = elim q.txs [
  | [] ↦ (none, q)
  | item ∷ heap ↦
      let deeper = seek depth h max_gas min_gasprice (put_aside h item q) in
      if ltb max_gas item.tx.startgas
      then deeper
      else if leb min_gasprice item.tx.gasprice || eqb_ℤ item.prio prio_infinity
      then (some item.tx, popped (h.heappop q.txs) q)
      else (none, q)
]

unfoldable pub pop_transaction :
    Heapq → ℕ → ℕ → ℕ → TransactionQueue → Option Transaction × TransactionQueue
pop_transaction h max_gas max_seek_depth min_gasprice q =
    let q1 = restore (length q.aside) h max_gas q in
    seek (min (length q1.txs) max_seek_depth) h max_gas min_gasprice q1

abbrev keep : (Transaction → ℕ) → List ℕ → Heap → Heap
keep hash_of hashes [] = []
keep hash_of hashes (item ∷ heap) =
    let rest = keep hash_of hashes heap in
    if contains (hash_of item.tx) hashes then rest else item ∷ rest

-- `peek`. No number, and zero, give all.
unfoldable pub peek : Option ℕ → TransactionQueue → Heap
peek none q = q.txs
peek (some zero) q = q.txs
peek (some (suc num)) q = take (suc num) q.txs

-- `diff`. The new queue has nothing aside and counts from 0.
unfoldable pub diff : (Transaction → ℕ) → List Transaction → TransactionQueue → TransactionQueue
diff hash_of txs q = record empty_queue { txs = keep hash_of (map hash_of txs) q.txs }
