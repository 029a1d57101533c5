-- ===== src/Tests/Queues.antt =====
-- The transaction queue (ethereum/transaction_queue.py) at fixed inputs, with a sorted list as heap.
use shopper.Prelude.{
  ◌+◌, ◌≡◌, refl, Bool, false, if◌then◌else◌, Option, none, some, [], ◌∷◌, map, arith, leb, ◌-ℤ◌,
}
use shopper.Messages.{Transaction}
use shopper.TransactionQueue.{
  OrderableTx, Heap, Heapq, TransactionQueue, lt, empty_queue, add_transaction, pop_transaction,
  restore, seek, peek,
}
use shopper.TransactionQueue.Popped.{IsHeapq, Found, count, pop_transaction-Found}
use shopper.Consensus.Candidates.{add_transactions}
use shopper.Consensus.Filled.{add_transactions-IsAnswer}
use shopper.Vm.Gas.{IsAnswer}
use shopper.Tests.Failures.{externals}
use shopper.Tests.Endings.{no-SpecialsAreSettled, transfer}
use shopper.Tests.Blocks.{on_genesis, first_block}

unfoldable push_sorted : Heap → OrderableTx → Heap
push_sorted [] item = item ∷ []
push_sorted (x ∷ heap) item =
    let rest = push_sorted heap item in if lt item x then item ∷ x ∷ heap else x ∷ rest

abbrev pop_sorted : Heap → Option (OrderableTx × Heap)
pop_sorted [] = none
pop_sorted (x ∷ heap) = some (x, heap)

abbrev sorted : Heapq
sorted = record { heappush = push_sorted; heappop = pop_sorted }

count-push_sorted :
    (p : Transaction → Bool) (heap : Heap) (item : OrderableTx)
    → count p (push_sorted heap item) ≡ (if p item.tx then 1 else 0) + count p heap
unfolding push_sorted count
count-push_sorted p [] item = refl
count-push_sorted p (x ∷ heap) item = ground (arith, count-push_sorted p heap item)

sorted-IsHeapq : IsHeapq sorted
sorted-IsHeapq = record { pushes = count-push_sorted; pops = λ item heap. (heap, refl, λ p. refl) }

-- Three transactions, the second of which asks for most gas and pays best.
abbrev queue : TransactionQueue
queue =
    add_transaction sorted (record transfer { gasprice = 2; startgas = 40000 }) false
      (add_transaction sorted (record transfer { gasprice = 5; startgas = 90000 }) false
        (add_transaction sorted transfer false empty_queue))

popped_fits :
    (pop_transaction sorted 50000 16 0 queue).0
    ≡ some (record transfer { gasprice = 2; startgas = 40000 })
unfolding pop_transaction seek restore add_transaction push_sorted lt ◌-ℤ◌
popped_fits = refl

pop_transaction-Found_example :
    Found sorted sorted-IsHeapq
      (λ tx. leb 3 tx.gasprice)
      50000
      queue
      (pop_transaction sorted 50000 16 0 queue)
pop_transaction-Found_example =
    pop_transaction-Found sorted sorted-IsHeapq (λ tx. leb 3 tx.gasprice) 50000 16 0 queue

best_seen : map (λ (item : OrderableTx). item.tx.gasprice) (peek (some 2) queue) ≡ 5 ∷ 2 ∷ []
unfolding peek add_transaction push_sorted lt ◌-ℤ◌
best_seen = refl

add_transactions-IsAnswer_example : IsAnswer (
    add_transactions sorted
      (λ logs. 0)
      externals
      0
      (record { block = first_block; queue = queue; state = on_genesis }))
add_transactions-IsAnswer_example =
    add_transactions-IsAnswer sorted sorted-IsHeapq (λ logs. 0) externals 0
      (record { block = first_block; queue = queue; state = on_genesis }) no-SpecialsAreSettled
