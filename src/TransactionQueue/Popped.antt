-- ===== src/TransactionQueue/Popped.antt =====
-- What `pop_transaction` of ethereum/transaction_queue.py gives, and that it loses nothing.
use shopper.Prelude.{
  ℕ, zero, suc, ◌+◌, min, ◌≤◌, ◌≡◌, refl, sym, ap, ◌∙◌, Bool, true, false, ◌||◌, ltb, leb,
  if◌then◌else◌, Option, none, some, [], ◌∷◌, length, pos, eqb_ℤ, arith, Bool-cases, inl, inr,
}
use shopper.Messages.{Transaction}
use shopper.TransactionQueue.{
  OrderableTx, prio_infinity, Heap, Heapq, TransactionQueue, price_prio, top_within, put_back,
  restore, popped, put_aside, seek, pop_transaction,
}

-- How many of a heap's transactions are of a kind.
unfoldable pub count : (Transaction → Bool) → Heap → ℕ
count p [] = 0
count p (item ∷ heap) = (if p item.tx then 1 else 0) + count p heap

-- `heapq` as documented: a push adds the item; a pop takes the first item, and none only of an empty
-- heap.
pub record IsHeapq (h : Heapq) : Type 0 where
  pub pushes :
      (p : Transaction → Bool) (heap : Heap) (item : OrderableTx)
      → count p (h.heappush heap item) ≡ (if p item.tx then 1 else 0) + count p heap
  pub pops :
      (item : OrderableTx) (heap : Heap)
      → (rest : Heap) × (h.heappop (item ∷ heap) ≡ some (item, rest))
        × ((p : Transaction → Bool) → count p rest ≡ count p heap)

-- How many transactions of a kind are in a queue.
abbrev pub held : (Transaction → Bool) → TransactionQueue → ℕ
held p q = count p q.txs + count p q.aside

-- And in what a pop gives.
abbrev pub given : (Transaction → Bool) → Option Transaction → ℕ
given p none = 0
given p (some tx) = if p tx then 1 else 0

abbrev pub Fits : ℕ → Option Transaction → Type 0
Fits max_gas none = Unit
Fits max_gas (some tx) = tx.startgas ≤ max_gas

module _ (h : Heapq) (heapq : IsHeapq h) (p : Transaction → Bool) where
  -- A pop gives the top and what is left of the kind.
  count-heappop :
      (heap : Heap) (item : OrderableTx) (rest : Heap)
      → heap ≡ item ∷ rest
      → (left : Heap) × (h.heappop heap ≡ some (item, left))
        × (count p heap ≡ (if p item.tx then 1 else 0) + count p left)
  unfolding count
  count-heappop heap item rest e =
      let (left, popped_so, same) = heapq.pops item rest in
      (
        left,
        ap h.heappop e ∙ popped_so,
        ap (count p) e ∙ ap (λ n. (if p item.tx then 1 else 0) + n) (sym (same p)),
      )

  held-popped :
      (item : OrderableTx) (heap : Heap) (q : TransactionQueue)
      → q.txs ≡ item ∷ heap
      → held p q ≡ (if p item.tx then 1 else 0) + held p (popped (h.heappop q.txs) q)
  held-popped item heap q e =
      let (left, taken, counted) = count-heappop q.txs item heap e in
      omega (arith, counted, ap (λ r. held p (popped r q)) taken)

  held-put_aside :
      (item : OrderableTx) (heap : Heap) (q : TransactionQueue)
      → q.txs ≡ item ∷ heap
      → held p (put_aside h item q) ≡ held p q
  held-put_aside item heap q e =
      let q1 = popped (h.heappop q.txs) q in
      omega (
        arith,
        held-popped item heap q e,
        heapq.pushes p q1.aside (record item { prio = pos item.tx.startgas }),
      )

  held-put_back :
      (item : OrderableTx) (heap : Heap) (q : TransactionQueue)
      → q.aside ≡ item ∷ heap
      → held p (put_back h (h.heappop q.aside) q) ≡ held p q
  held-put_back item heap q e =
      let (left, taken, counted) = count-heappop q.aside item heap e in
      ap (λ r. held p (put_back h r q)) taken
      ∙ omega (arith, counted, heapq.pushes p q.txs (record item { prio = price_prio item.tx }))

  held-restore :
      (rounds max_gas : ℕ) (q : TransactionQueue) → held p (restore rounds h max_gas q) ≡ held p q
  unfolding restore
  held-restore zero max_gas q = refl
  held-restore (suc rounds) max_gas q =
      go q.aside refl (held-restore rounds max_gas (put_back h (h.heappop q.aside) q))
    where
      back : TransactionQueue
      back = put_back h (h.heappop q.aside) q

      go :
          (aside : Heap)
          → q.aside ≡ aside
          → held p (restore rounds h max_gas back) ≡ held p back
          → held p (if top_within max_gas q.aside then restore rounds h max_gas back else q)
            ≡ held p q
      go [] e ih = rw e refl
      go (item ∷ heap) e ih = elim (Bool-cases (top_within max_gas q.aside)) [
        | inl b ↦ rw b (ih ∙ held-put_back item heap q e)
        | inr b ↦ rw b refl
      ]

  -- What a search gives fits, and with what it leaves makes what there was.
  abbrev pub Found : ℕ → TransactionQueue → Option Transaction × TransactionQueue → Type 0
  Found max_gas q r = (given p r.0 + held p r.1 ≡ held p q) × Fits max_gas r.0

  Found-if :
      (max_gas : ℕ) (q : TransactionQueue) (b : Bool) (x y : Option Transaction × TransactionQueue)
      → Found max_gas q x
      → Found max_gas q y
      → Found max_gas q (if b then x else y)
  Found-if max_gas q true x y hx hy = hx
  Found-if max_gas q false x y hx hy = hy

  -- The choice that a round makes.
  abbrev choice : ℕ → ℕ → ℕ → TransactionQueue → Heap → Option Transaction × TransactionQueue
  choice depth max_gas min_gasprice q [] = (none, q)
  choice depth max_gas min_gasprice q (item ∷ heap) =
      if ltb max_gas item.tx.startgas
      then seek depth h max_gas min_gasprice (put_aside h item q)
      else if leb min_gasprice item.tx.gasprice || eqb_ℤ item.prio prio_infinity
      then (some item.tx, popped (h.heappop q.txs) q)
      else (none, q)

  choice-Found :
      (depth max_gas min_gasprice : ℕ) (q : TransactionQueue) (txs : Heap)
      → q.txs ≡ txs
      → ((item : OrderableTx)
          → Found max_gas
              (put_aside h item q)
              (seek depth h max_gas min_gasprice (put_aside h item q)))
      → Found max_gas q (choice depth max_gas min_gasprice q txs)
  choice-Found depth max_gas min_gasprice q [] e ih = (omega arith, tt)
  choice-Found depth max_gas min_gasprice q (item ∷ heap) e ih =
      let (kept, fits) = ih item in
      elim (Bool-cases (ltb max_gas item.tx.startgas)) [
        | inl b ↦ rw b (kept ∙ held-put_aside item heap q e, fits)
        | inr b ↦ rw b (
            Found-if max_gas q (leb min_gasprice item.tx.gasprice || eqb_ℤ item.prio prio_infinity)
              (some item.tx, popped (h.heappop q.txs) q) (none, q)
              (sym (held-popped item heap q e), ground arith) (omega arith, tt))
      ]

  seek-Found :
      (depth max_gas min_gasprice : ℕ) (q : TransactionQueue)
      → Found max_gas q (seek depth h max_gas min_gasprice q)
  unfolding seek
  seek-Found zero max_gas min_gasprice q = (omega arith, tt)
  seek-Found (suc depth) max_gas min_gasprice q =
      choice-Found depth max_gas min_gasprice q q.txs refl
        (λ item. seek-Found depth max_gas min_gasprice (put_aside h item q))

  -- What is popped is within the gas limit, and nothing is lost: for any kind of transaction, the
  -- queue held before the pop as many as are popped and held after it, in the heap or aside. The
  -- heaps are kept by `heapq` as documented.
  pub pop_transaction-Found :
      (max_gas max_seek_depth min_gasprice : ℕ) (q : TransactionQueue)
      → Found max_gas q (pop_transaction h max_gas max_seek_depth min_gasprice q)
  unfolding pop_transaction
  pop_transaction-Found max_gas max_seek_depth min_gasprice q =
      let q1 = restore (length q.aside) h max_gas q in
      let (kept, fits) = seek-Found (min (length q1.txs) max_seek_depth) max_gas min_gasprice q1 in
      (kept ∙ held-restore (length q.aside) max_gas q, fits)
