-- ===== src/Consensus/Filled.antt =====
-- Filling a block (ethereum/common.py) ends.
use shopper.Prelude.{
  ℕ, zero, suc, ◌+◌, ◌<◌, ◌≡◌, refl, ap, Bool, true, false, ◌==◌, if◌then◌else◌, Option, none, some,
  List, [], ◌∷◌, length, arith, Bool-cases, inl, inr,
}
use shopper.Exceptions.{Result, ok, raised, ◌>>=◌}
use shopper.State.{State, Log}
use shopper.Vm.{Externals}
use shopper.Vm.Gas.{IsReal, IsAnswer}
use shopper.Messages.{Transaction}
use shopper.Messages.Settled.{SpecialsAreSettled}
use shopper.TransactionQueue.{Heap, Heapq, TransactionQueue}
use shopper.TransactionQueue.Popped.{IsHeapq, held, count, given, pop_transaction-Found}
use shopper.Consensus.{Block}
use shopper.Consensus.Blocks.{apply_bounded}
use shopper.Consensus.Candidates.{
  is_skipped, Filling, filled, gas_left, pop_next, add_loop, add_transactions,
}
use shopper.Consensus.Endings.{apply_bounded-IsAnswer}

abbrev any : Transaction → Bool
any tx = true

-- The queue that goes on is the one that was popped.
abbrev Continues : TransactionQueue → Result Filling → Type 0
Continues q (ok f) = f.queue ≡ q
Continues q (raised e) = IsReal e

filled-Continues :
    (tx : Transaction) (q : TransactionQueue) (block : Block) (r : Result (Bool × List ℕ) × State)
    → IsAnswer r.0
    → Continues q (filled tx q block r)
filled-Continues tx q block (ok output, s) h = refl
filled-Continues tx q block (raised e, s) h = go (is_skipped e)
  where
    go :
        (b : Bool)
        → Continues q (if b then ok (record { block = block; queue = q; state = s }) else raised e)
    go true = refl
    go false = h

count-any : (heap : Heap) → count any heap ≡ length heap
unfolding count
count-any [] = refl
count-any (item ∷ heap) = omega (arith, count-any heap)

module _ (h : Heapq) (heapq : IsHeapq h) (bloom_of : List Log → ℕ) (e : Externals)
    (min_gasprice : ℕ) where
  bind-IsAnswer :
      (q : TransactionQueue) (r : Result Filling) (k : Filling → Result Filling)
      → Continues q r
      → ((f : Filling) → f.queue ≡ q → IsAnswer (k f))
      → IsAnswer (r >>= k)
  bind-IsAnswer q (ok f) k c hk = hk f c
  bind-IsAnswer q (raised x) k c hk = c

  add_loop-IsAnswer :
      (fuel : ℕ) (f : Filling)
      → SpecialsAreSettled e
      → held any f.queue < fuel
      → IsAnswer (add_loop fuel h bloom_of e min_gasprice f)
  unfolding add_loop
  add_loop-IsAnswer zero f sound lt = ground arith
  add_loop-IsAnswer (suc fuel) f sound lt =
      go (pop_next h min_gasprice f).0 (pop_next h min_gasprice f).1
        (pop_transaction-Found h heapq any (gas_left f.state) 16 min_gasprice f.queue).0
        (λ g less. add_loop-IsAnswer fuel g sound less)
    where
      go :
          (tx : Option Transaction) (q : TransactionQueue)
          → given any tx + held any q ≡ held any f.queue
          → ((g : Filling)
              → held any g.queue < fuel
              → IsAnswer (add_loop fuel h bloom_of e min_gasprice g))
          → IsAnswer (elim tx as (λ t. Result Filling) [
            | none ↦ ok (record f { queue = q })
            | some t ↦
                (filled t q f.block (apply_bounded bloom_of e t f.state) >>= λ g.
                add_loop fuel h bloom_of e min_gasprice g)
          ])
      go none q kept ih = tt
      go (some t) q kept ih =
          let r = apply_bounded bloom_of e t f.state in
          bind-IsAnswer q (filled t q f.block r) (λ g. add_loop fuel h bloom_of e min_gasprice g)
            (filled-Continues t q f.block r (apply_bounded-IsAnswer bloom_of e t f.state sound))
            (λ g same. ih g (omega (arith, ap (held any) same)))

  -- Filling a block from a queue ends, with the block, the queue and the state that it comes to, or
  -- an exception of the source: each round takes a transaction out of the queue, and each
  -- transaction ends within its gas.
  pub add_transactions-IsAnswer :
      (f : Filling) → SpecialsAreSettled e → IsAnswer (add_transactions h bloom_of e min_gasprice f)
  unfolding add_transactions
  add_transactions-IsAnswer f sound =
      let n = length f.queue.txs + length f.queue.aside + 1 in
      let enough : held any f.queue < n =
        omega (arith, count-any f.queue.txs, count-any f.queue.aside) in
      let looped = add_loop-IsAnswer n f sound enough in
      elim (Bool-cases (length f.queue.txs == 0)) [ inl b ↦ rw b tt | inr b ↦ rw b looped ]
