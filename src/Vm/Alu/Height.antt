-- ===== src/Vm/Alu/Height.antt =====
-- The stack height of the operations in ethereum/vm.py that work on the stack alone, against the
-- numbers of arguments in ethereum/opcodes.py.
use shopper.Prelude.{
  ap, sym, subst, ◌∙◌, ◌-◌, ℕ, zero, suc, ◌+◌, ◌≤◌, ◌<◌, ◌≡◌, refl, ◌⊎◌, inl, inr, Option, none,
  some, List, [], ◌∷◌, length, get_elem?, drop, set, length-set, arith,
}
use shopper.Opcodes.{Op, in_args, out_args}
use shopper.Vm.Alu.{stack_op, dup, swap, swap_with}

swap-length : (n : ℕ) (st st1 : List ℕ) → swap n st ≡ some st1 → length st1 ≡ length st
unfolding swap swap_with
swap-length n st st1 h = grind (arith, length-set)

-- DUP and SWAP are numbered from one on.
abbrev pub IsNumbered : Op → Type 0
IsNumbered (Op.dup n) = 1 ≤ n
IsNumbered (Op.swap n) = 1 ≤ n
IsNumbered op = Unit

-- What the table says of an operation on a stack: with too few items it fails, and else it puts so
-- many in the place of so many, and leaves those below.
abbrev pub Takes : Op → List ℕ → Option (List ℕ) → Type 0
Takes op st none = length st < in_args op
Takes op st (some st1) =
    (in_args op ≤ length st)
    × (length st1 + in_args op ≡ length st + out_args op)
    × (drop (out_args op) st1 ≡ drop (in_args op) st)

drop-set : (n : ℕ) (st : List ℕ) (v : ℕ) → drop (suc n) (set st n v) ≡ drop (suc n) st
drop-set zero [] v = refl
drop-set zero (x ∷ st) v = refl
drop-set (suc n) [] v = refl
drop-set (suc n) (x ∷ st) v = drop-set n st v

drop-kept : (n : ℕ) (st : List ℕ) (v : ℕ) → 1 ≤ n → drop n (set st (n - 1) v) ≡ drop n st
drop-kept n st v low =
    let next : suc (n - 1) ≡ n = omega arith in
    subst (λ k. drop k (set st (n - 1) v) ≡ drop k st) next (drop-set (n - 1) st v)

drop-cons : (n x : ℕ) (st : List ℕ) → drop (n + 1) (x ∷ st) ≡ drop n st
drop-cons n x st = let next : n + 1 ≡ suc n = omega arith in ap (λ k. drop k (x ∷ st)) next

get_elem?-cases :
    (st : List ℕ) (n : ℕ)
    → ((v : ℕ) × (get_elem? st n ≡ some v) × (n < length st))
      ⊎ ((get_elem? st n ≡ none) × (length st ≤ n))
get_elem?-cases [] n = inr (refl, omega arith)
get_elem?-cases (x ∷ st) zero = inl (x, refl, omega arith)
get_elem?-cases (x ∷ st) (suc n) = elim (get_elem?-cases st n) [
  | inl (v, e, lt) ↦ inl (v, e, omega arith)
  | inr (e, le) ↦ inr (e, omega arith)
]

dup-Takes : (n : ℕ) (st : List ℕ) → 1 ≤ n → Takes (Op.dup n) st (dup n st)
unfolding dup in_args out_args
dup-Takes n st low = go (get_elem? st (n - 1)) refl (get_elem?-cases st (n - 1))
  where
    go :
        (o : Option ℕ)
        → get_elem? st (n - 1) ≡ o
        → ((v : ℕ) × (get_elem? st (n - 1) ≡ some v) × (n - 1 < length st))
          ⊎ ((get_elem? st (n - 1) ≡ none) × (length st ≤ n - 1))
        → Takes (Op.dup n) st (elim o [ none ↦ none | some v ↦ some (v ∷ st) ])
    go none e (inl (v, f, lt)) = ground arith
    go none e (inr (f, le)) = omega arith
    go (some v) e (inl (w, f, lt)) = (omega arith, omega arith, drop-cons n v st)
    go (some v) e (inr (f, le)) = ground arith

swap-Takes : (n : ℕ) (st : List ℕ) → 1 ≤ n → Takes (Op.swap n) st (swap n st)
unfolding swap swap_with in_args out_args
swap-Takes n [] low = omega arith
swap-Takes n (x ∷ st) low = elim (get_elem?-cases (x ∷ st) n) [
  | inl (v, e, lt) ↦ rw e (
    omega arith,
    omega (arith, length-set st (n - 1) x),
    drop-cons n v (set st (n - 1) x) ∙ drop-kept n st x low ∙ sym (drop-cons n x st),
  )
  | inr (e, le) ↦ rw e (omega arith)
]

-- An operation that works on the stack alone (arithmetic, comparison, bits, POP, DUP and SWAP), so
-- one that `stack_op` runs on some stack, does on any stack what the table of opcodes says: with
-- fewer items than it takes it fails; with as many it replaces just these by as many as it leaves,
-- and those below stay. DUP and SWAP are numbered from one on.
pub stack_op-Takes :
    (op : Op) (st0 out0 st : List ℕ)
    → IsNumbered op
    → stack_op op st0 ≡ some out0
    → Takes op st (stack_op op st)
unfolding stack_op in_args out_args
stack_op-Takes (Op.dup n) st0 out0 st low e = dup-Takes n st low
stack_op-Takes (Op.swap n) st0 out0 st low e = swap-Takes n st low
stack_op-Takes op st0 out0 st low e = grind arith

-- The change of the height, for any number.
pub stack_op-height :
    (op : Op) (st st1 : List ℕ)
    → stack_op op st ≡ some st1
    → length st1 + in_args op ≡ length st + out_args op
unfolding stack_op in_args out_args
stack_op-height op st st1 h = grind (arith, swap-length)
