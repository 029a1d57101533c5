-- ===== src/Vm/Alu.antt =====
-- The operations of ethereum/vm.py that work on the stack alone: arithmetic, comparisons, and the
-- shuffling of items. The top of the stack comes first, so `stk.pop()` is the head.
pub mod Height
pub mod Signed
use shopper.Prelude.{
  ℕ, zero, suc, ◌+◌, ◌-◌, ◌*◌, ◌/◌, ◌%◌, ◌^◌, bit_and, bit_or, bit_xor, Bool, true, false, ltb, leb,
  ◌==◌, if◌then◌else◌, Option, none, some, List, [], ◌∷◌, get_elem?, set, length, ℤ, pos, ◌-ℤ◌,
  ◌*ℤ◌, sub_ℕ, ltb_ℤ, eqb_ℤ, abs, floor_mod,
}
use shopper.Exceptions.{index_error}
use shopper.Opcodes.{Op, gexponentbyte, exp_supplemental_gas}
use shopper.Vm.{Machine, Outcome, next, fault, vm_exception}
use shopper.Vm.Memory.{tt256, to_signed}

-- `1 if test else 0`
abbrev pub bit : Bool → ℕ
bit true = 1
bit false = 0

-- `x * (-1 if negative else 1) & TT256M1`
unfoldable pub signed_word : Bool → ℕ → ℕ
signed_word negative x = floor_mod (if negative then pos 0 -ℤ pos x else pos x) tt256

unfoldable pub sdiv : ℕ → ℕ → ℕ
unfolding signed_word to_signed
sdiv a b =
    let s0 = to_signed a in
    let s1 = to_signed b in
    if eqb_ℤ s1 (pos 0) then 0 else signed_word (ltb_ℤ (s0 *ℤ s1) (pos 0)) (abs s0 / abs s1)

unfoldable pub smod : ℕ → ℕ → ℕ
unfolding signed_word to_signed
smod a b =
    let s0 = to_signed a in
    let s1 = to_signed b in
    if eqb_ℤ s1 (pos 0) then 0 else signed_word (ltb_ℤ s0 (pos 0)) (abs s0 % abs s1)

unfoldable pub signextend : ℕ → ℕ → ℕ
signextend s0 s1 =
    let testbit = s0 * 8 + 7 in
    if leb s0 31
    then (if s1 / 2 ^ testbit % 2 == 1 then bit_or s1 (tt256 - 2 ^ testbit) else s1 % 2 ^ testbit)
    else s1

unfoldable pub byte_of : ℕ → ℕ → ℕ
byte_of s0 s1 = if leb 32 s0 then 0 else s1 / 256 ^ (31 - s0) % 256

-- The item at a depth, and the exchange of the top with the item at a depth.
unfoldable pub dup : ℕ → List ℕ → Option (List ℕ)
dup n st = elim (get_elem? st (n - 1)) [ none ↦ none | some v ↦ some (v ∷ st) ]

swap_with : ℕ → Option ℕ → List ℕ → Option (List ℕ)
swap_with n none st = none
swap_with n (some v) [] = none
swap_with n (some v) (top ∷ st) = some (v ∷ set st (n - 1) top)

unfoldable pub swap : ℕ → List ℕ → Option (List ℕ)
unfolding swap_with
swap n st = swap_with n (get_elem? st n) st

-- The stack after an operation of this group; `none` where Python would find too few items, and
-- for operations of the other groups.
unfoldable pub stack_op : Op → List ℕ → Option (List ℕ)
unfolding sdiv smod signextend byte_of dup swap
stack_op Op.add (a ∷ b ∷ st) = some ((a + b) % tt256 ∷ st)
stack_op Op.sub (a ∷ b ∷ st) = some (floor_mod (sub_ℕ a b) tt256 ∷ st)
stack_op Op.mul (a ∷ b ∷ st) = some (a * b % tt256 ∷ st)
stack_op Op.div (a ∷ b ∷ st) = some ((if b == 0 then 0 else a / b) ∷ st)
stack_op Op.modulo (a ∷ b ∷ st) = some ((if b == 0 then 0 else a % b) ∷ st)
stack_op Op.sdiv (a ∷ b ∷ st) = some (sdiv a b ∷ st)
stack_op Op.smod (a ∷ b ∷ st) = some (smod a b ∷ st)
stack_op Op.addmod (a ∷ b ∷ c ∷ st) = some ((if c == 0 then 0 else (a + b) % c) ∷ st)
stack_op Op.mulmod (a ∷ b ∷ c ∷ st) = some ((if c == 0 then 0 else a * b % c) ∷ st)
stack_op Op.signextend (a ∷ b ∷ st) = some (signextend a b ∷ st)
stack_op Op.lt (a ∷ b ∷ st) = some (bit (ltb a b) ∷ st)
stack_op Op.gt (a ∷ b ∷ st) = some (bit (ltb b a) ∷ st)
stack_op Op.slt (a ∷ b ∷ st) = some (bit (ltb_ℤ (to_signed a) (to_signed b)) ∷ st)
stack_op Op.sgt (a ∷ b ∷ st) = some (bit (ltb_ℤ (to_signed b) (to_signed a)) ∷ st)
stack_op Op.eq (a ∷ b ∷ st) = some (bit (a == b) ∷ st)
stack_op Op.iszero (a ∷ st) = some (bit (a == 0) ∷ st)
stack_op Op.and (a ∷ b ∷ st) = some (bit_and a b ∷ st)
stack_op Op.or (a ∷ b ∷ st) = some (bit_or a b ∷ st)
stack_op Op.xor (a ∷ b ∷ st) = some (bit_xor a b ∷ st)
stack_op Op.not (a ∷ st) = some ((tt256 - 1 - a) ∷ st)
stack_op Op.byte (a ∷ b ∷ st) = some (byte_of a b ∷ st)
stack_op Op.pop (a ∷ st) = some st
stack_op (Op.dup n) st = dup n st
stack_op (Op.swap n) st = swap n st
stack_op _ st = none

abbrev pub stack_result : Option (List ℕ) → Machine → Outcome
stack_result none m = fault index_error
stack_result (some st) m = next (record m { stack = st })

unfoldable pub alu_step : Op → Machine → Outcome
unfolding stack_op
alu_step op m = stack_result (stack_op op m.stack) m

-- EXP. `int_to_big_endian` is the library function whose length is priced.
module _ (int_to_big_endian : ℕ → List ℕ) where
  unfoldable pub exp_on : Bool → List ℕ → Machine → Outcome
  exp_on spurious (base ∷ exponent ∷ st) m =
      let nbytes = length (int_to_big_endian exponent) in
      let expfee =
        nbytes * gexponentbyte + (if spurious then exp_supplemental_gas * nbytes else 0) in
      if ltb_ℤ m.gas (pos expfee)
      then vm_exception
      else next (record m { gas = m.gas -ℤ pos expfee; stack = base ^ exponent % tt256 ∷ st })
  exp_on spurious _ m = fault index_error

  unfoldable pub exp_step : Bool → Machine → Outcome
  unfolding exp_on
  exp_step spurious m = exp_on spurious m.stack m
