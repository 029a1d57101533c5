-- ===== src/Vm/Alu/Signed.antt =====
-- Signed division in ethereum/vm.py.
use native.Mathlib.Nat.{div-add-mod, mod-lt}
use shopper.Prelude.{
  ℕ, suc, ◌/◌, ◌%◌, ◌≤◌, ◌<◌, ◌≡◌, ap, ◌∙◌, Bool, true, false, ℤ, pos, negsuc, ◌+ℤ◌, ◌-ℤ◌, ◌*ℤ◌,
  abs, ltb_ℤ, arith, sub_ℕ,
}
use shopper.Vm.Memory.{tt255, tt256, to_signed}
use shopper.Vm.Alu.{signed_word, sdiv, smod}

-- An integer of that sign and size.
abbrev signed : Bool → ℕ → ℤ
signed true x = sub_ℕ 0 x
signed false x = pos x

abs-signed : {n : ℕ} (negative : Bool) (x : ℕ) → x < n → abs (signed negative x) < n
abs-signed true x h = ground arith
abs-signed false x h = ground arith

to_signed-signed_word :
    (negative : Bool) (x : ℕ) → x < tt255 → to_signed (signed_word negative x) ≡ signed negative x
unfolding to_signed signed_word ◌-ℤ◌
to_signed-signed_word true x h = ground arith
to_signed-signed_word false x h = ground arith

-- Truncated division of integers: the quotient has the sign of the product, the remainder that of
-- the dividend.
divide :
    (s d : ℤ)
    → (0 < abs d)
    → s
      ≡ signed (ltb_ℤ (s *ℤ d) (pos 0)) (abs s / abs d) *ℤ d
        +ℤ signed (ltb_ℤ s (pos 0)) (abs s % abs d)
unfolding ◌*ℤ◌ ◌+ℤ◌
divide (pos x) (pos y) h = let e = div-add-mod x y in ground arith
divide (pos x) (negsuc y) h = let e = div-add-mod x (suc y) in ground arith
divide (negsuc x) (pos y) h = let e = div-add-mod (suc x) y in ground arith
divide (negsuc x) (negsuc y) h = let e = div-add-mod (suc x) (suc y) in ground arith

to_signed-pos : (b : ℕ) → b < tt256 → 0 < b → 0 < abs (to_signed b)
unfolding to_signed
to_signed-pos b h nz = ground arith

to_signed-max : (b : ℕ) → b < tt256 → abs (to_signed b) ≤ tt255
unfolding to_signed
to_signed-max b h = ground arith

sdiv_nonzero :
    (a b : ℕ)
    → 0 < abs (to_signed b)
    → sdiv a b
      ≡ signed_word
          (ltb_ℤ (to_signed a *ℤ to_signed b) (pos 0))
          (abs (to_signed a) / abs (to_signed b))
unfolding sdiv
sdiv_nonzero a b h = ground arith

smod_nonzero :
    (a b : ℕ)
    → 0 < abs (to_signed b)
    → smod a b ≡ signed_word (ltb_ℤ (to_signed a) (pos 0)) (abs (to_signed a) % abs (to_signed b))
unfolding smod
smod_nonzero a b h = ground arith

-- SDIV and SMOD together: for words a and b, b not zero and the quotient within range (which only
-- -2 ^ 255 by -1 exceeds), the signed values satisfy a = (a SDIV b) * b + (a SMOD b), and the
-- remainder is smaller than b in size.
pub sdiv-smod :
    (a b : ℕ)
    → b < tt256
    → 0 < b
    → abs (to_signed a) / abs (to_signed b) < tt255
    → (to_signed a ≡ to_signed (sdiv a b) *ℤ to_signed b +ℤ to_signed (smod a b))
      × (abs (to_signed (smod a b)) < abs (to_signed b))
sdiv-smod a b hb nz range =
    let s0 = to_signed a in
    let s1 = to_signed b in
    let size = to_signed-pos b hb nz in
    let small = mod-lt (abs s0) size in
    let below : abs s0 % abs s1 < tt255 = omega (arith, small, to_signed-max b hb) in
    let quotient =
      ap to_signed (sdiv_nonzero a b size)
      ∙ to_signed-signed_word (ltb_ℤ (s0 *ℤ s1) (pos 0)) (abs s0 / abs s1) range in
    let remainder =
      ap to_signed (smod_nonzero a b size)
      ∙ to_signed-signed_word (ltb_ℤ s0 (pos 0)) (abs s0 % abs s1) below in
    simp (quotient, remainder)
      (divide s0 s1 size, abs-signed (ltb_ℤ s0 (pos 0)) (abs s0 % abs s1) small)
