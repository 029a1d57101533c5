-- ===== src/Tests/Words.antt =====
-- The word operations of ethereum/vm.py at fixed inputs.
use shopper.Prelude.{ℕ, ◌-◌, ◌<◌, ◌≡◌, refl, abs, ◌+ℤ◌, ◌*ℤ◌, ◌-ℤ◌, arith}
use shopper.Vm.Memory.{tt256, to_signed}
use shopper.Vm.Alu.{sdiv, smod, signextend, byte_of, signed_word}
use shopper.Vm.Alu.Signed.{sdiv-smod}

abbrev minus_seven : ℕ
minus_seven = tt256 - 7

divided : sdiv minus_seven 2 ≡ tt256 - 3
unfolding sdiv signed_word to_signed ◌*ℤ◌ ◌-ℤ◌
divided = refl

extended : signextend 0 0xff ≡ tt256 - 1
unfolding signextend
extended = refl

last_byte : byte_of 31 0x1234 ≡ 0x34
unfolding byte_of
last_byte = refl

sdiv-smod_example :
    (to_signed minus_seven
      ≡ to_signed (sdiv minus_seven 2) *ℤ to_signed 2 +ℤ to_signed (smod minus_seven 2))
    × (abs (to_signed (smod minus_seven 2)) < abs (to_signed 2))
sdiv-smod_example =
    sdiv-smod minus_seven 2 (omega arith) (omega arith) (unfold to_signed in omega arith)
