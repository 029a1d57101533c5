-- ===== src/Tests/Rounds.antt =====
-- A round of the loop in ethereum/vm.py at a fixed input.
use shopper.Prelude.{◌≡◌, ◌≤◌, refl, [], ◌∷◌, length, pos, ◌-ℤ◌, arith}
use shopper.Dict.{lookup, insert}
use shopper.Opcodes.{decode, is_metropolis_op, in_args, out_args, fee}
use shopper.Vm.{Machine, next, Frame}
use shopper.Vm.Memory.{bytes_to_int, padded_slice}
use shopper.Vm.Code.{width, scan_pushes, pushcache}
use shopper.Vm.Flow.{push_step}
use shopper.Vm.Loop.{group, apply_op, checked_step, vm_step}
use shopper.Vm.Heights.Reached.{Reached, begun, round, Reached-low}
use shopper.Tests.States.{start}
use shopper.Tests.Failures.{externals, context, message, code, no_handlers}

abbrev frame : Frame
frame = record { context = context; msg = message; code = code }

abbrev at_start : Machine
at_start = record { memory = []; stack = []; pc = 0; gas = pos 50000; last_returned = [] }

abbrev pushed : Machine
pushed = record at_start { stack = 5 ∷ []; pc = 2; gas = pos 49997 }

one_round : vm_step externals no_handlers frame at_start start ≡ (next pushed, start)
unfolding vm_step checked_step apply_op group is_metropolis_op in_args out_args fee decode push_step
    pushcache scan_pushes width padded_slice bytes_to_int lookup insert ◌-ℤ◌
one_round = refl

Reached-once : Reached externals no_handlers frame at_start start pushed start
Reached-once = round begun one_round

Reached-low_example : length pushed.stack ≤ 1024
Reached-low_example = Reached-low Reached-once (omega arith)
