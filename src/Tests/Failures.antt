-- ===== src/Tests/Failures.antt =====
-- A failing message (ethereum/messages.py) at a fixed input.
use native.Mathlib.Decide.{ℕ_discrete}
use shopper.Prelude.{
  ℕ, ◌≡◌, refl, false, true, none, some, List, [], ◌∷◌, inl, arith, pos, ◌+ℤ◌, ◌-ℤ◌,
}
use shopper.Exceptions.{ok}
use shopper.Dict.{lookup, insert}
use shopper.State.{
  State, blank_account, Root-discrete, account, stored_account, cache_account, put_account,
  set_and_journal,
}
use shopper.State.Ops.{
  get_balance, get_storage_data, set_storage_data, transfer_value, delta_balance, set_balance,
  set_param, storage_data, set_account_storage,
}
use shopper.State.Snapshots.{snapshot, revert, unwind, undo, restore_root, restore_vars}
use shopper.Opcodes.{decode, in_args, out_args, fee, is_metropolis_op}
use shopper.Vm.{Message, Reply, Context, Externals, Handlers}
use shopper.Vm.Memory.{bytes_to_int, padded_slice}
use shopper.Vm.Code.{width, scan_pushes, pushcache}
use shopper.Vm.Flow.{push_step, flow_step, sstore_step, sstore_gas, add_refund}
use shopper.Vm.Loop.{group, apply_op, checked_step, vm_step, run, continue, vm_execute}
use shopper.Messages.Apply.{reverted, finish_msg, after_transfer, apply_code, handlers}
use shopper.Messages.Journaled.{SpecialsAreJournaled, IsRestored}
use shopper.Messages.Journaled.Failures.{apply_code-failed}
use shopper.Tests.States.{start}

abbrev pub externals : Externals
externals = record {
  sha3 = λ bytes. 0;
  int_to_big_endian = λ n. [];
  mk_contract_address = λ a n. 0;
  special = λ a. none;
}

abbrev pub context : Context
context = record {
  tx_origin = 1;
  tx_gasprice = 0;
  block_coinbase = 9;
  block_timestamp = 0;
  block_number = 100;
  block_difficulty = 1;
  block_gas_limit = 3141592;
}

abbrev pub message : Message
message = record {
  sender = 1;
  to = 2;
  value = 20;
  gas = pos 50000;
  call_data = record { bytes = []; offset = 0; size = 0 };
  depth = 0;
  code_address = some 2;
  is_create = false;
  transfers_value = true;
  static = false;
}

-- PUSH1 5, PUSH1 7, SSTORE, and a byte that is no operation.
abbrev pub code : List ℕ
code = 0x60 ∷ 5 ∷ 0x60 ∷ 7 ∷ 0x55 ∷ 0xfe ∷ []

-- The handlers of a message that may not nest.
abbrev pub no_handlers : Handlers
no_handlers = handlers 9 externals context 0

abbrev failed : Reply
failed = record { success = false; gas = pos 0; output = [] }

abbrev after : State
after = (apply_code 9 externals (handlers 9 externals context 1) context message code start).1

message_fails :
    apply_code 9 externals (handlers 9 externals context 1) context message code start
    ≡ (ok failed, after)
unfolding apply_code after_transfer finish_msg reverted vm_execute run continue vm_step checked_step
    apply_op group is_metropolis_op in_args out_args fee decode push_step pushcache scan_pushes
    width padded_slice bytes_to_int flow_step sstore_step sstore_gas add_refund set_param
    get_storage_data set_storage_data storage_data set_account_storage transfer_value get_balance
    delta_balance set_balance snapshot revert unwind undo restore_root restore_vars lookup insert
    account stored_account cache_account put_account set_and_journal ◌+ℤ◌ ◌-ℤ◌ blank_account
    handlers Root-discrete ℕ_discrete
message_fails = refl

no-SpecialsAreJournaled : SpecialsAreJournaled externals
no-SpecialsAreJournaled a h e = ground arith

apply_code-failed_example : IsRestored start after
apply_code-failed_example =
    apply_code-failed 9 1 externals context message code start after failed no-SpecialsAreJournaled
      (inl (omega arith)) message_fails refl
