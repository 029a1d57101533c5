-- ===== src/Messages/Apply.antt =====
-- `_apply_msg`, `apply_msg` and `create_contract` of ethereum/messages.py.
use shopper.Prelude.{
  ℕ, zero, suc, ◌-◌, ◌*◌, Bool, true, false, not, ◌&&◌, ◌||◌, leb, ◌==◌, if◌then◌else◌, Option,
  none, some, List, [], length, ℤ, pos, ◌-ℤ◌, ltb_ℤ, leb_ℤ,
}
use shopper.Exceptions.{Result, ok, raised, value_error, out_of_fuel}
use shopper.Opcodes.{gcontractbyte}
use shopper.State.{
  Address, State, is_homestead, is_spurious_dragon, is_metropolis, is_constantinople,
}
use shopper.State.Ops.{
  get_balance, get_nonce, get_code, set_balance, set_nonce, set_code, increment_nonce,
  transfer_value,
}
use shopper.State.Snapshots.{Snapshot, snapshot, revert}
use shopper.Vm.{Message, Reply, Handler, Handlers, Context, Externals}
use shopper.Vm.Memory.{to_bytes, extract_all}
use shopper.Vm.Loop.{vm_execute}
use shopper.Messages.{null_address}

abbrev pub reply_after : Result State → Reply → State → Result Reply × State
reply_after (ok s1) r s = (ok r, s1)
reply_after (raised e) r s = (raised e, s)

-- `ext.revert(snapshot)`, before a reply is returned.
unfoldable pub reverted : Snapshot → Reply → State → Result Reply × State
reverted snap r s = reply_after (revert snap s) r s

-- The end of `_apply_msg`.
unfoldable pub finish_msg : Snapshot → Result Reply × State → Result Reply × State
finish_msg snap (raised e, s) = (raised e, s)
finish_msg snap (ok r, s) = if r.success then (ok r, s) else reverted snap r s

-- What `_apply_msg` does once the value has moved, or has not.
unfoldable pub after_transfer :
    Snapshot → Handler → Message → Result Bool × State → Result Reply × State
after_transfer snap main msg (raised e, s) = (raised e, s)
after_transfer snap main msg (ok false, s) =
    (ok (record { success = true; gas = msg.gas; output = [] }), s)
after_transfer snap main msg (ok true, s) = finish_msg snap (main msg s)

abbrev pub special_at : Externals → Option Address → Option Handler
special_at x none = none
special_at x (some a) = x.special a

abbrev pub main_loop : ℕ → Externals → Handlers → Context → List ℕ → Option Handler → Handler
main_loop rounds x h c code none msg s = vm_execute rounds x h c msg code s
main_loop rounds x h c code (some special) msg s = special msg s

-- `_apply_msg`
unfoldable pub apply_code :
    ℕ → Externals → Handlers → Context → Message → List ℕ → State → Result Reply × State
apply_code rounds x h c msg code s =
    let main = main_loop rounds x h c code (special_at x msg.code_address) in
    after_transfer (snapshot s) main msg (
      if msg.transfers_value
      then transfer_value msg.sender msg.to (pos msg.value) s
      else (ok true, s))

-- `get_code` of the code address. A message without one carries its code.
abbrev pub code_at : Option Address → State → List ℕ × State
code_at none s = ([], s)
code_at (some a) s = get_code a s

-- `apply_msg`, and `ext.msg`
unfoldable pub apply_msg : ℕ → Externals → Handlers → Context → Handler
apply_msg rounds x h c msg s =
    let (code, s1) = code_at msg.code_address s in apply_code rounds x h c msg code s1

abbrev pub failure : Reply
failure = record { success = false; gas = pos 0; output = [] }

-- The reply of a creation holds the address.
abbrev pub created_at : Address → ℤ → Reply
created_at to gas = record { success = true; gas = gas; output = to_bytes 20 to }

-- Whether the code of a new contract can be paid for, and is not too long.
unfoldable pub is_affordable : Reply → State → Bool
is_affordable r s =
    leb_ℤ (pos (length r.output * gcontractbyte)) r.gas
    && (leb (length r.output) 24576 || not (is_spurious_dragon s))

-- Code that is not paid for fails the creation, before homestead leaves the contract empty.
unfoldable pub refuse_code : Snapshot → Address → Reply → State → Result Reply × State
refuse_code snap to r s =
    if is_homestead s then reverted snap failure s else (ok (created_at to r.gas), set_code to [] s)

-- The code is paid for and stored.
unfoldable pub store_code : Snapshot → Address → Reply → State → Result Reply × State
store_code snap to r s =
    if is_affordable r s
    then (
      ok (created_at to (r.gas -ℤ pos (length r.output * gcontractbyte))),
      set_code to r.output s,
    )
    else refuse_code snap to r s

unfoldable pub keep_code : Snapshot → Address → Reply → State → Result Reply × State
keep_code snap to r s =
    if length r.output == 0 then (ok (created_at to r.gas), s) else store_code snap to r s

-- The end of `create_contract`.
unfoldable pub finish_create : Snapshot → Address → Result Reply × State → Result Reply × State
finish_create snap to (raised e, s) = (raised e, s)
finish_create snap to (ok r, s) = if r.success then keep_code snap to r s else reverted snap r s

-- The test for a contract at the address asks for its code only where the nonce is zero.
unfoldable pub collision : Address → State → Bool × State
collision to s =
    let (nonce, s1) = get_nonce to s in
    let (code, s2) = get_code to s1 in
    if not (is_metropolis s)
    then (false, s)
    else if nonce == 0
    then (not (length code == 0), s2)
    else (true, s1)

-- An account with a balance but no code keeps only the balance.
unfoldable pub clear_account : Address → State → State
clear_account to s =
    let (balance, s1) = get_balance to s in
    if ltb_ℤ (pos 0) balance
    then set_code to [] (set_nonce to 0 (set_balance to balance s1))
    else s1

abbrev pub create_message_at : Message → Address → Message
create_message_at msg to = record msg {
  to = to;
  is_create = true;
  call_data = record { bytes = []; offset = 0; size = 0 };
}

-- `create_contract`, once the address of the contract is known and free.
unfoldable pub create_free :
    ℕ → Externals → Handlers → Context → Message → List ℕ → Address → State → Result Reply × State
create_free rounds x h c msg code to s =
    let cleared = clear_account to s in
    let started = set_nonce to (if is_spurious_dragon s then 1 else 0) cleared in
    finish_create (snapshot cleared) to
      (apply_code rounds x h c (create_message_at msg to) code started)

abbrev pub unless_taken : Bool × State → (State → Result Reply × State) → Result Reply × State
unless_taken (true, s) k = (ok failure, s)
unless_taken (false, s) k = k s

unfoldable pub create_at :
    ℕ → Externals → Handlers → Context → Message → List ℕ → Address → State → Result Reply × State
create_at rounds x h c msg code to s =
    unless_taken (collision to s) λ s1. create_free rounds x h c msg code to s1

-- The address: the sender's nonce is read after it was incremented; `encode_int` refuses -1.
unfoldable pub new_address : Externals → Address → State → Result Address × State
new_address x sender s =
    let (nonce, s1) = get_nonce sender s in
    if is_constantinople s && sender == null_address
    then (ok (x.mk_contract_address sender 0), s)
    else if nonce == 0
    then (raised value_error, s1)
    else (ok (x.mk_contract_address sender (nonce - 1)), s1)

abbrev pub create_with :
    ℕ → Externals → Handlers → Context → Message → Result Address × State → Result Reply × State
create_with rounds x h c msg (raised e, s) = (raised e, s)
create_with rounds x h c msg (ok to, s) =
    create_at rounds x h c msg (extract_all msg.call_data) to s

unfoldable pub create_contract : ℕ → Externals → Handlers → Context → Handler
create_contract rounds x h c msg s = create_with rounds x h c msg (
    new_address x msg.sender
      (if c.tx_origin == msg.sender then s else increment_nonce msg.sender s))

-- `VMExt`: the handlers of nested messages, down to a depth.
unfoldable pub handlers : ℕ → Externals → Context → ℕ → Handlers
handlers rounds x c zero = record {
  msg = λ msg s. (raised out_of_fuel, s);
  create = λ msg s. (raised out_of_fuel, s);
}
handlers rounds x c (suc depth) =
    let h = handlers rounds x c depth in
    record { msg = apply_msg rounds x h c; create = create_contract rounds x h c }
