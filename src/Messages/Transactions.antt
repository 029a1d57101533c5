-- ===== src/Messages/Transactions.antt =====
-- `mk_receipt` and `apply_transaction` of ethereum/messages.py.
pub mod Gas
use shopper.Prelude.{
  ℕ, ◌+◌, ◌-◌, ◌*◌, bit_or, Bool, true, false, not, ◌&&◌, ◌||◌, ltb, leb, ◌==◌, if◌then◌else◌,
  Option, none, some, List, [], ◌∷◌, length, ℤ, pos, ◌+ℤ◌, ◌-ℤ◌, ◌*ℤ◌, ltb_ℤ, min_ℤ, floor_div,
}
use shopper.Exceptions.{Result, ok, raised, ◌>>◌, assertion_error, insufficient_start_gas}
use shopper.Opcodes.{Op, fee, gsuiciderefund}
use shopper.State.{Address, Log, Receipt, ReceiptRoot, Param, State, is_homestead, is_metropolis}
use shopper.State.Ops.{
  increment_nonce, delta_balance, set_balance, del_account, add_receipt, set_param, or_else,
}
use shopper.State.Snapshots.{commit}
use shopper.Vm.{Message, Reply, Context, Externals}
use shopper.Vm.Code.{contains}
use shopper.Messages.{Transaction, null_address, secpk1n}
use shopper.Messages.Apply.{apply_msg, create_contract, handlers}
use shopper.Messages.Validation.{intrinsic_gas_used, validate_transaction, require}

-- `bloom_of` is the bloom filter of the logs.
unfoldable pub mk_receipt : (List Log → ℕ) → State → Bool → List Log → Receipt
mk_receipt bloom_of s success logs = record {
  state_root = if is_metropolis s then ReceiptRoot.status success else ReceiptRoot.root s.root;
  gas_used = s.gas_used;
  bloom = bloom_of logs;
  logs = logs;
}

-- `len(set(addresses))`
unfoldable pub count_distinct : List Address → ℕ
unfolding contains
count_distinct [] = 0
count_distinct (a ∷ l) = (if contains a l then 0 else 1) + count_distinct l

-- `VMExt.__init__`, what it takes from the block and the transaction
abbrev pub context_of : State → Transaction → Context
context_of s tx = record {
  tx_origin = tx.sender;
  tx_gasprice = tx.gasprice;
  block_coinbase = s.block_coinbase;
  block_timestamp = s.timestamp;
  block_number = s.block_number;
  block_difficulty = s.block_difficulty;
  block_gas_limit = s.gas_limit;
}

abbrev pub message_of : Transaction → ℕ → Message
message_of tx intrinsic_gas = record {
  sender = tx.sender;
  to = or_else tx.to 0;
  value = tx.value;
  gas = pos (tx.startgas - intrinsic_gas);
  call_data = record { bytes = tx.bytes; offset = 0; size = length tx.bytes };
  depth = 0;
  code_address = tx.to;
  is_create = false;
  transfers_value = true;
  static = false;
}

abbrev pub clear : State → State
clear s = record s { vars = record s.vars { logs = []; suicides = []; refunds = 0 } }

abbrev is_none {ℓ} : {A : Type ℓ} → Option A → Bool
is_none none = true
is_none (some a) = false

-- The gas that is taken before the message runs.
unfoldable pub intrinsic_gas : State → Transaction → ℕ
unfolding intrinsic_gas_used fee
intrinsic_gas s tx =
    if is_homestead s && is_none tx.to
    then intrinsic_gas_used tx + fee Op.create
    else intrinsic_gas_used tx

-- The checks between validation and the message.
unfoldable pub check_start : State → Transaction → Result (Unit {0})
unfolding intrinsic_gas
check_start s tx =
    require (not (is_homestead s) || ltb (tx.s * 2) secpk1n) assertion_error
    >> require (leb (intrinsic_gas s tx) tx.startgas) insufficient_start_gas

-- The sender and the block's coinbase are paid.
unfoldable pub pay : Transaction → ℤ → ℤ → State → State
unfolding delta_balance
pay tx gas_remained gas_used s =
    delta_balance s.block_coinbase (pos tx.gasprice *ℤ gas_used)
      (delta_balance tx.sender (pos tx.gasprice *ℤ gas_remained) s)

abbrev set_refunds : ℕ → State → State
set_refunds n s = record s { vars = record s.vars { refunds = n } }

-- The refund: as much as was earned, but at most half of the gas used.
unfoldable pub refund_of : ℕ → ℤ → ℤ
refund_of refunds gas_used =
    if ltb 0 refunds then min_ℤ (pos refunds) (floor_div gas_used 2) else pos 0

unfoldable pub settle : Transaction → Reply → State → ℤ × State
settle tx r s =
    let gas_used = pos tx.startgas -ℤ r.gas in
    let refunds = s.refunds + count_distinct s.suicides * gsuiciderefund in
    let refund = refund_of refunds gas_used in
    if r.success
    then (gas_used -ℤ refund, pay tx (r.gas +ℤ refund) (gas_used -ℤ refund) (set_refunds 0 s))
    else (gas_used, pay tx r.gas gas_used s)

-- `for s in suicides: ...`
unfoldable pub delete_suicides : List Address → State → State
unfolding set_balance del_account
delete_suicides [] s = s
delete_suicides (a ∷ l) s = delete_suicides l (del_account a (set_balance a (pos 0) s))

-- From the settlement on.
unfoldable pub finish_transaction :
    (List Log → ℕ) → Transaction → Result Reply × State → Result (Bool × List ℕ) × State
finish_transaction bloom_of tx (raised e, s) = (raised e, s)
finish_transaction bloom_of tx (ok r, s) =
    let (gas_used, s1) = settle tx r s in
    let used = record s1 {
      vars = record s1.vars { gas_used = s1.gas_used +ℤ gas_used; suicides = [] };
    } in
    let s2 = delete_suicides s1.suicides used in
    let s3 = if is_metropolis s2 then s2 else commit false s2 in
    let receipt = mk_receipt bloom_of s3 r.success s3.logs in
    let s4 = add_receipt receipt (record s3 { vars = record s3.vars { logs = [] } }) in
    let s5 = set_param (Param.bloom (bit_or s4.bloom receipt.bloom)) s4 in
    let s6 = set_param (Param.txindex (s5.txindex + 1)) s5 in
    if ltb_ℤ r.gas (pos 0)
    then (raised assertion_error, s)
    else (ok (r.success, if r.success then r.output else []), s6)

-- The nonce is raised and the gas bought, then the message runs.
unfoldable pub run_transaction : ℕ → ℕ → Externals → Transaction → State → Result Reply × State
run_transaction rounds depth x tx s =
    let s1 = if tx.sender == null_address then s else increment_nonce tx.sender s in
    let s2 = delta_balance tx.sender (pos 0 -ℤ pos (tx.startgas * tx.gasprice)) s1 in
    let c = context_of s2 tx in
    let h = handlers rounds x c depth in
    let msg = message_of tx (intrinsic_gas s tx) in
    elim tx.to [
      | none ↦ create_contract rounds x h c msg s2
      | some a ↦ apply_msg rounds x h c msg s2
    ]

abbrev pub begin :
    (List Log → ℕ)
    → ℕ
    → ℕ
    → Externals
    → Transaction
    → Result (Unit {0})
    → State
    → Result (Bool × List ℕ) × State
begin bloom_of rounds depth x tx (raised e) s = (raised e, s)
begin bloom_of rounds depth x tx (ok _) s =
    finish_transaction bloom_of tx (run_transaction rounds depth x tx s)

-- `apply_transaction`. The assertion that the startgas can be paid always holds after validation.
unfoldable pub apply_transaction :
    (List Log → ℕ) → ℕ → ℕ → Externals → Transaction → State → Result (Bool × List ℕ) × State
apply_transaction bloom_of rounds depth x tx s =
    let (valid, s1) = validate_transaction (clear s) tx in
    begin bloom_of rounds depth x tx (valid >> check_start s1 tx) s1
