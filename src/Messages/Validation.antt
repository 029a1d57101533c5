-- ===== src/Messages/Validation.antt =====
-- `config_fork_specific_validation` and `validate_transaction` of ethereum/messages.py, with the
-- checks of ethereum/transactions.py that they call.
use shopper.Prelude.{
  ℕ, ◌+◌, ◌-◌, ◌*◌, ◌/◌, Bool, true, false, not, ◌&&◌, ◌||◌, leb, ◌==◌, if◌then◌else◌, Option, none,
  some, List, [], ◌∷◌, ℤ, pos, ◌+ℤ◌, sub_ℕ, eqb_ℤ, leb_ℤ,
}
use shopper.Exceptions.{
  Exn, Result, ok, raised, ◌>>◌, invalid_transaction, invalid_nonce, insufficient_start_gas,
  insufficient_balance, block_gas_limit_reached,
}
use shopper.Config.{Config}
use shopper.Opcodes.{gtxcost, gtxdatazero, gtxdatanonzero}
use shopper.State.{State, account, cache_account}
use shopper.Messages.{Transaction, null_address, secpk1n}

-- `Transaction.network_id`
unfoldable pub network_id : Transaction → Option ℤ
network_id tx =
    if tx.r == 0 && tx.s == 0
    then some (pos tx.v)
    else if tx.v == 27 || tx.v == 28
    then none
    else some (sub_ℕ ((tx.v - 1) / 2) 17)

-- What a transaction's data costs, byte by byte.
unfoldable pub data_gas : List ℕ → ℕ
data_gas [] = 0
data_gas (b ∷ bs) = (if b == 0 then gtxdatazero else gtxdatanonzero) + data_gas bs

unfoldable pub intrinsic_gas_used : Transaction → ℕ
unfolding data_gas
intrinsic_gas_used tx = gtxcost + data_gas tx.bytes

abbrev pub require : Bool → Exn → Result (Unit {0})
require true e = ok tt
require false e = raised e

-- `tx.network_id in (None, config["NETWORK_ID"])`, and before the spurious dragon fork only None.
unfoldable pub network_allowed : Config → ℕ → Option ℤ → Bool
network_allowed config blknum none = true
network_allowed config blknum (some i) =
    leb config.spurious_dragon_fork_blknum blknum && eqb_ℤ i (pos config.network_id)

-- The checks of the signature's `s`, and of the null sender, by fork.
unfoldable pub signature_allowed : Config → ℕ → Transaction → Bool
signature_allowed config blknum tx =
    let low = leb tx.s (secpk1n / 2) in
    if leb config.constantinople_fork_blknum blknum
    then low
    else not (tx.sender == null_address)
      && (not (leb config.homestead_fork_blknum blknum) || (low && not (tx.s == 0)))

unfoldable pub config_fork_specific_validation : Config → ℕ → Transaction → Result (Unit {0})
unfolding network_id network_allowed signature_allowed
config_fork_specific_validation config blknum tx =
    require (signature_allowed config blknum tx) invalid_transaction
    >> require (network_allowed config blknum (network_id tx)) invalid_transaction

-- The checks from (2) on, against the sender's nonce and balance.
unfoldable pub validate_with : ℕ → ℤ → State → Transaction → Result (Unit {0})
unfolding intrinsic_gas_used
validate_with nonce balance s tx =
    let is_null = tx.sender == null_address in
    require ((if is_null then 0 else nonce) == tx.nonce) invalid_nonce
    >> require (leb (intrinsic_gas_used tx) tx.startgas) insufficient_start_gas
    >> require (leb_ℤ (pos (tx.value + tx.gasprice * tx.startgas)) balance) insufficient_balance
    >> require (leb_ℤ (s.gas_used +ℤ pos tx.startgas) (pos s.gas_limit)) block_gas_limit_reached
    >> require (not is_null || (tx.value == 0 && tx.gasprice == 0)) invalid_transaction

-- `validate_transaction`. Where it raises, the state it leaves has at most the sender's account in
-- the cache as well, as it has here.
unfoldable pub validate_transaction : State → Transaction → Result (Unit {0}) × State
validate_transaction s tx =
    let acct = account tx.sender s in
    (
      config_fork_specific_validation s.config s.block_number tx
          >> validate_with acct.nonce acct.balance s tx,
      cache_account tx.sender s,
    )
