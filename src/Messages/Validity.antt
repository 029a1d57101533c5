-- ===== src/Messages/Validity.antt =====
-- Which transactions `validate_transaction` of ethereum/messages.py accepts.
use shopper.Prelude.{
  ℕ, ◌+◌, ◌*◌, ◌/◌, ◌≤◌, ◌<◌, ◌≡◌, ◌≢◌, ◌↔◌, ◌⊎◌, true, Option, none, some, ℤ, pos, negsuc, ◌+ℤ◌,
  ◌≤ℤ◌, arith,
}
use shopper.Exceptions.{ok}
use shopper.State.{State, account}
use shopper.Messages.{Transaction, null_address, secpk1n}
use shopper.Messages.Validation.{
  network_id, network_allowed, signature_allowed, intrinsic_gas_used,
  config_fork_specific_validation, validate_with, validate_transaction,
}

-- What a transaction must satisfy in a state.
pub record IsValid (s : State) (tx : Transaction) : Type 0 where
  pub signature_ok :
      ((s.config.constantinople_fork_blknum ≤ s.block_number) × (tx.s ≤ secpk1n / 2))
      ⊎ ((s.block_number < s.config.constantinople_fork_blknum)
          × (tx.sender ≢ null_address)
          × ((s.block_number < s.config.homestead_fork_blknum)
              ⊎ ((tx.s ≤ secpk1n / 2) × (0 < tx.s))))
  pub network_ok :
      (network_id tx ≡ none)
      ⊎ ((s.config.spurious_dragon_fork_blknum ≤ s.block_number)
          × (network_id tx ≡ some (pos s.config.network_id)))
  pub nonce_ok :
      ((tx.sender ≡ null_address) × (tx.nonce ≡ 0))
      ⊎ ((tx.sender ≢ null_address) × (tx.nonce ≡ (account tx.sender s).nonce))
  pub gas_ok : intrinsic_gas_used tx ≤ tx.startgas
  pub funds_ok : pos (tx.value + tx.gasprice * tx.startgas) ≤ℤ (account tx.sender s).balance
  pub block_gas_ok : s.gas_used +ℤ pos tx.startgas ≤ℤ pos s.gas_limit
  pub null_ok : (tx.sender ≢ null_address) ⊎ ((tx.value ≡ 0) × (tx.gasprice ≡ 0))

signature_allowed_iff :
    (s : State) (tx : Transaction)
    → (signature_allowed s.config s.block_number tx ≡ true) ↔ (
        ((s.config.constantinople_fork_blknum ≤ s.block_number) × (tx.s ≤ secpk1n / 2))
        ⊎ ((s.block_number < s.config.constantinople_fork_blknum)
            × (tx.sender ≢ null_address)
            × ((s.block_number < s.config.homestead_fork_blknum)
                ⊎ ((tx.s ≤ secpk1n / 2) × (0 < tx.s)))))
unfolding signature_allowed
signature_allowed_iff s tx = (λ h. ground arith, λ h. ground arith)

network_allowed_iff :
    (s : State) (i : Option ℤ)
    → (network_allowed s.config s.block_number i ≡ true) ↔ (
        (i ≡ none)
        ⊎ ((s.config.spurious_dragon_fork_blknum ≤ s.block_number)
            × (i ≡ some (pos s.config.network_id))))
unfolding network_allowed
network_allowed_iff s none = (λ h. ground arith, λ h. ground arith)
network_allowed_iff s (some (pos i)) = (λ h. ground arith, λ h. ground arith)
network_allowed_iff s (some (negsuc i)) = (λ h. ground arith, λ h. ground arith)

-- The checks of the fork pass exactly when the signature and the network are allowed.
fork_specific_iff :
    (s : State) (tx : Transaction)
    → (config_fork_specific_validation s.config s.block_number tx ≡ ok tt) ↔ (
        (signature_allowed s.config s.block_number tx ≡ true)
        × (network_allowed s.config s.block_number (network_id tx) ≡ true))
unfolding config_fork_specific_validation
fork_specific_iff s tx = (λ h. ground arith, λ h. ground arith)

-- The later checks pass exactly when nonce, gas, funds, block gas and null sender are in order.
validate_with_iff :
    (nonce : ℕ) (balance : ℤ) (s : State) (tx : Transaction)
    → (validate_with nonce balance s tx ≡ ok tt) ↔ (
        (((tx.sender ≡ null_address) × (tx.nonce ≡ 0))
          ⊎ ((tx.sender ≢ null_address) × (tx.nonce ≡ nonce)))
        × (intrinsic_gas_used tx ≤ tx.startgas)
        × (pos (tx.value + tx.gasprice * tx.startgas) ≤ℤ balance)
        × (s.gas_used +ℤ pos tx.startgas ≤ℤ pos s.gas_limit)
        × ((tx.sender ≢ null_address) ⊎ ((tx.value ≡ 0) × (tx.gasprice ≡ 0))))
unfolding validate_with
validate_with_iff nonce balance s tx = (λ h. ground arith, λ h. ground arith)

-- A transaction passes validation exactly when its signature is low where the fork asks for it,
-- its network is this one or none, its nonce is the sender's, its start gas covers the intrinsic
-- gas, the sender's balance covers value and gas, the block has the gas left, and, if the sender is
-- the null address, the fork allows that and value and gas price are zero.
pub validate_transaction_iff :
    (s : State) (tx : Transaction) → ((validate_transaction s tx).0 ≡ ok tt) ↔ IsValid s tx
unfolding validate_transaction
validate_transaction_iff s tx =
    let sig = signature_allowed_iff s tx in
    let net = network_allowed_iff s (network_id tx) in
    let fork = fork_specific_iff s tx in
    let rest = validate_with_iff (account tx.sender s).nonce (account tx.sender s).balance s tx in
    (λ h. ground (arith, sig, net, fork, rest), λ h. ground (arith, sig, net, fork, rest))
