-- ===== src/Tests/Rejections.antt =====
-- A transaction that is rejected (ethereum/messages.py) at a fixed input: its nonce was used before.
use shopper.Prelude.{◌≡◌, refl}
use shopper.Exceptions.{raised, invalid_nonce}
use shopper.Dict.{lookup}
use shopper.State.{account, stored_account}
use shopper.Messages.Validation.{
  network_id, network_allowed, signature_allowed, config_fork_specific_validation, validate_with,
  validate_transaction,
}
use shopper.Messages.Transactions.{apply_transaction}
use shopper.Messages.Rejected.{IsUntouched, apply_transaction-rejected}
use shopper.Tests.States.{start}
use shopper.Tests.Failures.{externals}
use shopper.Tests.Endings.{transfer}

nonce_is_used : (validate_transaction start transfer).0 ≡ raised invalid_nonce
unfolding validate_transaction config_fork_specific_validation signature_allowed network_allowed
    network_id validate_with account stored_account lookup
nonce_is_used = refl

apply_transaction-rejected_example :
    ((apply_transaction (λ logs. 0) 30001 1024 externals transfer start).0 ≡ raised invalid_nonce)
    × IsUntouched start (apply_transaction (λ logs. 0) 30001 1024 externals transfer start).1
apply_transaction-rejected_example =
    apply_transaction-rejected (λ logs. 0) 30001 1024 externals transfer start invalid_nonce
      nonce_is_used
