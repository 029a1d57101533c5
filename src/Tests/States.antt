-- ===== src/Tests/States.antt =====
-- The state's journal (ethereum/state.py) at fixed inputs.
use shopper.Prelude.{ℕ, ◌==◌, if◌then◌else◌, ◌≡◌, refl, inl, [], ◌∷◌, arith, pos, ◌+ℤ◌, ◌-ℤ◌}
use shopper.Exceptions.{ok}
use shopper.Config.{Config, default_config}
use shopper.Dict.{lookup, insert}
use shopper.State.{
  State, Vars, AccountData, account, stored_account, cache_account, put_account, set_and_journal,
}
use shopper.State.Ops.{get_balance, set_storage_data, transfer_value, del_account}
use shopper.State.Snapshots.{snapshot, revert}
use shopper.State.Undo.{SameState}
use shopper.State.Transfer.{balance-transfer_value}
use shopper.State.Revert.{Calls, done, call, write_storage, transfer, delete, revert-snapshot}

abbrev pub vars0 : Vars
vars0 = record {
  txindex = 0;
  gas_used = pos 0;
  gas_limit = 3141592;
  block_number = 100;
  block_coinbase = 9;
  block_difficulty = 1;
  timestamp = 0;
  logs = [];
  receipts = [];
  bloom = 0;
  suicides = [];
  recent_uncles = [];
  prev_headers = [];
  refunds = 0;
}

abbrev alice : AccountData
alice = record { nonce = 1; balance = pos 50; storage = (7, 70) ∷ []; code = [] }

abbrev pub no_contracts : ℕ → ℕ → ℕ
no_contracts maker nonce = 0

abbrev pub main_config : Config
main_config = default_config no_contracts

abbrev pub start : State
start = record {
  config = main_config;
  root = (1, alice) ∷ [];
  vars = vars0;
  cache = [];
  journal = [];
}

abbrev after_transfer : State
after_transfer = (transfer_value 1 2 (pos 20) start).1

abbrev after_write : State
after_write = set_storage_data 1 7 71 after_transfer

abbrev after_delete : State
after_delete = del_account 1 after_write

after_delete-Calls : Calls start after_delete
after_delete-Calls =
    call (call (call done (transfer 1 2 (pos 20) start)) (write_storage 1 7 71 after_transfer))
      (delete 1 after_write)

deleted_balance : (account 1 after_delete).balance ≡ pos 0
unfolding account stored_account cache_account put_account set_and_journal lookup insert
    set_storage_data transfer_value del_account ◌+ℤ◌ ◌-ℤ◌
deleted_balance = refl

revert-snapshot_example :
    (s' : State) × (revert (snapshot start) after_delete ≡ ok s')
    × SameState start s'
    × (s'.vars ≡ start.vars)
    × (s'.journal ≡ start.journal)
revert-snapshot_example = revert-snapshot after_delete-Calls (inl (omega arith))

balance-transfer_value_example : (account 1 after_transfer).balance ≡ (
    if 1 == 2
    then (account 2 start).balance +ℤ pos 20
    else if 1 == 1
    then (account 1 start).balance -ℤ pos 20
    else (account 1 start).balance)
balance-transfer_value_example =
    balance-transfer_value 1 2 1 (pos 20) start after_transfer (ground arith) (
      unfold transfer_value get_balance cache_account put_account account lookup insert
        stored_account in
      refl)
