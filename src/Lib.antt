-- ===== src/Lib.antt =====
-- A model of the Ethereum library under ethereum/, and what is proved of it.
--
-- The parts and how they interact. A chain takes blocks; a block's header is checked against its
-- parent (ethereum/common.py), and its transactions are applied one by one
-- (ethereum/messages.py). A transaction is validated, its gas is bought, and its message runs: it
-- moves value, runs code on the virtual machine (ethereum/vm.py, with the table and prices of
-- ethereum/opcodes.py), and is reverted when it fails. The machine calls back into the messages
-- for nested calls and creations. All of them change the state (ethereum/state.py), which keeps
-- accounts in a cache over the trie and journals an undo step for every change.
--
-- The files:
--   Prelude       shared names, Boolean tests, lists and signed integers
--   Exceptions    ethereum/exceptions.py; `Result` is a value or what was raised
--   Config        default_config of ethereum/config.py, and in ChildDaos the accounts of
--                 ethereum/child_dao_list.py; Block: BlockHeader of ethereum/block.py
--   Common        ethereum/common.py: gas limit, difficulty, validate_header
--   Compress      ethereum/compress.py
--   Dict          dictionaries as sorted association lists
--   State         ethereum/state.py: data here; Ops the operations; Snapshots snapshot, revert and
--                 commit; Undo, Journal, Revert, Journaled and Transfer the proofs
--   Opcodes       ethereum/opcodes.py: the base fees here, Table the operations, Prices the rest
--   Vm            ethereum/vm.py: Memory gas, memory and call data; Code preprocess_code; Alu, Env,
--                 Flow, Calls, Calls/Endings the groups of operations; Loop vm_execute
--                 Gas the proofs that gas falls, Heights that the stack stays within 1024 items
--   Messages      ethereum/messages.py and ethereum/transactions.py: Apply _apply_msg and
--                 create_contract; Validation validate_transaction; Transactions apply_transaction;
--                 Validity and Rejected the proofs on validation, Journaled that failing messages
--                 change nothing, Settled that every transaction ends
--   Trie          ethereum/trie.py: nodes and _get here; Nibbles and Compact the keys; Update,
--                 Delete and Walk the operations; History the class as a mapping; Lookup, Removed,
--                 Deleted, Invariant, Busy and Listing the proofs
--   Db            ethereum/db.py; Counted, References and Overlaid the proofs
--   TransactionQueue  ethereum/transaction_queue.py; Popped the proofs
--   Consensus     ethereum/pow/consensus.py, ethereum/meta.py and the rest of ethereum/common.py:
--                 Uncles, Rewards, Blocks and Candidates the operations; Accepted, Applied,
--                 Endings and Filled the proofs
--   Chain         ethereum/pow/chain.py: its state and what it reads here; Scores get_score;
--                 Poststate mk_poststate_of_blockhash; Reorg the rewriting of the index; Adding
--                 add_block and process_time_queue; Stores, Scored, Index, Listing, TimeQueue and
--                 the children of Reorg and Adding the proofs
--   Tests         runs at fixed inputs, and the theorems at concrete inputs
--
-- How the code is rendered. A byte string is the list of its bytes, an address the number it
-- reads as, a 256-bit word a number with its `% 2 ^ 256` written out. Gas and balances are signed,
-- as Python's integers are: gas can fall below zero where the code does not check it. A method
-- that changes the state takes it and returns it. An operation of the machine returns an outcome
-- (go on, return, raise) and the state. The journal holds undo steps as data, where the source
-- holds closures. To the state a trie is the dictionary of its contents, and its root hash is that
-- dictionary; Trie models the trie itself, whose nodes are kept with their children.
--
-- Bounds. A few numbers bound what Python does not: the rounds of the machine's loop, in which
-- every operation that does not end the code has a price, so that rounds beyond the gas are not
-- reached; the depth of nested messages, which the machine itself stops at 1024; the rounds of the
-- chain's searches through ancestors, one more than the number of the block they start at; the
-- rounds of its time queue, one more than the blocks in it; and the levels of `add_block`, which
-- calls itself for the blocks that waited for a block, an argument `depth`. Where one runs out the
-- model raises `out_of_fuel`, which no source exception is. The results below say that rounds
-- beyond the gas, a depth of 1024 and the rounds of the chain are enough; of the levels they say
-- that one is enough for a block that no other waits for.
--
-- Parameters. Hashes, RLP encodings, the addresses of new contracts, and the precompiled contracts
-- of ethereum/specials.py are fields of `Externals`; the bloom filter of a receipt's logs is an
-- argument, as are the addresses of contracts to the default configuration; a transaction carries
-- the sender that its signature yields. `Hashing` holds the root hashes and the proof-of-work test of
-- blocks, `Heapq` the library of that name, `ChainView` what a miner asks the chain. `Rules` bundles
-- them for the chain, with random numbers and the contents of the trie under a root hash.
--
-- Not modelled: the trie's nodes in a database, the chain's change logs and pruning, genesis files,
-- the bloom filter, the ABI, whose fractions are floating-point numbers, and Casper; ethash, the
-- second virtual machine (ethereum/fastvm.py), logging, keys and tools, which are hash
-- computations, experiments and glue.
pub mod Prelude
pub mod Exceptions
pub mod Config
pub mod Block
pub mod Common
pub mod Compress
pub mod Dict
pub mod State
pub mod Opcodes
pub mod Vm
pub mod Messages
pub mod Trie
pub mod Db
pub mod Consensus
pub mod TransactionQueue
pub mod Chain
pub mod Tests
