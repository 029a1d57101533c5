-- ===== src/Opcodes/Prices.antt =====
-- ethereum/opcodes.py: the prices beside the base fees.
use shopper.Prelude.{ℕ}

abbrev pub gmemory : ℕ
gmemory = 3

abbrev pub gquadraticmemdenom : ℕ
gquadraticmemdenom = 512

abbrev pub gexponentbyte : ℕ
gexponentbyte = 10

abbrev pub gcopy : ℕ
gcopy = 3

abbrev pub gcontractbyte : ℕ
gcontractbyte = 200

abbrev pub gcallvaluetransfer : ℕ
gcallvaluetransfer = 9000

abbrev pub glogbyte : ℕ
glogbyte = 8

abbrev pub gtxcost : ℕ
gtxcost = 21000

abbrev pub gtxdatazero : ℕ
gtxdatazero = 4

abbrev pub gtxdatanonzero : ℕ
gtxdatanonzero = 68

abbrev pub gsha3word : ℕ
gsha3word = 6

abbrev pub gstipend : ℕ
gstipend = 2300

abbrev pub gcallnewaccount : ℕ
gcallnewaccount = 25000

abbrev pub gsuiciderefund : ℕ
gsuiciderefund = 24000

abbrev pub gstoragerefund : ℕ
gstoragerefund = 15000

abbrev pub gstoragekill : ℕ
gstoragekill = 5000

abbrev pub gstoragemod : ℕ
gstoragemod = 5000

abbrev pub gstorageadd : ℕ
gstorageadd = 20000

abbrev pub exp_supplemental_gas : ℕ
exp_supplemental_gas = 40

abbrev pub sload_supplemental_gas : ℕ
sload_supplemental_gas = 150

abbrev pub call_supplemental_gas : ℕ
call_supplemental_gas = 660

abbrev pub extcodeload_supplemental_gas : ℕ
extcodeload_supplemental_gas = 680

abbrev pub balance_supplemental_gas : ℕ
balance_supplemental_gas = 380

abbrev pub call_child_limit_denom : ℕ
call_child_limit_denom = 64

abbrev pub suicide_supplemental_gas : ℕ
suicide_supplemental_gas = 5000
