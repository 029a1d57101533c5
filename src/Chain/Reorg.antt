-- ===== src/Chain/Reorg.antt =====
-- The part of `Chain.add_block` in ethereum/pow/chain.py that makes another branch the main chain:
-- the search for the common ancestor, and the rewriting of the index.
pub mod Patched
pub mod Rewritten
pub mod Ancestor
use shopper.Prelude.{
  ℕ, zero, suc, ◌+◌, max, Bool, true, false, ◌&&◌, not, ◌==◌, leb, if◌then◌else◌, Option, none,
  some, List, [], ◌∷◌,
}
use shopper.Exceptions.{Result, ok, raised, attribute_error, out_of_fuel}
use shopper.Dict.{Dict, lookup, insert, erase}
use shopper.Messages.{Transaction}
use shopper.Consensus.{Block}
use shopper.Chain.{ChainDb, Rules, Stored, has, get_block, get_parent, get_blockhash_by_number}
use shopper.Chain.Stored.{genesis_mark, body}

-- `tx.hash`
abbrev pub tx_hash : Rules → Transaction → ℕ
tx_hash x tx = x.externals.sha3 (x.hashing.encode_transaction tx)

unfoldable pub put_index : ℕ → ℕ → ChainDb → ChainDb
put_index number h db = record db { index = insert number h db.index }

-- `for i, tx in enumerate(transactions): self.db.put(b'txindex:' + tx.hash, ...)`
unfoldable pub put_txs : Rules → ℕ → ℕ → List Transaction → ChainDb → ChainDb
put_txs x number i [] db = db
put_txs x number i (tx ∷ txs) db =
    put_txs x number (i + 1) txs
      (record db { tx_positions = insert (tx_hash x tx) (number, i) db.tx_positions })

unfoldable pub delete_txs : Rules → List Transaction → ChainDb → ChainDb
delete_txs x [] db = db
delete_txs x (tx ∷ txs) db =
    delete_txs x txs (record db { tx_positions = erase (tx_hash x tx) db.tx_positions })

-- Is this block in the index?
abbrev pub is_at : Option ℕ → ℕ → Bool
is_at none h = false
is_at (some orig) h = orig == h

-- Where the parent is no stored block, or the genesis block, the walk ends.
abbrev pub climbed :
    Option Stored → Dict Block → Block → Result (Dict Block × Block) → Result (Dict Block × Block)
climbed (some (body p)) new_chain b rest = rest
climbed _ new_chain b rest = ok (new_chain, b)

-- The blocks from `b` back to one of the main chain, or to the first after the genesis block, by
-- number, and the last of them. The rounds are bounded by `fuel`.
unfoldable pub find_ancestor : ℕ → ChainDb → Option Block → Dict Block → Result (Dict Block × Block)
find_ancestor zero db b new_chain = raised out_of_fuel
find_ancestor (suc fuel) db none new_chain = raised attribute_error
find_ancestor (suc fuel) db (some b) new_chain =
    let with_b = insert b.header.number b new_chain in
    let rest = find_ancestor fuel db (get_parent db b) with_b in
    if not (leb db.genesis_number b.header.number)
    then ok (new_chain, b)
    else if is_at (get_blockhash_by_number db b.header.number) b.header.hash
    then ok (with_b, b)
    else climbed (lookup b.header.prevhash db.bodies) with_b b rest

-- The block that the index has at a height leaves the main chain.
abbrev pub drop_old : Rules → ℕ → Option ℕ → ChainDb → Result ChainDb
drop_old x i none db = ok db
drop_old x i (some orig) db = elim (get_block db orig) [
  | none ↦ raised attribute_error
  | some b ↦ ok (delete_txs x b.transactions (record db { index = erase i db.index }))
]

abbrev pub put_new : Rules → ℕ → Option Block → ChainDb → ChainDb
put_new x i none db = db
put_new x i (some b) db = put_txs x b.header.number 0 b.transactions (put_index i b.header.hash db)

-- The loop over the heights from `i` on, until one has neither an old nor a new block.
unfoldable pub rewrite : ℕ → Rules → ℕ → Dict Block → ChainDb → Result (Unit {0}) × ChainDb
rewrite zero x i new_chain db = (raised out_of_fuel, db)
rewrite (suc fuel) x i new_chain db =
    let orig = get_blockhash_by_number db i in
    let new = lookup i new_chain in
    elim (drop_old x i orig db) [
      | raised e ↦ (raised e, db)
      | ok db1 ↦
          (let db2 = put_new x i new db1 in
            let rest = rewrite fuel x (i + 1) new_chain db2 in
            if not (has orig) && not (has new) then (ok tt, db2) else rest)
    ]

-- A number above all keys.
unfoldable pub key_bound {ℓ} : {V : Type ℓ} → Dict V → ℕ
key_bound [] = 0
key_bound ((k, v) ∷ d) = max (k + 1) (key_bound d)

-- The rounds are one more than the heights that can have an old or a new block.
unfoldable pub rewrite_index : Rules → Dict Block → ℕ → ChainDb → Result (Unit {0}) × ChainDb
rewrite_index x new_chain from db =
    rewrite (max (key_bound db.index) (key_bound new_chain) + 1) x from new_chain db
