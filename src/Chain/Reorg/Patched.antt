-- ===== src/Chain/Reorg/Patched.antt =====
-- One height of the index that `Chain.add_block` of ethereum/pow/chain.py rewrites.
use shopper.Prelude.{ℕ, ◌+◌, ◌≡◌, ◌≢◌, refl, ap, Option, none, some, List, [], ◌∷◌}
use shopper.Exceptions.{ok}
use shopper.Dict.{
  Dict, lookup, insert, erase, lookup-insert_same, lookup-insert_other, lookup-erase_same,
  lookup-erase_other,
}
use shopper.Messages.{Transaction}
use shopper.Consensus.{Block}
use shopper.Chain.{ChainDb, Rules, get_block}
use shopper.Chain.Reorg.{put_index, put_txs, delete_txs, drop_old, put_new, tx_hash}

-- The hash that the index should have at a height.
abbrev pub hash_of : Option Block → Option ℕ
hash_of none = none
hash_of (some b) = some b.header.hash

-- Only the index and the transactions' positions differ.
abbrev pub with_index : ChainDb → Dict ℕ → Dict (ℕ × ℕ) → ChainDb
with_index db index positions = record db { index = index; tx_positions = positions }

pub put_txs_lem :
    (x : Rules) (number i : ℕ) (txs : List Transaction) (db : ChainDb)
    → (p : Dict (ℕ × ℕ)) × (put_txs x number i txs db ≡ record db { tx_positions = p })
unfolding put_txs
put_txs_lem x number i [] db = (db.tx_positions, refl)
put_txs_lem x number i (tx ∷ txs) db =
    put_txs_lem x number (i + 1) txs
      (record db { tx_positions = insert (tx_hash x tx) (number, i) db.tx_positions })

delete_txs_lem :
    (x : Rules) (txs : List Transaction) (db : ChainDb)
    → (p : Dict (ℕ × ℕ)) × (delete_txs x txs db ≡ record db { tx_positions = p })
unfolding delete_txs
delete_txs_lem x [] db = (db.tx_positions, refl)
delete_txs_lem x (tx ∷ txs) db =
    delete_txs_lem x txs (record db { tx_positions = erase (tx_hash x tx) db.tx_positions })

-- An index that has `new` at `i` and is otherwise as before.
abbrev pub IsPatched : ℕ → Option ℕ → Dict ℕ → Dict ℕ → Type 0
IsPatched i new index index1 =
    (lookup i index1 ≡ new) × ((n : ℕ) → n ≢ i → lookup n index1 ≡ lookup n index)

pub drop_old_lem :
    (x : Rules) (i : ℕ) (db : ChainDb) (orig : Option ℕ)
    → lookup i db.index ≡ orig
    → ((h : ℕ) → orig ≡ some h → (b : Block) × (get_block db h ≡ some b))
    → (index : Dict ℕ) × (p : Dict (ℕ × ℕ)) × (drop_old x i orig db ≡ ok (with_index db index p))
      × IsPatched i none db.index index
drop_old_lem x i db none at stored = (db.index, db.tx_positions, refl, (at, λ n differ. refl))
drop_old_lem x i db (some h) at stored =
    let (b, there) = stored h refl in
    let (p, same) = delete_txs_lem x b.transactions (record db { index = erase i db.index }) in
    (
      erase i db.index,
      p,
      rw (there, drop_old) (ap ok same),
      (lookup-erase_same i db.index, λ n differ. lookup-erase_other n i db.index differ),
    )

pub put_new_lem :
    (x : Rules) (i : ℕ) (db : ChainDb) (new : Option Block)
    → lookup i db.index ≡ none
    → (index : Dict ℕ) × (p : Dict (ℕ × ℕ)) × (put_new x i new db ≡ with_index db index p)
      × IsPatched i (hash_of new) db.index index
unfolding put_index
put_new_lem x i db none empty = (db.index, db.tx_positions, refl, (empty, λ n differ. refl))
put_new_lem x i db (some b) empty =
    let (p, same) = put_txs_lem x b.header.number 0 b.transactions (put_index i b.header.hash db) in
    (
      insert i b.header.hash db.index,
      p,
      same,
      (
        lookup-insert_same i b.header.hash db.index,
        λ n differ. lookup-insert_other n i b.header.hash db.index differ,
      ),
    )
