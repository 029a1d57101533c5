-- ===== src/Tests/Stores.antt =====
-- The stores of ethereum/db.py at fixed inputs.
use shopper.Prelude.{ℕ, ◌≡◌, ◌==◌, if◌then◌else◌, List, [], ◌∷◌, arith}
use shopper.Exceptions.{ok, raised, key_error}
use shopper.Vm.Memory.{bytes_to_int, bytes_to_int_from, to_bytes}
use shopper.Db.{Bytes, EphemDb, found, get_refcount, refcount_get, overlay_get}
use shopper.Db.Counted.{IsBigEndian}
use shopper.Db.References.{
  Reference, take_up, give_up, references, AreBalanced, run, run-references,
}
use shopper.Db.Overlaid.{assign, unset, edited, contents, overlay_get-edited}

overlay_get-edited_example :
    ((k : ℕ)
      → overlay_get (edited ((1, 10 ∷ []) ∷ []) (unset 1 ∷ assign 2 (20 ∷ []) ∷ [])) k
        ≡ found (contents ((1, 10 ∷ []) ∷ []) (unset 1 ∷ assign 2 (20 ∷ []) ∷ []) k))
    × ((edited ((1, 10 ∷ []) ∷ []) (unset 1 ∷ assign 2 (20 ∷ []) ∷ [])).db ≡ (1, 10 ∷ []) ∷ [])
overlay_get-edited_example =
    overlay_get-edited ((1, 10 ∷ []) ∷ []) (unset 1 ∷ assign 2 (20 ∷ []) ∷ [])

-- Always four bytes, which are enough here.
abbrev big_endian : ℕ → Bytes
big_endian n = to_bytes 4 n

big_endian-IsBigEndian : IsBigEndian big_endian
unfolding to_bytes bytes_to_int bytes_to_int_from
big_endian-IsBigEndian = record {
  reads = λ n lt. omega arith;
  bytes = λ n lt. (omega arith, (omega arith, (omega arith, (omega arith, tt))));
  short = λ n lt. omega arith;
}

-- The node is stored twice, and given up once.
abbrev shared : List Reference
shared = give_up 7 ∷ take_up 7 ∷ take_up 8 ∷ take_up 7 ∷ []

shared-AreBalanced : AreBalanced shared
unfolding references
shared-AreBalanced = (omega arith, omega arith, (omega arith, (omega arith, (omega arith, tt))))

run-references_example :
    (db : EphemDb) × (run big_endian (λ k. k ∷ []) shared ≡ ok db)
    × ((k : ℕ)
        → (get_refcount db k ≡ references shared k)
          × (refcount_get db k
              ≡ (if references shared k == 0 then raised key_error else ok (k ∷ []))))
run-references_example =
    run-references big_endian (λ k. k ∷ []) shared big_endian-IsBigEndian shared-AreBalanced
