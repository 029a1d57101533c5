-- ===== src/Db.antt =====
-- ethereum/db.py: the stores that a trie is kept in. A key is the number that its bytes read as.
pub mod Counted
pub mod References
pub mod Overlaid
use shopper.Prelude.{
  ℕ, ◌+◌, ◌-◌, Bool, true, false, ◌==◌, if◌then◌else◌, Option, none, some, List, [], ◌∷◌, ◌++◌,
  length, take, drop, replicate, list_eq,
}
use shopper.Exceptions.{Result, ok, raised, ◌>>=◌, key_error, assertion_error}
use shopper.Dict.{Dict, lookup, insert, erase}
use shopper.Vm.Memory.{bytes_to_int}

abbrev pub Bytes : Type 0
Bytes = List ℕ

-- `_EphemDB`
abbrev pub EphemDb : Type 0
EphemDb = Dict Bytes

abbrev pub found : {A : Type 0} → Option A → Result A
found none = raised key_error
found (some v) = ok v

unfoldable pub get : EphemDb → ℕ → Result Bytes
get db key = found (lookup key db)

unfoldable pub put : ℕ → Bytes → EphemDb → EphemDb
put key value db = insert key value db

abbrev pub removed : ℕ → EphemDb → Option Bytes → Result EphemDb
removed key db none = raised key_error
removed key db (some v) = ok (erase key db)

unfoldable pub delete : ℕ → EphemDb → Result EphemDb
delete key db = removed key db (lookup key db)

-- `OverlayDB`: `none` in the overlay is a deletion.
pub record OverlayDb : Type 0 where
  pub db : EphemDb
  pub overlay : Dict (Option Bytes)

abbrev pub overlaid : EphemDb → ℕ → Option (Option Bytes) → Result Bytes
overlaid db key none = get db key
overlaid db key (some none) = raised key_error
overlaid db key (some (some v)) = ok v

unfoldable pub overlay_get : OverlayDb → ℕ → Result Bytes
overlay_get o key = overlaid o.db key (lookup key o.overlay)

unfoldable pub overlay_put : ℕ → Bytes → OverlayDb → OverlayDb
overlay_put key value o = record o { overlay = insert key (some value) o.overlay }

unfoldable pub overlay_delete : ℕ → OverlayDb → OverlayDb
overlay_delete key o = record o { overlay = insert key none o.overlay }

-- `utils.zpad`
unfoldable pub zpad : Bytes → ℕ → Bytes
zpad x l = replicate (l - length x) 0 ++ x

abbrev pub one : Bytes
one = 0 ∷ 0 ∷ 0 ∷ 1 ∷ []

-- `RefcountDB` over an `_EphemDB`: four bytes of count before the value. `int_to_big_endian` is the
-- library function.
module _ (int_to_big_endian : ℕ → Bytes) where
  unfoldable pub add1 : Bytes → Bytes
  add1 b = zpad (int_to_big_endian (bytes_to_int b + 1)) 4

  unfoldable pub sub1 : Bytes → Bytes
  sub1 b = zpad (int_to_big_endian (bytes_to_int b - 1)) 4

  abbrev pub counted_put : ℕ → Bytes → EphemDb → Option Bytes → Result EphemDb
  counted_put key value db none = ok (put key (one ++ value) db)
  counted_put key value db (some existing) =
      if list_eq (drop 4 existing) value
      then ok (put key (add1 (take 4 existing) ++ value) db)
      else raised assertion_error

  unfoldable pub refcount_put : ℕ → Bytes → EphemDb → Result EphemDb
  refcount_put key value db = counted_put key value db (lookup key db)

  abbrev pub counted_delete : ℕ → EphemDb → Option Bytes → Result EphemDb
  counted_delete key db none = raised key_error
  counted_delete key db (some existing) =
      if list_eq (take 4 existing) one
      then delete key db
      else ok (put key (sub1 (take 4 existing) ++ drop 4 existing) db)

  unfoldable pub refcount_delete : ℕ → EphemDb → Result EphemDb
  refcount_delete key db = counted_delete key db (lookup key db)

unfoldable pub refcount_get : EphemDb → ℕ → Result Bytes
refcount_get db key = get db key >>= λ v. ok (drop 4 v)

abbrev pub count_of : Option Bytes → ℕ
count_of none = 0
count_of (some v) = bytes_to_int (take 4 v)

unfoldable pub get_refcount : EphemDb → ℕ → ℕ
get_refcount db key = count_of (lookup key db)
