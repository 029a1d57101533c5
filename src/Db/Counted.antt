-- ===== src/Db/Counted.antt =====
-- `RefcountDB` of ethereum/db.py counts references.
use shopper.Prelude.{
  ℕ, zero, suc, ◌+◌, ◌-◌, ◌^◌, ◌≤◌, ◌<◌, ◌≡◌, refl, sym, ap, ◌∙◌, subst, false, ◌==◌, none, some,
  [], ◌∷◌, ◌++◌, length, take, drop, replicate, All, list_eq, list_eq_iff, arith, ==_iff,
}
use shopper.Exceptions.{ok}
use shopper.Dict.{lookup, erase, lookup-insert, lookup-erase}
use shopper.Vm.Memory.{bytes_to_int, bytes_to_int_from}
use shopper.Db.{
  Bytes, EphemDb, put, delete, removed, zpad, one, add1, sub1, counted_put, refcount_put,
  counted_delete, refcount_delete,
}

-- `int_to_big_endian` as documented, for numbers of at most four bytes: the bytes of a number, and
-- no more of them than it needs.
pub record IsBigEndian (big : ℕ → Bytes) : Type 0 where
  pub reads : (n : ℕ) → n < 2 ^ 32 → bytes_to_int (big n) ≡ n
  pub bytes : (n : ℕ) → n < 2 ^ 32 → All (λ b. b < 256) (big n)
  pub short : (n : ℕ) → n < 2 ^ 32 → length (big n) ≤ 4

-- Four bytes that read as a count.
abbrev pub IsCount : Bytes → ℕ → Type 0
IsCount b n = (length b ≡ 4) × All (λ x. x < 256) b × (bytes_to_int b ≡ n)

bytes-padded : (k : ℕ) (x : Bytes) → bytes_to_int (replicate k 0 ++ x) ≡ bytes_to_int x
unfolding bytes_to_int bytes_to_int_from
bytes-padded zero x = refl
bytes-padded (suc k) x = bytes-padded k x

All-padded : (k : ℕ) (x : Bytes) → All (λ b. b < 256) x → All (λ b. b < 256) (replicate k 0 ++ x)
All-padded zero x h = h
All-padded (suc k) x h = (omega arith, All-padded k x h)

length-padded : (k : ℕ) (x : Bytes) → length (replicate k 0 ++ x) ≡ k + length x
length-padded zero x = omega arith
length-padded (suc k) x = omega (arith, length-padded k x)

zpad-IsCount : (big : ℕ → Bytes) (n : ℕ) → IsBigEndian big → n < 2 ^ 32 → IsCount (zpad (big n) 4) n
unfolding zpad
zpad-IsCount big n e lt =
    let k = 4 - length (big n) in
    (
      omega (arith, length-padded k (big n), e.short n lt),
      All-padded k (big n) (e.bytes n lt),
      bytes-padded k (big n) ∙ e.reads n lt,
    )

one-IsCount : IsCount one 1
unfolding bytes_to_int bytes_to_int_from
one-IsCount = (refl, (omega arith, (omega arith, (omega arith, (omega arith, tt)))), refl)

-- The count is one exactly for the bytes that the source compares with.
is_one : (b : Bytes) (n : ℕ) → IsCount b n → list_eq b one ≡ (n == 1)
unfolding bytes_to_int bytes_to_int_from
is_one [] n h = absurd (omega (arith, h.0))
is_one (a ∷ []) n h = absurd (omega (arith, h.0))
is_one (a ∷ b ∷ []) n h = absurd (omega (arith, h.0))
is_one (a ∷ b ∷ c ∷ []) n h = absurd (omega (arith, h.0))
is_one (a ∷ b ∷ c ∷ d ∷ []) n h = let read = h.2 in ground arith
is_one (a ∷ b ∷ c ∷ d ∷ x ∷ l) n h = absurd (omega (arith, h.0))

take-append : (b v : Bytes) → take (length b) (b ++ v) ≡ b
take-append [] v = refl
take-append (x ∷ b) v = ap (λ l. x ∷ l) (take-append b v)

drop-append : (b v : Bytes) → drop (length b) (b ++ v) ≡ v
drop-append [] v = refl
drop-append (x ∷ b) v = drop-append b v

pub take-count : (b v : Bytes) → length b ≡ 4 → take 4 (b ++ v) ≡ b
take-count b v h = subst (λ n. take n (b ++ v) ≡ b) h (take-append b v)

pub drop-count : (b v : Bytes) → length b ≡ 4 → drop 4 (b ++ v) ≡ v
drop-count b v h = subst (λ n. drop n (b ++ v) ≡ v) h (drop-append b v)

-- A store that holds so many references to a value: without one, nothing.
unfoldable pub Holds : EphemDb → ℕ → Bytes → ℕ → Type 0
Holds db k v zero = lookup k db ≡ none
Holds db k v (suc n) = (b : Bytes) × IsCount b (suc n) × (lookup k db ≡ some (b ++ v))

-- The other keys are as they were.
abbrev Spares : ℕ → EphemDb → EphemDb → Type 0
Spares k db after = (j : ℕ) → (k == j) ≡ false → lookup j after ≡ lookup j db

module _ (big : ℕ → Bytes) (e : IsBigEndian big) where
  put-Spares : (k : ℕ) (x : Bytes) (db : EphemDb) → Spares k db (put k x db)
  unfolding put
  put-Spares k x db j ne = lookup-insert j k x db ∙ rw ne refl

  put-here : (k : ℕ) (x : Bytes) (db : EphemDb) → lookup k (put k x db) ≡ some x
  unfolding put
  put-here k x db = lookup-insert k k x db ∙ rw ((==_iff k k).1 refl) refl

  add1-IsCount : (b : Bytes) (n : ℕ) → IsCount b n → n + 1 < 2 ^ 32 → IsCount (add1 big b) (n + 1)
  unfolding add1
  add1-IsCount b n c lt =
      subst (λ m. IsCount (zpad (big (m + 1)) 4) (n + 1)) (sym c.2) (zpad-IsCount big (n + 1) e lt)

  sub1-IsCount : (b : Bytes) (n : ℕ) → IsCount b n → n < 2 ^ 32 → IsCount (sub1 big b) (n - 1)
  unfolding sub1
  sub1-IsCount b n c lt =
      subst (λ m. IsCount (zpad (big (m - 1)) 4) (n - 1)) (sym c.2)
        (zpad-IsCount big (n - 1) e (omega arith))

  pub refcount_put-Holds :
      (k : ℕ) (v : Bytes) (n : ℕ) (db : EphemDb)
      → Holds db k v n
      → n + 1 < 2 ^ 32
      → (after : EphemDb) × (refcount_put big k v db ≡ ok after)
        × Holds after k v (suc n)
        × Spares k db after
  unfolding refcount_put Holds
  refcount_put-Holds k v zero db h lt = (
    put k (one ++ v) db,
    ap (counted_put big k v db) h,
    (one, one-IsCount, put-here k (one ++ v) db),
    put-Spares k (one ++ v) db,
  )
  refcount_put-Holds k v (suc n) db (b, c, h) lt =
      let next = add1 big b in
      let same : suc n + 1 ≡ suc (suc n) = omega arith in
      (
        put k (next ++ v) db,
        ap (counted_put big k v db) h
            ∙ rw (drop-count b v c.0, take-count b v c.0, (list_eq_iff v v).1 refl) refl,
        (next, subst (IsCount next) same (add1-IsCount b (suc n) c lt), put-here k (next ++ v) db),
        put-Spares k (next ++ v) db,
      )

  delete-Spares : (k : ℕ) (db : EphemDb) → Spares k db (erase k db)
  delete-Spares k db j ne = lookup-erase j k db ∙ rw ne refl

  -- The last reference takes the value with it.
  pub refcount_delete-Holds :
      (k : ℕ) (v : Bytes) (n : ℕ) (db : EphemDb)
      → Holds db k v (suc n)
      → suc n < 2 ^ 32
      → (after : EphemDb) × (refcount_delete big k db ≡ ok after)
        × Holds after k v n
        × Spares k db after
  unfolding refcount_delete delete Holds
  refcount_delete-Holds k v zero db (b, c, h) lt = (
    erase k db,
    ap (counted_delete big k db) h ∙ rw (take-count b v c.0, is_one b 1 c) (ap (removed k db) h),
    lookup-erase k k db ∙ rw ((==_iff k k).1 refl) refl,
    delete-Spares k db,
  )
  refcount_delete-Holds k v (suc n) db (b, c, h) lt =
      let next = sub1 big b in
      let many : (suc (suc n) == 1) ≡ false = ground arith in
      let same : suc (suc n) - 1 ≡ suc n = omega arith in
      (
        put k (next ++ v) db,
        ap (counted_delete big k db) h
            ∙ rw (take-count b v c.0, drop-count b v c.0, is_one b (suc (suc n)) c, many) refl,
        (
          next,
          subst (IsCount next) same (sub1-IsCount b (suc (suc n)) c lt),
          put-here k (next ++ v) db,
        ),
        put-Spares k (next ++ v) db,
      )
