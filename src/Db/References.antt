-- ===== src/Db/References.antt =====
-- `RefcountDB` of ethereum/db.py against the number of references to each key.
use shopper.Prelude.{
  ℕ, zero, suc, ◌+◌, ◌-◌, ◌^◌, ◌<◌, ◌≡◌, refl, sym, ap, ◌∙◌, subst, false, ◌==◌, if◌then◌else◌,
  List, [], ◌∷◌, arith, Bool-cases, inl, inr, ==_iff, drop,
}
use shopper.Exceptions.{Result, ok, raised, ◌>>=◌, key_error}
use shopper.Dict.{lookup}
use shopper.Db.{
  Bytes, EphemDb, get, found, refcount_put, refcount_delete, refcount_get, count_of, get_refcount,
}
use shopper.Db.Counted.{
  IsBigEndian, Holds, refcount_put-Holds, refcount_delete-Holds, take-count, drop-count,
}

-- A reference that is taken, or given up.
pub data Reference : Type 0 where
  take_up : ℕ → Reference
  give_up : ℕ → Reference

-- The references to a key after these, the last one first.
unfoldable pub references : List Reference → ℕ → ℕ
references [] k = 0
references (take_up j ∷ rs) k = let n = references rs k in if j == k then n + 1 else n
references (give_up j ∷ rs) k = let n = references rs k in if j == k then n - 1 else n

-- No reference is given up that was not taken, and none has more than four bytes count.
abbrev pub AreBalanced : List Reference → Type 0
AreBalanced [] = Unit
AreBalanced (take_up k ∷ rs) = (references rs k + 1 < 2 ^ 32) × AreBalanced rs
AreBalanced (give_up k ∷ rs) = (0 < references rs k) × (references rs k < 2 ^ 32) × AreBalanced rs

-- The store after these calls; every key has its own value.
unfoldable pub run : (ℕ → Bytes) → (ℕ → Bytes) → List Reference → Result EphemDb
run big value [] = ok []
run big value (take_up k ∷ rs) = run big value rs >>= λ db. refcount_put big k (value k) db
run big value (give_up k ∷ rs) = run big value rs >>= λ db. refcount_delete big k db

HoldsAll : EphemDb → (ℕ → Bytes) → (ℕ → ℕ) → Type 0
HoldsAll db value n = (k : ℕ) → Holds db k (value k) (n k)

-- A store in which one key changed.
Holds-spared :
    (db after : EphemDb) (k : ℕ) (v : Bytes) (n : ℕ)
    → lookup k after ≡ lookup k db
    → Holds db k v n
    → Holds after k v n
unfolding Holds
Holds-spared db after k v zero same h = same ∙ h
Holds-spared db after k v (suc n) same (b, c, h) = (b, c, same ∙ h)

module _ (big : ℕ → Bytes) (e : IsBigEndian big) (value : ℕ → Bytes) where
  HoldsAll-changed :
      (db after : EphemDb) (k : ℕ) (n m : ℕ → ℕ)
      → HoldsAll db value n
      → Holds after k (value k) (m k)
      → ((j : ℕ) → (k == j) ≡ false → lookup j after ≡ lookup j db)
      → ((j : ℕ) → (k == j) ≡ false → m j ≡ n j)
      → HoldsAll after value m
  unfolding HoldsAll
  HoldsAll-changed db after k n m all here spared same j = elim (Bool-cases (k == j)) [
    | inl eq ↦ subst (λ i. Holds after i (value i) (m i)) ((==_iff k j).0 eq) here
    | inr ne ↦
        subst (λ c. Holds after j (value j) c) (sym (same j ne))
          (Holds-spared db after j (value j) (n j) (spared j ne) (all j))
  ]

  run-HoldsAll :
      (rs : List Reference)
      → AreBalanced rs
      → (db : EphemDb) × (run big value rs ≡ ok db) × HoldsAll db value (references rs)
  unfolding run references HoldsAll
  run-HoldsAll [] h = ([], refl, unfold Holds lookup in λ k. refl)
  run-HoldsAll (take_up k ∷ rs) h =
      let (db, ran, all) = run-HoldsAll rs h.1 in
      let (after, put, here, spared) =
        refcount_put-Holds big e k (value k) (references rs k) db (all k) h.0 in
      let counted : suc (references rs k) ≡ references (take_up k ∷ rs) k =
        rw ((==_iff k k).1 refl) (omega arith) in
      (
        after,
        ap (λ r. r >>= λ d. refcount_put big k (value k) d) ran ∙ put,
        HoldsAll-changed db after k (references rs) (references (take_up k ∷ rs)) all
            (subst (Holds after k (value k)) counted here) spared (λ j ne. rw ne refl),
      )
  run-HoldsAll (give_up k ∷ rs) h =
      let (db, ran, all) = run-HoldsAll rs h.2 in
      let n = references rs k - 1 in
      let before : references rs k ≡ suc n = omega (arith, h.0) in
      let (after, deleted, here, spared) =
        refcount_delete-Holds big e k (value k) n db (subst (Holds db k (value k)) before (all k))
          (omega (arith, h.1, before)) in
      let counted : n ≡ references (give_up k ∷ rs) k = rw ((==_iff k k).1 refl) refl in
      (
        after,
        ap (λ r. r >>= λ d. refcount_delete big k d) ran ∙ deleted,
        HoldsAll-changed db after k (references rs) (references (give_up k ∷ rs)) all
            (subst (Holds after k (value k)) counted here) spared (λ j ne. rw ne refl),
      )

-- What a store that holds references to a value says of its key.
Holds-reads :
    (db : EphemDb) (k : ℕ) (v : Bytes) (n : ℕ)
    → Holds db k v n
    → (get_refcount db k ≡ n) × (refcount_get db k ≡ (if n == 0 then raised key_error else ok v))
unfolding Holds get_refcount refcount_get get
Holds-reads db k v zero h = (ap count_of h, ap (λ o. found o >>= λ x. ok (drop 4 x)) h)
Holds-reads db k v (suc n) (b, c, h) =
    let some_left : (suc n == 0) ≡ false = ground arith in
    (
      ap count_of h ∙ rw (take-count b v c.0) c.2,
      ap (λ o. found o >>= λ x. ok (drop 4 x)) h ∙ rw (drop-count b v c.0, some_left) refl,
    )

-- After any calls of put and delete in which no reference is given up that was not taken, and none
-- is taken past the four bytes of the count, the store is there; it counts for every key the
-- references taken less those given up, and it gives the value of a key as long as one is left.
pub run-references :
    (big : ℕ → Bytes) (value : ℕ → Bytes) (rs : List Reference)
    → IsBigEndian big
    → AreBalanced rs
    → (db : EphemDb) × (run big value rs ≡ ok db)
      × ((k : ℕ)
          → (get_refcount db k ≡ references rs k)
            × (refcount_get db k
                ≡ (if references rs k == 0 then raised key_error else ok (value k))))
unfolding HoldsAll
run-references big value rs e h =
    let (db, ran, all) = run-HoldsAll big e value rs h in
    (db, ran, λ k. Holds-reads db k (value k) (references rs k) (all k))
