-- ===== src/Db/Overlaid.antt =====
-- `OverlayDB` of ethereum/db.py against the dictionary that it presents.
use shopper.Prelude.{
  ℕ, ◌≡◌, refl, ap, ◌∙◌, ◌==◌, if◌then◌else◌, Option, none, some, List, [], ◌∷◌, Bool-cases, inl,
  inr,
}
use shopper.Dict.{lookup, insert, lookup-insert}
use shopper.Db.{
  Bytes, EphemDb, found, get, OverlayDb, overlaid, overlay_get, overlay_put, overlay_delete,
}

-- A write to the overlay.
pub data Edit : Type 0 where
  assign : ℕ → Bytes → Edit
  unset : ℕ → Edit

-- The overlay after edits, the last one first.
unfoldable pub edited : EphemDb → List Edit → OverlayDb
edited db [] = record { db = db; overlay = [] }
edited db (assign k v ∷ es) = overlay_put k v (edited db es)
edited db (unset k ∷ es) = overlay_delete k (edited db es)

-- The dictionary after edits.
unfoldable pub contents : EphemDb → List Edit → ℕ → Option Bytes
contents db [] k = lookup k db
contents db (assign j v ∷ es) k = let rest = contents db es k in if j == k then some v else rest
contents db (unset j ∷ es) k = let rest = contents db es k in if j == k then none else rest

written :
    (o : OverlayDb) (j k : ℕ) (x : Option Bytes) (old : Option Bytes)
    → overlaid o.db k (lookup k o.overlay) ≡ found old
    → overlaid o.db k (lookup k (insert j x o.overlay)) ≡ found (if j == k then x else old)
written o j k none old h = elim (Bool-cases (j == k)) [
  | inl e ↦ ap (overlaid o.db k) (lookup-insert k j none o.overlay) ∙ rw e refl
  | inr e ↦ ap (overlaid o.db k) (lookup-insert k j none o.overlay) ∙ rw e h
]
written o j k (some v) old h = elim (Bool-cases (j == k)) [
  | inl e ↦ ap (overlaid o.db k) (lookup-insert k j (some v) o.overlay) ∙ rw e refl
  | inr e ↦ ap (overlaid o.db k) (lookup-insert k j (some v) o.overlay) ∙ rw e h
]

-- After any writes and deletions the overlay reads at every key as the dictionary does that they
-- make of the store below, and that store is as it was.
pub overlay_get-edited :
    (db : EphemDb) (es : List Edit)
    → ((k : ℕ) → overlay_get (edited db es) k ≡ found (contents db es k)) × ((edited db es).db ≡ db)
unfolding overlay_get edited contents overlay_put overlay_delete
overlay_get-edited db [] = (unfold get lookup in λ k. refl, refl)
overlay_get-edited db (assign j v ∷ es) =
    let (reads, same) = overlay_get-edited db es in
    (λ k. written (edited db es) j k (some v) (contents db es k) (reads k), same)
overlay_get-edited db (unset j ∷ es) =
    let (reads, same) = overlay_get-edited db es in
    (λ k. written (edited db es) j k none (contents db es k) (reads k), same)
