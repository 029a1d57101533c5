-- ===== src/Consensus/Accepted/Kin.antt =====
-- The ancestors of a block that ethereum/pow/consensus.py looks among, by their places.
use shopper.Prelude.{
  ℕ, zero, suc, ◌+◌, ◌≤◌, ◌<◌, ◌≡◌, ◌↔◌, refl, sym, ap, ◌∙◌, true, false, ◌==◌, Option, some, List,
  [], ◌∷◌, take, drop, get_elem?, arith, inl, inr, Bool-cases, ==_iff, subst,
}
use shopper.Block.{Header}
use shopper.Vm.Code.{contains}
use shopper.Consensus.Uncles.{hashes, first_with}

-- The hash is that of the header at a place of a list.
abbrev pub HasHash : List Header → ℕ → ℕ → Type 0
HasHash l i h = (p : Header) × (get_elem? l i ≡ some p) × (p.hash ≡ h)

-- It is so at a place before a number.
abbrev pub IsHashIn : List Header → ℕ → ℕ → Type 0
IsHashIn l n h = (i : ℕ) × (i < n) × HasHash l i h

-- The first header with a hash, at its place before a number.
pub record IsFirst (l : List Header) (n h : ℕ) (p : Header) : Type 0 where
  pub place : ℕ
  pub near : place < n
  pub at : get_elem? l place ≡ some p
  pub named : p.hash ≡ h
  pub none_before : (i : ℕ) → i < place → ¬ HasHash l i h

pub contains-hashes :
    (h n : ℕ) (l : List Header) → (contains h (hashes (take n l)) ≡ true) ↔ IsHashIn l n h
unfolding contains
contains-hashes h zero l = (λ e. absurd (ground arith), λ (i, lt, at). absurd (omega arith))
contains-hashes h (suc n) [] =
    (λ e. absurd (ground arith), λ (i, lt, (p, at, same)). absurd (ground arith))
contains-hashes h (suc n) (x ∷ l) =
    let rest = contains-hashes h n l in
    (
      λ e. elim (Bool-cases (h == x.hash)) [
        | inl same ↦ (0, omega arith, (x, refl, ground arith))
        | inr other ↦ (let (i, lt, at) = rest.0 (ground arith) in (suc i, omega arith, at))
      ],
      λ (i, lt, at). found i lt at rest.1,
    )
  where
    found :
        (i : ℕ)
        → i < suc n
        → HasHash (x ∷ l) i h
        → (IsHashIn l n h → contains h (hashes (take n l)) ≡ true)
        → contains h (hashes (take (suc n) (x ∷ l))) ≡ true
    found zero lt (p, at, same) rest = ground arith
    found (suc i) lt at rest = let there = rest (i, omega arith, at) in ground arith

-- It is so at a place before a number other than the first: an ancestor older than the parent.
abbrev pub IsOlder : List Header → ℕ → ℕ → Type 0
IsOlder l n h = (i : ℕ) × (1 ≤ i) × (i < n) × HasHash l i h

contains-suc :
    (depth h : ℕ) (l : List Header)
    → (contains h (hashes (drop 1 (take (suc depth) l))) ≡ true) ↔ IsOlder l (suc depth) h
contains-suc depth h [] = (
  λ e. unfold contains in absurd (ground arith),
  λ (i, low, high, (p, at, same)). absurd (ground arith),
)
contains-suc depth h (x ∷ l) =
    let rest = contains-hashes h depth l in
    (
      λ e. let (i, lt, at) = rest.0 e in (suc i, omega arith, omega arith, at),
      λ (i, low, high, at). shifted i low high at rest.1,
    )
  where
    shifted :
        (i : ℕ)
        → 1 ≤ i
        → i < suc depth
        → HasHash (x ∷ l) i h
        → (IsHashIn l depth h → contains h (hashes (take depth l)) ≡ true)
        → contains h (hashes (take depth l)) ≡ true
    shifted zero low high at rest = absurd (omega arith)
    shifted (suc i) low high at rest = rest (i, omega arith, at)

pub contains-IsOlder :
    (depth h : ℕ) (l : List Header)
    → (contains h (hashes (drop 1 (take (depth + 1) l))) ≡ true) ↔ IsOlder l (depth + 1) h
contains-IsOlder depth h l =
    let next : suc depth ≡ depth + 1 = omega arith in
    subst (λ n. (contains h (hashes (drop 1 (take n l))) ≡ true) ↔ IsOlder l n h) next
      (contains-suc depth h l)

pub first_with_iff :
    (h n : ℕ) (l : List Header) (p : Header) → (first_with h (take n l) ≡ some p) ↔ IsFirst l n h p
unfolding first_with
first_with_iff h zero l p =
    (λ e. absurd (ground arith), λ f. absurd (let lt = f.near in omega arith))
first_with_iff h (suc n) [] p =
    (λ e. absurd (ground arith), λ f. absurd (let at = f.at in ground arith))
first_with_iff h (suc n) (x ∷ l) p =
    let rest = first_with_iff h n l p in
    (
      λ e. elim (Bool-cases (x.hash == h)) [
        | inl same ↦ record {
          place = 0;
          near = omega arith;
          at = ground arith;
          named =
              (let this : x ≡ p = ground arith in
                ap (λ (q : Header). q.hash) (sym this) ∙ (==_iff x.hash h).0 same);
          none_before = λ i lt k. absurd (omega arith);
        }
        | inr other ↦ further other (rest.0 (ground arith))
      ],
      λ f. back f.place f.near f.at f.named f.none_before rest.1,
    )
  where
    before :
        (x.hash == h) ≡ false
        → (f : IsFirst l n h p) → (i : ℕ) → i < suc f.place
        → ¬ HasHash (x ∷ l) i h
    before other f zero lt (q, at, same) =
        let here = ap (λ (o : Option Header). o) at in
        let this : x ≡ q = ground arith in
        let named = ap (λ (r : Header). r.hash) this ∙ same in ground arith
    before other f (suc i) lt k = f.none_before i (omega arith) k

    further : (x.hash == h) ≡ false → IsFirst l n h p → IsFirst (x ∷ l) (suc n) h p
    further other f = record {
      place = suc f.place;
      near = (let lt = f.near in omega arith);
      at = f.at;
      named = f.named;
      none_before = before other f;
    }

    back :
        (place : ℕ)
        → place < suc n
        → get_elem? (x ∷ l) place ≡ some p
        → p.hash ≡ h
        → ((i : ℕ) → i < place → ¬ HasHash (x ∷ l) i h)
        → (IsFirst l n h p → first_with h (take n l) ≡ some p)
        → first_with h (take (suc n) (x ∷ l)) ≡ some p
    back zero near at named before rest =
        let this : x ≡ p = ground arith in
        let same = ap (λ (r : Header). r.hash) this ∙ named in ground arith
    back (suc place) near at named before rest =
        let there = rest (record {
          place = place;
          near = omega arith;
          at = at;
          named = named;
          none_before = λ i lt k. before (suc i) (omega arith) k;
        }) in
        elim (Bool-cases (x.hash == h)) [
          | inl same ↦ absurd (before 0 (omega arith) (x, refl, (==_iff x.hash h).0 same))
          | inr other ↦ ground arith
        ]
