-- ===== src/Chain/Reorg/Rewritten.antt =====
-- What the rewriting of the index in `Chain.add_block` of ethereum/pow/chain.py leaves.
use shopper.Prelude.{
  ℕ, zero, suc, ◌+◌, max, ◌≤◌, ◌<◌, ◌≡◌, ◌≢◌, ◌⊎◌, refl, sym, ap, subst, ◌∙◌, Bool, true, false,
  ◌&&◌, not, if◌then◌else◌, Option, none, some, [], ◌∷◌, inl, inr, arith,
}
use shopper.Exceptions.{Result, ok}
use shopper.Dict.{Dict, lookup}
use shopper.Consensus.{Block}
use shopper.Chain.{ChainDb, Rules, has, get_block, get_blockhash_by_number}
use shopper.Chain.Reorg.{drop_old, put_new, rewrite, key_bound, rewrite_index}
use shopper.Chain.Reorg.Patched.{hash_of, with_index, IsPatched, drop_old_lem, put_new_lem}

-- What the loop relies on from height `i` on: the index leads to stored blocks, and a height
-- without a block has none above it.
pub record IsRewritable (i bound : ℕ) (new_chain : Dict Block) (db : ChainDb) : Type 0 where
  pub within :
      (n : ℕ) → bound ≤ n → i ≤ n → (lookup n db.index ≡ none) × (lookup n new_chain ≡ none)
  pub closed :
      (n m : ℕ)
      → i ≤ n
      → n ≤ m
      → lookup n db.index ≡ none
      → lookup n new_chain ≡ none
      → (lookup m db.index ≡ none) × (lookup m new_chain ≡ none)
  pub stored :
      (n h : ℕ) → i ≤ n → lookup n db.index ≡ some h → (b : Block) × (get_block db h ≡ some b)

IsRewritable-next :
    (i bound : ℕ) (new_chain : Dict Block) (db : ChainDb) (index : Dict ℕ) (p : Dict (ℕ × ℕ))
    → IsRewritable i bound new_chain db
    → ((n : ℕ) → n ≢ i → lookup n index ≡ lookup n db.index)
    → IsRewritable (i + 1) bound new_chain (with_index db index p)
unfolding get_block
IsRewritable-next i bound new_chain db index p r others = record {
  within = λ n high above. let (a, b) = r.within n high (omega arith) in (after n above ∙ a, b);
  closed = λ n m above up a b.
      let (c, d) = r.closed n m (omega arith) up (sym (after n above) ∙ a) b in
      (after m (omega arith) ∙ c, d);
  stored = λ n h above e. r.stored n h (omega arith) (sym (after n above) ∙ e);
}
  where
    after : (n : ℕ) → i + 1 ≤ n → lookup n index ≡ lookup n db.index
    after n above = others n (λ same. absurd (omega (arith, same)))

abbrev pub Rewritten : ℕ → Dict Block → ChainDb → Result (Unit {0}) × ChainDb → Type 0
Rewritten i new_chain db r =
    (index : Dict ℕ) × (p : Dict (ℕ × ℕ)) × (r ≡ (ok tt, with_index db index p))
    × ((n : ℕ) → n < i → lookup n index ≡ lookup n db.index)
    × ((n : ℕ) → i ≤ n → lookup n index ≡ hash_of (lookup n new_chain))

abbrev is_over : Option ℕ → Option Block → Bool
is_over orig new = not (has orig) && not (has new)

rewrite-turn :
    (fuel : ℕ) (x : Rules) (i : ℕ) (new_chain : Dict Block) (db db1 : ChainDb)
    → drop_old x i (lookup i db.index) db ≡ ok db1
    → rewrite (suc fuel) x i new_chain db ≡ (
        if is_over (lookup i db.index) (lookup i new_chain)
        then (ok tt, put_new x i (lookup i new_chain) db1)
        else rewrite fuel x (i + 1) new_chain (put_new x i (lookup i new_chain) db1))
unfolding rewrite get_blockhash_by_number
rewrite-turn fuel x i new_chain db db1 e = rw (e, rewrite) refl

is_over-cases :
    (orig : Option ℕ) (new : Option Block)
    → ((orig ≡ none) × (new ≡ none) × (is_over orig new ≡ true))
      ⊎ (((orig ≢ none) ⊎ (new ≢ none)) × (is_over orig new ≡ false))
is_over-cases none none = inl (refl, refl, refl)
is_over-cases none (some b) = inr (inr (λ e. ground arith), refl)
is_over-cases (some h) new = inr (inl (λ e. ground arith), refl)

-- A height is patched, and its transactions are moved.
patch_lem :
    (x : Rules) (i bound : ℕ) (new_chain : Dict Block) (db : ChainDb)
    → IsRewritable i bound new_chain db
    → (db1 : ChainDb) × (index : Dict ℕ) × (p : Dict (ℕ × ℕ)) × (drop_old x i (lookup i db.index) db
        ≡ ok db1)
      × (put_new x i (lookup i new_chain) db1 ≡ with_index db index p)
      × IsPatched i (hash_of (lookup i new_chain)) db.index index
patch_lem x i bound new_chain db r =
    let (index1, p1, dropped, (empty, others1)) =
      drop_old_lem x i db (lookup i db.index) refl (λ h e. r.stored i h (omega arith) e) in
    let (index, p, put, (at, others)) =
      put_new_lem x i (with_index db index1 p1) (lookup i new_chain) empty in
    (
      with_index db index1 p1,
      index,
      p,
      dropped,
      put,
      (at, λ n differ. others n differ ∙ others1 n differ),
    )

rewrite-Rewritten :
    (fuel : ℕ) (x : Rules) (i bound : ℕ) (new_chain : Dict Block) (db : ChainDb)
    → IsRewritable i bound new_chain db
    → bound < i + fuel
    → (i ≤ bound) ⊎ (0 < fuel)
    → Rewritten i new_chain db (rewrite fuel x i new_chain db)
rewrite-Rewritten zero x i bound new_chain db r enough some_left = absurd (omega arith)
rewrite-Rewritten (suc fuel) x i bound new_chain db r enough some_left =
    let (db1, index, p, dropped, put, (at, others)) = patch_lem x i bound new_chain db r in
    let turn = rewrite-turn fuel x i new_chain db db1 dropped in
    elim (is_over-cases (lookup i db.index) (lookup i new_chain)) [
      | inl (no_old, no_new, over) ↦ (
        index,
        p,
        turn ∙ rw over (ap (λ q. (ok tt, q)) put),
        λ n low. others n (λ same. absurd (omega (arith, same))),
        λ n high. ended index n high no_old no_new at others,
      )
      | inr (work, more) ↦
          (let below = inside work in
            let (index2, p2, e, low2, high2) =
              rewrite-Rewritten fuel x (i + 1) bound new_chain (with_index db index p)
                (IsRewritable-next i bound new_chain db index p r others) (omega arith)
                (inl (omega arith)) in
            (
              index2,
              p2,
              turn ∙ rw more (ap (λ q. rewrite fuel x (i + 1) new_chain q) put ∙ e),
              λ n low. low2 n (omega arith) ∙ others n (λ same. absurd (omega (arith, same))),
              λ n high. elim (ℕ_split i n high) [
                | inl same ↦
                    subst (λ q. lookup q index2 ≡ hash_of (lookup q new_chain)) same
                      (low2 i (omega arith) ∙ at)
                | inr above ↦ high2 n above
              ],
            ))
    ]
  where
    ℕ_split : (i n : ℕ) → i ≤ n → (i ≡ n) ⊎ (i + 1 ≤ n)
    ℕ_split i n h = omega arith

    lt_or_le : (i n : ℕ) → (i < n) ⊎ (n ≤ i)
    lt_or_le i n = omega arith

    inside : ((lookup i db.index ≢ none) ⊎ (lookup i new_chain ≢ none)) → i < bound
    inside work = elim (lt_or_le i bound) [
      | inl below ↦ below
      | inr out ↦ absurd (
          let (no_old, no_new) = r.within i out (omega arith) in
          elim work [ inl old ↦ old no_old | inr new ↦ new no_new ])
    ]

    ended :
        (index : Dict ℕ) (n : ℕ)
        → i ≤ n
        → lookup i db.index ≡ none
        → lookup i new_chain ≡ none
        → lookup i index ≡ hash_of (lookup i new_chain)
        → ((n : ℕ) → n ≢ i → lookup n index ≡ lookup n db.index)
        → lookup n index ≡ hash_of (lookup n new_chain)
    ended index n high no_old no_new at others =
        let (a, b) = r.closed i n (omega arith) high no_old no_new in
        elim (ℕ_split i n high) [
          | inl same ↦ subst (λ q. lookup q index ≡ hash_of (lookup q new_chain)) same at
          | inr above ↦ others n (λ same. absurd (omega (arith, same))) ∙ a ∙ sym (ap hash_of b)
        ]

lookup-key_bound {ℓ} : {V : Type ℓ} (d : Dict V) (n : ℕ) → key_bound d ≤ n → lookup n d ≡ none
unfolding key_bound lookup
lookup-key_bound [] n h = refl
lookup-key_bound ((k, v) ∷ d) n h = ground (arith, lookup-key_bound d n)

-- The loop comes to its end, with the new chain's hashes from its start on.
pub rewrite_index-Rewritten :
    (x : Rules) (new_chain : Dict Block) (from : ℕ) (db : ChainDb)
    → ((n m : ℕ)
        → from ≤ n
        → n ≤ m
        → lookup n db.index ≡ none
        → lookup n new_chain ≡ none
        → (lookup m db.index ≡ none) × (lookup m new_chain ≡ none))
    → ((n h : ℕ) → lookup n db.index ≡ some h → (b : Block) × (get_block db h ≡ some b))
    → Rewritten from new_chain db (rewrite_index x new_chain from db)
unfolding rewrite_index
rewrite_index-Rewritten x new_chain from db closed stored =
    let bound = max (key_bound db.index) (key_bound new_chain) in
    rewrite-Rewritten (bound + 1) x from bound new_chain db
      (record {
        within = λ n high above.
            (lookup-key_bound db.index n (omega arith), lookup-key_bound new_chain n (omega arith));
        closed = closed;
        stored = λ n h above e. stored n h e;
      })
      (omega arith) (inr (omega arith))
