-- ===== src/Chain/Adding/Reorganized.antt =====
-- What `Chain.add_block` of ethereum/pow/chain.py leaves when a branch becomes the main chain.
use shopper.Prelude.{
  ℕ, suc, ◌+◌, ◌-◌, ◌≤◌, ◌<◌, ◌≡◌, ◌⊎◌, refl, sym, ap, subst, ◌∙◌, true, none, some, [], inl, inr,
  arith, Option-cases,
}
use shopper.Exceptions.{ok}
use shopper.Dict.{Dict, lookup}
use shopper.Block.{Header}
use shopper.State.{State}
use shopper.Consensus.{Block}
use shopper.Chain.{Chain, Rules, decode_block, get_block}
use shopper.Chain.Stores.{Fits}
use shopper.Chain.Index.{begun, IsMain-some, Down-some, IsMain-Down, IsMain-same}
use shopper.Chain.Reorg.{find_ancestor}
use shopper.Chain.Reorg.Patched.{hash_of, with_index}
use shopper.Chain.Reorg.Rewritten.{rewrite_index-Rewritten}
use shopper.Chain.Reorg.Ancestor.{IsBranch, find_ancestor-Branched}
use shopper.Chain.Adding.{replaced, reorganized, reorganize}
use shopper.Chain.Adding.Kept.{IsChain, Heads}

lt_or_le : (i n : ℕ) → (i < n) ⊎ (n ≤ i)
lt_or_le i n = omega arith

module _ (header_of : ℕ → Header) where
  -- The branch of a block becomes the main chain.
  pub reorganize-Heads :
      (x : Rules) (block : Block) (t : State) (c : Chain)
      → IsChain header_of c
      → Fits header_of c.db block
      → (c1 : Chain) × (reorganize x block t c ≡ (ok true, c1))
        × Heads header_of block c c1
        × (c1.state ≡ t)
  unfolding reorganize Heads
  reorganize-Heads x block t c i fits =
      let (new_chain, b, found, br) = branch in
      let from = b.header.number in
      let (index, p, rewritten, low, high) =
        rewrite_index-Rewritten x new_chain from c.db (closed new_chain b br) i.indexed in
      (
        record c { db = with_index c.db index p; head_hash = block.header.hash; state = t },
        ap (reorganized x block t c) found ∙ ap (replaced block t c) rewritten,
        (
          index,
          c.db.scores,
          p,
          c.draws,
          t,
          refl,
          i.scored,
          record {
            height = suc m;
            main =
                IsMain-Down header_of g root index br.down
                  (λ j a up at. high (g + suc j) (omega (arith, br.number, up)) ∙ ap hash_of at)
                  (IsMain-same header_of g root c.db.index index br.height b.header.prevhash
                    (λ n under. low n (omega (arith, br.number, under))) br.main);
            top = λ n above.
                high n (omega (arith, br.number, br.low, above))
                ∙ ap hash_of (br.nothing_above n above);
          },
          λ n h at. elim (lt_or_le n from) [
            | inl under ↦ inr (i.indexed n h (sym (low n under) ∙ at))
            | inr up ↦ of_hash new_chain b br n h (sym (high n up) ∙ at)
          ],
          λ j u at. at,
        ),
        refl,
      )
    where
      g : ℕ
      g = c.db.genesis_number

      root : ℕ
      root = c.db.genesis.header.hash

      m : ℕ
      m = block.header.number - g - 1

      number : block.header.number ≡ g + suc m
      number = omega (arith, fits.above_genesis)

      Known : ℕ → Type 0
      Known h = (h ≡ block.header.hash) ⊎ ((b : Block) × (get_block c.db h ≡ some b))

      nothing : (a : Block) → none ≡ some a → ⊥
      nothing a at = ground arith

      branch :
          (new_chain : Dict Block) × (b : Block) × (find_ancestor
              (block.header.number + 2)
              c.db
              (some block)
              []
            ≡ ok (new_chain, b))
          × IsBranch header_of Known c.db (suc m) block.header.hash new_chain b
      branch =
          find_ancestor-Branched header_of Known (block.header.number + 2) c.db c.head_hash (suc m)
            block.header.hash m block [] i.store i.index fits number (omega arith) begun
            (λ n above. unfold lookup in refl) (λ n a at. absurd (unfold lookup in nothing a at))
            (inl refl) (λ h a at. inr (a, unfold get_block in ap (decode_block c.db.genesis) at))
            (omega arith)

      closed :
          (new_chain : Dict Block) (b : Block)
          → IsBranch header_of Known c.db (suc m) block.header.hash new_chain b
          → (n j : ℕ) → b.header.number ≤ n
          → n ≤ j
          → lookup n c.db.index ≡ none
          → lookup n new_chain ≡ none
          → (lookup j c.db.index ≡ none) × (lookup j new_chain ≡ none)
      closed new_chain b br n j low up no_old no_new =
          let above_new : g + suc m < n = elim (lt_or_le (g + suc m) n) [
            | inl above ↦ above
            | inr under ↦ absurd (
                Down-some header_of g root (n - g - 1) br.down (omega (arith, br.number, low))
                  (omega (arith, br.number, low, under))
                  (ap (λ q. lookup q new_chain) (omega (arith, br.number, low)) ∙ no_new))
          ] in
          let above_old : g + i.index.height < n = elim (lt_or_le (g + i.index.height) n) [
            | inl above ↦ above
            | inr under ↦ absurd (
                IsMain-some header_of g root c.db.index i.index.height c.head_hash (n - g - 1)
                  i.index.main (omega (arith, br.number, low, under))
                  (ap (λ q. lookup q c.db.index) (omega (arith, br.number, low)) ∙ no_old))
          ] in
          (i.index.top j (omega arith), br.nothing_above j (omega arith))

      of_hash :
          (new_chain : Dict Block) (b : Block)
          → IsBranch header_of Known c.db (suc m) block.header.hash new_chain b
          → (n h : ℕ) → hash_of (lookup n new_chain) ≡ some h
          → Known h
      of_hash new_chain b br n h at = elim (Option-cases (lookup n new_chain)) [
        | inl absent ↦ absurd (let both = sym (ap hash_of absent) ∙ at in ground arith)
        | inr (a, there) ↦
            (let same : a.header.hash ≡ h =
                (let both = sym (ap hash_of there) ∙ at in ground arith) in
              subst Known same (br.each n a there))
      ]
