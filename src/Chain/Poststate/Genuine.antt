-- ===== src/Chain/Poststate/Genuine.antt =====
-- The previous headers of the state that `mk_poststate_of_blockhash` of ethereum/pow/chain.py makes.
use shopper.Prelude.{
  ℕ, zero, suc, ◌+◌, ◌≡◌, refl, sym, ap, subst, ◌∙◌, Bool, true, false, ltb, if◌then◌else◌, Option,
  none, some, List, [], ◌∷◌, ◌++◌, append_assoc, append-nil, arith,
}
use shopper.Exceptions.{Result, ok, raised, ◌>>=◌}
use shopper.Block.{Header}
use shopper.State.{State}
use shopper.Config.{Config}
use shopper.Consensus.{Block}
use shopper.Dict.{Dict, lookup}
use shopper.Chain.{ChainDb, Rules, Stored}
use shopper.Chain.Stored.{genesis_mark, body}
use shopper.Chain.Stores.{IsStore}
use shopper.Chain.Poststate.{
  Walk, visit, walk_back, step_back, before_genesis, ancestry, block_state, with_ancestry,
  poststate_of, stored_state, mk_poststate_of_blockhash,
}
use shopper.Chain.Adding.Genuine.{IsGenuine}

module _ (header_of : ℕ → Header) where
  headers-walk_back :
      (db : ChainDb) (number rounds i : ℕ) (b : Block) (w : Walk)
      → (l : List Header) × ((walk_back db number rounds i b w).headers ≡ w.headers ++ b.header ∷ l)
  unfolding walk_back visit
  headers-walk_back db number zero i b w = ([], refl)
  headers-walk_back db number (suc rounds) i b w =
      back (lookup b.header.prevhash db.bodies)
        λ p. headers-walk_back db number rounds (i + 1) p (visit number i b w)
    where
      next : Block → Walk → Walk
      next = walk_back db number rounds (i + 1)

      further :
          (w1 : Walk) (p : Block)
          → w1.headers ≡ w.headers ++ b.header ∷ []
          → (l : List Header) × ((next p w1).headers ≡ w1.headers ++ p.header ∷ l)
          → (l : List Header) × ((next p w1).headers ≡ w.headers ++ b.header ∷ l)
      further w1 p at (l, e) = (
        p.header ∷ l,
        e ∙ ap (λ q. q ++ p.header ∷ l) at ∙ append_assoc w.headers (b.header ∷ []) (p.header ∷ l),
      )

      back :
          (o : Option Stored)
          → ((p : Block)
              → (l : List Header) × ((next p (visit number i b w)).headers
                  ≡ (visit number i b w).headers ++ p.header ∷ l))
          → (l : List Header) × ((step_back next (visit number i b w) o).headers
              ≡ w.headers ++ b.header ∷ l)
      back none ih = ([], refl)
      back (some genesis_mark) ih = ([], refl)
      back (some (body p)) ih = further (visit number i b w) p refl (ih p)

  abbrev seen_of : Result (List Header × Dict (List ℕ)) → List Header
  seen_of (ok (l, u)) = l
  seen_of (raised e) = []

  headers-ancestry :
      (config : Config) (db : ChainDb) (number : ℕ) (w : Walk) (seen : List Header × Dict (List ℕ))
      → ancestry config db number w ≡ ok seen
      → (l : List Header) × (seen.0 ≡ w.headers ++ l)
  unfolding ancestry
  headers-ancestry config db number w seen e =
      either (ltb w.round config.prev_header_depth) (lookup w.last.header.prevhash db.bodies) e
    where
      either :
          (b : Bool) (o : Option Stored)
          → (if b then before_genesis config db number w o else ok (w.headers, w.uncles)) ≡ ok seen
          → (l : List Header) × (seen.0 ≡ w.headers ++ l)
      either false o e = (
        [],
        (let same : (w.headers, w.uncles) ≡ seen = ground arith in
            ap (λ q. q.0) (sym same) ∙ sym (append-nil w.headers)),
      )
      either true none e = absurd (ground arith)
      either true (some (body b)) e = absurd (ground arith)
      either true (some genesis_mark) e = (_, ap seen_of (sym e))

  ok-bind {ℓ} :
      {A : Type ℓ} (r : Result A) (f : A → State) (s : State)
      → (r >>= λ a. ok (f a)) ≡ ok s
      → (a : A) × (r ≡ ok a) × (f a ≡ s)
  ok-bind (raised e) f s h = absurd (ground arith)
  ok-bind (ok a) f s h = (a, refl, ground arith)

  poststate_of-IsGenuine :
      (x : Rules) (config : Config) (db : ChainDb) (b : Block) (s : State)
      → header_of b.header.hash ≡ b.header
      → poststate_of x config db b ≡ ok s
      → IsGenuine header_of s
  unfolding poststate_of
  poststate_of-IsGenuine x config db b s hashed e p l first =
      let begin : Walk = record { headers = []; uncles = []; last = b; round = 0 } in
      let w = walk_back db b.header.number config.prev_header_depth 0 b begin in
      let (seen, walked, same) =
        ok-bind (ancestry config db b.header.number w) (with_ancestry (block_state x config b)) s
          e in
      let (l1, e1) = headers-ancestry config db b.header.number w seen walked in
      let (l2, e2) = headers-walk_back db b.header.number config.prev_header_depth 0 b begin in
      let at : b.header ∷ (l2 ++ l1) ≡ p ∷ l =
        ap (λ q. q ++ l1) (sym e2) ∙ sym e1 ∙ ap (λ (q : State). q.prev_headers) same ∙ first in
      let here : b.header ≡ p = ground arith in
      subst (λ (q : Header). header_of q.hash ≡ q) here hashed

  -- The state after a stored block has its header first.
  pub mk_poststate-IsGenuine :
      (x : Rules) (config : Config) (db : ChainDb) (h : ℕ) (s : State)
      → IsStore header_of db
      → IsGenuine header_of db.genesis_state
      → mk_poststate_of_blockhash x config db h ≡ ok s
      → IsGenuine header_of s
  unfolding mk_poststate_of_blockhash
  mk_poststate-IsGenuine x config db h s store genesis e = go (lookup h db.bodies) refl e
    where
      go :
          (o : Option Stored)
          → lookup h db.bodies ≡ o
          → stored_state x config db o ≡ ok s
          → IsGenuine header_of s
      go none at e = absurd (ground arith)
      go (some genesis_mark) at e =
          let same : db.genesis_state ≡ s = ground arith in subst (IsGenuine header_of) same genesis
      go (some (body b)) at e =
          let (hash, fits) = store.linked h b at in
          poststate_of-IsGenuine x config db b s fits.hashed e
