-- ===== src/Chain/Adding/Genuine.antt =====
-- The previous headers of the states that `Chain.add_block` of ethereum/pow/chain.py applies
-- blocks to, and what they say of the block's number.
use shopper.Prelude.{
  ℕ, ◌+◌, ◌≡◌, refl, sym, ap, subst, ◌∙◌, Bool, true, false, if◌then◌else◌, some, List, [], ◌∷◌, ℤ,
  arith,
}
use shopper.Exceptions.{ok, raised, ◌>>=◌}
use shopper.Block.{Header}
use shopper.State.{
  Address, State, Log, at_dao_fork, account, put_account, cache_account, set_and_journal,
}
use shopper.State.Ops.{transfer_value, get_balance, delta_balance, set_balance, add_block_header}
use shopper.Config.{Config}
use shopper.Common.Validation.{validate_header, validate_header_iff}
use shopper.Vm.{Externals}
use shopper.Consensus.{Block, Hashing}
use shopper.Consensus.Blocks.{
  Step, and_then, update_block_env_variables, withdraw_dao, started, initialize, apply_block,
}
use shopper.Consensus.Applied.{apply_block-ok}

prev_headers-transfer_value :
    (f t : Address) (v : ℤ) (s : State) → (transfer_value f t v s).1.prev_headers ≡ s.prev_headers
unfolding transfer_value get_balance delta_balance set_balance cache_account put_account
    set_and_journal
prev_headers-transfer_value f t v s = ground arith

prev_headers-and_then :
    (r : Step) (k : State → Step) (l : List Header)
    → r.1.prev_headers ≡ l
    → ((s : State) → s.prev_headers ≡ l → (k s).1.prev_headers ≡ l)
    → (and_then r k).1.prev_headers ≡ l
prev_headers-and_then (raised e, s) k l at next = at
prev_headers-and_then (ok _, s) k l at next = next s at

prev_headers-if :
    (b : Bool) (p q : Step) (l : List Header)
    → p.1.prev_headers ≡ l
    → q.1.prev_headers ≡ l
    → (if b then p else q).1.prev_headers ≡ l
prev_headers-if true p q l left right = left
prev_headers-if false p q l left right = right

prev_headers-withdraw_dao :
    (to : Address) (l : List Address) (s : State)
    → (withdraw_dao to l s).1.prev_headers ≡ s.prev_headers
unfolding withdraw_dao get_balance cache_account put_account
prev_headers-withdraw_dao to [] s = refl
prev_headers-withdraw_dao to (acct ∷ l) s =
    let (r, s2) = transfer_value acct to (account acct s).balance (cache_account acct s) in
    prev_headers-and_then ((r >>= λ made. ok tt), s2) (λ s3. withdraw_dao to l s3) s.prev_headers
      (prev_headers-transfer_value acct to (account acct s).balance (cache_account acct s))
      (λ s3 same. prev_headers-withdraw_dao to l s3 ∙ same)

prev_headers-initialize :
    (block : Block) (s : State) → (initialize (some block) s).1.prev_headers ≡ s.prev_headers
unfolding initialize started update_block_env_variables
prev_headers-initialize block s =
    let s1 = started (some block) s in
    prev_headers-if (at_dao_fork s1)
      (withdraw_dao s1.config.dao_withdrawer s1.config.child_dao_list s1) (ok tt, s1) s.prev_headers
      (prev_headers-withdraw_dao s1.config.dao_withdrawer s1.config.child_dao_list s1) refl

-- The block on top of the first of the previous headers.
header-applied :
    (blank number : ℕ) (config : Config) (prev : List Header) (header : Header)
    → validate_header blank prev number config header ≡ ok tt
    → (p : Header) × (l : List Header) × (prev ≡ p ∷ l)
      × (header.prevhash ≡ p.hash)
      × (header.number ≡ p.number + 1)
unfolding validate_header
header-applied blank number config [] header e = ground arith
header-applied blank number config (p ∷ l) header e =
    let child = (validate_header_iff blank p l number config header).0 e in
    (p, l, refl, child.0.links, child.0.successor)

module _ (header_of : ℕ → Header) where
  -- The first of the previous headers is the one that its hash is of.
  abbrev pub IsGenuine : State → Type 0
  IsGenuine s = (p : Header) (l : List Header) → s.prev_headers ≡ p ∷ l → header_of p.hash ≡ p

  -- A block that is applied has the number after its parent's.
  pub apply_block-successor :
      (x : Hashing) (bloom_of : List Log → ℕ) (e : Externals) (block : Block) (s t : State)
      → apply_block x bloom_of e block s ≡ (ok tt, t)
      → IsGenuine s
      → block.header.number ≡ (header_of block.header.prevhash).number + 1
  apply_block-successor x bloom_of e block s t h genuine =
      let a = apply_block-ok x bloom_of e block s t h in
      let s1 = a.started in
      let (p, l, first, links, successor) =
        header-applied x.blank_uncles_hash s1.block_number s1.config s1.prev_headers block.header
          a.header_ok in
      let kept =
        sym (prev_headers-initialize block s) ∙ ap (λ (r : Step). r.1.prev_headers) a.initialized in
      let known = genuine p l (kept ∙ first) in
      let number = ap (λ (q : Header). q.number) (ap header_of links ∙ known) in
      omega (arith, successor, number)

  -- Afterwards its header is the first.
  pub apply_block-IsGenuine :
      (x : Hashing) (bloom_of : List Log → ℕ) (e : Externals) (block : Block) (s t : State)
      → apply_block x bloom_of e block s ≡ (ok tt, t)
      → header_of block.header.hash ≡ block.header
      → IsGenuine t
  unfolding add_block_header
  apply_block-IsGenuine x bloom_of e block s t h hashed p l first =
      let a = apply_block-ok x bloom_of e block s t h in
      let at = sym (ap (λ (q : State). q.prev_headers) a.extended) ∙ first in
      let same : block.header ≡ p = ground arith in
      subst (λ (q : Header). header_of q.hash ≡ q) same hashed
