-- ===== src/Chain/Poststate/Ends.antt =====
-- `mk_poststate_of_blockhash` of ethereum/pow/chain.py ends with an exception of the source or a state.
use shopper.Prelude.{ℕ, refl, Bool, true, false, ltb, if◌then◌else◌, Option, none, some, List, []}
use shopper.Exceptions.{Result, ok, raised, ◌>>=◌}
use shopper.Dict.{Dict, lookup}
use shopper.Block.{Header}
use shopper.State.{State}
use shopper.Consensus.{Block}
use shopper.Chain.{ChainDb, Rules, Stored}
use shopper.Chain.Poststate.{
  Walk, walk_back, block_state, with_ancestry, before_genesis, stored_state, ancestry, poststate_of,
  mk_poststate_of_blockhash,
}
use shopper.Chain.Stored.{genesis_mark, body}
use shopper.Config.{Config}
use shopper.Vm.Gas.{IsAnswer}

with_ancestry-IsAnswer :
    (s : State) (r : Result (List Header × Dict (List ℕ)))
    → IsAnswer r
    → IsAnswer (r >>= λ seen. ok (with_ancestry s seen))
with_ancestry-IsAnswer s (ok seen) real = tt
with_ancestry-IsAnswer s (raised e) real = real

before_genesis-IsAnswer :
    (config : Config) (db : ChainDb) (n : ℕ) (w : Walk) (o : Option Stored)
    → IsAnswer (before_genesis config db n w o)
before_genesis-IsAnswer config db n w none = refl
before_genesis-IsAnswer config db n w (some genesis_mark) = tt
before_genesis-IsAnswer config db n w (some (body b)) = refl

ancestry-IsAnswer :
    (config : Config) (db : ChainDb) (n : ℕ) (w : Walk) → IsAnswer (ancestry config db n w)
unfolding ancestry
ancestry-IsAnswer config db n w =
    either (ltb w.round config.prev_header_depth) (lookup w.last.header.prevhash db.bodies)
  where
    either :
        (b : Bool) (o : Option Stored)
        → IsAnswer (if b then before_genesis config db n w o else ok (w.headers, w.uncles))
    either true o = before_genesis-IsAnswer config db n w o
    either false o = tt

poststate_of-IsAnswer :
    (x : Rules) (config : Config) (db : ChainDb) (b : Block) → IsAnswer (poststate_of x config db b)
unfolding poststate_of
poststate_of-IsAnswer x config db b =
    let begin : Walk = record { headers = []; uncles = []; last = b; round = 0 } in
    let w = walk_back db b.header.number config.prev_header_depth 0 b begin in
    with_ancestry-IsAnswer (block_state x config b) (ancestry config db b.header.number w)
      (ancestry-IsAnswer config db b.header.number w)

pub mk_poststate-IsAnswer :
    (x : Rules) (config : Config) (db : ChainDb) (h : ℕ)
    → IsAnswer (mk_poststate_of_blockhash x config db h)
unfolding mk_poststate_of_blockhash
mk_poststate-IsAnswer x config db h = go (lookup h db.bodies)
  where
    go : (o : Option Stored) → IsAnswer (stored_state x config db o)
    go none = refl
    go (some genesis_mark) = tt
    go (some (body b)) = poststate_of-IsAnswer x config db b
