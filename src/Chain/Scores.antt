-- ===== src/Chain/Scores.antt =====
-- `get_score` of ethereum/pow/chain.py.
use shopper.Prelude.{ℕ, zero, suc, ◌+◌, ◌/◌, ◌^◌, Option, none, some, List, [], ◌∷◌}
use shopper.Exceptions.{Result, ok, raised, attribute_error, out_of_fuel}
use shopper.Dict.{lookup, insert}
use shopper.Consensus.{Block}
use shopper.Chain.{ChainDb, Chain, Rules, Call, get_parent}

-- The `while` loop: the nearest ancestor with a score, and the blocks that wait for one, the oldest
-- first. `key` is the hash whose score is looked for, `block` the block that it is of. The rounds
-- are bounded by `fuel`.
unfoldable pub find_score :
    ℕ → ChainDb → ℕ → Option Block → List (ℕ × ℕ) → Result (ℕ × List (ℕ × ℕ))
find_score zero db key block fills = raised out_of_fuel
find_score (suc fuel) db key block fills = elim (lookup key db.scores) [
  | some score ↦ ok (score, fills)
  | none ↦ elim block [
    | none ↦ raised attribute_error
    | some b ↦
        find_score fuel db b.header.prevhash (get_parent db b)
          ((b.header.hash, b.header.difficulty) ∷ fills)
  ]
]

unfoldable pub put_score : ℕ → ℕ → Chain → Chain
put_score h score c = record c {
  db = record c.db { scores = insert h score c.db.scores };
  draws = c.draws + 1;
}

-- The score of a block on top of one with `score`: ties are broken at random.
unfoldable pub next_score : Rules → ℕ → ℕ → Chain → ℕ
next_score x score d c = score + d + x.randrange c.draws (d / 10 ^ 6 + 1)

-- The `for` loop.
unfoldable pub fill_scores : Rules → ℕ → List (ℕ × ℕ) → Chain → ℕ × Chain
fill_scores x score [] c = (score, c)
fill_scores x score ((h, d) ∷ fills) c =
    let s = next_score x score d c in fill_scores x s fills (put_score h s c)

abbrev pub filled : Rules → Chain → Result (ℕ × List (ℕ × ℕ)) → Call ℕ
filled x c (raised e) = (raised e, c)
filled x c (ok (score, fills)) = let (s, c1) = fill_scores x score fills c in (ok s, c1)

-- The rounds are one more than the block's number, and its ancestors are fewer.
unfoldable pub score_of : Rules → Block → Chain → Call ℕ
score_of x b c = filled x c (find_score (b.header.number + 2) c.db b.header.hash (some b) [])

unfoldable pub get_score : Rules → Option Block → Chain → Call ℕ
get_score x none c = (ok 0, c)
get_score x (some b) c = score_of x b c
