-- ===== src/Consensus/Applied/Steps.antt =====
-- Steps of `apply_block` of ethereum/meta.py that succeed.
use shopper.Prelude.{ℕ, ◌≡◌, refl, Bool, true, false, ◌==◌, if◌then◌else◌, arith, ==_iff}
use shopper.Exceptions.{Exn, Result, ok, raised, value_error}
use shopper.State.{State}
use shopper.State.Snapshots.{Snapshot, revert}
use shopper.Messages.Validation.{require}
use shopper.Consensus.Blocks.{Step, and_then, is_caught, recover, reraised}

-- A step that succeeds after another.
pub and_then-ok :
    (r : Step) (k : State → Step) (t : State)
    → and_then r k ≡ (ok tt, t)
    → (s : State) × (r ≡ (ok tt, s)) × (k s ≡ (ok tt, t))
and_then-ok (raised e, s) k t h = ground arith
and_then-ok (ok _, s) k t h = (s, refl, h)

-- A check between steps.
pub check-ok :
    (r : Result (Unit {0})) (s : State) (k : State → Step) (t : State)
    → and_then (r, s) k ≡ (ok tt, t)
    → (r ≡ ok tt) × (k s ≡ (ok tt, t))
check-ok (raised e) s k t h = ground arith
check-ok (ok _) s k t h = (refl, h)

pub recover-ok :
    (snap : Snapshot) (r : Step) (t : State) → recover snap r ≡ (ok tt, t) → r ≡ (ok tt, t)
unfolding recover
recover-ok snap (ok _, s) t h = h
recover-ok snap (raised e, s) t h = absurd (
    fails (if is_caught e then reraised e s (revert snap s) else (raised e, s))
      (still (is_caught e) (revert snap s)) h)
  where
    still :
        (b : Bool) (r : Result State)
        → (f : Exn) × ((if b then reraised e s r else (raised e, s)).0 ≡ raised f)
    still true (ok u) = (e, refl)
    still true (raised f) = (f, refl)
    still false r = (e, refl)

    fails : (r : Step) → (f : Exn) × (r.0 ≡ raised f) → r ≡ (ok tt, t) → ⊥
    fails (ok _, u) (f, failed) h = ground arith
    fails (raised g, u) (f, failed) h = ground arith

pub require-ok : (b : Bool) (e : Exn) → require b e ≡ ok tt → b ≡ true
require-ok true e h = refl
require-ok false e h = ground arith

pub check_of :
    (r : Result (Unit {0})) (s : State) (k : State → Step) (q : Step)
    → r ≡ ok tt
    → k s ≡ q
    → and_then (r, s) k ≡ q
check_of (ok _) s k q e h = h
check_of (raised f) s k q e h = ground arith

pub require_of : (b : Bool) (e : Exn) → b ≡ true → require b e ≡ ok tt
require_of true e h = refl
require_of false e h = ground arith

pub same_of : (a b : ℕ) → a ≡ b → require (a == b) value_error ≡ ok tt
same_of a b e = require_of (a == b) value_error ((==_iff a b).1 e)
