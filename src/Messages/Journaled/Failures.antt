-- ===== src/Messages/Journaled/Failures.antt =====
-- A failing message in ethereum/messages.py leaves the state as it found it.
use shopper.Prelude.{ℕ, ◌≡◌, subst, List, Bool, true, false, pos, arith, if◌then◌else◌}
use shopper.Exceptions.{Result, ok, raised}
use shopper.State.{State}
use shopper.State.Ops.{transfer_value}
use shopper.State.Snapshots.{snapshot}
use shopper.State.Revert.{IsQuiet}
use shopper.State.Journaled.{
  Journaled, Journaled-refl, Journaled-trans, IsQuiet-Journaled, Journaled-transfer_value,
}
use shopper.Vm.{Message, Reply, Handler, Context, Externals}
use shopper.Vm.Journaled.Calls.{IsJournaled, if-Journaled}
use shopper.Messages.Apply.{finish_msg, after_transfer, special_at, main_loop, apply_code, handlers}
use shopper.Messages.Journaled.{
  reverted_lem, main_loop-Journaled, special_at-Journaled, SpecialsAreJournaled, IsRestored,
}
use shopper.Messages.Journaled.Creations.{handlers-Journaled}

finish_msg-failed :
    {s : State} (r : Result Reply × State) (reply : Reply) (t : State)
    → Journaled s r.1
    → IsQuiet s
    → reply.success ≡ false
    → finish_msg (snapshot s) r ≡ (ok reply, t)
    → IsRestored s t
unfolding finish_msg
finish_msg-failed (raised e, u) reply t j quiet failed h = ground arith
finish_msg-failed {s} (ok r, u) reply t j quiet failed h =
    let (s', e, restored) = reverted_lem r u j quiet in
    let same : s' ≡ t = ground arith in subst (λ v. IsRestored s v) same restored

after_transfer-failed :
    {s : State} (main : Handler) (msg : Message) (r : Result Bool × State) (reply : Reply)
    (t : State)
    → IsJournaled main
    → Journaled s r.1
    → IsQuiet s
    → reply.success ≡ false
    → after_transfer (snapshot s) main msg r ≡ (ok reply, t)
    → IsRestored s t
unfolding after_transfer
after_transfer-failed main msg (raised e, u) reply t mj j quiet failed h = ground arith
after_transfer-failed main msg (ok false, u) reply t mj j quiet failed h = ground arith
after_transfer-failed main msg (ok true, u) reply t mj j quiet failed h =
    finish_msg-failed (main msg u) reply t
      (Journaled-trans j (mj msg u (IsQuiet-Journaled j quiet))) quiet failed h

-- Whatever code a message runs, with nested calls and creations to any depth: when its reply says
-- that it failed, the variables and the journal are as before it, and so are the root and every
-- account's balance, nonce, code, storage and flags. The precompiled contracts must go through the
-- journal, and the block lie outside the range where the touch of account 3 is kept.
pub apply_code-failed :
    (rounds depth : ℕ) (x : Externals) (c : Context) (msg : Message) (code : List ℕ) (s t : State)
    (reply : Reply)
    → SpecialsAreJournaled x
    → IsQuiet s
    → apply_code rounds x (handlers rounds x c depth) c msg code s ≡ (ok reply, t)
    → reply.success ≡ false
    → IsRestored s t
unfolding apply_code
apply_code-failed rounds depth x c msg code s t reply sj quiet h failed =
    let hs = handlers rounds x c depth in
    after_transfer-failed (main_loop rounds x hs c code (special_at x msg.code_address)) msg
      (if msg.transfers_value
        then transfer_value msg.sender msg.to (pos msg.value) s
        else (ok true, s))
      reply t
      (main_loop-Journaled rounds x hs c code (special_at x msg.code_address)
        (handlers-Journaled rounds x c depth sj) (special_at-Journaled x msg.code_address sj))
      (if-Journaled msg.transfers_value (transfer_value msg.sender msg.to (pos msg.value) s)
        (ok true, s) (Journaled-transfer_value msg.sender msg.to (pos msg.value) s)
        (Journaled-refl s))
      quiet failed h
