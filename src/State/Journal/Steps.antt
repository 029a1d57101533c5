-- ===== src/State/Journal/Steps.antt =====
-- Steps of the journal of ethereum/state.py that take a state back.
use shopper.Prelude.{◌≡◌, refl, sym, ap, ◌∙◌, true, List, [], ◌∷◌, ◌++◌, append_assoc}
use shopper.State.{Address, Attr, Entry, State, account, put_account, get_attr, set_and_journal}
use shopper.State.Entry.{set_attr}
use shopper.State.Snapshots.{undo}
use shopper.State.Undo.{SameState, SameState-trans, undo-set_attr}

-- The steps of a journal, from the last one on.
unfoldable pub undo_all : List Entry → State → State
undo_all [] u = u
undo_all (e ∷ es) u = undo_all es (undo e u)

pub undo_all-append :
    (es fs : List Entry) (u : State) → undo_all (es ++ fs) u ≡ undo_all fs (undo_all es u)
unfolding undo_all
undo_all-append [] fs u = refl
undo_all-append (e ∷ es) fs u = undo_all-append es fs (undo e u)

-- What happened between `s` and `t` is on the journal: undoing the new steps takes `t`, and any
-- state that looks the same, back to what looks like `s`.
pub record Undoes (s t : State) : Type 0 where
  pub steps : List Entry
  pub journal : t.journal ≡ steps ++ s.journal
  pub back : (u : State) → SameState t u → SameState s (undo_all steps u)

pub Undoes-refl : (s : State) → Undoes s s
unfolding undo_all
Undoes-refl s = record { steps = []; journal = refl; back = λ u h. h }

pub Undoes-trans : (s t u : State) → Undoes s t → Undoes t u → Undoes s u
Undoes-trans s t u p q = record {
  steps = q.steps ++ p.steps;
  journal =
      q.journal ∙ ap (λ j. q.steps ++ j) p.journal ∙ sym (append_assoc q.steps p.steps s.journal);
  back = λ v h. rw undo_all-append (p.back (undo_all q.steps v) (q.back v h));
}

-- A change that no account shows needs no step.
pub Undoes-same : (s t : State) → t.journal ≡ s.journal → SameState s t → Undoes s t
unfolding undo_all
Undoes-same s t j p = record { steps = []; journal = j; back = λ u h. SameState-trans s t u p h }

pub Undoes-one :
    (e : Entry) (s t : State)
    → t.journal ≡ e ∷ s.journal
    → ((u : State) → SameState t u → SameState s (undo e u))
    → Undoes s t
unfolding undo_all
Undoes-one e s t j b = record { steps = e ∷ []; journal = j; back = b }

pub Undoes-set_and_journal : (a : Address) (p : Attr) (s : State) → Undoes s (set_and_journal a p s)
Undoes-set_and_journal a p s =
    Undoes-one (set_attr a (get_attr p (account a s))) s (set_and_journal a p s)
      (unfold set_and_journal put_account in refl) (λ u h. undo-set_attr a s p u h)

-- Two attributes, the second `touched`: the shape of most setters.
pub Undoes-touch :
    (a : Address) (p : Attr) (s : State)
    → Undoes s (set_and_journal a (Attr.touched true) (set_and_journal a p s))
Undoes-touch a p s =
    let t = set_and_journal a p s in
    Undoes-trans s t (set_and_journal a (Attr.touched true) t) (Undoes-set_and_journal a p s)
      (Undoes-set_and_journal a (Attr.touched true) t)
