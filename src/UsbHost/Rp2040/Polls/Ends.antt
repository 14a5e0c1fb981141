-- ===== src/UsbHost/Rp2040/Polls/Ends.antt =====
-- What holds where a computation that awaits has ended, whatever the schedule.
use cotton.Prelude.{List, [], ◌∷◌}
use cotton.Prelude.Outcome.{Outcome, returns, panics, ◌>>=◌}
use cotton.UsbHost.Rp2040.Polls.{Progress, ready, pending, panicked, proceed, lift}

abbrev pub Holds {ℓ} : {A : Type ℓ} → (A → Type 0) → Outcome A → Type 0
Holds Q (returns a) = Q a
Holds Q panics = ⊥

pub bind-Holds {ℓ κ} :
    {A : Type ℓ} {B : Type κ} (Q : A → Type 0) (R : B → Type 0) (o : Outcome A) (f : A → Outcome B)
    → Holds Q o
    → ((a : A) → Q a → Holds R (f a))
    → Holds R (o >>= f)
bind-Holds Q R (returns a) f h k = k a h
bind-Holds Q R panics f h k = elim h [ ]

abbrev pub All : {A : Type 0} → (A → Type 0) → List A → Type 0
All K [] = Unit
All K (x ∷ xs) = K x × All K xs

-- The code does not panic, and what it is ready with has the property; the actions left over are
-- of the kind that the schedule was of.
abbrev pub Ends : {S A : Type 0} → ((S → S) → Type 0) → (A → S → Type 0) → Progress S A → Type 0
Ends K Q (ready a later s) = All K later × Q a s
Ends K Q (pending s) = Unit
Ends K Q panicked = ⊥

module _ {S : Type 0} (K : (S → S) → Type 0) where
  pub proceed-Ends :
      {A B : Type 0} (Q : A → S → Type 0) (R : B → S → Type 0)
      (f : A → List (S → S) → S → Progress S B) (m : Progress S A)
      → Ends K Q m
      → ((a : A) (later : List (S → S)) (s : S) → All K later → Q a s → Ends K R (f a later s))
      → Ends K R (proceed f m)
  proceed-Ends Q R f (ready a later s) (l, q) k = k a later s l q
  proceed-Ends Q R f (pending s) h k = tt
  proceed-Ends Q R f panicked h k = elim h [ ]

  pub lift-Ends :
      {A : Type 0} (Q : A → Type 0) (R : S → Type 0) (o : Outcome A) (later : List (S → S)) (s : S)
      → Holds Q o
      → All K later
      → R s
      → Ends K (λ a t. Q a × R t) (lift o later s)
  lift-Ends Q R (returns a) later s q l r = (l, (q, r))
  lift-Ends Q R panics later s q l r = elim q [ ]
