-- ===== src/UsbHost/Rp2040/Polls.antt =====
-- Code of cotton-usb-host/src/host/rp2040.rs that awaits: the executor polls it again and again, and
-- before each poll the rest of the world acts. A schedule lists those actions; where it ends, the
-- future is still pending.
pub mod Ends
use cotton.Prelude.{List, [], ◌∷◌, Option, none, some}
use cotton.Prelude.Outcome.{Outcome, returns, panics}

pub data Progress (S A : Type 0) : Type 0 where
  ready : A → List (S → S) → S → Progress S A
  pending : S → Progress S A
  panicked : Progress S A

abbrev pub Async : Type 0 → Type 0 → Type 0
Async S A = List (S → S) → S → Progress S A

abbrev pub proceed : {S A B : Type 0} → (A → Async S B) → Progress S A → Progress S B
proceed f (ready a later s) = f a later s
proceed f (pending s) = pending s
proceed f panicked = panicked

infixl 5 ◌>>=◌ ◌>>◌
abbrev pub ◌>>=◌ : {S A B : Type 0} → Async S A → (A → Async S B) → Async S B
◌>>=◌ m f later s = proceed f (m later s)

abbrev pub ◌>>◌ : {S A B : Type 0} → Async S A → Async S B → Async S B
m >> k = m >>= λ _. k

abbrev pub ret : {S A : Type 0} → A → Async S A
ret a later s = ready a later s

-- Code between two awaits.
abbrev pub at_once : {S A : Type 0} → List (S → S) → Outcome (A × S) → Progress S A
at_once later (returns (a, s)) = ready a later s
at_once later panics = panicked

abbrev pub sync : {S A : Type 0} → (S → Outcome (A × S)) → Async S A
sync f later s = at_once later (f s)

abbrev pub act : {S : Type 0} → (S → S) → Async S (Unit {0})
act f later s = ready tt later (f s)

abbrev pub lift : {S A : Type 0} → Outcome A → Async S A
lift (returns a) later s = ready a later s
lift panics later s = panicked

-- `f.await` of a future whose `poll` is `f`, where `none` is `Poll::Pending`.
module _ {S A : Type 0} (f : S → Outcome (Option A × S)) where
  abbrev pub polled : (S → Progress S A) → List (S → S) → Outcome (Option A × S) → Progress S A
  polled again later (returns (some a, s)) = ready a later s
  polled again later (returns (none, s)) = again s
  polled again later panics = panicked

  abbrev pub wait : Async S A
  wait [] s = pending s
  wait (world ∷ later) s = polled (wait later) later (f (world s))
