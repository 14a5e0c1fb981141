-- ===== src/UsbHost/Rp2040/Sending/Honest.antt =====
-- cotton-usb-host/src/host/rp2040.rs: a report of completion during an `Out` transfer is its own.
use cotton.Prelude.{◌≡◌, ◌⊎◌, sym, ◌∙◌, true, false, Bool-cases, inl, inr}
use mathlib.Core.Bool.{true≢false}
use cotton.UsbHost.Rp2040.Sending.{Sender, EndsLast, IsReport, no_report, still, at_end}

module _ {H : Type 0} (c : Sender H) where
  -- A completion that is reported is that of this transfer.
  abbrev pub IsHonest : H → Type 0
  IsHonest h = (c.complete h ≡ false) ⊎ EndsLast (c.sent h)

  -- Where nothing is sent and no new report is made.
  pub IsHonest-kept :
      (h h' : H)
      → c.sent h' ≡ c.sent h
      → (c.complete h' ≡ true → c.complete h ≡ true)
      → IsHonest h
      → IsHonest h'
  IsHonest-kept h h' same old honest = elim (Bool-cases (c.complete h')) [
    | inl q ↦ elim honest [
      | inl none_yet ↦ absurd (true≢false (sym (old q) ∙ none_yet))
      | inr ends ↦ inr (rw same ends)
    ]
    | inr q ↦ inl q
  ]

  pub IsHonest-idle :
      (h h' : H)
      → c.sent h' ≡ c.sent h
      → IsReport (c.complete h) (c.complete h') (c.sent h')
      → IsHonest h
      → IsHonest h'
  IsHonest-idle h h' same (no_report q) honest = inl q
  IsHonest-idle h h' same (still q) honest = IsHonest-kept h h' same (λ e. sym q ∙ e) honest
  IsHonest-idle h h' same (at_end ends) honest = inr ends

  pub IsHonest-send :
      (h h' : H)
      → ¬ EndsLast (c.sent h)
      → IsReport (c.complete h) (c.complete h') (c.sent h')
      → IsHonest h
      → IsHonest h'
  IsHonest-send h h' more (no_report q) honest = inl q
  IsHonest-send h h' more (at_end ends) honest = inr ends
  IsHonest-send h h' more (still q) (inl none_yet) = inl (q ∙ none_yet)
  IsHonest-send h h' more (still q) (inr ends) = absurd (more ends)

  -- After a state that reports nothing, where no report is made.
  pub IsHonest-fresh :
      (h h' : H) → (c.complete h' ≡ true → c.complete h ≡ true) → c.complete h ≡ false → IsHonest h'
  IsHonest-fresh h h' old none_yet = elim (Bool-cases (c.complete h')) [
    | inl q ↦ absurd (true≢false (sym (old q) ∙ none_yet))
    | inr q ↦ inl q
  ]
