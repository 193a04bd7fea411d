-- ===== src/Deals/Answering.antt =====
-- The answers to a confirmation: `Approve` and `Reject` of internal/deals/deal/confirmation.go.
use unbelievable_fish.Prelude.{
  ◌≡◌, refl, ◌≢◌, ◌⊎◌, ◌↔◌, true, false, List, [], ◌∷◌, String, arith, is_ok, Succeeds, Method,
  some,
}
use unbelievable_fish.Prelude.Time.{Time}
use unbelievable_fish.Prelude.Text.{is_empty, str_eq_iff}
use unbelievable_fish.Deals.Types.{Error, Event, DealConfirmation, DealConfirmationStatus}
use unbelievable_fish.Deals.Confirmation.{is_past, is_pending, approve, reject}

-- Who can approve or reject a confirmation at a time.
abbrev pub MayAnswer : String → String → Time → DealConfirmation → Type 0
MayAnswer company user at c =
    (c.status ≡ DealConfirmationStatus.pending)
    × (is_empty company ≡ false)
    × (is_empty user ≡ false)
    × (company ≢ c.requested_by_company_id)
    × (company ≡ c.counterparty_company_id)
    × (is_past c.expires_at at ≡ false)

-- A confirmation is approved exactly when it is pending and not past its expiry, and a user of the
-- counterparty approves it, which is not the company that asked; so it is for a rejection.
pub answer_iff :
    (company user reason : String) (at : Time) (c : DealConfirmation)
    → (Succeeds (approve company user at c).1 ↔ MayAnswer company user at c)
      × (Succeeds (reject company user reason at c).1 ↔ MayAnswer company user at c)
unfolding approve reject
answer_iff company user reason at c =
    let same = str_eq_iff company c.requested_by_company_id in
    let other_party = str_eq_iff company c.counterparty_company_id in
    (
      (λ h. ground (arith, same, other_party), λ h. ground (arith, same, other_party)),
      (λ h. ground (arith, same, other_party), λ h. ground (arith, same, other_party)),
    )

-- What an answer leaves behind when it is refused: the confirmation as it was, or marked as expired,
-- and that only when a user of the counterparty comes too late.
abbrev pub Refused : Time → DealConfirmation → DealConfirmation → Type 0
Refused at c c' =
    (c' ≡ c)
    ⊎ ((c' ≡ record c { status = DealConfirmationStatus.expired })
        × (c.status ≡ DealConfirmationStatus.pending)
        × (is_past c.expires_at at ≡ true))

-- An approval that succeeds sets the status and the time, one that does not leaves the confirmation
-- alone unless it has expired.
pub approve_effect :
    (company user : String) (at : Time) (c : DealConfirmation)
    → let (c', r) = approve company user at c in
      (Succeeds r
        → c' ≡ record c { status = DealConfirmationStatus.approved; approved_at = some at })
      × (is_ok r ≡ false → Refused at c c')
unfolding approve
approve_effect company user at c = (λ h. ground arith, λ h. ground arith)

-- Answers, one after the other.
pub data Answer : Type 0 where
  yes_by : String → String → Time → Answer
  no_by : String → String → String → Time → Answer

unfoldable pub answer : Answer → Method Error DealConfirmation (List Event)
answer (yes_by company user at) = approve company user at
answer (no_by company user reason at) = reject company user reason at

unfoldable pub answers : List Answer → DealConfirmation → DealConfirmation
unfolding answer
answers [] c = c
answers (x ∷ xs) c = answers xs (answer x c).0

answered_once :
    (x : Answer) (c : DealConfirmation) → is_pending c.status ≡ false → (answer x c).0 ≡ c
unfolding answer
answered_once (yes_by company user at) c h = unfold approve in ground arith
answered_once (no_by company user reason at) c h = unfold reject in ground arith

-- A confirmation that is not pending any more never changes again.
pub answers_settled :
    (xs : List Answer) (c : DealConfirmation) → is_pending c.status ≡ false → answers xs c ≡ c
unfolding answers
answers_settled [] c h = refl
answers_settled (x ∷ xs) c h = rw (answered_once x c h) (answers_settled xs c h)
