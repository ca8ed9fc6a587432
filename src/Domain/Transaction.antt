-- ===== src/Domain/Transaction.antt =====
-- internal/domain/transaction.go: a payment and its state machine. A method that mutates the
-- transaction gives back the transaction as it stands afterwards, also beside an error.
pub mod Operation
pub mod Lifecycle
pub mod Validity
pub mod Captures
pub mod Refunds
pub mod Holds
pub mod Traces
mod Examples
use mini_payment_gateway.Prelude.{
  ℕ, String, len, Bool, true, false, not, ◌&&◌, Option, none, some, List, [], ◌∷◌, Result, ok, err,
  Action, ◌>>=◌, ◌>>◌, pure, modify, ltb, ◌==◌, str_eq, if◌then◌else◌, is_some,
}
use mini_payment_gateway.Prelude.Int.{ℤ, pos, ◌+ℤ◌, ltb_ℤ, eqb_ℤ}
use mini_payment_gateway.Prelude.Int64.{add64, sub64}
use mini_payment_gateway.Money.{Amount, Currency, currency_valid, is_positive, fee}
use mini_payment_gateway.Domain.Errors.{Error}

-- A value of `time.Time`: nanoseconds since the Unix epoch.
abbrev pub Time : Type 0
Time = ℤ

-- `type Status string`; `other` stands for every string that is none of the constants.
pub data Status : Type 0 where
  created authorized captured settled refunded voided failed other : Status

abbrev pub status_tag : Status → ℕ
status_tag Status.created = 0
status_tag Status.authorized = 1
status_tag Status.captured = 2
status_tag Status.settled = 3
status_tag Status.refunded = 4
status_tag Status.voided = 5
status_tag Status.failed = 6
status_tag Status.other = 7

-- `==` on statuses, one side of which is always a constant.
abbrev pub status_eq : Status → Status → Bool
status_eq s t = status_tag s == status_tag t

-- Seven days, in nanoseconds.
abbrev pub authorization_validity : ℤ
authorization_validity = pos 604800000000000

-- The map `allowedTransitions`; a missing key reads as no transitions.
abbrev pub allowed_transitions : Status → List Status
allowed_transitions Status.created = Status.authorized ∷ Status.failed ∷ []
allowed_transitions Status.authorized = Status.captured ∷ Status.voided ∷ Status.failed ∷ []
allowed_transitions Status.captured = Status.settled ∷ Status.refunded ∷ []
allowed_transitions Status.settled = Status.refunded ∷ []
allowed_transitions Status.failed = []
allowed_transitions Status.voided = []
allowed_transitions Status.refunded = []
allowed_transitions Status.other = []

abbrev pub is_empty : List Status → Bool
is_empty [] = true
is_empty (s ∷ ss) = false

pub is_terminal : Status → Bool
is_terminal s = is_empty (allowed_transitions s)

pub record Transaction : Type 0 where
  pub id : ℕ
  pub merchant_id : ℕ
  pub reference : String
  pub amount : Amount
  pub currency : Currency
  pub status : Status
  pub captured_amount : Amount
  pub refunded_amount : Amount
  pub card_last4 : String
  pub card_brand : String
  pub acquirer_ref : String
  pub failure_code : String
  pub metadata : List (String × String)
  pub version : ℕ
  pub authorized_at : Option Time
  pub captured_at : Option Time
  pub settled_at : Option Time
  pub created_at : Time
  pub updated_at : Time

-- `NewTransaction`; the id is what `uuid.New` returns.
unfoldable pub new_transaction :
    ℕ → ℕ → String → Amount → Currency → List (String × String) → Time → Result Error Transaction
unfolding currency_valid
new_transaction id merchant_id reference amount currency metadata now =
    if str_eq reference ""
    then err (Error.invalid "reference" "must not be empty")
    else if ltb 128 (len reference)
    then err (Error.invalid "reference" "must be at most 128 characters")
    else if not (is_positive amount)
    then err (Error.invalid "amount" "must be greater than zero")
    else if not (currency_valid currency)
    then err (Error.invalid "currency" "must be one of VND, USD")
    else ok (record {
      id = id;
      merchant_id = merchant_id;
      reference = reference;
      amount = amount;
      currency = currency;
      status = Status.created;
      captured_amount = pos 0;
      refunded_amount = pos 0;
      card_last4 = "";
      card_brand = "";
      acquirer_ref = "";
      failure_code = "";
      metadata = metadata;
      version = 0;
      authorized_at = none;
      captured_at = none;
      settled_at = none;
      created_at = now;
      updated_at = now;
    })

-- The loop of `CanTransitionTo`.
abbrev pub is_among : Status → List Status → Bool
is_among next [] = false
is_among next (s ∷ ss) = if status_eq s next then true else is_among next ss

pub can_transition_to : Status → Transaction → Bool
can_transition_to next t = is_among next (allowed_transitions t.status)

-- A method with receiver `*Transaction` that returns an error.
abbrev pub Method : Type 0
Method = Action Error Transaction (Unit {0})

pub transition_to : Status → Method
unfolding can_transition_to
transition_to next t =
    if not (can_transition_to next t)
    then (err Error.invalid_state_transition, t)
    else (ok tt, record t { status = next })

unfoldable pub remaining_capturable : Transaction → Amount
unfolding sub64
remaining_capturable t = sub64 t.amount t.captured_amount

unfoldable pub remaining_refundable : Transaction → Amount
unfolding sub64
remaining_refundable t = sub64 t.captured_amount t.refunded_amount

pub authorization_expires_at : Transaction → Option Time
unfolding ◌+ℤ◌
authorization_expires_at t = elim t.authorized_at [
  | none ↦ none
  | some at ↦ some (at +ℤ authorization_validity)
]

unfoldable pub authorization_expired : Time → Transaction → Bool
unfolding authorization_expires_at
authorization_expired now t = elim (authorization_expires_at t) [
  | none ↦ false
  | some exp ↦ ltb_ℤ exp now
]

unfoldable pub authorize : String → String → String → Time → Method
unfolding ◌>>=◌ transition_to
authorize acquirer_ref card_last4 card_brand now =
    transition_to Status.authorized
    >> modify (λ t. record t {
      acquirer_ref = acquirer_ref;
      card_last4 = card_last4;
      card_brand = card_brand;
      authorized_at = some now;
      updated_at = now;
    })

unfoldable pub fail : String → Time → Method
unfolding ◌>>=◌ transition_to
fail code now =
    transition_to Status.failed >> modify (λ t. record t { failure_code = code; updated_at = now })

unfoldable pub void : Time → Method
unfolding ◌>>=◌ transition_to
void now t =
    if ltb_ℤ (pos 0) t.captured_amount
    then (err Error.invalid_state_transition, t)
    else (transition_to Status.voided >> modify (λ v. record v { updated_at = now })) t

-- `if t.CapturedAt == nil { t.CapturedAt = &now }`.
abbrev pub first_time : Option Time → Time → Option Time
first_time none now = some now
first_time (some at) now = some at

unfoldable pub capture : Amount → Time → Method
unfolding ◌>>=◌ transition_to authorization_expired remaining_capturable add64
capture amount now t =
    if not (is_positive amount)
    then (err (Error.invalid "amount" "must be greater than zero"), t)
    else if not (status_eq t.status Status.authorized) && not (status_eq t.status Status.captured)
    then (err Error.invalid_state_transition, t)
    else if authorization_expired now t
    then (err Error.authorization_expired, t)
    else if ltb_ℤ (remaining_capturable t) amount
    then (err Error.capture_exceeds_authorized, t)
    else ((if status_eq t.status Status.authorized then transition_to Status.captured else pure tt)
          >> modify (λ c. record c {
            captured_amount = add64 c.captured_amount amount;
            captured_at = first_time c.captured_at now;
            updated_at = now;
          }))
        t

-- `t.RefundedAmount += amount`, then the move to `refunded` once everything is returned.
unfoldable pub refund : Amount → Time → Method
unfolding ◌>>=◌ transition_to remaining_refundable add64
refund amount now t =
    if not (is_positive amount)
    then (err (Error.invalid "amount" "must be greater than zero"), t)
    else if not (status_eq t.status Status.captured) && not (status_eq t.status Status.settled)
    then (err Error.invalid_state_transition, t)
    else if ltb_ℤ (remaining_refundable t) amount
    then (err Error.refund_exceeds_captured, t)
    else (modify (λ r. record r { refunded_amount = add64 r.refunded_amount amount })
          >> (λ r.
              (if eqb_ℤ r.refunded_amount r.captured_amount
                  then transition_to Status.refunded
                  else pure tt)
                r)
          >> modify (λ r. record r { updated_at = now }))
        t

unfoldable pub settle : Time → Method
unfolding ◌>>=◌ transition_to
settle now =
    transition_to Status.settled
    >> modify (λ t. record t { settled_at = some now; updated_at = now })

unfoldable pub net_payable : ℤ → Transaction → Amount
unfolding sub64 fee
net_payable fee_bps t =
    sub64 (sub64 t.captured_amount (fee t.captured_amount fee_bps)) t.refunded_amount
