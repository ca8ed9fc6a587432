-- ===== src/Domain/Ledger.antt =====
-- internal/domain/ledger.go: the journal's entries, and the entry groups of the business events.
pub mod Legs
pub mod Validation
mod Examples
use mini_payment_gateway.Prelude.{
  ℕ, Bool, true, false, not, ◌&&◌, ◌||◌, Option, none, some, List, [], ◌∷◌, ◌++◌, Result, ok, err,
  ltb, ◌==◌, str_eq, if◌then◌else◌,
}
use mini_payment_gateway.Prelude.Int.{pos, ltb_ℤ, eqb_ℤ}
use mini_payment_gateway.Prelude.Int64.{add64, sub64}
use mini_payment_gateway.Prelude.Lists.{length}
use mini_payment_gateway.Money.{Amount, Currency, is_positive}
use mini_payment_gateway.Domain.Errors.{Error}
use mini_payment_gateway.Domain.Transaction.{Time, Transaction}

-- `type Direction string`; `other` stands for every string that is none of the constants.
pub data Direction : Type 0 where
  debit credit other : Direction

pub data EventType : Type 0 where
  capture refund fee settlement : EventType

-- The chart of accounts. The string of a merchant's account is the prefix `merchant_payable:` and the
-- merchant's id, so that it is known by the id.
pub data Account : Type 0 where
  acquirer_receivable platform_fee_revenue platform_cash : Account
  merchant_payable : ℕ → Account

abbrev pub account_eq : Account → Account → Bool
account_eq Account.acquirer_receivable Account.acquirer_receivable = true
account_eq Account.platform_fee_revenue Account.platform_fee_revenue = true
account_eq Account.platform_cash Account.platform_cash = true
account_eq (Account.merchant_payable m) (Account.merchant_payable n) = m == n
account_eq _ _ = false

-- `MerchantPayableAccount`.
abbrev pub merchant_payable_account : ℕ → Account
merchant_payable_account merchant_id = Account.merchant_payable merchant_id

-- `IsMerchantPayable`.
abbrev pub is_merchant_payable : Account → Bool
is_merchant_payable (Account.merchant_payable m) = true
is_merchant_payable _ = false

abbrev pub is_debit : Direction → Bool
is_debit Direction.debit = true
is_debit _ = false

pub record LedgerEntry : Type 0 where
  pub id : ℕ
  pub entry_group_id : ℕ
  pub transaction_id : ℕ
  pub account : Account
  pub merchant_id : Option ℕ
  pub direction : Direction
  pub amount : Amount
  pub currency : Currency
  pub event_type : EventType
  pub created_at : Time

pub record EntryGroup : Type 0 where
  pub id : ℕ
  pub entries : List LedgerEntry

-- One round of the loop of `Validate`, on the debits and the credits so far.
pub add_leg : Currency → LedgerEntry → Amount × Amount → Result Error (Amount × Amount)
unfolding add64
add_leg currency e (debits, credits) =
    if not (is_positive e.amount)
    then err Error.invalid_amount
    else if not (str_eq e.currency currency)
    then err Error.currency_mismatch
    else elim e.direction [
      | Direction.debit ↦ ok (add64 debits e.amount, credits)
      | Direction.credit ↦ ok (debits, add64 credits e.amount)
      | Direction.other ↦ err Error.validation
    ]

pub add_legs : Currency → List LedgerEntry → Amount × Amount → Result Error (Amount × Amount)
unfolding add_leg
add_legs currency [] sums = ok sums
add_legs currency (e ∷ es) sums = elim (add_leg currency e sums) [
  | ok sums' ↦ add_legs currency es sums'
  | err x ↦ err x
]

-- The test of the two sums after the loop.
abbrev pub check_balance : Result Error (Amount × Amount) → Result Error (Unit {0})
check_balance (err x) = err x
check_balance (ok (debits, credits)) =
    if not (eqb_ℤ debits credits) then err Error.unbalanced_entry_group else ok tt

-- `EntryGroup.Validate`; the two leading clauses are the test for fewer than two entries.
abbrev validate_entries : List LedgerEntry → Result Error (Unit {0})
validate_entries [] = err Error.unbalanced_entry_group
validate_entries (e ∷ []) = err Error.unbalanced_entry_group
validate_entries (e ∷ f ∷ es) = check_balance (add_legs e.currency (e ∷ f ∷ es) (pos 0, pos 0))

unfoldable pub validate : EntryGroup → Result Error (Unit {0})
unfolding add_legs
validate g = validate_entries g.entries

-- `EntryGroup.Totals`.
pub add_totals : List LedgerEntry → Amount × Amount → Amount × Amount
unfolding add64
add_totals [] sums = sums
add_totals (e ∷ es) (debits, credits) = add_totals es (
    if is_debit e.direction
    then (add64 debits e.amount, credits)
    else (debits, add64 credits e.amount))

pub totals : EntryGroup → Amount × Amount
unfolding add_totals
totals g = add_totals g.entries (pos 0, pos 0)

-- An entry of a group, whose fields are those of the transaction but for what is given.
abbrev leg : ℕ → Transaction → Time → Account → Direction → Amount → EventType → LedgerEntry
leg group_id t now account direction amount event = record {
  id = 0;
  entry_group_id = group_id;
  transaction_id = t.id;
  account = account;
  merchant_id = some t.merchant_id;
  direction = direction;
  amount = amount;
  currency = t.currency;
  event_type = event;
  created_at = now;
}

-- `if err := group.Validate(); err != nil { return EntryGroup{}, err }`.
abbrev pub validated : EntryGroup → Result Error EntryGroup
validated g = elim (validate g) [ ok u ↦ ok g | err x ↦ err x ]

-- The fee's leg is there only for a fee above zero.
abbrev fee_legs : ℕ → Transaction → Amount → Time → List LedgerEntry
fee_legs group_id t charge now =
    if ltb_ℤ (pos 0) charge
    then leg group_id t now Account.platform_fee_revenue Direction.credit charge EventType.fee ∷ []
    else []

-- `NewCaptureEntryGroup`; the group's id is what `uuid.New` returns.
unfoldable pub new_capture_entry_group :
    ℕ → Transaction → Amount → Amount → Time → Result Error EntryGroup
unfolding validate sub64
new_capture_entry_group group_id t amount charge now =
    if not (is_positive amount)
    then err Error.invalid_amount
    else if ltb_ℤ charge (pos 0) || ltb_ℤ amount charge
    then err Error.validation
    else validated (record {
      id = group_id;
      entries =
          leg group_id t now Account.acquirer_receivable Direction.debit amount EventType.capture
          ∷ leg group_id t now (merchant_payable_account t.merchant_id) Direction.credit
              (sub64 amount charge) EventType.capture
          ∷ fee_legs group_id t charge now;
    })

-- `NewRefundEntryGroup`.
unfoldable pub new_refund_entry_group : ℕ → Transaction → Amount → Time → Result Error EntryGroup
unfolding validate
new_refund_entry_group group_id t amount now =
    if not (is_positive amount)
    then err Error.invalid_amount
    else validated (record {
      id = group_id;
      entries =
          leg group_id t now (merchant_payable_account t.merchant_id) Direction.debit amount
            EventType.refund
          ∷ leg group_id t now Account.acquirer_receivable Direction.credit amount EventType.refund
          ∷ [];
    })

-- `NewSettlementEntryGroup`.
unfoldable pub new_settlement_entry_group :
    ℕ → Transaction → Amount → Time → Result Error EntryGroup
unfolding validate
new_settlement_entry_group group_id t net now =
    if not (is_positive net)
    then err Error.invalid_amount
    else validated (record {
      id = group_id;
      entries =
          leg group_id t now (merchant_payable_account t.merchant_id) Direction.debit net
            EventType.settlement
          ∷ leg group_id t now Account.platform_cash Direction.credit net EventType.settlement
          ∷ [];
    })

pub record Balance : Type 0 where
  pub account : Account
  pub currency : Currency
  pub debits : Amount
  pub credits : Amount

-- `Balance.Available`.
pub available : Balance → Amount
unfolding sub64
available b = sub64 b.credits b.debits

-- One round of the loop of `ComputeBalance`.
unfoldable pub book : LedgerEntry → Balance → Balance
unfolding add64
book e b =
    if not (account_eq e.account b.account) || not (str_eq e.currency b.currency)
    then b
    else if is_debit e.direction
    then record b { debits = add64 b.debits e.amount }
    else record b { credits = add64 b.credits e.amount }

unfoldable pub book_all : List LedgerEntry → Balance → Balance
unfolding book
book_all [] b = b
book_all (e ∷ es) b = book_all es (book e b)

unfoldable pub compute_balance : Account → Currency → List LedgerEntry → Balance
unfolding book_all
compute_balance account currency entries =
    book_all entries
      (record { account = account; currency = currency; debits = pos 0; credits = pos 0 })
