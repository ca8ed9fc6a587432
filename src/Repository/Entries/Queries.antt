-- ===== src/Repository/Entries/Queries.antt =====
-- The queries of internal/repository/ledger_repo.go that fold the journal, and
-- internal/service/ledger_service.go over them. A SUM is taken in arbitrary precision, and is an error
-- where it does not fit the int64 that it is scanned into.
pub mod Balances
pub mod Invariant
mod Examples
use mini_payment_gateway.Prelude.{
  ℕ, Bool, true, false, not, ◌&&◌, Option, none, some, List, [], ◌∷◌, Result, ok, err, ◌==◌, str_eq,
  if◌then◌else◌,
}
use mini_payment_gateway.Prelude.Int.{ℤ, pos, ltb_ℤ, eqb_ℤ}
use mini_payment_gateway.Prelude.Int64.{min_int64, max_int64}
use mini_payment_gateway.Prelude.Lists.{filter, length}
use mini_payment_gateway.Money.{Amount, Currency, vnd, currency_valid}
use mini_payment_gateway.Domain.Errors.{Error}
use mini_payment_gateway.Domain.Ledger.{
  Account, Direction, EventType, LedgerEntry, Balance, account_eq, is_debit,
  merchant_payable_account,
}
use mini_payment_gateway.Repository.{Store}
use mini_payment_gateway.Repository.Books.{is_credit, debits_of, credits_of}
use mini_payment_gateway.Repository.Entries.Appends.{sum_where}
use mini_payment_gateway.Repository.Entries.Listing.{belongs_to}

abbrev pub fits : ℤ → Bool
fits a = not (ltb_ℤ max_int64 a) && not (ltb_ℤ a min_int64)

-- The WHERE of `Balance`.
abbrev pub of_balance : ℕ → Currency → LedgerEntry → Bool
of_balance merchant_id currency e =
    belongs_to merchant_id e.merchant_id
    && (account_eq e.account (merchant_payable_account merchant_id) && str_eq e.currency currency)

abbrev pub balance_debits : ℕ → Currency → List LedgerEntry → ℤ
balance_debits merchant_id currency =
    sum_where (λ e. of_balance merchant_id currency e && is_debit e.direction)

abbrev pub balance_credits : ℕ → Currency → List LedgerEntry → ℤ
balance_credits merchant_id currency =
    sum_where (λ e. of_balance merchant_id currency e && is_credit e.direction)

-- `LedgerRepo.Balance`.
unfoldable pub balance : Option Error → ℕ → Currency → Store → Result Error Balance
unfolding sum_where
balance (some e) merchant_id currency s = err e
balance none merchant_id currency s =
    let debits = balance_debits merchant_id currency s.entries in
    let credits = balance_credits merchant_id currency s.entries in
    if not (fits debits && fits credits)
    then err Error.internal
    else ok (record {
      account = merchant_payable_account merchant_id;
      currency = currency;
      debits = debits;
      credits = credits;
    })

-- `LedgerService.Balance`.
pub merchant_balance : Option Error → ℕ → Currency → Store → Result Error Balance
unfolding balance currency_valid
merchant_balance fault merchant_id currency s =
    let c = if str_eq currency "" then vnd else currency in
    if not (currency_valid c)
    then err (Error.invalid "currency" "must be one of VND, USD")
    else balance fault merchant_id c s

-- `ListByTransaction`, whose order is that of the sequence.
pub list_by_transaction : Option Error → ℕ → Store → Result Error (List LedgerEntry)
list_by_transaction (some e) tx_id s = err e
list_by_transaction none tx_id s = ok (filter (λ e. e.transaction_id == tx_id) s.entries)

abbrev mem : ℕ → List ℕ → Bool
mem g [] = false
mem g (h ∷ hs) = if h == g then true else mem g hs

-- The distinct ids of entry groups.
unfoldable pub group_ids : List LedgerEntry → List ℕ
group_ids [] = []
group_ids (e ∷ es) =
    let rest = group_ids es in if mem e.entry_group_id rest then rest else e.entry_group_id ∷ rest

abbrev event_eq : EventType → EventType → Bool
event_eq EventType.capture EventType.capture = true
event_eq EventType.refund EventType.refund = true
event_eq EventType.fee EventType.fee = true
event_eq EventType.settlement EventType.settlement = true
event_eq _ _ = false

-- `CountEntryGroups`.
pub count_entry_groups : Option Error → ℕ → EventType → Store → Result Error ℕ
unfolding group_ids
count_entry_groups (some e) tx_id event s = err e
count_entry_groups none tx_id event s = ok (
    length (
      group_ids (filter (λ e. e.transaction_id == tx_id && event_eq e.event_type event) s.entries)))

abbrev pub is_unbalanced : List LedgerEntry → ℕ → Bool
is_unbalanced es g = not (eqb_ℤ (debits_of g es) (credits_of g es))

-- `FindUnbalancedGroups`, its sums left out, and `CheckInvariant`.
unfoldable pub find_unbalanced_groups : Option Error → Store → Result Error (List ℕ)
unfolding group_ids sum_where
find_unbalanced_groups (some e) s = err e
find_unbalanced_groups none s = ok (filter (is_unbalanced s.entries) (group_ids s.entries))
