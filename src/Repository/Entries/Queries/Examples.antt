-- ===== src/Repository/Entries/Queries/Examples.antt =====
-- The folds of the journal of one capture and one refund.
use mini_payment_gateway.Prelude.{ℕ, ◌≡◌, refl, ◌↔◌, inl, inr, none, some, [], ◌∷◌, ok, err, arith}
use mini_payment_gateway.Prelude.Int.{pos, ◌+ℤ◌}
use mini_payment_gateway.Domain.Errors.{Error}
use mini_payment_gateway.Domain.Ledger.{
  Account, Direction, EventType, LedgerEntry, merchant_payable_account, compute_balance,
}
use mini_payment_gateway.Repository.{Store, empty_store}
use mini_payment_gateway.Repository.Books.{debits_of, credits_of}
use mini_payment_gateway.Repository.Entries.Appends.{sum_where}
use mini_payment_gateway.Repository.Entries.Queries.{
  balance, merchant_balance, list_by_transaction, count_entry_groups, find_unbalanced_groups,
}
use mini_payment_gateway.Repository.Entries.Queries.Balances.{balance-compute_balance}
use mini_payment_gateway.Repository.Entries.Queries.Invariant.{find_unbalanced_groups_iff}

abbrev line : ℕ → ℕ → Account → Direction → ℕ → EventType → LedgerEntry
line id group account direction amount event = record {
  id = id;
  entry_group_id = group;
  transaction_id = 9;
  account = account;
  merchant_id = some 7;
  direction = direction;
  amount = pos amount;
  currency = "VND";
  event_type = event;
  created_at = pos 0;
}

abbrev journal : Store
journal = record empty_store {
  entries =
      line 1 1 Account.acquirer_receivable Direction.debit 1000 EventType.capture
      ∷ line 2 1 (Account.merchant_payable 7) Direction.credit 980 EventType.capture
      ∷ line 3 1 Account.platform_fee_revenue Direction.credit 20 EventType.fee
      ∷ line 4 2 (Account.merchant_payable 7) Direction.debit 300 EventType.refund
      ∷ line 5 2 Account.acquirer_receivable Direction.credit 300 EventType.refund
      ∷ [];
  entry_seq = 5;
}

owed :
    merchant_balance none 7 "" journal
    ≡ ok (record {
      account = Account.merchant_payable 7;
      currency = "VND";
      debits = pos 300;
      credits = pos 980;
    })
unfolding merchant_balance ◌+ℤ◌
owed = refl

other_currency :
    merchant_balance none 7 "EUR" journal ≡ err (Error.invalid "currency" "must be one of VND, USD")
unfolding merchant_balance ◌+ℤ◌
other_currency = refl

one_capture :
    (count_entry_groups none 9 EventType.capture journal ≡ ok 1)
    × (list_by_transaction none 8 journal ≡ ok [])
unfolding count_entry_groups list_by_transaction
one_capture = (refl, refl)

broken :
    find_unbalanced_groups none (record journal {
      entries =
          line 6 3 Account.platform_cash Direction.debit 5 EventType.settlement ∷ journal.entries;
    })
    ≡ ok (3 ∷ [])
unfolding find_unbalanced_groups ◌+ℤ◌
broken = refl

balance-compute_balance_example :
    balance none 7 "VND" journal
    ≡ ok (compute_balance (merchant_payable_account 7) "VND" journal.entries)
unfolding sum_where ◌+ℤ◌
balance-compute_balance_example =
    balance-compute_balance 7 "VND" journal
      (
        (omega arith, inl refl, λ h. refl),
        (
          (omega arith, inr refl, λ h. refl),
          (
            (omega arith, inr refl, λ h. refl),
            ((omega arith, inl refl, λ h. refl), ((omega arith, inr refl, λ h. refl), tt)),
          ),
        ),
      )
      (omega arith, omega arith) (omega arith, omega arith)

find_unbalanced_groups_iff_example :
    (find_unbalanced_groups none journal ≡ ok [])
    ↔ ((group : ℕ) → debits_of group journal.entries ≡ credits_of group journal.entries)
find_unbalanced_groups_iff_example = find_unbalanced_groups_iff journal
