-- ===== src/Http/Ledger/Examples.antt =====
-- Pages of a journal of four lines.
use mini_payment_gateway.Prelude.{ℕ, suc, ◌≡◌, refl, true, false, none, some, [], ◌∷◌, ok, arith}
use mini_payment_gateway.Prelude.Int.{pos}
use mini_payment_gateway.Prelude.Lists.{length}
use mini_payment_gateway.Domain.Ledger.{Account, Direction, EventType, LedgerEntry}
use mini_payment_gateway.Repository.{Store, empty_store}
use mini_payment_gateway.Text.{codes}
use mini_payment_gateway.Http.Request.{query_limit, query_time}
use mini_payment_gateway.Http.Ledger.{EntriesQuery, ReadEnv, entries_handler}
use mini_payment_gateway.Http.Ledger.Walk.{walk, asked_for, walk_complete}

abbrev line : ℕ → ℕ → LedgerEntry
line id merchant_id = record {
  id = id;
  entry_group_id = 1;
  transaction_id = 9;
  account = Account.acquirer_receivable;
  merchant_id = some merchant_id;
  direction = Direction.debit;
  amount = pos 100;
  currency = "VND";
  event_type = EventType.capture;
  created_at = pos 0;
}

abbrev journal : Store
journal = record empty_store {
  entries = line 1 7 ∷ line 2 7 ∷ line 3 8 ∷ line 4 7 ∷ [];
  entry_seq = 4;
}

abbrev env : ReadEnv
env = record { parse_time = λ s. none; uuid_text = λ id. id ∷ []; list_fault = none }

abbrev by_two : EntriesQuery
by_two = record { account = []; from = []; to = []; cursor = []; limit = codes "2" }

first_page :
    entries_handler env 7 by_two journal
    ≡ ok (record { lines = line 4 7 ∷ line 2 7 ∷ []; has_more = true; next_cursor = codes "Mg" })
unfolding entries_handler
first_page = refl

second_page :
    entries_handler env 7 (record by_two { cursor = codes "Mg" }) journal
    ≡ ok (record { lines = line 1 7 ∷ []; has_more = false; next_cursor = [] })
unfolding entries_handler
second_page = refl

walk_complete_example :
    walk env 7 by_two journal (suc (length (asked_for env 7 by_two none none journal))) []
    ≡ ok (asked_for env 7 by_two none none journal)
unfolding query_time query_limit
walk_complete_example =
    walk_complete env 7 by_two journal {from = none} {to = none} {n = 2} refl refl refl refl
      (ground arith) (ground arith)
