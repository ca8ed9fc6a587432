-- ===== src/Http/Ledger.antt =====
-- internal/transport/http/handler_ledger.go over internal/service/ledger_service.go: the pages of the
-- journal.
pub mod Walk
mod Examples
use mini_payment_gateway.Prelude.{
  ℕ, suc, ◌+◌, Bool, true, false, ◌&&◌, Option, none, some, List, [], ◌∷◌, Result, ok, err, ltb,
  if◌then◌else◌,
}
use mini_payment_gateway.Prelude.Int.{ℤ, pos}
use mini_payment_gateway.Prelude.Lists.{last, length, take}
use mini_payment_gateway.Domain.Errors.{Error}
use mini_payment_gateway.Domain.Transaction.{Time}
use mini_payment_gateway.Domain.Ledger.{LedgerEntry}
use mini_payment_gateway.Repository.{Store}
use mini_payment_gateway.Repository.Entries.Listing.{EntryFilter, list_entries}
use mini_payment_gateway.Text.{Bytes}
use mini_payment_gateway.Http.Request.{
  query_limit, query_time, encode_ledger_cursor, decode_ledger_cursor,
}

-- The parameters of the query.
pub record EntriesQuery : Type 0 where
  pub account : Bytes
  pub from : Bytes
  pub to : Bytes
  pub cursor : Bytes
  pub limit : Bytes

-- `LedgerListResponse`, its lines not yet written as JSON.
pub record LedgerListResponse : Type 0 where
  pub lines : List LedgerEntry
  pub has_more : Bool
  pub next_cursor : Bytes

-- What a listing uses of the outside: how `time.Parse` reads RFC 3339, the text of an id, and the
-- error of the query, if it fails.
pub record ReadEnv : Type 0 where
  pub parse_time : Bytes → Option Time
  pub uuid_text : ℕ → Bytes
  pub list_fault : Option Error

abbrev pub next_cursor_of : Option LedgerEntry → Bytes
next_cursor_of none = []
next_cursor_of (some e) = encode_ledger_cursor (pos e.id)

-- The response for the lines that were found, one more than the page at most.
unfoldable pub page_of : ℕ → List LedgerEntry → LedgerListResponse
unfolding encode_ledger_cursor
page_of limit entries =
    if ltb limit (length entries)
    then record {
      lines = take limit entries;
      has_more = true;
      next_cursor = next_cursor_of (last (take limit entries));
    }
    else record { lines = entries; has_more = false; next_cursor = [] }

-- The chain of tests, each of which may answer with an error.
infixl 5 ◌&>◌
abbrev pub ◌&>◌ : {A B : Type 0} → Result Error A → (A → Result Error B) → Result Error B
err e &> f = err e
ok a &> f = f a

abbrev pub filter_of : EntriesQuery → ℕ → Option Time → Option Time → Option ℤ → ℕ → EntryFilter
filter_of q merchant_id from to cursor limit = record {
  merchant_id = merchant_id;
  account = q.account;
  from = from;
  to = to;
  cursor_id = cursor;
  limit = limit + 1;
}

-- `LedgerHandler.Entries`.
unfoldable pub entries_handler :
    ReadEnv → ℕ → EntriesQuery → Store → Result Error LedgerListResponse
unfolding query_time decode_ledger_cursor query_limit list_entries page_of
entries_handler env merchant_id q s = query_time env.parse_time q.from "from" &> λ from.
    query_time env.parse_time q.to "to" &> λ to. decode_ledger_cursor q.cursor &> λ cursor.
    query_limit q.limit 50 200 &> λ limit.
    list_entries env.list_fault env.uuid_text (filter_of q merchant_id from to cursor limit) s
    &> λ entries. ok (page_of limit entries)
