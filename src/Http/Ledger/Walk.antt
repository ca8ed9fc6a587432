-- ===== src/Http/Ledger/Walk.antt =====
-- A client that follows the cursors gets every line once.
use mini_payment_gateway.Prelude.{
  ℕ, zero, suc, ◌+◌, ◌≤◌, ◌<◌, ◌≡◌, refl, sym, ap, ◌∙◌, true, false, ◌&&◌, Bool-cases, inl, inr,
  Option, none, some, List, [], ◌++◌, Result, ok, ltb, if◌then◌else◌, arith,
}
use mini_payment_gateway.Prelude.Int.{ℤ, pos, ltb_ℤ}
use mini_payment_gateway.Prelude.Int64.{half_range}
use mini_payment_gateway.Prelude.Lists.{
  filter_everything, length, take, filter, take_all, take-take, length-take-suc, last, last_All,
  filter-and, filter_same, All, All-filter, filter-Distinct,
}
use mini_payment_gateway.Domain.Errors.{Error}
use mini_payment_gateway.Domain.Transaction.{Time}
use mini_payment_gateway.Domain.Ledger.{LedgerEntry}
use mini_payment_gateway.Repository.{Store}
use mini_payment_gateway.Repository.Entries.Listing.{
  selects, before_cursor, newer, sort_desc, page_size, list_entries,
}
use mini_payment_gateway.Prelude.Sorting.{IsSorted, All-sort_by, sort_by-IsSorted, filter-sort_by}
use mini_payment_gateway.Prelude.Paging.{rows, All-rows, IsClient, walk_all}
use mini_payment_gateway.Repository.Entries.Listing.Order.{IsKeyed, newer-IsOrder}
use mini_payment_gateway.Text.{Bytes}
use mini_payment_gateway.Http.Request.{
  query_limit, query_time, encode_ledger_cursor, decode_ledger_cursor,
}
use mini_payment_gateway.Http.Request.Cursors.{decode_ledger_cursor-encode_ledger_cursor}
use mini_payment_gateway.Http.Request.Limits.{query_limit_bounds}
use mini_payment_gateway.Http.Ledger.{
  EntriesQuery, ReadEnv, next_cursor_of, page_of, ◌&>◌, filter_of, entries_handler,
}

-- The lines of all the pages from a cursor on, with as many requests as are allowed.
abbrev after : List LedgerEntry → Result Error (List LedgerEntry) → Result Error (List LedgerEntry)
after front r = r &> λ rest. ok (front ++ rest)

pub walk : ReadEnv → ℕ → EntriesQuery → Store → ℕ → Bytes → Result Error (List LedgerEntry)
unfolding entries_handler
walk env merchant_id q s zero cursor = ok []
walk env merchant_id q s (suc k) cursor =
    entries_handler env merchant_id (record q { cursor = cursor }) s &> λ resp. elim resp.has_more [
      | true ↦ after resp.lines (walk env merchant_id q s k resp.next_cursor)
      | false ↦ ok resp.lines
    ]

-- The lines that the query asks for, the newest first.
abbrev pub asked_for :
    ReadEnv → ℕ → EntriesQuery → Option Time → Option Time → Store → List LedgerEntry
asked_for env merchant_id q from to s =
    sort_desc (filter (selects env.uuid_text (filter_of q merchant_id from to none 0)) s.entries)

decode_ledger_cursor_nil : decode_ledger_cursor [] ≡ ok none
unfolding decode_ledger_cursor
decode_ledger_cursor_nil = refl

-- The page of what the query found is the page of all there is from the cursor on.
page_of-take :
    (n : ℕ) (xs : List LedgerEntry)
    → page_of n (take (suc n) xs) ≡ (
        if ltb n (length xs)
        then record {
          lines = take n xs;
          has_more = true;
          next_cursor = next_cursor_of (last (take n xs));
        }
        else record { lines = xs; has_more = false; next_cursor = [] })
unfolding page_of
page_of-take n xs = elim (Bool-cases (ltb n (length xs))) [
  | inl h ↦ rw (length-take-suc n xs, h, take-take n xs) refl
  | inr h ↦ rw (length-take-suc n xs, h, take_all (suc n) xs (ground arith)) refl
]

page_size-suc : (n : ℕ) → n ≤ 200 → page_size (n + 1) ≡ suc n
page_size-suc n h = ground arith

module _ (env : ReadEnv) (merchant_id : ℕ) (q : EntriesQuery) (s : Store) {from to : Option Time}
    {n : ℕ} (read_from : query_time env.parse_time q.from "from" ≡ ok from)
    (read_to : query_time env.parse_time q.to "to" ≡ ok to)
    (read_limit : query_limit q.limit 50 200 ≡ ok n) (answers : env.list_fault ≡ none)
    (keyed : IsKeyed s.entries) (fits : All (λ e. e.id < half_range) s.entries) where
  all_rows : List LedgerEntry
  all_rows = asked_for env merchant_id q from to s

  all_rows-IsSorted : IsSorted newer all_rows
  unfolding all_rows sort_desc
  all_rows-IsSorted = sort_by-IsSorted newer newer-IsOrder _ (filter-Distinct _ _ s.entries keyed)

  bounds : (1 ≤ n) × (n ≤ 200)
  bounds = query_limit_bounds q.limit 50 200 {n = n} (omega arith) (omega arith) read_limit

  -- The cursor of a line.
  abbrev cursor_of : Option LedgerEntry → Option ℤ
  cursor_of none = none
  cursor_of (some x) = some (pos x.id)

  before_cursor-rows :
      (o : Option LedgerEntry)
      → filter (before_cursor (cursor_of o)) all_rows ≡ rows newer all_rows o
  unfolding before_cursor
  before_cursor-rows none = filter_everything all_rows
  before_cursor-rows (some x) =
      filter_same (λ e. ltb_ℤ (pos e.id) (pos x.id)) (newer x) (λ y. ground arith) all_rows

  found-rows :
      (o : Option LedgerEntry)
      → sort_desc (
          filter
            (λ e.
              selects env.uuid_text (filter_of q merchant_id from to (cursor_of o) n) e
              && before_cursor (cursor_of o) e)
            s.entries)
        ≡ rows newer all_rows o
  unfolding all_rows selects sort_desc
  found-rows o =
      ap sort_desc (filter-and _ (before_cursor (cursor_of o)) s.entries)
      ∙ (sym (
            filter-sort_by newer newer-IsOrder (before_cursor (cursor_of o)) _
              (filter-Distinct _ _ s.entries keyed))
          ∙ before_cursor-rows o)

  reply :
      (raw : Bytes) (o : Option LedgerEntry)
      → decode_ledger_cursor raw ≡ ok (cursor_of o)
      → entries_handler env merchant_id (record q { cursor = raw }) s
        ≡ ok (page_of n (take (suc n) (rows newer all_rows o)))
  unfolding entries_handler list_entries
  reply raw o read =
      rw (read_from, read_to, read, read_limit, answers, page_size-suc n bounds.1, found-rows o)
        refl

  rows-fit : (o : Option LedgerEntry) → All (λ e. e.id < half_range) (rows newer all_rows o)
  unfolding all_rows sort_desc
  rows-fit o =
      All-rows newer all_rows (λ e. e.id < half_range) o
        (All-sort_by newer (λ e. e.id < half_range) _ (All-filter _ _ s.entries fits))

  walk-IsClient :
      IsClient newer all_rows n
        (λ raw o. decode_ledger_cursor raw ≡ ok (cursor_of o))
        ok
        after
        (walk env merchant_id q s)
  unfolding walk
  walk-IsClient = record {
    prepends = λ xs ys. refl;
    ends = λ k raw o read h. rw (reply raw o read, page_of-take n (rows newer all_rows o), h) refl;
    goes_on = λ k raw o {x} read h found. (
      encode_ledger_cursor (pos x.id),
      decode_ledger_cursor-encode_ledger_cursor (pos x.id) (
          ground (
            arith,
            last_All (λ e. e.id < half_range) n (rows newer all_rows o) {x = x} (rows-fit o) found,
          )),
      rw (reply raw o read, page_of-take n (rows newer all_rows o), h, found) refl,
    );
  }

  -- A client that starts with no cursor and sends the cursor of each page with the next request
  -- gets every line of the merchant that the query asks for, once, the newest first, where no two
  -- lines have one id, the ids fit an int64, the parameters are accepted and the query does not
  -- fail.
  pub walk_complete :
      walk env merchant_id q s (suc (length (asked_for env merchant_id q from to s))) []
      ≡ ok (asked_for env merchant_id q from to s)
  unfolding all_rows
  walk_complete =
      walk_all newer all_rows newer-IsOrder all_rows-IsSorted bounds.0 walk-IsClient _ [] none
        decode_ledger_cursor_nil (omega arith)
