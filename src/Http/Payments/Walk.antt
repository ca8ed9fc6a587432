-- ===== src/Http/Payments/Walk.antt =====
-- A client that follows the cursors gets every payment once.
use mini_payment_gateway.Prelude.{
  ℕ, zero, suc, ◌+◌, ◌≤◌, ◌≡◌, refl, sym, ap, ◌∙◌, Bool, true, false, ◌&&◌, Bool-cases, inl, inr,
  Option, none, some, List, [], ◌∷◌, ◌++◌, map, ok, ltb, if◌then◌else◌, arith,
}
use mathlib.Core.Option
use mini_payment_gateway.Prelude.Lists.{
  filter_everything, length, take, take_all, take-take, length-take-suc, filter, last, last_All,
  filter-and, filter_same, All, All-filter, filter-Distinct,
}
use mini_payment_gateway.Prelude.Sorting.{IsSorted, All-sort_by, sort_by-IsSorted, filter-sort_by}
use mini_payment_gateway.Prelude.Paging.{rows, All-rows, IsClient, walk_all}
use mini_payment_gateway.Domain.Transaction.{Time, Status, Transaction}
use mini_payment_gateway.Repository.{Store, Faults, Statement, statement}
use mini_payment_gateway.Repository.Entries.Listing.{is_null_or, page_size}
use mini_payment_gateway.Repository.Transactions.Listing.{
  row_lt, row_key, lists, newer, sort_newest, list_transactions,
}
use mini_payment_gateway.Repository.Transactions.Listing.Order.{IsKeyed, newer-IsOrder}
use mini_payment_gateway.Text.{Bytes}
use mini_payment_gateway.Http.Request.{query_limit, query_time}
use mini_payment_gateway.Http.Request.Limits.{query_limit_bounds}
use mini_payment_gateway.Http.Request.Pages.{
  Texts, IsReadable, encode_cursor, decode_cursor, decode_cursor-encode_cursor,
}
use mini_payment_gateway.Http.Payments.{
  Reply, Server, PaymentResponse, PaymentListResponse, PaymentsQuery, to_payment_response,
  query_status, cursor_after, payments_page, list_filter, list_handler,
}

-- The payments of all the pages from a cursor on, with as many requests as are allowed; nothing if
-- one of them is refused.
abbrev after_page :
    List PaymentResponse → Option (List PaymentResponse) → Option (List PaymentResponse)
after_page front = Option.map (λ rest. front ++ rest)

-- What the client has got after an answer, with what it does with the next cursor.
abbrev followed :
    Reply PaymentListResponse
    → (Bytes → Option (List PaymentResponse))
    → Option (List PaymentResponse)
followed (Reply.replied status page) next = elim page.has_more [
  | true ↦ after_page page.payments (next page.next_cursor)
  | false ↦ some page.payments
]
followed (Reply.refused status body) next = none

pub walk : Server → Faults → ℕ → PaymentsQuery → Store → ℕ → Bytes → Option (List PaymentResponse)
walk server faults merchant_id q s zero cursor = some []
walk server faults merchant_id q s (suc k) cursor =
    followed (list_handler server faults merchant_id (record q { cursor = cursor }) s).0
      (walk server faults merchant_id q s k)

-- The rows that the query asks for, the newest first.
abbrev pub asked_for : ℕ → Option Status → Option Time → Option Time → Store → List Transaction
asked_for merchant_id status from to s =
    sort_newest (filter (lists (list_filter merchant_id status from to none 0)) s.transactions)

decode_cursor_nil : (texts : Texts) → decode_cursor texts [] ≡ ok none
unfolding decode_cursor
decode_cursor_nil texts = refl

map-append :
    (xs ys : List Transaction)
    → map to_payment_response xs ++ map to_payment_response ys ≡ map to_payment_response (xs ++ ys)
map-append [] ys = refl
map-append (x ∷ xs) ys = ap (λ r. to_payment_response x ∷ r) (map-append xs ys)

-- The page of what the query found is the page of all there is from the cursor on.
payments_page-take :
    (texts : Texts) (n : ℕ) (xs : List Transaction)
    → payments_page texts n (take (suc n) xs) ≡ (
        if ltb n (length xs)
        then record {
          payments = map to_payment_response (take n xs);
          has_more = true;
          next_cursor = cursor_after texts (last (take n xs));
        }
        else record { payments = map to_payment_response xs; has_more = false; next_cursor = [] })
unfolding payments_page
payments_page-take texts n xs = elim (Bool-cases (ltb n (length xs))) [
  | inl h ↦ rw (length-take-suc n xs, h, take-take n xs) refl
  | inr h ↦ rw (length-take-suc n xs, h, take_all (suc n) xs (ground arith)) refl
]

page_size-suc : (n : ℕ) → n ≤ 100 → page_size (n + 1) ≡ suc n
page_size-suc n h = ground arith

module _ (server : Server) (faults : Faults) (merchant_id : ℕ) (q : PaymentsQuery) (s : Store)
    {status : Option Status} {from to : Option Time} {n : ℕ}
    (read_status : query_status server.read_status q.status ≡ ok status)
    (read_from : query_time server.read_time q.from "from" ≡ ok from)
    (read_to : query_time server.read_time q.to "to" ≡ ok to)
    (read_limit : query_limit q.limit 25 100 ≡ ok n)
    (answers : faults Statement.list_transactions ≡ none) (keyed : IsKeyed s.transactions)
    (readable : All (λ t. IsReadable server.texts t.created_at t.id) s.transactions) where
  all_rows : List Transaction
  all_rows = asked_for merchant_id status from to s

  all_rows-IsSorted : IsSorted newer all_rows
  unfolding all_rows sort_newest
  all_rows-IsSorted =
      sort_by-IsSorted newer newer-IsOrder _ (filter-Distinct _ _ s.transactions keyed)

  bounds : (1 ≤ n) × (n ≤ 100)
  bounds = query_limit_bounds q.limit 25 100 {n = n} (omega arith) (omega arith) read_limit

  -- The cursor of a row.
  abbrev cursor_of : Option Transaction → Option (Time × ℕ)
  cursor_of none = none
  cursor_of (some x) = some (row_key x)

  abbrev before : Option (Time × ℕ) → Transaction → Bool
  before cursor t = is_null_or cursor (λ c. row_lt (row_key t) c)

  before-rows :
      (o : Option Transaction) → filter (before (cursor_of o)) all_rows ≡ rows newer all_rows o
  before-rows none = filter_everything all_rows
  before-rows (some x) = refl

  -- The cursor is one more condition.
  lists-before :
      (o : Option Transaction) (t : Transaction)
      → lists (list_filter merchant_id status from to (cursor_of o) n) t
        ≡ (lists (list_filter merchant_id status from to none 0) t && before (cursor_of o) t)
  unfolding lists
  lists-before o t = ground arith

  found-rows :
      (o : Option Transaction)
      → sort_newest
          (filter (lists (list_filter merchant_id status from to (cursor_of o) n)) s.transactions)
        ≡ rows newer all_rows o
  unfolding all_rows sort_newest
  found-rows o =
      let asked = lists (list_filter merchant_id status from to none 0) in
      ap sort_newest (
        filter_same _ (λ t. asked t && before (cursor_of o) t) (lists-before o) s.transactions
        ∙ filter-and asked (before (cursor_of o)) s.transactions)
      ∙ (sym (
            filter-sort_by newer newer-IsOrder (before (cursor_of o)) (filter asked s.transactions)
              (filter-Distinct _ asked s.transactions keyed))
          ∙ before-rows o)

  reply :
      (raw : Bytes) (o : Option Transaction)
      → decode_cursor server.texts raw ≡ ok (cursor_of o)
      → (list_handler server faults merchant_id (record q { cursor = raw }) s).0
        ≡ Reply.replied 200 (payments_page server.texts n (take (suc n) (rows newer all_rows o)))
  unfolding list_handler list_transactions
  reply raw o read =
      rw
        (
          read_status,
          read_from,
          read_to,
          read,
          read_limit,
          statement,
          answers,
          page_size-suc n bounds.1,
          found-rows o,
        )
        refl

  All-IsReadable :
      (o : Option Transaction)
      → All (λ t. IsReadable server.texts t.created_at t.id) (rows newer all_rows o)
  unfolding all_rows sort_newest
  All-IsReadable o =
      All-rows newer all_rows (λ t. IsReadable server.texts t.created_at t.id) o
        (All-sort_by newer (λ t. IsReadable server.texts t.created_at t.id) _
          (All-filter _ _ s.transactions readable))

  walk-IsClient :
      IsClient newer all_rows n
        (λ raw o. decode_cursor server.texts raw ≡ ok (cursor_of o))
        (λ ts. some (map to_payment_response ts))
        (λ ts. after_page (map to_payment_response ts))
        (walk server faults merchant_id q s)
  unfolding walk encode_cursor cursor_after
  walk-IsClient = record {
    prepends = λ xs ys. ap some (map-append xs ys);
    ends = λ k raw o read h.
        rw (reply raw o read, payments_page-take server.texts n (rows newer all_rows o), h) refl;
    goes_on = λ k raw o {x} read h found. (
      encode_cursor server.texts x.created_at x.id,
      decode_cursor-encode_cursor server.texts x.created_at x.id (
          last_All (λ t. IsReadable server.texts t.created_at t.id) n (rows newer all_rows o)
            {x = x} (All-IsReadable o) found),
      rw (reply raw o read, payments_page-take server.texts n (rows newer all_rows o), h, found)
          refl,
    );
  }

  -- A client of GET /payments that starts with no cursor and sends the cursor of each page with the
  -- next request gets every payment of the merchant that the query asks for, once, the newest
  -- first, also where payments have one time, if no two rows have one id, the times and ids of the
  -- rows are read back from their texts, the parameters are accepted and the query does not fail.
  pub payments_walk :
      walk server faults merchant_id q s (suc (length (asked_for merchant_id status from to s))) []
      ≡ some (map to_payment_response (asked_for merchant_id status from to s))
  unfolding all_rows
  payments_walk =
      walk_all newer all_rows newer-IsOrder all_rows-IsSorted bounds.0 walk-IsClient _ [] none
        (decode_cursor_nil server.texts) (omega arith)
