-- ===== src/Repository/Entries/Aggregates/Totals.antt =====
-- The journal's totals of a day are the sums over the transactions of the day.
use mini_payment_gateway.Prelude.{
  ℕ, ◌≡◌, refl, sym, ap, ◌∙◌, subst, inl, inr, Bool, true, false, ◌&&◌, Bool-cases, Option, none,
  some, List, [], ◌∷◌, map, ok, ◌==◌, str_eq, if◌then◌else◌, arith,
}
use mini_payment_gateway.Prelude.Int.{ℤ, pos}
use mini_payment_gateway.Prelude.Lists.{
  All-filter, filter, All, All-every, All-map, All-imp, Distinct-found,
}
use mini_payment_gateway.Prelude.Sorting.{sort_by, All-sort_by}
use mini_payment_gateway.Repository.Entries.Aggregates.Groups.{unreported_lines}
use mini_payment_gateway.Repository.Entries.Aggregates.Rows.{
  sum_where-none, sum_where-same, sum_where-filter, by_row, sum_where-by_row,
}
use mini_payment_gateway.Prelude.Sums.{sum_of, sum_of-sort_by, sum_of-filter, sum_of-same}
use mini_payment_gateway.Money.{Amount}
use mini_payment_gateway.Domain.Errors.{Error}
use mini_payment_gateway.Domain.Transaction.{Time, Transaction}
use mini_payment_gateway.Domain.Transaction.Validity.{IsValid, is_funded}
use mini_payment_gateway.Domain.Ledger.{LedgerEntry}
use mini_payment_gateway.Repository.{Store, Faults}
use mini_payment_gateway.Repository.Books.{
  is_captured_leg, is_refunded_leg, of_transaction, captured_of, refunded_of, Agrees, IsSound,
}
use mini_payment_gateway.Repository.Entries.Appends.{sum_where}
use mini_payment_gateway.Repository.Entries.Aggregates.{
  DailyTotals, GroupKey, in_window, in_group, totals_of, has_total, aggregate_by_merchant, key_leb,
  group_keys, scan_totals, all_fit,
}
use mini_payment_gateway.Repository.Transactions.{find_id}
use mini_payment_gateway.Repository.Transactions.Listing.{
  captured_in, was_captured, merchant_leb, sort_by_merchant, list_captured_between,
}
use mini_payment_gateway.Repository.Transactions.Listing.Order.{IsKeyed}

-- A line belongs to a transaction that is there, and names its merchant and its currency.
pub record IsAttributed (ts : List Transaction) (e : LedgerEntry) : Type 0 where
  pub row : Transaction
  pub found : find_id e.transaction_id ts ≡ some row
  pub merchant : e.merchant_id ≡ some row.merchant_id
  pub currency : e.currency ≡ row.currency

-- The transactions of a merchant and a currency.
abbrev pub has_key : GroupKey → Transaction → Bool
has_key key t = t.merchant_id == key.0 && str_eq t.currency key.1

unfunded_refund :
    (t : Transaction) → IsValid t → is_funded t.status ≡ false → t.refunded_amount ≡ pos 0
unfunded_refund t valid h =
    ground (arith, valid.unfunded h, valid.refunded_nonneg, valid.refunded_le)

module _ (from to : Time) (s : Store) (key : GroupKey) where
  -- The transactions of the day and of the group.
  abbrev of_day : Transaction → Bool
  of_day t = captured_in from to t.captured_at && has_key key t

  -- A line of the day and of the group, by its row.
  selected :
      (leg : LedgerEntry → Bool) (es : List LedgerEntry)
      → All (IsAttributed s.transactions) es
      → All
          (λ e.
            (in_window from to s.transactions e && (in_group key e && leg e))
            ≡ by_row of_day leg s.transactions e)
          es
  selected leg [] h = tt
  selected leg (e ∷ es) (a, h) =
      (rw (a.found, a.merchant, a.currency) (ground arith), selected leg es h)

  journal_side :
      (leg : LedgerEntry → Bool)
      → IsKeyed s.transactions
      → All (IsAttributed s.transactions) s.entries
      → sum_where
          (λ e. in_group key e && leg e)
          (filter (in_window from to s.transactions) s.entries)
        ≡ sum_of
            (λ t. if of_day t then sum_where (of_transaction t.id leg) s.entries else pos 0)
            s.transactions
  journal_side leg keyed attributed =
      sum_where-filter (in_window from to s.transactions) (λ e. in_group key e && leg e) s.entries
      ∙ (sum_where-same _ (by_row of_day leg s.transactions) s.entries
            (selected leg s.entries attributed)
          ∙ sum_where-by_row of_day leg s.transactions s.entries keyed)

  -- A sum over the listing of the day.
  listing_side :
      (f : Transaction → Amount)
      → sum_of f
          (filter (has_key key) (sort_by_merchant (filter (was_captured from to) s.transactions)))
        ≡ sum_of
            (λ t. if was_captured from to t then (if has_key key t then f t else pos 0) else pos 0)
            s.transactions
  unfolding sort_by_merchant
  listing_side f =
      sum_of-filter f (has_key key) _
      ∙ (sum_of-sort_by (λ t. if has_key key t then f t else pos 0) merchant_leb
            (filter (was_captured from to) s.transactions)
          ∙ sum_of-filter (λ t. if has_key key t then f t else pos 0) (was_captured from to)
              s.transactions)

  -- Row by row, where the lines of a row are worth what it says, nothing if it is not funded.
  per_row :
      (f : Transaction → Amount) (worth : ℕ → ℤ) (ts : List Transaction)
      → All (λ t. (worth t.id ≡ f t) × (is_funded t.status ≡ false → f t ≡ pos 0)) ts
      → All
          (λ t.
            (if of_day t then worth t.id else pos 0)
            ≡ (if was_captured from to t then (if has_key key t then f t else pos 0) else pos 0))
          ts
  per_row f worth [] h = tt
  per_row f worth (t ∷ ts) ((same, unfunded), h) =
      ((rw same (ground (arith, unfunded))), per_row f worth ts h)

  module _ (keyed : IsKeyed s.transactions) (sound : IsSound s)
      (attributed : All (IsAttributed s.transactions) s.entries) where
    row-Agrees : All (λ t. Agrees t.id (some t) s.entries) s.transactions
    row-Agrees =
        All-imp (λ t. find_id t.id s.transactions ≡ some t) (λ t. Agrees t.id (some t) s.entries)
          (λ t found. subst (λ o. Agrees t.id o s.entries) found (sound.agrees t.id)) s.transactions
          (Distinct-found (λ t. t.id) s.transactions keyed)

    captured_agrees :
        sum_where
          (λ e. in_group key e && is_captured_leg e)
          (filter (in_window from to s.transactions) s.entries)
        ≡ sum_of
            (λ t. t.captured_amount)
            (filter (has_key key) (sort_by_merchant (filter (was_captured from to) s.transactions)))
    captured_agrees =
        journal_side is_captured_leg keyed attributed
        ∙ (sum_of-same _ _ s.transactions (
              per_row (λ t. t.captured_amount) (λ id. captured_of id s.entries) s.transactions
                (All-imp (λ t. Agrees t.id (some t) s.entries) _
                  (λ t (valid, c, r). (c, valid.unfunded)) s.transactions row-Agrees))
            ∙ sym (listing_side (λ t. t.captured_amount)))

    refunded_agrees :
        sum_where
          (λ e. in_group key e && is_refunded_leg e)
          (filter (in_window from to s.transactions) s.entries)
        ≡ sum_of
            (λ t. t.refunded_amount)
            (filter (has_key key) (sort_by_merchant (filter (was_captured from to) s.transactions)))
    refunded_agrees =
        journal_side is_refunded_leg keyed attributed
        ∙ (sum_of-same _ _ s.transactions (
              per_row (λ t. t.refunded_amount) (λ id. refunded_of id s.entries) s.transactions
                (All-imp (λ t. Agrees t.id (some t) s.entries) _
                  (λ t (valid, c, r). (r, λ h. unfunded_refund t valid h)) s.transactions
                  row-Agrees))
            ∙ sym (listing_side (λ t. t.refunded_amount)))

scan_totals_ok :
    (ds : List DailyTotals) {totals : List DailyTotals}
    → scan_totals ds ≡ ok totals
    → (totals ≡ ds) × (all_fit totals ≡ true)
scan_totals_ok ds {totals} h = elim (Bool-cases (all_fit ds)) [
  | inl k ↦ let same : totals ≡ ds = ground (arith, k) in (same, ap all_fit same ∙ k)
  | inr k ↦ absurd (ground (arith, k))
]

-- The totals that the query gives, which all fit, are those of the groups of the lines of the day.
found_totals :
    (fault : Option Error) (from to : Time) (s : Store) {totals : List DailyTotals}
    → aggregate_by_merchant fault from to s ≡ ok totals
    → (totals
        ≡ map
            (totals_of (filter (in_window from to s.transactions) s.entries))
            (sort_by key_leb (group_keys (filter (in_window from to s.transactions) s.entries))))
      × (all_fit totals ≡ true)
unfolding aggregate_by_merchant
found_totals (some e) from to s h = absurd (ground arith)
found_totals none from to s h = scan_totals_ok _ h

found_listing :
    (faults : Faults) (from to : Time) (s : Store) {txns : List Transaction} {s' : Store}
    → list_captured_between faults from to s ≡ (ok txns, s')
    → txns ≡ sort_by_merchant (filter (was_captured from to) s.transactions)
unfolding list_captured_between
found_listing faults from to s h = ground arith

-- For each merchant and currency that AggregateByMerchant reports of a day, the captured and the
-- refunded total of the journal are the sums of the captured and of the refunded amounts of the
-- transactions that ListCapturedBetween lists of that day, if the books are sound, the ids of the
-- rows are distinct, and each line of the journal belongs to a row and names its merchant and its
-- currency.
pub aggregate_by_merchant-list_captured_between :
    (fault : Option Error) (faults : Faults) (from to : Time) (s : Store)
    {totals : List DailyTotals} {txns : List Transaction} {s' : Store}
    → IsKeyed s.transactions
    → IsSound s
    → All (IsAttributed s.transactions) s.entries
    → aggregate_by_merchant fault from to s ≡ ok totals
    → list_captured_between faults from to s ≡ (ok txns, s')
    → All
        (λ d.
          (d.captured
            ≡ sum_of (λ t. t.captured_amount) (filter (has_key (d.merchant_id, d.currency)) txns))
          × (d.refunded
              ≡ sum_of
                  (λ t. t.refunded_amount)
                  (filter (has_key (d.merchant_id, d.currency)) txns)))
        totals
aggregate_by_merchant-list_captured_between fault faults from to s {totals} {txns} {s'} keyed sound
      attributed h k =
    let lines = filter (in_window from to s.transactions) s.entries in
    let keys = sort_by key_leb (group_keys lines) in
    let (e, fit) = found_totals fault from to s {totals = totals} h in
    rw (e, found_listing faults from to s {txns = txns} {s' = s'} k)
      (All-map _ (totals_of (filter (in_window from to s.transactions) s.entries)) keys (
        All-every _
          (λ key. (
            captured_agrees from to s key keyed sound attributed,
            refunded_agrees from to s key keyed sound attributed,
          ))
          keys))

-- The totals of a query that succeeds fit an int64.
pub aggregate_by_merchant_fits :
    (fault : Option Error) (from to : Time) (s : Store) {totals : List DailyTotals}
    → aggregate_by_merchant fault from to s ≡ ok totals
    → all_fit totals ≡ true
aggregate_by_merchant_fits fault from to s {totals} h =
    (found_totals fault from to s {totals = totals} h).1

no_sum :
    (k : GroupKey) (leg : LedgerEntry → Bool) (es : List LedgerEntry)
    → All (λ e. in_group k e ≡ false) es
    → sum_where (λ e. in_group k e && leg e) es ≡ pos 0
no_sum k leg es h =
    sum_where-same _ (λ e. false) es
      (All-imp (λ e. in_group k e ≡ false) _ (λ e n. ap (λ b. b && leg e) n) es h)
    ∙ sum_where-none (λ e. false) (λ e. refl) es

-- A merchant and currency that are not reported have nothing in the listing.
pub unreported_totals :
    (fault : Option Error) (faults : Faults) (from to : Time) (s : Store)
    {totals : List DailyTotals} {txns : List Transaction} {s' : Store}
    → IsKeyed s.transactions
    → IsSound s
    → All (IsAttributed s.transactions) s.entries
    → aggregate_by_merchant fault from to s ≡ ok totals
    → list_captured_between faults from to s ≡ (ok txns, s')
    → (k : GroupKey) → has_total k totals ≡ false
    → (sum_of (λ t. t.captured_amount) (filter (has_key k) txns) ≡ pos 0)
      × (sum_of (λ t. t.refunded_amount) (filter (has_key k) txns) ≡ pos 0)
unreported_totals fault faults from to s {totals} {txns} {s'} keyed sound attributed h l k n =
    let lines = filter (in_window from to s.transactions) s.entries in
    let silent =
      unreported_lines lines k
        (ap (has_total k) (sym (found_totals fault from to s {totals = totals} h).0) ∙ n) in
    rw (found_listing faults from to s {txns = txns} {s' = s'} l) (
      sym (captured_agrees from to s k keyed sound attributed)
          ∙ no_sum k is_captured_leg lines silent,
      sym (refunded_agrees from to s k keyed sound attributed)
          ∙ no_sum k is_refunded_leg lines silent,
    )

-- The rows of the listing are well-formed.
pub list_captured_between-IsValid :
    (faults : Faults) (from to : Time) (s : Store) {txns : List Transaction} {s' : Store}
    → IsKeyed s.transactions
    → IsSound s
    → list_captured_between faults from to s ≡ (ok txns, s')
    → All IsValid txns
unfolding sort_by_merchant
list_captured_between-IsValid faults from to s {txns} {s'} keyed sound l =
    rw (found_listing faults from to s {txns = txns} {s' = s'} l) (
      All-sort_by merchant_leb IsValid _ (
        All-filter IsValid (was_captured from to) s.transactions (
          All-imp (λ t. find_id t.id s.transactions ≡ some t) IsValid
            (λ t found. (subst (λ o. Agrees t.id o s.entries) found (sound.agrees t.id)).0)
            s.transactions (Distinct-found (λ t. t.id) s.transactions keyed))))
