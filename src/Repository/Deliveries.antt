-- ===== src/Repository/Deliveries.antt =====
-- internal/repository/webhook_repo.go: the outbox. `now()` in a statement is the database's clock.
pub mod Claims
pub mod Effects
use mini_payment_gateway.Prelude.{
  ℕ, Bool, true, false, not, ◌&&◌, Option, none, some, List, [], ◌∷◌, ◌++◌, map, ok, err, ◌==◌,
  is_some, if◌then◌else◌,
}
use mini_payment_gateway.Prelude.Int.{ℤ, ◌-ℤ◌, leb_ℤ, ltb_ℤ}
use mini_payment_gateway.Prelude.Lists.{length, find, filter, take}
use mini_payment_gateway.Prelude.Sorting.{sort_by}
use mini_payment_gateway.Domain.Errors.{Error}
use mini_payment_gateway.Domain.Transaction.{Time}
use mini_payment_gateway.Domain.Webhook.{DeliveryStatus, WebhookDelivery}
use mini_payment_gateway.Repository.{Statement, Faults, Query, statement}

-- `Create`.
unfoldable pub create : Faults → WebhookDelivery → Query (Unit {0})
create faults d =
    statement faults Statement.insert_delivery
      λ s. (ok tt, record s { deliveries = s.deliveries ++ d ∷ [] })

abbrev pub has_delivery_id : ℕ → WebhookDelivery → Bool
has_delivery_id id d = d.id == id

abbrev pub find_delivery : ℕ → List WebhookDelivery → Option WebhookDelivery
find_delivery id = find (has_delivery_id id)

-- `status IN ('pending', 'failed')`.
abbrev pub is_queued : DeliveryStatus → Bool
is_queued DeliveryStatus.pending = true
is_queued DeliveryStatus.failed = true
is_queued _ = false

abbrev pub is_due : Time → WebhookDelivery → Bool
is_due now d = is_queued d.status && leb_ℤ d.next_attempt_at now

-- `ORDER BY next_attempt_at`; rows of one time stay in the order of the table.
abbrev pub not_later : WebhookDelivery → WebhookDelivery → Bool
not_later d x = leb_ℤ d.next_attempt_at x.next_attempt_at

unfoldable pub sort_earliest : List WebhookDelivery → List WebhookDelivery
unfolding sort_by
sort_earliest = sort_by not_later

-- The rows of `due`: those that another database transaction has locked are skipped.
unfoldable pub due : (ℕ → Bool) → ℕ → Time → List WebhookDelivery → List WebhookDelivery
unfolding sort_earliest
due locked limit now ds =
    take limit (sort_earliest (filter (λ d. is_due now d && not (locked d.id)) ds))

-- `w.id = due.id`.
abbrev pub is_among : List WebhookDelivery → WebhookDelivery → Bool
is_among ds w = is_some (find_delivery w.id ds)

abbrev pub claimed : Time → WebhookDelivery → WebhookDelivery
claimed db_now d = record d { status = DeliveryStatus.delivering; updated_at = db_now }

-- `ClaimDue`: the rows as they are after the UPDATE are returned.
unfoldable pub claim_due : Faults → (ℕ → Bool) → ℕ → Time → Time → Query (List WebhookDelivery)
unfolding due
claim_due faults locked limit now db_now = statement faults Statement.claim_deliveries λ s.
    let taken = is_among (due locked limit now s.deliveries) in
    (
      ok (map (claimed db_now) (filter taken s.deliveries)),
      record s { deliveries = map (λ d. if taken d then claimed db_now d else d) s.deliveries },
    )

-- The columns that `UpdateAttempt` sets; an empty error is NULL in the table, and read back as empty.
abbrev pub with_attempt : WebhookDelivery → Time → WebhookDelivery → WebhookDelivery
with_attempt d db_now row = record row {
  status = d.status;
  attempt_count = d.attempt_count;
  next_attempt_at = d.next_attempt_at;
  last_error = d.last_error;
  updated_at = db_now;
}

-- `UpdateAttempt`.
unfoldable pub update_attempt : Faults → WebhookDelivery → Time → Query (Unit {0})
update_attempt faults d db_now = statement faults Statement.update_delivery λ s.
    if not (is_among s.deliveries d) then (err Error.not_found, s) else (
      ok tt,
      record s {
        deliveries =
            map (λ row. if row.id == d.id then with_attempt d db_now row else row) s.deliveries;
      },
    )

abbrev pub is_delivering : DeliveryStatus → Bool
is_delivering DeliveryStatus.delivering = true
is_delivering _ = false

abbrev pub is_stale : ℤ → Time → WebhookDelivery → Bool
is_stale older_than now d = is_delivering d.status && ltb_ℤ d.updated_at (now -ℤ older_than)

abbrev pub requeued : Time → Time → WebhookDelivery → WebhookDelivery
requeued now db_now d = record d {
  status = DeliveryStatus.failed;
  next_attempt_at = now;
  updated_at = db_now;
}

-- `ReleaseStale`: how many rows were released.
unfoldable pub release_stale : Faults → ℤ → Time → Time → Query ℕ
unfolding ◌-ℤ◌
release_stale faults older_than now db_now = statement faults Statement.release_deliveries λ s. (
  ok (length (filter (is_stale older_than now) s.deliveries)),
  record s {
    deliveries =
        map (λ d. if is_stale older_than now d then requeued now db_now d else d) s.deliveries;
  },
)

-- `scanDelivery` of the row that a query found.
abbrev scan_delivery : Option WebhookDelivery → Query WebhookDelivery
scan_delivery none s = (err Error.not_found, s)
scan_delivery (some d) s = (ok d, s)

-- `GetByID`.
unfoldable pub get_by_id : Faults → ℕ → Query WebhookDelivery
get_by_id faults id =
    statement faults Statement.select_delivery λ s. scan_delivery (find_delivery id s.deliveries) s

-- `ORDER BY created_at`.
sort_oldest : List WebhookDelivery → List WebhookDelivery
unfolding sort_by
sort_oldest = sort_by (λ d x. leb_ℤ d.created_at x.created_at)

-- `ListByTransaction`.
unfoldable pub list_by_transaction : Faults → ℕ → Query (List WebhookDelivery)
unfolding sort_oldest
list_by_transaction faults tx_id =
    statement faults Statement.list_deliveries
      λ s. (ok (sort_oldest (filter (λ d. d.transaction_id == tx_id) s.deliveries)), s)
