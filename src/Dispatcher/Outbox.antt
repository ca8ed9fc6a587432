-- ===== src/Dispatcher/Outbox.antt =====
-- Any number of dispatchers over one outbox: pollers claim rows, workers deliver them, and processes
-- end with claims in hand, in any interleaving.
pub mod Polls
pub mod Exclusion
pub mod Progress
use mini_payment_gateway.Prelude.{
  ℕ, zero, suc, ◌+◌, ◌*◌, ◌≤◌, ◌≡◌, ◌≢◌, refl, sym, ap, ◌∙◌, subst, ◌⊎◌, inl, inr, Bool, true,
  false, not, ◌&&◌, Bool-cases, Option, Option-cases, none, some, List, [], ◌∷◌, ◌++◌, map, Result,
  ok, err, ◌==◌, ==_iff, if◌then◌else◌, is_some, arith,
}
use mathlib.Core.Option
use mini_payment_gateway.Prelude.Lists.{find, filter, All, All-filter, filter_passes}
use mini_payment_gateway.Domain.Errors.{Error}
use mini_payment_gateway.Domain.Transaction.{Time}
use mini_payment_gateway.Domain.Webhook.{DeliveryStatus, WebhookDelivery}
use mini_payment_gateway.Repository.{Store, Faults, Statement}
use mini_payment_gateway.Repository.Deliveries
use mini_payment_gateway.Repository.Deliveries.{
  find_delivery, is_queued, is_delivering, is_due, is_stale, requeued, claimed, with_attempt, due,
  is_among, claim_due, update_attempt, release_stale,
}
use mini_payment_gateway.Repository.Deliveries.Claims.{IsKeyed, claimed_was_due}
use mini_payment_gateway.Repository.Deliveries.Effects.{
  release-IsKeyed, release_keeps, claim-IsKeyed, claim_keeps, WasClaimed, claim_batch,
  update-IsKeyed, update_keeps, create-IsKeyed, create_keeps,
}
use mini_payment_gateway.Dispatcher.{
  World, deliver, release, persist, Tick, stale_claim_timeout, poll_round,
}

abbrev pub Rows : Type 0
Rows = List WebhookDelivery

-- The rows that a poll hands out; none where its statement failed.
abbrev pub handed : Result Error Rows → Rows
handed (ok batch) = batch
handed (err e) = []

-- One of the claimed rows, and the others.
pub data Taken (d : WebhookDelivery) : Rows → Rows → Type 0 where
  here : (ds : Rows) → Taken d (d ∷ ds) ds
  there : (x : WebhookDelivery) {ds rest : Rows} → Taken d ds rest → Taken d (x ∷ ds) (x ∷ rest)

-- The store, and the rows that pollers and workers hold in memory.
abbrev pub System : Type 0
System = Store × Rows

-- The claim of every row in hand is younger than the timeout when a poller looks for stale claims.
abbrev pub Fresh : Tick → Store → Rows → Type 0
Fresh tick s held =
    All
      (λ d.
        (row : WebhookDelivery)
        → find_delivery d.id s.deliveries ≡ some row
        → is_stale stale_claim_timeout tick.released_at row ≡ false)
      held

infix 40 ◌⟶◌ ◌⟶*◌
-- A request queues a webhook, whose id is new; a poller takes a round; a worker ends the attempt of a
-- row; a row is put back at a shutdown; a process dies with a row in hand;
-- the other tables change.
pub data ◌⟶◌ : System → System → Type 0 where
  queued :
      (faults : Faults) (d : WebhookDelivery) (s : Store) (held : Rows)
      → find_delivery d.id s.deliveries ≡ none
      → (s, held) ⟶ ((Deliveries.create faults d s).1, held)
  polled :
      (tick : Tick) (s : Store) (held : Rows)
      → Fresh tick s held
      → (s, held) ⟶ ((poll_round tick s).1, handed (poll_round tick s).0 ++ held)
  attempted :
      (w : World) (faults : Faults) (db_now : Time) (d : WebhookDelivery) (s : Store)
      {held rest : Rows}
      → Taken d held rest
      → (s, held) ⟶ (persist faults db_now (deliver w d) s, rest)
  returned :
      (now : Time) (faults : Faults) (db_now : Time) (d : WebhookDelivery) (s : Store)
      {held rest : Rows}
      → Taken d held rest
      → (s, held) ⟶ (persist faults db_now (release now d) s, rest)
  died :
      (d : WebhookDelivery) (s : Store) {held rest : Rows}
      → Taken d held rest
      → (s, held) ⟶ (s, rest)
  elsewhere : (s s' : Store) (held : Rows) → s'.deliveries ≡ s.deliveries → (s, held) ⟶ (s', held)

pub data ◌⟶*◌ : System → System → Type 0 where
  done : (x : System) → x ⟶* x
  then_step : {x y z : System} → x ⟶* y → y ⟶ z → x ⟶* z

-- The row of an id is claimed.
abbrev pub IsClaimed : Rows → ℕ → Type 0
IsClaimed ds id =
    (row : WebhookDelivery) × (find_delivery id ds ≡ some row)
    × (row.status ≡ DeliveryStatus.delivering)

-- No two rows of the table have one id, no two rows in hand have one id, and the row of each in hand
-- is claimed.
pub record Exclusive (x : System) : Type 0 where
  pub keyed : IsKeyed x.0.deliveries
  pub distinct : IsKeyed x.1
  pub claims : All (λ d. IsClaimed x.0.deliveries d.id) x.1
