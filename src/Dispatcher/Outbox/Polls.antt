-- ===== src/Dispatcher/Outbox/Polls.antt =====
-- What a round of a poller does to the rows in hand and to the finished ones.
use mini_payment_gateway.Prelude.{
  ℕ, ◌*◌, ◌≡◌, ◌≢◌, refl, sym, ap, ◌∙◌, subst, inl, inr, true, false, some, [], ◌∷◌, Result-cases,
  arith,
}
use mini_payment_gateway.Prelude.Lists.{All, some_inj}
use mini_payment_gateway.Domain.Transaction.{Time}
use mini_payment_gateway.Domain.Webhook.{DeliveryStatus, WebhookDelivery}
use mini_payment_gateway.Repository.{Store}
use mini_payment_gateway.Repository.Deliveries.{find_delivery, is_due, is_stale, release_stale}
use mini_payment_gateway.Repository.Deliveries.Claims.{IsKeyed}
use mini_payment_gateway.Repository.Deliveries.Effects.{
  release-IsKeyed, release_keeps, claim-IsKeyed, claim_keeps, WasClaimed, claim_batch,
}
use mini_payment_gateway.Dispatcher.{Tick, stale_claim_timeout, poll_round}
use mini_payment_gateway.Dispatcher.Attempts.{is_finished}
use mini_payment_gateway.Dispatcher.Outbox.{Rows, handed, Fresh, IsClaimed}

-- A claimed row is not due.
pub not_due :
    (now : Time) (row : WebhookDelivery)
    → row.status ≡ DeliveryStatus.delivering
    → is_due now row ≡ false
not_due now row h = rw h refl

-- A finished row is neither due nor stale.
pub finished_not_due :
    (now : Time) (row : WebhookDelivery) → is_finished row.status ≡ true → is_due now row ≡ false
finished_not_due now row h = ground arith

pub finished_not_stale :
    (tick : Tick) (row : WebhookDelivery)
    → is_finished row.status ≡ true
    → is_stale stale_claim_timeout tick.released_at row ≡ false
finished_not_stale tick row h = ground arith

-- The store that the claim of a round finds.
abbrev pub queue_of : Tick → Store → Store
queue_of tick s =
    (release_stale tick.faults stale_claim_timeout tick.released_at tick.db_released_at s).1

-- The claims of the rows in hand, and the rows that are finished, are left alone by a round of a
-- poller.
module _ (tick : Tick) (s : Store) (keyed : IsKeyed s.deliveries) where
  abbrev queue : Store
  queue = queue_of tick s

  pub queue-IsKeyed : IsKeyed queue.deliveries
  queue-IsKeyed =
      release-IsKeyed tick.faults stale_claim_timeout tick.released_at tick.db_released_at s keyed

  pub poll-IsKeyed : IsKeyed (poll_round tick s).1.deliveries
  unfolding poll_round
  poll-IsKeyed =
      claim-IsKeyed tick.faults tick.locked (tick.workers * 2) tick.claimed_at tick.db_claimed_at
        queue queue-IsKeyed

  pub poll_keeps :
      (id : ℕ) {row : WebhookDelivery}
      → find_delivery id s.deliveries ≡ some row
      → is_stale stale_claim_timeout tick.released_at row ≡ false
      → is_due tick.claimed_at row ≡ false
      → find_delivery id (poll_round tick s).1.deliveries ≡ some row
  unfolding poll_round
  poll_keeps id {row} h k m =
      claim_keeps tick.faults tick.locked (tick.workers * 2) tick.claimed_at tick.db_claimed_at
        queue queue-IsKeyed id {row = row}
        (release_keeps tick.faults stale_claim_timeout tick.released_at tick.db_released_at s id
          {row = row} h k)
        m

  pub held_claims :
      (held : Rows)
      → Fresh tick s held
      → All (λ d. IsClaimed s.deliveries d.id) held
      → All (λ d. IsClaimed (poll_round tick s).1.deliveries d.id) held
  held_claims [] f h = tt
  held_claims (d ∷ ds) f h =
      let (row, found, marked) = h.0 in
      (
        (
          row,
          poll_keeps d.id {row = row} found (f.0 row found) (not_due tick.claimed_at row marked),
          marked,
        ),
        held_claims ds f.1 h.1,
      )

  -- The claims in hand, after the release.
  pub held_after_release :
      (held : Rows)
      → Fresh tick s held
      → All (λ d. IsClaimed s.deliveries d.id) held
      → All (λ d. IsClaimed queue.deliveries d.id) held
  held_after_release [] f h = tt
  held_after_release (d ∷ ds) f h =
      let (row, found, marked) = h.0 in
      (
        (
          row,
          release_keeps tick.faults stale_claim_timeout tick.released_at tick.db_released_at s d.id
              {row = row} found (f.0 row found),
          marked,
        ),
        held_after_release ds f.1 h.1,
      )

  abbrev pub Handed : WebhookDelivery → Type 0
  Handed =
      WasClaimed tick.faults tick.locked (tick.workers * 2) tick.claimed_at tick.db_claimed_at queue
        queue-IsKeyed

  -- A row that is handed out is in nobody's hands.
  pub apart :
      (held : Rows)
      → All (λ d. IsClaimed queue.deliveries d.id) held
      → (b : WebhookDelivery) → Handed b
      → All (λ d. d.id ≢ b.id) held
  apart [] h b w = tt
  apart (d ∷ ds) h b w = (
    λ same.
        let (row, found, marked) = h.0 in
        let (row', found', late) = w.1 in
        let one : row ≡ row' = some_inj (
          sym found
          ∙ subst (λ k. find_delivery k queue.deliveries ≡ some row') (sym same) found') in
        absurd
          (ground (arith, not_due tick.claimed_at row marked, ap (is_due tick.claimed_at) one)),
    apart ds h.1 b w,
  )

  pub handed_lem :
      IsKeyed (handed (poll_round tick s).0) × All Handed (handed (poll_round tick s).0)
  unfolding poll_round
  handed_lem = elim (Result-cases (poll_round tick s).0) [
    | inl (batch, e) ↦
        subst (λ r. IsKeyed (handed r) × All Handed (handed r)) (sym e)
          (claim_batch tick.faults tick.locked (tick.workers * 2) tick.claimed_at tick.db_claimed_at
            queue queue-IsKeyed {batch = batch} e)
    | inr (x, e) ↦ subst (λ r. IsKeyed (handed r) × All Handed (handed r)) (sym e) (tt, tt)
  ]

  -- A row that is handed out is claimed.
  pub Handed_lem :
      (b : WebhookDelivery) → Handed b → IsClaimed (poll_round tick s).1.deliveries b.id
  unfolding poll_round
  Handed_lem b w = w.0
