-- ===== src/Dispatcher/Outbox/Progress.antt =====
-- A round of a poller hands out what waits, also what a worker that died has left behind.
use mini_payment_gateway.Prelude.{
  ℕ, ◌*◌, ◌≤◌, ◌≡◌, refl, sym, ap, ◌∙◌, subst, inl, inr, Bool, true, false, not, ◌&&◌, ◌||◌,
  Bool-cases, none, some, List, is_some, arith,
}
use mini_payment_gateway.Prelude.Int.{◌≤ℤ◌}
use mini_payment_gateway.Prelude.Sorting.{find-sort_by, length-sort_by}
use mini_payment_gateway.Prelude.Lists.{length, filter, take_all, find-filter}
use mini_payment_gateway.Domain.Transaction.{Time}
use mini_payment_gateway.Domain.Webhook.{WebhookDelivery}
use mini_payment_gateway.Repository.{Store, Faults, Statement, statement}
use mini_payment_gateway.Repository.Deliveries.{
  has_delivery_id, find_delivery, is_due, is_stale, not_later, sort_earliest, due, is_among,
  claimed, claim_due, requeued,
}
use mini_payment_gateway.Repository.Deliveries.Claims.{find_delivery-changed, id_of_found}
use mini_payment_gateway.Repository.Deliveries.Effects.{release_keeps, release_requeues}
use mini_payment_gateway.Dispatcher.{Tick, stale_claim_timeout, poll_round}
use mini_payment_gateway.Dispatcher.Outbox.{handed}
use mini_payment_gateway.Dispatcher.Outbox.Polls.{queue_of}

-- A chosen row is handed out.
handed_chosen :
    (faults : Faults) (locked : ℕ → Bool) (limit : ℕ) (now db_now : Time) (t : Store) (id : ℕ)
    {row : WebhookDelivery}
    → faults Statement.claim_deliveries ≡ none
    → find_delivery id t.deliveries ≡ some row
    → is_some (find_delivery id (due locked limit now t.deliveries)) ≡ true
    → is_some (find_delivery id (handed (claim_due faults locked limit now db_now t).0)) ≡ true
unfolding claim_due
handed_chosen faults locked limit now db_now t id {row} e h k =
    let same = id_of_found id t.deliveries {row = row} h in
    let taken = is_among (due locked limit now t.deliveries) in
    rw (e, statement)
      (ap is_some (
        find_delivery-changed (claimed db_now) (λ d. refl) id (filter taken t.deliveries)
          (find-filter (has_delivery_id id) taken t.deliveries {x = row} h (
            subst (λ i. is_some (find_delivery i (due locked limit now t.deliveries)) ≡ true)
              (sym same) k))))

module _ (tick : Tick) (s : Store) where
  -- The rows that wait for the claim of the round.
  abbrev pub waiting : List WebhookDelivery
  waiting =
      filter (λ d. is_due tick.claimed_at d && not (tick.locked d.id)) (queue_of tick s).deliveries

  -- A row that waits is chosen, where there are no more than the claim may take.
  chosen :
      (id : ℕ) {row : WebhookDelivery}
      → find_delivery id (queue_of tick s).deliveries ≡ some row
      → (is_due tick.claimed_at row && not (tick.locked row.id)) ≡ true
      → length waiting ≤ tick.workers * 2
      → is_some (
          find_delivery id
            (due tick.locked (tick.workers * 2) tick.claimed_at (queue_of tick s).deliveries))
        ≡ true
  unfolding due sort_earliest
  chosen id {row} h k few =
      ap (λ l. is_some (find_delivery id l))
        (take_all (tick.workers * 2) (sort_earliest waiting)
          (omega (arith, length-sort_by not_later waiting)))
      ∙ find-sort_by not_later (has_delivery_id id) waiting
      ∙ ap is_some (
          find-filter (has_delivery_id id) (λ d. is_due tick.claimed_at d && not (tick.locked d.id))
            (queue_of tick s).deliveries {x = row} h k)

  -- The row of an id in the queue, after the release.
  queued_row :
      (id : ℕ) {row : WebhookDelivery}
      → tick.faults Statement.release_deliveries ≡ none
      → tick.released_at ≤ℤ tick.claimed_at
      → find_delivery id s.deliveries ≡ some row
      → (is_due tick.claimed_at row || is_stale stale_claim_timeout tick.released_at row) ≡ true
      → (row' : WebhookDelivery) × (find_delivery id (queue_of tick s).deliveries ≡ some row')
        × (is_due tick.claimed_at row' ≡ true)
  queued_row id {row} e order h k =
      elim (Bool-cases (is_stale stale_claim_timeout tick.released_at row)) [
        | inl stale ↦ (
          requeued tick.released_at tick.db_released_at row,
          release_requeues tick.faults stale_claim_timeout tick.released_at tick.db_released_at s id
              {row = row} e h stale,
          ground arith,
        )
        | inr fresh ↦ (
          row,
          release_keeps tick.faults stale_claim_timeout tick.released_at tick.db_released_at s id
              {row = row} h fresh,
          ground arith,
        )
      ]

  -- Where no statement fails, one round of a poller takes a delivery that is due, or whose claim is
  -- older than five minutes, if no other transaction has locked its row, the clock does not go back
  -- within the round, and at most twice as many unlocked rows are due after the release as there
  -- are workers.
  pub poll_takes :
      (id : ℕ) {row : WebhookDelivery}
      → ((k : Statement) → tick.faults k ≡ none)
      → tick.released_at ≤ℤ tick.claimed_at
      → tick.locked id ≡ false
      → length waiting ≤ tick.workers * 2
      → find_delivery id s.deliveries ≡ some row
      → (is_due tick.claimed_at row || is_stale stale_claim_timeout tick.released_at row) ≡ true
      → is_some (find_delivery id (handed (poll_round tick s).0)) ≡ true
  unfolding poll_round
  poll_takes id {row} fine order free few h k =
      let (row', found, late) =
        queued_row id {row = row} (fine Statement.release_deliveries) order h k in
      let same = id_of_found id (queue_of tick s).deliveries {row = row'} found in
      handed_chosen tick.faults tick.locked (tick.workers * 2) tick.claimed_at tick.db_claimed_at
        (queue_of tick s) id {row = row'} (fine Statement.claim_deliveries) found
        (chosen id {row = row'} found (rw same (ground arith)) few)
