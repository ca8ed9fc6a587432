-- ===== src/Dispatcher/Outbox/Exclusion.antt =====
-- No two workers have one delivery.
use mini_payment_gateway.Prelude.{
  ℕ, ◌≡◌, ◌≢◌, refl, sym, ap, ◌∙◌, subst, true, some, [], ◌∷◌, ◌++◌, arith,
}
use mini_payment_gateway.Prelude.Lists.{All, All-append, All-imp, append-Distinct, some_inj}
use mini_payment_gateway.Domain.Transaction.{Time}
use mini_payment_gateway.Domain.Webhook.{WebhookDelivery, record_failure, record_success}
use mini_payment_gateway.Repository.{Store, Faults}
use mini_payment_gateway.Repository.Deliveries
use mini_payment_gateway.Repository.Deliveries.{
  find_delivery, is_queued, is_delivering, is_due, is_stale, requeued, claimed, with_attempt, due,
  is_among, claim_due, update_attempt, release_stale,
}
use mini_payment_gateway.Repository.Deliveries.Claims.{IsKeyed}
use mini_payment_gateway.Repository.Deliveries.Effects.{
  update-IsKeyed, update_keeps, create-IsKeyed, create_keeps,
}
use mini_payment_gateway.Dispatcher.{World, deliver, fail, release, persist, Tick, poll_round}
use mini_payment_gateway.Dispatcher.Outbox.Polls.{
  finished_not_due, finished_not_stale, poll-IsKeyed, poll_keeps, held_claims, held_after_release,
  Handed, apart, handed_lem, Handed_lem,
}
use mini_payment_gateway.Dispatcher.Attempts.{is_finished}
use mini_payment_gateway.Dispatcher.Outbox.{
  Rows, handed, Taken, here, there, System, Fresh, ◌⟶◌, queued, polled, attempted, returned, died,
  elsewhere, ◌⟶*◌, done, then_step, IsClaimed, Exclusive,
}

module _ {d : WebhookDelivery} where
  Taken-All :
      (P : WebhookDelivery → Type 0) {ds rest : Rows}
      → Taken d ds rest
      → All P ds
      → P d × All P rest
  Taken-All P (here ds) h = h
  Taken-All P (there x t) h = let (p, ps) = Taken-All P t h.1 in (p, (h.0, ps))

  -- The others have other ids.
  Taken-apart :
      {ds rest : Rows} → Taken d ds rest → IsKeyed ds → IsKeyed rest × All (λ y. y.id ≢ d.id) rest
  Taken-apart (here ds) h = (h.1, h.0)
  Taken-apart (there x t) h =
      let (keyed, apart) = Taken-apart t h.1 in
      let (n, others) = Taken-All (λ y. y.id ≢ x.id) t h.0 in
      ((others, keyed), (λ e. n (sym e), apart))

-- A worker that writes the row of its own delivery leaves the other claims.
module _ (faults : Faults) (db_now : Time) (d : WebhookDelivery) (s : Store) where
  rest_claims :
      (rest : Rows)
      → All (λ y. y.id ≢ d.id) rest
      → All (λ y. IsClaimed s.deliveries y.id) rest
      → All (λ y. IsClaimed (persist faults db_now d s).deliveries y.id) rest
  unfolding persist
  rest_claims [] n h = tt
  rest_claims (y ∷ ys) n h =
      let (row, found, marked) = h.0 in
      (
        (row, update_keeps faults d db_now s y.id {row = row} found n.0, marked),
        rest_claims ys n.1 h.1,
      )

  persist-IsKeyed : IsKeyed s.deliveries → IsKeyed (persist faults db_now d s).deliveries
  unfolding persist
  persist-IsKeyed = update-IsKeyed faults d db_now s

  persist_keeps :
      (id : ℕ) {row : WebhookDelivery}
      → find_delivery id s.deliveries ≡ some row
      → id ≢ d.id
      → find_delivery id (persist faults db_now d s).deliveries ≡ some row
  unfolding persist
  persist_keeps = update_keeps faults d db_now s

written_Exclusive :
    (faults : Faults) (db_now : Time) (d d' : WebhookDelivery) (s : Store) {held rest : Rows}
    → d'.id ≡ d.id
    → Taken d held rest
    → Exclusive (s, held)
    → Exclusive (persist faults db_now d' s, rest)
written_Exclusive faults db_now d d' s {held} {rest} same t x =
    let (distinct, others) = Taken-apart t x.distinct in
    record {
      keyed = persist-IsKeyed faults db_now d' s x.keyed;
      distinct = distinct;
      claims =
          rest_claims faults db_now d' s rest
            (subst (λ k. All (λ y. y.id ≢ k) rest) (sym same) others)
            (Taken-All (λ y. IsClaimed s.deliveries y.id) t x.claims).1;
    }

-- An attempt does not change the id of its row.
deliver_same : (w : World) (d : WebhookDelivery) → (deliver w d).id ≡ d.id
unfolding deliver fail record_failure record_success
deliver_same w d = ground arith

release_same : (now : Time) (d : WebhookDelivery) → (release now d).id ≡ d.id
unfolding release
release_same now d = refl

created_claims :
    (faults : Faults) (d : WebhookDelivery) (s : Store) (held : Rows)
    → All (λ y. IsClaimed s.deliveries y.id) held
    → All (λ y. IsClaimed (Deliveries.create faults d s).1.deliveries y.id) held
created_claims faults d s [] h = tt
created_claims faults d s (y ∷ ys) h =
    let (row, found, marked) = h.0 in
    (
      (row, create_keeps faults d s y.id {row = row} found, marked),
      created_claims faults d s ys h.1,
    )

polled_Exclusive :
    (tick : Tick) (s : Store) (held : Rows)
    → Fresh tick s held
    → Exclusive (s, held)
    → Exclusive ((poll_round tick s).1, handed (poll_round tick s).0 ++ held)
polled_Exclusive tick s held fresh x =
    let (distinct, batch) = handed_lem tick s x.keyed in
    let kept = held_after_release tick s x.keyed held fresh x.claims in
    record {
      keyed = poll-IsKeyed tick s x.keyed;
      distinct =
          append-Distinct (λ d. d.id) _ held distinct x.distinct
            (All-imp (Handed tick s x.keyed) _ (apart tick s x.keyed held kept) _ batch);
      claims =
          All-append (λ d. IsClaimed (poll_round tick s).1.deliveries d.id) _ held
            (All-imp (Handed tick s x.keyed) _ (λ b w. Handed_lem tick s x.keyed b w) _ batch)
            (held_claims tick s x.keyed held fresh x.claims);
    }

step_Exclusive : {x y : System} → x ⟶ y → Exclusive x → Exclusive y
step_Exclusive (queued faults d s held free) x = record {
  keyed = create-IsKeyed faults d s free x.keyed;
  distinct = x.distinct;
  claims = created_claims faults d s held x.claims;
}
step_Exclusive (polled tick s held fresh) x = polled_Exclusive tick s held fresh x
step_Exclusive (attempted w faults db_now d s t) x =
    written_Exclusive faults db_now d (deliver w d) s (deliver_same w d) t x
step_Exclusive (returned now faults db_now d s t) x =
    written_Exclusive faults db_now d (release now d) s (release_same now d) t x
step_Exclusive (died d s t) x = record {
  keyed = x.keyed;
  distinct = (Taken-apart t x.distinct).0;
  claims = (Taken-All (λ y. IsClaimed s.deliveries y.id) t x.claims).1;
}
step_Exclusive (elsewhere s s' held same) x = record {
  keyed = subst IsKeyed (sym same) x.keyed;
  distinct = x.distinct;
  claims = subst (λ ds. All (λ d. IsClaimed ds d.id) held) (sym same) x.claims;
}

-- Over any steps of any number of dispatchers on one outbox, in any interleaving, no two of the
-- rows that they hold are the same delivery, each is in the table as being delivered, and the ids
-- of the table are distinct, if that held at the start and no claim in hand is older than five
-- minutes when a poller looks for stale ones.
pub run_Exclusive : {x y : System} → x ⟶* y → Exclusive x → Exclusive y
run_Exclusive (done x) h = h
run_Exclusive (then_step path step) h = step_Exclusive step (run_Exclusive path h)

-- The row of a finished delivery.
abbrev IsFinishedRow : ℕ → WebhookDelivery → Rows → Type 0
IsFinishedRow id row ds = (find_delivery id ds ≡ some row) × (is_finished row.status ≡ true)

-- A finished delivery is in nobody's hands.
finished_apart :
    (id : ℕ) (row : WebhookDelivery) (ds : Rows) (held : Rows)
    → IsFinishedRow id row ds
    → All (λ d. IsClaimed ds d.id) held
    → All (λ d. id ≢ d.id) held
finished_apart id row ds [] f h = tt
finished_apart id row ds (d ∷ held) (found, over) h = (
  λ same.
      let (row', found', marked) = h.0 in
      let one : row ≡ row' =
        some_inj (sym found ∙ subst (λ k. find_delivery k ds ≡ some row') (sym same) found') in
      absurd (ground (arith, ap (λ r. is_finished r.status) one)),
  finished_apart id row ds held (found, over) h.1,
)

step_keeps_finished :
    {x y : System} (id : ℕ) (row : WebhookDelivery)
    → x ⟶ y
    → Exclusive x
    → IsFinishedRow id row x.0.deliveries
    → IsFinishedRow id row y.0.deliveries
step_keeps_finished id row (queued faults d s held free) x (found, over) =
    (create_keeps faults d s id {row = row} found, over)
step_keeps_finished id row (polled tick s held fresh) x (found, over) = (
  poll_keeps tick s x.keyed id {row = row} found (finished_not_stale tick row over)
      (finished_not_due tick.claimed_at row over),
  over,
)
step_keeps_finished id row (attempted w faults db_now d s t) x (found, over) =
    let others = finished_apart id row s.deliveries _ (found, over) x.claims in
    (
      persist_keeps faults db_now (deliver w d) s id {row = row} found
          (λ e. (Taken-All (λ y. id ≢ y.id) t others).0 (e ∙ deliver_same w d)),
      over,
    )
step_keeps_finished id row (returned now faults db_now d s t) x (found, over) =
    let others = finished_apart id row s.deliveries _ (found, over) x.claims in
    (
      persist_keeps faults db_now (release now d) s id {row = row} found
          (λ e. (Taken-All (λ y. id ≢ y.id) t others).0 (e ∙ release_same now d)),
      over,
    )
step_keeps_finished id row (died d s t) x f = f
step_keeps_finished id row (elsewhere s s' held same) x f =
    subst (IsFinishedRow id row) (sym same) f

run_keeps_finished :
    {x y : System} (id : ℕ) (row : WebhookDelivery)
    → x ⟶* y
    → Exclusive x
    → IsFinishedRow id row x.0.deliveries
    → Exclusive y × IsFinishedRow id row y.0.deliveries
run_keeps_finished id row (done x) h f = (h, f)
run_keeps_finished id row (then_step path step) h f =
    let (excl, kept) = run_keeps_finished id row path h f in
    (step_Exclusive step excl, step_keeps_finished id row step excl kept)

-- A delivery that is delivered or dead stays so over any steps of any number of dispatchers, and is
-- never held by one of them again, if at the start the ids of the table are distinct, no two rows
-- held are the same delivery, and each is in the table as being delivered, and if no claim in hand
-- is older than five minutes when a poller looks for stale ones.
pub finished_stays :
    {x y : System} (id : ℕ) (row : WebhookDelivery)
    → x ⟶* y
    → Exclusive x
    → find_delivery id x.0.deliveries ≡ some row
    → is_finished row.status ≡ true
    → (find_delivery id y.0.deliveries ≡ some row) × All (λ d. id ≢ d.id) y.1
finished_stays {y} id row path h found over =
    let (excl, kept) = run_keeps_finished id row path h (found, over) in
    (kept.0, finished_apart id row y.0.deliveries y.1 kept excl.claims)
