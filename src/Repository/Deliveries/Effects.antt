-- ===== src/Repository/Deliveries/Effects.antt =====
-- What each statement on the outbox does to the rows, whether it succeeds or fails.
use mini_payment_gateway.Prelude.{
  ℕ, ◌≡◌, ◌≢◌, refl, sym, subst, inl, inr, Bool, true, false, Bool-cases, Option-cases, none, some,
  List, [], ◌∷◌, ◌++◌, Result, ok, err, ok_inj, ◌==◌, arith,
}
use mini_payment_gateway.Prelude.Int.{ℤ}
use mini_payment_gateway.Prelude.Lists.{
  All, All-filter, All-both, All-imp, All-map, filter_passes, append-Distinct, map-Distinct,
  filter-Distinct,
}
use mini_payment_gateway.Domain.Errors.{Error}
use mini_payment_gateway.Domain.Transaction.{Time}
use mini_payment_gateway.Domain.Webhook.{DeliveryStatus, WebhookDelivery}
use mini_payment_gateway.Repository.{Store, Faults, Statement, statement}
use mini_payment_gateway.Repository.Deliveries.{
  find_delivery, has_delivery_id, is_due, due, is_among, claimed, claim_due, with_attempt,
  update_attempt, is_stale, requeued, release_stale, create,
}
use mini_payment_gateway.Repository.Deliveries.Claims.{
  IsKeyed, found_by_id, claimed_was_due, changed-IsKeyed, changed_kept, changed_there, not_taken,
  id_of_found,
}

module _ (faults : Faults) (older_than : ℤ) (now db_now : Time) (s : Store) where
  pub release-IsKeyed :
      IsKeyed s.deliveries → IsKeyed (release_stale faults older_than now db_now s).1.deliveries
  unfolding release_stale
  release-IsKeyed keyed = elim (Option-cases (faults Statement.release_deliveries)) [
    | inl e ↦
        rw (e, statement)
          (changed-IsKeyed (is_stale older_than now) (requeued now db_now) (λ d. refl) s.deliveries
            keyed)
    | inr (x, e) ↦ rw (e, statement) keyed
  ]

  -- A row that is not stale stays as it is.
  pub release_keeps :
      (id : ℕ) {row : WebhookDelivery}
      → find_delivery id s.deliveries ≡ some row
      → is_stale older_than now row ≡ false
      → find_delivery id (release_stale faults older_than now db_now s).1.deliveries ≡ some row
  unfolding release_stale
  release_keeps id {row} h k = elim (Option-cases (faults Statement.release_deliveries)) [
    | inl e ↦
        rw (e, statement)
          (changed_kept (is_stale older_than now) (requeued now db_now) (λ d. refl) s.deliveries id
            {row = row} h k)
    | inr (x, e) ↦ rw (e, statement) h
  ]

  -- A stale row goes back on the queue, where the statement does not fail.
  pub release_requeues :
      (id : ℕ) {row : WebhookDelivery}
      → faults Statement.release_deliveries ≡ none
      → find_delivery id s.deliveries ≡ some row
      → is_stale older_than now row ≡ true
      → find_delivery id (release_stale faults older_than now db_now s).1.deliveries
        ≡ some (requeued now db_now row)
  unfolding release_stale
  release_requeues id {row} e h k =
      rw (e, statement)
        (changed_there (is_stale older_than now) (requeued now db_now) (λ d. refl) s.deliveries id
          {row = row} h k)

module _ (faults : Faults) (locked : ℕ → Bool) (limit : ℕ) (now db_now : Time) (s : Store)
    (keyed : IsKeyed s.deliveries) where
  abbrev taken : WebhookDelivery → Bool
  taken = is_among (due locked limit now s.deliveries)

  pub claim-IsKeyed : IsKeyed (claim_due faults locked limit now db_now s).1.deliveries
  unfolding claim_due
  claim-IsKeyed = elim (Option-cases (faults Statement.claim_deliveries)) [
    | inl e ↦
        rw (e, statement) (changed-IsKeyed taken (claimed db_now) (λ d. refl) s.deliveries keyed)
    | inr (x, e) ↦ rw (e, statement) keyed
  ]

  -- A row that is not due stays as it is.
  pub claim_keeps :
      (id : ℕ) {row : WebhookDelivery}
      → find_delivery id s.deliveries ≡ some row
      → is_due now row ≡ false
      → find_delivery id (claim_due faults locked limit now db_now s).1.deliveries ≡ some row
  unfolding claim_due
  claim_keeps id {row} h k = elim (Option-cases (faults Statement.claim_deliveries)) [
    | inl e ↦
        let same = id_of_found id s.deliveries {row = row} h in
        rw (e, statement)
          (changed_kept taken (claimed db_now) (λ d. refl) s.deliveries id {row = row} h
            (not_taken locked limit now s.deliveries row.id {row = row} keyed
              (subst (λ i. find_delivery i s.deliveries ≡ some row) (sym same) h) k))
    | inr (x, e) ↦ rw (e, statement) h
  ]

  -- What is known of a row that was handed out.
  abbrev pub WasClaimed : WebhookDelivery → Type 0
  WasClaimed d =
      ((row : WebhookDelivery) × (find_delivery d.id
            (claim_due faults locked limit now db_now s).1.deliveries
          ≡ some row)
        × (row.status ≡ DeliveryStatus.delivering))
      × ((row : WebhookDelivery) × (find_delivery d.id s.deliveries ≡ some row)
          × (is_due now row ≡ true))

  taken-WasClaimed :
      faults Statement.claim_deliveries ≡ none
      → (d : WebhookDelivery) → (find_delivery d.id s.deliveries ≡ some d) × (taken d ≡ true)
      → WasClaimed (claimed db_now d)
  unfolding claim_due
  taken-WasClaimed e d (there, t) =
      rw (e, statement)
        (
          (
            claimed db_now d,
            changed_there taken (claimed db_now) (λ x. refl) s.deliveries d.id {row = d} there t,
            refl,
          ),
          claimed_was_due locked limit now s.deliveries d.id keyed t,
        )

  -- The rows that a claim hands out have different ids, were due, and are claimed from then on.
  pub claim_batch :
      {batch : List WebhookDelivery}
      → (claim_due faults locked limit now db_now s).0 ≡ ok batch
      → IsKeyed batch × All WasClaimed batch
  unfolding claim_due
  claim_batch {batch} h = elim (Option-cases (faults Statement.claim_deliveries)) [
    | inl e ↦
        subst (λ b. IsKeyed b × All WasClaimed b) (ok_inj (rw (e, statement) at h))
          (
            map-Distinct (λ d. d.id) (claimed db_now) (λ d. refl) _
                (filter-Distinct (λ d. d.id) taken s.deliveries keyed),
            All-map WasClaimed (claimed db_now) _ (
                All-imp _ (λ d. WasClaimed (claimed db_now d)) (taken-WasClaimed e) _
                  (All-both _ _ _
                    (All-filter (λ d. find_delivery d.id s.deliveries ≡ some d) taken s.deliveries
                      (found_by_id s.deliveries keyed))
                    (filter_passes taken s.deliveries))),
          )
    | inr (x, e) ↦
        let failed : ◌≡◌ {A = Result Error (List WebhookDelivery)} (err x) (ok batch) =
          rw (e, statement) at h in
        cc
  ]

module _ (faults : Faults) (d : WebhookDelivery) (db_now : Time) (s : Store) where
  pub update-IsKeyed :
      IsKeyed s.deliveries → IsKeyed (update_attempt faults d db_now s).1.deliveries
  unfolding update_attempt
  update-IsKeyed keyed = elim (Option-cases (faults Statement.update_delivery)) [
    | inl e ↦ elim (Bool-cases (is_among s.deliveries d)) [
      | inl k ↦
          rw (e, statement, k)
            (changed-IsKeyed (has_delivery_id d.id) (with_attempt d db_now) (λ x. refl) s.deliveries
              keyed)
      | inr k ↦ rw (e, statement, k) keyed
    ]
    | inr (x, e) ↦ rw (e, statement) keyed
  ]

  -- The rows of other ids stay as they are.
  pub update_keeps :
      (id : ℕ) {row : WebhookDelivery}
      → find_delivery id s.deliveries ≡ some row
      → id ≢ d.id
      → find_delivery id (update_attempt faults d db_now s).1.deliveries ≡ some row
  unfolding update_attempt
  update_keeps id {row} h k = elim (Option-cases (faults Statement.update_delivery)) [
    | inl e ↦ elim (Bool-cases (is_among s.deliveries d)) [
      | inl t ↦
          let same = id_of_found id s.deliveries {row = row} h in
          rw (e, statement, t)
            (changed_kept (has_delivery_id d.id) (with_attempt d db_now) (λ x. refl) s.deliveries id
              {row = row} h (ground arith))
      | inr t ↦ rw (e, statement, t) h
    ]
    | inr (x, e) ↦ rw (e, statement) h
  ]

find_delivery-append :
    (id : ℕ) (xs : List WebhookDelivery) (d : WebhookDelivery) {row : WebhookDelivery}
    → find_delivery id xs ≡ some row
    → find_delivery id (xs ++ d ∷ []) ≡ some row
find_delivery-append id [] d h = cc
find_delivery-append id (x ∷ xs) d {row} h = elim (Bool-cases (x.id == id)) [
  | inl k ↦ rw k (rw k at h)
  | inr k ↦ rw k (find_delivery-append id xs d {row = row} (rw k at h))
]

-- An id that is not found is no row's.
no_row : (id : ℕ) (xs : List WebhookDelivery) → find_delivery id xs ≡ none → All (λ x. id ≢ x.id) xs
no_row id [] h = tt
no_row id (x ∷ xs) h = elim (Bool-cases (x.id == id)) [
  | inl k ↦ absurd (ground arith)
  | inr k ↦ (ground arith, no_row id xs (rw k at h))
]

module _ (faults : Faults) (d : WebhookDelivery) (s : Store) where
  pub create-IsKeyed :
      find_delivery d.id s.deliveries ≡ none
      → IsKeyed s.deliveries
      → IsKeyed (create faults d s).1.deliveries
  unfolding create
  create-IsKeyed free keyed = elim (Option-cases (faults Statement.insert_delivery)) [
    | inl e ↦
        rw (e, statement)
          (append-Distinct (λ x. x.id) s.deliveries (d ∷ []) keyed (tt, tt)
            (All-imp (λ x. d.id ≢ x.id) _ (λ x n. (n, tt)) s.deliveries
              (no_row d.id s.deliveries free)))
    | inr (x, e) ↦ rw (e, statement) keyed
  ]

  pub create_keeps :
      (id : ℕ) {row : WebhookDelivery}
      → find_delivery id s.deliveries ≡ some row
      → find_delivery id (create faults d s).1.deliveries ≡ some row
  unfolding create
  create_keeps id {row} h = elim (Option-cases (faults Statement.insert_delivery)) [
    | inl e ↦ rw (e, statement) (find_delivery-append id s.deliveries d {row = row} h)
    | inr (x, e) ↦ rw (e, statement) h
  ]
