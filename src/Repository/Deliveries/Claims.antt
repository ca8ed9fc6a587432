-- ===== src/Repository/Deliveries/Claims.antt =====
-- What a claim, an attempt and a release do to the row of an id.
use mini_payment_gateway.Prelude.{
  ℕ, ◌≡◌, refl, sym, ap, ◌∙◌, subst, inl, inr, Bool, true, false, not, ◌&&◌, Bool-cases,
  Option-cases, some, List, map, ◌==◌, ==_iff, if◌then◌else◌, is_some, arith,
}
use mathlib.Core.Option
use mini_payment_gateway.Prelude.Lists.{
  All, All-filter, All-take, All-find, filter_passes, find_passes, find-map, some_inj, Distinct,
  Distinct-found, map-Distinct, All-both,
}
use mini_payment_gateway.Prelude.Sorting.{All-sort_by}
use mini_payment_gateway.Domain.Transaction.{Time}
use mini_payment_gateway.Domain.Webhook.{WebhookDelivery}
use mini_payment_gateway.Repository.Deliveries.{
  has_delivery_id, find_delivery, is_due, not_later, due,
}

-- The key of the table: no two rows have one id.
abbrev pub IsKeyed : List WebhookDelivery → Type 0
IsKeyed = Distinct (λ d. d.id)

-- Every row of a keyed table is found by its id.
pub found_by_id :
    (xs : List WebhookDelivery) → IsKeyed xs → All (λ y. find_delivery y.id xs ≡ some y) xs
found_by_id = Distinct-found (λ d. d.id)

-- A row that a claim takes: the row of its id, due and not locked.
abbrev IsTaken : (ℕ → Bool) → Time → List WebhookDelivery → WebhookDelivery → Type 0
IsTaken locked now ds x =
    (find_delivery x.id ds ≡ some x) × ((is_due now x && not (locked x.id)) ≡ true)

due-IsTaken :
    (locked : ℕ → Bool) (limit : ℕ) (now : Time) (ds : List WebhookDelivery)
    → IsKeyed ds
    → All (IsTaken locked now ds) (due locked limit now ds)
unfolding due
due-IsTaken locked limit now ds keyed = All-take (IsTaken locked now ds) limit _ (
    All-sort_by not_later (IsTaken locked now ds) _ (
      All-both _ _ _ (All-filter (λ y. find_delivery y.id ds ≡ some y) _ ds (found_by_id ds keyed))
        (filter_passes (λ d. is_due now d && not (locked d.id)) ds)))

-- An id that a claim takes has a row that is due.
pub claimed_was_due :
    (locked : ℕ → Bool) (limit : ℕ) (now : Time) (ds : List WebhookDelivery) (id : ℕ)
    → IsKeyed ds
    → is_some (find_delivery id (due locked limit now ds)) ≡ true
    → (x : WebhookDelivery) × (find_delivery id ds ≡ some x) × (is_due now x ≡ true)
claimed_was_due locked limit now ds id keyed h =
    elim (Option-cases (find_delivery id (due locked limit now ds))) [
      | inl e ↦ absurd (ground arith)
      | inr (x, e) ↦
          let taken =
            All-find (IsTaken locked now ds) (has_delivery_id id) (due locked limit now ds) {x = x}
              (due-IsTaken locked limit now ds keyed) e in
          let same : x.id ≡ id =
            (==_iff x.id id).0
              (find_passes (has_delivery_id id) (due locked limit now ds) {x = x} e) in
          (x, subst (λ k. find_delivery k ds ≡ some x) same taken.0, ground (arith, taken.1))
    ]

-- A change of rows that keeps their ids.
module _ (f : WebhookDelivery → WebhookDelivery)
    (same : (d : WebhookDelivery) → (f d).id ≡ d.id) where
  pub find_delivery-map :
      (id : ℕ) (xs : List WebhookDelivery)
      → find_delivery id (map f xs) ≡ Option.map f (find_delivery id xs)
  find_delivery-map id = find-map (has_delivery_id id) f (λ d. ap (λ k. k == id) (same d))

  pub find_delivery-changed :
      (id : ℕ) (xs : List WebhookDelivery) {row : WebhookDelivery}
      → find_delivery id xs ≡ some row
      → find_delivery id (map f xs) ≡ some (f row)
  find_delivery-changed id xs h = find_delivery-map id xs ∙ ap (Option.map f) h

if_id :
    (b : Bool) (f : WebhookDelivery → WebhookDelivery) (d : WebhookDelivery)
    → (f d).id ≡ d.id
    → (if b then f d else d).id ≡ d.id
if_id true f d h = h
if_id false f d h = refl

-- A statement that changes some rows and no id.
module _ (p : WebhookDelivery → Bool) (f : WebhookDelivery → WebhookDelivery)
    (same : (d : WebhookDelivery) → (f d).id ≡ d.id) (xs : List WebhookDelivery) where
  abbrev pub changed : List WebhookDelivery
  changed = map (λ d. if p d then f d else d) xs

  pub changed-IsKeyed : IsKeyed xs → IsKeyed changed
  changed-IsKeyed =
      map-Distinct (λ d. d.id) (λ d. if p d then f d else d) (λ d. if_id (p d) f d (same d)) xs

  pub changed_kept :
      (id : ℕ) {row : WebhookDelivery}
      → find_delivery id xs ≡ some row
      → p row ≡ false
      → find_delivery id changed ≡ some row
  changed_kept id {row} h k =
      find_delivery-changed (λ d. if p d then f d else d) (λ d. if_id (p d) f d (same d)) id xs h
      ∙ ap (λ b. some (if b then f row else row)) k

  pub changed_there :
      (id : ℕ) {row : WebhookDelivery}
      → find_delivery id xs ≡ some row
      → p row ≡ true
      → find_delivery id changed ≡ some (f row)
  changed_there id {row} h k =
      find_delivery-changed (λ d. if p d then f d else d) (λ d. if_id (p d) f d (same d)) id xs h
      ∙ ap (λ b. some (if b then f row else row)) k

-- A claim takes no row that is not due.
pub not_taken :
    (locked : ℕ → Bool) (limit : ℕ) (now : Time) (ds : List WebhookDelivery) (id : ℕ)
    {row : WebhookDelivery}
    → IsKeyed ds
    → find_delivery id ds ≡ some row
    → is_due now row ≡ false
    → is_some (find_delivery id (due locked limit now ds)) ≡ false
not_taken locked limit now ds id {row} keyed h k =
    elim (Bool-cases (is_some (find_delivery id (due locked limit now ds)))) [
      | inl t ↦
          let (x, there, late) = claimed_was_due locked limit now ds id keyed t in
          absurd (ground (arith, some_inj (sym h ∙ there)))
      | inr f ↦ f
    ]

pub id_of_found :
    (id : ℕ) (ds : List WebhookDelivery) {row : WebhookDelivery}
    → find_delivery id ds ≡ some row
    → row.id ≡ id
id_of_found id ds {row} h = (==_iff row.id id).0 (find_passes (has_delivery_id id) ds {x = row} h)
