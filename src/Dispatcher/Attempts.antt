-- ===== src/Dispatcher/Attempts.antt =====
-- How often a delivery is tried.
use mini_payment_gateway.Prelude.{
  ℕ, ◌+◌, ◌≤◌, ◌<◌, ◌≡◌, ◌⊎◌, refl, ap, Bool, true, false, Bool-cases, inl, inr, if◌then◌else◌,
  List, [], ◌∷◌, arith,
}
use mini_payment_gateway.Prelude.Lists.{length, All}
use mini_payment_gateway.Domain.Webhook.{
  DeliveryStatus, WebhookDelivery, record_failure, record_success,
}
use mini_payment_gateway.Dispatcher.{World, deliver, fail}

-- An attempt counts itself, and leaves the row delivered, dead, or failed with attempts left.
deliver_outcomes :
    (w : World) (d : WebhookDelivery)
    → d.attempt_count < w.max_attempts
    → let d' = deliver w d in
      (d'.attempt_count ≡ d.attempt_count + 1)
      × ((d'.status ≡ DeliveryStatus.delivered)
          ⊎ (d'.status ≡ DeliveryStatus.dead)
          ⊎ ((d'.status ≡ DeliveryStatus.failed) × (d'.attempt_count < w.max_attempts)))
unfolding deliver fail record_failure record_success
deliver_outcomes w d left = ground arith

-- Whether no worker claims the row again.
abbrev pub is_finished : DeliveryStatus → Bool
is_finished DeliveryStatus.delivered = true
is_finished DeliveryStatus.dead = true
is_finished _ = false

-- The attempts of one row, whatever each of them meets.
pub drive : List World → WebhookDelivery → WebhookDelivery
drive [] d = d
drive (w ∷ ws) d = if is_finished d.status then d else drive ws (deliver w d)

drive_finished :
    (ws : List World) (d : WebhookDelivery) → is_finished d.status ≡ true → drive ws d ≡ d
unfolding drive
drive_finished [] d h = refl
drive_finished (w ∷ ws) d h = rw h refl

-- A delivery with attempts left, attempted again and again whatever each attempt meets, is
-- delivered or dead after at most as many rounds as it has attempts left, and no more attempts are
-- counted than the limit.
pub drive_ends :
    (limit : ℕ) (ws : List World) (d : WebhookDelivery)
    → All (λ w. w.max_attempts ≡ limit) ws
    → d.attempt_count < limit
    → limit ≤ d.attempt_count + length ws
    → (is_finished (drive ws d).status ≡ true) × ((drive ws d).attempt_count ≤ limit)
unfolding drive
drive_ends limit [] d same left enough = absurd (omega arith)
drive_ends limit (w ∷ ws) d (same, sames) left enough = elim (Bool-cases (is_finished d.status)) [
  | inl e ↦ rw e (e, omega arith)
  | inr e ↦
      let (counted, end) = deliver_outcomes w d (omega arith) in
      rw e (elim end [
        | inl s ↦
            let f : is_finished (deliver w d).status ≡ true = ap is_finished s in
            rw (drive_finished ws (deliver w d) f) (f, omega arith)
        | inr rest ↦ elim rest [
          | inl s ↦
              let f : is_finished (deliver w d).status ≡ true = ap is_finished s in
              rw (drive_finished ws (deliver w d) f) (f, omega arith)
          | inr (s, more) ↦ drive_ends limit ws (deliver w d) sames (omega arith) (omega arith)
        ]
      ])
]
