-- ===== src/Idempotency/Claims.antt =====
-- Requests with one key, in any interleaving: at most one handler runs, and only
-- one that holds the key. The time that Redis keeps a key is not over in these runs.
use mini_payment_gateway.Prelude.{
  ℕ, suc, ◌≤◌, ◌≡◌, refl, ap, ◌∙◌, ◌⊎◌, inl, inr, String, Bool, true, false, Option, none, some,
  Bool-cases, Result, Result-cases, ok, err, if◌then◌else◌, arith,
}
use mini_payment_gateway.Domain.Errors.{Error}
use mini_payment_gateway.Domain.Transaction.{Time}
use mini_payment_gateway.Idempotency.Redis.{IsRedis}
use mini_payment_gateway.Idempotency.{Claim, Client, Outcome, claim_of, begin, conclude}

-- Whether the answer of `Begin` tells the caller to run the handler.
abbrev pub is_claimed : Result Error (Option Claim) → Bool
is_claimed (ok none) = true
is_claimed _ = false

module _ {R P : Type 0} (client : Client R P) (redis : IsRedis client) (key : String) where
  -- The server and the number of handlers that run for the key.
  abbrev pub System : Type 0
  System = R × ℕ

  infix 40 ◌⟶◌ ◌⟶*◌
  -- A request asks for the key; a handler that had claimed it ends; another key is used.
  pub data ◌⟶◌ : System → System → Type 0 where
    asked :
        (fingerprint : String) (now : Time) (r : R) (n : ℕ)
        → (r, n) ⟶ (
          (begin client key fingerprint now r).1,
          if is_claimed (begin client key fingerprint now r).0 then suc n else n,
        )
    ended :
        (fingerprint : String) (now : Time) (outcome : Outcome) (r : R) (n : ℕ)
        → (r, suc n) ⟶ (conclude client key fingerprint now outcome r, n)
    elsewhere : (r r' : R) (n : ℕ) → redis.view r' key ≡ redis.view r key → (r, n) ⟶ (r', n)

  pub data ◌⟶*◌ : System → System → Type 0 where
    done : (x : System) → x ⟶* x
    then_step : {x y z : System} → x ⟶* y → y ⟶ z → x ⟶* z

  -- What `Begin` does to the server, where the record of the claim is written as `p`.
  pub begin_writes :
      (fingerprint : String) (now : Time) (r : R) (p : P)
      → client.marshal (claim_of fingerprint now) ≡ ok p
      → ((begin client key fingerprint now r).1 ≡ (client.set_nx key p r).1)
        × (is_claimed (begin client key fingerprint now r).0 ≡ true
            → (client.set_nx key p r).0 ≡ ok true)
  unfolding begin
  begin_writes fingerprint now r p e = ground arith

  pub begin_unwritten :
      (fingerprint : String) (now : Time) (r : R) {x : Error}
      → client.marshal (claim_of fingerprint now) ≡ err x
      → begin client key fingerprint now r ≡ (err x, r)
  unfolding begin
  begin_unwritten fingerprint now r e = ground arith

  -- A claim is won only where the key is absent, and holds it from then on.
  pub begin_claimed :
      (fingerprint : String) (now : Time) (r : R)
      → is_claimed (begin client key fingerprint now r).0 ≡ true
      → (redis.view r key ≡ none)
        × ((p : P) × (redis.view (begin client key fingerprint now r).1 key ≡ some p))
  begin_claimed fingerprint now r h =
      elim (Result-cases (client.marshal (claim_of fingerprint now))) [
        | inl (p, e) ↦
            let (written, won) = begin_writes fingerprint now r p e in
            let (free, held) = redis.set_nx_won key p r (won h) in
            (free, (p, ap (λ x. redis.view x key) written ∙ held))
        | inr (x, e) ↦ absurd (ground (arith, begin_unwritten fingerprint now r e))
      ]

  -- A key that is held stays as it is.
  pub begin_held :
      (fingerprint : String) (now : Time) (r : R) {q : P}
      → redis.view r key ≡ some q
      → redis.view (begin client key fingerprint now r).1 key ≡ some q
  begin_held fingerprint now r {q} h =
      elim (Result-cases (client.marshal (claim_of fingerprint now))) [
        | inl (p, e) ↦
            ap (λ x. redis.view x key) (begin_writes fingerprint now r p e).0
            ∙ elim (redis.set_nx_effect key p r) [
              | inl same ↦ same ∙ h
              | inr (free, _) ↦ absurd (ground arith)
            ]
        | inr (x, e) ↦ ap (λ y. redis.view y.1 key) (begin_unwritten fingerprint now r e) ∙ h
      ]

  -- No handler runs, or one that holds the key.
  abbrev Exclusive : System → Type 0
  Exclusive (r, n) = (n ≡ 0) ⊎ ((n ≡ 1) × ((p : P) × (redis.view r key ≡ some p)))

  asked_Exclusive :
      (fingerprint : String) (now : Time) (r : R) (n : ℕ)
      → Exclusive (r, n)
      → Exclusive (
        (begin client key fingerprint now r).1,
        if is_claimed (begin client key fingerprint now r).0 then suc n else n,
      )
  asked_Exclusive fingerprint now r n v =
      elim (Bool-cases (is_claimed (begin client key fingerprint now r).0)) [
        | inl e ↦
            let (free, held) = begin_claimed fingerprint now r e in
            rw e
              (elim v [ inl z ↦ inr (ap suc z, held) | inr (one, (q, h)) ↦ absurd (ground arith) ])
        | inr e ↦ rw e (elim v [
          | inl z ↦ inl z
          | inr (one, (q, h)) ↦ inr (one, (q, begin_held fingerprint now r h))
        ])
      ]

  step_Exclusive : {x y : System} → x ⟶ y → Exclusive x → Exclusive y
  step_Exclusive (asked fingerprint now r n) v = asked_Exclusive fingerprint now r n v
  step_Exclusive (ended fingerprint now outcome r n) v = inl (ground arith)
  step_Exclusive (elsewhere r r' n same) (inl v) = inl v
  step_Exclusive (elsewhere r r' n same) (inr (one, (p, held))) = inr (one, (p, same ∙ held))

  run_Exclusive : {x y : System} → x ⟶* y → Exclusive x → Exclusive y
  run_Exclusive (done x) v = v
  run_Exclusive (then_step path step) v = step_Exclusive step (run_Exclusive path v)

  -- Of the requests with one key, in any interleaving and whatever Redis answers, at most one
  -- handler runs at a time, if no handler runs at the start and the key does not expire.
  pub at_most_one : (r r' : R) (n : ℕ) → (r, 0) ⟶* (r', n) → n ≤ 1
  at_most_one r r' n path = elim (run_Exclusive path (inl refl)) [
    | inl e ↦ omega arith
    | inr (e, held) ↦ omega arith
  ]
