-- ===== src/Idempotency/Replays.antt =====
-- An answer that was stored is the answer from then on.
use mini_payment_gateway.Prelude.{
  ℕ, ◌≡◌, ◌<◌, refl, sym, ap, subst, ◌∙◌, inl, inr, String, false, Option, some, Option-cases,
  Bool-cases, Result-cases, ok, err, eq_iff, arith,
}
use mini_payment_gateway.Domain.Errors.{Error}
use mini_payment_gateway.Domain.Transaction.{Time}
use mini_payment_gateway.Idempotency.Redis.{IsRedis}
use mini_payment_gateway.Idempotency.Claims.{
  ◌⟶◌, ◌⟶*◌, asked, ended, elsewhere, done, then_step, System, is_claimed, begin_held,
  begin_unwritten, begin_claimed,
}
use mini_payment_gateway.Idempotency.{
  State, Claim, Client, response, get_claim, claim_of, begin, completed_claim, complete, conclude,
}

module _ {R P : Type 0} (client : Client R P) (redis : IsRedis client) (key : String) where
  -- The server holds a stored answer for the key.
  abbrev pub Stored : Claim → R → Type 0
  Stored c r =
      (c.state ≡ State.completed)
      × ((p : P) × (redis.view r key ≡ some p) × (client.unmarshal p ≡ ok c))

  get_claim-Stored :
      (c : Claim) (r : R) {x : Option Claim}
      → Stored c r
      → get_claim client key r ≡ ok x
      → x ≡ some c
  unfolding get_claim
  get_claim-Stored c r {x} (d, (p, held, text)) h = elim (Result-cases (client.get key r)) [
    | inl (raw, e) ↦ let same : raw ≡ some p = redis.get_reads key r e ∙ held in ground arith
    | inr (y, e) ↦ absurd (ground arith)
  ]

  begin_lost :
      (fingerprint : String) (now : Time) (r : R) (p : P) {x : Option Claim}
      → client.marshal (claim_of fingerprint now) ≡ ok p
      → (client.set_nx key p r).0 ≡ ok false
      → (begin client key fingerprint now r).0 ≡ ok x
      → ((c : Claim) × (get_claim client key (client.set_nx key p r).1 ≡ ok (some c))
          × (c.fingerprint ≡ fingerprint)
          × (x ≡ some c))
  unfolding begin
  begin_lost fingerprint now r p {x} e lost h =
      elim (Result-cases (get_claim client key (client.set_nx key p r).1)) [
        | inl (found, q) ↦ elim (Option-cases found) [
          | inl z ↦ absurd (ground arith)
          | inr (c, z) ↦
              (c, ground arith, ground (arith, eq_iff c.fingerprint fingerprint), ground arith)
        ]
        | inr (y, q) ↦ absurd (ground arith)
      ]

  begin_broken :
      (fingerprint : String) (now : Time) (r : R) (p : P) {x : Error}
      → client.marshal (claim_of fingerprint now) ≡ ok p
      → (client.set_nx key p r).0 ≡ err x
      → (begin client key fingerprint now r).0 ≡ err x
  unfolding begin
  begin_broken fingerprint now r p e h = ground arith

  set_nx_held :
      (q : P) (r : R) {p : P}
      → redis.view r key ≡ some p
      → redis.view (client.set_nx key q r).1 key ≡ some p
  set_nx_held q r held = elim (redis.set_nx_effect key q r) [
    | inl same ↦ same ∙ held
    | inr (free, _) ↦ absurd (ground arith)
  ]

  -- While an answer is stored, `Begin` gives it back to the same body, and gives nothing else back.
  begin-Stored :
      (c : Claim) (fingerprint : String) (now : Time) (r : R) {x : Option Claim}
      → Stored c r
      → (begin client key fingerprint now r).0 ≡ ok x
      → (x ≡ some c) × (c.fingerprint ≡ fingerprint)
  begin-Stored c fingerprint now r {x} (d, (p, held, text)) h =
      elim (Result-cases (client.marshal (claim_of fingerprint now))) [
        | inl (q, e) ↦ elim (Result-cases (client.set_nx key q r).0) [
          | inl (won, z) ↦ elim (Bool-cases won) [
            | inl w ↦
                let (free, _) = redis.set_nx_won key q r (z ∙ ap ok w) in absurd (ground arith)
            | inr w ↦
                let (found, read, same, answer) =
                  begin_lost fingerprint now r q e (z ∙ ap ok w) h in
                let kept : Stored c (client.set_nx key q r).1 =
                  (d, (p, set_nx_held q r held, text)) in
                let z' : some found ≡ some c = get_claim-Stored c _ kept read in ground arith
          ]
          | inr (y, z) ↦ absurd (ground (arith, begin_broken fingerprint now r q e z))
        ]
        | inr (y, e) ↦ absurd (ground (arith, begin_unwritten client redis key fingerprint now r e))
      ]

  -- No handler runs, and the answer is stored.
  abbrev Finished : Claim → System client redis key → Type 0
  Finished c (r, n) = (n ≡ 0) × Stored c r

  step_Finished :
      (c : Claim) {x y : System client redis key}
      → ◌⟶◌ client redis key x y
      → Finished c x
      → Finished c y
  step_Finished c (asked fingerprint now r n) (z, (d, (p, held, text))) =
      elim (Bool-cases (is_claimed (begin client key fingerprint now r).0)) [
        | inl e ↦
            let (free, _) = begin_claimed client redis key fingerprint now r e in
            absurd (ground arith)
        | inr e ↦ rw e (z, (d, (p, begin_held client redis key fingerprint now r held, text)))
      ]
  step_Finished c (ended fingerprint now outcome r n) (z, stored) = absurd (ground arith)
  step_Finished c (elsewhere r r' n same) (z, (d, (p, held, text))) =
      (z, (d, (p, same ∙ held, text)))

  run_Finished :
      (c : Claim) {x y : System client redis key}
      → ◌⟶*◌ client redis key x y
      → Finished c x
      → Finished c y
  run_Finished c (done x) v = v
  run_Finished c (then_step path step) v = step_Finished c step (run_Finished c path v)

  module _ (fingerprint : String) (status_code : ℕ) (content_type body : String) (now : Time)
      (r : R) where
    complete_writes :
        (p : P)
        → client.marshal (completed_claim fingerprint status_code content_type body now) ≡ ok p
        → complete client key fingerprint status_code content_type body now r ≡ client.set key p r
    unfolding complete
    complete_writes p e = ground arith

    complete_needs :
        (complete client key fingerprint status_code content_type body now r).0 ≡ ok tt
        → (p : P) × (client.marshal (completed_claim fingerprint status_code content_type body now)
            ≡ ok p)
    unfolding complete
    complete_needs h =
        elim (Result-cases
          (client.marshal (completed_claim fingerprint status_code content_type body now))) [
            | inl (p, e) ↦ (p, e)
            | inr (x, e) ↦ absurd (ground arith)
          ]

    complete-Stored :
        (complete client key fingerprint status_code content_type body now r).0 ≡ ok tt
        → Stored
            (completed_claim fingerprint status_code content_type (redis.rewritten body) now)
            (complete client key fingerprint status_code content_type body now r).1
    complete-Stored h =
        let (p, e) = complete_needs h in
        let same = complete_writes p e in
        (
          refl,
          (
            p,
            ap (λ y. redis.view y.1 key) same
                ∙ redis.set_done key p r (sym (ap (λ y. y.0) same) ∙ h),
            redis.reads_back _ e,
          ),
        )

  conclude_completes :
      (fingerprint : String) (now : Time) (status_code : ℕ) (content_type body : String) (r : R)
      → status_code < 500
      → conclude client key fingerprint now (response status_code content_type body) r
        ≡ (complete client key fingerprint status_code content_type body now r).1
  unfolding conclude
  conclude_completes fingerprint now status_code content_type body r h = ground arith

  -- Once an answer below 500 is stored, then in any later interleaving in which the key does not
  -- expire no handler runs for the key, and whatever Begin gives back without an error is the
  -- stored answer, to a request with the same fingerprint; its body is as the encoder writes it
  -- again.
  pub answer_replayed :
      (fingerprint fingerprint' : String) (status_code : ℕ) (content_type body : String)
      (now later : Time) (r r' : R) (n : ℕ) {x : Option Claim}
      → status_code < 500
      → (complete client key fingerprint status_code content_type body now r).0 ≡ ok tt
      → ◌⟶*◌ client redis key
          (conclude client key fingerprint now (response status_code content_type body) r, 0)
          (r', n)
      → (begin client key fingerprint' later r').0 ≡ ok x
      → (n ≡ 0)
        × (x
            ≡ some
                (completed_claim fingerprint status_code content_type (redis.rewritten body) now))
        × (fingerprint ≡ fingerprint')
  answer_replayed fingerprint fingerprint' status_code content_type body now later r r' n low kept
        path h =
      let c = completed_claim fingerprint status_code content_type (redis.rewritten body) now in
      let stored = complete-Stored fingerprint status_code content_type body now r kept in
      let (z, stored') = run_Finished c path (
        refl,
        subst (Stored c)
            (sym (conclude_completes fingerprint now status_code content_type body r low)) stored,
      ) in
      let (same, body_same) = begin-Stored c fingerprint' later r' stored' h in (z, same, body_same)
