-- ===== src/Repository/Keeps.antt =====
-- Queries that keep a property of the store, whether they succeed or fail.
use mini_payment_gateway.Prelude.{
  ◌≡◌, refl, sym, subst, inl, inr, Result, Result-cases, ok, err, ◌>>=◌, from_result, Bool, true,
  false, if◌then◌else◌, arith, ℕ, String,
}
use mini_payment_gateway.Domain.Errors.{Error}
use mini_payment_gateway.Repository.{Store, Faults, Query, with_tx, with_tx_ok, with_tx_rollback}
use mini_payment_gateway.Repository.Transactions.{get_by_merchant_and_id, get_by_reference}

module _ (P : Store → Type 0) where
  abbrev pub Keeps : {A : Type 0} → Query A → Type 0
  Keeps q = (s : Store) → P s → P (q s).1

  -- The first part of a sequence has ended, and the rest is to run.
  Keeps_rest :
      {A B : Type 0} (f : A → Query B) (p : Result Error A × Store)
      → ((a : A) → Keeps (f a))
      → P p.1
      → P (elim p.0 as (λ r. Result Error B × Store) [ ok a ↦ f a p.1 | err e ↦ (err e, p.1) ]).1
  Keeps_rest f (ok a, t) kf h = kf a t h
  Keeps_rest f (err e, t) kf h = h

  pub Keeps-seq :
      {A B : Type 0} (m : Query A) (f : A → Query B)
      → Keeps m
      → ((a : A) → Keeps (f a))
      → Keeps (m >>= f)
  unfolding ◌>>=◌
  Keeps-seq m f km kf s h = Keeps_rest f (m s) kf (km s h)

  -- A sequence that begins with a result, which is known in the rest.
  pub Keeps-from_result :
      {A B : Type 0} (r : Result Error A) (f : A → Query B)
      → ((a : A) → r ≡ ok a → Keeps (f a))
      → Keeps (from_result r >>= f)
  unfolding ◌>>=◌
  Keeps-from_result (ok a) f kf s h = kf a refl s h
  Keeps-from_result (err x) f kf s h = h

  pub Keeps-if :
      {A : Type 0} (b : Bool) (q q' : Query A) → Keeps q → Keeps q' → Keeps (if b then q else q')
  Keeps-if true q q' k k' s h = k s h
  Keeps-if false q q' k k' s h = k' s h

  -- A database transaction keeps what its body keeps whenever it succeeds.
  pub Keeps-with_tx :
      {A : Type 0} (faults : Faults) (body : Query A)
      → ((s s' : Store) (a : A) → P s → body s ≡ (ok a, s') → P s')
      → Keeps (with_tx faults body)
  Keeps-with_tx faults body keep s h = elim (Result-cases (with_tx faults body s).0) [
    | inl (a, e) ↦
        keep s (with_tx faults body s).1 a h
          (with_tx_ok faults body s (λ i. (e i, (with_tx faults body s).1)))
    | inr (x, e) ↦ subst P (sym (with_tx_rollback faults body s e)) h
  ]

  -- The queries that only read.
  pub Keeps-get_by_merchant_and_id :
      (faults : Faults) (merchant_id id : ℕ) → Keeps (get_by_merchant_and_id faults merchant_id id)
  unfolding get_by_merchant_and_id
  Keeps-get_by_merchant_and_id faults merchant_id id s h = subst P (ground arith) h

  pub Keeps-get_by_reference :
      (faults : Faults) (merchant_id : ℕ) (reference : String)
      → Keeps (get_by_reference faults merchant_id reference)
  unfolding get_by_reference
  Keeps-get_by_reference faults merchant_id reference s h = subst P (ground arith) h
