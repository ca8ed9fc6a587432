-- ===== src/Prelude/Results.antt =====
-- Go's `(value, error)` as a result, for any type of errors, and methods that mutate a state: the
-- state comes back after an error too, since what was written stays written.
use mathlib.Core.Path.{◌≡◌, refl, ap}
use mathlib.Core.Logic.{◌⊎◌, inl, inr}
use mathlib.Core.Bool.{Bool, true, false}
use mini_payment_gateway.Prelude.Tests.{if◌then◌else◌}

pub data Result (E A : Type 0) : Type 0 where
  ok : A → Result E A
  err : E → Result E A

pub Result-cases :
    {E A : Type 0} (r : Result E A) → ((a : A) × (r ≡ ok a)) ⊎ ((e : E) × (r ≡ err e))
Result-cases (ok a) = inl (a, refl)
Result-cases (err e) = inr (e, refl)

pub ok_inj : {E A : Type 0} {a b : A} → ◌≡◌ {A = Result E A} (ok a) (ok b) → a ≡ b
ok_inj h = cc

abbrev pub Action : Type 0 → Type 0 → Type 0 → Type 0
Action E S A = S → Result E A × S

module _ {E S : Type 0} where
  infixl 5 ◌>>=◌ ◌>>◌
  unfoldable pub ◌>>=◌ : {A B : Type 0} → Action E S A → (A → Action E S B) → Action E S B
  ◌>>=◌ m f s = let (r, s') = m s in elim r [ ok a ↦ f a s' | err e ↦ (err e, s') ]

  abbrev pub ◌>>◌ : {A B : Type 0} → Action E S A → Action E S B → Action E S B
  m >> k = m >>= λ _. k

  abbrev pub pure : {A : Type 0} → A → Action E S A
  pure a s = (ok a, s)

  abbrev pub raise : {A : Type 0} → E → Action E S A
  raise e s = (err e, s)

  abbrev pub raise_if : Bool → E → Action E S (Unit {0})
  raise_if true e s = (err e, s)
  raise_if false e s = (ok tt, s)

  abbrev pub modify : (S → S) → Action E S (Unit {0})
  modify f s = (ok tt, f s)

  abbrev pub from_result : {A : Type 0} → Result E A → Action E S A
  from_result r s = (r, s)

  -- A sequence that succeeds after a first part whose outcome is known.
  >>=_continue :
      {A B : Type 0} (f : A → Action E S B) (p : Result E A × S) (b : B) (s' : S)
      → elim p.0 [ ok a ↦ f a p.1 | err e ↦ (err e, p.1) ] ≡ (ok b, s')
      → (a : A) × (t : S) × (p ≡ (ok a, t)) × (f a t ≡ (ok b, s'))
  >>=_continue f (ok a, t) b s' k = (a, t, refl, k)
  >>=_continue f (err x, t) b s' k = cc

  -- Each part of a sequence that succeeds has succeeded.
  pub >>=-eq-ok :
      {A B : Type 0} (m : Action E S A) (f : A → Action E S B) (s : S) {b : B} {s' : S}
      → (m >>= f) s ≡ (ok b, s')
      → (a : A) × (t : S) × (m s ≡ (ok a, t)) × (f a t ≡ (ok b, s'))
  unfolding ◌>>=◌
  >>=-eq-ok m f s {b} {s'} h = >>=_continue f (m s) b s' h

  >>=_stop :
      {A B : Type 0} (f : A → Action E S B) (p : Result E A × S) (e : E) (s' : S)
      → elim p.0 [ ok a ↦ f a p.1 | err x ↦ (err x, p.1) ] ≡ (err e, s')
      → (p ≡ (err e, s')) ⊎ ((a : A) × (t : S) × (p ≡ (ok a, t)) × (f a t ≡ (err e, s')))
  >>=_stop f (ok a, t) e s' k = inr (a, t, refl, k)
  >>=_stop f (err x, t) e s' k = inl cc

  -- A sequence that fails has failed in its first part, or in the rest.
  pub >>=-eq-err :
      {A B : Type 0} (m : Action E S A) (f : A → Action E S B) (s : S) {e : E} {s' : S}
      → (m >>= f) s ≡ (err e, s')
      → (m s ≡ (err e, s')) ⊎ ((a : A) × (t : S) × (m s ≡ (ok a, t)) × (f a t ≡ (err e, s')))
  unfolding ◌>>=◌
  >>=-eq-err m f s {e} {s'} h = >>=_stop f (m s) e s' h

  -- The same, for use in a proof of any other statement.
  pub >>=_elim {κ} :
      {A B : Type 0} {C : Type κ} (m : Action E S A) (f : A → Action E S B) (s : S) {b : B} {s' : S}
      → (m >>= f) s ≡ (ok b, s')
      → ((a : A) (t : S) → m s ≡ (ok a, t) → f a t ≡ (ok b, s') → C)
      → C
  >>=_elim m f s h use_parts =
      let (a, t, first, rest) = >>=-eq-ok m f s h in use_parts a t first rest

  -- The same after a part that does not touch the state.
  pub from_result_elim {κ} :
      {A B : Type 0} {C : Type κ} (r : Result E A) (f : A → Action E S B) (s : S) {b : B} {s' : S}
      → (from_result r >>= f) s ≡ (ok b, s')
      → ((a : A) → r ≡ ok a → f a s ≡ (ok b, s') → C)
      → C
  unfolding ◌>>=◌
  from_result_elim (ok a) f s h use_parts = use_parts a refl h
  from_result_elim (err e) f s h use_parts = cc

  -- A first part that succeeds is followed by the rest.
  pub >>=_ok :
      {A B : Type 0} (m : Action E S A) (f : A → Action E S B) (s : S) {a : A} {t : S}
      → m s ≡ (ok a, t)
      → (m >>= f) s ≡ f a t
  unfolding ◌>>=◌
  >>=_ok m f s h = ap (λ p. elim p.0 [ ok a ↦ f a p.1 | err e ↦ (err e, p.1) ]) h

abbrev pub is_ok : {E A : Type 0} → Result E A → Bool
is_ok (ok a) = true
is_ok (err e) = false

-- A guard that did not stop the code.
pub guard_passed :
    {E A : Type 0} (b : Bool) (e : E) (r : Result E A) {a : A}
    → (if b then err e else r) ≡ ok a
    → (b ≡ false) × (r ≡ ok a)
guard_passed true e r h = cc
guard_passed false e r h = (refl, h)

pub pure_done :
    {E S A : Type 0} (a : A) (s : S) {b : A} {s' : S}
    → ◌≡◌ {A = Result E A × S} (ok a, s) (ok b, s')
    → (a ≡ b) × (s ≡ s')
pure_done a s h = (cc, cc)
