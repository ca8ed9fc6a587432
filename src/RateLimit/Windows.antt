-- ===== src/RateLimit/Windows.antt =====
-- How many requests of one window are let through.
use mini_payment_gateway.Prelude.{
  ℕ, ◌+◌, ◌-◌, ◌/◌, ◌≤◌, ◌≡◌, refl, ap, Bool-cases, inl, inr, List, [], ◌∷◌, Result, ok, err, ◌==◌,
  ==_iff, if◌then◌else◌, arith,
}
use mini_payment_gateway.Prelude.Int.{ℤ, pos, pos_part, ◌≤ℤ◌}
use mini_payment_gateway.Domain.Errors.{Error}
use mini_payment_gateway.RateLimit.{
  Limiter, Pipeline, IsCounter, outcome_of, Outcome, allow, new_limiter,
}

abbrev passed : Result Error Outcome → ℕ
passed (err e) = 0
passed (ok r) = if r.allowed then 1 else 0

-- How many of the requests, each with its two readings of the clock, an answer of Redis lets through
-- in one window.
pub let_through : {R : Type 0} → Pipeline R → Limiter → ℕ → List (ℕ × ℕ) → R → ℕ
unfolding allow
let_through pipeline l bucket [] r = 0
let_through pipeline l bucket ((now, later) ∷ times) r =
    let (outcome, r') = allow pipeline l now later r in
    let rest = let_through pipeline l bucket times r' in
    if now / l.window == bucket then passed outcome + rest else rest

module _ {R : Type 0} {count : ℕ → R → ℕ} {pipeline : Pipeline R}
    (law : IsCounter count pipeline) where
  -- An answer of a window takes one of what the limit leaves.
  passed-le :
      (l : Limiter) (k later : ℕ) (r : R) (answer : Result Error ℕ) (r' : R)
      → pipeline k r ≡ (answer, r')
      → passed (outcome_of l k later answer) + (l.limit - count k r') ≤ l.limit - count k r
  passed-le l k later r (err e) r' q =
      let kept = law.keeps k k r in let same = ap (λ p. count k p.1) q in omega arith
  passed-le l k later r (ok n) r' q = let (grown, same) = law.answer q in ground arith

  -- What the requests of a window are let through is no more than the limit leaves.
  let_through-le :
      (l : Limiter) (bucket : ℕ) (times : List (ℕ × ℕ)) (r : R)
      → let_through pipeline l bucket times r ≤ l.limit - count bucket r
  unfolding let_through allow
  let_through-le l bucket [] r = omega arith
  let_through-le l bucket ((now, later) ∷ times) r =
      let ih = let_through-le l bucket times (pipeline (now / l.window) r).1 in
      elim (Bool-cases (now / l.window == bucket)) [
        | inl h ↦
            let k = now / l.window in
            let (answer, r') = pipeline k r in
            let taken = passed-le l k later r answer r' refl in
            let same = (==_iff k bucket).0 h in
            let before = ap (λ b. count b r) same in
            let after = ap (λ b. count b r') same in rw h (omega arith)
        | inr h ↦ let kept = law.keeps (now / l.window) bucket r in rw h (omega arith)
      ]

-- Of the requests that a merchant sends in one window, in any number and at any times, the answers
-- of Redis let at most the limit through, where the limit is at least one, the counter of the
-- window is missing at first, and INCR and EXPIRE count as documented.
pub let_through_bound :
    {R : Type 0} {count : ℕ → R → ℕ} {pipeline : Pipeline R} (limit window : ℤ) (bucket : ℕ)
    (times : List (ℕ × ℕ)) (r : R)
    → IsCounter count pipeline
    → pos 1 ≤ℤ limit
    → count bucket r ≡ 0
    → let_through pipeline (new_limiter limit window) bucket times r ≤ pos_part limit
unfolding new_limiter
let_through_bound limit window bucket times r law h fresh =
    ground (arith, let_through-le law (new_limiter limit window) bucket times r)
