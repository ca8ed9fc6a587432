-- ===== src/Prelude/Sums.antt =====
-- Sums over a list.
use mathlib.Core.Path.{◌≡◌, refl, sym, ap, ◌∙◌}
use mathlib.Core.Bool.{Bool}
use mathlib.Core.Logic.{inl, inr}
use mathlib.Core.List.{List, [], ◌∷◌}
use mini_payment_gateway.Prelude.Tests.{if◌then◌else◌, Bool-cases}
use mini_payment_gateway.Prelude.Int.{ℤ, pos, ◌+ℤ◌, +ℤ_assoc, +ℤ_comm, zero-+ℤ}
use mini_payment_gateway.Prelude.Lists.{filter, All}
use mini_payment_gateway.Prelude.Sorting.{insert_by, sort_by}

module _ {A : Type 0} (f : A → ℤ) where
  unfoldable pub sum_of : List A → ℤ
  sum_of [] = pos 0
  sum_of (x ∷ xs) = f x +ℤ sum_of xs

  sum_of-insert_by :
      (lt : A → A → Bool) (e : A) (xs : List A) → sum_of (insert_by lt e xs) ≡ f e +ℤ sum_of xs
  unfolding sum_of insert_by
  sum_of-insert_by lt e [] = refl
  sum_of-insert_by lt e (x ∷ xs) = elim (Bool-cases (lt e x)) [
    | inl h ↦ rw h refl
    | inr h ↦ rw h (
        ap (λ r. f x +ℤ r) (sum_of-insert_by lt e xs)
        ∙ (sym (+ℤ_assoc (f x) (f e) (sum_of xs))
            ∙ (ap (λ r. r +ℤ sum_of xs) (+ℤ_comm (f x) (f e)) ∙ +ℤ_assoc (f e) (f x) (sum_of xs))))
  ]

  -- The order does not matter to a sum.
  pub sum_of-sort_by : (lt : A → A → Bool) (xs : List A) → sum_of (sort_by lt xs) ≡ sum_of xs
  unfolding sum_of sort_by
  sum_of-sort_by lt [] = refl
  sum_of-sort_by lt (x ∷ xs) =
      sum_of-insert_by lt x (sort_by lt xs) ∙ ap (λ r. f x +ℤ r) (sum_of-sort_by lt xs)

module _ {A : Type 0} where
  -- What a filter leaves out counts as nothing.
  pub sum_of-filter :
      (f : A → ℤ) (p : A → Bool) (xs : List A)
      → sum_of f (filter p xs) ≡ sum_of (λ x. if p x then f x else pos 0) xs
  unfolding sum_of
  sum_of-filter f p [] = refl
  sum_of-filter f p (x ∷ xs) = elim (Bool-cases (p x)) [
    | inl h ↦ rw h (ap (λ r. f x +ℤ r) (sum_of-filter f p xs))
    | inr h ↦ rw h (sum_of-filter f p xs ∙ sym (zero-+ℤ _))
  ]

  pub sum_of-same :
      (f g : A → ℤ) (xs : List A) → All (λ x. f x ≡ g x) xs → sum_of f xs ≡ sum_of g xs
  unfolding sum_of
  sum_of-same f g [] h = refl
  sum_of-same f g (x ∷ xs) h = rw (h.0, sum_of-same f g xs h.1) refl
