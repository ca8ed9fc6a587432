-- ===== src/Prelude/Sorting.antt =====
-- Insertion sort by a strict order, what a filter makes of it, and what comes after an element.
use Prim.Native.Nat.{ℕ, zero, suc}
use mathlib.Core.Path.{◌≡◌, refl, sym, ap, ◌∙◌, subst}
use mathlib.Core.Bool.{Bool, true, false}
use mathlib.Core.Logic.{◌≢◌, inl, inr}
use mathlib.Core.Option.{some}
use mathlib.Core.List.{List, [], ◌∷◌}
use native.Mathlib.Omega.{arith}
use mini_payment_gateway.Prelude.Tests.{if◌then◌else◌, Bool-cases, is_some}
use mini_payment_gateway.Prelude.Lists.{
  length, find, filter, take, drop, last, last_All, All, All-filter, All-imp, Distinct, some_inj,
}

module _ {A : Type 0} (comes_first : A → A → Bool) where
  -- An element goes before the first one that it comes before.
  unfoldable pub insert_by : A → List A → List A
  insert_by e [] = e ∷ []
  insert_by e (x ∷ xs) = if comes_first e x then e ∷ x ∷ xs else x ∷ insert_by e xs

  unfoldable pub sort_by : List A → List A
  unfolding insert_by
  sort_by [] = []
  sort_by (e ∷ es) = insert_by e (sort_by es)

  abbrev pub IsSorted : List A → Type 0
  IsSorted [] = Unit
  IsSorted (x ∷ xs) = All (λ y. comes_first x y ≡ true) xs × IsSorted xs

  -- A strict order that compares any two elements with different keys.
  pub record IsOrder (key : A → ℕ) : Type 0 where
    pub irreflexive : (x : A) → comes_first x x ≡ false
    pub transitive :
        (x y z : A) → comes_first x y ≡ true → comes_first y z ≡ true → comes_first x z ≡ true
    pub total : (x y : A) → key y ≢ key x → comes_first x y ≡ false → comes_first y x ≡ true

  module _ (P : A → Type 0) where
    All-insert_by : (e : A) (xs : List A) → P e → All P xs → All P (insert_by e xs)
    unfolding insert_by
    All-insert_by e [] h k = (h, tt)
    All-insert_by e (x ∷ xs) h (p, k) = elim (Bool-cases (comes_first e x)) [
      | inl q ↦ rw q (h, (p, k))
      | inr q ↦ rw q (p, All-insert_by e xs h k)
    ]

    pub All-sort_by : (xs : List A) → All P xs → All P (sort_by xs)
    unfolding sort_by
    All-sort_by [] h = tt
    All-sort_by (x ∷ xs) h = All-insert_by x (sort_by xs) h.0 (All-sort_by xs h.1)

  -- Sorting neither loses nor adds an element.
  found_inserted :
      (p : A → Bool) (e : A) (xs : List A)
      → is_some (find p (insert_by e xs)) ≡ is_some (find p (e ∷ xs))
  unfolding insert_by
  found_inserted p e [] = refl
  found_inserted p e (x ∷ xs) = elim (Bool-cases (comes_first e x)) [
    | inl k ↦ rw k refl
    | inr k ↦
        let ih = found_inserted p e xs in
        rw k (elim (Bool-cases (p x)) [
          | inl t ↦ rw t (elim (Bool-cases (p e)) [ inl u ↦ rw u refl | inr u ↦ rw u refl ])
          | inr t ↦ rw t ih
        ])
  ]

  pub find-sort_by :
      (p : A → Bool) (xs : List A) → is_some (find p (sort_by xs)) ≡ is_some (find p xs)
  unfolding sort_by
  find-sort_by p [] = refl
  find-sort_by p (x ∷ xs) =
      found_inserted p x (sort_by xs)
      ∙ elim (Bool-cases (p x)) [ inl t ↦ rw t refl | inr t ↦ rw t (find-sort_by p xs) ]

  length-insert_by : (e : A) (xs : List A) → length (insert_by e xs) ≡ suc (length xs)
  unfolding insert_by
  length-insert_by e [] = refl
  length-insert_by e (x ∷ xs) = ground (arith, length-insert_by e xs)

  pub length-sort_by : (xs : List A) → length (sort_by xs) ≡ length xs
  unfolding sort_by
  length-sort_by [] = refl
  length-sort_by (x ∷ xs) = omega (arith, length-insert_by x (sort_by xs), length-sort_by xs)

  pub filter-IsSorted : (p : A → Bool) (xs : List A) → IsSorted xs → IsSorted (filter p xs)
  filter-IsSorted p [] h = tt
  filter-IsSorted p (x ∷ xs) h = elim (Bool-cases (p x)) [
    | inl k ↦ rw k (All-filter (λ y. comes_first x y ≡ true) p xs h.0, filter-IsSorted p xs h.1)
    | inr k ↦ rw k (filter-IsSorted p xs h.1)
  ]

  -- An element that comes before all others is put first.
  insert_by_first :
      (e : A) (xs : List A) → All (λ y. comes_first e y ≡ true) xs → insert_by e xs ≡ e ∷ xs
  unfolding insert_by
  insert_by_first e [] h = refl
  insert_by_first e (x ∷ xs) h = rw (h.0) refl

  module _ {key : A → ℕ} (order : IsOrder key) where
    -- What comes after an element comes after those before it.
    after_earlier :
        (e x : A) (xs : List A)
        → comes_first e x ≡ true
        → All (λ y. comes_first x y ≡ true) xs
        → All (λ y. comes_first e y ≡ true) xs
    after_earlier e x xs h =
        All-imp (λ y. comes_first x y ≡ true) (λ y. comes_first e y ≡ true)
          (λ y k. order.transitive e x y h k) xs

    insert_by-IsSorted :
        (e : A) (xs : List A)
        → All (λ y. key y ≢ key e) xs
        → IsSorted xs
        → IsSorted (insert_by e xs)
    unfolding insert_by
    insert_by-IsSorted e [] h k = (tt, tt)
    insert_by-IsSorted e (x ∷ xs) h k = elim (Bool-cases (comes_first e x)) [
      | inl q ↦ rw q ((q, after_earlier e x xs q k.0), k)
      | inr q ↦ rw q (
        All-insert_by (λ y. comes_first x y ≡ true) e xs (order.total e x h.0 q) k.0,
        insert_by-IsSorted e xs h.1 k.1,
      )
    ]

    pub sort_by-IsSorted : (xs : List A) → Distinct key xs → IsSorted (sort_by xs)
    unfolding sort_by
    sort_by-IsSorted [] h = tt
    sort_by-IsSorted (x ∷ xs) h =
        insert_by-IsSorted x (sort_by xs) (All-sort_by (λ y. key y ≢ key x) xs h.0)
          (sort_by-IsSorted xs h.1)

    module _ (p : A → Bool) where
      -- A kept element stays before one that is put after it.
      filter-insert_by_later :
          (e x : A) (xs : List A)
          → comes_first e x ≡ false
          → filter p (insert_by e xs) ≡ (if p e then insert_by e (filter p xs) else filter p xs)
          → filter p (x ∷ insert_by e xs)
            ≡ (if p e then insert_by e (filter p (x ∷ xs)) else filter p (x ∷ xs))
      unfolding insert_by
      filter-insert_by_later e x xs h k = elim (Bool-cases (p x)) [
        | inl q ↦ elim (Bool-cases (p e)) [
          | inl r ↦ rw (q, r, h) (ap (λ l. x ∷ l) (rw r at k))
          | inr r ↦ rw (q, r) (ap (λ l. x ∷ l) (rw r at k))
        ]
        | inr q ↦ rw q k
      ]

      filter-insert_by :
          (e : A) (xs : List A)
          → IsSorted xs
          → filter p (insert_by e xs) ≡ (if p e then insert_by e (filter p xs) else filter p xs)
      unfolding insert_by
      filter-insert_by e [] h = refl
      filter-insert_by e (x ∷ xs) h = elim (Bool-cases (comes_first e x)) [
        | inl k ↦
            let kept =
              All-filter (λ y. comes_first e y ≡ true) p (x ∷ xs) (k, after_earlier e x xs k h.0) in
            rw k (
              ap (λ r. if p e then r else filter p (x ∷ xs))
                (sym (insert_by_first e (filter p (x ∷ xs)) kept)))
        | inr k ↦ rw k (filter-insert_by_later e x xs k (filter-insert_by e xs h.1))
      ]

      pub filter-sort_by :
          (xs : List A) → Distinct key xs → filter p (sort_by xs) ≡ sort_by (filter p xs)
      unfolding sort_by
      filter-sort_by [] h = refl
      filter-sort_by (x ∷ xs) h =
          filter-insert_by x (sort_by xs) (sort_by-IsSorted xs h.1) ∙ (elim (Bool-cases (p x)) [
            | inl q ↦ rw q (ap (insert_by x) (filter-sort_by xs h.1))
            | inr q ↦ rw q (filter-sort_by xs h.1)
          ])

    keep-All :
        (x : A) (xs : List A)
        → All (λ y. comes_first x y ≡ true) xs
        → filter (comes_first x) xs ≡ xs
    keep-All x [] h = refl
    keep-All x (y ∷ ys) h = rw (h.0, keep-All x ys h.1) refl

    earlier_goes : (x y : A) → comes_first y x ≡ true → comes_first x y ≡ false
    earlier_goes x y h = elim (Bool-cases (comes_first x y)) [
      | inl k ↦ absurd (ground (arith, order.transitive x y x k h, order.irreflexive x))
      | inr k ↦ k
    ]

    -- What comes after the last element of a page is what is left after the page.
    pub filter-last :
        (n : ℕ) (xs : List A) {x : A}
        → IsSorted xs
        → last (take n xs) ≡ some x
        → filter (comes_first x) xs ≡ drop n xs
    filter-last zero xs h k = cc
    filter-last (suc n) [] h k = cc
    filter-last (suc zero) (y ∷ ys) {x} h k =
        subst (λ z. filter (comes_first z) (y ∷ ys) ≡ ys) (some_inj k)
          (rw (order.irreflexive y) (keep-All y ys h.0))
    filter-last (suc (suc n)) (y ∷ []) {x} h k =
        subst (λ z. filter (comes_first z) (y ∷ []) ≡ []) (some_inj k)
          (rw (order.irreflexive y) refl)
    filter-last (suc (suc n)) (y ∷ z ∷ ys) {x} h k =
        rw
          (earlier_goes x y (last_All (λ w. comes_first y w ≡ true) (suc n) (z ∷ ys) {x = x} h.0 k))
          (filter-last (suc n) (z ∷ ys) {x = x} h.1 k)
