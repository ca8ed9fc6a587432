-- ===== src/Prelude/Lists.antt =====
-- Lists: native lengths, the first element that passes a test, filters by a Boolean test.
use Prim.Native.Nat.{ℕ, zero, suc, ◌+◌, ◌-◌, ◌≤◌}
use mathlib.Core.Path.{◌≡◌, refl, sym, ap, ◌∙◌, subst}
use mathlib.Core.Bool.{Bool, true, ◌&&◌}
use mathlib.Core.Logic.{◌≢◌, inl, inr}
use mathlib.Core.Option
use mathlib.Core.Option.{Option, none, some}
use mathlib.Core.List.{List, [], ◌∷◌, ◌++◌, map}
use native.Mathlib.Omega.{arith}
use mini_payment_gateway.Prelude.Tests.{if◌then◌else◌, Bool-cases, ltb, ◌==◌, ==_iff}

pub some_inj {ℓ} : {A : Type ℓ} {x y : A} → some x ≡ some y → x ≡ y
some_inj h = cc

module _ {ℓ} {A : Type ℓ} where
  abbrev pub length : List A → ℕ
  length [] = 0
  length (x ∷ xs) = suc (length xs)

  abbrev pub find : (A → Bool) → List A → Option A
  find p [] = none
  find p (x ∷ xs) = if p x then some x else find p xs

  abbrev pub filter : (A → Bool) → List A → List A
  filter p [] = []
  filter p (x ∷ xs) = if p x then x ∷ filter p xs else filter p xs

  abbrev pub take : ℕ → List A → List A
  take zero xs = []
  take (suc n) [] = []
  take (suc n) (x ∷ xs) = x ∷ take n xs

  abbrev pub drop : ℕ → List A → List A
  drop zero xs = xs
  drop (suc n) [] = []
  drop (suc n) (x ∷ xs) = drop n xs

  abbrev pub last : List A → Option A
  last [] = none
  last (x ∷ []) = some x
  last (x ∷ y ∷ ys) = last (y ∷ ys)

  abbrev pub All {κ} : (A → Type κ) → List A → Type κ
  All P [] = Unit
  All P (x ∷ xs) = P x × All P xs

  pub length-append : (xs ys : List A) → length (xs ++ ys) ≡ length xs + length ys
  length-append [] ys = omega arith
  length-append (x ∷ xs) ys = omega (arith, length-append xs ys)

  pub length-take-le : (n : ℕ) (xs : List A) → length (take n xs) ≤ n
  length-take-le zero xs = omega arith
  length-take-le (suc n) [] = omega arith
  length-take-le (suc n) (x ∷ xs) = omega (arith, length-take-le n xs)

  pub All-filter {κ} :
      (P : A → Type κ) (p : A → Bool) (xs : List A) → All P xs → All P (filter p xs)
  All-filter P p [] h = tt
  All-filter P p (x ∷ xs) h = elim (Bool-cases (p x)) [
    | inl q ↦ rw q (h.0, All-filter P p xs h.1)
    | inr q ↦ rw q (All-filter P p xs h.1)
  ]

  pub All-take {κ} : (P : A → Type κ) (n : ℕ) (xs : List A) → All P xs → All P (take n xs)
  All-take P zero xs h = tt
  All-take P (suc n) [] h = tt
  All-take P (suc n) (x ∷ xs) h = (h.0, All-take P n xs h.1)

  pub filter_passes : (p : A → Bool) (xs : List A) → All (λ x. p x ≡ true) (filter p xs)
  filter_passes p [] = tt
  filter_passes p (x ∷ xs) = elim (Bool-cases (p x)) [
    | inl h ↦ rw h (h, filter_passes p xs)
    | inr h ↦ rw h (filter_passes p xs)
  ]

  -- An element that is found is one of which all that holds of each.
  pub All-find {κ} :
      (P : A → Type κ) (p : A → Bool) (xs : List A) {x : A} → All P xs → find p xs ≡ some x → P x
  All-find P p [] h k = cc
  All-find P p (y ∷ xs) {x} h k = elim (Bool-cases (p y)) [
    | inl q ↦ subst P (some_inj (rw q at k)) h.0
    | inr q ↦ All-find P p xs {x = x} h.1 (rw q at k)
  ]

  -- An element that is found passes the test.
  pub find_passes : (p : A → Bool) (xs : List A) {x : A} → find p xs ≡ some x → p x ≡ true
  find_passes p [] h = cc
  find_passes p (y ∷ xs) {x = found} h = ground (arith, find_passes p xs {x = found})

module _ {ℓ} {A : Type ℓ} where
  -- A change that the test does not notice commutes with the search.
  pub find-map :
      (p : A → Bool) (f : A → A)
      → ((x : A) → p (f x) ≡ p x)
      → (xs : List A) → find p (map f xs) ≡ Option.map f (find p xs)
  find-map p f same [] = refl
  find-map p f same (x ∷ xs) =
      rw same (elim (Bool-cases (p x)) [ inl e ↦ rw e refl | inr e ↦ rw e (find-map p f same xs) ])

module _ {ℓ} {A : Type ℓ} where
  pub All-append {κ} : (P : A → Type κ) (xs ys : List A) → All P xs → All P ys → All P (xs ++ ys)
  All-append P [] ys h k = k
  All-append P (x ∷ xs) ys h k = (h.0, All-append P xs ys h.1 k)

  pub All-imp {κ m} :
      (P : A → Type κ) (Q : A → Type m)
      → ((x : A) → P x → Q x)
      → (xs : List A) → All P xs
      → All Q xs
  All-imp P Q imp [] h = tt
  All-imp P Q imp (x ∷ xs) h = (imp x h.0, All-imp P Q imp xs h.1)

  pub All-every {κ} : (P : A → Type κ) → ((x : A) → P x) → (xs : List A) → All P xs
  All-every P h [] = tt
  All-every P h (x ∷ xs) = (h x, All-every P h xs)

  pub All-both {κ m} :
      (P : A → Type κ) (Q : A → Type m) (xs : List A)
      → All P xs
      → All Q xs
      → All (λ x. P x × Q x) xs
  All-both P Q [] h k = tt
  All-both P Q (x ∷ xs) h k = ((h.0, k.0), All-both P Q xs h.1 k.1)

  pub All-map {κ m} :
      {B : Type m} (P : B → Type κ) (f : A → B) (xs : List A)
      → All (λ x. P (f x)) xs
      → All P (map f xs)
  All-map P f [] h = tt
  All-map P f (x ∷ xs) h = (h.0, All-map P f xs h.1)

-- No two elements have one key.
module _ {A : Type 0} (key : A → ℕ) where
  abbrev pub Distinct : List A → Type 0
  Distinct [] = Unit
  Distinct (x ∷ xs) = All (λ y. key y ≢ key x) xs × Distinct xs

  -- An element is found by its key.
  found_later :
      (x : A) (ys xs : List A)
      → All (λ y. key y ≢ key x) ys
      → All (λ y. find (λ z. key z == key y) xs ≡ some y) ys
      → All (λ y. find (λ z. key z == key y) (x ∷ xs) ≡ some y) ys
  found_later x [] xs h k = tt
  found_later x (y ∷ ys) xs (n, h) (f, k) = (
    elim (Bool-cases (key x == key y)) [
      | inl e ↦ absurd (n (sym ((==_iff (key x) (key y)).0 e)))
      | inr e ↦ rw e f
    ],
    found_later x ys xs h k,
  )

  pub Distinct-found :
      (xs : List A) → Distinct xs → All (λ x. find (λ y. key y == key x) xs ≡ some x) xs
  Distinct-found [] h = tt
  Distinct-found (x ∷ xs) h =
      (rw ((==_iff (key x) (key x)).1 refl) refl, found_later x xs xs h.0 (Distinct-found xs h.1))

  pub filter-Distinct : (p : A → Bool) (xs : List A) → Distinct xs → Distinct (filter p xs)
  filter-Distinct p [] h = tt
  filter-Distinct p (x ∷ xs) h = elim (Bool-cases (p x)) [
    | inl k ↦ rw k (All-filter (λ y. key y ≢ key x) p xs h.0, filter-Distinct p xs h.1)
    | inr k ↦ rw k (filter-Distinct p xs h.1)
  ]

  pub append-Distinct :
      (xs ys : List A)
      → Distinct xs
      → Distinct ys
      → All (λ x. All (λ y. key y ≢ key x) ys) xs
      → Distinct (xs ++ ys)
  append-Distinct [] ys h k apart = k
  append-Distinct (x ∷ xs) ys h k apart =
      (All-append (λ y. key y ≢ key x) xs ys h.0 apart.0, append-Distinct xs ys h.1 k apart.1)

  pub map-Distinct :
      (f : A → A)
      → ((x : A) → key (f x) ≡ key x)
      → (xs : List A) → Distinct xs
      → Distinct (map f xs)
  map-Distinct f same [] h = tt
  map-Distinct f same (x ∷ xs) h = (
    All-map (λ y. key y ≢ key (f x)) f xs
        (All-imp (λ y. key y ≢ key x) (λ y. key (f y) ≢ key (f x))
          (λ y n e. n (sym (same y) ∙ (e ∙ same x))) xs h.0),
    map-Distinct f same xs h.1,
  )

module _ {ℓ} {A : Type ℓ} where
  pub take_all : (n : ℕ) (xs : List A) → length xs ≤ n → take n xs ≡ xs
  take_all zero [] h = refl
  take_all zero (x ∷ xs) h = absurd (omega arith)
  take_all (suc n) [] h = refl
  take_all (suc n) (x ∷ xs) h = ap (λ r. x ∷ r) (take_all n xs (omega arith))

  -- The first element that passes one test stays the first, where it passes another.
  pub find-filter :
      (q p : A → Bool) (xs : List A) {x : A}
      → find q xs ≡ some x
      → p x ≡ true
      → find q (filter p xs) ≡ some x
  find-filter q p [] h k = cc
  find-filter q p (y ∷ xs) {x} h k = elim (Bool-cases (q y)) [
    | inl t ↦
        let same : y ≡ x = some_inj (rw t at h) in
        let kept : p y ≡ true = subst (λ z. p z ≡ true) (sym same) k in rw (kept, t) (ap some same)
    | inr f ↦
        let rest = find-filter q p xs {x = x} (rw f at h) k in
        elim (Bool-cases (p y)) [ inl t ↦ rw (t, f) rest | inr g ↦ rw g rest ]
  ]

module _ {ℓ} {A : Type ℓ} where
  pub take-drop : (n : ℕ) (xs : List A) → take n xs ++ drop n xs ≡ xs
  take-drop zero xs = refl
  take-drop (suc n) [] = refl
  take-drop (suc n) (x ∷ xs) = ap (λ r. x ∷ r) (take-drop n xs)

  pub length-drop : (n : ℕ) (xs : List A) → length (drop n xs) ≡ length xs - n
  length-drop zero xs = omega arith
  length-drop (suc n) [] = omega arith
  length-drop (suc n) (x ∷ xs) = omega (arith, length-drop n xs)

  pub take-take : (n : ℕ) (xs : List A) → take n (take (suc n) xs) ≡ take n xs
  take-take zero xs = refl
  take-take (suc n) [] = refl
  take-take (suc n) (x ∷ xs) = ap (λ r. x ∷ r) (take-take n xs)

  -- Whether more than n are left shows in the first n and one.
  pub length-take-suc : (n : ℕ) (xs : List A) → ltb n (length (take (suc n) xs)) ≡ ltb n (length xs)
  length-take-suc zero [] = refl
  length-take-suc zero (x ∷ xs) = ground arith
  length-take-suc (suc n) [] = ground arith
  length-take-suc (suc n) (x ∷ xs) = ground (arith, length-take-suc n xs)

  pub length-take : (n : ℕ) (xs : List A) → n ≤ length xs → length (take n xs) ≡ n
  length-take zero xs h = omega arith
  length-take (suc n) [] h = omega arith
  length-take (suc n) (x ∷ xs) h = omega (arith, length-take n xs)

  pub last_there : (xs : List A) → 1 ≤ length xs → (x : A) × (last xs ≡ some x)
  last_there [] h = absurd (omega arith)
  last_there (x ∷ []) h = (x, refl)
  last_there (x ∷ y ∷ ys) h = last_there (y ∷ ys) (omega arith)

  -- The last element of a page is an element of the list.
  pub last_All {κ} :
      (P : A → Type κ) (n : ℕ) (xs : List A) {x : A} → All P xs → last (take n xs) ≡ some x → P x
  last_All P zero xs h k = cc
  last_All P (suc n) [] h k = cc
  last_All P (suc zero) (y ∷ ys) h k = subst P (some_inj k) h.0
  last_All P (suc (suc n)) (y ∷ []) h k = subst P (some_inj k) h.0
  last_All P (suc (suc n)) (y ∷ z ∷ ys) {x} h k = last_All P (suc n) (z ∷ ys) {x = x} h.1 k

  pub filter-and :
      (p q : A → Bool) (xs : List A) → filter (λ x. p x && q x) xs ≡ filter q (filter p xs)
  filter-and p q [] = refl
  filter-and p q (x ∷ xs) = elim (Bool-cases (p x)) [
    | inl h ↦ rw h (rw (filter-and p q xs) refl)
    | inr h ↦ rw h (filter-and p q xs)
  ]

  -- A test that implies another takes its place.
  pub filter_stronger :
      (p q : A → Bool)
      → ((x : A) → q x ≡ true → p x ≡ true)
      → (xs : List A) → filter q (filter p xs) ≡ filter q xs
  filter_stronger p q h [] = refl
  filter_stronger p q h (x ∷ xs) = elim (Bool-cases (p x)) [
    | inl k ↦ rw k (rw (filter_stronger p q h xs) refl)
    | inr k ↦ ground (arith, h x, filter_stronger p q h xs)
  ]

  pub filter_same :
      (p q : A → Bool) → ((x : A) → p x ≡ q x) → (xs : List A) → filter p xs ≡ filter q xs
  filter_same p q h [] = refl
  filter_same p q h (x ∷ xs) = rw (h x, filter_same p q h xs) refl

  pub filter_everything : (xs : List A) → filter (λ x. true) xs ≡ xs
  filter_everything [] = refl
  filter_everything (x ∷ xs) = ap (λ r. x ∷ r) (filter_everything xs)
