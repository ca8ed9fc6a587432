-- ===== src/Prelude/Paging.antt =====
-- A client that reads a sorted list page by page, and sends with each request a cursor that stands for
-- the last element of the page before.
use Prim.Native.Nat.{ℕ, zero, suc, ◌≤◌, ◌<◌}
use mathlib.Core.Path.{◌≡◌, sym, ap, ◌∙◌}
use mathlib.Core.Bool.{Bool, true, false}
use mathlib.Core.Logic.{inl, inr}
use mathlib.Core.Option.{Option, none, some}
use mathlib.Core.List.{List, ◌++◌}
use native.Mathlib.Omega.{arith}
use mini_payment_gateway.Prelude.Tests.{Bool-cases, ltb}
use mini_payment_gateway.Prelude.Lists.{
  length, filter, take, drop, last, last_All, last_there, length-take, length-drop, take-drop,
  filter_stronger, filter_passes, All, All-filter,
}
use mini_payment_gateway.Prelude.Sorting.{IsSorted, IsOrder, filter-IsSorted, filter-last}

module _ {A : Type 0} (comes_first : A → A → Bool) (all : List A) where
  -- What comes after an element, or everything.
  abbrev pub rows : Option A → List A
  rows none = all
  rows (some x) = filter (comes_first x) all

  pub All-rows : (P : A → Type 0) (o : Option A) → All P all → All P (rows o)
  All-rows P none h = h
  All-rows P (some x) h = All-filter P (comes_first x) all h

  -- What is needed of a client: which element a cursor stands for, the answer for a list, the answer
  -- with a page before it, and what the client does with a number of requests and a cursor, where the
  -- page is the last one and where it is not.
  pub record IsClient {C W : Type 0} (n : ℕ) (Stands : C → Option A → Type 0) (good : List A → W)
      (prepend : List A → W → W) (walk : ℕ → C → W) : Type 0 where
    pub prepends : (xs ys : List A) → prepend xs (good ys) ≡ good (xs ++ ys)
    pub ends :
        (k : ℕ) (c : C) (o : Option A)
        → Stands c o
        → ltb n (length (rows o)) ≡ false
        → walk (suc k) c ≡ good (rows o)
    pub goes_on :
        (k : ℕ) (c : C) (o : Option A) {x : A}
        → Stands c o
        → ltb n (length (rows o)) ≡ true
        → last (take n (rows o)) ≡ some x
        → (c' : C) × Stands c' (some x) × (walk (suc k) c ≡ prepend (take n (rows o)) (walk k c'))

  module _ {key : A → ℕ} (order : IsOrder comes_first key) (sorted : IsSorted comes_first all)
      {n : ℕ} (some_room : 1 ≤ n) where
    -- What comes after the last element of a page is what is left after the page.
    rows_next :
        (o : Option A) {x : A} → last (take n (rows o)) ≡ some x → rows (some x) ≡ drop n (rows o)
    rows_next none {x} h = filter-last comes_first order n all {x = x} sorted h
    rows_next (some y) {x} h =
        let inside =
          last_All (λ z. comes_first y z ≡ true) n (filter (comes_first y) all) {x = x}
            (filter_passes (comes_first y) all) h in
        sym (
          filter_stronger (comes_first y) (comes_first x) (λ z k. order.transitive y x z inside k)
            all)
        ∙ filter-last comes_first order n (filter (comes_first y) all) {x = x}
            (filter-IsSorted comes_first (comes_first y) all sorted) h

    pub walk_all :
        {C W : Type 0} {Stands : C → Option A → Type 0} {good : List A → W}
        {prepend : List A → W → W} {walk : ℕ → C → W}
        → IsClient n Stands good prepend walk
        → (k : ℕ) (c : C) (o : Option A) → Stands c o
        → length (rows o) < k
        → walk k c ≡ good (rows o)
    walk_all client zero c o stands fuel = absurd (omega arith)
    walk_all {good} {prepend} client (suc k) c o stands fuel =
        elim (Bool-cases (ltb n (length (rows o)))) [
          | inl h ↦
              let long : n < length (rows o) = ground arith in
              let (x, found) =
                last_there (take n (rows o))
                  (omega (arith, some_room, long, length-take n (rows o) (omega (arith, long)))) in
              let (c', stands', step) = client.goes_on k c o {x = x} stands h found in
              let next = rows_next o {x = x} found in
              let left : length (rows (some x)) < k =
                rw next (omega (arith, some_room, fuel, long, length-drop n (rows o))) in
              step
              ∙ (ap (prepend (take n (rows o))) (walk_all client k c' (some x) stands' left)
                  ∙ (client.prepends (take n (rows o)) (rows (some x))
                      ∙ ap good (ap (λ r. take n (rows o) ++ r) next ∙ take-drop n (rows o))))
          | inr h ↦ client.ends k c o stands h
        ]
