-- ===== src/Service/Reconciliation/Reports/Comparison.antt =====
-- The settlement goes ahead only where the two sides agree.
use mini_payment_gateway.Prelude.{ℕ, ◌≡◌, refl, ◌↔◌, true, List, [], ◌∷◌, ◌++◌, arith}
use mini_payment_gateway.Prelude.Lists.{All}
use mini_payment_gateway.Prelude.Int.{eqb_ℤ→eq, eqb_ℤ-refl}
use mini_payment_gateway.Service.Reconciliation.Reports.{
  MerchantSummary, Discrepancy, checks, compare, is_clean, report_ok, new_report,
}

-- The transactions and the journal give the same totals.
abbrev pub IsBalanced : MerchantSummary → Type 0
IsBalanced m =
    (m.captured_total ≡ m.ledger_captured)
    × (m.refunded_total ≡ m.ledger_refunded)
    × (m.fee_total ≡ m.ledger_fees)

checks_nil : (m : MerchantSummary) → checks m ≡ [] → IsBalanced m
checks_nil m h = ground (
  arith,
  eqb_ℤ→eq m.captured_total m.ledger_captured,
  eqb_ℤ→eq m.refunded_total m.ledger_refunded,
  eqb_ℤ→eq m.fee_total m.ledger_fees,
)

checks_of_IsBalanced : (m : MerchantSummary) → IsBalanced m → checks m ≡ []
checks_of_IsBalanced m (c, r, f) =
    rw (c, r, f)
      (rw (eqb_ℤ-refl m.ledger_captured, eqb_ℤ-refl m.ledger_refunded, eqb_ℤ-refl m.ledger_fees)
        refl)

append_nil_left : {A : Type 0} (xs ys : List A) → xs ++ ys ≡ [] → (xs ≡ []) × (ys ≡ [])
append_nil_left [] ys h = (refl, h)
append_nil_left (x ∷ xs) ys h = cc

compare_sound : (ms : List MerchantSummary) → compare ms ≡ [] → All IsBalanced ms
unfolding compare
compare_sound [] h = tt
compare_sound (m ∷ ms) h =
    let (e, es) = append_nil_left (checks m) (compare ms) h in (checks_nil m e, compare_sound ms es)

compare_complete : (ms : List MerchantSummary) → All IsBalanced ms → compare ms ≡ []
unfolding compare
compare_complete [] h = refl
compare_complete (m ∷ ms) (b, bs) = rw (checks_of_IsBalanced m b) (compare_complete ms bs)

clean_needs : (ds : List Discrepancy) (gs : List ℕ) → is_clean ds gs ≡ true → (ds ≡ []) × (gs ≡ [])
clean_needs ds gs h = ground arith

-- A report is clean exactly when in every summary the captured, the refunded and the fee totals of
-- the transactions are those of the journal, and no entry group is unbalanced.
pub report_ok_iff :
    (ms : List MerchantSummary) (unbalanced : List ℕ)
    → (report_ok (new_report ms unbalanced) ≡ true) ↔ (All IsBalanced ms × (unbalanced ≡ []))
unfolding report_ok
report_ok_iff ms unbalanced = (
  λ h. let (d, g) = clean_needs (compare ms) unbalanced h in (compare_sound ms d, g),
  λ (b, g). rw (compare_complete ms b, g) refl,
)
