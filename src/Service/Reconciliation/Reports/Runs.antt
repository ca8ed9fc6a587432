-- ===== src/Service/Reconciliation/Reports/Runs.antt =====
-- Whole runs: the books stay sound, and a day that does not reconcile settles nothing.
use mini_payment_gateway.Prelude.{
  ◌≡◌, List, [], ◌∷◌, false, not, Result, ◌>>=◌, arith, Bool-cases, inl, inr, ℕ,
}
use mini_payment_gateway.Prelude.Lists.{All}
use mini_payment_gateway.Prelude.Int.{ℤ}
use mini_payment_gateway.Domain.Errors.{Error}
use mini_payment_gateway.Domain.Transaction.{Transaction}
use mini_payment_gateway.Repository.{Store}
use mini_payment_gateway.Repository.Books.{IsSound}
use mini_payment_gateway.Repository.Keeps.{Keeps, Keeps-seq, Keeps-if, Keeps-from_result}
use mini_payment_gateway.Service.Payment.{Env, Others}
use mini_payment_gateway.Service.Reconciliation.{Round}
use mini_payment_gateway.Service.Reconciliation.Settlement.{settle-IsSound}
use mini_payment_gateway.Service.Reconciliation.Reports.Comparison.{IsBalanced, report_ok_iff}
use mini_payment_gateway.Repository.Entries.Aggregates.{DailyTotals}
use mini_payment_gateway.Service.Reconciliation.Reports.{
  MerchantSummary, Report, new_report, report_ok, rounds_of, settle_if_clean, run,
}

skip_leaves :
    (files : Result Error (Unit {0})) (rounds : List Round) (report : Report) (s : Store)
    → report_ok report ≡ false
    → (settle_if_clean files rounds report s).1 ≡ s
unfolding settle_if_clean ◌>>=◌
skip_leaves files rounds report s h = rw h (ground arith)

-- Where some summary differs between the transactions and the journal in the captured, the refunded
-- or the fee total, or some entry group is unbalanced, the decision on the report leaves the store
-- as it was.
pub disagreement_settles_nothing :
    (files : Result Error (Unit {0})) (rounds : List Round) (ms : List MerchantSummary)
    (unbalanced : List ℕ) (s : Store)
    → ¬ (All IsBalanced ms × (unbalanced ≡ []))
    → (settle_if_clean files rounds (new_report ms unbalanced) s).1 ≡ s
disagreement_settles_nothing files rounds ms unbalanced s differ =
    elim (Bool-cases (report_ok (new_report ms unbalanced))) [
      | inl e ↦ absurd (differ ((report_ok_iff ms unbalanced).0 e))
      | inr e ↦ skip_leaves files rounds (new_report ms unbalanced) s e
    ]

Keeps-settle_if_clean :
    (files : Result Error (Unit {0})) (rounds : List Round) (report : Report)
    → All (λ r. (t : Store) → IsSound t → IsSound (r.others t)) rounds
    → Keeps IsSound (settle_if_clean files rounds report)
unfolding settle_if_clean
Keeps-settle_if_clean files rounds report keep =
    Keeps-if IsSound (not (report_ok report)) _ _ (Keeps-seq IsSound _ _ (λ t h. h) λ u t h. h) (
      Keeps-seq IsSound _ _ (settle-IsSound rounds keep)
        λ n. Keeps-seq IsSound _ _ (λ t h. h) λ u t h. h)

rounds_of-All :
    (others : Transaction → Others) (env : Transaction → Env) (ts : List Transaction)
    → ((x : Transaction) (t : Store) → IsSound t → IsSound (others x t))
    → All (λ r. (t : Store) → IsSound t → IsSound (r.others t)) (rounds_of others env ts)
rounds_of-All others env [] keep = tt
rounds_of-All others env (t ∷ ts) keep = (keep t, rounds_of-All others env ts keep)

-- Whichever statements fail and whatever the queries give back, a reconciliation with its
-- settlement leaves sound books if it started from them and what others commit meanwhile keeps them
-- sound.
pub run-IsSound :
    (fee_bps : ℤ) (captured_between : Result Error (List Transaction))
    (aggregates : Result Error (List DailyTotals)) (unbalanced_groups : Result Error (List ℕ))
    (files : Result Error (Unit {0})) (others : Transaction → Others) (env : Transaction → Env)
    (s : Store)
    → ((x : Transaction) (t : Store) → IsSound t → IsSound (others x t))
    → IsSound s
    → IsSound (run fee_bps captured_between aggregates unbalanced_groups files others env s).1
unfolding run
run-IsSound fee_bps captured_between aggregates unbalanced_groups files others env s keep sound =
    Keeps-from_result IsSound captured_between _
      (λ txns e. Keeps-from_result IsSound aggregates _ λ totals e'.
        Keeps-from_result IsSound unbalanced_groups _
          λ unbalanced e''. Keeps-settle_if_clean files _ _ (rounds_of-All others env txns keep))
      s sound
