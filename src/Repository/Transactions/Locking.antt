-- ===== src/Repository/Transactions/Locking.antt =====
-- The optimistic lock of `Update`: an update of a version that is no longer there is refused.
use mini_payment_gateway.Prelude.{
  ◌≡◌, refl, Bool-cases, inl, inr, false, none, List, [], ◌∷◌, ok, err, arith,
}
use mini_payment_gateway.Prelude.Lists.{find}
use mini_payment_gateway.Domain.Errors.{Error}
use mini_payment_gateway.Domain.Transaction.{Time, Transaction}
use mini_payment_gateway.Repository.{Store, Statement, Faults}
use mini_payment_gateway.Repository.Transactions.{is_version_of, write_row, write_rows, update}
use mini_payment_gateway.Repository.Transactions.Rows.{update_ok}

-- A row that was written has a higher version.
write_row-bumped :
    (t u row : Transaction) (now : Time)
    → u.id ≡ t.id
    → u.version ≡ t.version
    → is_version_of u (write_row t now row) ≡ false
write_row-bumped t u row now same_id same_version = elim (Bool-cases (is_version_of t row)) [
  | inl e ↦ rw e (ground arith)
  | inr e ↦ rw e (ground arith)
]

write_rows-bumped :
    (t u : Transaction) (now : Time) (rows : List Transaction)
    → u.id ≡ t.id
    → u.version ≡ t.version
    → find (is_version_of u) (write_rows t now rows) ≡ none
write_rows-bumped t u now [] same_id same_version = refl
write_rows-bumped t u now (row ∷ rows) same_id same_version =
    rw (write_row-bumped t u row now same_id same_version)
      (write_rows-bumped t u now rows same_id same_version)

-- An update that finds no row of its version writes nothing.
update_stale :
    (faults : Faults) (u : Transaction) (later : Time) (s : Store)
    → faults Statement.update_transaction ≡ none
    → find (is_version_of u) s.transactions ≡ none
    → update faults u later s ≡ (err Error.concurrent_modification, s)
unfolding update
update_stale faults u later s runs missing = ground arith

-- Of two updates from the same version of a row only one can succeed: after the first, the second
-- is refused as a concurrent modification and writes nothing, whatever it holds, if its statement
-- does not fail by itself.
pub update_excludes :
    (faults faults' : Faults) (t u : Transaction) (now later : Time) (s : Store) {t' : Transaction}
    {s' : Store}
    → update faults t now s ≡ (ok t', s')
    → u.id ≡ t.id
    → u.version ≡ t.version
    → faults' Statement.update_transaction ≡ none
    → update faults' u later s' ≡ (err Error.concurrent_modification, s')
update_excludes faults faults' t u now later s {s'} h same_id same_version runs =
    let (row, found, result, stored) = update_ok faults t now s h in
    update_stale faults' u later s' runs
      (rw stored (write_rows-bumped t u now s.transactions same_id same_version))
