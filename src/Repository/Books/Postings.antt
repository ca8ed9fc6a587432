-- ===== src/Repository/Books/Postings.antt =====
-- A database transaction that writes one row and appends the lines that belong to the change keeps the
-- books sound.
use mini_payment_gateway.Prelude.{
  ℕ, ◌≡◌, refl, sym, ap, ap₂, ◌∙◌, true, false, Option, none, some, List, ◌==◌, ==_iff, Bool-cases,
  inl, inr, if◌then◌else◌, arith,
}
use mini_payment_gateway.Prelude.Int.{pos, ◌+ℤ◌, +ℤ-zero}
use mini_payment_gateway.Money.{Amount}
use mini_payment_gateway.Domain.Transaction.{Time, Transaction}
use mini_payment_gateway.Domain.Transaction.Validity.{IsValid}
use mini_payment_gateway.Domain.Ledger.{LedgerEntry}
use mini_payment_gateway.Repository.{Store}
use mini_payment_gateway.Repository.Transactions.{find_id}
use mini_payment_gateway.Repository.Books.{
  Agrees, IsSound, captured_of, refunded_of, debits_of, credits_of,
}
use mini_payment_gateway.Repository.Transactions.{write_rows, written}
use mini_payment_gateway.Repository.Transactions.Rows.{find_id-write_rows}
use mini_payment_gateway.Repository.Entries.Appends.{with_entries, sum_where-with_entries}
use mini_payment_gateway.Domain.Webhook.{WebhookDelivery}

-- The store after one row and some lines are written.
abbrev pub posted : Transaction → Time → List LedgerEntry → List WebhookDelivery → Store → Store
posted t now es ds s = record (with_entries s es) {
  transactions = write_rows t now s.transactions;
  deliveries = ds;
}

-- What the change of a row and the lines have in common: the lines carry, for the row's id alone,
-- what the change adds to the captured and the refunded amounts, and they balance.
pub record Matches (fresh moved : Transaction) (es : List LedgerEntry) : Type 0 where
  pub same_id : moved.id ≡ fresh.id
  pub same_version : moved.version ≡ fresh.version
  pub same_amount : moved.amount ≡ fresh.amount
  pub valid : IsValid moved
  pub captured_by : Amount
  pub refunded_by : Amount
  pub captures : moved.captured_amount ≡ fresh.captured_amount +ℤ captured_by
  pub refunds : moved.refunded_amount ≡ fresh.refunded_amount +ℤ refunded_by
  pub captured_lines :
      (id : ℕ) → captured_of id es ≡ (if fresh.id == id then captured_by else pos 0)
  pub refunded_lines :
      (id : ℕ) → refunded_of id es ≡ (if fresh.id == id then refunded_by else pos 0)
  pub balance : (group : ℕ) → debits_of group es ≡ credits_of group es

-- The row as written is as well-formed as the transaction in memory.
written-IsValid :
    (moved fresh : Transaction) (now : Time)
    → moved.amount ≡ fresh.amount
    → IsValid moved
    → IsValid (written moved now fresh)
written-IsValid moved fresh now e v = ground arith

-- Lines that add nothing for an id leave what its row agrees with.
Agrees-same :
    (id : ℕ) (o : Option Transaction) (es es' : List LedgerEntry)
    → captured_of id es' ≡ captured_of id es
    → refunded_of id es' ≡ refunded_of id es
    → Agrees id o es
    → Agrees id o es'
Agrees-same id none es es' c r (c', r') = (c ∙ c', r ∙ r')
Agrees-same id (some t) es es' c r (v, c', r') = (v, c ∙ c', r ∙ r')

module _ {s : Store} (sound : IsSound s) {fresh moved : Transaction} {es : List LedgerEntry}
    (found : find_id fresh.id s.transactions ≡ some fresh) (m : Matches fresh moved es) (now : Time)
    (ds : List WebhookDelivery) where
  after : Store
  after = posted moved now es ds s

  captured_after :
      (id : ℕ)
      → captured_of id after.entries
        ≡ captured_of id s.entries +ℤ (if fresh.id == id then m.captured_by else pos 0)
  unfolding after
  captured_after id =
      sum_where-with_entries _ (λ e n. refl) s es
      ∙ ap (λ x. captured_of id s.entries +ℤ x) (m.captured_lines id)

  refunded_after :
      (id : ℕ)
      → refunded_of id after.entries
        ≡ refunded_of id s.entries +ℤ (if fresh.id == id then m.refunded_by else pos 0)
  unfolding after
  refunded_after id =
      sum_where-with_entries _ (λ e n. refl) s es
      ∙ ap (λ x. refunded_of id s.entries +ℤ x) (m.refunded_lines id)

  row_after :
      (id : ℕ)
      → find_id id after.transactions
        ≡ (if id == fresh.id then some (written moved now fresh) else find_id id s.transactions)
  unfolding after
  row_after id =
      find_id-write_rows moved now id s.transactions {fresh = fresh} (rw m.same_id found)
        m.same_version
      ∙ ap (λ k. if id == k then some (written moved now fresh) else find_id id s.transactions)
          m.same_id

  -- The row that was written agrees with its lines.
  Agrees-written : Agrees fresh.id (some (written moved now fresh)) after.entries
  Agrees-written =
      let (v, c, r) : Agrees fresh.id (some fresh) s.entries =
        rw found at (sound.agrees fresh.id) in
      let same : (fresh.id == fresh.id) ≡ true = (==_iff fresh.id fresh.id).1 refl in
      (
        written-IsValid moved fresh now m.same_amount m.valid,
        rw same at (captured_after fresh.id) ∙ ap (λ x. x +ℤ m.captured_by) c ∙ sym m.captures,
        rw same at (refunded_after fresh.id) ∙ ap (λ x. x +ℤ m.refunded_by) r ∙ sym m.refunds,
      )

  -- Every other row agrees as before.
  Agrees-other :
      (id : ℕ) → (fresh.id == id) ≡ false → Agrees id (find_id id s.transactions) after.entries
  Agrees-other id ne =
      Agrees-same id (find_id id s.transactions) s.entries after.entries
        (rw ne at (captured_after id) ∙ +ℤ-zero _) (rw ne at (refunded_after id) ∙ +ℤ-zero _)
        (sound.agrees id)

  Agrees-after : (id : ℕ) → Agrees id (find_id id after.transactions) after.entries
  Agrees-after id = rw (row_after id) (elim (Bool-cases (id == fresh.id)) [
    | inl e ↦ rw e (rw ((==_iff id fresh.id).0 e) Agrees-written)
    | inr e ↦ rw e (Agrees-other id (ground arith))
  ])

  pub posted-IsSound : IsSound (posted moved now es ds s)
  unfolding after
  posted-IsSound = record {
    agrees = Agrees-after;
    balanced = λ group.
        sum_where-with_entries _ (λ e n. refl) s es
        ∙ ap₂ ◌+ℤ◌ (sound.balanced group) (m.balance group)
        ∙ sym (sum_where-with_entries _ (λ e n. refl) s es);
  }
