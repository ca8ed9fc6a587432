-- ===== src/Repository/Books/Groups.antt =====
-- The sums over the entry groups of the business events.
use mini_payment_gateway.Prelude.{ℕ, ◌≡◌, refl, [], ◌==◌, if◌then◌else◌}
use mini_payment_gateway.Prelude.Int.{pos, ◌≤ℤ◌, +ℤ-zero, zero-+ℤ, int_laws}
use mini_payment_gateway.Money.{Amount}
use mini_payment_gateway.Domain.Transaction.{Time, Transaction}
use mini_payment_gateway.Domain.Ledger.Legs.{capture_group, refund_group, settlement_group}
use mini_payment_gateway.Repository.Entries.Appends.{sum_where}
use mini_payment_gateway.Repository.Books.{captured_of, refunded_of, debits_of, credits_of}

module _ (g : ℕ) (t : Transaction) (now : Time) (amount : Amount) where
  -- What the legs of a capture add to the sums.
  pub captured_of-capture :
      (id : ℕ) (charge : Amount)
      → captured_of id (capture_group g t now amount charge).entries
        ≡ (if t.id == id then amount else pos 0)
  unfolding sum_where
  captured_of-capture id charge = grind (int_laws, +ℤ-zero, zero-+ℤ)

  pub refunded_of-capture :
      (id : ℕ) (charge : Amount)
      → refunded_of id (capture_group g t now amount charge).entries ≡ pos 0
  unfolding sum_where
  refunded_of-capture id charge = grind (int_laws, +ℤ-zero, zero-+ℤ)

  pub balanced-capture :
      (group : ℕ) (charge : Amount)
      → pos 0 ≤ℤ charge
      → debits_of group (capture_group g t now amount charge).entries
        ≡ credits_of group (capture_group g t now amount charge).entries
  unfolding sum_where
  balanced-capture group charge p = grind (int_laws, +ℤ-zero, zero-+ℤ)

  pub captured_of-refund : (id : ℕ) → captured_of id (refund_group g t now amount).entries ≡ pos 0
  unfolding sum_where
  captured_of-refund id = grind (int_laws, +ℤ-zero, zero-+ℤ)

  pub refunded_of-refund :
      (id : ℕ)
      → refunded_of id (refund_group g t now amount).entries
        ≡ (if t.id == id then amount else pos 0)
  unfolding sum_where
  refunded_of-refund id = grind (int_laws, +ℤ-zero, zero-+ℤ)

  pub balanced-refund :
      (group : ℕ)
      → debits_of group (refund_group g t now amount).entries
        ≡ credits_of group (refund_group g t now amount).entries
  unfolding sum_where
  balanced-refund group = grind (int_laws, +ℤ-zero, zero-+ℤ)

  pub captured_of-settlement :
      (id : ℕ) → captured_of id (settlement_group g t now amount).entries ≡ pos 0
  unfolding sum_where
  captured_of-settlement id = grind (int_laws, +ℤ-zero, zero-+ℤ)

  pub refunded_of-settlement :
      (id : ℕ) → refunded_of id (settlement_group g t now amount).entries ≡ pos 0
  unfolding sum_where
  refunded_of-settlement id = grind (int_laws, +ℤ-zero, zero-+ℤ)

  pub balanced-settlement :
      (group : ℕ)
      → debits_of group (settlement_group g t now amount).entries
        ≡ credits_of group (settlement_group g t now amount).entries
  unfolding sum_where
  balanced-settlement group = grind (int_laws, +ℤ-zero, zero-+ℤ)

-- No lines add nothing.
pub captured_of_nil : (id : ℕ) → captured_of id [] ≡ pos 0
unfolding sum_where
captured_of_nil id = refl

pub refunded_of_nil : (id : ℕ) → refunded_of id [] ≡ pos 0
unfolding sum_where
refunded_of_nil id = refl

pub balanced_nil : (group : ℕ) → debits_of group [] ≡ credits_of group []
unfolding sum_where
balanced_nil group = refl
