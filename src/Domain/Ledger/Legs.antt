-- ===== src/Domain/Ledger/Legs.antt =====
-- The entry groups of the business events: when they are made, and which legs they have.
use mini_payment_gateway.Prelude.{ℕ, ◌≡◌, ◌↔◌, [], ◌∷◌, ok, err, eq_refl, arith}
use mini_payment_gateway.Prelude.Int.{pos, ◌≤ℤ◌, ◌<ℤ◌, ◌-ℤ◌, -ℤ_parts}
use mini_payment_gateway.Prelude.Int64.{InRange, zero-add64, add64-sub64, sub64-nonneg}
use mini_payment_gateway.Money.{Amount}
use mini_payment_gateway.Domain.Errors.{Error}
use mini_payment_gateway.Domain.Transaction.{Time, Transaction}
use mini_payment_gateway.Domain.Ledger.{
  Account, Direction, EventType, EntryGroup, validate, leg, fee_legs, new_capture_entry_group,
  new_refund_entry_group, new_settlement_entry_group,
}

module _ (g : ℕ) (t : Transaction) (now : Time) (amount : Amount) where
  -- The entries that the comments over the constructors draw.
  abbrev pub refund_group : EntryGroup
  refund_group = record {
    id = g;
    entries =
        leg g t now (Account.merchant_payable t.merchant_id) Direction.debit amount EventType.refund
        ∷ leg g t now Account.acquirer_receivable Direction.credit amount EventType.refund
        ∷ [];
  }

  abbrev pub settlement_group : EntryGroup
  settlement_group = record {
    id = g;
    entries =
        leg g t now (Account.merchant_payable t.merchant_id) Direction.debit amount
          EventType.settlement
        ∷ leg g t now Account.platform_cash Direction.credit amount EventType.settlement
        ∷ [];
  }

  abbrev pub capture_group : Amount → EntryGroup
  capture_group charge = record {
    id = g;
    entries =
        leg g t now Account.acquirer_receivable Direction.debit amount EventType.capture
        ∷ leg g t now (Account.merchant_payable t.merchant_id) Direction.credit (amount -ℤ charge)
            EventType.capture
        ∷ fee_legs g t charge now;
  }

  module _ (fits : InRange amount) where
    -- A positive refund always has its two legs.
    pub new_refund_group : pos 1 ≤ℤ amount → new_refund_entry_group g t amount now ≡ ok refund_group
    unfolding new_refund_entry_group
    new_refund_group p = ground (arith, eq_refl t.currency, zero-add64 amount fits)

    pub refund_group_valid : pos 1 ≤ℤ amount → validate refund_group ≡ ok tt
    unfolding validate
    refund_group_valid p = ground (arith, eq_refl t.currency, zero-add64 amount fits)

    pub new_settlement_group :
        pos 1 ≤ℤ amount → new_settlement_entry_group g t amount now ≡ ok settlement_group
    unfolding new_settlement_entry_group
    new_settlement_group p = ground (arith, eq_refl t.currency, zero-add64 amount fits)

    module _ (charge : Amount) where
      -- A capture has its legs when the fee is at least zero and below the amount.
      pub new_capture_group :
          pos 0 ≤ℤ charge
          → charge <ℤ amount
          → new_capture_entry_group g t amount charge now ≡ ok (capture_group charge)
      unfolding new_capture_entry_group
      new_capture_group p q = ground (
        arith,
        eq_refl t.currency,
        zero-add64 amount fits,
        zero-add64 (amount -ℤ charge),
        add64-sub64 amount charge fits p,
        sub64-nonneg amount charge fits,
        -ℤ_parts amount charge,
      )

      -- That group is valid.
      pub capture_group_valid :
          pos 0 ≤ℤ charge → charge <ℤ amount → validate (capture_group charge) ≡ ok tt
      unfolding validate
      capture_group_valid p q = ground (
        arith,
        eq_refl t.currency,
        zero-add64 amount fits,
        zero-add64 (amount -ℤ charge),
        add64-sub64 amount charge fits p,
        sub64-nonneg amount charge fits,
        -ℤ_parts amount charge,
      )

      -- No group is made in any other case.
      pub new_capture_group_needs :
          {group : EntryGroup}
          → new_capture_entry_group g t amount charge now ≡ ok group
          → (pos 1 ≤ℤ amount) × (pos 0 ≤ℤ charge) × (charge <ℤ amount)
      unfolding new_capture_entry_group
      new_capture_group_needs h =
          ground (arith, sub64-nonneg amount charge fits, -ℤ_parts amount charge)

      -- Where the amount is an int64, NewCaptureEntryGroup gives the group that debits the
      -- acquirer's account by the amount, credits the merchant's by the rest after the fee and the
      -- fee's by the fee, if there is one, exactly when the fee is at least zero and below the
      -- amount.
      pub capture_group_iff :
          (new_capture_entry_group g t amount charge now ≡ ok (capture_group charge))
          ↔ ((pos 0 ≤ℤ charge) × (charge <ℤ amount))
      capture_group_iff = (
        λ h. ((new_capture_group_needs h).1, (new_capture_group_needs h).2),
        λ h. new_capture_group h.0 h.1,
      )

    -- A fee of the whole of a positive amount, which the test of the fee lets through, is refused
    -- as an invalid amount, since the merchant's leg is zero then.
    pub capture_group_full_fee :
        pos 1 ≤ℤ amount → new_capture_entry_group g t amount amount now ≡ err Error.invalid_amount
    unfolding new_capture_entry_group
    capture_group_full_fee p = ground (
      arith,
      eq_refl t.currency,
      zero-add64 amount fits,
      sub64-nonneg amount amount fits,
      -ℤ_parts amount amount,
    )
