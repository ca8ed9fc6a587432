-- ===== src/Money/Examples.antt =====
-- The theorems on the fee at concrete amounts.
use mini_payment_gateway.Prelude.{◌≡◌, ◌⊎◌, refl, suc, arith, ◌+◌, ◌*◌, ◌/◌}
use mini_payment_gateway.Prelude.Int.{pos}
use mini_payment_gateway.Money.{fee, bps_unit}
use mini_payment_gateway.Money.Fees.{fee_split}

fee_split_example :
    (fee (pos (599 + 401)) (pos 250) ≡ pos (599 * 250 / bps_unit + 401 * 250 / bps_unit))
    ⊎ (fee (pos (599 + 401)) (pos 250) ≡ pos (suc (599 * 250 / bps_unit + 401 * 250 / bps_unit)))
fee_split_example = fee_split 599 401 250 (ground arith)

-- The fees of two partial captures are one unit short of the fee of their total.
partial_fees :
    (fee (pos 599) (pos 250) ≡ pos 14)
    × (fee (pos 401) (pos 250) ≡ pos 10)
    × (fee (pos 1000) (pos 250) ≡ pos 25)
unfolding fee
partial_fees = (refl, refl, refl)
