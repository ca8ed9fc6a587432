-- ===== src/Money/Format/Examples.antt =====
-- Amounts printed in major units.
use mini_payment_gateway.Prelude.{◌≡◌, refl}
use mini_payment_gateway.Prelude.Int.{pos, negsuc}
use mini_payment_gateway.Prelude.Int64.{min_int64}
use mini_payment_gateway.Money.Format.{format}
use mini_payment_gateway.Text.{codes}

dong : format (pos 150000) "VND" ≡ codes "150000 VND"
unfolding format
dong = refl

dollars : format (pos 1999) "USD" ≡ codes "19.99 USD"
unfolding format
dollars = refl

cents : format (negsuc 4) "USD" ≡ codes "-0.05 USD"
unfolding format
cents = refl

unknown : format (pos 7) "JPY" ≡ codes "7 JPY"
unfolding format
unknown = refl

-- The negation of the smallest amount is itself.
least : format min_int64 "USD" ≡ codes "--92233720368547758.-8 USD"
unfolding format
least = refl
