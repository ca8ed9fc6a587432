-- ===== src/Acquirer/Mock/Examples.antt =====
-- The simulated processor on concrete cards.
use mini_payment_gateway.Prelude.{◌≡◌, refl, true, false, [], ok, err}
use mini_payment_gateway.Prelude.Int.{pos}
use mini_payment_gateway.Domain.Errors.{Error, DeclineCode}
use mini_payment_gateway.Text.{codes}
use mini_payment_gateway.Acquirer.Mock.{
  Card, Roll, MockDraws, brand_of, validate_card, mock_authorize, mock_capture, mock_refund,
  mock_void,
}

abbrev visa : Card
visa = record {
  number = codes "4242424242424242";
  exp_month = pos 12;
  exp_year = pos 2030;
  cvv = codes "123";
}

abbrev draws : MockDraws
draws = record { roll = Roll.passes; cancelled = false; reference = codes "0123" }

authorized :
    mock_authorize draws visa (pos 100)
    ≡ ok (record { ref = codes "auth_0123"; card_last4 = codes "4242"; card_brand = codes "visa" })
unfolding mock_authorize
authorized = refl

-- A card that ends in 0000 is declined whatever the roll.
test_card :
    mock_authorize draws (record visa { number = codes "4242424240020000" }) (pos 100)
    ≡ err (Error.declined DeclineCode.do_not_honor)
unfolding mock_authorize
test_card = refl

spaces_refused :
    validate_card (record visa { number = codes "4242 4242 4242 4242" })
    ≡ err (Error.invalid "card.number" "must be 12 to 19 digits")
unfolding validate_card
spaces_refused = refl

-- A brand of two digits.
amex : brand_of (codes "378282246310005") ≡ codes "amex"
unfolding brand_of
amex = refl

moves :
    (mock_capture draws (codes "auth_1") (pos 5) ≡ ok (codes "cap_0123"))
    × (mock_refund draws [] (pos 5) ≡ err Error.validation)
    × (mock_void (record draws { cancelled = true }) (codes "auth_1")
        ≡ err Error.acquirer_unavailable)
unfolding mock_capture mock_refund mock_void
moves = (refl, refl, refl)
