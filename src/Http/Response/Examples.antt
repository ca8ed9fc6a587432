-- ===== src/Http/Response/Examples.antt =====
-- Errors as responses, on concrete errors.
use mini_payment_gateway.Prelude.{String, ◌≡◌, refl}
use mini_payment_gateway.Domain.Errors.{Error, DeclineCode}
use mini_payment_gateway.Http.Response.{map_error}

abbrev no_text : Error → String
no_text e = ""

statuses :
    ((map_error no_text Error.concurrent_modification).0 ≡ 409)
    × ((map_error no_text (Error.declined DeclineCode.card_expired)).0 ≡ 402)
    × ((map_error no_text Error.acquirer_unavailable).0 ≡ 503)
unfolding map_error
statuses = (refl, refl, refl)
