-- ===== src/Http/Payments/Isolation.antt =====
-- What the payment endpoints do to the rows of other merchants, and what an error leaves behind.
use mini_payment_gateway.Prelude.{
  ℕ, String, ◌≡◌, ◌≢◌, refl, subst, ap, ◌⊎◌, inl, Result, ok, err, arith,
}
use mini_payment_gateway.Prelude.Int.{ℤ, pos}
use mini_payment_gateway.Money.{Amount}
use mini_payment_gateway.Domain.Errors.{Error}
use mini_payment_gateway.Domain.Transaction.{Transaction}
use mini_payment_gateway.Repository.{Store, Query}
use mini_payment_gateway.Service.Payment.{Env, Answer, Others, capture, refund, void}
use mini_payment_gateway.Service.Payment.Isolation.{
  HasRow, capture-HasRow, refund-HasRow, void-HasRow,
}
use mini_payment_gateway.Service.Payment.Refusals.{Untouched, capture_err, refund_err, void_err}
use mini_payment_gateway.Text.{Bytes}
use mini_payment_gateway.Http.Response.{ErrorBody}
use mini_payment_gateway.Http.Request.{path_uuid, validate_amount}
use mini_payment_gateway.Http.Request.Bodies.{Body, decode_optional_json}
use mini_payment_gateway.Http.Payments.{
  Reply, Handler, Server, PaymentResponse, write_error, or_refuse, respond, capture_handler,
  refund_handler, void_handler, Change, serve,
}

-- What a request has made of the store when its answer is an error.
abbrev RefusedUntouched : Others → Store → Reply PaymentResponse × Store → Type 0
RefusedUntouched others s p =
    (status : ℕ) (body : ErrorBody) → p.0 ≡ Reply.refused status body → Untouched others s p.1

module _ (server : Server) where
  -- A part of a handler that may end the request, and the rest of it.
  or_refuse_ends :
      {A : Type 0} (P : Reply PaymentResponse × Store → Type 0) (r : Result Error A)
      (f : A → Handler PaymentResponse) (s : Store)
      → ((e : Error) → P (write_error server e, s))
      → ((a : A) → P (f a s))
      → P (or_refuse server r f s)
  or_refuse_ends P (ok a) f s now rest = rest a
  or_refuse_ends P (err e) f s now rest = now e

  -- The handlers of Capture and Refund, with what they call of the service.
  abbrev with_id : Bytes → (ℕ → Query Transaction) → Handler PaymentResponse
  with_id raw ask =
      or_refuse server (path_uuid server.texts.parse_uuid raw "id")
        λ id s. respond server 200 (ask id s)

  abbrev amount_of : Body ℤ → (Amount → Query Transaction) → Handler PaymentResponse
  amount_of body ask = or_refuse server (decode_optional_json (pos 0) body) λ asked.
      or_refuse server (validate_amount asked) λ amount s. respond server 200 (ask amount s)

  abbrev with_amount : Bytes → Body ℤ → (ℕ → Amount → Query Transaction) → Handler PaymentResponse
  with_amount raw body ask =
      or_refuse server (path_uuid server.texts.parse_uuid raw "id") λ id. amount_of body (ask id)

  with_id_ends :
      (P : Reply PaymentResponse × Store → Type 0) (raw : Bytes) (ask : ℕ → Query Transaction)
      (s : Store)
      → ((e : Error) → P (write_error server e, s))
      → ((id : ℕ) → P (respond server 200 (ask id s)))
      → P (with_id raw ask s)
  with_id_ends P raw ask s now rest =
      or_refuse_ends P (path_uuid server.texts.parse_uuid raw "id")
        (λ id s. respond server 200 (ask id s)) s now rest

  with_amount_ends :
      (P : Reply PaymentResponse × Store → Type 0) (raw : Bytes) (body : Body ℤ)
      (ask : ℕ → Amount → Query Transaction) (s : Store)
      → ((e : Error) → P (write_error server e, s))
      → ((id : ℕ) (amount : Amount) → P (respond server 200 (ask id amount s)))
      → P (with_amount raw body ask s)
  with_amount_ends P raw body ask s now rest =
      or_refuse_ends P (path_uuid server.texts.parse_uuid raw "id") (λ id. amount_of body (ask id))
        s now
        λ id.
          or_refuse_ends P (decode_optional_json (pos 0) body)
            (λ asked.
              or_refuse server (validate_amount asked)
                λ amount s. respond server 200 (ask id amount s))
            s now
            λ asked.
              or_refuse_ends P (validate_amount asked)
                (λ amount s. respond server 200 (ask id amount s)) s now (rest id)

  respond_keeps :
      (P : Store → Type 0) (status : ℕ) (p : Result Error Transaction × Store)
      → P p.1
      → P (respond server status p).1
  respond_keeps P status (ok t, s) h = h
  respond_keeps P status (err e, s) h = h

  respond-Untouched :
      (others : Others) (s : Store) (status : ℕ) (p : Result Error Transaction × Store)
      → ((e : Error) → p ≡ (err e, p.1) → Untouched others s p.1)
      → RefusedUntouched others s (respond server status p)
  respond-Untouched others s status (ok t, s') h st body k = absurd (ground arith)
  respond-Untouched others s status (err e, s') h st body k = h e refl

  module _ (env : Env) (answer : Answer) (void_answer : String → Result Error String)
      (others : Others) (merchant_id : ℕ) where
    -- Whatever a merchant asks to capture, refund or void, and whether it is granted or not, a row
    -- of another merchant stays as it was, if what others commit meanwhile leaves it so.
    pub serve_isolates :
        (change : Change) (s : Store) (id : ℕ) (row : Transaction)
        → row.merchant_id ≢ merchant_id
        → ((t : Store) → HasRow id row t → HasRow id row (others t))
        → HasRow id row s
        → HasRow id row (serve server env answer void_answer others merchant_id change s).1
    unfolding serve capture_handler refund_handler void_handler
    serve_isolates (Change.capture_route raw body) s id row foreign keep h =
        with_amount_ends (λ p. HasRow id row p.1) raw body (capture env answer others merchant_id) s
          (λ e. h)
          λ tx_id amount.
            respond_keeps (HasRow id row) 200 (capture env answer others merchant_id tx_id amount s)
              (capture-HasRow id row merchant_id foreign env answer others tx_id amount keep s h)
    serve_isolates (Change.refund_route raw body) s id row foreign keep h =
        with_amount_ends (λ p. HasRow id row p.1) raw body (refund env answer others merchant_id) s
          (λ e. h)
          λ tx_id amount.
            respond_keeps (HasRow id row) 200 (refund env answer others merchant_id tx_id amount s)
              (refund-HasRow id row merchant_id foreign env answer others tx_id amount keep s h)
    serve_isolates (Change.void_route raw) s id row foreign keep h =
        with_id_ends (λ p. HasRow id row p.1) raw (void env void_answer others merchant_id) s
          (λ e. h)
          λ tx_id.
            respond_keeps (HasRow id row) 200 (void env void_answer others merchant_id tx_id s)
              (void-HasRow id row merchant_id foreign env void_answer others tx_id keep s h)

    untouched :
        (change : Change) (s : Store)
        → RefusedUntouched others s
            (serve server env answer void_answer others merchant_id change s)
    unfolding serve capture_handler refund_handler void_handler
    untouched (Change.capture_route raw body) s =
        with_amount_ends (RefusedUntouched others s) raw body
          (capture env answer others merchant_id) s (λ e status body k. inl refl)
          λ tx_id amount.
            respond-Untouched others s 200 (capture env answer others merchant_id tx_id amount s)
              λ e k. capture_err env others merchant_id tx_id s {e = e} answer amount k
    untouched (Change.refund_route raw body) s =
        with_amount_ends (RefusedUntouched others s) raw body (refund env answer others merchant_id)
          s (λ e status body k. inl refl)
          λ tx_id amount.
            respond-Untouched others s 200 (refund env answer others merchant_id tx_id amount s)
              λ e k. refund_err env others merchant_id tx_id s {e = e} answer amount k
    untouched (Change.void_route raw) s =
        with_id_ends (RefusedUntouched others s) raw (void env void_answer others merchant_id) s
          (λ e status body k. inl refl)
          λ tx_id.
            respond-Untouched others s 200 (void env void_answer others merchant_id tx_id s)
              λ e k. void_err env others merchant_id tx_id s {e = e} void_answer k

    -- A capture, refund or void that is answered with an error has written nothing: the store is
    -- the one from before, or what others made of it meanwhile.
    pub serve-refused :
        (change : Change) (s s' : Store) {status : ℕ} {body : ErrorBody}
        → serve server env answer void_answer others merchant_id change s
          ≡ (Reply.refused status body, s')
        → (s' ≡ s) ⊎ (s' ≡ others s)
    serve-refused change s s' {status} {body} h =
        subst (Untouched others s) (ap (λ p. p.1) h)
          (untouched change s status body (ap (λ p. p.0) h))
