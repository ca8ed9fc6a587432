-- ===== src/Lib.antt =====
-- Mini payment gateway: a model of the Go service that authorizes, captures, refunds, voids and
-- settles card payments for merchants, keeps a double-entry journal of the money, and tells the
-- merchants by webhooks.
--
-- A request comes in over HTTP, signed with the secret of its merchant, held to a rate, and under an
-- idempotency key. A use case of the payment service reads the row, asks the domain's rules whether the
-- operation is allowed, calls the card processor with no database transaction open, and then, in one
-- database transaction, locks the row, asks the rules again, writes the row, books an entry group and
-- queues a webhook. A nightly reconciliation compares the rows with the journal and settles the day if
-- they agree. The model follows these parts:
--
-- Prelude            results and the monad of stateful calls, integers, int64, lists, sorting, and
--                    clients that read a sorted list page by page
-- Text               the bytes of a string, and what the code uses of strconv, strings and base64
-- Clock              the comparison of a signed time with the clock, on int64 durations
-- Money              internal/money/money.go: amounts, the platform fee and the print
-- Domain             internal/domain: errors, the transaction and its state machine, the journal's entry
--                    groups, the webhook's outbox row
-- Repository         internal/repository: the tables as lists, the statements on them, database
--                    transactions with rollback; Repository/Books is the agreement of the two tables,
--                    Repository/Entries/Listing and Queries are the queries of the journal,
--                    Repository/Entries/Aggregates the day's totals of the reconciliation,
--                    Repository/Transactions/Listing the pages of transactions, and
--                    Repository/Deliveries the outbox with its claims
-- Merchants          internal/domain/merchant.go and internal/repository/merchant_repo.go; Merchants/
--                    Service is internal/service/merchant_service.go: creation and authentication
-- Secrets            internal/secrets: sealed secrets and generated credentials
-- Signer             internal/webhook/signer.go: the signature header of a webhook
-- Acquirer           internal/acquirer: the circuit breaker, the guarded call, the mock processor
-- RateLimit          internal/ratelimit/limiter.go and middleware_ratelimit.go
-- Idempotency        internal/idempotency/store.go and the end of middleware_idem.go
-- Service            internal/service: the payment service and the reconciliation; Service/Payment/
--                    Tables describes what a database transaction leaves, column by column
-- Dispatcher         internal/webhook/dispatcher.go: one delivery and a round of the poller; Dispatcher/
--                    Outbox is any number of dispatchers over the table of deliveries
-- Config             internal/config: the variables, their defaults and checks
-- Http               internal/transport/http: errors as status codes (response.go), parameters of a
--                    request and bodies (request.go), pages of the journal (handler_ledger.go), and
--                    Http/Payments the endpoints of payments (handler_payment.go)
--
-- Numbers. An Amount is an integer, and every sum, difference and product of the code is wrapped to 64
-- bits, with the theorems saying where that changes nothing. Ids, versions and counters are natural
-- numbers. A time is a number of nanoseconds. A string that the code only compares or stores is a string
-- of the language; one that the code walks, or whose bytes are signed, is the list of its bytes. A
-- status or a direction that is none of the constants is the constructor `other`.
--
-- Errors. A function with an error gives back a Result; a method that mutates an object gives back the
-- object too, also beside an error. Every statement of a database transaction may fail, by a function
-- from statements to errors over which the theorems range; so do the commit and the begin. A commit
-- that fails is taken to have written nothing.
--
-- Concurrency. A database transaction is one step, since it locks the row before it reads it. What other
-- requests commit while a request waits for the processor is a function on the store. Requests with
-- one idempotency key are a step relation with any interleaving, and so are the calls of the breaker
-- by those who share it. Dispatchers over one outbox are a step relation too: webhooks are queued,
-- pollers release stale claims and claim due rows, skipping the rows that others have locked, workers
-- end attempts, rows are put back at a shutdown, and a process may die with rows in hand. A poller's
-- round is one step. A row in hand is known by its id, and a claim counts as held until the attempt has
-- been written; that no claim is held for longer than the five minutes after which it is stale is a
-- condition on each round. The comparison of a reconciliation is of two queries that read one store.
--
-- Fuel. The loops of the code run over lists, and are structural recursion. Decimal digits are written
-- on a fuel of the number itself, which has more units than digits. A client that walks the pages of the
-- journal, or of payments, sends one request more than there are rows, which is shown to be enough.
--
-- Parameters. The card processor's answers, the clock, the fresh ids, the client of Redis and the JSON
-- encoder, the random factor of the retries, the random draws, the HTTP client, HMAC-SHA256,
-- AES-GCM, the text of an id, the upper case and the trimming of a string, what the JSON decoder makes of
-- a body, and the reading of fractions, durations and RFC 3339 times are arguments.
-- What is assumed of them is in the records IsRedis, IsCounter, IsHmac, IsAead and IsReadable.
--
-- Not modelled: the reading and writing of JSON itself, the middlewares around the endpoints of payments
-- as one chain, the handlers of merchants, health checks, the fingerprint of an idempotent request, the
-- goroutines of the dispatcher and the timing of its shutdown, wiring and logging.
pub mod Prelude
pub mod Text
pub mod Clock
pub mod Signer
pub mod Secrets
pub mod Merchants
pub mod Config
pub mod RateLimit
pub mod Money
pub mod Domain
pub mod Repository
pub mod Acquirer
pub mod Idempotency
pub mod Service
pub mod Dispatcher
pub mod Http
