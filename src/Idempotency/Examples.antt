-- ===== src/Idempotency/Examples.antt =====
-- The theorems on idempotency keys with a server that keeps one key, and never fails.
use mini_payment_gateway.Prelude.{
  ℕ, ◌≤◌, ◌≡◌, refl, inr, String, Bool, true, false, Option, none, some, Result, ok, arith,
}
use mini_payment_gateway.Prelude.Int.{pos}
use mini_payment_gateway.Domain.Errors.{Error}
use mini_payment_gateway.Idempotency.Redis.{IsRedis}
use mini_payment_gateway.Idempotency.Claims.{◌⟶*◌, asked, done, then_step, at_most_one}
use mini_payment_gateway.Idempotency.Replays.{answer_replayed}
use mini_payment_gateway.Idempotency.{
  Claim, Client, response, claim_of, begin, completed_claim, complete, conclude,
}

abbrev claim_once : Claim → Option Claim → Result Error Bool × Option Claim
claim_once p none = (ok true, some p)
claim_once p (some q) = (ok false, some q)

abbrev client : Client (Option Claim) Claim
client = record {
  set_nx = λ key p r. claim_once p r;
  get = λ key r. ok r;
  set = λ key p r. (ok tt, some p);
  del = λ key r. (ok tt, none);
  marshal = λ c. ok c;
  unmarshal = λ c. ok c;
}

abbrev server : IsRedis client
server = record {
  view = λ r key. r;
  set_nx_effect = λ key p r. ground arith;
  set_nx_won = λ key p r h. ground arith;
  get_reads = λ key r h. ground arith;
  set_effect = λ key p r. inr refl;
  set_done = λ key p r h. refl;
  del_effect = λ key r. inr refl;
  rewritten = λ body. body;
  reads_back = λ c h. ground arith;
}

abbrev claim : Claim
claim = claim_of "a" (pos 1)

-- One request claims the key, and a second is turned away.
claimed : ◌⟶*◌ client server "key" (none, 0) (some claim, 1)
unfolding begin
claimed =
    then_step (then_step (done (none, 0)) (asked "a" (pos 1) none 0))
      (asked "a" (pos 2) (some claim) 1)

at_most_one_example : 1 ≤ 1
at_most_one_example = at_most_one client server "key" none (some claim) 1 claimed

abbrev answer : Claim
answer = completed_claim "a" 201 "application/json" "{}" (pos 3)

-- A request of another body comes after the answer.
turned_away :
    ◌⟶*◌ client server "key"
      (conclude client "key" "a" (pos 3) (response 201 "application/json" "{}") (some claim), 0)
      (some answer, 0)
unfolding begin conclude
turned_away = then_step (done (some answer, 0)) (asked "b" (pos 4) (some answer) 0)

answer_replayed_example :
    (◌≡◌ {A = ℕ} 0 0) × (some answer ≡ some answer) × (◌≡◌ {A = String} "a" "a")
unfolding begin complete
answer_replayed_example =
    answer_replayed client server "key" "a" "a" 201 "application/json" "{}" (pos 3) (pos 9)
      (some claim) (some answer) 0 {x = some answer} (ground arith) refl turned_away refl
