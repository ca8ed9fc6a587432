-- ===== src/Idempotency/Redis.antt =====
-- What the code relies on of Redis and of the encoder.
use mini_payment_gateway.Prelude.{◌≡◌, ◌⊎◌, String, true, Option, none, some, ok}
use mini_payment_gateway.Idempotency.{Client, Claim}

-- The documented behaviour: SET NX writes only where the key is absent and says so; SET and DEL
-- write or remove; a command whose reply is an error may have taken effect or not; GET reads. The
-- encoder's text reads back as the same record, but that the body may be written another way.
pub record IsRedis {R P : Type 0} (client : Client R P) : Type 0 where
  pub view : R → String → Option P
  pub set_nx_effect :
      (key : String) (p : P) (r : R)
      → (view (client.set_nx key p r).1 key ≡ view r key)
        ⊎ ((view r key ≡ none) × (view (client.set_nx key p r).1 key ≡ some p))
  pub set_nx_won :
      (key : String) (p : P) (r : R)
      → (client.set_nx key p r).0 ≡ ok true
      → (view r key ≡ none) × (view (client.set_nx key p r).1 key ≡ some p)
  pub get_reads : (key : String) (r : R) {x : Option P} → client.get key r ≡ ok x → x ≡ view r key
  pub set_effect :
      (key : String) (p : P) (r : R)
      → (view (client.set key p r).1 key ≡ view r key) ⊎ (view (client.set key p r).1 key ≡ some p)
  pub set_done :
      (key : String) (p : P) (r : R)
      → (client.set key p r).0 ≡ ok tt
      → view (client.set key p r).1 key ≡ some p
  pub del_effect :
      (key : String) (r : R)
      → (view (client.del key r).1 key ≡ view r key) ⊎ (view (client.del key r).1 key ≡ none)
  pub rewritten : String → String
  pub reads_back :
      (c : Claim) {p : P}
      → client.marshal c ≡ ok p
      → client.unmarshal p ≡ ok (record c { body = rewritten c.body })
