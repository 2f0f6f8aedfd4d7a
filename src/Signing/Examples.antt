-- ===== src/Signing/Examples.antt =====
-- The theorems on the nonces at a concrete store and concrete calls.
use z_courier.Base.{
  ◌≡◌, ◌≤◌, refl, List, [], ◌∷◌, bytes, text_Eq, text_eq, lookup, insert, delete, length,
  sort_insert, arith,
}
use z_courier.Base.Results.{ok, err}
use z_courier.Signing.{MemoryNonceStore, new_memory_nonce_store, consume, drop_expired, replay}
use z_courier.Signing.Replay.{Call, run, consume-replay, run-length}

abbrev empty_store : MemoryNonceStore
empty_store = record { max_entries = 2; entries = []; expirations = [] }

made : new_memory_nonce_store 2 ≡ ok empty_store
unfolding new_memory_nonce_store
made = refl

abbrev before : List Call
before = record { key_id = bytes "k1"; nonce = bytes "n1"; now = 1; expires_at = 9 } ∷ []

abbrev between : List Call
between =
    record { key_id = bytes "k1"; nonce = bytes "n3"; now = 12; expires_at = 30 }
    ∷ record { key_id = bytes "k2"; nonce = bytes "n2"; now = 11; expires_at = 18 }
    ∷ []

accepted : (consume (bytes "k1") (bytes "n2") 10 20 (run empty_store before)).1 ≡ ok tt
unfolding consume run drop_expired text_eq lookup insert delete sort_insert
accepted = refl

consume-replay_example :
    (consume
      (bytes "k1")
      (bytes "n2")
      19
      40
      (run (consume (bytes "k1") (bytes "n2") 10 20 (run empty_store before)).0 between)).1
    ≡ err replay
consume-replay_example =
    consume-replay 2 empty_store before between (bytes "k1") (bytes "n2") 10 20 19 40 made accepted
      (omega arith, (omega arith, tt)) (omega arith)

run-length_example : length (run empty_store between).entries ≤ 2
run-length_example = run-length 2 empty_store between made
