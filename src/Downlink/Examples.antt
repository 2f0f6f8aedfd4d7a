-- ===== src/Downlink/Examples.antt =====
-- The theorems on the downlink store at concrete stores and calls.
use z_courier.Base.{
  ℕ, ◌+◌, ◌*◌, drop, ap, ◌%◌, ◌≡◌, ◌≤◌, refl, true, none, some, List, [], ◌∷◌, Text, bytes, text_Eq,
  lookup, insert, lookup-insert_self, length, All, MapAll, MapAll-insert, insert-Distinct, arith,
  if◌then◌else◌,
}
use z_courier.Downlink.Message.{Message, delivered, pending, zero_message, QueueCapacity}
use z_courier.Downlink.Identity.{identity_preimage, write_identity_bytes}
use z_courier.Downlink.Identity.Fields.{NoCollision, same_request}
use z_courier.Downlink.Store.{
  MemoryStore, new_memory_store, ok, created, existing, conflict, prepare, save_with_capacity,
  save_new, check_queue_capacity, global_pending, device_pending,
}
use z_courier.Downlink.Store.Saves.{save_with_capacity_twice}
use z_courier.Downlink.Store.Replays.{save_with_capacity_replay}
use z_courier.Downlink.Store.Capacity.{
  Within, save_with_capacity-Within, requeue_with_capacity-Within,
}
use z_courier.Downlink.Marks.{requeue_with_capacity}
use z_courier.Downlink.Fairness.{RetrySelection, fair_retry_selection}
use z_courier.Downlink.Fairness.Members.{length-fair_retry_selection-le}
use z_courier.Downlink.Retry.{claim_due_retry_fair}
use z_courier.Downlink.Calls.{Call, saves, delivers, retries, claims, step, run, Fate, IsValid}
use z_courier.Downlink.Calls.LifeCycle.{step-Fate, run-new_memory_store-IsValid}
use z_courier.Downlink.Calls.Delivered.{StaysDelivered, run-delivered}
use z_courier.Downlink.Calls.Claims.{IsLeased, claim_due_retry_fair-IsLeased}

-- A function in the place of the digest, with results of 32 bytes.
abbrev digest : Text → Text
digest t =
    length t % 256
    ∷ 0
    ∷ 0
    ∷ 0
    ∷ 0
    ∷ 0
    ∷ 0
    ∷ 0
    ∷ 0
    ∷ 0
    ∷ 0
    ∷ 0
    ∷ 0
    ∷ 0
    ∷ 0
    ∷ 0
    ∷ 0
    ∷ 0
    ∷ 0
    ∷ 0
    ∷ 0
    ∷ 0
    ∷ 0
    ∷ 0
    ∷ 0
    ∷ 0
    ∷ 0
    ∷ 0
    ∷ 0
    ∷ 0
    ∷ 0
    ∷ 0
    ∷ []

digest_size : (t : Text) → length (digest t) ≡ 32
digest_size t = refl

abbrev id : Text
id = bytes "m1"

abbrev client : Text
client = bytes "c1"

abbrev phone : Text
phone = bytes "phone"

abbrev node : Text
node = bytes "gateway-1"

abbrev hello : Message
hello = record zero_message {
  message_id = id;
  client_id = client;
  device_id = phone;
  msg_id = 7;
  body = bytes "hello";
  ack_required = true;
}

abbrev one_each : QueueCapacity
one_each = record { max_pending_global = 1; max_pending_per_device = 1 }

abbrev stored_hello : Message
stored_hello = record hello {
  status = pending;
  identity_fingerprint = digest id;
  created_at = 10;
  updated_at = 10;
}

abbrev arrived : Message
arrived = record stored_hello { status = delivered; delivered_at = 15 }

abbrev store_of : Message → MemoryStore
store_of m = record { messages = insert m.message_id m []; terminal_events = [] }

empty_Keyed : MapAll (λ (k : Text) (m : Message). m.message_id ≡ k) []
unfolding lookup
empty_Keyed k m found = ground arith

store_of-IsValid : (m : Message) → IsValid (store_of m)
store_of-IsValid m = record {
  keyed = MapAll-insert (λ k n. n.message_id ≡ k) m.message_id m [] refl empty_Keyed;
  distinct = insert-Distinct m.message_id m [] tt;
}

store_of_finds : (m : Message) → lookup m.message_id (store_of m).messages ≡ some m
store_of_finds m = lookup-insert_self m.message_id m []

abbrev acknowledged : Call
acknowledged = delivers none 20 id client phone 20

step-Fate_example :
    Fate acknowledged id
      (lookup id (store_of stored_hello).messages)
      (lookup id (step digest (store_of stored_hello) acknowledged).messages)
step-Fate_example =
    step-Fate digest (store_of stored_hello) acknowledged id (store_of-IsValid stored_hello)

run-new_memory_store-IsValid_example :
    IsValid (run digest new_memory_store (saves none [] 10 hello one_each ∷ acknowledged ∷ []))
run-new_memory_store-IsValid_example =
    run-new_memory_store-IsValid digest (saves none [] 10 hello one_each ∷ acknowledged ∷ [])

abbrev late_calls : List Call
late_calls =
    retries none 30 id (bytes "timeout") 40
    ∷ saves none [] 45 hello one_each
    ∷ claims none 50 50 0 10 10 node 0
    ∷ []

run-delivered_example :
    StaysDelivered arrived (lookup id (run digest (store_of arrived) late_calls).messages)
run-delivered_example =
    run-delivered digest id (store_of arrived) late_calls arrived (store_of-IsValid arrived)
      (store_of_finds arrived) refl (refl, (refl, (refl, tt)))

claim_due_retry_fair-IsLeased_example :
    (selection : RetrySelection) × ((claim_due_retry_fair none 50 50 0 10 10 node 30
        (store_of stored_hello)).1
      ≡ ok selection)
    × All
        (IsLeased node 80 79 0
          (claim_due_retry_fair none 50 50 0 10 10 node 30 (store_of stored_hello)).0)
        selection.messages
claim_due_retry_fair-IsLeased_example =
    claim_due_retry_fair-IsLeased 50 50 0 10 10 103 (bytes "ateway-1") 30 (store_of stored_hello) 79
      0 (store_of-IsValid stored_hello) (omega arith)

first_save :
    (save_with_capacity digest none [] 10 hello one_each new_memory_store).1
    ≡ ok (record { message = prepare digest [] 10 hello; outcome = created })
unfolding save_with_capacity save_new check_queue_capacity new_memory_store lookup prepare
    global_pending device_pending
first_save = refl

same_id : (prepare digest [] 60 hello).message_id ≡ (prepare digest [] 10 hello).message_id
unfolding prepare
same_id = refl

save_with_capacity_twice_example :
    save_with_capacity digest none [] 60 hello one_each
      (save_with_capacity digest none [] 10 hello one_each new_memory_store).0
    ≡ (
      (save_with_capacity digest none [] 10 hello one_each new_memory_store).0,
      ok (record { message = prepare digest [] 10 hello; outcome = existing }),
    )
save_with_capacity_twice_example =
    save_with_capacity_twice digest digest_size [] [] 10 60 hello (prepare digest [] 10 hello)
      one_each one_each new_memory_store first_save same_id

-- Another request under the same id.
abbrev changed : Message
changed = record hello { body = bytes "bye" }

-- A polynomial in the bytes, as a digest that tells the two requests apart.
horner : ℕ → Text → ℕ
horner h [] = h
horner h (x ∷ xs) = horner ((h * 7 + x) % 251) xs

abbrev polynomial : Text → Text
polynomial t = horner 1 t ∷ drop 1 (digest [])

polynomial_size : (t : Text) → length (polynomial t) ≡ 32
polynomial_size t = refl

abbrev first_byte : Text → ℕ
first_byte [] = 0
first_byte (x ∷ xs) = x

different_bodies : NoCollision polynomial hello.body changed.body
unfolding horner
different_bodies e = absurd (omega (arith, ap first_byte e))

different_requests :
    NoCollision polynomial
      (identity_preimage polynomial hello)
      (identity_preimage polynomial changed)
unfolding horner identity_preimage write_identity_bytes
different_requests e = absurd (omega (arith, ap first_byte e))

hello_saved :
    (save_with_capacity polynomial none [] 10 hello one_each new_memory_store).1
    ≡ ok (record { message = prepare polynomial [] 10 hello; outcome = created })
unfolding save_with_capacity save_new check_queue_capacity new_memory_store lookup prepare
    global_pending device_pending
hello_saved = refl

same_id_changed :
    (prepare polynomial [] 60 changed).message_id ≡ (prepare polynomial [] 10 hello).message_id
unfolding prepare
same_id_changed = refl

save_with_capacity_replay_example :
    save_with_capacity polynomial none [] 60 changed one_each
      (save_with_capacity polynomial none [] 10 hello one_each new_memory_store).0
    ≡ (
      (save_with_capacity polynomial none [] 10 hello one_each new_memory_store).0,
      ok (record {
        message = prepare polynomial [] 10 hello;
        outcome = if same_request hello changed then existing else conflict;
      }),
    )
save_with_capacity_replay_example =
    save_with_capacity_replay polynomial polynomial_size [] [] 10 60 hello changed
      (prepare polynomial [] 10 hello) one_each one_each new_memory_store hello_saved
      same_id_changed (omega arith) (omega arith) different_requests different_bodies

new_memory_store-Within : Within one_each new_memory_store
unfolding new_memory_store global_pending device_pending
new_memory_store-Within = record { global = λ pos. omega arith; device = λ c d pos. omega arith }

save_with_capacity-Within_example :
    Within one_each (save_with_capacity digest none [] 10 hello one_each new_memory_store).0
save_with_capacity-Within_example =
    save_with_capacity-Within digest none [] 10 hello one_each new_memory_store
      new_memory_store-Within

store_of-Within : Within one_each (store_of arrived)
unfolding insert global_pending device_pending
store_of-Within = record { global = λ pos. omega arith; device = λ c d pos. omega arith }

requeue_with_capacity-Within_example :
    Within one_each (requeue_with_capacity none 70 id 75 one_each (store_of arrived)).0
requeue_with_capacity-Within_example =
    requeue_with_capacity-Within none 70 id 75 one_each (store_of arrived) store_of-Within

length-fair_retry_selection-le_example :
    length (fair_retry_selection (stored_hello ∷ stored_hello ∷ stored_hello ∷ []) 2).messages ≤ 2
length-fair_retry_selection-le_example =
    length-fair_retry_selection-le (stored_hello ∷ stored_hello ∷ stored_hello ∷ []) 2
