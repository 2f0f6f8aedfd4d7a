-- ===== src/Downlink/Store/Capacity.antt =====
-- Queue admission: saves and requeues keep the numbers of pending messages within the limits.
use z_courier.Base.{
  ◌≤◌, ◌<◌, ◌≡◌, refl, subst, ◌⊎◌, inl, inr, true, none, some, Text, text_eq_iff, text_Eq, lookup,
  insert, count-insert_absent, count-insert_present, nat_eq, length, Bool-cases, Option-cases,
  arith, if◌then◌else◌,
}
use z_courier.Downlink.Message.{Message, Time, QueueCapacity}
use z_courier.Downlink.Store.{
  Context, MemoryStore, put_message, is_pending, is_pending_for, global_pending, device_pending,
  check_queue_capacity, save_with_capacity, save_existing, save_new, refresh_fingerprint, prepare,
}
use z_courier.Downlink.Marks.{requeue_with_capacity, requeued_message}

-- The limits that are set hold: of all pending messages, and of those of each device.
pub record Within (q : QueueCapacity) (s : MemoryStore) : Type 0 where
  pub global : 0 < q.max_pending_global → global_pending s ≤ q.max_pending_global
  pub device :
      (client_id device_id : Text)
      → 0 < q.max_pending_per_device
      → device_pending client_id device_id s ≤ q.max_pending_per_device

check_queue_capacity_room :
    (client_id device_id : Text) (q : QueueCapacity) (s : MemoryStore)
    → check_queue_capacity client_id device_id q s ≡ none
    → (0 < q.max_pending_global → global_pending s < q.max_pending_global)
      × (0 < q.max_pending_per_device
          → device_pending client_id device_id s < q.max_pending_per_device)
unfolding check_queue_capacity
check_queue_capacity_room client_id device_id q s h = (λ pos. ground arith, λ pos. ground arith)

-- Room for one more pending message of this device, if the message is pending.
abbrev Room : QueueCapacity → Message → MemoryStore → Type 0
Room q m s =
    is_pending m ≡ true
    → (0 < q.max_pending_global → global_pending s < q.max_pending_global)
      × (0 < q.max_pending_per_device
          → device_pending m.client_id m.device_id s < q.max_pending_per_device)

absent-Within :
    (id : Text) (m : Message) (q : QueueCapacity) (s : MemoryStore)
    → lookup id s.messages ≡ none
    → Room q m s
    → Within q s
    → Within q (record s { messages = insert id m s.messages })
unfolding global_pending device_pending
absent-Within id m q s missing room w = record {
  global = λ pos.
      ground (arith, count-insert_absent is_pending id m s.messages missing, room, w.global pos);
  device = λ client device pos. ground (
    arith,
    count-insert_absent (is_pending_for client device) id m s.messages missing,
    text_eq_iff m.client_id client,
    text_eq_iff m.device_id device,
    room,
    w.device client device pos,
  );
}

present-Within :
    (id : Text) (old m : Message) (q : QueueCapacity) (s : MemoryStore)
    → lookup id s.messages ≡ some old
    → ((is_pending old ≡ true) × (m.client_id ≡ old.client_id) × (m.device_id ≡ old.device_id))
      ⊎ Room q m s
    → Within q s
    → Within q (record s { messages = insert id m s.messages })
unfolding global_pending device_pending
present-Within id old m q s found room w = record {
  global = λ pos.
      ground (arith, count-insert_present is_pending id m old s.messages found, room, w.global pos);
  device = λ client device pos. ground (
    arith,
    count-insert_present (is_pending_for client device) id m old s.messages found,
    text_eq_iff m.client_id client,
    text_eq_iff m.device_id device,
    room,
    w.device client device pos,
  );
}

Room-check :
    (m : Message) (q : QueueCapacity) (s : MemoryStore)
    → (if is_pending m then check_queue_capacity m.client_id m.device_id q s else none) ≡ none
    → Room q m s
Room-check m q s h pending = check_queue_capacity_room m.client_id m.device_id q s (
    subst (λ b. (if b then check_queue_capacity m.client_id m.device_id q s else none) ≡ none)
      pending h)

save_new-Within :
    (sha256 : Text → Text) (m : Message) (q : QueueCapacity) (s : MemoryStore)
    → lookup m.message_id s.messages ≡ none
    → Within q s
    → Within q (save_new sha256 m q s).0
unfolding save_new
save_new-Within sha256 m q s missing w =
    elim (Option-cases
      (if is_pending m then check_queue_capacity m.client_id m.device_id q s else none)) [
        | inr (e, full) ↦ rw (full, save_new) w
        | inl free ↦
            rw (free, save_new) (absent-Within m.message_id m q s missing (Room-check m q s free) w)
      ]

save_existing-Within :
    (sha256 : Text → Text) (old m : Message) (q : QueueCapacity) (s : MemoryStore)
    → lookup m.message_id s.messages ≡ some old
    → Within q s
    → Within q (save_existing sha256 old m s).0
unfolding save_existing refresh_fingerprint
save_existing-Within sha256 old m q s found w =
    elim (Bool-cases (nat_eq (length old.identity_fingerprint) (length m.identity_fingerprint))) [
      | inl same ↦ rw same w
      | inr other ↦ rw other (
          present-Within m.message_id old _ q s found
            (elim (Bool-cases (is_pending old)) [
              | inl waits ↦ inl (waits, refl, refl)
              | inr rests ↦ inr (λ waits. ground arith)
            ])
            w)
    ]

-- A save under limits never takes the pending messages, all or of one device, over a limit that
-- they were within: whatever the message, its status and its context.
pub save_with_capacity-Within :
    (sha256 : Text → Text) (ctx : Context) (fresh : Text) (now : Time) (m : Message)
    (q : QueueCapacity) (s : MemoryStore)
    → Within q s
    → Within q (save_with_capacity sha256 ctx fresh now m q s).0
unfolding save_with_capacity
save_with_capacity-Within sha256 (some e) fresh now m q s w = w
save_with_capacity-Within sha256 none fresh now m q s w =
    elim (Option-cases (lookup (prepare sha256 fresh now m).message_id s.messages)) [
      | inr (old, found) ↦
          rw (found, save_with_capacity) (save_existing-Within sha256 old _ q s found w)
      | inl missing ↦ rw (missing, save_with_capacity) (save_new-Within sha256 _ q s missing w)
    ]

requeued-Within :
    (id : Text) (at : Time) (m : Message) (q : QueueCapacity) (s : MemoryStore)
    → lookup id s.messages ≡ some m
    → (if is_pending m then none else check_queue_capacity m.client_id m.device_id q s) ≡ none
    → Within q s
    → Within q (put_message id (requeued_message at m) s)
unfolding requeued_message
requeued-Within id at m q s found free w =
    present-Within id m _ q s found
      (elim (Bool-cases (is_pending m)) [
        | inl waits ↦ inl (waits, refl, refl)
        | inr rests ↦ inr (λ _. check_queue_capacity_room m.client_id m.device_id q s (
            subst
              (λ b. (if b then none else check_queue_capacity m.client_id m.device_id q s) ≡ none)
              rests free))
      ])
      w

-- A requeue under limits never takes the pending messages, all or of one device, over a limit that
-- they were within.
pub requeue_with_capacity-Within :
    (ctx : Context) (now : Time) (id : Text) (at : Time) (q : QueueCapacity) (s : MemoryStore)
    → Within q s
    → Within q (requeue_with_capacity ctx now id at q s).0
unfolding requeue_with_capacity
requeue_with_capacity-Within (some e) now id at q s w = w
requeue_with_capacity-Within none now id at q s w = elim (Option-cases (lookup id s.messages)) [
  | inl missing ↦ rw (missing, requeue_with_capacity) w
  | inr (m, found) ↦
      rw (found, requeue_with_capacity)
        (elim (Option-cases
          (if is_pending m then none else check_queue_capacity m.client_id m.device_id q s)) [
            | inr (e, full) ↦ rw full w
            | inl free ↦ rw free (requeued-Within id _ m q s found free w)
          ])
]
