-- ===== src/Signing/Replay.antt =====
-- A nonce that was accepted is refused until it expires, and the store keeps within its limit.
use z_courier.Base.{
  ℕ, ◌≡◌, ◌≢◌, ◌≤◌, ◌<◌, refl, sym, ◌∙◌, subst, inl, inr, Bool-cases, Option-cases, none, some,
  List, [], ◌∷◌, Text, text_eq_iff, text_Eq, Map, lookup, insert, delete, lookup-insert,
  lookup-insert_self, lookup-insert_ne, lookup-delete_ne, length-insert, length-delete-le,
  sort_insert, sort_insert-All, length, All, ltb, leb, arith,
}
use z_courier.Base.Results.{ok, err}
use z_courier.Signing.{
  replay, NonceEntry, MemoryNonceStore, nonce_before, new_memory_nonce_store, cache_key,
  drop_expired, cleaned, consume,
}

-- Every entry of the heap is in the map with its time, and no key is twice in the heap.
abbrev pub Synced : List NonceEntry → Map Text ℕ → Type 0
Synced [] m = Unit
Synced (e ∷ heap) m =
    (lookup e.key m ≡ some e.expires_at) × All (λ x. e.key ≢ x.key) heap × Synced heap m

delete-Synced :
    (k : Text) (heap : List NonceEntry) (m : Map Text ℕ)
    → All (λ x. k ≢ x.key) heap
    → Synced heap m
    → Synced heap (delete k m)
delete-Synced k [] m apart h = tt
delete-Synced k (e ∷ heap) m apart h =
    (lookup-delete_ne k e.key m apart.0 ∙ h.0, h.1, delete-Synced k heap m apart.1 h.2)

drop_expired-Synced :
    (now : ℕ) (heap : List NonceEntry) (m : Map Text ℕ)
    → Synced heap m
    → Synced (drop_expired now heap m).0 (drop_expired now heap m).1
unfolding drop_expired
drop_expired-Synced now [] m h = tt
drop_expired-Synced now (e ∷ heap) m h = elim (Bool-cases (ltb now e.expires_at)) [
  | inl live ↦ rw live h
  | inr over ↦
      rw over (drop_expired-Synced now heap (delete e.key m) (delete-Synced e.key heap m h.1 h.2))
]

-- The keys of the heap are in the map, so a key that is not is not in the heap.
Synced-apart :
    (k : Text) (heap : List NonceEntry) (m : Map Text ℕ)
    → lookup k m ≡ none
    → Synced heap m
    → All (λ x. k ≢ x.key) heap
Synced-apart k [] m missing h = tt
Synced-apart k (e ∷ heap) m missing h = (
  λ same.
      absurd (ground (arith, missing, subst (λ j. lookup j m ≡ some e.expires_at) (sym same) h.0)),
  Synced-apart k heap m missing h.2,
)

insert-Synced :
    (k : Text) (at : ℕ) (heap : List NonceEntry) (m : Map Text ℕ)
    → All (λ x. k ≢ x.key) heap
    → Synced heap m
    → Synced heap (insert k at m)
insert-Synced k at [] m apart h = tt
insert-Synced k at (e ∷ heap) m apart h =
    (lookup-insert_ne k e.key at m apart.0 ∙ h.0, h.1, insert-Synced k at heap m apart.1 h.2)

sort_insert-Synced :
    (e : NonceEntry) (heap : List NonceEntry) (m : Map Text ℕ)
    → lookup e.key m ≡ some e.expires_at
    → All (λ x. e.key ≢ x.key) heap
    → Synced heap m
    → Synced (sort_insert nonce_before e heap) m
unfolding sort_insert
sort_insert-Synced e [] m there apart h = (there, tt, tt)
sort_insert-Synced e (x ∷ heap) m there apart h = elim (Bool-cases (nonce_before x e)) [
  | inl later ↦ rw later (
    h.0,
    sort_insert-All nonce_before (λ y. x.key ≢ y.key) e heap (λ same. apart.0 (sym same)) h.1,
    sort_insert-Synced e heap m there apart.1 h.2,
  )
  | inr sooner ↦ rw sooner (there, apart, h)
]

pub record IsValid (s : MemoryNonceStore) : Type 0 where
  pub synced : Synced s.expirations s.entries
  pub bound : length s.entries ≤ s.max_entries

drop_expired-length :
    (now : ℕ) (heap : List NonceEntry) (m : Map Text ℕ)
    → length (drop_expired now heap m).1 ≤ length m
unfolding drop_expired
drop_expired-length now [] m = omega arith
drop_expired-length now (e ∷ heap) m =
    ground (arith, drop_expired-length now heap (delete e.key m), length-delete-le e.key m)

-- An entry that is live stays.
drop_expired-keeps :
    (now : ℕ) (heap : List NonceEntry) (m : Map Text ℕ) (k : Text) (at : ℕ)
    → Synced heap m
    → lookup k m ≡ some at
    → now < at
    → lookup k (drop_expired now heap m).1 ≡ some at
unfolding drop_expired
drop_expired-keeps now [] m k at h found live = found
drop_expired-keeps now (e ∷ heap) m k at h found live = elim (Bool-cases (ltb now e.expires_at)) [
  | inl first ↦ rw first found
  | inr over ↦
      let other : e.key ≢ k = λ same.
        absurd (
          ground
            (arith, live, over, found, subst (λ j. lookup j m ≡ some e.expires_at) same h.0)) in
      rw over (
        drop_expired-keeps now heap (delete e.key m) k at (delete-Synced e.key heap m h.1 h.2)
          (lookup-delete_ne e.key k m other ∙ found) live)
]

cleaned-IsValid : (now : ℕ) (s : MemoryNonceStore) → IsValid s → IsValid (cleaned now s)
cleaned-IsValid now s v = record {
  synced = drop_expired-Synced now s.expirations s.entries v.synced;
  bound = omega (arith, drop_expired-length now s.expirations s.entries, v.bound);
}

-- A call of `Consume`.
pub record Call : Type 0 where
  pub key_id : Text
  pub nonce : Text
  pub now : ℕ
  pub expires_at : ℕ

unfoldable pub run : MemoryNonceStore → List Call → MemoryNonceStore
run s [] = s
run s (c ∷ cs) = run (consume c.key_id c.nonce c.now c.expires_at s).0 cs

consume-IsValid :
    (key_id nonce : Text) (now at : ℕ) (s : MemoryNonceStore)
    → IsValid s
    → IsValid (consume key_id nonce now at s).0
unfolding consume
consume-IsValid key_id nonce now at s v =
    let c = cleaned-IsValid now s v in
    let key = cache_key key_id nonce in
    elim (Option-cases (lookup key (cleaned now s).entries)) [
      | inr (e, known) ↦ rw (known, consume) c
      | inl new ↦ elim (Bool-cases (leb s.max_entries (length (cleaned now s).entries))) [
        | inl full ↦ rw (new, full, consume) c
        | inr room ↦ elim (Bool-cases (ltb now at)) [
          | inr late ↦ rw (new, room, late, consume) c
          | inl live ↦
              let apart =
                Synced-apart key (cleaned now s).expirations (cleaned now s).entries new c.synced in
              rw (new, room, live, consume)
                (record {
                  synced =
                      sort_insert-Synced (record { key = key; expires_at = at }) _ _
                        (lookup-insert_self key at _) apart
                        (insert-Synced key at _ _ apart c.synced);
                  bound = ground (arith, new, room, length-insert key at (cleaned now s).entries);
                })
        ]
      ]
    ]

consume-keeps :
    (key_id nonce : Text) (now at : ℕ) (s : MemoryNonceStore) (k : Text) (until : ℕ)
    → IsValid s
    → lookup k s.entries ≡ some until
    → now < until
    → lookup k (consume key_id nonce now at s).0.entries ≡ some until
unfolding consume
consume-keeps key_id nonce now at s k until v found live =
    let kept = drop_expired-keeps now s.expirations s.entries k until v.synced found live in
    let key = cache_key key_id nonce in
    ground (
      arith,
      kept,
      lookup-insert key k at (drop_expired now s.expirations s.entries).1,
      text_eq_iff key k,
    )

run-keeps :
    (cs : List Call) (s : MemoryNonceStore) (k : Text) (until : ℕ)
    → IsValid s
    → lookup k s.entries ≡ some until
    → All (λ c. c.now < until) cs
    → IsValid (run s cs) × (lookup k (run s cs).entries ≡ some until)
unfolding run
run-keeps [] s k until v found before = (v, found)
run-keeps (c ∷ cs) s k until v found before =
    run-keeps cs (consume c.key_id c.nonce c.now c.expires_at s).0 k until
      (consume-IsValid c.key_id c.nonce c.now c.expires_at s v)
      (consume-keeps c.key_id c.nonce c.now c.expires_at s k until v found before.0) before.1

run-IsValid : (cs : List Call) (s : MemoryNonceStore) → IsValid s → IsValid (run s cs)
unfolding run
run-IsValid [] s v = v
run-IsValid (c ∷ cs) s v =
    run-IsValid cs (consume c.key_id c.nonce c.now c.expires_at s).0
      (consume-IsValid c.key_id c.nonce c.now c.expires_at s v)

new_memory_nonce_store-IsValid :
    (max : ℕ) (s : MemoryNonceStore) → new_memory_nonce_store max ≡ ok s → IsValid s
unfolding new_memory_nonce_store
new_memory_nonce_store-IsValid max s made =
    let same : s ≡ record { max_entries = max; entries = []; expirations = [] } =
      ground (arith, made) in
    rw same (record { synced = tt; bound = omega arith })

consume_stored :
    (key_id nonce : Text) (now at : ℕ) (s : MemoryNonceStore)
    → (consume key_id nonce now at s).1 ≡ ok tt
    → lookup (cache_key key_id nonce) (consume key_id nonce now at s).0.entries ≡ some at
unfolding consume
consume_stored key_id nonce now at s accepted = ground (
  arith,
  accepted,
  lookup-insert_self (cache_key key_id nonce) at (drop_expired now s.expirations s.entries).1,
)

consume_known :
    (key_id nonce : Text) (now at until : ℕ) (s : MemoryNonceStore)
    → IsValid s
    → lookup (cache_key key_id nonce) s.entries ≡ some until
    → now < until
    → (consume key_id nonce now at s).1 ≡ err replay
unfolding consume
consume_known key_id nonce now at until s v found live =
    let kept =
      drop_expired-keeps now s.expirations s.entries (cache_key key_id nonce) until v.synced found
        live in
    rw (kept, consume) refl

-- A nonce that a store accepted, after any calls since it was made, is refused as a replay by every
-- later call before its time is over, whatever other calls, in any order of their clocks before that
-- time, come between, and whatever time the repeated call asks for.
pub consume-replay :
    (max : ℕ) (s : MemoryNonceStore) (before between : List Call) (key_id nonce : Text)
    (now until later until' : ℕ)
    → new_memory_nonce_store max ≡ ok s
    → (consume key_id nonce now until (run s before)).1 ≡ ok tt
    → All (λ c. c.now < until) between
    → later < until
    → (consume key_id nonce later until'
        (run (consume key_id nonce now until (run s before)).0 between)).1
      ≡ err replay
consume-replay max s before between key_id nonce now until later until' made accepted early live =
    let v = run-IsValid before s (new_memory_nonce_store-IsValid max s made) in
    let (v', found) =
      run-keeps between (consume key_id nonce now until (run s before)).0 (cache_key key_id nonce)
        until (consume-IsValid key_id nonce now until (run s before) v)
        (consume_stored key_id nonce now until (run s before) accepted) early in
    consume_known key_id nonce later until' until _ v' found live

run-max_entries : (cs : List Call) (s : MemoryNonceStore) → (run s cs).max_entries ≡ s.max_entries
unfolding run consume
run-max_entries [] s = refl
run-max_entries (c ∷ cs) s =
    run-max_entries cs (consume c.key_id c.nonce c.now c.expires_at s).0 ∙ ground arith

-- After any calls a store holds no more nonces than it was made for.
pub run-length :
    (max : ℕ) (s : MemoryNonceStore) (cs : List Call)
    → new_memory_nonce_store max ≡ ok s
    → length (run s cs).entries ≤ max
unfolding new_memory_nonce_store
run-length max s cs made =
    let v = run-IsValid cs s (new_memory_nonce_store-IsValid max s made) in
    let size : s.max_entries ≡ max = ground (arith, made) in
    omega (arith, v.bound, run-max_entries cs s, size)
