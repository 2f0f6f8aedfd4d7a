-- ===== src/Auth/Bound.antt =====
-- The cache never holds more entries than it may: room is made before an entry is written.
use z_courier.Base.{
  ℕ, ◌+◌, ◌%◌, ◌^◌, ◌≡◌, ◌≤◌, ◌<◌, refl, ◌⊎◌, inl, inr, Option, none, some, [], ◌∷◌, Text,
  text_eq_iff, text_Eq, text_eq, Map, lookup, delete, length-insert, length-delete-le,
  length-delete-lt, length, ltb, leb, if◌then◌else◌, arith, Bool-cases, Option-cases,
}
use z_courier.Auth.{
  Answer, CacheEntry, CachedVerifier, load, new_entry, oldest_of, evict_oldest, make_room,
  put_entry, store, verify,
}

-- The cache has room for an entry, and no more entries than it may have.
pub record IsBounded (v : CachedVerifier) : Type 0 where
  pub room : 0 < v.max_entries
  pub bound : length v.entries ≤ v.max_entries

-- What the search for the oldest entry gives is its start or the key of an entry.
oldest_of-found :
    (m : Map Text CacheEntry) (best : Option (Text × ℕ)) (k : Text) (n : ℕ)
    → oldest_of m best ≡ some (k, n)
    → (best ≡ some (k, n)) ⊎ ((e : CacheEntry) × (lookup k m ≡ some e))
unfolding oldest_of lookup
oldest_of-found [] best k n h = inl h
oldest_of-found ((key, entry) ∷ m) none k n h =
    elim (oldest_of-found m (some (key, entry.sequence)) k n h) [
      | inl here ↦ inr (entry, ground (arith, text_eq_iff key k))
      | inr (e, there) ↦ elim (Bool-cases (text_eq key k)) [
        | inl hit ↦ inr (entry, rw hit refl)
        | inr miss ↦ inr (e, rw miss there)
      ]
    ]
oldest_of-found ((key, entry) ∷ m) (some (j, i)) k n h =
    elim (oldest_of-found m
      (if ltb entry.sequence i then some (key, entry.sequence) else some (j, i)) k n h) [
        | inl here ↦ elim (Bool-cases (ltb entry.sequence i)) [
          | inl older ↦ inr (entry, ground (arith, text_eq_iff key k))
          | inr newer ↦ inl (ground arith)
        ]
        | inr (e, there) ↦ elim (Bool-cases (text_eq key k)) [
          | inl hit ↦ inr (entry, rw hit refl)
          | inr miss ↦ inr (e, rw miss there)
        ]
      ]

oldest_of-some :
    (m : Map Text CacheEntry) (b : Text × ℕ) → (c : Text × ℕ) × (oldest_of m (some b) ≡ some c)
unfolding oldest_of
oldest_of-some [] b = (b, refl)
oldest_of-some ((key, entry) ∷ m) (k, n) = elim (Bool-cases (ltb entry.sequence n)) [
  | inl older ↦ rw older (oldest_of-some m (key, entry.sequence))
  | inr newer ↦ rw newer (oldest_of-some m (k, n))
]

oldest_of_entry :
    (m : Map Text CacheEntry)
    → 0 < length m
    → (k : Text) × (n : ℕ) × (e : CacheEntry) × (oldest_of m none ≡ some (k, n))
      × (lookup k m ≡ some e)
unfolding oldest_of
oldest_of_entry [] h = elim h [ ]
oldest_of_entry ((key, entry) ∷ m) h =
    let ((k, n), best) = oldest_of-some m (key, entry.sequence) in
    elim (oldest_of-found ((key, entry) ∷ m) none k n best) [
      | inl absent ↦ ground arith
      | inr (e, found) ↦ (k, n, e, best, found)
    ]

evict_oldest-length :
    (v : CachedVerifier) → 0 < length v.entries → length (evict_oldest v).entries < length v.entries
unfolding evict_oldest
evict_oldest-length v h =
    let (k, n, e, best, found) = oldest_of_entry v.entries h in
    rw (best, evict_oldest) (length-delete-lt k e v.entries found)

load-IsBounded :
    (key : Text) (now : ℕ) (v : CachedVerifier) → IsBounded v → IsBounded (load key now v).0
unfolding load
load-IsBounded key now v b = elim (Option-cases (lookup key v.entries)) [
  | inl missing ↦ rw (missing, load) b
  | inr (e, found) ↦ elim (Bool-cases (ltb now e.expires_at)) [
    | inl live ↦ rw (found, load, live) b
    | inr gone ↦
        rw (found, load, gone)
          (record { room = b.room; bound = omega (arith, length-delete-le key v.entries, b.bound) })
  ]
]

-- The key has an entry already, or there is room for one more.
record HasRoom (key : Text) (v : CachedVerifier) : Type 0 where
  bounded : IsBounded v
  room : lookup key v.entries ≡ none → length v.entries < v.max_entries

evict_oldest-HasRoom :
    (key : Text) (v : CachedVerifier)
    → IsBounded v
    → v.max_entries ≤ length v.entries
    → HasRoom key (evict_oldest v)
unfolding evict_oldest
evict_oldest-HasRoom key v b full =
    let (k, n, e, best, found) = oldest_of_entry v.entries (ground (arith, b.room)) in
    let less : length (delete k v.entries) < length v.entries =
      length-delete-lt k e v.entries found in
    rw (best, evict_oldest)
      (record {
        bounded = record { room = b.room; bound = omega (arith, b.bound) };
        room = λ absent. omega (arith, b.bound);
      })

make_room-HasRoom : (key : Text) (v : CachedVerifier) → IsBounded v → HasRoom key (make_room key v)
unfolding make_room
make_room-HasRoom key v b = elim (Option-cases (lookup key v.entries)) [
  | inr (old, found) ↦ rw (found, make_room) (record { bounded = b; room = λ absent. ground arith })
  | inl missing ↦ elim (Bool-cases (leb v.max_entries (length v.entries))) [
    | inr less ↦
        rw (missing, make_room, less) (record { bounded = b; room = λ absent. ground arith })
    | inl full ↦ rw (missing, make_room, full) (evict_oldest-HasRoom key v b (ground arith))
  ]
]

put_entry-IsBounded :
    (key : Text) (entry : CacheEntry) (v : CachedVerifier)
    → HasRoom key v
    → IsBounded (put_entry key entry v)
unfolding put_entry
put_entry-IsBounded key entry v r =
    let entry' : CacheEntry = record entry { sequence = (v.sequence + 1) % 2 ^ 64 } in
    let written = length-insert key entry' v.entries in
    elim (Option-cases (lookup key v.entries)) [
      | inr (old, found) ↦ record {
        room = r.bounded.room;
        bound = ground (arith, written, r.bounded.bound);
      }
      | inl missing ↦ record {
        room = r.bounded.room;
        bound = ground (arith, written, r.room missing);
      }
    ]

store-IsBounded :
    (key : Text) (a : Answer) (now : ℕ) (v : CachedVerifier)
    → IsBounded v
    → IsBounded (store key a now v)
unfolding store
store-IsBounded key a now v b = elim (Option-cases (new_entry v a.principal a.error now)) [
  | inl nothing ↦ rw (nothing, store) b
  | inr (entry, made) ↦
      rw (made, store) (put_entry-IsBounded key entry _ (make_room-HasRoom key v b))
]

-- `Verify` keeps the number of entries within its bound, whatever it finds and whatever the delegate answers.
pub verify-IsBounded :
    (sha256 : Text → Text) (delegate : Text → Answer) (now later : ℕ) (token : Text)
    (v : CachedVerifier)
    → IsBounded v
    → IsBounded (verify sha256 delegate now later token v).0
unfolding verify
verify-IsBounded sha256 delegate now later token v b =
    let kept = load-IsBounded (sha256 token) now v b in
    elim (Option-cases (load (sha256 token) now v).1) [
      | inl missed ↦
          rw (missed, verify) (store-IsBounded (sha256 token) (delegate token) later _ kept)
      | inr (entry, found) ↦ elim (Option-cases entry.error) [
        | inl positive ↦ rw (found, verify, positive) kept
        | inr (e, negative) ↦ rw (found, verify, negative) kept
      ]
    ]
