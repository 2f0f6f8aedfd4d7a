-- ===== src/Cluster/KeepAlive.antt =====
-- A session that keeps its route alive by `Touch`.
use z_courier.Base.{
  ℕ, ◌+◌, ◌≡◌, ◌<◌, refl, true, false, none, some, text_eq, text_eq_iff, sym, subst, ltb, nat_eq,
  if◌then◌else◌, ◌∙◌, List, [], ◌∷◌, lookup, insert, lookup-insert_self, arith,
}
use z_courier.Cluster.{
  RouteEntry, MemoryRegistry, key_of, validate_route_entry, normalize_entry, is_expired, bind,
  touch, route_key_Eq,
}
use z_courier.Cluster.Routes.{route, written, key_of-normalize_entry, at_time-normalize_entry}

-- The registry after a list of calls of `Touch`, each with the readings of its clock when it checks
-- and when it writes.
abbrev pub touch_all : RouteEntry → List (ℕ × ℕ) → MemoryRegistry → MemoryRegistry
touch_all entry [] r = r
touch_all entry ((checked, now) ∷ touches) r =
    touch_all entry touches (touch none checked now r entry).0

-- Each call checks before the lifetime is over that the write before it has begun.
abbrev pub InTime : ℕ → ℕ → List (ℕ × ℕ) → Type 0
InTime ttl last [] = Unit
InTime ttl last ((checked, now) ∷ touches) = (checked < last + ttl) × InTime ttl now touches

-- The last write.
abbrev pub last_write : ℕ → List (ℕ × ℕ) → ℕ
last_write last [] = last
last_write last ((checked, now) ∷ touches) = last_write now touches

-- An open registry in which the key of an entry holds what was written at `last`.
record Holds (ttl : ℕ) (entry : RouteEntry) (last : ℕ) (r : MemoryRegistry) : Type 0 where
  lifetime : r.ttl ≡ ttl
  usable : r.closed ≡ false
  stored : lookup (key_of entry) r.entries ≡ some (normalize_entry r entry last)

abbrev wrote : MemoryRegistry → ℕ → RouteEntry → MemoryRegistry
wrote r now entry = record r {
  entries = insert (key_of entry) (normalize_entry r entry now) r.entries;
}

wrote-Holds :
    (r : MemoryRegistry) (now : ℕ) (entry : RouteEntry)
    → r.closed ≡ false
    → Holds r.ttl entry now (wrote r now entry)
unfolding normalize_entry
wrote-Holds r now entry usable = record {
  lifetime = refl;
  usable = usable;
  stored = lookup-insert_self (key_of entry) (normalize_entry r entry now) r.entries;
}

bind-Holds :
    (r : MemoryRegistry) (now : ℕ) (entry : RouteEntry)
    → validate_route_entry entry ≡ none
    → r.closed ≡ false
    → Holds r.ttl entry now (bind none now r entry).0
unfolding bind
bind-Holds r now entry valid usable =
    let made : (bind none now r entry).0 ≡ wrote r now entry =
      ground (arith, key_of-normalize_entry r entry now) in
    subst (Holds r.ttl entry now) (sym made) (wrote-Holds r now entry usable)

-- What was written is there until its lifetime is over, with the session of the entry.
live_entry :
    (ttl : ℕ) (r : MemoryRegistry) (last checked : ℕ) (entry : RouteEntry)
    → 0 < ttl
    → checked < last + ttl
    → Holds ttl entry last r
    → (is_expired (normalize_entry r entry last) checked ≡ false)
      × (text_eq (normalize_entry r entry last).session_id entry.session_id ≡ true)
unfolding normalize_entry
live_entry ttl r last checked entry positive early h =
    let same : text_eq entry.session_id entry.session_id ≡ true =
      (text_eq_iff entry.session_id entry.session_id).1 refl in
    (ground (arith, h.lifetime), ground (arith, h.lifetime, same))

touch-Holds :
    (ttl : ℕ) (r : MemoryRegistry) (last checked now : ℕ) (entry : RouteEntry)
    → validate_route_entry entry ≡ none
    → 0 < ttl
    → checked < last + ttl
    → Holds ttl entry last r
    → Holds ttl entry now (touch none checked now r entry).0
unfolding touch
touch-Holds ttl r last checked now entry valid positive early h =
    let held = live_entry ttl r last checked entry positive early h in
    let found = h.stored in
    let usable = h.usable in
    let made : (touch none checked now r entry).0 ≡ wrote r now entry = ground (arith, held) in
    subst (Holds ttl entry now) (sym made) (
      subst (λ n. Holds n entry now (wrote r now entry)) h.lifetime
        (wrote-Holds r now entry usable))

touch_all-Holds :
    (ttl : ℕ) (r : MemoryRegistry) (last : ℕ) (entry : RouteEntry) (touches : List (ℕ × ℕ))
    → validate_route_entry entry ≡ none
    → 0 < ttl
    → InTime ttl last touches
    → Holds ttl entry last r
    → Holds ttl entry (last_write last touches) (touch_all entry touches r)
touch_all-Holds ttl r last entry [] valid positive early h = h
touch_all-Holds ttl r last entry ((checked, now) ∷ touches) valid positive early h =
    touch_all-Holds ttl (touch none checked now r entry).0 now entry touches valid positive early.1
      (touch-Holds ttl r last checked now entry valid positive early.0 h)

written_until :
    (ttl : ℕ) (r : MemoryRegistry) (last t : ℕ) (entry : RouteEntry)
    → 0 < ttl
    → r.ttl ≡ ttl
    → written r last entry t ≡ (
        if ltb t (last + ttl)
        then some (record entry {
          updated_at = if nat_eq entry.updated_at 0 then last else entry.updated_at;
          expires_at = last + ttl;
        })
        else none)
written_until ttl r last t entry positive same = ground (arith, same)

Holds-route :
    (ttl : ℕ) (r : MemoryRegistry) (last t : ℕ) (entry : RouteEntry)
    → Holds ttl entry last r
    → route r t (key_of entry) ≡ written r last entry t
unfolding route
Holds-route ttl r last t entry h = rw h.stored (at_time-normalize_entry r entry last t)

-- On an open registry with a lifetime, a valid entry that is bound and then touched any number of
-- times, each time before the lifetime that the write before it began is over, is the route of its
-- key until a lifetime has passed since the last write, with that as its expiry, and its key has no
-- route from then on.
pub keep_alive :
    (r : MemoryRegistry) (now t : ℕ) (entry : RouteEntry) (touches : List (ℕ × ℕ))
    → validate_route_entry entry ≡ none
    → r.closed ≡ false
    → 0 < r.ttl
    → InTime r.ttl now touches
    → route (touch_all entry touches (bind none now r entry).0) t (key_of entry) ≡ (
        if ltb t (last_write now touches + r.ttl)
        then some (record entry {
          updated_at =
              if nat_eq entry.updated_at 0 then last_write now touches else entry.updated_at;
          expires_at = last_write now touches + r.ttl;
        })
        else none)
keep_alive r now t entry touches valid usable positive early =
    let held =
      touch_all-Holds r.ttl (bind none now r entry).0 now entry touches valid positive early
        (bind-Holds r now entry valid usable) in
    Holds-route r.ttl (touch_all entry touches (bind none now r entry).0) (last_write now touches) t
      entry held
    ∙ written_until r.ttl (touch_all entry touches (bind none now r entry).0)
        (last_write now touches) t entry positive held.lifetime
