-- ===== src/Signing.antt =====
-- pkg/sdk/signing/nonce.go: the store of nonces against replayed signatures. The heap of
-- expirations (`container/heap`) is a list in the order of the times: its first entry is one with
-- the least time, as `h[0]` is. A stored entry is its time, since nothing else of it is read.
pub mod Replay
mod Examples
use z_courier.Base.{
  ℕ, Bool, not, Option, none, some, List, [], ◌∷◌, ◌++◌, Text, text_Eq, Map, lookup, insert, delete,
  sort_insert, length, nat_eq, ltb, leb, if◌then◌else◌,
}
use z_courier.Base.Results.{Result, ok, err}

pub data Error : Type 0 where
  invalid_config replay nonce_store_full expired : Error

pub record NonceEntry : Type 0 where
  pub key : Text
  pub expires_at : ℕ

pub record MemoryNonceStore : Type 0 where
  pub max_entries : ℕ
  pub entries : Map Text ℕ
  pub expirations : List NonceEntry

-- `Less`
abbrev pub nonce_before : NonceEntry → NonceEntry → Bool
nonce_before a b = ltb a.expires_at b.expires_at

unfoldable pub new_memory_nonce_store : ℕ → Result Error MemoryNonceStore
new_memory_nonce_store max_entries =
    if nat_eq max_entries 0
    then err invalid_config
    else ok (record { max_entries = max_entries; entries = []; expirations = [] })

-- `keyID + "\x00" + nonce`
abbrev pub cache_key : Text → Text → Text
cache_key key_id nonce = key_id ++ (0 ∷ nonce)

-- The loop that takes the expired entries from the heap and from the map.
unfoldable pub drop_expired : ℕ → List NonceEntry → Map Text ℕ → List NonceEntry × Map Text ℕ
drop_expired now [] entries = ([], entries)
drop_expired now (e ∷ heap) entries =
    let rest = drop_expired now heap (delete e.key entries) in
    if ltb now e.expires_at then (e ∷ heap, entries) else rest

abbrev pub cleaned : ℕ → MemoryNonceStore → MemoryNonceStore
cleaned now s =
    let (heap, entries) = drop_expired now s.expirations s.entries in
    record s { entries = entries; expirations = heap }

unfoldable pub consume :
    Text → Text → ℕ → ℕ → MemoryNonceStore → MemoryNonceStore × Result Error (Unit {0})
consume key_id nonce now expires_at s =
    let key = cache_key key_id nonce in
    let s' = cleaned now s in
    let e : NonceEntry = record { key = key; expires_at = expires_at } in
    elim (lookup key s'.entries) [
      | some _ ↦ (s', err replay)
      | none ↦
          if leb s'.max_entries (length s'.entries)
          then (s', err nonce_store_full)
          else if not (ltb now expires_at)
          then (s', err expired)
          else (
            record s' {
              entries = insert key expires_at s'.entries;
              expirations = sort_insert nonce_before e s'.expirations;
            },
            ok tt,
          )
    ]
