-- ===== src/Auth.antt =====
-- internal/auth/auth.go and cache.go: the errors of a verifier, and the cache before one. SHA-256
-- and the verifier behind the cache are parameters; an error is the list of the sentinel errors that
-- it wraps, and a time is 0 for the source's zero time.
pub mod Bound
pub mod Backed
pub mod Hits
mod Examples
use z_courier.Base.{
  ℕ, ◌+◌, ◌%◌, ◌^◌, Bool, true, false, ◌&&◌, ◌||◌, not, Option, none, some, List, [], ◌∷◌, Text,
  bytes, text_Eq, Map, lookup, insert, delete, any, length, nat_eq, ltb, leb, if◌then◌else◌,
}
use z_courier.Base.Results.{Result, ok, err}

pub data Sentinel : Type 0 where
  invalid_token expired_token forbidden provider_timeout provider_unavailable misconfigured
        health_check_unsupported :
      Sentinel

abbrev pub AuthError : Type 0
AuthError = List Sentinel

abbrev pub sentinel_eq : Sentinel → Sentinel → Bool
sentinel_eq invalid_token invalid_token = true
sentinel_eq expired_token expired_token = true
sentinel_eq forbidden forbidden = true
sentinel_eq provider_timeout provider_timeout = true
sentinel_eq provider_unavailable provider_unavailable = true
sentinel_eq misconfigured misconfigured = true
sentinel_eq health_check_unsupported health_check_unsupported = true
sentinel_eq _ _ = false

-- `errors.Is(err, sentinel)`
abbrev pub wraps : Sentinel → AuthError → Bool
wraps s = any (sentinel_eq s)

pub data VerificationResult : Type 0 where
  success invalid expired forbidden timeout unavailable misconfigured other : VerificationResult

-- `VerificationResult`, in the order of its cases.
unfoldable pub verification_result : Option AuthError → VerificationResult
verification_result none = success
verification_result (some e) =
    if wraps expired_token e
    then expired
    else if wraps Sentinel.forbidden e
    then VerificationResult.forbidden
    else if wraps invalid_token e
    then invalid
    else if wraps provider_timeout e
    then timeout
    else if wraps provider_unavailable e
    then unavailable
    else if wraps Sentinel.misconfigured e
    then VerificationResult.misconfigured
    else other

pub record Principal : Type 0 where
  pub client_id : Text
  pub token_id : Text
  pub subject : Text
  pub scopes : List Text
  pub expires_at : ℕ

-- What `Verify` returns.
pub record Answer : Type 0 where
  pub principal : Option Principal
  pub error : Option AuthError

pub record CacheEntry : Type 0 where
  pub principal : Option Principal
  pub error : Option AuthError
  pub expires_at : ℕ
  pub sequence : ℕ

pub record CacheConfig : Type 0 where
  pub max_entries : ℕ
  pub positive_ttl : ℕ
  pub negative_ttl : ℕ

pub record CachedVerifier : Type 0 where
  pub max_entries : ℕ
  pub positive_ttl : ℕ
  pub negative_ttl : ℕ
  pub sequence : ℕ
  pub entries : Map Text CacheEntry

-- `has_delegate` tells whether there is a verifier to cache.
unfoldable pub new_cached_verifier : Bool → CacheConfig → Result AuthError CachedVerifier
new_cached_verifier has_delegate c =
    if not has_delegate
      || (nat_eq c.max_entries 0 || (nat_eq c.positive_ttl 0 || nat_eq c.negative_ttl 0))
    then err (Sentinel.misconfigured ∷ [])
    else ok (record {
      max_entries = c.max_entries;
      positive_ttl = c.positive_ttl;
      negative_ttl = c.negative_ttl;
      sequence = 0;
      entries = [];
    })

unfoldable pub load : Text → ℕ → CachedVerifier → CachedVerifier × Option CacheEntry
load key now v = elim (lookup key v.entries) [
  | none ↦ (v, none)
  | some entry ↦
      if not (ltb now entry.expires_at)
      then (record v { entries = delete key v.entries }, none)
      else (v, some entry)
]

-- The expiry of a positive entry: that of the cache, or an earlier one of the principal.
abbrev pub positive_expiry : CachedVerifier → Principal → ℕ → ℕ
positive_expiry v p now =
    if not (nat_eq p.expires_at 0) && ltb p.expires_at (now + v.positive_ttl)
    then p.expires_at
    else now + v.positive_ttl

-- `newEntry`, of an entry whose sequence number `store` sets.
unfoldable pub new_entry :
    CachedVerifier → Option Principal → Option AuthError → ℕ → Option CacheEntry
new_entry v (some p) none now =
    if not (ltb now (positive_expiry v p now))
    then none
    else some (record {
      principal = some p;
      error = none;
      expires_at = positive_expiry v p now;
      sequence = 0;
    })
new_entry v none none now = none
new_entry v principal (some e) now =
    if wraps invalid_token e
    then some (record {
      principal = none;
      error = some (invalid_token ∷ []);
      expires_at = now + v.negative_ttl;
      sequence = 0;
    })
    else none

-- The loop of `evictOldest`: the key and the number of the oldest entry so far.
unfoldable pub oldest_of : Map Text CacheEntry → Option (Text × ℕ) → Option (Text × ℕ)
oldest_of [] best = best
oldest_of ((key, entry) ∷ m) none = oldest_of m (some (key, entry.sequence))
oldest_of ((key, entry) ∷ m) (some (k, n)) =
    oldest_of m (if ltb entry.sequence n then some (key, entry.sequence) else some (k, n))

unfoldable pub evict_oldest : CachedVerifier → CachedVerifier
evict_oldest v = elim (oldest_of v.entries none) [
  | none ↦ v
  | some (key, _) ↦ record v { entries = delete key v.entries }
]

-- `if _, exists := v.entries[key]; !exists && len(v.entries) >= v.maxEntries`
unfoldable pub make_room : Text → CachedVerifier → CachedVerifier
make_room key v = elim (lookup key v.entries) [
  | some _ ↦ v
  | none ↦ if leb v.max_entries (length v.entries) then evict_oldest v else v
]

-- The last three statements of `store`; the number is a uint64.
unfoldable pub put_entry : Text → CacheEntry → CachedVerifier → CachedVerifier
put_entry key entry v =
    let n = (v.sequence + 1) % 2 ^ 64 in
    record v { sequence = n; entries = insert key (record entry { sequence = n }) v.entries }

unfoldable pub store : Text → Answer → ℕ → CachedVerifier → CachedVerifier
store key a now v = elim (new_entry v a.principal a.error now) [
  | none ↦ v
  | some entry ↦ put_entry key entry (make_room key v)
]

-- `Verify` at two readings of its clock; the delegate is asked only after a miss.
module _ (sha256 : Text → Text) where
  unfoldable pub verify : (Text → Answer) → ℕ → ℕ → Text → CachedVerifier → CachedVerifier × Answer
  verify delegate now later token v =
      let key = sha256 token in
      let (v', found) = load key now v in
      elim found [
        | some entry ↦ elim entry.error [
          | some e ↦ (v', record { principal = none; error = some e })
          | none ↦ (v', record { principal = entry.principal; error = none })
        ]
        | none ↦ (store key (delegate token) later v', delegate token)
      ]
