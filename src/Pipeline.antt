-- ===== src/Pipeline.antt =====
-- internal/pipeline/ratelimit.go: the limit of requests per client in fixed windows.
pub mod Windows
mod Examples
use z_courier.Base.{
  ℕ, ◌+◌, ◌-◌, Bool, ◌||◌, not, Option, none, some, List, [], ◌∷◌, ◌++◌, Text, bytes, text_Eq, Map,
  lookup, insert, is_empty, nat_eq, ltb, leb, if◌then◌else◌,
}
use z_courier.Base.Results.{Result, ok, err}

-- A zero time is 0.
pub record RateBucket : Type 0 where
  pub window_start : ℕ
  pub count : ℕ

pub record RateLimitHandler : Type 0 where
  pub enabled : Bool
  pub max_requests : ℕ
  pub window : ℕ
  pub buckets : Map Text RateBucket

pub data Error : Type 0 where
  misconfigured : Error
  exceeded : Text → Error

-- What a context shows of its client.
pub record Origin : Type 0 where
  pub principal_client : Option Text
  pub packet_client : Option Text
  pub conn_id : ℕ

abbrev pub named : Option Text → Option Text
named none = none
named (some client_id) = if is_empty client_id then none else some client_id

-- `decimal` is what `fmt` prints for `%d`.
unfoldable pub rate_limit_key : (ℕ → Text) → Origin → Text
rate_limit_key decimal origin = elim (named origin.principal_client) [
  | some client_id ↦ bytes "client:" ++ client_id
  | none ↦ elim (named origin.packet_client) [
    | some client_id ↦ bytes "client:" ++ client_id
    | none ↦ bytes "conn:" ++ decimal origin.conn_id
  ]
]

-- A Go map gives the zero value for a key that it lacks.
abbrev pub bucket_of : Text → Map Text RateBucket → RateBucket
bucket_of key m = elim (lookup key m) [ none ↦ record { window_start = 0; count = 0 } | some b ↦ b ]

-- The bucket in which a request at `now` counts, before it is counted.
unfoldable pub current_bucket : ℕ → ℕ → RateBucket → RateBucket
current_bucket window now b =
    if nat_eq b.window_start 0 || leb window (now - b.window_start)
    then record { window_start = now; count = 0 }
    else b

unfoldable pub handle : Text → ℕ → RateLimitHandler → RateLimitHandler × Result Error (Unit {0})
handle key now h =
    let old = current_bucket h.window now (bucket_of key h.buckets) in
    let b : RateBucket = record old { count = old.count + 1 } in
    if not h.enabled
    then (h, ok tt)
    else if nat_eq h.max_requests 0 || nat_eq h.window 0
    then (h, err misconfigured)
    else (
      record h { buckets = insert key b h.buckets },
      if ltb h.max_requests b.count then err (exceeded key) else ok tt,
    )
