-- ===== src/Auth/Hits.antt =====
-- What the cache answers by itself, over any history of requests.
use z_courier.Base.{
  ℕ, ◌+◌, ◌≡◌, ◌≤◌, ◌<◌, refl, subst, ◌⊎◌, inl, inr, true, none, some, List, [], ◌∷◌, Text, text_Eq,
  lookup, length, arith, Option-cases,
}
use z_courier.Base.Results.{ok}
use z_courier.Auth.{
  invalid_token, AuthError, wraps, Principal, Answer, CacheEntry, CacheConfig, CachedVerifier,
  new_cached_verifier, load, verify,
}
use z_courier.Auth.Bound.{IsBounded, verify-IsBounded}
use z_courier.Auth.Backed.{
  Request, AnyOf, AnyOf-map, Backs, ask, ask_all, ask_all-IsBacked, new-IsBacked,
}

module _ (sha256 : Text → Text) (c : CacheConfig) where
  -- What the cache answers for a token at a time is what the delegate answered to the request before, for a token of the
  -- same digest: the principal, within the lifetime of the cache's entries and the principal's own, or the rejection of
  -- an invalid token, within the lifetime of rejections.
  pub record IsRemembered (token : Text) (now : ℕ) (a : Answer) (r : Request) : Type 0 where
    pub digest : sha256 r.token ≡ sha256 token
    pub kind :
        ((p : Principal) × (r.answer ≡ record { principal = some p; error = none })
          × (a ≡ r.answer)
          × (now < r.later + c.positive_ttl)
          × ((p.expires_at ≡ 0) ⊎ (now < p.expires_at)))
        ⊎ ((cause : AuthError) × (r.answer.error ≡ some cause)
            × (wraps invalid_token cause ≡ true)
            × (a ≡ record { principal = none; error = some (invalid_token ∷ []) })
            × (now < r.later + c.negative_ttl))

  load-found :
      (key : Text) (now : ℕ) (v : CachedVerifier) (e : CacheEntry)
      → (load key now v).1 ≡ some e
      → (lookup key v.entries ≡ some e) × (now < e.expires_at)
  unfolding load
  load-found key now v e h = elim (Option-cases (lookup key v.entries)) [
    | inl missing ↦ ground arith
    | inr (e', found) ↦ (ground arith, ground arith)
  ]

  -- The answer of `Verify` for an entry.
  abbrev answer_of : CacheEntry → Answer
  answer_of e = elim e.error [
    | some err' ↦ record { principal = none; error = some err' }
    | none ↦ record { principal = e.principal; error = none }
  ]

  Backs-IsRemembered :
      (token : Text) (now : ℕ) (e : CacheEntry)
      → now < e.expires_at
      → (r : Request) → Backs sha256 c (sha256 token) e r
      → IsRemembered token now (answer_of e) r
  Backs-IsRemembered token now e live r (inl (p, who, fine, b)) = record {
    digest = b.digest;
    kind = inl (
      p,
      ground (arith, b.principal, b.error),
      ground (arith, b.principal, b.error),
      omega (arith, b.lifetime),
      elim b.own [ inl endless ↦ inl endless | inr ends ↦ inr (omega arith) ],
    );
  }
  Backs-IsRemembered token now e live r (inr (bad, b)) = record {
    digest = b.digest;
    kind = inr (b.cause, b.error, b.invalid, ground arith, omega (arith, b.lifetime));
  }

  -- After any requests to a new cache, `Verify` either misses, and answers as its delegate does now, or answers as the
  -- delegate did for one of the requests that were passed on: for a token of the same digest, with its principal within
  -- both lifetimes, or with the rejection of an invalid token within the lifetime of rejections.
  pub verify-IsRemembered :
      (v : CachedVerifier) (requests : List Request) (delegate : Text → Answer) (now later : ℕ)
      (token : Text)
      → new_cached_verifier true c ≡ ok v
      → let (w, asked) = ask_all sha256 c (v, []) requests in
        (((load (sha256 token) now w).1 ≡ none)
          × ((verify sha256 delegate now later token w).1 ≡ delegate token))
        ⊎ AnyOf (IsRemembered token now (verify sha256 delegate now later token w).1) asked
  unfolding verify
  verify-IsRemembered v requests delegate now later token h =
      let w = (ask_all sha256 c (v, []) requests).0 in
      let asked = (ask_all sha256 c (v, []) requests).1 in
      let b = ask_all-IsBacked sha256 c v [] requests (new-IsBacked sha256 c v h) in
      elim (Option-cases (load (sha256 token) now w).1) [
        | inl missed ↦ inl (missed, rw (missed, verify) refl)
        | inr (e, found) ↦
            let (there, live) = load-found (sha256 token) now w e found in
            let same : (verify sha256 delegate now later token w).1 ≡ answer_of e =
              elim (Option-cases e.error) [
                | inl fine ↦ rw (found, verify, fine) refl
                | inr (bad, failed) ↦ rw (found, verify, failed) refl
              ] in
            inr (
              rw same (
                AnyOf-map (Backs sha256 c (sha256 token) e) (IsRemembered token now (answer_of e))
                  (Backs-IsRemembered token now e live) asked (b.entries (sha256 token) e there)))
      ]

  ask-IsBounded :
      (v : CachedVerifier) (asked : List Request) (r : Request)
      → IsBounded v
      → IsBounded (ask sha256 c (v, asked) r).0
  unfolding ask
  ask-IsBounded v asked r b = verify-IsBounded sha256 (λ _. r.answer) r.now r.later r.token v b

  ask_all-IsBounded :
      (v : CachedVerifier) (asked requests : List Request)
      → IsBounded v
      → IsBounded (ask_all sha256 c (v, asked) requests).0
  unfolding ask_all
  ask_all-IsBounded v asked [] b = b
  ask_all-IsBounded v asked (r ∷ requests) b =
      ask_all-IsBounded (ask sha256 c (v, asked) r).0 (ask sha256 c (v, asked) r).1 requests
        (ask-IsBounded v asked r b)

  -- After any requests to a new cache it holds no more entries than its configuration allows.
  pub ask_all-length :
      (v : CachedVerifier) (requests : List Request)
      → new_cached_verifier true c ≡ ok v
      → length (ask_all sha256 c (v, []) requests).0.entries ≤ c.max_entries
  unfolding new_cached_verifier
  ask_all-length v requests h =
      let start : IsBounded v = record { room = ground arith; bound = ground arith } in
      let bounded = ask_all-IsBounded v [] requests start in
      let backed = ask_all-IsBacked sha256 c v [] requests (new-IsBacked sha256 c v h) in
      subst (length (ask_all sha256 c (v, []) requests).0.entries ≤◌) backed.max_entries
        bounded.bound
