-- ===== src/Auth/Backed.antt =====
-- The entries of the cache, and the requests that they come from.
use z_courier.Base.{
  ℕ, ◌+◌, ◌%◌, ◌^◌, ◌≡◌, ◌≤◌, refl, subst, ◌⊎◌, inl, inr, true, none, some, List, [], ◌∷◌, Text,
  text_Eq, MapAll, MapAll-insert, MapAll-delete, lookup, delete, length, nat_eq, ltb, leb, arith,
  Bool-cases, Option-cases,
}
use z_courier.Base.Results.{ok}
use z_courier.Auth.{
  invalid_token, AuthError, wraps, Principal, Answer, CacheEntry, CacheConfig, CachedVerifier,
  new_cached_verifier, load, new_entry, oldest_of, evict_oldest, make_room, put_entry, store,
  verify,
}

-- A call of `Verify`, with its two clock readings and what the delegate would answer.
pub record Request : Type 0 where
  pub token : Text
  pub now : ℕ
  pub later : ℕ
  pub answer : Answer

-- There is an entry of the list with the property.
abbrev pub AnyOf {ℓ} : {A : Type ℓ} → (A → Type 0) → List A → Type 0
AnyOf P [] = ⊥
AnyOf P (x ∷ xs) = P x ⊎ AnyOf P xs

pub AnyOf-map {ℓ} :
    {A : Type ℓ} (P Q : A → Type 0)
    → ((x : A) → P x → Q x)
    → (xs : List A) → AnyOf P xs
    → AnyOf Q xs
AnyOf-map P Q f [] h = elim h [ ]
AnyOf-map P Q f (x ∷ xs) (inl here) = inl (f x here)
AnyOf-map P Q f (x ∷ xs) (inr there) = inr (AnyOf-map P Q f xs there)

module _ (sha256 : Text → Text) (c : CacheConfig) where
  -- A request that was answered with a principal, which is not to be told after the cache's time nor after its own.
  pub record IsPositive (r : Request) (key : Text) (p : Principal) (expires_at : ℕ) : Type 0 where
    pub digest : sha256 r.token ≡ key
    pub principal : r.answer.principal ≡ some p
    pub error : r.answer.error ≡ none
    pub lifetime : expires_at ≤ r.later + c.positive_ttl
    pub own : (p.expires_at ≡ 0) ⊎ (expires_at ≤ p.expires_at)

  pub record IsNegative (r : Request) (key : Text) (expires_at : ℕ) : Type 0 where
    pub digest : sha256 r.token ≡ key
    pub cause : AuthError
    pub error : r.answer.error ≡ some cause
    pub invalid : wraps invalid_token cause ≡ true
    pub lifetime : expires_at ≤ r.later + c.negative_ttl

  -- An entry comes from a request.
  abbrev pub Backs : Text → CacheEntry → Request → Type 0
  Backs key e r =
      ((p : Principal) × (e.principal ≡ some p)
        × (e.error ≡ none)
        × IsPositive r key p e.expires_at)
      ⊎ ((e.error ≡ some (invalid_token ∷ [])) × IsNegative r key e.expires_at)

  -- Every entry comes from a request that was passed on to the delegate.
  pub record IsBacked (asked : List Request) (v : CachedVerifier) : Type 0 where
    pub max_entries : v.max_entries ≡ c.max_entries
    pub positive_ttl : v.positive_ttl ≡ c.positive_ttl
    pub negative_ttl : v.negative_ttl ≡ c.negative_ttl
    pub entries : MapAll (λ key e. AnyOf (Backs key e) asked) v.entries

  pub own_time :
      (v : CachedVerifier) (p : Principal) (e : CacheEntry) (r : Request)
      → new_entry v (some p) none r.later ≡ some e
      → (p.expires_at ≡ 0) ⊎ (e.expires_at ≤ p.expires_at)
  unfolding new_entry
  own_time v p e r made = elim (Bool-cases (nat_eq p.expires_at 0)) [
    | inl endless ↦ inl (ground arith)
    | inr ends ↦ inr (ground arith)
  ]

  new_entry-Backs :
      (v : CachedVerifier) (r : Request) (e : CacheEntry) (n : ℕ)
      → v.positive_ttl ≡ c.positive_ttl
      → v.negative_ttl ≡ c.negative_ttl
      → new_entry v r.answer.principal r.answer.error r.later ≡ some e
      → Backs (sha256 r.token) (record e { sequence = n }) r
  unfolding new_entry
  new_entry-Backs v r e n same same' made = elim (Option-cases r.answer.error) [
    | inl fine ↦ elim (Option-cases r.answer.principal) [
      | inl nobody ↦ ground arith
      | inr (p, got) ↦
          let made' : new_entry v (some p) none r.later ≡ some e =
            subst (λ x. new_entry v x none r.later ≡ some e) got
              (subst (λ x. new_entry v r.answer.principal x r.later ≡ some e) fine made) in
          inl (
            p,
            ground arith,
            ground arith,
            record {
              digest = refl;
              principal = got;
              error = fine;
              lifetime = ground arith;
              own = own_time v p e r made';
            },
          )
    ]
    | inr (cause, failed) ↦
        let made' : new_entry v r.answer.principal (some cause) r.later ≡ some e =
          (subst (λ x. new_entry v r.answer.principal x r.later ≡ some e) failed made) in
        inr (
          ground arith,
          record {
            digest = refl;
            cause = cause;
            error = failed;
            invalid = ground arith;
            lifetime = ground arith;
          },
        )
  ]

  delete-IsBacked :
      (asked : List Request) (key : Text) (v : CachedVerifier)
      → IsBacked asked v
      → IsBacked asked (record v { entries = delete key v.entries })
  delete-IsBacked asked key v b = record {
    max_entries = b.max_entries;
    positive_ttl = b.positive_ttl;
    negative_ttl = b.negative_ttl;
    entries = MapAll-delete (λ key e. AnyOf (Backs key e) asked) key v.entries b.entries;
  }

  pub load-IsBacked :
      (asked : List Request) (key : Text) (now : ℕ) (v : CachedVerifier)
      → IsBacked asked v
      → IsBacked asked (load key now v).0
  unfolding load
  load-IsBacked asked key now v b = elim (Option-cases (lookup key v.entries)) [
    | inl missing ↦ rw (missing, load) b
    | inr (e, found) ↦ elim (Bool-cases (ltb now e.expires_at)) [
      | inl live ↦ rw (found, load, live) b
      | inr gone ↦ rw (found, load, gone) (delete-IsBacked asked key v b)
    ]
  ]

  make_room-IsBacked :
      (asked : List Request) (key : Text) (v : CachedVerifier)
      → IsBacked asked v
      → IsBacked asked (make_room key v)
  unfolding make_room evict_oldest
  make_room-IsBacked asked key v b = elim (Option-cases (lookup key v.entries)) [
    | inr (old, found) ↦ rw (found, make_room) b
    | inl missing ↦ elim (Bool-cases (leb v.max_entries (length v.entries))) [
      | inr less ↦ rw (missing, make_room, less) b
      | inl full ↦ elim (Option-cases (oldest_of v.entries none)) [
        | inl nothing ↦ rw (missing, make_room, full, nothing, evict_oldest) b
        | inr ((k, n), oldest) ↦
            rw (missing, make_room, full, oldest, evict_oldest) (delete-IsBacked asked k v b)
      ]
    ]
  ]

  -- A request that was passed on backs what is stored for it, and what was backed before still is.
  pub store-IsBacked :
      (asked : List Request) (r : Request) (v : CachedVerifier)
      → IsBacked asked v
      → IsBacked (r ∷ asked) (store (sha256 r.token) r.answer r.later v)
  unfolding store put_entry
  store-IsBacked asked r v b =
      let more : IsBacked (r ∷ asked) v = record {
        max_entries = b.max_entries;
        positive_ttl = b.positive_ttl;
        negative_ttl = b.negative_ttl;
        entries = λ key e found. inr (b.entries key e found);
      } in
      elim (Option-cases (new_entry v r.answer.principal r.answer.error r.later)) [
        | inl nothing ↦ rw (nothing, store) more
        | inr (e, made) ↦
            let roomy = make_room-IsBacked (r ∷ asked) (sha256 r.token) v more in
            rw (made, store)
              (record {
                max_entries = roomy.max_entries;
                positive_ttl = roomy.positive_ttl;
                negative_ttl = roomy.negative_ttl;
                entries =
                    MapAll-insert (λ key e. AnyOf (Backs key e) (r ∷ asked)) (sha256 r.token) _ _
                      (inl (
                        new_entry-Backs v r e
                          (((make_room (sha256 r.token) v).sequence + 1) % 2 ^ 64) b.positive_ttl
                          b.negative_ttl made))
                      roomy.entries;
              })
      ]

  -- A request, and the requests passed on before it, newest first.
  unfoldable pub ask : CachedVerifier × List Request → Request → CachedVerifier × List Request
  ask (v, asked) r = (
    (verify sha256 (λ _. r.answer) r.now r.later r.token v).0,
    (elim (load (sha256 r.token) r.now v).1 [ some _ ↦ asked | none ↦ r ∷ asked ]),
  )

  unfoldable pub ask_all :
      CachedVerifier × List Request → List Request → CachedVerifier × List Request
  ask_all s [] = s
  ask_all s (r ∷ requests) = ask_all (ask s r) requests

  pub ask-IsBacked :
      (v : CachedVerifier) (asked : List Request) (r : Request)
      → IsBacked asked v
      → IsBacked (ask (v, asked) r).1 (ask (v, asked) r).0
  unfolding ask verify
  ask-IsBacked v asked r b =
      let kept = load-IsBacked asked (sha256 r.token) r.now v b in
      elim (Option-cases (load (sha256 r.token) r.now v).1) [
        | inl missed ↦ rw (missed, ask, verify) (store-IsBacked asked r _ kept)
        | inr (entry, found) ↦ elim (Option-cases entry.error) [
          | inl positive ↦ rw (found, ask, verify, positive) kept
          | inr (e, negative) ↦ rw (found, ask, verify, negative) kept
        ]
      ]

  pub ask_all-IsBacked :
      (v : CachedVerifier) (asked requests : List Request)
      → IsBacked asked v
      → IsBacked (ask_all (v, asked) requests).1 (ask_all (v, asked) requests).0
  unfolding ask_all
  ask_all-IsBacked v asked [] b = b
  ask_all-IsBacked v asked (r ∷ requests) b =
      ask_all-IsBacked (ask (v, asked) r).0 (ask (v, asked) r).1 requests (ask-IsBacked v asked r b)

  pub new-IsBacked : (v : CachedVerifier) → new_cached_verifier true c ≡ ok v → IsBacked [] v
  unfolding new_cached_verifier lookup
  new-IsBacked v h =
      let none_yet : v.entries ≡ [] = ground arith in
      record {
        max_entries = ground arith;
        positive_ttl = ground arith;
        negative_ttl = ground arith;
        entries = λ key e found. ground arith;
      }
