-- ===== src/Auth/Examples.antt =====
-- The theorems on the token cache at a concrete cache and concrete requests.
use z_courier.Base.{◌≡◌, ◌≤◌, refl, ◌⊎◌, true, none, some, List, [], ◌∷◌, Text, bytes, length}
use z_courier.Base.Results.{ok}
use z_courier.Auth.{
  Answer, CacheConfig, CachedVerifier, new_cached_verifier, invalid_token, load, verify,
}
use z_courier.Auth.Backed.{Request, AnyOf, ask_all}
use z_courier.Auth.Hits.{IsRemembered, verify-IsRemembered, ask_all-length}

abbrev config : CacheConfig
config = record { max_entries = 2; positive_ttl = 50; negative_ttl = 5 }

abbrev empty_cache : CachedVerifier
empty_cache = record {
  max_entries = 2;
  positive_ttl = 50;
  negative_ttl = 5;
  sequence = 0;
  entries = [];
}

made : new_cached_verifier true config ≡ ok empty_cache
unfolding new_cached_verifier
made = refl

-- A function in the place of the digest.
abbrev digest : Text → Text
digest t = t

abbrev accepted : Answer
accepted = record {
  principal = some (record {
    client_id = bytes "c1";
    token_id = bytes "t1";
    subject = [];
    scopes = [];
    expires_at = 0;
  });
  error = none;
}

abbrev rejected : Answer
rejected = record { principal = none; error = some (invalid_token ∷ []) }

abbrev asked_twice : List Request
asked_twice =
    record { token = bytes "good"; now = 10; later = 11; answer = accepted }
    ∷ record { token = bytes "bad"; now = 12; later = 12; answer = rejected }
    ∷ []

verify-IsRemembered_example :
    let (w, asked) = ask_all digest config (empty_cache, []) asked_twice in
    (((load (bytes "good") 20 w).1 ≡ none)
      × ((verify digest (λ _. rejected) 20 21 (bytes "good") w).1 ≡ rejected))
    ⊎ AnyOf
        (IsRemembered digest config
          (bytes "good")
          20
          (verify digest (λ _. rejected) 20 21 (bytes "good") w).1)
        asked
verify-IsRemembered_example =
    verify-IsRemembered digest config empty_cache asked_twice (λ _. rejected) 20 21 (bytes "good")
      made

ask_all-length_example : length (ask_all digest config (empty_cache, []) asked_twice).0.entries ≤ 2
ask_all-length_example = ask_all-length digest config empty_cache asked_twice made
