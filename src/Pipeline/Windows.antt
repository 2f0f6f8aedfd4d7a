-- ===== src/Pipeline/Windows.antt =====
-- In one window a client gets no more requests through than the limit.
use z_courier.Base.{
  ℕ, ◌+◌, ◌-◌, ◌≡◌, ◌≤◌, ◌<◌, refl, sym, ap, subst, ◌∙◌, inl, inr, Bool, true, false, Bool-cases,
  not, some, List, [], ◌∷◌, Text, text_eq, text_eq_iff, text_Eq, lookup, insert, lookup-insert,
  lookup-insert_self, All, ltb, if◌then◌else◌, arith,
}
use z_courier.Base.Results.{Result, ok, err}
use z_courier.Pipeline.{RateBucket, RateLimitHandler, bucket_of, current_bucket, handle}

-- A request: its key, and the reading of the clock.
pub record Arrival : Type 0 where
  pub key : Text
  pub now : ℕ

abbrev pub is_ok {ℓ κ} : {E : Type ℓ} {A : Type κ} → Result E A → Bool
is_ok (ok _) = true
is_ok (err _) = false

-- How many of the requests under a key get through.
unfoldable pub passed : Text → RateLimitHandler → List Arrival → ℕ
passed key h [] = 0
passed key h (a ∷ more) =
    let (h', r) = handle a.key a.now h in
    let rest = passed key h' more in
    if text_eq a.key key then (if is_ok r then 1 + rest else rest) else rest

-- The bucket of the key began at `start` and has counted `n` requests.
abbrev pub InWindow : Text → ℕ → ℕ → RateLimitHandler → Type 0
InWindow key start n h = lookup key h.buckets ≡ some (record { window_start = start; count = n })

abbrev pub IsActive : RateLimitHandler → Type 0
IsActive h = (h.enabled ≡ true) × (0 < h.max_requests) × (0 < h.window)

handle-config :
    (key : Text) (now : ℕ) (h : RateLimitHandler)
    → ((handle key now h).0.enabled ≡ h.enabled)
      × ((handle key now h).0.max_requests ≡ h.max_requests)
      × ((handle key now h).0.window ≡ h.window)
unfolding handle
handle-config key now h = ground arith

handle_active :
    (key : Text) (now : ℕ) (h : RateLimitHandler)
    → IsActive h
    → (handle key now h).0.buckets
      ≡ insert key
          (record (current_bucket h.window now (bucket_of key h.buckets)) {
            count = (current_bucket h.window now (bucket_of key h.buckets)).count + 1;
          })
          h.buckets
unfolding handle
handle_active key now h active = ground (arith, active)

handle_result :
    (key : Text) (now : ℕ) (h : RateLimitHandler)
    → IsActive h
    → is_ok (handle key now h).1
      ≡ not (ltb h.max_requests ((current_bucket h.window now (bucket_of key h.buckets)).count + 1))
unfolding handle
handle_result key now h active = ground (arith, active)

-- A request in the window is counted there.
current_bucket_same :
    (window now start n : ℕ)
    → 0 < start
    → now < start + window
    → 0 < window
    → current_bucket window now (record { window_start = start; count = n })
      ≡ record { window_start = start; count = n }
unfolding current_bucket
current_bucket_same window now start n h k w = ground (arith, h, k, w)

bucket_kept :
    (k key : Text) (now start n : ℕ) (h : RateLimitHandler)
    → IsActive h
    → text_eq k key ≡ false
    → InWindow key start n h
    → InWindow key start n (handle k now h).0
bucket_kept k key now start n h active other b =
    ap (lookup key) (handle_active k now h active)
    ∙ ground (
      arith,
      other,
      b,
      lookup-insert k key
          (record (current_bucket h.window now (bucket_of k h.buckets)) {
            count = (current_bucket h.window now (bucket_of k h.buckets)).count + 1;
          })
          h.buckets,
    )

bucket_counted :
    (k key : Text) (now start n : ℕ) (h : RateLimitHandler)
    → IsActive h
    → text_eq k key ≡ true
    → 0 < start
    → now < start + h.window
    → InWindow key start n h
    → InWindow key start (n + 1) (handle k now h).0
      × (is_ok (handle k now h).1 ≡ not (ltb h.max_requests (n + 1)))
bucket_counted k key now start n h active same s before b =
    let here : k ≡ key = (text_eq_iff k key).0 same in
    let at : lookup k h.buckets ≡ some (record { window_start = start; count = n }) =
      subst (λ j. lookup j h.buckets ≡ some (record { window_start = start; count = n })) (sym here)
        b in
    let current : current_bucket h.window now (bucket_of k h.buckets)
        ≡ record { window_start = start; count = n } =
      rw (at, bucket_of) (current_bucket_same h.window now start n s before active.2) in
    (
      subst
          (λ j.
            lookup j (handle k now h).0.buckets
            ≡ some (record { window_start = start; count = n + 1 }))
          here
          (ap (lookup k) (handle_active k now h active)
            ∙ lookup-insert_self k _ h.buckets
            ∙ ap (λ (x : RateBucket). some (record x { count = x.count + 1 })) current),
      handle_result k now h active
          ∙ ap (λ (x : RateBucket). not (ltb h.max_requests (x.count + 1))) current,
    )

passed-window :
    (arrivals : List Arrival) (key : Text) (start n : ℕ) (h : RateLimitHandler)
    → IsActive h
    → 0 < start
    → InWindow key start n h
    → All (λ a. a.now < start + h.window) arrivals
    → passed key h arrivals ≤ h.max_requests - n
unfolding passed
passed-window [] key start n h active s b before = omega arith
passed-window (a ∷ more) key start n h active s b before =
    let h' = (handle a.key a.now h).0 in
    let (on, limit, width) = handle-config a.key a.now h in
    let active' : IsActive h' =
      (ground (arith, on, active), ground (arith, limit, active), ground (arith, width, active)) in
    let before' : All (λ x. x.now < start + h'.window) more =
      subst (λ w. All (λ x. x.now < start + w) more) (sym width) before.1 in
    elim (Bool-cases (text_eq a.key key)) [
      | inr other ↦
          let kept : InWindow key start n h' =
            bucket_kept a.key key a.now start n h active other b in
          rw other (omega (arith, limit, passed-window more key start n h' active' s kept before'))
      | inl same ↦
          let (counted, result) =
            bucket_counted a.key key a.now start n h active same s before.0 b in
          let rest = passed-window more key start (n + 1) h' active' s counted before' in
          elim (Bool-cases (ltb h.max_requests (n + 1))) [
            | inl over ↦ rw (same, result, over) (omega (arith, limit, rest))
            | inr within ↦
                let room : n + 1 ≤ h.max_requests = ground (arith, within) in
                rw (same, result, within) (omega (arith, limit, rest, room))
          ]
    ]

-- With a positive limit and a positive window: of the requests that a key makes in one window, from
-- the one that opens it (the key having no bucket, or one whose window is over), at most the limit
-- get through, whatever other keys ask in between and in whatever order the clock readings of
-- that window come.
pub passed-le :
    (key : Text) (now : ℕ) (h : RateLimitHandler) (arrivals : List Arrival)
    → IsActive h
    → 0 < now
    → current_bucket h.window now (bucket_of key h.buckets)
      ≡ record { window_start = now; count = 0 }
    → All (λ a. a.now < now + h.window) arrivals
    → passed key h (record { key = key; now = now } ∷ arrivals) ≤ h.max_requests
unfolding passed
passed-le key now h arrivals active positive opens before =
    let h' = (handle key now h).0 in
    let (on, limit, width) = handle-config key now h in
    let active' : IsActive h' =
      (ground (arith, on, active), ground (arith, limit, active), ground (arith, width, active)) in
    let before' : All (λ x. x.now < now + h'.window) arrivals =
      subst (λ w. All (λ x. x.now < now + w) arrivals) (sym width) before in
    let counted : InWindow key now 1 h' =
      ap (lookup key) (handle_active key now h active)
      ∙ lookup-insert_self key _ h.buckets
      ∙ ap (λ (b : RateBucket). some (record b { count = b.count + 1 })) opens in
    let rest = passed-window arrivals key now 1 h' active' positive counted before' in
    let same : text_eq key key ≡ true = (text_eq_iff key key).1 refl in
    elim (Bool-cases (is_ok (handle key now h).1)) [
      | inl through ↦ rw (same, through) (omega (arith, rest, limit, active.1))
      | inr refused ↦ rw (same, refused) (omega (arith, rest, limit))
    ]
