-- ===== src/Cluster/Listing.antt =====
-- `List`: which routes it returns, in which order, and how many.
use z_courier.Base.{
  ℕ, ◌≡◌, ◌≤◌, refl, sym, subst, ◌⊎◌, inl, inr, Bool, true, false, ◌&&◌, not, none, some, List, [],
  ◌∷◌, Map, lookup, delete, values, filter, take, length, All, sort, IsSorted, sort-All,
  length-sort, min, All-values, count, All-filter, All-map, take-IsSorted, All-take, length-filter,
  lookup-delete, delete_absent, ◌∙◌, ltb, if◌then◌else◌, arith, Bool-cases, Distinct, length-take,
  sort-IsSorted,
}
use z_courier.Cluster.{
  key_of, RouteKey, RouteEntry, RouteListFilter, RouteListResult, MemoryRegistry, ok, is_expired,
  route_entry_matches_filter, route_before, unique_route_client_count, list_loop, list,
  route_key_Eq,
}
use z_courier.Cluster.Calls.{IsValid}
use z_courier.Cluster.Order.{IsRoute, route_before-IsOrder}
use z_courier.Cluster.Routes.{at_time, route, at_time-delete, expired_later}

-- The routes that a listing is about.
abbrev pub is_listed : ℕ → RouteListFilter → RouteEntry → Bool
is_listed now f e = not (is_expired e now) && route_entry_matches_filter e f

list_loop-routes :
    (now : ℕ) (f : RouteListFilter) (m es : Map RouteKey RouteEntry)
    → (list_loop now f m es).1 ≡ filter (is_listed now f) (values m)
unfolding list_loop
list_loop-routes now f [] es = refl
list_loop-routes now f ((key, e) ∷ m) es =
    ground (arith, list_loop-routes now f m (delete key es), list_loop-routes now f m es)

-- The entries of `m` are those of `es`, as far as they are still there.
abbrev Agree : Map RouteKey RouteEntry → Map RouteKey RouteEntry → Type 0
Agree m es =
    (k : RouteKey) (e : RouteEntry)
    → lookup k m ≡ some e
    → (lookup k es ≡ none) ⊎ (lookup k es ≡ some e)

delete-Agree :
    (key : RouteKey) (m es : Map RouteKey RouteEntry) → Agree m es → Agree m (delete key es)
delete-Agree key m es h k e found =
    ground (arith, lookup-delete key k es, route_key_Eq.beq_iff key k, h k e found)

tail-Agree :
    (key : RouteKey) (e : RouteEntry) (m es : Map RouteKey RouteEntry)
    → lookup key m ≡ none
    → Agree ((key, e) ∷ m) es
    → Agree m es
unfolding lookup
tail-Agree key e m es absent h k e' found = h k e' (ground (arith, route_key_Eq.beq_iff key k))

head-Agree :
    (key : RouteKey) (e : RouteEntry) (m es : Map RouteKey RouteEntry)
    → Agree ((key, e) ∷ m) es
    → (lookup key es ≡ none) ⊎ (lookup key es ≡ some e)
unfolding lookup
head-Agree key e m es h = h key e (ground (arith, route_key_Eq.beq_iff key key))

delete_expired :
    (now : ℕ) (t : ℕ) (k key : RouteKey) (e : RouteEntry) (es : Map RouteKey RouteEntry)
    → (lookup key es ≡ none) ⊎ (lookup key es ≡ some e)
    → is_expired e now ≡ true
    → now ≤ t
    → at_time t (lookup k (delete key es)) ≡ at_time t (lookup k es)
delete_expired now t k key e es h gone later = elim h [
  | inl absent ↦ rw (delete_absent key es absent) refl
  | inr found ↦ at_time-delete t key k es e found (expired_later e now t later gone)
]

list_loop-at_time :
    (now : ℕ) (f : RouteListFilter) (m es : Map RouteKey RouteEntry) (t : ℕ) (k : RouteKey)
    → Distinct m
    → Agree m es
    → now ≤ t
    → at_time t (lookup k (list_loop now f m es).0) ≡ at_time t (lookup k es)
unfolding list_loop
list_loop-at_time now f [] es t k d h later = refl
list_loop-at_time now f ((key, e) ∷ m) es t k d h later =
    let agree : Agree m es = tail-Agree key e m es d.0 h in
    elim (Bool-cases (is_expired e now)) [
      | inl gone ↦ rw gone (
          list_loop-at_time now f m (delete key es) t k d.1 (delete-Agree key m es agree) later
          ∙ delete_expired now t k key e es (head-Agree key e m es h) gone later)
      | inr live ↦ elim (Bool-cases (route_entry_matches_filter e f)) [
        | inl wanted ↦ rw (live, wanted) (list_loop-at_time now f m es t k d.1 agree later)
        | inr other ↦ rw (live, other) (list_loop-at_time now f m es t k d.1 agree later)
      ]
    ]

-- Every listed route is what its own key finds.
abbrev IsListed : MemoryRegistry → ℕ → RouteListFilter → RouteEntry → Type 0
IsListed r now f e = (is_listed now f e ≡ true) × IsRoute r e

IsListed-filter :
    (r : MemoryRegistry) (now : ℕ) (f : RouteListFilter)
    → IsValid r
    → All (IsListed r now f) (filter (is_listed now f) (values r.entries))
IsListed-filter r now f v = All-filter (IsRoute r) (is_listed now f) (values r.entries) (
    All-values (IsRoute r) r.entries v.distinct
      (λ k e found. subst (λ key. lookup key r.entries ≡ some e) (sym (v.keyed k e found)) found))

-- The cut of a listing to its limit, if it has one.
abbrev pub cut : RouteListFilter → List RouteEntry → List RouteEntry
cut f routes = if ltb 0 f.limit && ltb f.limit (length routes) then take f.limit routes else routes

-- What `List` promises about its result, for the registry and the time of the call.
pub record IsListing (r : MemoryRegistry) (now : ℕ) (f : RouteListFilter) (l : RouteListResult)
    : Type 0 where
  pub routes : l.routes ≡ cut f (sort route_before (filter (is_listed now f) (values r.entries)))
  pub total : l.total ≡ count (is_listed now f) (values r.entries)
  pub size : length l.routes ≡ (if ltb 0 f.limit then min f.limit l.total else l.total)
  pub sorted : IsSorted route_before l.routes
  pub listed :
      All (λ e. (is_listed now f e ≡ true) × (lookup (key_of e) r.entries ≡ some e)) l.routes

cut-All :
    (P : RouteEntry → Type 0) (f : RouteListFilter) (routes : List RouteEntry)
    → All P routes
    → All P (cut f routes)
cut-All P f routes h = elim (Bool-cases (ltb 0 f.limit && ltb f.limit (length routes))) [
  | inl long ↦ rw long (All-take P f.limit routes h)
  | inr short ↦ rw short h
]

cut-IsSorted :
    (f : RouteListFilter) (routes : List RouteEntry)
    → IsSorted route_before routes
    → IsSorted route_before (cut f routes)
cut-IsSorted f routes h = elim (Bool-cases (ltb 0 f.limit && ltb f.limit (length routes))) [
  | inl long ↦ rw long (take-IsSorted route_before f.limit routes h)
  | inr short ↦ rw short h
]

length-cut :
    (f : RouteListFilter) (routes : List RouteEntry)
    → length (cut f routes) ≡ (if ltb 0 f.limit then min f.limit (length routes) else length routes)
length-cut f routes = ground (arith, length-take f.limit routes)

-- On an open registry that is valid, and with a context that is not done, `List` returns the live
-- routes that the filter lets through, sorted by `sortRouteEntries` and cut to the limit when
-- there is one, with their number before the cut; every listed route is the one that its own key
-- finds, and no route changes from its time on.
pub list-IsListing :
    (r : MemoryRegistry) (now : ℕ) (f : RouteListFilter) (t : ℕ) (k : RouteKey)
    → IsValid r
    → r.closed ≡ false
    → now ≤ t
    → (l : RouteListResult) × ((list none now r f).1 ≡ ok l)
      × IsListing r now f l
      × (route (list none now r f).0 t k ≡ route r t k)
unfolding route list
list-IsListing r now f t k v usable later =
    let found = filter (is_listed now f) (values r.entries) in
    let same : (list_loop now f r.entries r.entries).1 ≡ found =
      list_loop-routes now f r.entries r.entries in
    let routes = sort route_before found in
    let h : All (IsListed r now f) found = IsListed-filter r now f v in
    let l : RouteListResult = record {
      total = length routes;
      unique_clients = unique_route_client_count routes;
      routes = cut f routes;
    } in
    let listing : IsListing r now f l = record {
      routes = refl;
      total = length-sort route_before found ∙ length-filter (is_listed now f) (values r.entries);
      size = length-cut f routes;
      sorted = cut-IsSorted f routes (
          sort-IsSorted route_before (IsRoute r) (route_before-IsOrder r) found
            (All-map _ (IsRoute r) (λ e p. p.1) found h));
      listed =
          cut-All (IsListed r now f) f routes (sort-All route_before (IsListed r now f) found h);
    } in
    (
      l,
      rw (usable, same) refl,
      listing,
      rw usable
          (list_loop-at_time now f r.entries r.entries t k v.distinct (λ k e at. inr at) later),
    )
