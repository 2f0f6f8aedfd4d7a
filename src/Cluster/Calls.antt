-- ===== src/Cluster/Calls.antt =====
-- The calls of a registry in the order in which its mutex lets them in.
use z_courier.Base.{
  ℕ, ◌≡◌, refl, sym, inl, inr, Bool, true, false, not, none, some, List, [], ◌∷◌, Text, text_eq,
  Map, MapAll, MapAll-insert, MapAll-delete, lookup, insert, delete, if◌then◌else◌, arith,
  Bool-cases, Option-cases, ◌∙◌, Distinct, insert-Distinct, delete-Distinct, is_empty,
}
use z_courier.Cluster.{
  RouteKey, RouteEntry, RouteListFilter, MemoryRegistry, Context, key_of, is_expired,
  normalize_entry, validate_route_key, validate_route_entry, new_memory_registry, bind, unbind,
  lookup_route, touch, list_loop, list, close, route_key_Eq, route_entry_matches_filter,
}
use z_courier.Cluster.Routes.{key_of-normalize_entry}

-- A call with what its context and its clock say.
pub data Call : Type 0 where
  bind_call : Context → ℕ → RouteEntry → Call
  unbind_call : Context → ℕ → RouteKey → Text → Call
  lookup_call : Context → ℕ → RouteKey → Call
  touch_call : Context → ℕ → ℕ → RouteEntry → Call
  list_call : Context → ℕ → RouteListFilter → Call
  close_call : Call

unfoldable pub step : MemoryRegistry → Call → MemoryRegistry
step r (bind_call ctx now entry) = (bind ctx now r entry).0
step r (unbind_call ctx now key session_id) = (unbind ctx now r key session_id).0
step r (lookup_call ctx now key) = (lookup_route ctx now r key).0
step r (touch_call ctx checked now entry) = (touch ctx checked now r entry).0
step r (list_call ctx now f) = (list ctx now r f).0
step r close_call = (close r).0

unfoldable pub run : MemoryRegistry → List Call → MemoryRegistry
unfolding step
run r [] = r
run r (c ∷ calls) = run (step r c) calls

-- No key stands twice, an entry stands under its own key, and a closed registry is empty.
pub record IsValid (r : MemoryRegistry) : Type 0 where
  pub distinct : Distinct r.entries
  pub keyed : MapAll (λ k e. key_of e ≡ k) r.entries
  pub empty : r.closed ≡ true → r.entries ≡ []

write-IsValid :
    (r : MemoryRegistry) (now : ℕ) (entry : RouteEntry) (k : RouteKey)
    → key_of entry ≡ k
    → r.closed ≡ false
    → IsValid r
    → IsValid (record r { entries = insert k (normalize_entry r entry now) r.entries })
write-IsValid r now entry k at usable v = record {
  distinct = insert-Distinct k _ r.entries v.distinct;
  keyed =
      MapAll-insert (λ k e. key_of e ≡ k) k _ r.entries (key_of-normalize_entry r entry now ∙ at)
        v.keyed;
  empty = λ done. ground arith;
}

delete-IsValid :
    (r : MemoryRegistry) (k : RouteKey)
    → IsValid r
    → IsValid (record r { entries = delete k r.entries })
unfolding delete
delete-IsValid r k v = record {
  distinct = delete-Distinct k r.entries v.distinct;
  keyed = MapAll-delete (λ k e. key_of e ≡ k) k r.entries v.keyed;
  empty = λ done. rw (v.empty done) refl;
}

list_loop-IsValid :
    (now : ℕ) (f : RouteListFilter) (r : MemoryRegistry) (m es : Map RouteKey RouteEntry)
    → IsValid (record r { entries = es })
    → IsValid (record r { entries = (list_loop now f m es).0 })
unfolding list_loop
list_loop-IsValid now f r [] es v = v
list_loop-IsValid now f r ((k, e) ∷ m) es v = elim (Bool-cases (is_expired e now)) [
  | inl gone ↦
      rw gone
        (list_loop-IsValid now f r m (delete k es) (delete-IsValid (record r { entries = es }) k v))
  | inr live ↦ elim (Bool-cases (route_entry_matches_filter e f)) [
    | inl wanted ↦ rw (live, wanted) (list_loop-IsValid now f r m es v)
    | inr other ↦ rw (live, other) (list_loop-IsValid now f r m es v)
  ]
]

if-IsValid :
    {A : Type 0} (b : Bool) (x y : MemoryRegistry × A)
    → (b ≡ true → IsValid x.0)
    → (b ≡ false → IsValid y.0)
    → IsValid (if b then x else y).0
if-IsValid true x y h k = h refl
if-IsValid false x y h k = k refl

bind-IsValid :
    (ctx : Context) (now : ℕ) (r : MemoryRegistry) (entry : RouteEntry)
    → IsValid r
    → IsValid (bind ctx now r entry).0
unfolding bind
bind-IsValid (some e) now r entry v = v
bind-IsValid none now r entry v = elim (Option-cases (validate_route_entry entry)) [
  | inr (e, wrong) ↦ rw (wrong, bind) v
  | inl fine ↦
      rw (fine, bind)
        (if-IsValid r.closed _ _ (λ _. v)
          (λ usable.
            write-IsValid r now entry (key_of (normalize_entry r entry now))
              (sym (key_of-normalize_entry r entry now)) usable v))
]

unbind-IsValid :
    (ctx : Context) (now : ℕ) (r : MemoryRegistry) (key : RouteKey) (session_id : Text)
    → IsValid r
    → IsValid (unbind ctx now r key session_id).0
unfolding unbind
unbind-IsValid (some e) now r key session_id v = v
unbind-IsValid none now r key session_id v = elim (Option-cases (validate_route_key key)) [
  | inr (e, wrong) ↦ rw (wrong, unbind) v
  | inl fine ↦
      rw (fine, unbind)
        (if-IsValid (is_empty session_id) _ _ (λ _. v)
          (λ _.
            if-IsValid r.closed _ _ (λ _. v)
              (λ _. elim (Option-cases (lookup key r.entries)) [
                | inl absent ↦ rw (absent) v
                | inr (e, found) ↦ rw (found) (
                    if-IsValid (is_expired e now) _ _ (λ _. delete-IsValid r key v)
                      (λ _.
                        if-IsValid (not (text_eq e.session_id session_id)) _ _ (λ _. v)
                          (λ _. delete-IsValid r key v)))
              ])))
]

lookup_route-IsValid :
    (ctx : Context) (now : ℕ) (r : MemoryRegistry) (key : RouteKey)
    → IsValid r
    → IsValid (lookup_route ctx now r key).0
unfolding lookup_route
lookup_route-IsValid (some e) now r key v = v
lookup_route-IsValid none now r key v = elim (Option-cases (validate_route_key key)) [
  | inr (e, wrong) ↦ rw (wrong, lookup_route) v
  | inl fine ↦
      rw (fine, lookup_route)
        (if-IsValid r.closed _ _ (λ _. v)
          (λ _. elim (Option-cases (lookup key r.entries)) [
            | inl absent ↦ rw (absent) v
            | inr (e, found) ↦
                rw (found)
                  (if-IsValid (is_expired e now) _ _ (λ _. delete-IsValid r key v) (λ _. v))
          ]))
]

touch-IsValid :
    (ctx : Context) (checked now : ℕ) (r : MemoryRegistry) (entry : RouteEntry)
    → IsValid r
    → IsValid (touch ctx checked now r entry).0
unfolding touch
touch-IsValid (some e) checked now r entry v = v
touch-IsValid none checked now r entry v = elim (Option-cases (validate_route_entry entry)) [
  | inr (e, wrong) ↦ rw (wrong, touch) v
  | inl fine ↦
      rw (fine, touch)
        (if-IsValid r.closed _ _ (λ _. v)
          (λ usable. elim (Option-cases (lookup (key_of entry) r.entries)) [
            | inl absent ↦ rw (absent) v
            | inr (e, found) ↦ rw (found) (
                if-IsValid (is_expired e checked) _ _ (λ _. delete-IsValid r (key_of entry) v)
                  (λ _.
                    if-IsValid (not (text_eq e.session_id entry.session_id)) _ _ (λ _. v)
                      (λ _. write-IsValid r now entry (key_of entry) refl usable v)))
          ]))
]

list-IsValid :
    (ctx : Context) (now : ℕ) (r : MemoryRegistry) (f : RouteListFilter)
    → IsValid r
    → IsValid (list ctx now r f).0
unfolding list
list-IsValid (some e) now r f v = v
list-IsValid none now r f v =
    if-IsValid r.closed _ _ (λ _. v) (λ _. list_loop-IsValid now f r r.entries r.entries v)

empty_keyed : MapAll (λ (k : RouteKey) (e : RouteEntry). key_of e ≡ k) []
unfolding lookup
empty_keyed k e found = ground arith

step-IsValid : (r : MemoryRegistry) (c : Call) → IsValid r → IsValid (step r c)
unfolding step close
step-IsValid r (bind_call ctx now entry) v = bind-IsValid ctx now r entry v
step-IsValid r (unbind_call ctx now key session_id) v = unbind-IsValid ctx now r key session_id v
step-IsValid r (lookup_call ctx now key) v = lookup_route-IsValid ctx now r key v
step-IsValid r (touch_call ctx checked now entry) v = touch-IsValid ctx checked now r entry v
step-IsValid r (list_call ctx now f) v = list-IsValid ctx now r f v
step-IsValid r close_call v = record { distinct = tt; keyed = empty_keyed; empty = λ done. refl }

run_from-IsValid : (r : MemoryRegistry) (calls : List Call) → IsValid r → IsValid (run r calls)
unfolding run
run_from-IsValid r [] v = v
run_from-IsValid r (c ∷ calls) v = run_from-IsValid (step r c) calls (step-IsValid r c v)

-- After any sequence of calls on a new registry no key stands twice, every entry stands under the key of its own client
-- and device, and a closed registry holds nothing.
pub run-new_memory_registry-IsValid :
    (ttl : ℕ) (calls : List Call) → IsValid (run (new_memory_registry ttl) calls)
unfolding new_memory_registry
run-new_memory_registry-IsValid ttl calls =
    run_from-IsValid (new_memory_registry ttl) calls
      (record { distinct = tt; keyed = empty_keyed; empty = λ done. refl })
