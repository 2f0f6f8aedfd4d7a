-- ===== src/Downlink/Calls/Delivered.antt =====
-- A delivered message over a history of calls.
use z_courier.Base.{
  ◌≡◌, refl, subst, inl, inr, true, Option, none, some, List, [], ◌∷◌, Text, text_Eq, lookup, All,
  arith,
}
use z_courier.Downlink.Message.{Message, delivered}
use z_courier.Downlink.Store.{MemoryStore}
use z_courier.Downlink.Calls.{Call, expires, step, run, Fate, Kept, IsValid, spares, allowed}
use z_courier.Downlink.Calls.LifeCycle.{step-Fate, step-IsValid}

-- A delivered message with the identity of `m` is stored.
abbrev pub StaysDelivered : Message → Option Message → Type 0
StaysDelivered m o = (m' : Message) × (o ≡ some m') × (m'.status ≡ delivered) × Kept m m'

pub self-Kept : (m : Message) → Kept m m
self-Kept m = ground arith

pub Kept-trans : {a b c : Message} → Kept a b → Kept b c → Kept a c
Kept-trans h k = ground arith

spared-status :
    (c : Call) (id : Text) (m m' : Message)
    → m.status ≡ delivered
    → spares id c ≡ true
    → allowed c id m.status m'.status ≡ true
    → m'.status ≡ delivered
spared-status (expires _ _ _ _) id m m' d sp h = ground arith
spared-status c id m m' d sp h = ground arith

not-removed : (c : Call) (id : Text) (m : Message) → spares id c ≡ true → ¬ Fate c id (some m) none
not-removed (expires _ _ _ _) id m sp f = ground arith
not-removed c id m sp f = ground arith

pub spared-Fate :
    (c : Call) (id : Text) (m : Message) (o : Option Message)
    → m.status ≡ delivered
    → spares id c ≡ true
    → Fate c id (some m) o
    → StaysDelivered m o
spared-Fate c id m none d sp f = absurd (not-removed c id m sp f)
spared-Fate c id m (some m') d sp (inl same) =
    (m', refl, rw (← same) d, subst (Kept m) same (self-Kept m))
spared-Fate c id m (some m') d sp (inr moved) =
    (m', refl, spared-status c id m m' d sp moved.1, moved.0)

module _ (sha256 : Text → Text) (id : Text) where
  -- In a valid store, a message that is delivered stays delivered, with its identity, through any
  -- history of calls in which nobody requeues it, discards it or deletes what has expired: late
  -- failures, late sends, repeated saves, claims and publications do not touch its state.
  pub run-delivered :
      (s : MemoryStore) (cs : List Call) (m : Message)
      → IsValid s
      → lookup id s.messages ≡ some m
      → m.status ≡ delivered
      → All (λ c. spares id c ≡ true) cs
      → StaysDelivered m (lookup id (run sha256 s cs).messages)
  unfolding run
  run-delivered s [] m v found d sp = (m, found, d, self-Kept m)
  run-delivered s (c ∷ cs) m v found d sp =
      let (m', there, d', kept) = spared-Fate c id m _ d sp.0 (
        subst (λ o. Fate c id o (lookup id (step sha256 s c).messages)) found
          (step-Fate sha256 s c id v)) in
      let (m'', there', d'', kept') =
        run-delivered (step sha256 s c) cs m' (step-IsValid sha256 s c v) there d' sp.1 in
      (m'', there', d'', Kept-trans kept kept')
