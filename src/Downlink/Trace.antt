-- ===== src/Downlink/Trace.antt =====
-- What an operation of the service does to the store, as calls of the store's methods: the step
-- relation, and how it passes through the operations' composition.
use z_courier.Base.{◌≡◌, sym, subst, Bool, true, false, Text, Option, none, some, if◌then◌else◌}
use z_courier.Base.Results.{Result, ok, err}
use z_courier.Downlink.Message.{Time}
use z_courier.Downlink.Store
use z_courier.Downlink.Store.{Context, MemoryStore}
use z_courier.Downlink.Calls.{Call, step}
use z_courier.Downlink.Requests.{Error}
use z_courier.Downlink.System.{
  Outside, System, Op, Try, pure, ◌>>=◌, ◌>>?◌, or_fail, get_world, on_store, from_store, checked,
  on_result, on_option,
}

-- `t` is the store `start` after calls that `may` permits, each in the store it meets.
pub data Reaches (sha256 : Text → Text) (may : MemoryStore → Call → Bool) (start : MemoryStore)
    : MemoryStore → Type 0 where
  here : Reaches sha256 may start start
  next :
      {s t : MemoryStore} (c : Call)
      → Reaches sha256 may start s
      → may s c ≡ true
      → t ≡ step sha256 s c
      → Reaches sha256 may start t

abbrev pub KeepsStore : {W A : Type 0} → Op W A → Type 0
KeepsStore m = (s : System _) → (m s).0.store ≡ s.store

module _ (sha256 : Text → Text) (may : MemoryStore → Call → Bool) where
  pub Reaches-trans :
      {s t u : MemoryStore}
      → Reaches sha256 may s t
      → Reaches sha256 may t u
      → Reaches sha256 may s u
  Reaches-trans h here = h
  Reaches-trans h (next c k allowed made) = next c (Reaches-trans h k) allowed made

  pub Reaches-mono :
      (must : MemoryStore → Call → Bool)
      → ((s : MemoryStore) (c : Call) → may s c ≡ true → must s c ≡ true)
      → {s t : MemoryStore} → Reaches sha256 may s t
      → Reaches sha256 must s t
  Reaches-mono must f here = here
  Reaches-mono must f (next {s} c k allowed made) =
      next c (Reaches-mono must f k) (f s c allowed) made

  module _ {W : Type 0} where
    pub record IsTraced {A : Type 0} (m : Op W A) : Type 0 where
      pub traced : (s : System W) → Reaches sha256 may s.store (m s).0.store

    pub KeepsStore-IsTraced : {A : Type 0} (m : Op W A) → KeepsStore m → IsTraced m
    KeepsStore-IsTraced m h = record {
      traced = λ s. subst (Reaches sha256 may s.store) (sym (h s)) here;
    }

    pub pure-IsTraced : {A : Type 0} (a : A) → IsTraced (pure {W = W} a)
    unfolding pure
    pure-IsTraced a = record { traced = λ s. here }

    pub get_world-IsTraced : {A : Type 0} (f : W → W × A) → IsTraced (get_world f)
    unfolding get_world
    get_world-IsTraced f = record { traced = λ s. here }

    pub >>=-IsTraced :
        {A B : Type 0} (m : Op W A) (f : A → Op W B)
        → IsTraced m
        → ((a : A) → IsTraced (f a))
        → IsTraced (m >>= f)
    unfolding ◌>>=◌
    >>=-IsTraced m f h k = record {
      traced = λ s. Reaches-trans (h.traced s) ((k (m s).1).traced (m s).0);
    }

    pub or_fail-IsTraced :
        {A B : Type 0} (f : A → Try W B) (r : Result Error A)
        → ((a : A) → IsTraced (f a))
        → IsTraced (or_fail f r)
    unfolding or_fail
    or_fail-IsTraced f (ok a) k = k a
    or_fail-IsTraced f (err e) k = pure-IsTraced (err e)

    pub >>?-IsTraced :
        {A B : Type 0} (m : Try W A) (f : A → Try W B)
        → IsTraced m
        → ((a : A) → IsTraced (f a))
        → IsTraced (m >>? f)
    unfolding ◌>>?◌
    >>?-IsTraced m f h k = >>=-IsTraced m (or_fail f) h λ r. or_fail-IsTraced f r k

    pub if-IsTraced :
        {A : Type 0} (b : Bool) (m n : Op W A)
        → IsTraced m
        → IsTraced n
        → IsTraced (if b then m else n)
    if-IsTraced true m n h k = h
    if-IsTraced false m n h k = k

    pub on_result-IsTraced :
        {A B : Type 0} (f : Error → Op W B) (g : A → Op W B) (r : Result Error A)
        → ((e : Error) → IsTraced (f e))
        → ((a : A) → IsTraced (g a))
        → IsTraced (on_result f g r)
    unfolding on_result
    on_result-IsTraced f g (err e) h k = h e
    on_result-IsTraced f g (ok a) h k = k a

    pub on_option-IsTraced :
        {A B : Type 0} (m : Op W B) (f : A → Op W B) (o : Option A)
        → IsTraced m
        → ((a : A) → IsTraced (f a))
        → IsTraced (on_option m f o)
    unfolding on_option
    on_option-IsTraced m f none h k = h
    on_option-IsTraced m f (some a) h k = k a

    pub checked-IsTraced :
        {A : Type 0} (ctx : Context) (m : Try W A) → IsTraced m → IsTraced (checked ctx m)
    unfolding checked
    checked-IsTraced none m h = h
    checked-IsTraced (some e) m h = pure-IsTraced _

    module _ (out : Outside W) where
      pub from_store-IsTraced :
          {A : Type 0} (f : Context → Time → MemoryStore → Store.Result A)
          → IsTraced (from_store out f)
      unfolding from_store
      from_store-IsTraced f = record { traced = λ s. here }

      -- A method is the step of a call that is permitted in the store it meets.
      pub on_store-Reaches :
          {A : Type 0} (f : Context → Time → MemoryStore → MemoryStore × Store.Result A)
          (c : Context → Time → Call) (s : System W)
          → ((ctx : Context) (now : Time) → may s.store (c ctx now) ≡ true)
          → ((ctx : Context) (now : Time) → (f ctx now s.store).0 ≡ step sha256 s.store (c ctx now))
          → Reaches sha256 may s.store (on_store out f s).0.store
      unfolding on_store
      on_store-Reaches f c s allowed same =
          let (w, ctx) = out.done s.world in
          let (w', now) = out.now w in next (c ctx now) here (allowed ctx now) (same ctx now)

      pub on_store-IsTraced :
          {A : Type 0} (f : Context → Time → MemoryStore → MemoryStore × Store.Result A)
          (c : Context → Time → Call)
          → ((ctx : Context) (now : Time) (st : MemoryStore) → may st (c ctx now) ≡ true)
          → ((ctx : Context) (now : Time) (st : MemoryStore)
              → (f ctx now st).0 ≡ step sha256 st (c ctx now))
          → IsTraced (on_store out f)
      on_store-IsTraced f c allowed same = record {
        traced = λ s.
            on_store-Reaches f c s (λ ctx now. allowed ctx now s.store)
              λ ctx now. same ctx now s.store;
      }
