-- ===== src/Base/Sort.antt =====
-- `sort.Slice(xs, less)` for a strict order `less`, which has one result whatever the order of `xs`.
use Prim.Native.Nat.{ℕ, zero, suc, ◌≤◌}
use mathlib.Core.Path.{◌≡◌, refl, ap, subst, ◌∙◌}
use mathlib.Core.Logic.{inl, inr}
use mathlib.Core.Bool.{Bool, true, false}
use mathlib.Core.List.{List, [], ◌∷◌, Permᴰ}
use native.Mathlib.Omega.{arith}
use z_courier.Base.Tests.{if◌then◌else◌, Bool-cases}
use z_courier.Base.Lists.{All, All-take, take, length, count, find, find-none}

module _ {ℓ} {A : Type ℓ} (less : A → A → Bool) where
  unfoldable pub sort_insert : A → List A → List A
  sort_insert x [] = x ∷ []
  sort_insert x (y ∷ ys) = if less y x then y ∷ sort_insert x ys else x ∷ y ∷ ys

  unfoldable pub sort : List A → List A
  unfolding sort_insert
  sort [] = []
  sort (x ∷ xs) = sort_insert x (sort xs)

  -- No entry is less than one before it.
  abbrev pub IsSorted : List A → Type ℓ
  IsSorted [] = Unit
  IsSorted (x ∷ xs) = All (λ y. less y x ≡ false) xs × IsSorted xs

  pub take-IsSorted : (n : ℕ) (xs : List A) → IsSorted xs → IsSorted (take n xs)
  take-IsSorted zero xs s = tt
  take-IsSorted (suc n) [] s = tt
  take-IsSorted (suc n) (x ∷ xs) s =
      (All-take (λ y. less y x ≡ false) n xs s.0, take-IsSorted n xs s.1)

  pub sort_insert-All {κ} :
      (P : A → Type κ) (x : A) (xs : List A) → P x → All P xs → All P (sort_insert x xs)
  unfolding sort_insert
  sort_insert-All P x [] p h = (p, tt)
  sort_insert-All P x (y ∷ ys) p h = elim (Bool-cases (less y x)) [
    | inl lt ↦ rw lt (h.0, sort_insert-All P x ys p h.1)
    | inr ge ↦ rw ge (p, h)
  ]

  pub sort-All {κ} : (P : A → Type κ) (xs : List A) → All P xs → All P (sort xs)
  unfolding sort
  sort-All P [] h = tt
  sort-All P (x ∷ xs) h = sort_insert-All P x (sort xs) h.0 (sort-All P xs h.1)

  pub length-sort_insert : (x : A) (xs : List A) → length (sort_insert x xs) ≡ suc (length xs)
  unfolding sort_insert
  length-sort_insert x [] = refl
  length-sort_insert x (y ∷ ys) = ground (arith, length-sort_insert x ys)

  pub length-sort : (xs : List A) → length (sort xs) ≡ length xs
  unfolding sort
  length-sort [] = refl
  length-sort (x ∷ xs) = omega (arith, length-sort_insert x (sort xs), length-sort xs)

  pub count-sort_insert :
      (p : A → Bool) (x : A) (xs : List A) → count p (sort_insert x xs) ≡ count p (x ∷ xs)
  unfolding sort_insert
  count-sort_insert p x [] = refl
  count-sort_insert p x (y ∷ ys) = ground (arith, count-sort_insert p x ys)

  -- Sorting keeps every entry as often as it was there.
  pub count-sort : (p : A → Bool) (xs : List A) → count p (sort xs) ≡ count p xs
  unfolding sort
  count-sort p [] = refl
  count-sort p (x ∷ xs) = omega (arith, count-sort_insert p x (sort xs), count-sort p xs)

module _ {ℓ} {A : Type ℓ} (less : A → A → Bool) where
  find-sort_insert :
      (p : A → Bool) (x : A) (xs : List A)
      → count p (x ∷ xs) ≤ 1
      → find p (sort_insert less x xs) ≡ find p (x ∷ xs)
  unfolding sort_insert
  find-sort_insert p x [] h = refl
  find-sort_insert p x (y ∷ ys) h = ground (arith, find-sort_insert p x ys, find-none p ys)

  -- What is there at most once is found in any order.
  pub find-sort : (p : A → Bool) (xs : List A) → count p xs ≤ 1 → find p (sort less xs) ≡ find p xs
  unfolding sort
  find-sort p [] h = refl
  find-sort p (x ∷ xs) h =
      ground (arith, find-sort_insert p x (sort less xs), find-sort p xs, count-sort less p xs)

-- What `sort.Slice` asks of `less` and needs to have one result: a strict order in which two
-- entries that satisfy `P` are equal if neither is less.
pub record IsOrder {ℓ κ} {A : Type ℓ} (less : A → A → Bool) (P : A → Type κ) : Type (ℓ ⊔ κ) where
  pub irrefl : (x : A) → less x x ≡ false
  pub trans : (x y z : A) → less x y ≡ true → less y z ≡ true → less x z ≡ true
  pub total : (x y : A) → P x → P y → less x y ≡ false → less y x ≡ false → x ≡ y

module _ {ℓ κ} {A : Type ℓ} (less : A → A → Bool) (P : A → Type κ) (o : IsOrder less P) where
  asym : (x y : A) → less x y ≡ true → less y x ≡ false
  asym x y h = elim (Bool-cases (less y x)) [
    | inl k ↦ ground (arith, o.trans x y x h k, o.irrefl x)
    | inr k ↦ k
  ]

  -- `x` is not below `y`, and `y` is not below `z`.
  pub not_less_trans :
      (x y z : A) → P x → P y → P z → less y x ≡ false → less z y ≡ false → less z x ≡ false
  not_less_trans x y z p q r h k = elim (Bool-cases (less z x)) [
    | inr g ↦ g
    | inl zx ↦ elim (Bool-cases (less x y)) [
      | inl xy ↦ ground (arith, o.trans z x y zx xy)
      | inr xy ↦ let same : x ≡ y = o.total x y p q xy h in ground (arith, same)
    ]
  ]

  above :
      (x y : A) (ys : List A)
      → P x
      → P y
      → All P ys
      → less y x ≡ false
      → All (λ z. less z y ≡ false) ys
      → All (λ z. less z x ≡ false) ys
  above x y [] p q r h k = tt
  above x y (z ∷ zs) p q r h k = (not_less_trans x y z p q r.0 h k.0, above x y zs p q r.1 h k.1)

  pub sort_insert-IsSorted :
      (x : A) (xs : List A)
      → P x
      → All P xs
      → IsSorted less xs
      → IsSorted less (sort_insert less x xs)
  unfolding sort_insert
  sort_insert-IsSorted x [] p h s = (tt, tt)
  sort_insert-IsSorted x (y ∷ ys) p h s = elim (Bool-cases (less y x)) [
    | inl lt ↦ rw lt (
      sort_insert-All less (λ z. less z y ≡ false) x ys (asym y x lt) s.0,
      sort_insert-IsSorted x ys p h.1 s.1,
    )
    | inr ge ↦ rw ge ((ge, above x y ys p h.0 h.1 ge s.0), s)
  ]

  pub sort-IsSorted : (xs : List A) → All P xs → IsSorted less (sort less xs)
  unfolding sort
  sort-IsSorted [] h = tt
  sort-IsSorted (x ∷ xs) h =
      sort_insert-IsSorted x (sort less xs) h.0 (sort-All less P xs h.1) (sort-IsSorted xs h.1)

  -- The order in which two entries are inserted does not matter.
  pub sort_insert_swap :
      (x y : A) (zs : List A)
      → P x
      → P y
      → sort_insert less x (sort_insert less y zs) ≡ sort_insert less y (sort_insert less x zs)
  unfolding sort_insert
  sort_insert_swap x y [] p q = ground (arith, asym x y, asym y x, o.total x y p q)
  sort_insert_swap x y (z ∷ zs) p q = ground (
    arith,
    asym x y,
    asym y x,
    o.total x y p q,
    o.trans x y z,
    o.trans y x z,
    o.trans z x y,
    o.trans z y x,
    sort_insert_swap x y zs p q,
  )

  All-Permᴰ : {xs ys : List A} → Permᴰ xs ys → All P xs → All P ys
  All-Permᴰ Permᴰ.nil h = tt
  All-Permᴰ (Permᴰ.cons e p) h = (subst P e h.0, All-Permᴰ p h.1)
  All-Permᴰ (Permᴰ.swap e f) h = (subst P f h.1.0, (subst P e h.0, h.1.1))
  All-Permᴰ (Permᴰ.trans p q) h = All-Permᴰ q (All-Permᴰ p h)

  -- Neither does the order of the whole list: a loop over a Go map may visit it in any order.
  pub sort-Permᴰ : {xs ys : List A} → Permᴰ xs ys → All P xs → sort less xs ≡ sort less ys
  unfolding sort
  sort-Permᴰ Permᴰ.nil h = refl
  sort-Permᴰ (Permᴰ.cons {a = x} e p) h = rw (← e) (ap (sort_insert less x) (sort-Permᴰ p h.1))
  sort-Permᴰ (Permᴰ.swap {a = x} {b = y} {l = l} e f) h =
      rw (← e, ← f) (sort_insert_swap x y (sort less l) h.0 h.1.0)
  sort-Permᴰ (Permᴰ.trans p q) h = sort-Permᴰ p h ∙ sort-Permᴰ q (All-Permᴰ p h)
