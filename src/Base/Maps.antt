-- ===== src/Base/Maps.antt =====
-- Go's maps: association lists in which a key stands once. A loop over a map visits the entries
-- in the list's order.
use Prim.Native.Nat.{◌+◌, ◌≤◌, ◌<◌}
use mathlib.Core.Path.{◌≡◌, refl, subst₂}
use mathlib.Core.Logic.{◌≢◌, inl, inr}
use mathlib.Core.List.{List, [], ◌∷◌, map}
use mathlib.Core.Option.{Option, none, some}
use native.Mathlib.Omega.{arith}
use z_courier.Base.Tests.{Eq, ◌==◌, if◌then◌else◌, Bool-cases}
use z_courier.Base.Lists.{length, All, count}
use mathlib.Core.Bool.{Bool}

abbrev pub Map {ℓ} : Type ℓ → Type ℓ → Type ℓ
Map K V = List (K × V)

module _ {ℓ} {K V : Type ℓ} where
  -- The values in the order of a `range` loop.
  abbrev pub values : Map K V → List V
  values = map (λ p. p.1)

module _ {ℓ} {K V : Type ℓ} ⦃e : Eq K⦄ where
  -- `v, ok := m[k]`
  unfoldable pub lookup : K → Map K V → Option V
  lookup k [] = none
  lookup k ((j, v) ∷ m) = if j == k then some v else lookup k m

  -- `m[k] = v`
  unfoldable pub insert : K → V → Map K V → Map K V
  insert k v [] = (k, v) ∷ []
  insert k v ((j, w) ∷ m) = if j == k then (j, v) ∷ m else (j, w) ∷ insert k v m

  -- `delete(m, k)`
  unfoldable pub delete : K → Map K V → Map K V
  delete k [] = []
  delete k ((j, w) ∷ m) = if j == k then delete k m else (j, w) ∷ delete k m

  pub lookup-insert :
      (k j : K) (v : V) (m : Map K V)
      → lookup j (insert k v m) ≡ (if k == j then some v else lookup j m)
  unfolding insert lookup
  lookup-insert k j v [] = refl
  lookup-insert k j v ((h, u) ∷ rest) =
      ground (arith, lookup-insert k j v rest, e.beq_iff h k, e.beq_iff h j, e.beq_iff k j)

  pub lookup-delete :
      (k j : K) (m : Map K V) → lookup j (delete k m) ≡ (if k == j then none else lookup j m)
  unfolding lookup delete
  lookup-delete k j [] = ground arith
  lookup-delete k j ((i, w) ∷ m) =
      ground (arith, e.beq_iff k j, e.beq_iff i k, e.beq_iff i j, lookup-delete k j m)

  pub lookup-insert_self : (k : K) (v : V) (m : Map K V) → lookup k (insert k v m) ≡ some v
  lookup-insert_self k v m = ground (arith, lookup-insert k k v m, e.beq_iff k k)

  pub lookup-insert_ne :
      (k j : K) (v : V) (m : Map K V) → k ≢ j → lookup j (insert k v m) ≡ lookup j m
  lookup-insert_ne k j v m h = ground (arith, lookup-insert k j v m, e.beq_iff k j)

  pub lookup-delete_self : (k : K) (m : Map K V) → lookup k (delete k m) ≡ none
  lookup-delete_self k m = ground (arith, lookup-delete k k m, e.beq_iff k k)

  pub lookup-delete_ne : (k j : K) (m : Map K V) → k ≢ j → lookup j (delete k m) ≡ lookup j m
  lookup-delete_ne k j m h = ground (arith, lookup-delete k j m, e.beq_iff k j)

  pub length-insert :
      (k : K) (v : V) (m : Map K V)
      → length (insert k v m) ≡ (elim (lookup k m) [ none ↦ length m + 1 | some _ ↦ length m ])
  unfolding lookup insert
  length-insert k v [] = omega arith
  length-insert k v ((j, w) ∷ m) = ground (arith, length-insert k v m)

  pub length-delete-le : (k : K) (m : Map K V) → length (delete k m) ≤ length m
  unfolding delete
  length-delete-le k [] = omega arith
  length-delete-le k ((j, w) ∷ m) = ground (arith, length-delete-le k m)

  pub length-delete-lt :
      (k : K) (v : V) (m : Map K V) → lookup k m ≡ some v → length (delete k m) < length m
  unfolding lookup delete
  length-delete-lt k v [] h = ground arith
  length-delete-lt k v ((j, w) ∷ m) h = ground (arith, length-delete-lt k v m, length-delete-le k m)

  pub insert_same : (k : K) (v : V) (m : Map K V) → lookup k m ≡ some v → insert k v m ≡ m
  unfolding lookup insert
  insert_same k v [] h = ground arith
  insert_same k v ((j, w) ∷ m) h = ground (arith, insert_same k v m)

  pub delete_absent : (k : K) (m : Map K V) → lookup k m ≡ none → delete k m ≡ m
  unfolding lookup delete
  delete_absent k [] h = refl
  delete_absent k ((j, w) ∷ m) h = ground (arith, delete_absent k m)

  -- No key stands twice.
  abbrev pub Distinct : Map K V → Type ℓ
  Distinct [] = Unit
  Distinct ((k, v) ∷ m) = (lookup k m ≡ none) × Distinct m

  pub insert-Distinct : (k : K) (v : V) (m : Map K V) → Distinct m → Distinct (insert k v m)
  unfolding lookup insert
  insert-Distinct k v [] d = (refl, tt)
  insert-Distinct k v ((j, w) ∷ m) d = elim (Bool-cases (j == k)) [
    | inl hit ↦ rw hit d
    | inr miss ↦ rw miss (
      ground (arith, lookup-insert k j v m, e.beq_iff k j, e.beq_iff j k),
      insert-Distinct k v m d.1,
    )
  ]

  pub delete-Distinct : (k : K) (m : Map K V) → Distinct m → Distinct (delete k m)
  unfolding lookup delete
  delete-Distinct k [] d = tt
  delete-Distinct k ((j, w) ∷ m) d = elim (Bool-cases (j == k)) [
    | inl hit ↦ rw hit (delete-Distinct k m d.1)
    | inr miss ↦ rw miss (ground (arith, lookup-delete k j m), delete-Distinct k m d.1)
  ]

  -- Every binding of the map has the property.
  abbrev pub MapAll {κ} : (K → V → Type κ) → Map K V → Type (ℓ ⊔ κ)
  MapAll P m = (k : K) (v : V) → lookup k m ≡ some v → P k v

  pub MapAll-insert {κ} :
      (P : K → V → Type κ) (k : K) (v : V) (m : Map K V)
      → P k v
      → MapAll P m
      → MapAll P (insert k v m)
  MapAll-insert P k v m p h j w found = elim (Bool-cases (k == j)) [
    | inl hit ↦
        let same : k ≡ j = (e.beq_iff k j).0 hit in
        let got : v ≡ w = ground (arith, lookup-insert k j v m) in subst₂ P same got p
    | inr miss ↦ h j w (ground (arith, lookup-insert k j v m))
  ]

  pub MapAll-delete {κ} :
      (P : K → V → Type κ) (k : K) (m : Map K V) → MapAll P m → MapAll P (delete k m)
  MapAll-delete P k m h j w found = h j w (ground (arith, lookup-delete k j m))

  -- A loop over the values meets what the keys find.
  pub All-values {κ} :
      (P : V → Type κ) (m : Map K V) → Distinct m → MapAll (λ _ v. P v) m → All P (values m)
  unfolding lookup
  All-values P [] d h = tt
  All-values P ((k, v) ∷ m) d h = (
    h k v (ground (arith, e.beq_iff k k)),
    All-values P m d.1 (λ j w found. h j w (ground (arith, e.beq_iff k j))),
  )

  -- How a count over the values changes with a write.
  pub count-insert_absent :
      (p : V → Bool) (k : K) (v : V) (m : Map K V)
      → lookup k m ≡ none
      → count p (values (insert k v m)) ≡ count p (values m) + (if p v then 1 else 0)
  unfolding lookup insert
  count-insert_absent p k v [] h = ground arith
  count-insert_absent p k v ((j, w) ∷ m) h = ground (arith, count-insert_absent p k v m)

  pub count-insert_present :
      (p : V → Bool) (k : K) (v old : V) (m : Map K V)
      → lookup k m ≡ some old
      → count p (values (insert k v m)) + (if p old then 1 else 0)
        ≡ count p (values m) + (if p v then 1 else 0)
  unfolding lookup insert
  count-insert_present p k v old [] h = ground arith
  count-insert_present p k v old ((j, w) ∷ m) h = ground (arith, count-insert_present p k v old m)
