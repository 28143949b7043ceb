-- ===== src/Prelude/GoMap.antt =====
-- Go's maps as association lists. The order of the entries is the order in which a `range` visits
-- them; Go leaves it open, and the theorems hold for every order.
use f5_ipam_ctlr.Prelude.{is_empty, string_eq}
use mathlib.Core.Bool.{Bool, false, true}
use mathlib.Core.List.{List, [], ◌∷◌}
use mathlib.Core.Option.{Option, none, some}
use mathlib.Core.Path.{refl, ◌≡◌}
use native.Mathlib.Omega.{arith}
use f5_ipam_ctlr.Prelude.Equality.{==_iff, Comparable, if◌then◌else◌, ◌==◌}

abbrev pub GoMap {ℓ κ} : Type ℓ → Type κ → Type (ℓ ⊔ κ)
GoMap K V = List (K × V)

abbrev pub is_some {ℓ} : {A : Type ℓ} → Option A → Bool
is_some none = false
is_some (some a) = true

module _ {ℓ κ} {K : Type ℓ} {V : Type κ} ⦃cmp : Comparable K⦄ where
  -- `delete(m, key)`
  unfoldable pub delete : K → GoMap K V → GoMap K V
  delete key [] = []
  delete key ((found, old) ∷ others) =
      let kept = delete key others in if found == key then kept else (found, old) ∷ kept

  -- `value, ok := m[key]`
  unfoldable pub lookup : K → GoMap K V → Option V
  lookup key [] = none
  lookup key ((found, value) ∷ others) = if found == key then some value else lookup key others

  pub lookup-delete :
      (key read : K) (m : GoMap K V)
      → lookup read (delete key m) ≡ (if key == read then none else lookup read m)
  unfolding lookup delete
  lookup-delete key read [] = ground arith
  lookup-delete key read ((found, old) ∷ others) =
      ground
        (arith, lookup-delete key read others, ==_iff found key, ==_iff found read, ==_iff key read)

  -- No key stands twice.
  abbrev pub IsMap : GoMap K V → Type (ℓ ⊔ κ)
  IsMap [] = Unit
  IsMap ((key, value) ∷ others) = (lookup key others ≡ none) × IsMap others

  -- `m[key] = value`
  unfoldable pub insert : K → V → GoMap K V → GoMap K V
  insert key value [] = (key, value) ∷ []
  insert key value ((found, old) ∷ others) =
      let rest = insert key value others in
      if found == key then (found, value) ∷ others else (found, old) ∷ rest

  pub lookup-insert :
      (key read : K) (value : V) (m : GoMap K V)
      → lookup read (insert key value m) ≡ (if key == read then some value else lookup read m)
  unfolding lookup insert
  lookup-insert key read value [] = refl
  lookup-insert key read value ((found, old) ∷ others) = ground (
    arith,
    lookup-insert key read value others,
    ==_iff found key,
    ==_iff found read,
    ==_iff key read,
  )

  pub insert-IsMap : (k : K) (v : V) (m : GoMap K V) → IsMap m → IsMap (insert k v m)
  unfolding insert lookup
  insert-IsMap k v [] h = (refl, tt)
  insert-IsMap k v ((i, w) ∷ m) h =
      ground (arith, ==_iff k i, ==_iff i k, lookup-insert k i v m, insert-IsMap k v m h.1)

  pub delete-IsMap : (k : K) (m : GoMap K V) → IsMap m → IsMap (delete k m)
  unfolding delete lookup
  delete-IsMap k [] h = tt
  delete-IsMap k ((i, w) ∷ m) h =
      ground (arith, ==_iff k i, lookup-delete k i m, delete-IsMap k m h.1)

-- `_, found := m[k]`
abbrev pub has {ℓ κ} : {K : Type ℓ} {V : Type κ} ⦃cmp : Comparable K⦄ → K → GoMap K V → Bool
has k m = is_some (lookup k m)

module _ {ℓ κ} {K : Type ℓ} {V : Type κ} ⦃cmp : Comparable K⦄ where
  pub delete_absent : (k : K) (m : GoMap K V) → lookup k m ≡ none → delete k m ≡ m
  unfolding lookup delete
  delete_absent k [] h = refl
  delete_absent k ((j, v) ∷ m) h = ground (arith, delete_absent k m)

  pub lookup-insert_self : (k : K) (v : V) (m : GoMap K V) → lookup k (insert k v m) ≡ some v
  lookup-insert_self k v m = ground (arith, lookup-insert k k v m, ==_iff k k)

  pub lookup_empty : (k : K) (m : GoMap K V) → is_empty m ≡ true → lookup k m ≡ none
  unfolding lookup
  lookup_empty k [] h = refl
  lookup_empty k (x ∷ m) h = cc

  pub insert_same : (k : K) (v : V) (m : GoMap K V) → lookup k m ≡ some v → insert k v m ≡ m
  unfolding lookup insert
  insert_same k v [] h = cc
  insert_same k v ((j, w) ∷ m) h = ground (arith, insert_same k v m)
