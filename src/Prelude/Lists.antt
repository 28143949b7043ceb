-- ===== src/Prelude/Lists.antt =====
-- Slices as lists: the helper `contains` that three packages of the program declare alike, lengths
-- over the native numbers, and `sort.Strings`.
use Prim.Native.Nat.{◌-◌, ℕ, zero, compare as number_compare, suc, ◌+◌, ◌<◌, Ordering}
use Prim.Native.String.{String, compare}
use mathlib.Core.Path.{◌≡◌, refl}
use mathlib.Core.Option.{Option, none, some}
use mathlib.Core.Bool.{◌&&◌, Bool, true, false, ◌||◌}
use mathlib.Core.List.{List, [], ◌∷◌, ◌++◌}
use native.Mathlib.Omega.{arith}
use f5_ipam_ctlr.Prelude.Equality.{str_beq_iff, if◌then◌else◌, string_eq, ◌==◌}

module _ {ℓ} {A : Type ℓ} where
  abbrev pub length : List A → ℕ
  length [] = 0
  length (x ∷ xs) = suc (length xs)

  pub length-append : (xs ys : List A) → length (xs ++ ys) ≡ length xs + length ys
  length-append [] ys = omega arith
  length-append (x ∷ xs) ys = omega (arith, length-append xs ys)

-- `func contains(slice []string, val string) bool`
unfoldable pub contains : List String → String → Bool
contains [] val = false
contains (s ∷ slice) val = if s == val then true else contains slice val

pub contains-append :
    (xs ys : List String) (h : String) → contains (xs ++ ys) h ≡ contains xs h || contains ys h
unfolding contains
contains-append [] ys h = refl
contains-append (x ∷ xs) ys h = ground (arith, contains-append xs ys h)

str_leb : String → String → Bool
str_leb s t = elim (compare s t) [ Ordering.gt ↦ false | _ ↦ true ]

insert_sorted : String → List String → List String
unfolding str_leb
insert_sorted x [] = x ∷ []
insert_sorted x (y ∷ ys) = if str_leb x y then x ∷ y ∷ ys else y ∷ insert_sorted x ys

-- `sort.Strings`, which orders a slice by the bytes of its strings.
unfoldable pub sort : List String → List String
unfolding insert_sorted
sort [] = []
sort (x ∷ xs) = insert_sorted x (sort xs)

contains-insert_sorted :
    (x : String) (ys : List String) (h : String)
    → contains (insert_sorted x ys) h ≡ contains (x ∷ ys) h
unfolding insert_sorted contains
contains-insert_sorted x [] h = refl
contains-insert_sorted x (y ∷ ys) h = ground (arith, contains-insert_sorted x ys h)

-- Sorting keeps the elements.
pub contains-sort : (xs : List String) (h : String) → contains (sort xs) h ≡ contains xs h
unfolding sort contains
contains-sort [] h = refl
contains-sort (x ∷ xs) h = ground (arith, contains-insert_sorted x (sort xs) h, contains-sort xs h)

length-insert_sorted :
    (x : String) (ys : List String) → length (insert_sorted x ys) ≡ suc (length ys)
unfolding insert_sorted
length-insert_sorted x [] = refl
length-insert_sorted x (y ∷ ys) = ground (arith, length-insert_sorted x ys)

pub length-sort : (xs : List String) → length (sort xs) ≡ length xs
unfolding sort
length-sort [] = refl
length-sort (x ∷ xs) = omega (arith, length-insert_sorted x (sort xs), length-sort xs)

-- `len(xs) == 0`
abbrev pub is_empty {ℓ} : {A : Type ℓ} → List A → Bool
is_empty [] = true
is_empty (x ∷ xs) = false

-- How often a host stands in a slice.
unfoldable pub occurrences : List String → String → ℕ
occurrences [] host = 0
occurrences (x ∷ xs) host = (if x == host then 1 else 0) + occurrences xs host

pub occurrences-append :
    (xs ys : List String) (h : String)
    → occurrences (xs ++ ys) h ≡ occurrences xs h + occurrences ys h
unfolding occurrences
occurrences-append [] ys h = omega arith
occurrences-append (x ∷ xs) ys h = omega (arith, occurrences-append xs ys h)

pub occurrences_absent :
    (xs : List String) (h : String) → contains xs h ≡ false → occurrences xs h ≡ 0
unfolding occurrences contains
occurrences_absent [] h e = refl
occurrences_absent (x ∷ xs) h e = ground (arith, occurrences_absent xs h)

pub occurrences_present :
    (xs : List String) (h : String) → contains xs h ≡ true → 0 < occurrences xs h
unfolding occurrences contains
occurrences_present [] h e = cc
occurrences_present (x ∷ xs) h e = ground (arith, occurrences_present xs h)

abbrev pub first_or {ℓ} : {A : Type ℓ} → A → List A → A
first_or d [] = d
first_or d (x ∷ xs) = x

-- `func removeElement(s []string, val string) []string`: `append(s[:i], s[i+1:]...)` at the first
-- index where the element stands.
unfoldable pub remove_element : List String → String → List String
remove_element [] val = []
remove_element (ele ∷ s) val =
    let rest = remove_element s val in if ele == val then s else ele ∷ rest

pub occurrences-remove_element :
    (xs : List String) (x h : String)
    → occurrences (remove_element xs x) h
      ≡ occurrences xs h - (if contains xs x && x == h then 1 else 0)
unfolding occurrences remove_element contains
occurrences-remove_element [] x h = omega arith
occurrences-remove_element (y ∷ xs) x h = ground (
  arith,
  str_beq_iff y x,
  str_beq_iff x h,
  str_beq_iff y h,
  occurrences-remove_element xs x h,
  occurrences_present xs x,
)

pub occurrences_nil : (h : String) → occurrences [] h ≡ 0
unfolding occurrences
occurrences_nil h = refl

abbrev pub head? {ℓ} : {A : Type ℓ} → List A → Option A
head? [] = none
head? (x ∷ xs) = some x

-- An element at an index, and a write there; both leave indices out of range alone.
module _ {ℓ} {A : Type ℓ} where
  abbrev pub get_elem? : List A → ℕ → Option A
  get_elem? [] i = none
  get_elem? (x ∷ xs) zero = some x
  get_elem? (x ∷ xs) (suc i) = get_elem? xs i

  abbrev pub set : List A → ℕ → A → List A
  set [] i v = []
  set (x ∷ xs) zero v = v ∷ xs
  set (x ∷ xs) (suc i) v = x ∷ set xs i v

-- They compute to `compare`, which the tactics read.
abbrev pub ltb : ℕ → ℕ → Bool
ltb m n = elim (number_compare m n) [ Ordering.lt ↦ true | _ ↦ false ]

abbrev pub leb : ℕ → ℕ → Bool
leb m n = elim (number_compare m n) [ Ordering.gt ↦ false | _ ↦ true ]

abbrev pub eqb : ℕ → ℕ → Bool
eqb m n = elim (number_compare m n) [ Ordering.eq ↦ true | _ ↦ false ]

module _ {ℓ} {A : Type ℓ} where
  pub length-set : (xs : List A) (i : ℕ) (v : A) → length (set xs i v) ≡ length xs
  length-set [] i v = refl
  length-set (x ∷ xs) zero v = refl
  length-set (x ∷ xs) (suc i) v = omega (arith, length-set xs i v)

  pub get_elem?-set :
      (xs : List A) (i j : ℕ) (v : A)
      → i < length xs
      → get_elem? (set xs i v) j ≡ (if eqb i j then some v else get_elem? xs j)
  get_elem?-set [] i j v h = absurd (omega arith)
  get_elem?-set (x ∷ xs) zero zero v h = refl
  get_elem?-set (x ∷ xs) zero (suc j) v h = ground arith
  get_elem?-set (x ∷ xs) (suc i) zero v h = ground arith
  get_elem?-set (x ∷ xs) (suc i) (suc j) v h = ground (arith, get_elem?-set xs i j v)
