-- ===== src/Prelude/Equality.antt =====
-- Go's `==` on strings and on structs of strings, as an interface with its law.
use mathlib.Core.Path.{◌≡◌, refl}
use mathlib.Core.Logic.{◌↔◌, ◌⊎◌, inl, inr}
use mathlib.Core.Bool.{Bool, true, false}
use mathlib.Core.Option.{Option, none, some}
use Prim.Native.String.{String}
use text.Mathlib.Text.{◌==◌ as str_eq}
use text.Mathlib.TextEquality.{eq_iff}

infix 1 if◌then◌else◌
abbrev pub if◌then◌else◌ {ℓ} : {A : Type ℓ} → Bool → A → A → A
if true then x else y = x
if false then x else y = y

-- Shut, so that the tactics take a comparison of texts as one unknown.
unfoldable pub str_beq : String → String → Bool
str_beq = str_eq

pub str_beq_iff : (s t : String) → (str_beq s t ≡ true) ↔ (s ≡ t)
unfolding str_beq
str_beq_iff s t = eq_iff s t

pub str_beq_refl : (s : String) → str_beq s s ≡ true
str_beq_refl s = (str_beq_iff s s).1 refl

-- A Go type whose values `==` compares, and what the comparison tells.
pub record Comparable {ℓ} (T : Type ℓ) : Type ℓ where
  pub equals : T → T → Bool
  pub equals_iff : (x y : T) → (equals x y ≡ true) ↔ (x ≡ y)

instance abbrev pub string_eq : Comparable String
string_eq = record { equals = str_beq; equals_iff = str_beq_iff }

infix 50 ◌==◌
abbrev pub ◌==◌ {ℓ} : {T : Type ℓ} ⦃cmp : Comparable T⦄ (x y : T) → Bool
◌==◌ ⦃cmp⦄ x y = cmp.equals x y

pub ==_iff {ℓ} : {T : Type ℓ} ⦃cmp : Comparable T⦄ (x y : T) → (x == y ≡ true) ↔ (x ≡ y)
==_iff ⦃cmp⦄ = cmp.equals_iff

-- To split on a computed test and keep the equation.
pub Bool-cases : (b : Bool) → (b ≡ true) ⊎ (b ≡ false)
Bool-cases true = inl refl
Bool-cases false = inr refl

pub Option-cases {ℓ} : {A : Type ℓ} (o : Option A) → (o ≡ none) ⊎ ((a : A) × (o ≡ some a))
Option-cases none = inl refl
Option-cases (some a) = inr (a, refl)
