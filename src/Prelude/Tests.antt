-- ===== src/Prelude/Tests.antt =====
-- Boolean tests on the native numbers, the conditional, and case lemmas on computed values.
use Prim.Native.Nat.{ℕ, ◌<◌, compare, Ordering}
use mathlib.Core.Path.{◌≡◌, refl}
use mathlib.Core.Logic.{◌↔◌, ◌⊎◌, inl, inr}
use mathlib.Core.Bool.{Bool, true, false}
use mathlib.Core.Option.{Option, none, some}
use native.Mathlib.Omega.{arith}

abbrev pub ltb : ℕ → ℕ → Bool
ltb a b = elim (compare a b) [ Ordering.lt ↦ true | _ ↦ false ]

abbrev pub leb : ℕ → ℕ → Bool
leb a b = elim (compare a b) [ Ordering.gt ↦ false | _ ↦ true ]

infix 50 ◌==◌
abbrev pub ◌==◌ : ℕ → ℕ → Bool
a == b = elim (compare a b) [ Ordering.eq ↦ true | _ ↦ false ]

infix 1 if◌then◌else◌
abbrev pub if◌then◌else◌ {ℓ} : {A : Type ℓ} → Bool → A → A → A
if true then x else y = x
if false then x else y = y

pub ==_iff : (a b : ℕ) → ((a == b) ≡ true) ↔ (a ≡ b)
==_iff a b = ground arith

pub Bool-cases : (b : Bool) → (b ≡ true) ⊎ (b ≡ false)
Bool-cases true = inl refl
Bool-cases false = inr refl

pub Option-cases {ℓ} : {A : Type ℓ} (o : Option A) → (o ≡ none) ⊎ ((a : A) × (o ≡ some a))
Option-cases none = inl refl
Option-cases (some a) = inr (a, refl)

abbrev pub is_some {ℓ} : {A : Type ℓ} → Option A → Bool
is_some none = false
is_some (some a) = true

-- The two ways on from a computed value, each with its equation.
module _ {ℓ κ} {A : Type ℓ} {P : Type κ} where
  pub on_option : (o : Option A) → (o ≡ none → P) → ((a : A) → o ≡ some a → P) → P
  on_option none missing found = missing refl
  on_option (some a) missing found = found a refl

module _ {κ} {P : Type κ} where
  pub on_test : (b : Bool) → (b ≡ false → P) → (b ≡ true → P) → P
  on_test true fails holds = holds refl
  on_test false fails holds = fails refl

  pub unless : (b : Bool) → (b ≡ true → P) → (b ≡ false → P) → P
  unless true holds fails = holds refl
  unless false holds fails = fails refl

  pub unless_le : (a b : ℕ) → (leb a b ≡ true → P) → (b < a → leb a b ≡ false → P) → P
  unless_le a b holds fails = unless (leb a b) holds (λ e. fails (ground arith) e)
