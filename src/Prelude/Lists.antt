-- ===== src/Prelude/Lists.antt =====
-- Lists measured by native numbers, and selection by a Boolean test.
use Prim.Native.Nat.{ℕ, zero, suc, ◌+◌, ◌≤◌}
use mathlib.Core.Path.{◌≡◌, refl}
use mathlib.Core.Logic.{inl, inr}
use mathlib.Core.Bool.{Bool, true, false, ◌||◌}
use mathlib.Core.List.{List, [], ◌∷◌, ◌++◌}
use mathlib.Core.Option.{Option, none, some}
use native.Mathlib.Omega.{arith}
use yun_chat.Prelude.Tests.{if◌then◌else◌, Bool-cases}

module _ {ℓ} {A : Type ℓ} where
  abbrev pub length : List A → ℕ
  length [] = 0
  length (x ∷ xs) = suc (length xs)

  -- The elements that pass the test.
  abbrev pub keep : (A → Bool) → List A → List A
  keep p [] = []
  keep p (x ∷ xs) = let rest = keep p xs in if p x then x ∷ rest else rest

  -- Is there an element that passes the test?
  abbrev pub some_passes : (A → Bool) → List A → Bool
  some_passes p [] = false
  some_passes p (x ∷ xs) = p x || some_passes p xs

  -- The elements that fail the test.
  abbrev pub drop_passing : (A → Bool) → List A → List A
  drop_passing p [] = []
  drop_passing p (x ∷ xs) = let rest = drop_passing p xs in if p x then rest else x ∷ rest

  -- Rewrite the elements that pass the test.
  abbrev pub update_where : (A → Bool) → (A → A) → List A → List A
  update_where p f [] = []
  update_where p f (x ∷ xs) = (if p x then f x else x) ∷ update_where p f xs

  pub length-append : (xs ys : List A) → length (xs ++ ys) ≡ length xs + length ys
  length-append [] ys = omega arith
  length-append (x ∷ xs) ys = omega (arith, length-append xs ys)

  pub length-keep-le : (p : A → Bool) (xs : List A) → length (keep p xs) ≤ length xs
  length-keep-le p [] = omega arith
  length-keep-le p (x ∷ xs) = ground (arith, length-keep-le p xs)

  -- The first element that passes the test.
  abbrev pub find_first : (A → Bool) → List A → Option A
  find_first p [] = none
  find_first p (x ∷ xs) = if p x then some x else find_first p xs

  abbrev pub count_where : (A → Bool) → List A → ℕ
  count_where p [] = 0
  count_where p (x ∷ xs) = (if p x then 1 else 0) + count_where p xs

  abbrev pub take : ℕ → List A → List A
  take zero xs = []
  take (suc n) [] = []
  take (suc n) (x ∷ xs) = x ∷ take n xs

  pub length-take-le : (n : ℕ) (xs : List A) → length (take n xs) ≤ n
  length-take-le zero xs = omega arith
  length-take-le (suc n) [] = omega arith
  length-take-le (suc n) (x ∷ xs) = omega (arith, length-take-le n xs)

  abbrev pub All {κ} : (A → Type κ) → List A → Type κ
  All P [] = Unit
  All P (x ∷ xs) = P x × All P xs

  pub All-append {κ} : (P : A → Type κ) (xs ys : List A) → All P xs → All P ys → All P (xs ++ ys)
  All-append P [] ys h k = k
  All-append P (x ∷ xs) ys h k = (h.0, All-append P xs ys h.1 k)

  pub All-map {κ ι} :
      (P : A → Type κ) (Q : A → Type ι) (xs : List A) → ((x : A) → P x → Q x) → All P xs → All Q xs
  All-map P Q [] f h = tt
  All-map P Q (x ∷ xs) f h = (f x h.0, All-map P Q xs f h.1)

  pub All-update_where {κ} :
      (P : A → Type κ) (p : A → Bool) (f : A → A) (xs : List A)
      → ((x : A) → P x → P (f x))
      → All P xs
      → All P (update_where p f xs)
  All-update_where P p f [] keeps h = tt
  All-update_where P p f (x ∷ xs) keeps h = (P-if (p x) h.0, All-update_where P p f xs keeps h.1)
    where
      P-if : (b : Bool) → P x → P (if b then f x else x)
      P-if true px = keeps x px
      P-if false px = px

  -- An element that passes `p` among those of `P` becomes one that passes `q`.
  pub some_passes-update {κ} :
      (P : A → Type κ) (p q t : A → Bool) (f : A → A) (xs : List A)
      → ((x : A) → P x → p x ≡ true → q (if t x then f x else x) ≡ true)
      → All P xs
      → some_passes p xs ≡ true
      → some_passes q (update_where t f xs) ≡ true
  some_passes-update P p q t f [] h a s = s
  some_passes-update P p q t f (x ∷ xs) h a s = elim (Bool-cases (p x)) [
    | inl e ↦ rw (h x a.0 e) refl
    | inr e ↦ rw (some_passes-update P p q t f xs h a.1 (rw e at s)) (or_true _)
  ]
    where
      or_true : (b : Bool) → (b || true) ≡ true
      or_true true = refl
      or_true false = refl

  pub some_passes-append_left :
      (p : A → Bool) (xs ys : List A) → some_passes p xs ≡ true → some_passes p (xs ++ ys) ≡ true
  some_passes-append_left p [] ys h = absurd (cc)
  some_passes-append_left p (x ∷ xs) ys h = ground (arith, some_passes-append_left p xs ys)

  pub some_passes-append_right :
      (p : A → Bool) (xs ys : List A) → some_passes p ys ≡ true → some_passes p (xs ++ ys) ≡ true
  some_passes-append_right p [] ys h = h
  some_passes-append_right p (x ∷ xs) ys h = ground (arith, some_passes-append_right p xs ys)
