-- ===== src/Ids/Canonical.antt =====
-- `canonicalIDs` of backend/internal/service/cache_truth.go against an independent description.
use yun_chat.Prelude.{ℕ, ◌<◌, ◌≡◌, refl, sym, ◌∙◌, true, false, ◌&&◌, List, [], ◌∷◌, ltb, arith}
use yun_chat.Ids.{has, seen_positive, canonical_ids, same_ids}
use yun_chat.Ids.Sorting.{
  Above, IsAscending, has-sort_ids, sort_ids-IsAscending, has-seen_positive,
  seen_positive-AreDistinct,
}

pub canonical_ids-IsAscending : (ids : List ℕ) → IsAscending (canonical_ids ids)
unfolding canonical_ids
canonical_ids-IsAscending ids =
    sort_ids-IsAscending (seen_positive ids) (seen_positive-AreDistinct ids)

pub has-canonical_ids : (x : ℕ) (ids : List ℕ) → has x (canonical_ids ids) ≡ (ltb 0 x && has x ids)
unfolding canonical_ids
has-canonical_ids x ids = has-sort_ids x (seen_positive ids) ∙ has-seen_positive x ids

Above-missing : (x : ℕ) (ys : List ℕ) → Above x ys → has x ys ≡ false
Above-missing x [] a = refl
Above-missing x (y ∷ ys) a = ground (arith, Above-missing x ys a.1)

Above-at : (b x : ℕ) (ys : List ℕ) → Above b ys → has x ys ≡ true → b < x
Above-at b x [] a h = absurd (cc)
Above-at b x (y ∷ ys) a h = ground (arith, Above-at b x ys a.1)

heads-eq :
    (x y : ℕ) (xs ys : List ℕ)
    → Above x xs
    → Above y ys
    → has x (y ∷ ys) ≡ true
    → has y (x ∷ xs) ≡ true
    → x ≡ y
heads-eq x y xs ys a b h k = ground (arith, Above-at x y xs a, Above-at y x ys b)

-- Ascending lists with the same elements are equal.
pub ascending-eq :
    (xs ys : List ℕ) → IsAscending xs → IsAscending ys → ((x : ℕ) → has x xs ≡ has x ys) → xs ≡ ys
ascending-eq [] [] s t h = refl
ascending-eq [] (y ∷ ys) s t h = absurd (ground (arith, h y))
ascending-eq (x ∷ xs) [] s t h = absurd (ground (arith, h x))
ascending-eq (x ∷ xs) (y ∷ ys) s t h =
    let e : x ≡ y = heads-eq x y xs ys s.0 t.0 (ground (arith, h x)) (ground (arith, h y)) in
    let tails : xs ≡ ys =
      ascending-eq xs ys s.1 t.1
        (λ z. ground (arith, h z, e, Above-missing x xs s.0, Above-missing y ys t.0)) in
    cc

-- The canonical form is the one strictly ascending list that holds exactly the positive identifiers
-- of the given list.
pub canonical_ids_unique :
    (ids xs : List ℕ)
    → IsAscending xs
    → ((x : ℕ) → has x xs ≡ (ltb 0 x && has x ids))
    → canonical_ids ids ≡ xs
canonical_ids_unique ids xs s h =
    ascending-eq (canonical_ids ids) xs (canonical_ids-IsAscending ids) s
      (λ x. has-canonical_ids x ids ∙ sym (h x))

pub same_ids_refl : (xs : List ℕ) → same_ids xs xs ≡ true
unfolding same_ids
same_ids_refl [] = refl
same_ids_refl (x ∷ xs) = ground (arith, same_ids_refl xs)

pub eq_of-same_ids : (xs ys : List ℕ) → same_ids xs ys ≡ true → xs ≡ ys
unfolding same_ids
eq_of-same_ids [] [] h = refl
eq_of-same_ids [] (y ∷ ys) h = absurd (cc)
eq_of-same_ids (x ∷ xs) [] h = absurd (cc)
eq_of-same_ids (x ∷ xs) (y ∷ ys) h = ground (arith, eq_of-same_ids xs ys)
