-- ===== src/Ids/Sorting.antt =====
-- Elements and order of `sort_ids` and `seen_positive`, the two halves of `canonicalIDs`.
use yun_chat.Prelude.{ℕ, ◌<◌, ◌≡◌, refl, false, ◌&&◌, ◌||◌, List, [], ◌∷◌, ◌==◌, ltb, arith}
use yun_chat.Ids.{has, seen_positive, insert_id, sort_ids}

-- Every element is above `x`.
abbrev pub Above : ℕ → List ℕ → Type 0
Above x [] = Unit {0}
Above x (y ∷ ys) = (x < y) × Above x ys

abbrev pub IsAscending : List ℕ → Type 0
IsAscending [] = Unit {0}
IsAscending (x ∷ xs) = Above x xs × IsAscending xs

pub Above-trans : (x y : ℕ) (ys : List ℕ) → x < y → Above y ys → Above x ys
Above-trans x y [] h a = tt
Above-trans x y (z ∷ zs) h a = (omega arith, Above-trans x y zs h a.1)

pub has-insert_id : (x y : ℕ) (ys : List ℕ) → has x (insert_id y ys) ≡ (y == x || has x ys)
unfolding insert_id
has-insert_id x y [] = refl
has-insert_id x y (z ∷ zs) = ground (arith, has-insert_id x y zs)

Above-insert_id : (b x : ℕ) (ys : List ℕ) → b < x → Above b ys → Above b (insert_id x ys)
unfolding insert_id
Above-insert_id b x [] h a = (h, tt)
Above-insert_id b x (y ∷ ys) h a = ground (arith, Above-insert_id b x ys)

pub insert_id-IsAscending :
    (x : ℕ) (ys : List ℕ) → has x ys ≡ false → IsAscending ys → IsAscending (insert_id x ys)
unfolding insert_id
insert_id-IsAscending x [] new s = (tt, tt)
insert_id-IsAscending x (y ∷ ys) new s =
    ground (arith, insert_id-IsAscending x ys, Above-insert_id y x ys, Above-trans x y ys)

pub has-sort_ids : (x : ℕ) (xs : List ℕ) → has x (sort_ids xs) ≡ has x xs
unfolding sort_ids
has-sort_ids x [] = refl
has-sort_ids x (y ∷ ys) = ground (arith, has-insert_id x y (sort_ids ys), has-sort_ids x ys)

-- No element occurs again after itself.
abbrev pub AreDistinct : List ℕ → Type 0
AreDistinct [] = Unit {0}
AreDistinct (x ∷ xs) = (has x xs ≡ false) × AreDistinct xs

pub sort_ids-IsAscending : (xs : List ℕ) → AreDistinct xs → IsAscending (sort_ids xs)
unfolding sort_ids
sort_ids-IsAscending [] d = tt
sort_ids-IsAscending (x ∷ xs) d =
    insert_id-IsAscending x (sort_ids xs) (ground (arith, has-sort_ids x xs))
      (sort_ids-IsAscending xs d.1)

pub has-seen_positive : (x : ℕ) (ids : List ℕ) → has x (seen_positive ids) ≡ (ltb 0 x && has x ids)
unfolding seen_positive
has-seen_positive x [] = ground arith
has-seen_positive x (y ∷ ys) = ground (arith, has-seen_positive x ys, has-seen_positive y ys)

pub seen_positive-AreDistinct : (ids : List ℕ) → AreDistinct (seen_positive ids)
unfolding seen_positive
seen_positive-AreDistinct [] = tt
seen_positive-AreDistinct (x ∷ xs) = ground (arith, seen_positive-AreDistinct xs)
