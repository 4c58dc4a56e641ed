-- ===== src/CacheTruth/Paging.antt =====
-- `forEachUser` and `forEachGroup` of backend/internal/service/cache_truth.go over `ListUserIDs` and
-- `ListGroupIDs` of backend/internal/repository/cache_mysql.go: every owner, page by page.
--
-- The identifiers in MySQL are an ascending list that stays as it is during the walk, and no call fails; the
-- result is the sequence of the visited identifiers.
use yun_chat.Prelude.{
  ℕ, zero, suc, ◌+◌, ◌<◌, ◌≤◌, ◌≡◌, refl, sym, ap, ◌∙◌, Option, none, some, List, [], ◌∷◌, ◌++◌,
  ltb, keep, take, length, length-take-le, arith, if◌then◌else◌, unless,
}
use yun_chat.Outbox.{normalize_cache_page_limit}
use yun_chat.Ids.Sorting.{Above, IsAscending}

-- `WHERE id > ? ORDER BY id LIMIT ?`
unfoldable pub list_ids : ℕ → ℕ → List ℕ → List ℕ
unfolding normalize_cache_page_limit
list_ids after_id limit ids = take (normalize_cache_page_limit limit) (keep (ltb after_id) ids)

abbrev pub last_or : ℕ → List ℕ → ℕ
last_or x [] = x
last_or x (y ∷ ys) = last_or y ys

abbrev pub prepend : List ℕ → Option (List ℕ) → Option (List ℕ)
prepend xs none = none
prepend xs (some ys) = some (xs ++ ys)

-- One round: the page is visited, and the loop ends after an empty or a short page.
unfoldable pub visit_page : List ℕ → ℕ → (ℕ → Option (List ℕ)) → Option (List ℕ)
visit_page [] page_size again = some []
visit_page (x ∷ xs) page_size again =
    let more = prepend (x ∷ xs) (again (last_or x xs)) in
    if ltb (length (x ∷ xs)) page_size then some (x ∷ xs) else more

-- The loop, `none` when the fuel is spent.
unfoldable pub for_each : ℕ → ℕ → ℕ → List ℕ → Option (List ℕ)
unfolding visit_page
for_each zero after_id page_size ids = none
for_each (suc fuel) after_id page_size ids =
    visit_page (list_ids after_id page_size ids) page_size
      (λ last. for_each fuel last page_size ids)

abbrev drop : ℕ → List ℕ → List ℕ
drop zero xs = xs
drop (suc n) [] = []
drop (suc n) (x ∷ xs) = drop n xs

take-drop : (n : ℕ) (xs : List ℕ) → take n xs ++ drop n xs ≡ xs
take-drop zero xs = refl
take-drop (suc n) [] = refl
take-drop (suc n) (x ∷ xs) = ap (λ (l : List ℕ). x ∷ l) (take-drop n xs)

length-drop-le : (n : ℕ) (xs : List ℕ) → length (drop n xs) ≤ length xs
length-drop-le zero xs = omega arith
length-drop-le (suc n) [] = omega arith
length-drop-le (suc n) (x ∷ xs) = omega (arith, length-drop-le n xs)

short : (n : ℕ) (xs : List ℕ) → length (take n xs) < n → take n xs ≡ xs
short zero xs h = elim h [ ]
short (suc n) [] h = refl
short (suc n) (x ∷ xs) h = ap (λ (l : List ℕ). x ∷ l) (short n xs (omega arith))

keep-Above : (b : ℕ) (xs : List ℕ) → Above b xs → keep (ltb b) xs ≡ xs
keep-Above b [] h = refl
keep-Above b (x ∷ xs) h = ground (arith, keep-Above b xs h.1)

last-ge : (x : ℕ) (n : ℕ) (xs : List ℕ) → Above x xs → IsAscending xs → x ≤ last_or x (take n xs)
last-ge x zero xs a s = omega arith
last-ge x (suc n) [] a s = omega arith
last-ge x (suc n) (y ∷ ys) a s = omega (arith, last-ge y n ys s.0 s.1, a.0)

-- What comes after the last identifier of a page.
keep-last :
    (n x : ℕ) (xs : List ℕ)
    → Above x xs
    → IsAscending xs
    → keep (ltb (last_or x (take n xs))) (x ∷ xs) ≡ drop n xs
keep-last zero x xs a s = ground (arith, keep-Above x xs a)
keep-last (suc n) x [] a s = ground arith
keep-last (suc n) x (y ∷ ys) a s =
    ground (arith, keep-last n y ys s.0 s.1, last-ge y n ys s.0 s.1, a.0)

keep-keep : (a b : ℕ) (ids : List ℕ) → a ≤ b → keep (ltb b) (keep (ltb a) ids) ≡ keep (ltb b) ids
keep-keep a b [] h = refl
keep-keep a b (x ∷ xs) h = ground (arith, keep-keep a b xs h)

Above-keep : (b a : ℕ) (xs : List ℕ) → Above b xs → Above b (keep (ltb a) xs)
Above-keep b a [] h = tt
Above-keep b a (x ∷ xs) h = ground (arith, Above-keep b a xs h.1)

keep-IsAscending : (a : ℕ) (xs : List ℕ) → IsAscending xs → IsAscending (keep (ltb a) xs)
keep-IsAscending a [] h = tt
keep-IsAscending a (x ∷ xs) h = ground (arith, keep-IsAscending a xs h.1, Above-keep x a xs h.0)

limit-small : (n : ℕ) → n < 5000 → normalize_cache_page_limit (suc n) ≡ suc n
unfolding normalize_cache_page_limit
limit-small n h = ground arith

list_ids-some :
    (after_id n x : ℕ) (xs ids : List ℕ)
    → n < 5000
    → keep (ltb after_id) ids ≡ x ∷ xs
    → list_ids after_id (suc n) ids ≡ x ∷ take n xs
unfolding list_ids
list_ids-some after_id n x xs ids h e = rw (limit-small n h, e) refl

take-nil : (n : ℕ) → take {A = ℕ} n [] ≡ []
take-nil zero = refl
take-nil (suc n) = refl

list_ids-none :
    (after_id page_size : ℕ) (ids : List ℕ)
    → keep (ltb after_id) ids ≡ []
    → list_ids after_id page_size ids ≡ []
unfolding list_ids
list_ids-none after_id page_size ids e = rw e (take-nil (normalize_cache_page_limit page_size))

list_ids-large :
    (page_size : ℕ) (ids : List ℕ)
    → Above 0 ids
    → 5000 < page_size
    → list_ids 0 page_size ids ≡ take (normalize_cache_page_limit page_size) ids
unfolding list_ids
list_ids-large page_size ids p h = rw (keep-Above 0 ids p) refl

page-some :
    (fuel after_id n x : ℕ) (xs ids : List ℕ)
    → n < 5000
    → keep (ltb after_id) ids ≡ x ∷ xs
    → for_each (suc fuel) after_id (suc n) ids ≡ (
        if ltb (length (x ∷ take n xs)) (suc n)
        then some (x ∷ take n xs)
        else prepend (x ∷ take n xs) (for_each fuel (last_or x (take n xs)) (suc n) ids))
unfolding for_each
page-some fuel after_id n x xs ids h e = rw (list_ids-some after_id n x xs ids h e) refl

page-none :
    (fuel after_id page_size : ℕ) (ids : List ℕ)
    → keep (ltb after_id) ids ≡ []
    → for_each (suc fuel) after_id page_size ids ≡ some []
unfolding for_each
page-none fuel after_id page_size ids e = rw (list_ids-none after_id page_size ids e) refl

after-page :
    (after_id n x : ℕ) (xs ids : List ℕ)
    → IsAscending ids
    → keep (ltb after_id) ids ≡ x ∷ xs
    → after_id < x
    → keep (ltb (last_or x (take n xs))) ids ≡ drop n xs
after-page after_id n x xs ids s e h =
    let t : IsAscending (x ∷ xs) = rw e at (keep-IsAscending after_id ids s) in
    sym (keep-keep after_id (last_or x (take n xs)) ids (omega (arith, last-ge x n xs t.0 t.1)))
    ∙ ap (keep (ltb (last_or x (take n xs)))) e
    ∙ keep-last n x xs t.0 t.1

first-above : (a x : ℕ) (xs ids : List ℕ) → keep (ltb a) ids ≡ x ∷ xs → a < x
first-above a x xs [] e = absurd (cc)
first-above a x xs (i ∷ ids) e = ground (arith, first-above a x xs ids)

walk :
    (fuel after_id n : ℕ) (ids rest : List ℕ)
    → IsAscending ids
    → n < 5000
    → keep (ltb after_id) ids ≡ rest
    → length rest < fuel
    → for_each fuel after_id (suc n) ids ≡ some rest
walk zero after_id n ids rest s h e l = elim l [ ]
walk (suc fuel) after_id n ids [] s h e l = page-none fuel after_id (suc n) ids e
walk (suc fuel) after_id n ids (x ∷ xs) s h e l =
    page-some fuel after_id n x xs ids h e
    ∙ unless (ltb (length (x ∷ take n xs)) (suc n))
        (λ last. rw last (ap (λ (ys : List ℕ). some (x ∷ ys)) (short n xs (ground arith))))
        (λ full. rw full (
          ap (prepend (x ∷ take n xs)) (
            walk fuel (last_or x (take n xs)) n ids (drop n xs) s h
              (after-page after_id n x xs ids s e (first-above after_id x xs ids e))
              (omega (arith, length-drop-le n xs)))
          ∙ ap (λ (ys : List ℕ). some (x ∷ ys)) (take-drop n xs)))

-- For every page size from 1 to 5000 the walk ends, within as many rounds as there are identifiers and one
-- more, and has visited every identifier once, in ascending order.
pub for_each-visits-all :
    (page_size : ℕ) (ids : List ℕ)
    → IsAscending ids
    → Above 0 ids
    → 0 < page_size
    → page_size ≤ 5000
    → for_each (length ids + 1) 0 page_size ids ≡ some ids
for_each-visits-all zero ids s p h k = elim h [ ]
for_each-visits-all (suc n) ids s p h k =
    walk (length ids + 1) 0 n ids ids s (omega arith) (keep-Above 0 ids p) (omega arith)

limit-large : (page_size : ℕ) → 5000 < page_size → normalize_cache_page_limit page_size ≡ 5000
unfolding normalize_cache_page_limit
limit-large page_size h = ground arith

short_page :
    (page : List ℕ) (page_size : ℕ) (again : ℕ → Option (List ℕ))
    → length page < page_size
    → visit_page page page_size again ≡ some page
unfolding visit_page
short_page [] page_size again h = refl
short_page (x ∷ xs) page_size again h = ground arith

first_page :
    (limit page_size fuel : ℕ) (ids : List ℕ)
    → list_ids 0 page_size ids ≡ take limit ids
    → limit < page_size
    → for_each (suc fuel) 0 page_size ids ≡ some (take limit ids)
unfolding for_each
first_page limit page_size fuel ids e h =
    rw e (short_page (take limit ids) page_size _ (omega (arith, length-take-le {0} limit ids)))

-- A page size above the store's limit of 5000, which `NewCacheTruthService` accepts, ends the walk after the
-- first `cache_truth_page_limit` identifiers, however many there are, since a full page of the store is
-- short for the service.
pub for_each-stops-early :
    (page_size fuel : ℕ) (ids : List ℕ)
    → Above 0 ids
    → 5000 < page_size
    → for_each (suc fuel) 0 page_size ids ≡ some (take (normalize_cache_page_limit page_size) ids)
for_each-stops-early page_size fuel ids p h =
    first_page (normalize_cache_page_limit page_size) page_size fuel ids
      (list_ids-large page_size ids p h) (omega (arith, limit-large page_size h))
