-- ===== src/Ids.antt =====
-- The identifier lists of the relationship cache: `canonicalIDs` and `sameIDs` of
-- backend/internal/service/cache_truth.go, `sortedUniquePositive` of
-- backend/internal/repository/cache_redis.go.
--
-- Go's map is a list without duplicates: its iteration order is not specified, and the result is
-- sorted afterwards.
pub mod Sorting
pub mod Canonical
use yun_chat.Prelude.{
  ℕ, Bool, true, false, ◌&&◌, List, [], ◌∷◌, ◌==◌, ltb, some_passes, if◌then◌else◌,
}

abbrev pub has : ℕ → List ℕ → Bool
has x = some_passes (λ y. y == x)

-- The keys of the map `seen` after the loop.
unfoldable pub seen_positive : List ℕ → List ℕ
seen_positive [] = []
seen_positive (id ∷ ids) =
    let seen = seen_positive ids in
    if ltb 0 id then if has id seen then seen else id ∷ seen else seen

unfoldable pub insert_id : ℕ → List ℕ → List ℕ
insert_id x [] = x ∷ []
insert_id x (y ∷ ys) = let rest = insert_id x ys in if ltb y x then y ∷ rest else x ∷ y ∷ ys

-- `sort.Slice` by the identifiers.
unfoldable pub sort_ids : List ℕ → List ℕ
unfolding insert_id
sort_ids [] = []
sort_ids (x ∷ xs) = insert_id x (sort_ids xs)

-- `canonicalIDs` and `sortedUniquePositive`, which are the same code.
unfoldable pub canonical_ids : List ℕ → List ℕ
unfolding sort_ids seen_positive
canonical_ids ids = sort_ids (seen_positive ids)

unfoldable pub same_ids : List ℕ → List ℕ → Bool
same_ids [] [] = true
same_ids [] (y ∷ ys) = false
same_ids (x ∷ xs) [] = false
same_ids (x ∷ xs) (y ∷ ys) = x == y && same_ids xs ys
