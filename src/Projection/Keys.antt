-- ===== src/Projection/Keys.antt =====
-- Families of Redis keys of one kind: an entry says that `item` is in the set of `owner`, or that the
-- key `kind:owner:item` exists.
use yun_chat.Prelude.{
  ℕ, ◌≡◌, refl, Bool, not, ◌&&◌, ◌||◌, List, [], ◌∷◌, map, ◌==◌, some_passes, keep, drop_passing,
  arith, if◌then◌else◌,
}
use yun_chat.Ids.{has}

pub record Entry : Type 0 where
  pub owner : ℕ
  pub item : ℕ

abbrev pub is_entry : ℕ → ℕ → Entry → Bool
is_entry o x e = e.owner == o && e.item == x

-- SISMEMBER, or EXISTS of the key.
abbrev pub holds : ℕ → ℕ → List Entry → Bool
holds o x = some_passes (is_entry o x)

abbrev pub entry : ℕ → ℕ → Entry
entry o x = record { owner = o; item = x }

-- SADD, or SET of the key.
unfoldable pub add_entry : ℕ → ℕ → List Entry → List Entry
add_entry o x es = if holds o x es then es else entry o x ∷ es

unfoldable pub add_entries : ℕ → List ℕ → List Entry → List Entry
unfolding add_entry
add_entries o [] es = es
add_entries o (x ∷ xs) es = add_entry o x (add_entries o xs es)

-- SREM, or DEL of the key.
unfoldable pub remove_entry : ℕ → ℕ → List Entry → List Entry
remove_entry o x = drop_passing (is_entry o x)

unfoldable pub remove_entries : ℕ → List ℕ → List Entry → List Entry
unfolding remove_entry
remove_entries o [] es = es
remove_entries o (x ∷ xs) es = remove_entry o x (remove_entries o xs es)

-- DEL of the set of one owner.
unfoldable pub remove_owner : ℕ → List Entry → List Entry
remove_owner o = drop_passing (λ e. e.owner == o)

-- SMEMBERS, or SCAN of `kind:owner:*`.
unfoldable pub items : ℕ → List Entry → List ℕ
items o es = map (λ e. e.item) (keep (λ e. e.owner == o) es)

pub holds-add_entry :
    (o x a b : ℕ) (es : List Entry)
    → holds o x (add_entry a b es) ≡ ((a == o && b == x) || holds o x es)
unfolding add_entry
holds-add_entry o x a b [] = ground arith
holds-add_entry o x a b (e ∷ es) = ground (arith, holds-add_entry o x a b es)

pub holds-add_entries :
    (o x a : ℕ) (bs : List ℕ) (es : List Entry)
    → holds o x (add_entries a bs es) ≡ ((a == o && has x bs) || holds o x es)
unfolding add_entries
holds-add_entries o x a [] es = ground arith
holds-add_entries o x a (b ∷ bs) es =
    ground (arith, holds-add_entry o x a b (add_entries a bs es), holds-add_entries o x a bs es)

pub holds-remove_entry :
    (o x a b : ℕ) (es : List Entry)
    → holds o x (remove_entry a b es) ≡ (not (a == o && b == x) && holds o x es)
unfolding remove_entry
holds-remove_entry o x a b [] = ground arith
holds-remove_entry o x a b (e ∷ es) = ground (arith, holds-remove_entry o x a b es)

pub holds-remove_entries :
    (o x a : ℕ) (bs : List ℕ) (es : List Entry)
    → holds o x (remove_entries a bs es) ≡ (not (a == o && has x bs) && holds o x es)
unfolding remove_entries
holds-remove_entries o x a [] es = ground arith
holds-remove_entries o x a (b ∷ bs) es =
    ground
      (arith, holds-remove_entry o x a b (remove_entries a bs es), holds-remove_entries o x a bs es)

pub holds-remove_owner :
    (o x a : ℕ) (es : List Entry) → holds o x (remove_owner a es) ≡ (not (a == o) && holds o x es)
unfolding remove_owner
holds-remove_owner o x a [] = ground arith
holds-remove_owner o x a (e ∷ es) = ground (arith, holds-remove_owner o x a es)

pub has-items : (o x : ℕ) (es : List Entry) → has x (items o es) ≡ holds o x es
unfolding items
has-items o x [] = refl
has-items o x (e ∷ es) = ground (arith, has-items o x es)
