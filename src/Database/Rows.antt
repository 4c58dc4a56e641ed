-- ===== src/Database/Rows.antt =====
-- Rows of `groups` and `group_members`, by their keys.
use yun_chat.Prelude.{
  ℕ, suc, ◌≤◌, ◌≡◌, refl, Bool, ◌&&◌, Option, none, some, List, [], ◌∷◌, arith, ◌==◌, length, keep,
  drop_passing, update_where, if◌then◌else◌,
}
use yun_chat.Model.{Group, GroupMember}

unfoldable pub find_group : ℕ → List Group → Option Group
find_group g [] = none
find_group g (row ∷ rows) = if row.id == g then some row else find_group g rows

abbrev pub is_row : ℕ → ℕ → GroupMember → Bool
is_row g u m = m.group_id == g && m.user_id == u

abbrev pub in_group : ℕ → GroupMember → Bool
in_group g m = m.group_id == g

unfoldable pub find_member : ℕ → ℕ → List GroupMember → Option GroupMember
find_member g u [] = none
find_member g u (row ∷ rows) = if is_row g u row then some row else find_member g u rows

unfoldable pub count_members : ℕ → List GroupMember → ℕ
count_members g rows = length (keep (in_group g) rows)

unfoldable pub remove_group : ℕ → List Group → List Group
remove_group g = drop_passing (λ row. row.id == g)

unfoldable pub update_group : ℕ → (Group → Group) → List Group → List Group
update_group g = update_where (λ row. row.id == g)

unfoldable pub remove_member : ℕ → ℕ → List GroupMember → List GroupMember
remove_member g u = drop_passing (is_row g u)

unfoldable pub remove_members : ℕ → List GroupMember → List GroupMember
remove_members g = drop_passing (in_group g)

unfoldable pub update_member :
    ℕ → ℕ → (GroupMember → GroupMember) → List GroupMember → List GroupMember
update_member g u = update_where (is_row g u)

abbrev pub map_some : {A B : Type 0} → (A → B) → Option A → Option B
map_some f none = none
map_some f (some a) = some (f a)

-- An update of the groups' rows that keeps their keys.
abbrev pub KeepsId : (Group → Group) → Type 0
KeepsId f = (row : Group) → (f row).id ≡ row.id

abbrev pub KeepsKey : (GroupMember → GroupMember) → Type 0
KeepsKey f = (m : GroupMember) → ((f m).group_id ≡ m.group_id) × ((f m).user_id ≡ m.user_id)

pub find-remove_group :
    (g h : ℕ) (rows : List Group)
    → find_group h (remove_group g rows) ≡ (if g == h then none else find_group h rows)
unfolding find_group remove_group
find-remove_group g h [] = ground arith
find-remove_group g h (row ∷ rows) = ground (arith, find-remove_group g h rows)

pub find-update_group :
    (g h : ℕ) (f : Group → Group) (rows : List Group)
    → KeepsId f
    → find_group h (update_group g f rows)
      ≡ (if g == h then map_some f (find_group h rows) else find_group h rows)
unfolding find_group update_group
find-update_group g h f [] k = ground arith
find-update_group g h f (row ∷ rows) k = ground (arith, k row, find-update_group g h f rows k)

pub find-remove_member :
    (g u h v : ℕ) (rows : List GroupMember)
    → find_member h v (remove_member g u rows)
      ≡ (if g == h && u == v then none else find_member h v rows)
unfolding find_member remove_member
find-remove_member g u h v [] = ground arith
find-remove_member g u h v (row ∷ rows) = ground (arith, find-remove_member g u h v rows)

pub find-remove_members :
    (g h v : ℕ) (rows : List GroupMember)
    → find_member h v (remove_members g rows) ≡ (if g == h then none else find_member h v rows)
unfolding find_member remove_members
find-remove_members g h v [] = ground arith
find-remove_members g h v (row ∷ rows) = ground (arith, find-remove_members g h v rows)

pub find-update_member :
    (g u h v : ℕ) (f : GroupMember → GroupMember) (rows : List GroupMember)
    → KeepsKey f
    → find_member h v (update_member g u f rows)
      ≡ (if g == h && u == v then map_some f (find_member h v rows) else find_member h v rows)
unfolding find_member update_member
find-update_member g u h v f [] k = ground arith
find-update_member g u h v f (row ∷ rows) k =
    ground (arith, k row, find-update_member g u h v f rows k)

pub count-remove_member :
    (g u h : ℕ) (rows : List GroupMember)
    → count_members h (remove_member g u rows) ≤ count_members h rows
unfolding count_members remove_member
count-remove_member g u h [] = omega arith
count-remove_member g u h (row ∷ rows) = ground (arith, count-remove_member g u h rows)

pub count-remove_members :
    (g h : ℕ) (rows : List GroupMember)
    → count_members h (remove_members g rows) ≡ (if g == h then 0 else count_members h rows)
unfolding count_members remove_members
count-remove_members g h [] = ground arith
count-remove_members g h (row ∷ rows) = ground (arith, count-remove_members g h rows)

pub count-update_member :
    (g u h : ℕ) (f : GroupMember → GroupMember) (rows : List GroupMember)
    → KeepsKey f
    → count_members h (update_member g u f rows) ≡ count_members h rows
unfolding count_members update_member
count-update_member g u h f [] k = refl
count-update_member g u h f (row ∷ rows) k =
    ground (arith, k row, count-update_member g u h f rows k)

pub find_member_key :
    (g u : ℕ) (rows : List GroupMember) (m : GroupMember)
    → find_member g u rows ≡ some m
    → (m.group_id ≡ g) × (m.user_id ≡ u)
unfolding find_member
find_member_key g u [] m e = ground arith
find_member_key g u (row ∷ rows) m e = ground (arith, find_member_key g u rows m)

pub find_group_key :
    (g : ℕ) (rows : List Group) (row : Group) → find_group g rows ≡ some row → row.id ≡ g
unfolding find_group
find_group_key g [] row e = ground arith
find_group_key g (first ∷ rows) row e = ground (arith, find_group_key g rows row)

pub find_group-cons :
    (g : ℕ) (row : Group) (rows : List Group)
    → find_group g (row ∷ rows) ≡ (if row.id == g then some row else find_group g rows)
unfolding find_group
find_group-cons g row rows = refl

pub find_member-cons :
    (g u : ℕ) (row : GroupMember) (rows : List GroupMember)
    → find_member g u (row ∷ rows) ≡ (if is_row g u row then some row else find_member g u rows)
unfolding find_member
find_member-cons g u row rows = refl

pub count-cons :
    (g : ℕ) (row : GroupMember) (rows : List GroupMember)
    → count_members g (row ∷ rows)
      ≡ (if in_group g row then suc (count_members g rows) else count_members g rows)
unfolding count_members
count-cons g row rows = ground arith

-- A group without a row of its own has no members to count.
pub count-eq-zero :
    (g : ℕ) (rows : List GroupMember)
    → ((u : ℕ) → find_member g u rows ≡ none)
    → count_members g rows ≡ 0
unfolding count_members find_member
count-eq-zero g [] h = refl
count-eq-zero g (row ∷ rows) h =
    ground (arith, h row.user_id, count-eq-zero g rows (λ u. ground (arith, h u)))
