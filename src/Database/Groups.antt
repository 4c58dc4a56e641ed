-- ===== src/Database/Groups.antt =====
-- The statements of backend/internal/repository/group_repository.go and the group statements of
-- mysql_repository.go.
use yun_chat.Prelude.{
  ℕ, ◌+◌, ◌≡◌, Bool, ◌||◌, arith, Option, List, [], ◌∷◌, ◌==◌, keep, is_some, some_passes,
  if◌then◌else◌,
}
use yun_chat.Sql.{Sql, conflict, not_found, ok, err, query, exec, statement}
use yun_chat.Model.{Group, GroupMember}
use yun_chat.Database.{Db, Tombstone, find_user}
use yun_chat.Database.Rows.{
  find_group, find_member, in_group, count_members, remove_group, update_group, remove_member,
  remove_members, update_member,
}

unfoldable pub lock_group_creator : ℕ → Sql Db Bool
unfolding query
lock_group_creator u = query (λ d. is_some (find_user u d.users))

-- The inserted row takes the next AUTO_INCREMENT value. A rolled-back transaction gives the value back
-- here and not in MySQL; nobody has seen it then.
unfoldable pub create_group : Group → Sql Db ℕ
unfolding statement
create_group group = statement (λ d. (
  ok d.next_group_id,
  record d {
    groups =
        record group { id = d.next_group_id; created_at = d.clock; updated_at = d.clock }
        ∷ d.groups;
    next_group_id = d.next_group_id + 1;
  },
))

-- UNIQUE KEY uk_group_user(group_id, user_id)
unfoldable pub add_group_member : GroupMember → Sql Db (Unit {0})
unfolding statement
add_group_member m = statement (λ d.
    if is_some (find_member m.group_id m.user_id d.members) then (err conflict, d) else (
      ok tt,
      record d {
        members = record m { id = d.next_member_id; joined_at = d.clock } ∷ d.members;
        next_member_id = d.next_member_id + 1;
      },
    ))

unfoldable pub get_group_for_update : ℕ → Sql Db (Option Group)
unfolding query
get_group_for_update g = query (λ d. find_group g d.groups)

unfoldable pub get_group_member_for_update : ℕ → ℕ → Sql Db (Option GroupMember)
unfolding query
get_group_member_for_update g u = query (λ d. find_member g u d.members)

unfoldable pub count_group_members : ℕ → Sql Db ℕ
unfolding query
count_group_members g = query (λ d. count_members g d.members)

unfoldable pub get_group_members : ℕ → Sql Db (List GroupMember)
unfolding query
get_group_members g = query (λ d. keep (in_group g) d.members)

unfoldable pub remove_group_member : ℕ → ℕ → Sql Db (Unit {0})
unfolding exec
remove_group_member g u = exec (λ d. record d { members = remove_member g u d.members })

abbrev pub has_tombstone : ℕ → List Tombstone → Bool
has_tombstone g = some_passes (λ t. t.group_id == g)

-- INSERT … ON DUPLICATE KEY UPDATE owner_id
pub put_tombstone : ℕ → ℕ → List Tombstone → List Tombstone
put_tombstone g owner [] = record { group_id = g; owner_id = owner } ∷ []
put_tombstone g owner (t ∷ ts) =
    if t.group_id == g then record t { owner_id = owner } ∷ ts else t ∷ put_tombstone g owner ts

unfoldable pub upsert_group_tombstone : ℕ → ℕ → Sql Db (Unit {0})
unfolding exec
upsert_group_tombstone g owner =
    exec (λ d. record d { tombstones = put_tombstone g owner d.tombstones })

unfoldable pub is_group_tombstoned : ℕ → Sql Db Bool
unfolding query
is_group_tombstoned g = query (λ d. has_tombstone g d.tombstones)

unfoldable pub delete_group_members : ℕ → Sql Db (Unit {0})
unfolding exec
delete_group_members g = exec (λ d. record d { members = remove_members g d.members })

-- `requireOneAffected`: the key is unique, so the DELETE affects one row or none.
unfoldable pub delete_group : ℕ → Sql Db (Unit {0})
unfolding statement
delete_group g = statement (λ d. (
  if is_some (find_group g d.groups) then ok tt else err not_found,
  record d { groups = remove_group g d.groups },
))

unfoldable pub update_group_owner : ℕ → ℕ → Sql Db (Unit {0})
unfolding exec
update_group_owner g owner = exec (λ d. record d {
  groups = update_group g (λ row. record row { owner_id = owner; updated_at = d.clock }) d.groups;
})

unfoldable pub update_group_member_role : ℕ → ℕ → ℕ → Sql Db (Unit {0})
unfolding exec
update_group_member_role g u role =
    exec (λ d. record d { members = update_member g u (λ m. record m { role = role }) d.members })

unfoldable pub update_group_member_mute : ℕ → ℕ → Option ℕ → Sql Db (Unit {0})
unfolding exec
update_group_member_mute g u deadline = exec (λ d. record d {
  members = update_member g u (λ m. record m { muted_until = deadline }) d.members;
})

unfoldable pub update_group_profile : ℕ → List ℕ → List ℕ → Sql Db (Unit {0})
unfolding exec
update_group_profile g name notice = exec (λ d. record d {
  groups =
      update_group g (λ row. record row { name = name; notice = notice; updated_at = d.clock })
        d.groups;
})

pub has-put_tombstone :
    (g owner h : ℕ) (ts : List Tombstone)
    → has_tombstone h (put_tombstone g owner ts) ≡ (g == h || has_tombstone h ts)
unfolding put_tombstone
has-put_tombstone g owner h [] = ground arith
has-put_tombstone g owner h (t ∷ ts) = ground (arith, has-put_tombstone g owner h ts)
