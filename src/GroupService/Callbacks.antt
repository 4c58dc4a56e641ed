-- ===== src/GroupService/Callbacks.antt =====
-- The transaction callbacks of backend/internal/service/group.go.
use yun_chat.Prelude.{
  ℕ, Bool, true, false, not, ◌&&◌, ◌||◌, Option, none, some, List, [], ◌∷◌, ◌++◌, ◌==◌, ltb, leb,
  is_some, if◌then◌else◌,
}
use yun_chat.AppError.{
  invalid_param, user_not_found, group_not_found, not_owner_or_admin, already_member, group_full,
  member_not_friend, group_member_not_found, cannot_remove_owner, cannot_remove_peer,
  group_not_member, cannot_leave_as_owner,
}
use yun_chat.Sql.{Sql, pure, reject_if, require, ◌>>=◌, ◌>>◌}
use yun_chat.Model.{Text, Group, GroupMember, role_member, role_admin, role_owner}
use yun_chat.Database.{Db, group_members, lock_users, is_friend_pair, enqueue_cache_reconcile}
use yun_chat.Database.Groups.{
  lock_group_creator, create_group, add_group_member, get_group_for_update,
  get_group_member_for_update, count_group_members, get_group_members, remove_group_member,
  upsert_group_tombstone, is_group_tombstoned, delete_group_members, delete_group,
  update_group_owner, update_group_member_role, update_group_member_mute, update_group_profile,
}

abbrev pub default_group_max_members : ℕ
default_group_max_members = 500

abbrev pub can_manage_group_members : Group → Option GroupMember → ℕ → Bool
can_manage_group_members group none operator_id = false
can_manage_group_members group (some operator) operator_id =
    group.owner_id == operator_id || operator.role == role_admin

-- The row that `AddGroupMember` inserts; its `id` and `joined_at` are the statement's.
abbrev pub new_member : ℕ → ℕ → ℕ → GroupMember
new_member g u role = record {
  id = 0;
  group_id = g;
  user_id = u;
  role = role;
  muted_until = none;
  joined_at = 0;
}

unfoldable pub create_callback : ℕ → Text → Text → Sql Db ℕ
create_callback owner_id name notice = do
  exists ← lock_group_creator owner_id
  reject_if (not exists) user_not_found
  group_id ← create_group (record {
    id = 0;
    name = name;
    notice = notice;
    owner_id = owner_id;
    max_members = default_group_max_members;
    created_at = 0;
    updated_at = 0;
  })
  add_group_member (new_member group_id owner_id role_owner)
  enqueue_cache_reconcile group_members group_id
  pure group_id

-- The end of the callback of `AddMember`, from the count on.
unfoldable pub admit_member : Group → ℕ → ℕ → ℕ → Sql Db (Unit {0})
admit_member group group_id member_id member_count = do
  reject_if (leb group.max_members member_count) group_full
  add_group_member (new_member group_id member_id role_member)
  enqueue_cache_reconcile group_members group_id

unfoldable pub add_member_callback : ℕ → ℕ → ℕ → Sql Db (Unit {0})
add_member_callback group_id operator_id member_id = do
  group ← require (← get_group_for_update group_id) group_not_found
  operator ← get_group_member_for_update group_id operator_id
  reject_if (not (can_manage_group_members group operator operator_id)) not_owner_or_admin
  existing ← get_group_member_for_update group_id member_id
  reject_if (is_some existing) already_member
  locked_users ← lock_users operator_id member_id
  reject_if (not (locked_users == 2)) user_not_found
  befriended ← is_friend_pair operator_id member_id
  reject_if (not befriended) member_not_friend
  member_count ← count_group_members group_id
  admit_member group group_id member_id member_count

unfoldable pub remove_member_callback : ℕ → ℕ → ℕ → Sql Db (Unit {0})
remove_member_callback group_id operator_id member_id = do
  group ← require (← get_group_for_update group_id) group_not_found
  operator ← get_group_member_for_update group_id operator_id
  reject_if (not (can_manage_group_members group operator operator_id)) not_owner_or_admin
  target ← require (← get_group_member_for_update group_id member_id) group_member_not_found
  reject_if (target.user_id == group.owner_id) cannot_remove_owner
  reject_if (not (group.owner_id == operator_id) && not (target.role == role_member))
      cannot_remove_peer
  remove_group_member group_id member_id
  enqueue_cache_reconcile group_members group_id

-- The callback's result is the captured variable `changed`.
unfoldable pub update_role_callback : ℕ → ℕ → ℕ → ℕ → Sql Db Bool
update_role_callback group_id operator_id member_id role = do
  group ← require (← get_group_for_update group_id) group_not_found
  operator ← get_group_member_for_update group_id operator_id
  reject_if (not (is_some operator) || not (group.owner_id == operator_id)) not_owner_or_admin
  target ← require (← get_group_member_for_update group_id member_id) group_member_not_found
  reject_if (target.user_id == group.owner_id) not_owner_or_admin
  if target.role == role then pure false else do
    update_group_member_role group_id member_id role
    enqueue_cache_reconcile group_members group_id
    pure true

abbrev pub same_optional_group_time : Option ℕ → Option ℕ → Bool
same_optional_group_time none none = true
same_optional_group_time (some a) (some b) = a == b
same_optional_group_time _ _ = false

-- `deadline != nil && !deadline.After(now)`
abbrev pub has_passed : ℕ → Option ℕ → Bool
has_passed now none = false
has_passed now (some t) = not (ltb now t)

-- `now` is the clock read inside the transaction.
unfoldable pub mute_member_callback : ℕ → ℕ → ℕ → Option ℕ → ℕ → Sql Db Bool
mute_member_callback group_id operator_id member_id deadline now = do
  group ← require (← get_group_for_update group_id) group_not_found
  operator ← get_group_member_for_update group_id operator_id
  reject_if (not (can_manage_group_members group operator operator_id)) not_owner_or_admin
  target ← require (← get_group_member_for_update group_id member_id) group_member_not_found
  reject_if
      (target.user_id == group.owner_id
        || (not (group.owner_id == operator_id) && not (target.role == role_member)))
      not_owner_or_admin
  reject_if (has_passed now deadline) invalid_param
  if same_optional_group_time target.muted_until deadline then pure false else do
    update_group_member_mute group_id member_id deadline
    enqueue_cache_reconcile group_members group_id
    pure true

unfoldable pub transfer_ownership_callback : ℕ → ℕ → ℕ → Sql Db (Unit {0})
transfer_ownership_callback group_id operator_id new_owner_id = do
  group ← require (← get_group_for_update group_id) group_not_found
  old_owner ← get_group_member_for_update group_id operator_id
  reject_if (not (is_some old_owner) || not (group.owner_id == operator_id)) not_owner_or_admin
  new_owner ← require (← get_group_member_for_update group_id new_owner_id) group_member_not_found
  update_group_member_role group_id operator_id role_member
  update_group_member_role group_id new_owner_id role_owner
  if is_some new_owner.muted_until
      then update_group_member_mute group_id new_owner_id none
      else pure tt
  update_group_owner group_id new_owner_id
  enqueue_cache_reconcile group_members group_id

unfoldable pub leave_callback : ℕ → ℕ → Sql Db (Unit {0})
leave_callback group_id user_id = do
  group ← require (← get_group_for_update group_id) group_not_found
  member ← get_group_member_for_update group_id user_id
  reject_if (not (is_some member)) group_not_member
  reject_if (group.owner_id == user_id) cannot_leave_as_owner
  remove_group_member group_id user_id
  enqueue_cache_reconcile group_members group_id

abbrev pub positive_ids : List GroupMember → List ℕ
positive_ids [] = []
positive_ids (m ∷ ms) =
    let rest = positive_ids ms in if ltb 0 m.user_id then m.user_id ∷ rest else rest

unfoldable pub disband_live : ℕ → ℕ → Group → Sql Db (Bool × List ℕ)
disband_live group_id operator_id group = do
  reject_if (not (group.owner_id == operator_id)) not_owner_or_admin
  members ← get_group_members group_id
  upsert_group_tombstone group_id group.owner_id
  delete_group_members group_id
  delete_group group_id
  enqueue_cache_reconcile group_members group_id
  pure (true, positive_ids members ++ operator_id ∷ [])

unfoldable pub disband_found : ℕ → ℕ → Option Group → Sql Db (Bool × List ℕ)
disband_found group_id operator_id none = do
  tombstoned ← is_group_tombstoned group_id
  pure (tombstoned, [])
disband_found group_id operator_id (some group) = disband_live group_id operator_id group

-- The captured variables `cleanupRequired` and `recipients`.
unfoldable pub disband_callback : ℕ → ℕ → Sql Db (Bool × List ℕ)
disband_callback group_id operator_id = do
  found ← get_group_for_update group_id
  disband_found group_id operator_id found

abbrev pub is_admin : Option GroupMember → Bool
is_admin none = false
is_admin (some member) = member.role == role_admin

unfoldable pub update_callback : ℕ → ℕ → Text → Text → Sql Db (Unit {0})
update_callback operator_id group_id name notice = do
  group ← require (← get_group_for_update group_id) group_not_found
  member ← get_group_member_for_update group_id operator_id
  reject_if (not (is_some member) || (not (group.owner_id == operator_id) && not (is_admin member)))
      not_owner_or_admin
  update_group_profile group_id name notice

-- Opens the statements that the callbacks run, for a proof that follows a path through them.
unfoldable pub statements : Unit {0}
unfolding lock_group_creator create_group add_group_member get_group_for_update
    get_group_member_for_update count_group_members get_group_members remove_group_member
    upsert_group_tombstone is_group_tombstoned delete_group_members delete_group update_group_owner
    update_group_member_role update_group_member_mute update_group_profile is_friend_pair
    enqueue_cache_reconcile ◌>>=◌
statements = tt
