-- ===== src/GroupService/Consistency.antt =====
-- The invariant of the group tables.
pub mod Changes
pub mod Transfers
pub mod Steps
use yun_chat.Prelude.{
  ℕ, ◌≤◌, ◌<◌, ◌≡◌, ◌≢◌, refl, ◌∙◌, ◌&&◌, Bool, true, false, Option, none, some, arith, ◌==◌,
  is_some, on_option, if◌then◌else◌,
}
use yun_chat.Model.{Text, Group, GroupMember, role_member, role_owner}
use yun_chat.Database.{Db}
use yun_chat.Database.Rows.{
  find_group, find_member, count_members, map_some, count-remove_member, count-remove_members,
  count-update_member, find-remove_member, find-remove_members, find-remove_group,
  find-update_group, find-update_member, find_group-cons, find_member-cons, count-cons,
  count-eq-zero,
}
use yun_chat.Database.Groups.{has_tombstone, has-put_tombstone}
use yun_chat.GroupService.Callbacks.{new_member, default_group_max_members}
use yun_chat.GroupService.Moves.{
  Move, stays, created, joined, removed, promoted, muted, transferred, left, renamed, role_of,
  role_in, with_rebuild, without_member, with_role, with_mute, with_member, without_group,
  with_profile, with_group, with_owner,
}

-- Ownership has one reading: `groups.owner_id` names a member of role 2, and no other member has that
-- role. Members belong to live groups, within the capacity; a dissolved or unused identifier names no
-- live group.
pub record IsConsistent (d : Db) : Type 0 where
  pub owner_is_member :
      (g : ℕ) (group : Group)
      → find_group g d.groups ≡ some group
      → role_in d g group.owner_id ≡ some role_owner
  pub only_owner :
      (g u : ℕ) (group : Group)
      → find_group g d.groups ≡ some group
      → role_in d g u ≡ some role_owner
      → u ≡ group.owner_id
  pub members_live : (g u : ℕ) → find_group g d.groups ≡ none → find_member g u d.members ≡ none
  pub capacity :
      (g : ℕ) (group : Group)
      → find_group g d.groups ≡ some group
      → count_members g d.members ≤ group.max_members
  pub dissolved : (g : ℕ) → has_tombstone g d.tombstones ≡ true → find_group g d.groups ≡ none
  pub unused :
      (g : ℕ)
      → d.next_group_id ≤ g
      → (find_group g d.groups ≡ none) × (has_tombstone g d.tombstones ≡ false)
  pub numbered : 0 < d.next_group_id

pub with_rebuild-IsConsistent : (d : Db) (g : ℕ) → IsConsistent d → IsConsistent (with_rebuild d g)
with_rebuild-IsConsistent d g v = record {
  owner_is_member = v.owner_is_member;
  only_owner = v.only_owner;
  members_live = v.members_live;
  capacity = v.capacity;
  dissolved = v.dissolved;
  unused = v.unused;
  numbered = v.numbered;
}
