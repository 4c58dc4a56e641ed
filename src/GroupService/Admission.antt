-- ===== src/GroupService/Admission.antt =====
-- The admission of a member.
use yun_chat.Prelude.{
  ℕ, suc, ◌<◌, ◌≡◌, ◌≢◌, refl, false, true, ◌||◌, some, none, arith, ◌==◌, leb, is_some, on_option,
  ==_iff,
}
use yun_chat.AppError.{already_member}
use yun_chat.Sql.{ok, err, quiet, within_transaction, app}
use yun_chat.Model.{Group, GroupMember, role_member}
use yun_chat.Database.{Db, has_edge}
use yun_chat.Database.Locks.{Exists, lock_count, lock_users_lem}
use yun_chat.Database.Rows.{find_group, find_member, count_members, find_member-cons, count-cons}
use yun_chat.GroupService
use yun_chat.GroupService.{GroupOptions, add_member_error, group_service_error}
use yun_chat.GroupService.Callbacks.{
  add_member_callback, admit_member, can_manage_group_members, statements, new_member,
}
use yun_chat.GroupService.Moves.{Manages, with_member, with_rebuild}
use yun_chat.GroupService.UseCases.{add_member, perform}

-- The operator manages a live group with room left, and brings in a friend who is no member.
pub record Admissible (d : Db) (g op u : ℕ) (group : Group) : Type 0 where
  pub found : find_group g d.groups ≡ some group
  pub manages : Manages d group g op
  pub absent : find_member g u d.members ≡ none
  pub differ : op ≢ u
  pub exist : Exists d op × Exists d u
  pub friends : (has_edge op u d.friendships || has_edge u op d.friendships) ≡ true
  pub room : count_members g d.members < group.max_members
  pub positive : (0 < g) × (0 < op) × (0 < u)

module _ (options : GroupOptions) (d : Db) (g op u : ℕ) (group : Group)
    (may : Admissible d g op u group) where
  can_manage : can_manage_group_members group (find_member g op d.members) op ≡ true
  can_manage =
      on_option (find_member g op d.members) (λ e. ground (arith, may.manages))
        (λ operator e. ground (arith, may.manages))

  abbrev admitted : Db
  admitted = with_rebuild (with_member d g u role_member) g

  add_member_callback_lem : add_member_callback g op u (quiet d) ≡ (ok tt, quiet admitted)
  unfolding add_member_callback admit_member statements
  add_member_callback_lem =
      let g_ok : leb g 0 ≡ false = ground (arith, may.positive) in
      let locks = lock_users_lem d op u in
      let two : (lock_count d op u == 2) ≡ true =
        (==_iff _ _).1 (locks.1.1 (may.differ, may.exist.0, may.exist.1)) in
      let room : leb group.max_members (count_members g d.members) ≡ false =
        ground (arith, may.room) in
      simp (may.found, can_manage, may.absent, locks.0, two, may.friends, room, g_ok)

  guards : (leb g 0 || leb op 0 || leb u 0) ≡ false
  guards = ground (arith, may.positive)

  add_member_lem : perform options (add_member g op u) (quiet d) ≡ (none, admitted)
  unfolding perform GroupService.add_member within_transaction
  add_member_lem = simp (guards, add_member_callback_lem)

  abbrev row : GroupMember
  row = record (new_member g u role_member) { id = d.next_member_id; joined_at = d.clock }

  present : is_some (find_member g u admitted.members) ≡ true
  present = ground (arith, find_member-cons g u row d.members)

  same_operator : find_member g op admitted.members ≡ find_member g op d.members
  same_operator = ground (arith, find_member-cons g op row d.members, may.differ)

  repeated_callback :
      add_member_callback g op u (quiet admitted) ≡ (err (app already_member), quiet admitted)
  unfolding add_member_callback statements
  repeated_callback =
      let still : can_manage_group_members group (find_member g op admitted.members) op ≡ true =
        rw same_operator can_manage in
      simp (may.found, still, present)

  repeated_lem :
      perform options (add_member g op u) (quiet admitted) ≡ (some already_member, admitted)
  unfolding perform GroupService.add_member within_transaction add_member_error group_service_error
  repeated_lem = simp (guards, repeated_callback)

  -- Where the driver does not fail, a manager of a live group with room left who adds a friend that is no
  -- member succeeds: the friend is a member, and the group has one member more. The same call again is told
  -- already_member and changes nothing.
  pub add_member-admits :
      ((perform options (add_member g op u) (quiet d)).0 ≡ none)
      × (is_some (find_member g u (perform options (add_member g op u) (quiet d)).1.members) ≡ true)
      × (count_members g (perform options (add_member g op u) (quiet d)).1.members
          ≡ suc (count_members g d.members))
      × (perform options
            (add_member g op u)
            (quiet (perform options (add_member g op u) (quiet d)).1)
          ≡ (some already_member, (perform options (add_member g op u) (quiet d)).1))
  add_member-admits =
      rw add_member_lem (refl, present, ground (arith, count-cons g row d.members), repeated_lem)
