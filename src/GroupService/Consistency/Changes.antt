-- ===== src/GroupService/Consistency/Changes.antt =====
-- The changes of one table, and the creation of a group, keep the invariant.
use yun_chat.Prelude.{ℕ, ◌<◌, ◌≡◌, ◌≢◌, refl, Option, none, some, arith, on_option}
use yun_chat.Model.{Text, Group, GroupMember, role_member, role_owner}
use yun_chat.Database.{Db}
use yun_chat.Database.Rows.{
  find_group, find_member, count_members, count-remove_member, count-remove_members,
  count-update_member, find-remove_member, find-remove_members, find-remove_group,
  find-update_group, find-update_member, find_group-cons, find_member-cons, count-cons,
  count-eq-zero,
}
use yun_chat.Database.Groups.{has-put_tombstone}
use yun_chat.GroupService.Callbacks.{new_member, default_group_max_members}
use yun_chat.GroupService.Moves.{
  without_member, with_role, with_mute, with_member, without_group, with_profile, with_group,
}
use yun_chat.GroupService.Consistency.{IsConsistent}

module _ (d : Db) (v : IsConsistent d) (g u : ℕ) (group : Group)
    (eg : find_group g d.groups ≡ some group) where
  module _ (other : u ≢ group.owner_id) where
    pub without_member-IsConsistent : IsConsistent (without_member d g u)
    without_member-IsConsistent = record {
      owner_is_member = λ h row e.
          ground (arith, v.owner_is_member h row, find-remove_member g u h row.owner_id d.members);
      only_owner =
          λ h w row e r. ground (arith, v.only_owner h w row, find-remove_member g u h w d.members);
      members_live =
          λ h w e. ground (arith, v.members_live h w, find-remove_member g u h w d.members);
      capacity = λ h row e. omega (arith, v.capacity h row e, count-remove_member g u h d.members);
      dissolved = v.dissolved;
      unused = v.unused;
      numbered = v.numbered;
    }

    pub with_role-IsConsistent :
        (role : ℕ) → role ≢ role_owner → IsConsistent (with_role d g u role)
    with_role-IsConsistent role ordinary =
        let f = λ (m : GroupMember). record m { role = role } in
        let at = λ (h w : ℕ). find-update_member g u h w f d.members (λ m. (refl, refl)) in
        record {
          owner_is_member = λ h row e. ground (arith, v.owner_is_member h row, at h row.owner_id);
          only_owner = λ h w row e r. ground (arith, v.only_owner h w row, at h w);
          members_live = λ h w e. ground (arith, v.members_live h w, at h w);
          capacity = λ h row e. omega (
            arith,
            v.capacity h row e,
            count-update_member g u h f d.members (λ m. (refl, refl)),
          );
          dissolved = v.dissolved;
          unused = v.unused;
          numbered = v.numbered;
        }

  pub with_mute-IsConsistent : (deadline : Option ℕ) → IsConsistent (with_mute d g u deadline)
  with_mute-IsConsistent deadline =
      let f = λ (m : GroupMember). record m { muted_until = deadline } in
      let at = λ (h w : ℕ). find-update_member g u h w f d.members (λ m. (refl, refl)) in
      record {
        owner_is_member = λ h row e. ground (arith, v.owner_is_member h row, at h row.owner_id);
        only_owner = λ h w row e r. ground (arith, v.only_owner h w row, at h w);
        members_live = λ h w e. ground (arith, v.members_live h w, at h w);
        capacity = λ h row e.
            omega (
              arith,
              v.capacity h row e,
              count-update_member g u h f d.members (λ m. (refl, refl)),
            );
        dissolved = v.dissolved;
        unused = v.unused;
        numbered = v.numbered;
      }

  pub with_member-IsConsistent :
      find_member g u d.members ≡ none
      → count_members g d.members < group.max_members
      → IsConsistent (with_member d g u role_member)
  with_member-IsConsistent absent room =
      let row : GroupMember = record (new_member g u role_member) {
        id = d.next_member_id;
        joined_at = d.clock;
      } in
      let at = λ (h w : ℕ). find_member-cons h w row d.members in
      record {
        owner_is_member = λ h own e. ground (arith, v.owner_is_member h own, at h own.owner_id);
        only_owner = λ h w own e r. ground (arith, v.only_owner h w own, at h w);
        members_live = λ h w e. ground (arith, v.members_live h w, at h w);
        capacity = λ h own e. ground (arith, v.capacity h own e, count-cons h row d.members);
        dissolved = v.dissolved;
        unused = v.unused;
        numbered = v.numbered;
      }

  pub without_group-IsConsistent : (owner : ℕ) → IsConsistent (without_group d g owner)
  without_group-IsConsistent owner =
      let group_at = λ (h : ℕ). find-remove_group g h d.groups in
      let at = λ (h w : ℕ). find-remove_members g h w d.members in
      record {
        owner_is_member =
            λ h own e. ground (arith, v.owner_is_member h own, group_at h, at h own.owner_id);
        only_owner = λ h w own e r. ground (arith, v.only_owner h w own, group_at h, at h w);
        members_live = λ h w e. ground (arith, v.members_live h w, group_at h, at h w);
        capacity = λ h own e.
            ground (arith, v.capacity h own, group_at h, count-remove_members g h d.members);
        dissolved = λ h e.
            ground (arith, v.dissolved h, group_at h, has-put_tombstone g owner h d.tombstones);
        unused = λ h e. (
          ground (arith, v.unused h e, group_at h),
          ground (arith, v.unused h e, has-put_tombstone g owner h d.tombstones),
        );
        numbered = v.numbered;
      }

  pub with_profile-IsConsistent : (name notice : Text) → IsConsistent (with_profile d g name notice)
  with_profile-IsConsistent name notice =
      let f = λ (row : Group). record row { name = name; notice = notice; updated_at = d.clock } in
      let group_at = λ (h : ℕ). find-update_group g h f d.groups (λ row. refl) in
      record {
        owner_is_member = λ h own e.
            on_option (find_group h d.groups) (λ e'. ground (arith, group_at h))
              (λ old e'. ground (arith, v.owner_is_member h old e', group_at h));
        only_owner = λ h w own e r.
            on_option (find_group h d.groups) (λ e'. ground (arith, group_at h))
              (λ old e'. ground (arith, v.only_owner h w old e', group_at h));
        members_live = λ h w e. ground (arith, v.members_live h w, group_at h);
        capacity = λ h own e.
            on_option (find_group h d.groups) (λ e'. ground (arith, group_at h))
              (λ old e'. ground (arith, v.capacity h old e', group_at h));
        dissolved = λ h e. ground (arith, v.dissolved h e, group_at h);
        unused = λ h e. (ground (arith, v.unused h e, group_at h), (v.unused h e).1);
        numbered = v.numbered;
      }

module _ (d : Db) (v : IsConsistent d) (name notice : Text) (owner : ℕ) where
  pub created-IsConsistent :
      IsConsistent (with_member (with_group d name notice owner) d.next_group_id owner role_owner)
  created-IsConsistent =
      let n = d.next_group_id in
      let d' = with_member (with_group d name notice owner) n owner role_owner in
      let row : GroupMember = record (new_member n owner role_owner) {
        id = d.next_member_id;
        joined_at = d.clock;
      } in
      let new : Group = record {
        id = n;
        name = name;
        notice = notice;
        owner_id = owner;
        max_members = default_group_max_members;
        created_at = d.clock;
        updated_at = d.clock;
      } in
      let at = λ (h w : ℕ). find_member-cons h w row d.members in
      let group_at = λ (h : ℕ). find_group-cons h new d.groups in
      let nobody = λ (w : ℕ). v.members_live n w (v.unused n (omega arith)).0 in
      record {
        owner_is_member =
            λ h own e. ground (arith, v.owner_is_member h own, group_at h, at h own.owner_id);
        only_owner =
            λ h w own e r. ground (arith, v.only_owner h w own, group_at h, at h w, nobody w);
        members_live = λ h w e. ground (arith, v.members_live h w, group_at h, at h w);
        capacity = λ h own e. ground (
          arith,
          v.capacity h own,
          group_at h,
          count-cons h row d.members,
          count-eq-zero n d.members nobody,
        );
        dissolved = λ h e. ground (arith, v.dissolved h e, v.unused n (omega arith), group_at h);
        unused = λ h e.
            (ground (arith, v.unused h (omega arith), group_at h), (v.unused h (omega arith)).1);
        numbered = omega arith;
      }
