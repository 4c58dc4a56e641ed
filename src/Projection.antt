-- ===== src/Projection.antt =====
-- backend/internal/repository/cache_redis.go: the keys of Redis that mirror the relationships of MySQL,
-- and the scripts and transactions that replace the part of one owner. Redis runs each as one step.
--
-- Identifiers in key names and values are numbers. The JSON of a member's role and mute deadline is
-- the record that it encodes.
pub mod Keys
pub mod Infos
pub mod Friendships
pub mod Members
use Prim.Native.Nat.{◌-◌, ◌/◌}
use yun_chat.Prelude.{
  ℕ, ◌+◌, Bool, true, false, not, ◌&&◌, ◌||◌, Option, none, some, List, [], ◌∷◌, ◌++◌, map, ◌==◌,
  leb, ltb, length, keep, drop_passing, if◌then◌else◌,
}
use yun_chat.Ids.{has, canonical_ids}
use yun_chat.Model.{GroupMember}
use yun_chat.Database.{CacheResource, friends, group_members, blacklist}
use yun_chat.Projection.Keys.{Entry, entry, add_entries, remove_entries, remove_owner, items}
use yun_chat.Projection.Infos.{Info, Member, put_infos, remove_infos, info_fields}

pub record Projection : Type 0 where
  pub friend : List Entry
  pub friend_owner_index : List Entry
  pub friend_loaded : List ℕ
  pub friend_index_loaded : List ℕ
  pub blacklist : List Entry
  pub blacklist_loaded : List ℕ
  pub group_members : List Entry
  pub group_member_info : List Info
  pub user_groups : List Entry
  pub group_reverse_owner_index : List Entry
  -- The key holds the number of members that the set and the hash should have.
  pub group_member_loaded : List Entry
  pub group_reverse_index_loaded : List ℕ
  pub outbox : List ℕ
  pub group_seq : List Entry

-- SET of a marker.
abbrev pub set_key : ℕ → List ℕ → List ℕ
set_key k ks = if has k ks then ks else k ∷ ks

abbrev pub delete_key : ℕ → List ℕ → List ℕ
delete_key k = drop_passing (λ j. j == k)

-- `replaceFriendOwnerLua` with the legacy identifiers and then the desired ones.
unfoldable pub replace_friend_script : ℕ → List ℕ → List ℕ → Projection → Projection
replace_friend_script owner legacy desired p =
    let old = items owner p.friend_owner_index in
    record p {
      friend =
          add_entries owner desired
            (remove_entries owner legacy (remove_entries owner old p.friend));
      friend_owner_index = add_entries owner desired (remove_owner owner p.friend_owner_index);
      friend_loaded = set_key owner p.friend_loaded;
      friend_index_loaded = set_key owner p.friend_index_loaded;
    }

-- `ReplaceFriendOwner`: without the marker of the index, the existing keys are looked up by SCAN.
unfoldable pub replace_friend_owner : ℕ → List ℕ → Projection → Projection
unfolding replace_friend_script
replace_friend_owner owner friend_ids p =
    replace_friend_script owner
      (if has owner p.friend_index_loaded then [] else canonical_ids (items owner p.friend))
      (canonical_ids friend_ids) p

unfoldable pub replace_blacklist_owner : ℕ → List ℕ → Projection → Projection
replace_blacklist_owner owner blocked_ids p = record p {
  blacklist = add_entries owner (canonical_ids blocked_ids) (remove_owner owner p.blacklist);
  blacklist_loaded = set_key owner p.blacklist_loaded;
}

-- 1970-01-01 in milliseconds since the year 1.
abbrev pub unix_epoch : ℕ
unix_epoch = 62_135_596_800_000

-- `newCachedGroupMemberInfo`: the deadline in Unix milliseconds, 0 for none; one before 1970 mutes as
-- little as none does.
abbrev pub cached_muted_until : Option ℕ → ℕ
cached_muted_until none = 0
cached_muted_until (some t) = t / 1_000_000 - unix_epoch

-- The arguments of the script: the members with positive identifiers, each once, the first of a
-- repeated identifier.
unfoldable pub desired_members : List ℕ → List GroupMember → List Member
desired_members seen [] = []
desired_members seen (m ∷ ms) =
    let rest = desired_members (if leb m.user_id 0 then seen else m.user_id ∷ seen) ms in
    if leb m.user_id 0 || has m.user_id seen
    then rest
    else record {
      user_id = m.user_id;
      role = m.role;
      muted_until = cached_muted_until m.muted_until;
    }
      ∷ rest

abbrev pub user_ids : List Member → List ℕ
user_ids = map (λ m. m.user_id)

-- SREM of the group from the set of each of the users.
unfoldable pub leave_all : ℕ → List ℕ → List Entry → List Entry
leave_all group [] es = es
leave_all group (u ∷ us) es = remove_entries u (group ∷ []) (leave_all group us es)

unfoldable pub join_all : ℕ → List ℕ → List Entry → List Entry
join_all group [] es = es
join_all group (u ∷ us) es = add_entries u (group ∷ []) (join_all group us es)

-- `replaceGroupMembersOwnerLua` with the legacy reverse owners and then the desired members.
unfoldable pub replace_group_script : ℕ → List ℕ → List Member → Projection → Projection
unfolding leave_all join_all
replace_group_script group legacy desired p =
    let old_members = items group p.group_members in
    let old_reverse = items group p.group_reverse_owner_index in
    let left =
      leave_all group legacy
        (leave_all group old_reverse (leave_all group old_members p.user_groups)) in
    record p {
      group_members = add_entries group (user_ids desired) (remove_owner group p.group_members);
      group_member_info = put_infos group desired (remove_infos group p.group_member_info);
      user_groups = join_all group (user_ids desired) left;
      group_reverse_owner_index =
          add_entries group (user_ids desired) (remove_owner group p.group_reverse_owner_index);
      group_member_loaded = entry group (length desired) ∷ remove_owner group p.group_member_loaded;
      group_reverse_index_loaded = set_key group p.group_reverse_index_loaded;
    }

-- `readReverseGroupMembers`: the users whose set of groups has this one.
unfoldable pub reverse_group_members : ℕ → Projection → List ℕ
reverse_group_members group p =
    canonical_ids (map (λ e. e.owner) (keep (λ e. e.item == group) p.user_groups))

unfoldable pub replace_group_members_owner : ℕ → List GroupMember → Projection → Projection
unfolding replace_group_script reverse_group_members desired_members
replace_group_members_owner group members p =
    replace_group_script group
      (if has group p.group_reverse_index_loaded then [] else reverse_group_members group p)
      (desired_members [] members) p

unfoldable pub delete_disbanded_group_runtime : ℕ → Projection → Projection
delete_disbanded_group_runtime group p = record p {
  outbox = delete_key group p.outbox;
  group_seq = remove_owner group p.group_seq;
}

unfoldable pub friends_loaded : ℕ → Projection → Bool
friends_loaded u p = has u p.friend_loaded

unfoldable pub blacklist_loaded : ℕ → Projection → Bool
blacklist_loaded u p = has u p.blacklist_loaded

abbrev pub expected_is : ℕ → List ℕ → Bool
expected_is n [] = false
expected_is n (count ∷ _) = count == n

-- `groupMembersLoadedLua`: the set and the hash have the size that the marker tells.
unfoldable pub group_members_loaded : ℕ → Projection → Bool
group_members_loaded group p =
    expected_is (length (items group p.group_members)) (items group p.group_member_loaded)
    && expected_is (length (info_fields group p.group_member_info))
        (items group p.group_member_loaded)

-- `InvalidateProjectionMarkers`
unfoldable pub invalidate_projection_markers : CacheResource → ℕ → Projection → Projection
invalidate_projection_markers friends u p = record p {
  friend_loaded = delete_key u p.friend_loaded;
  friend_index_loaded = delete_key u p.friend_index_loaded;
}
invalidate_projection_markers blacklist u p = record p {
  blacklist_loaded = delete_key u p.blacklist_loaded;
}
invalidate_projection_markers group_members g p = record p {
  group_member_loaded = remove_owner g p.group_member_loaded;
  group_reverse_index_loaded = delete_key g p.group_reverse_index_loaded;
}
