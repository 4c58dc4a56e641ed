-- ===== src/GroupService/Steadiness.antt =====
-- Every callback of group.go is a sequence of statements and guards.
use yun_chat.Prelude.{ℕ, Option, leb}
use yun_chat.Sql.Steady.{Steady, steady_rules, Steady-if, Steady-raise, Steady-statement}
use yun_chat.Sql.{driver}
use yun_chat.Model.{Text, Group, GroupMember}
use yun_chat.Database.{CacheResource, is_friend_pair, enqueue_cache_reconcile}
use yun_chat.Database.Steadiness.{lock_users-Steady}
use yun_chat.Database.Groups.{
  lock_group_creator, create_group, add_group_member, get_group_for_update,
  get_group_member_for_update, count_group_members, get_group_members, remove_group_member,
  upsert_group_tombstone, is_group_tombstoned, delete_group_members, delete_group,
  update_group_owner, update_group_member_role, update_group_member_mute, update_group_profile,
}
use yun_chat.GroupService.Callbacks.{
  create_callback, add_member_callback, remove_member_callback, update_role_callback,
  mute_member_callback, transfer_ownership_callback, leave_callback, disband_callback,
  update_callback, admit_member, disband_found, disband_live,
}

enqueue_cache_reconcile-Steady : (r : CacheResource) (g : ℕ) → Steady (enqueue_cache_reconcile r g)
unfolding enqueue_cache_reconcile
enqueue_cache_reconcile-Steady r g =
    Steady-if (leb g 0) _ _ (Steady-raise driver) (Steady-statement _)

is_friend_pair-Steady : (a b : ℕ) → Steady (is_friend_pair a b)
unfolding is_friend_pair
is_friend_pair-Steady a b = Steady-statement _

lock_group_creator-Steady : (u : ℕ) → Steady (lock_group_creator u)
unfolding lock_group_creator
lock_group_creator-Steady u = Steady-statement _

create_group-Steady : (group : Group) → Steady (create_group group)
unfolding create_group
create_group-Steady group = Steady-statement _

add_group_member-Steady : (m : GroupMember) → Steady (add_group_member m)
unfolding add_group_member
add_group_member-Steady m = Steady-statement _

get_group_for_update-Steady : (g : ℕ) → Steady (get_group_for_update g)
unfolding get_group_for_update
get_group_for_update-Steady g = Steady-statement _

get_group_member_for_update-Steady : (g u : ℕ) → Steady (get_group_member_for_update g u)
unfolding get_group_member_for_update
get_group_member_for_update-Steady g u = Steady-statement _

count_group_members-Steady : (g : ℕ) → Steady (count_group_members g)
unfolding count_group_members
count_group_members-Steady g = Steady-statement _

get_group_members-Steady : (g : ℕ) → Steady (get_group_members g)
unfolding get_group_members
get_group_members-Steady g = Steady-statement _

remove_group_member-Steady : (g u : ℕ) → Steady (remove_group_member g u)
unfolding remove_group_member
remove_group_member-Steady g u = Steady-statement _

upsert_group_tombstone-Steady : (g u : ℕ) → Steady (upsert_group_tombstone g u)
unfolding upsert_group_tombstone
upsert_group_tombstone-Steady g u = Steady-statement _

is_group_tombstoned-Steady : (g : ℕ) → Steady (is_group_tombstoned g)
unfolding is_group_tombstoned
is_group_tombstoned-Steady g = Steady-statement _

delete_group_members-Steady : (g : ℕ) → Steady (delete_group_members g)
unfolding delete_group_members
delete_group_members-Steady g = Steady-statement _

delete_group-Steady : (g : ℕ) → Steady (delete_group g)
unfolding delete_group
delete_group-Steady g = Steady-statement _

update_group_owner-Steady : (g u : ℕ) → Steady (update_group_owner g u)
unfolding update_group_owner
update_group_owner-Steady g u = Steady-statement _

update_group_member_role-Steady : (g u role : ℕ) → Steady (update_group_member_role g u role)
unfolding update_group_member_role
update_group_member_role-Steady g u role = Steady-statement _

update_group_member_mute-Steady : (g u : ℕ) (t : Option ℕ) → Steady (update_group_member_mute g u t)
unfolding update_group_member_mute
update_group_member_mute-Steady g u t = Steady-statement _

update_group_profile-Steady :
    (g : ℕ) (name notice : Text) → Steady (update_group_profile g name notice)
unfolding update_group_profile
update_group_profile-Steady g name notice = Steady-statement _

ruleset statements_steady = (
  steady_rules, enqueue_cache_reconcile-Steady, lock_users-Steady, is_friend_pair-Steady,
  lock_group_creator-Steady, create_group-Steady, add_group_member-Steady,
  get_group_for_update-Steady, get_group_member_for_update-Steady, count_group_members-Steady,
  get_group_members-Steady, remove_group_member-Steady, upsert_group_tombstone-Steady,
  is_group_tombstoned-Steady, delete_group_members-Steady, delete_group-Steady,
  update_group_owner-Steady, update_group_member_role-Steady, update_group_member_mute-Steady,
  update_group_profile-Steady,
)

admit_member-Steady : (group : Group) (g u n : ℕ) → Steady (admit_member group g u n)
unfolding admit_member
admit_member-Steady group g u n = search statements_steady depth 20

pub create_callback-Steady :
    (owner : ℕ) (name notice : Text) → Steady (create_callback owner name notice)
unfolding create_callback
create_callback-Steady owner name notice = search statements_steady depth 20

pub add_member_callback-Steady : (g op u : ℕ) → Steady (add_member_callback g op u)
unfolding add_member_callback
add_member_callback-Steady g op u = search (statements_steady, admit_member-Steady) depth 20

pub remove_member_callback-Steady : (g op u : ℕ) → Steady (remove_member_callback g op u)
unfolding remove_member_callback
remove_member_callback-Steady g op u = search statements_steady depth 20

pub update_role_callback-Steady : (g op u role : ℕ) → Steady (update_role_callback g op u role)
unfolding update_role_callback
update_role_callback-Steady g op u role = search statements_steady depth 20

pub mute_member_callback-Steady :
    (g op u : ℕ) (t : Option ℕ) (now : ℕ) → Steady (mute_member_callback g op u t now)
unfolding mute_member_callback
mute_member_callback-Steady g op u t now = search statements_steady depth 20

pub transfer_ownership_callback-Steady : (g op u : ℕ) → Steady (transfer_ownership_callback g op u)
unfolding transfer_ownership_callback
transfer_ownership_callback-Steady g op u = search statements_steady depth 20

pub leave_callback-Steady : (g u : ℕ) → Steady (leave_callback g u)
unfolding leave_callback
leave_callback-Steady g u = search statements_steady depth 20

disband_live-Steady : (g op : ℕ) (group : Group) → Steady (disband_live g op group)
unfolding disband_live
disband_live-Steady g op group = search statements_steady depth 20

disband_found-Steady : (g op : ℕ) (found : Option Group) → Steady (disband_found g op found)
unfolding disband_found
disband_found-Steady g op Option.none = search statements_steady depth 20
disband_found-Steady g op (Option.some group) = disband_live-Steady g op group

pub disband_callback-Steady : (g op : ℕ) → Steady (disband_callback g op)
unfolding disband_callback
disband_callback-Steady g op = search (statements_steady, disband_found-Steady) depth 20

pub update_callback-Steady :
    (op g : ℕ) (name notice : Text) → Steady (update_callback op g name notice)
unfolding update_callback
update_callback-Steady op g name notice = search statements_steady depth 20
