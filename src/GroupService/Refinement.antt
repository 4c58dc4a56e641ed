-- ===== src/GroupService/Refinement.antt =====
-- The callbacks of group.go, run without driver failures, against the moves of their callers.
pub mod Guards
use yun_chat.Prelude.{
  ℕ, ◌≡◌, ◌≢◌, refl, true, false, ◌&&◌, ◌||◌, not, Option, none, some, arith, ◌==◌, ==_iff, leb,
  is_some, on_option, on_test, unless, unless_le,
}
use yun_chat.Sql.Transactions.{serial}
use yun_chat.Model.{Text, Group, GroupMember, role_member, role_admin, role_owner}
use yun_chat.Database.{Db, has_edge, find_user}
use yun_chat.Database.Rows.{find_group, find_member, find_member_key, count_members}
use yun_chat.Database.Locks.{Exists, Locks, lock_count, lock_users_lem}
use yun_chat.GroupService.Callbacks.{
  admit_member, disband_found, disband_live, statements, can_manage_group_members,
  same_optional_group_time, has_passed, remove_member_callback, update_role_callback,
  mute_member_callback, transfer_ownership_callback, add_member_callback, leave_callback,
  disband_callback, update_callback, create_callback,
}
use yun_chat.GroupService.Moves.{
  created, joined, removed, promoted, muted, transferred, left, dissolved, renamed, Owns, Manages,
  Outranks,
}
use yun_chat.Service.{valid}
use yun_chat.GroupService.Profile.{normalize_group_profile, normalize_group_mute_deadline}
use yun_chat.GroupService.Requests.{
  create, add_member, remove_member, update_role, mute_member, transfer_ownership, leave, disband,
  update, Performs, still, via,
}
use yun_chat.GroupService.Refinement.Guards.{
  Manages-of_test, Outranks-of_tests, Owns-of_test, not_owner_of_test, is_some-false,
}

module _ (d : Db) (g op u : ℕ) (group : Group) (eg : find_group g d.groups ≡ some group) where
  admit_member-Move :
      Manages d group g op
      → find_member g u d.members ≡ none
      → Exists d op × Exists d u
      → (has_edge op u d.friendships || has_edge u op d.friendships) ≡ true
      → Performs
          (add_member g op u)
          d
          (serial (admit_member group g u (count_members g d.members)) d).1
  unfolding admit_member statements
  admit_member-Move may absent exist befriended =
      unless_le group.max_members (count_members g d.members) (λ e. still (simp e))
        λ room fits.
          unless (leb g 0) (λ e. still (simp (fits, absent, e)))
            λ positive.
              via
                (joined g op u group eg may absent exist befriended room
                  (simp (fits, absent, positive)))
                refl

module _ (d : Db) (g op : ℕ) where
  module _ (u : ℕ) where
    pub remove_member-Move :
        Performs (remove_member g op u) d (serial (remove_member_callback g op u) d).1
    unfolding remove_member_callback statements
    remove_member-Move =
        on_option (find_group g d.groups) (λ e. still (simp e))
          λ group eg.
            on_test (can_manage_group_members group (find_member g op d.members) op)
              (λ e. still (simp (eg, e)))
              λ may.
                on_option (find_member g u d.members) (λ e. still (simp (eg, may, e)))
                  λ target et.
                    unless (target.user_id == group.owner_id) (λ e. still (simp (eg, may, et, e)))
                      λ other.
                        unless (not (group.owner_id == op) && not (target.role == role_member))
                          (λ e. still (simp (eg, may, et, other, e)))
                          λ below.
                            unless (leb g 0) (λ e. still (simp (eg, may, et, other, below, e)))
                              λ positive.
                                via
                                  (removed g op u group eg
                                    (Outranks-of_tests d group g op u target et may below)
                                    (not_owner_of_test d g u group.owner_id target et other)
                                    (simp (eg, may, et, other, below, positive)))
                                  refl

    pub update_role-Move :
        (role : ℕ)
        → role ≢ role_owner
        → Performs (update_role g op u role) d (serial (update_role_callback g op u role) d).1
    unfolding update_role_callback statements
    update_role-Move role ordinary =
        on_option (find_group g d.groups) (λ e. still (simp e))
          λ group eg.
            unless (not (is_some (find_member g op d.members)) || not (group.owner_id == op))
              (λ e. still (simp (eg, e)))
              λ may.
                on_option (find_member g u d.members) (λ e. still (simp (eg, may, e)))
                  λ target et.
                    unless (target.user_id == group.owner_id) (λ e. still (simp (eg, may, et, e)))
                      λ other.
                        unless (target.role == role) (λ e. still (simp (eg, may, et, other, e)))
                          λ changes.
                            unless (leb g 0) (λ e. still (simp (eg, may, et, other, changes, e)))
                              λ positive.
                                via
                                  (promoted g op u role group eg (Owns-of_test d group g op may)
                                    (not_owner_of_test d g u group.owner_id target et other)
                                    ordinary (simp (eg, may, et, other, changes, positive)))
                                  refl

    pub mute_member-Move :
        (raw : Option ℕ) (read now : ℕ) (deadline : Option ℕ)
        → normalize_group_mute_deadline raw read ≡ valid deadline
        → Performs
            (mute_member g op u raw read now)
            d
            (serial (mute_member_callback g op u deadline now) d).1
    unfolding mute_member_callback statements
    mute_member-Move raw read now deadline normal =
        on_option (find_group g d.groups) (λ e. still (simp e))
          λ group eg.
            on_test (can_manage_group_members group (find_member g op d.members) op)
              (λ e. still (simp (eg, e)))
              λ may.
                on_option (find_member g u d.members) (λ e. still (simp (eg, may, e)))
                  λ target et.
                    unless (target.user_id == group.owner_id) (λ e. still (simp (eg, may, et, e)))
                      λ other.
                        unless (not (group.owner_id == op) && not (target.role == role_member))
                          (λ e. still (simp (eg, may, et, other, e)))
                          λ below.
                            unless (has_passed now deadline)
                              (λ e. still (simp (eg, may, et, other, below, e)))
                              λ future.
                                unless (same_optional_group_time target.muted_until deadline)
                                  (λ e. still (simp (eg, may, et, other, below, future, e)))
                                  λ changes.
                                    unless (leb g 0)
                                      (λ e.
                                        still
                                          (simp (eg, may, et, other, below, future, changes, e)))
                                      λ positive.
                                        via
                                          (muted g op u deadline group eg
                                            (Outranks-of_tests d group g op u target et may below)
                                            (not_owner_of_test d g u group.owner_id target et other)
                                            (simp (
                                              eg, may, et, other, below, future, changes, positive,
                                            )))
                                          (raw, read, now, refl, normal)

    pub transfer_ownership-Move :
        op ≢ u
        → Performs (transfer_ownership g op u) d (serial (transfer_ownership_callback g op u) d).1
    unfolding transfer_ownership_callback statements
    transfer_ownership-Move differ =
        on_option (find_group g d.groups) (λ e. still (simp e))
          λ group eg.
            unless (not (is_some (find_member g op d.members)) || not (group.owner_id == op))
              (λ e. still (simp (eg, e)))
              λ may.
                on_option (find_member g u d.members) (λ e. still (simp (eg, may, e)))
                  λ target et.
                    unless (leb g 0) (λ e. transfer_stays group target eg may et e)
                      λ positive.
                        on_option target.muted_until
                          (λ e.
                            via
                              (transferred g op u false group eg (Owns-of_test d group g op may)
                                differ (simp et) (simp (eg, may, et, e, positive)))
                              refl)
                          (λ t e.
                            via
                              (transferred g op u true group eg (Owns-of_test d group g op may)
                                differ (simp et) (simp (eg, may, et, e, positive)))
                              refl)
      where
        transfer_stays :
            (group : Group) (target : GroupMember)
            → find_group g d.groups ≡ some group
            → (not (is_some (find_member g op d.members)) || not (group.owner_id == op)) ≡ false
            → find_member g u d.members ≡ some target
            → leb g 0 ≡ true
            → Performs
                (transfer_ownership g op u)
                d
                (serial (transfer_ownership_callback g op u) d).1
        transfer_stays group target eg may et e =
            on_option target.muted_until (λ m. still (simp (eg, may, et, m, e)))
              (λ t m. still (simp (eg, may, et, m, e)))

    pub add_member-Move : Performs (add_member g op u) d (serial (add_member_callback g op u) d).1
    unfolding add_member_callback statements
    add_member-Move =
        on_option (find_group g d.groups) (λ e. still (simp e))
          λ group eg.
            on_test (can_manage_group_members group (find_member g op d.members) op)
              (λ e. still (simp (eg, e)))
              λ may.
                unless (is_some (find_member g u d.members)) (λ e. still (simp (eg, may, e)))
                  λ absent.
                    on_test (lock_count d op u == 2)
                      (λ e. still (simp (eg, may, absent, locks.0, e)))
                      λ two.
                        on_test (has_edge op u d.friendships || has_edge u op d.friendships)
                          (λ e. still (simp (eg, may, absent, locks.0, two, e)))
                          λ befriended.
                            simp (eg, may, absent, locks.0, two, befriended)
                              (admit_member-Move d g op u group eg
                                (Manages-of_test d group g op may) (is_some-false _ absent)
                                (let both = locks.1.0 ((==_iff _ _).0 two) in (both.1, both.2))
                                befriended)
      where
        locks : Locks d op u (lock_count d op u)
        locks = lock_users_lem d op u

  pub leave-Move : Performs (leave g op) d (serial (leave_callback g op) d).1
  unfolding leave_callback statements
  leave-Move =
      on_option (find_group g d.groups) (λ e. still (simp e))
        λ group eg.
          on_test (is_some (find_member g op d.members)) (λ e. still (simp (eg, e)))
            λ belongs.
              unless (group.owner_id == op) (λ e. still (simp (eg, belongs, e)))
                λ other.
                  unless (leb g 0) (λ e. still (simp (eg, belongs, other, e)))
                    λ positive.
                      via
                        (left g op group eg belongs (ground arith)
                          (simp (eg, belongs, other, positive)))
                        refl

  pub disband-Move : Performs (disband g op) d (serial (disband_callback g op) d).1
  unfolding disband_callback disband_found disband_live statements
  disband-Move =
      on_option (find_group g d.groups) (λ e. still (simp e))
        λ group eg.
          on_test (group.owner_id == op) (λ e. still (simp (eg, e)))
            λ owns.
              unless (leb g 0) (λ e. still (simp (eg, owns, e)))
                λ positive.
                  via
                    (dissolved g op group eg ((==_iff group.owner_id op).0 owns)
                      (simp (eg, owns, positive)))
                    refl

  pub update-Move :
      (raw_name raw_notice name notice : Text)
      → normalize_group_profile raw_name raw_notice ≡ valid (name, notice)
      → Performs (update op g raw_name raw_notice) d (serial (update_callback op g name notice) d).1
  unfolding update_callback statements
  update-Move raw_name raw_notice name notice normal =
      on_option (find_group g d.groups) (λ e. still (simp e))
        λ group eg.
          on_option (find_member g op d.members) (λ e. still (simp (eg, e)))
            λ member em.
              unless (not (group.owner_id == op) && not (member.role == role_admin))
                (λ e. still (simp (eg, em, e)))
                λ may.
                  via (renamed g op name notice group eg (ground arith) (simp (eg, em, may)))
                    (raw_name, raw_notice, refl, normal)

pub create-Move :
    (d : Db) (owner : ℕ) (raw_name raw_notice name notice : Text)
    → normalize_group_profile raw_name raw_notice ≡ valid (name, notice)
    → Performs (create owner raw_name raw_notice) d (serial (create_callback owner name notice) d).1
unfolding create_callback statements
create-Move d owner raw_name raw_notice name notice normal =
    on_test (is_some (find_user owner d.users)) (λ e. still (simp e))
      λ exists.
        unless (is_some (find_member d.next_group_id owner d.members))
          (λ e. still (simp (exists, e)))
          λ fresh.
            unless (leb d.next_group_id 0) (λ e. still (simp (exists, fresh, e)))
              λ positive.
                via (created owner name notice exists (simp (exists, fresh, positive)))
                  (raw_name, raw_notice, refl, normal)
