-- ===== src/GroupService/Refinement/Guards.antt =====
-- What the guards of the callbacks establish.
use yun_chat.Prelude.{
  ℕ, ◌≡◌, ◌≢◌, refl, true, false, ◌&&◌, ◌||◌, not, Option, none, some, arith, ◌==◌, is_some,
  on_option,
}
use yun_chat.Model.{Group, GroupMember, role_member}
use yun_chat.Database.{Db}
use yun_chat.Database.Rows.{find_member, find_member_key}
use yun_chat.GroupService.Callbacks.{can_manage_group_members}
use yun_chat.GroupService.Moves.{Owns, Manages, Outranks}

module _ (d : Db) (group : Group) (g op : ℕ) where
  -- The test of `canManageGroupMembers` on the operator's row.
  pub Manages-of_test :
      can_manage_group_members group (find_member g op d.members) op ≡ true → Manages d group g op
  Manages-of_test h =
      on_option (find_member g op d.members) (λ e. ground arith) (λ operator e. ground arith)

  pub Outranks-of_tests :
      (u : ℕ) (target : GroupMember)
      → find_member g u d.members ≡ some target
      → can_manage_group_members group (find_member g op d.members) op ≡ true
      → (not (group.owner_id == op) && not (target.role == role_member)) ≡ false
      → Outranks d group g op u
  Outranks-of_tests u target et h k =
      on_option (find_member g op d.members) (λ e. ground arith) (λ operator e. ground arith)

  pub Owns-of_test :
      (not (is_some (find_member g op d.members)) || not (group.owner_id == op)) ≡ false
      → Owns d group g op
  Owns-of_test h = ground arith

-- The row of `u` passed the test that it is not the owner's.
pub not_owner_of_test :
    (d : Db) (g u o : ℕ) (target : GroupMember)
    → find_member g u d.members ≡ some target
    → (target.user_id == o) ≡ false
    → u ≢ o
not_owner_of_test d g u o target et h = ground (arith, find_member_key g u d.members target et)

pub is_some-false : {A : Type 0} (o : Option A) → is_some o ≡ false → o ≡ none
is_some-false none e = refl
is_some-false (some a) e = cc
