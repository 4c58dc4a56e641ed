-- ===== src/GroupService/Removal.antt =====
-- Who may remove whom from a group.
use yun_chat.Prelude.{
  ℕ, ◌<◌, ◌≡◌, ◌≢◌, ◌↔◌, refl, false, true, ◌&&◌, ◌||◌, not, some, none, arith, ◌==◌, leb, is_some,
  on_option, on_test, unless,
}
use yun_chat.Sql.{Result, Conn, Failure, ok, err, quiet, within_transaction, close}
use yun_chat.Model.{Group, role_member}
use yun_chat.Database.{Db}
use yun_chat.Database.Rows.{find_group, find_member, find_member_key}
use yun_chat.GroupService
use yun_chat.Service.{respond, outcome}
use yun_chat.GroupService.{GroupOptions, group_service_error, refreshed}
use yun_chat.GroupService.Callbacks.{remove_member_callback, can_manage_group_members, statements}
use yun_chat.GroupService.Moves.{Outranks, with_rebuild, without_member}
use yun_chat.GroupService.Refinement.Guards.{Outranks-of_tests, not_owner_of_test}
use yun_chat.GroupService.UseCases.{remove_member, perform}

-- The operator outranks a member of a live group that is not its owner.
pub record Removable (d : Db) (g op u : ℕ) (group : Group) : Type 0 where
  pub found : find_group g d.groups ≡ some group
  pub belongs : is_some (find_member g u d.members) ≡ true
  pub outranks : Outranks d group g op u
  pub other : u ≢ group.owner_id

err_ne_ok : {A : Type 0} {e : Failure} {a : A} → err e ≢ ok a
err_ne_ok h = cc

module _ (d : Db) (g op u : ℕ) where
  -- A callback that succeeds has passed every guard.
  Removable-of_ok :
      (remove_member_callback g op u (quiet d)).0 ≡ ok tt
      → (group : Group) × Removable d g op u group
  unfolding remove_member_callback statements
  Removable-of_ok h =
      on_option (find_group g d.groups) (λ e. absurd (err_ne_ok (simp e at h)))
        λ group eg.
          on_test (can_manage_group_members group (find_member g op d.members) op)
            (λ e. absurd (err_ne_ok (simp (eg, e) at h)))
            λ may.
              on_option (find_member g u d.members)
                (λ e. absurd (err_ne_ok (simp (eg, may, e) at h)))
                λ target et.
                  unless (target.user_id == group.owner_id)
                    (λ e. absurd (err_ne_ok (simp (eg, may, et, e) at h)))
                    λ other.
                      unless (not (group.owner_id == op) && not (target.role == role_member))
                        (λ e. absurd (err_ne_ok (simp (eg, may, et, other, e) at h)))
                        λ below. (
                          group,
                          record {
                            found = eg;
                            belongs = simp et;
                            outranks = Outranks-of_tests d group g op u target et may below;
                            other = not_owner_of_test d g u group.owner_id target et other;
                          },
                        )

  module _ (group : Group) (may : Removable d g op u group)
      (positive : (0 < g) × (0 < op) × (0 < u)) where
    callback_ok :
        remove_member_callback g op u (quiet d)
        ≡ (ok tt, quiet (with_rebuild (without_member d g u) g))
    unfolding remove_member_callback statements
    callback_ok =
        on_option (find_member g u d.members) (λ e. absurd (ground (arith, may.belongs)))
          λ target et.
            let g_ok : leb g 0 ≡ false = ground (arith, positive) in
            let manages : can_manage_group_members group (find_member g op d.members) op ≡ true =
              on_option (find_member g op d.members) (λ e. ground (arith, may.outranks))
                (λ operator e. ground (arith, may.outranks)) in
            let key = find_member_key g u d.members target et in
            let other : (target.user_id == group.owner_id) ≡ false =
              ground (arith, key, may.other) in
            let below : (not (group.owner_id == op) && not (target.role == role_member)) ≡ false =
              ground (arith, may.outranks) in
            simp (may.found, manages, et, other, below, g_ok)

-- A call without an error code comes from a callback without an error.
closed_ok :
    (options : GroupOptions) (d : Db) (g : ℕ) (r : Result (Unit {0})) (c : Conn Db)
    → (outcome (respond group_service_error (refreshed options g) (close d r c))).0 ≡ none
    → r ≡ ok tt
closed_ok options d g (ok tt) c h = refl
closed_ok options d g (err e) c h = absurd (ground (arith, h))

module _ (options : GroupOptions) (d : Db) (g op u : ℕ)
    (positive : (0 < g) × (0 < op) × (0 < u)) where
  guards_pass : (leb g 0 || leb op 0 || leb u 0) ≡ false
  guards_pass = ground (arith, positive)

  Removable-of_none :
      (perform options (remove_member g op u) (quiet d)).0 ≡ none
      → (group : Group) × Removable d g op u group
  unfolding perform GroupService.remove_member within_transaction
  Removable-of_none h = Removable-of_ok d g op u (
      closed_ok options d g (remove_member_callback g op u (quiet d)).0
        (remove_member_callback g op u (quiet d)).1 (simp guards_pass at h))

  none_of_Removable :
      (group : Group)
      → Removable d g op u group
      → perform options (remove_member g op u) (quiet d)
        ≡ (none, with_rebuild (without_member d g u) g)
  unfolding perform GroupService.remove_member within_transaction
  none_of_Removable group may = simp (guards_pass, callback_ok d g op u group may positive)

  -- For positive identifiers and a driver that does not fail, RemoveMember succeeds exactly if the group is
  -- live, the target is a member other than the owner, and the operator is the owner and a member, or an
  -- administrator whose target is an ordinary member.
  pub remove_member_iff :
      ((perform options (remove_member g op u) (quiet d)).0 ≡ none)
      ↔ ((group : Group) × Removable d g op u group)
  remove_member_iff = (Removable-of_none, λ (group, may). rw (none_of_Removable group may) refl)
