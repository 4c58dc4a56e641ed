-- ===== src/GroupService.antt =====
-- backend/internal/service/group.go: the use cases of a group.
--
-- A use case runs one transaction and then, if it committed, sends best-effort hints: `Effect` lists the
-- calls of the cache and of the notifier, whose errors the source drops.
pub mod Profile
pub mod Callbacks
pub mod Moves
pub mod Requests
pub mod Refinement
pub mod Consistency
pub mod Steadiness
pub mod Footprint
pub mod UseCases
pub mod Histories
pub mod Lifecycle
pub mod Removal
pub mod Admission
use yun_chat.Prelude.{
  ℕ, Bool, true, false, not, ◌&&◌, ◌||◌, Option, none, some, List, [], ◌∷◌, ◌++◌, map, ◌==◌, leb,
  some_passes, if◌then◌else◌,
}
use yun_chat.AppError.{
  Code, invalid_param, invalid_role, internal_failure, already_member, group_not_found,
  group_not_member,
}
use yun_chat.Sql.{
  Failure, app, conflict, Result, ok, err, Conn, Sql, pure, reject_if, require, query,
  within_transaction, ◌>>=◌, ◌>>◌,
}
use yun_chat.Model.{Text, Group, GroupMember, role_member, role_admin}
use yun_chat.Database.{Db}
use yun_chat.Database.Groups.{get_group_members, get_group_for_update, get_group_member_for_update}
use yun_chat.GroupService.Callbacks.{
  create_callback, add_member_callback, remove_member_callback, update_role_callback,
  mute_member_callback, transfer_ownership_callback, leave_callback, disband_callback,
  update_callback,
}
use yun_chat.Service
use yun_chat.Service.{Answer, returned, failed, respond, with_valid, reject}
use yun_chat.GroupService.Profile.{normalize_group_profile, normalize_group_mute_deadline}

-- `GroupRemovedReason…` and `GroupUpdatedReason…`
pub data Reason : Type 0 where
  left dissolved member_left owner_transferred : Reason

pub data GroupEvent : Type 0 where
  group_removed group_updated : ℕ → Reason → GroupEvent

pub data Effect : Type 0 where
  reconcile_group_members : ℕ → Effect
  notify_group_event : ℕ → GroupEvent → Effect

-- The optional ports of `GroupServiceImpl`.
pub record GroupOptions : Type 0 where
  pub has_cache : Bool
  pub has_notifier : Bool

-- The answer to the caller, the connection, and the hints sent.
abbrev pub Reply : Type 0 → Type 0
Reply A = Service.Reply Effect A

unfoldable pub group_service_error : Failure → Code
group_service_error (app code) = code
group_service_error _ = internal_failure

unfoldable pub add_member_error : Failure → Code
add_member_error conflict = already_member
add_member_error other = group_service_error other

pub refresh_group_member_cache : GroupOptions → ℕ → List Effect
refresh_group_member_cache options group_id =
    if options.has_cache then reconcile_group_members group_id ∷ [] else []

pub notify_group_user : GroupOptions → ℕ → GroupEvent → List Effect
notify_group_user options user_id event =
    if options.has_notifier then notify_group_event user_id event ∷ [] else []

-- The loop over the recipients, with the set `seen`; `skips_invalid` is the guard `userID <= 0`.
pub notify_distinct : GroupOptions → GroupEvent → Bool → List ℕ → List ℕ → List Effect
notify_distinct options event skips_invalid seen [] = []
notify_distinct options event skips_invalid seen (u ∷ us) =
    let next = notify_distinct options event skips_invalid (u ∷ seen) us in
    let same = notify_distinct options event skips_invalid seen us in
    if skips_invalid && leb u 0
    then same
    else if some_passes (λ v. v == u) seen
    then same
    else notify_group_user options u event ++ next

abbrev pub recipients_or : List ℕ → Result (List GroupMember) → List ℕ
recipients_or fallback (ok members) = map (λ m. m.user_id) members
recipients_or fallback (err e) = fallback

-- Reads the members after the commit, outside the transaction.
unfoldable pub notify_current_group_members :
    GroupOptions → GroupEvent → ℕ → List ℕ → Conn Db → Conn Db × List Effect
notify_current_group_members options event group_id fallback c =
    if options.has_notifier
    then (let (r, c') = get_group_members group_id c in
        (c', notify_distinct options event true [] (recipients_or fallback r)))
    else (c, [])

module _ (options : GroupOptions) where
  abbrev pub refreshed : ℕ → Unit {0} → Conn Db → Reply (Unit {0})
  refreshed group_id _ c = (returned tt, c, refresh_group_member_cache options group_id)

  abbrev pub refreshed_if_changed : ℕ → Bool → Conn Db → Reply (Unit {0})
  refreshed_if_changed group_id changed c =
      (returned tt, c, if changed then refresh_group_member_cache options group_id else [])

  abbrev pub named : ℕ → Conn Db → Reply ℕ
  named group_id c = (returned group_id, c, refresh_group_member_cache options group_id)

  abbrev pub create_valid : ℕ → Text × Text → Conn Db → Reply ℕ
  create_valid owner_id (name, notice) c =
      respond group_service_error named
        (within_transaction (create_callback owner_id name notice) c)

  unfoldable pub create : ℕ → Text → Text → Conn Db → Reply ℕ
  create owner_id raw_name raw_notice =
      if leb owner_id 0
      then reject invalid_param
      else with_valid (normalize_group_profile raw_name raw_notice) (create_valid owner_id)

  unfoldable pub add_member : ℕ → ℕ → ℕ → Conn Db → Reply (Unit {0})
  add_member group_id operator_id member_id c =
      if leb group_id 0 || leb operator_id 0 || leb member_id 0
      then reject invalid_param c
      else respond add_member_error (refreshed group_id)
          (within_transaction (add_member_callback group_id operator_id member_id) c)

  unfoldable pub remove_member : ℕ → ℕ → ℕ → Conn Db → Reply (Unit {0})
  remove_member group_id operator_id member_id c =
      if leb group_id 0 || leb operator_id 0 || leb member_id 0
      then reject invalid_param c
      else respond group_service_error (refreshed group_id)
          (within_transaction (remove_member_callback group_id operator_id member_id) c)

  unfoldable pub update_role : ℕ → ℕ → ℕ → ℕ → Conn Db → Reply (Unit {0})
  update_role group_id operator_id member_id role c =
      if leb group_id 0 || leb operator_id 0 || leb member_id 0
      then reject invalid_param c
      else if not (role == role_member) && not (role == role_admin)
      then reject invalid_role c
      else respond group_service_error (refreshed_if_changed group_id)
          (within_transaction (update_role_callback group_id operator_id member_id role) c)

  abbrev pub mute_valid : ℕ → ℕ → ℕ → ℕ → Option ℕ → Conn Db → Reply (Unit {0})
  mute_valid group_id operator_id member_id now_in_callback deadline c =
      respond group_service_error (refreshed_if_changed group_id) (
        within_transaction
          (mute_member_callback group_id operator_id member_id deadline now_in_callback) c)

  -- The clock is read twice: before the transaction and in it.
  unfoldable pub mute_member : ℕ → ℕ → ℕ → Option ℕ → ℕ → ℕ → Conn Db → Reply (Unit {0})
  mute_member group_id operator_id member_id muted_until now now_in_callback =
      if leb group_id 0 || leb operator_id 0 || leb member_id 0
      then reject invalid_param
      else with_valid (normalize_group_mute_deadline muted_until now)
          (mute_valid group_id operator_id member_id now_in_callback)

  abbrev pub owner_moved : ℕ → ℕ → ℕ → Unit {0} → Conn Db → Reply (Unit {0})
  owner_moved group_id operator_id new_owner_id _ c =
      let (c', hints) =
        notify_current_group_members options (group_updated group_id owner_transferred) group_id
          (operator_id ∷ new_owner_id ∷ []) c in
      (returned tt, c', refresh_group_member_cache options group_id ++ hints)

  unfoldable pub transfer_ownership : ℕ → ℕ → ℕ → Conn Db → Reply (Unit {0})
  transfer_ownership group_id operator_id new_owner_id c =
      if leb group_id 0 || leb operator_id 0 || leb new_owner_id 0
      then reject invalid_param c
      else if operator_id == new_owner_id
      then reject invalid_param c
      else respond group_service_error (owner_moved group_id operator_id new_owner_id)
          (within_transaction (transfer_ownership_callback group_id operator_id new_owner_id) c)

  abbrev pub member_gone : ℕ → ℕ → Unit {0} → Conn Db → Reply (Unit {0})
  member_gone group_id user_id _ c =
      let (c', hints) =
        notify_current_group_members options (group_updated group_id member_left) group_id [] c in
      (
        returned tt,
        c',
        refresh_group_member_cache options group_id
            ++ notify_group_user options user_id (group_removed group_id left)
            ++ hints,
      )

  unfoldable pub leave : ℕ → ℕ → Conn Db → Reply (Unit {0})
  leave group_id user_id c =
      if leb group_id 0 || leb user_id 0
      then reject invalid_param c
      else respond group_service_error (member_gone group_id user_id)
          (within_transaction (leave_callback group_id user_id) c)

  abbrev pub group_gone : ℕ → Bool × List ℕ → Conn Db → Reply (Unit {0})
  group_gone group_id (cleanup_required, recipients) c =
      if cleanup_required
      then (
        returned tt,
        c,
        refresh_group_member_cache options group_id
            ++ notify_distinct options (group_removed group_id dissolved) false [] recipients,
      )
      else (returned tt, c, [])

  unfoldable pub disband : ℕ → ℕ → Conn Db → Reply (Unit {0})
  disband group_id operator_id c =
      if leb group_id 0 || leb operator_id 0
      then reject invalid_param c
      else respond group_service_error (group_gone group_id)
          (within_transaction (disband_callback group_id operator_id) c)

abbrev pub silent : Unit {0} → Conn Db → Reply (Unit {0})
silent _ c = (returned tt, c, [])

abbrev pub update_valid : ℕ → ℕ → Text × Text → Conn Db → Reply (Unit {0})
update_valid operator_id group_id (name, notice) c =
    respond group_service_error silent
      (within_transaction (update_callback operator_id group_id name notice) c)

unfoldable pub update : ℕ → ℕ → Text → Text → Conn Db → Reply (Unit {0})
update operator_id group_id raw_name raw_notice =
    if leb operator_id 0 || leb group_id 0
    then reject invalid_param
    else with_valid (normalize_group_profile raw_name raw_notice)
        (update_valid operator_id group_id)

-- Two reads outside a transaction.
unfoldable pub get_reads : ℕ → ℕ → Sql Db Group
get_reads user_id group_id = do
  group ← require (← get_group_for_update group_id) group_not_found
  member ← require (← get_group_member_for_update group_id user_id) group_not_member
  pure group

abbrev pub found : Group → Conn Db → Reply Group
found group c = (returned group, c, [])

unfoldable pub get : ℕ → ℕ → Conn Db → Reply Group
get user_id group_id c =
    if leb user_id 0 || leb group_id 0
    then reject invalid_param c
    else respond group_service_error found (get_reads user_id group_id c)
