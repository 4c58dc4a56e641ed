-- ===== src/FriendService.antt =====
-- backend/internal/service/friend.go: friend requests, friendships and the blacklist.
pub mod Callbacks
pub mod Moves
pub mod Requests
pub mod Refinement
pub mod Orderly
pub mod Consent
pub mod Acceptance
pub mod Steadiness
pub mod UseCases
pub mod Histories
use yun_chat.Prelude.{
  ℕ, Bool, ◌||◌, not, Option, none, some, List, [], ◌∷◌, ◌++◌, ◌==◌, ltb, leb, length, some_passes,
  if◌then◌else◌,
}
use yun_chat.AppError.{
  Code, invalid_param, internal_failure, self_request, request_not_found, not_request_target,
  duplicate_request, already_blocked,
}
use yun_chat.Sql.{Failure, app, conflict, Result, ok, err, Conn, Sql, within_transaction}
use yun_chat.Model.{Text, User, FriendRequest}
use yun_chat.Text.{trim_space, is_control}
use yun_chat.Database.{Db}
use yun_chat.Database.Friends.{get_friend_request}
use yun_chat.Service
use yun_chat.Service.{Checked, valid, invalid, returned, failed, respond, with_valid, reject}
use yun_chat.FriendService.Callbacks.{
  Accepted, send_request_callback, accept_request_callback, reject_request_callback,
  delete_friend_callback, block_callback, unblock_callback,
}

-- The calls of the cache and of the notifier.
pub data Effect : Type 0 where
  set_friend_cache delete_friend_cache set_blacklist_member delete_blacklist_member : ℕ → ℕ → Effect
  notify_apply : ℕ → FriendRequest → Effect
  notify_accepted : ℕ → ℕ → ℕ → User → Effect

-- The optional ports of `FriendServiceImpl`.
pub record FriendOptions : Type 0 where
  pub has_cache : Bool
  pub has_notifier : Bool

abbrev pub Reply : Type 0 → Type 0
Reply A = Service.Reply Effect A

unfoldable pub friend_service_error : Failure → Code
friend_service_error (app code) = code
friend_service_error _ = internal_failure

unfoldable pub send_request_error : Failure → Code
send_request_error conflict = duplicate_request
send_request_error other = friend_service_error other

unfoldable pub block_error : Failure → Code
block_error conflict = already_blocked
block_error other = friend_service_error other

abbrev pub max_message_runes : ℕ
max_message_runes = 200

abbrev checked_message : Text → Checked Text
checked_message message =
    if ltb max_message_runes (length message) then invalid invalid_param else valid message

unfoldable pub normalize_friend_message : Text → Checked Text
normalize_friend_message raw =
    if some_passes is_control raw then invalid invalid_param else checked_message (trim_space raw)

unfoldable pub write_cache : FriendOptions → Effect → List Effect
write_cache options write = if options.has_cache then write ∷ [] else []

unfoldable pub notify : FriendOptions → Effect → List Effect
notify options event = if options.has_notifier then event ∷ [] else []

-- `AcceptFriendResult`
pub record AcceptFriendResult : Type 0 where
  pub user_id : ℕ
  pub friend_id : ℕ

module _ (options : FriendOptions) where
  abbrev pub applied : ℕ → FriendRequest → Conn Db → Reply FriendRequest
  applied to request c = (returned request, c, notify options (notify_apply to request))

  abbrev pub send_valid : ℕ → ℕ → ℕ → Text → Conn Db → Reply FriendRequest
  send_valid from to now message c =
      respond send_request_error (applied to)
        (within_transaction (send_request_callback from to message now) c)

  unfoldable pub send_request : ℕ → ℕ → Text → ℕ → Conn Db → Reply FriendRequest
  send_request from to raw_message now =
      if leb from 0 || leb to 0
      then reject invalid_param
      else if from == to
      then reject self_request
      else with_valid (normalize_friend_message raw_message) (send_valid from to now)

  abbrev pub accepted_hints : ℕ → ℕ → Accepted → List Effect
  accepted_hints user_id request_id (friend_id, none) =
      write_cache options (set_friend_cache user_id friend_id)
  accepted_hints user_id request_id (friend_id, some profile) =
      write_cache options (set_friend_cache user_id friend_id)
      ++ notify options (notify_accepted friend_id request_id user_id profile)

  abbrev pub accept_done : ℕ → ℕ → Accepted → Conn Db → Reply AcceptFriendResult
  accept_done user_id request_id a c = (
    returned (record { user_id = user_id; friend_id = a.0 }),
    c,
    accepted_hints user_id request_id a,
  )

  -- The checks of the row that is read before the transaction.
  abbrev pub with_preview :
      {A : Type 0}
      → ℕ
      → (FriendRequest → Conn Db → Reply A)
      → Option FriendRequest
      → Conn Db
      → Reply A
  with_preview user_id next none c = reject request_not_found c
  with_preview user_id next (some preview) c =
      if not (preview.to_user_id == user_id) then reject not_request_target c else next preview c

  abbrev pub accept_previewed : ℕ → ℕ → FriendRequest → Conn Db → Reply AcceptFriendResult
  accept_previewed user_id request_id preview c =
      respond friend_service_error (accept_done user_id request_id)
        (within_transaction (accept_request_callback user_id request_id preview) c)

  -- Other transactions may commit between the two: `AcceptRequest` from the preview on.
  unfoldable pub accept_from : ℕ → ℕ → Option FriendRequest → Conn Db → Reply AcceptFriendResult
  accept_from user_id request_id = with_preview user_id (accept_previewed user_id request_id)

  unfoldable pub accept_request : ℕ → ℕ → Conn Db → Reply AcceptFriendResult
  accept_request user_id request_id c =
      if leb user_id 0 || leb request_id 0
      then reject invalid_param c
      else respond friend_service_error (accept_from user_id request_id)
          (get_friend_request request_id c)

  abbrev pub done_with : List Effect → Unit {0} → Conn Db → Reply (Unit {0})
  done_with hints _ c = (returned tt, c, hints)

  abbrev pub reject_previewed : ℕ → ℕ → FriendRequest → Conn Db → Reply (Unit {0})
  reject_previewed user_id request_id preview c =
      respond friend_service_error (done_with [])
        (within_transaction (reject_request_callback user_id request_id preview) c)

  unfoldable pub reject_from : ℕ → ℕ → Option FriendRequest → Conn Db → Reply (Unit {0})
  reject_from user_id request_id = with_preview user_id (reject_previewed user_id request_id)

  unfoldable pub reject_request : ℕ → ℕ → Conn Db → Reply (Unit {0})
  reject_request user_id request_id c =
      if leb user_id 0 || leb request_id 0
      then reject invalid_param c
      else respond friend_service_error (reject_from user_id request_id)
          (get_friend_request request_id c)

  unfoldable pub delete_friend : ℕ → ℕ → Conn Db → Reply (Unit {0})
  delete_friend user_id friend_id c =
      if leb user_id 0 || leb friend_id 0
      then reject invalid_param c
      else if user_id == friend_id
      then reject self_request c
      else respond friend_service_error
          (done_with (write_cache options (delete_friend_cache user_id friend_id)))
          (within_transaction (delete_friend_callback user_id friend_id) c)

  unfoldable pub block : ℕ → ℕ → Conn Db → Reply (Unit {0})
  block user_id blocked_id c =
      if leb user_id 0 || leb blocked_id 0
      then reject invalid_param c
      else if user_id == blocked_id
      then reject self_request c
      else respond block_error
          (done_with (write_cache options (set_blacklist_member user_id blocked_id)))
          (within_transaction (block_callback user_id blocked_id) c)

  unfoldable pub unblock : ℕ → ℕ → Conn Db → Reply (Unit {0})
  unblock user_id blocked_id c =
      if leb user_id 0 || leb blocked_id 0
      then reject invalid_param c
      else if user_id == blocked_id
      then reject self_request c
      else respond friend_service_error
          (done_with (write_cache options (delete_blacklist_member user_id blocked_id)))
          (within_transaction (unblock_callback user_id blocked_id) c)
