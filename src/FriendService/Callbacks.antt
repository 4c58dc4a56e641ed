-- ===== src/FriendService/Callbacks.antt =====
-- The transaction callbacks of backend/internal/service/friend.go.
use yun_chat.Prelude.{ℕ, not, [], Option, none, some, ◌==◌, is_some, if◌then◌else◌}
use yun_chat.AppError.{
  user_not_found, friend_blocked, already_friends, duplicate_request, request_not_found,
  not_request_target,
}
use yun_chat.Sql.{Sql, app, pure, raise, reject_if, require, ◌>>=◌, ◌>>◌}
use yun_chat.Model.{Text, User, FriendRequest, request_pending, request_accepted, request_rejected}
use yun_chat.Database.{Db, friends, blacklist, lock_users, is_friend_pair, enqueue_cache_reconcile}
use yun_chat.Database.Friends.{
  get_friend_user_profile, is_either_blocked, find_pending_friend_request, remove_terminal_requests,
  insert_friend_request, save_friend_request, get_friend_request, set_friend_request_status,
  ensure_friendship_pair, delete_friendship_pair, invalidate_accepted_friend_requests,
  add_blacklist_entry, reject_pending_friend_requests, remove_blacklist_entry,
}

-- The request that `SendRequest` builds; its identifier is the statement's, and the names are read last.
abbrev pub new_request : ℕ → ℕ → Text → ℕ → FriendRequest
new_request a b message now = record {
  id = 0;
  from_user_id = a;
  to_user_id = b;
  username = [];
  avatar_url = [];
  message = message;
  status = request_pending;
  created_at = now;
  updated_at = now;
}

unfoldable pub send_request_callback : ℕ → ℕ → Text → ℕ → Sql Db FriendRequest
send_request_callback a b message now = do
  locked ← lock_users a b
  reject_if (not (locked == 2)) user_not_found
  blocked ← is_either_blocked a b
  reject_if blocked friend_blocked
  befriended ← is_friend_pair a b
  reject_if befriended already_friends
  pending ← find_pending_friend_request a b
  reject_if (is_some pending) duplicate_request
  id ← save_friend_request (new_request a b message now)
  profile ← require (← get_friend_user_profile a) user_not_found
  pure (record (new_request a b message now) {
    id = id;
    username = profile.username;
    avatar_url = profile.avatar_url;
  })

abbrev pub enqueue_friend_pair_reconcile : ℕ → ℕ → Sql Db (Unit {0})
enqueue_friend_pair_reconcile a b =
    enqueue_cache_reconcile friends a >> enqueue_cache_reconcile friends b

-- The captured variables `result.FriendID`, and `acceptedProfile` if `newlyAccepted`.
abbrev pub Accepted : Type 0
Accepted = ℕ × Option User

-- A retry: it repairs a missing direction.
unfoldable pub accept_again : FriendRequest → Sql Db Accepted
accept_again request = do
  ensure_friendship_pair request.from_user_id request.to_user_id
  enqueue_friend_pair_reconcile request.from_user_id request.to_user_id
  pure (request.from_user_id, none)

unfoldable pub accept_pending : FriendRequest → Sql Db Accepted
accept_pending request = do
  blocked ← is_either_blocked request.from_user_id request.to_user_id
  reject_if blocked friend_blocked
  set_friend_request_status request.id request_accepted
  ensure_friendship_pair request.from_user_id request.to_user_id
  profile ← require (← get_friend_user_profile request.to_user_id) user_not_found
  enqueue_friend_pair_reconcile request.from_user_id request.to_user_id
  pure (request.from_user_id, some profile)

-- The switch on the status.
unfoldable pub accept_by_status : FriendRequest → Sql Db Accepted
accept_by_status request =
    if request.status == request_accepted
    then accept_again request
    else if request.status == request_rejected
    then raise (app request_not_found)
    else if request.status == request_pending
    then accept_pending request
    else raise (app request_not_found)

-- Once the row is locked.
unfoldable pub accept_locked : ℕ → FriendRequest → Sql Db Accepted
accept_locked user_id request = do
  reject_if (not (request.to_user_id == user_id)) not_request_target
  accept_by_status request

-- `preview` was read before the transaction.
unfoldable pub accept_request_callback : ℕ → ℕ → FriendRequest → Sql Db Accepted
accept_request_callback user_id request_id preview = do
  locked ← lock_users preview.from_user_id preview.to_user_id
  reject_if (not (locked == 2)) request_not_found
  request ← require (← get_friend_request request_id) request_not_found
  accept_locked user_id request

unfoldable pub reject_by_status : FriendRequest → Sql Db (Unit {0})
reject_by_status request =
    if request.status == request_rejected
    then pure tt
    else if request.status == request_accepted
    then raise (app request_not_found)
    else if request.status == request_pending
    then set_friend_request_status request.id request_rejected
    else raise (app request_not_found)

-- Once the row is locked.
unfoldable pub reject_locked : ℕ → FriendRequest → Sql Db (Unit {0})
reject_locked user_id request = do
  reject_if (not (request.to_user_id == user_id)) not_request_target
  reject_by_status request

unfoldable pub reject_request_callback : ℕ → ℕ → FriendRequest → Sql Db (Unit {0})
reject_request_callback user_id request_id preview = do
  locked ← lock_users preview.from_user_id preview.to_user_id
  reject_if (not (locked == 2)) request_not_found
  request ← require (← get_friend_request request_id) request_not_found
  reject_locked user_id request

unfoldable pub delete_friend_callback : ℕ → ℕ → Sql Db (Unit {0})
delete_friend_callback a b = do
  locked ← lock_users a b
  reject_if (not (locked == 2)) user_not_found
  delete_friendship_pair a b
  invalidate_accepted_friend_requests a b
  enqueue_friend_pair_reconcile a b

unfoldable pub block_callback : ℕ → ℕ → Sql Db (Unit {0})
block_callback a b = do
  locked ← lock_users a b
  reject_if (not (locked == 2)) user_not_found
  add_blacklist_entry a b
  reject_pending_friend_requests a b
  enqueue_cache_reconcile blacklist a

unfoldable pub unblock_callback : ℕ → ℕ → Sql Db (Unit {0})
unblock_callback a b = do
  locked ← lock_users a b
  reject_if (not (locked == 2)) user_not_found
  remove_blacklist_entry a b
  enqueue_cache_reconcile blacklist a

-- Opens the statements that the callbacks run, for a proof that follows a path through them.
unfoldable pub statements : Unit {0}
unfolding get_friend_user_profile is_either_blocked find_pending_friend_request
    remove_terminal_requests insert_friend_request get_friend_request set_friend_request_status
    ensure_friendship_pair delete_friendship_pair invalidate_accepted_friend_requests
    add_blacklist_entry reject_pending_friend_requests remove_blacklist_entry is_friend_pair
    enqueue_cache_reconcile ◌>>=◌
statements = tt
