-- ===== src/FriendService/Steadiness.antt =====
-- Every callback of friend.go is a sequence of statements and guards.
use yun_chat.Prelude.{ℕ, leb}
use yun_chat.Sql.Steady.{Steady, steady_rules, Steady-if, Steady-raise, Steady-statement}
use yun_chat.Sql.{driver}
use yun_chat.Model.{Text, FriendRequest}
use yun_chat.Database.{CacheResource, enqueue_cache_reconcile, is_friend_pair}
use yun_chat.Database.Steadiness.{lock_users-Steady}
use yun_chat.Database.Friends.{
  get_friend_user_profile, is_either_blocked, find_pending_friend_request, remove_terminal_requests,
  insert_friend_request, get_friend_request, set_friend_request_status, ensure_friendship_pair,
  delete_friendship_pair, invalidate_accepted_friend_requests, add_blacklist_entry,
  reject_pending_friend_requests, remove_blacklist_entry,
}
use yun_chat.FriendService.Callbacks.{
  send_request_callback, accept_again, accept_pending, accept_by_status, accept_locked,
  accept_request_callback, reject_by_status, reject_locked, reject_request_callback,
  delete_friend_callback, block_callback, unblock_callback,
}

enqueue_cache_reconcile-Steady : (r : CacheResource) (u : ℕ) → Steady (enqueue_cache_reconcile r u)
unfolding enqueue_cache_reconcile
enqueue_cache_reconcile-Steady r u =
    Steady-if (leb u 0) _ _ (Steady-raise driver) (Steady-statement _)

is_friend_pair-Steady : (a b : ℕ) → Steady (is_friend_pair a b)
unfolding is_friend_pair
is_friend_pair-Steady a b = Steady-statement _

get_friend_user_profile-Steady : (a : ℕ) → Steady (get_friend_user_profile a)
unfolding get_friend_user_profile
get_friend_user_profile-Steady a = Steady-statement _

is_either_blocked-Steady : (a b : ℕ) → Steady (is_either_blocked a b)
unfolding is_either_blocked
is_either_blocked-Steady a b = Steady-statement _

find_pending_friend_request-Steady : (a b : ℕ) → Steady (find_pending_friend_request a b)
unfolding find_pending_friend_request
find_pending_friend_request-Steady a b = Steady-statement _

remove_terminal_requests-Steady : (a b : ℕ) → Steady (remove_terminal_requests a b)
unfolding remove_terminal_requests
remove_terminal_requests-Steady a b = Steady-statement _

get_friend_request-Steady : (a : ℕ) → Steady (get_friend_request a)
unfolding get_friend_request
get_friend_request-Steady a = Steady-statement _

set_friend_request_status-Steady : (a b : ℕ) → Steady (set_friend_request_status a b)
unfolding set_friend_request_status
set_friend_request_status-Steady a b = Steady-statement _

ensure_friendship_pair-Steady : (a b : ℕ) → Steady (ensure_friendship_pair a b)
unfolding ensure_friendship_pair
ensure_friendship_pair-Steady a b = Steady-statement _

delete_friendship_pair-Steady : (a b : ℕ) → Steady (delete_friendship_pair a b)
unfolding delete_friendship_pair
delete_friendship_pair-Steady a b = Steady-statement _

invalidate_accepted_friend_requests-Steady :
    (a b : ℕ) → Steady (invalidate_accepted_friend_requests a b)
unfolding invalidate_accepted_friend_requests
invalidate_accepted_friend_requests-Steady a b = Steady-statement _

add_blacklist_entry-Steady : (a b : ℕ) → Steady (add_blacklist_entry a b)
unfolding add_blacklist_entry
add_blacklist_entry-Steady a b = Steady-statement _

reject_pending_friend_requests-Steady : (a b : ℕ) → Steady (reject_pending_friend_requests a b)
unfolding reject_pending_friend_requests
reject_pending_friend_requests-Steady a b = Steady-statement _

remove_blacklist_entry-Steady : (a b : ℕ) → Steady (remove_blacklist_entry a b)
unfolding remove_blacklist_entry
remove_blacklist_entry-Steady a b = Steady-statement _

insert_friend_request-Steady : (request : FriendRequest) → Steady (insert_friend_request request)
unfolding insert_friend_request
insert_friend_request-Steady request = Steady-statement _

ruleset statements_steady = (
  steady_rules, enqueue_cache_reconcile-Steady, lock_users-Steady, is_friend_pair-Steady,
  insert_friend_request-Steady, get_friend_user_profile-Steady, is_either_blocked-Steady,
  find_pending_friend_request-Steady, remove_terminal_requests-Steady, get_friend_request-Steady,
  set_friend_request_status-Steady, ensure_friendship_pair-Steady, delete_friendship_pair-Steady,
  invalidate_accepted_friend_requests-Steady, add_blacklist_entry-Steady,
  reject_pending_friend_requests-Steady, remove_blacklist_entry-Steady,
)

pub send_request_callback-Steady :
    (a b : ℕ) (message : Text) (now : ℕ) → Steady (send_request_callback a b message now)
unfolding send_request_callback
send_request_callback-Steady a b message now = search statements_steady depth 20

accept_again-Steady : (request : FriendRequest) → Steady (accept_again request)
unfolding accept_again
accept_again-Steady request = search statements_steady depth 20

accept_pending-Steady : (request : FriendRequest) → Steady (accept_pending request)
unfolding accept_pending
accept_pending-Steady request = search statements_steady depth 20

accept_by_status-Steady : (request : FriendRequest) → Steady (accept_by_status request)
unfolding accept_by_status
accept_by_status-Steady request =
    search (statements_steady, accept_again-Steady, accept_pending-Steady) depth 20

accept_locked-Steady : (u : ℕ) (request : FriendRequest) → Steady (accept_locked u request)
unfolding accept_locked
accept_locked-Steady u request = search (statements_steady, accept_by_status-Steady) depth 20

pub accept_request_callback-Steady :
    (u i : ℕ) (preview : FriendRequest) → Steady (accept_request_callback u i preview)
unfolding accept_request_callback
accept_request_callback-Steady u i preview =
    search (statements_steady, accept_locked-Steady) depth 20

reject_by_status-Steady : (request : FriendRequest) → Steady (reject_by_status request)
unfolding reject_by_status
reject_by_status-Steady request = search statements_steady depth 20

reject_locked-Steady : (u : ℕ) (request : FriendRequest) → Steady (reject_locked u request)
unfolding reject_locked
reject_locked-Steady u request = search (statements_steady, reject_by_status-Steady) depth 20

pub reject_request_callback-Steady :
    (u i : ℕ) (preview : FriendRequest) → Steady (reject_request_callback u i preview)
unfolding reject_request_callback
reject_request_callback-Steady u i preview =
    search (statements_steady, reject_locked-Steady) depth 20

pub delete_friend_callback-Steady : (a b : ℕ) → Steady (delete_friend_callback a b)
unfolding delete_friend_callback
delete_friend_callback-Steady a b = search statements_steady depth 20

pub block_callback-Steady : (a b : ℕ) → Steady (block_callback a b)
unfolding block_callback
block_callback-Steady a b = search statements_steady depth 20

pub unblock_callback-Steady : (a b : ℕ) → Steady (unblock_callback a b)
unfolding unblock_callback
unblock_callback-Steady a b = search statements_steady depth 20
