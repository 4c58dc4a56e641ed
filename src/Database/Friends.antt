-- ===== src/Database/Friends.antt =====
-- The statements of backend/internal/repository/friend_repository.go.
pub mod Tables
use yun_chat.Prelude.{
  ℕ, ◌+◌, Bool, not, ◌&&◌, ◌||◌, Option, List, [], ◌∷◌, ◌==◌, is_some, some_passes, find_first,
  drop_passing, update_where, if◌then◌else◌,
}
use yun_chat.Sql.{Sql, conflict, not_found, ok, err, query, exec, statement, ◌>>◌}
use yun_chat.Model.{User, FriendRequest, request_pending, request_accepted, request_rejected}
use yun_chat.Database.{Db, Edge, find_user, has_edge, is_edge}

-- From the one user to the other.
abbrev pub is_from_to : ℕ → ℕ → FriendRequest → Bool
is_from_to a b r = r.from_user_id == a && r.to_user_id == b

-- In either direction, with the given status.
abbrev pub has_status : ℕ → ℕ → ℕ → FriendRequest → Bool
has_status status a b r = r.status == status && (is_from_to a b r || is_from_to b a r)

abbrev pub is_terminal : ℕ → ℕ → FriendRequest → Bool
is_terminal a b r = is_from_to a b r && not (r.status == request_pending)

abbrev pub has_id : ℕ → FriendRequest → Bool
has_id i r = r.id == i

abbrev pub find_request : ℕ → List FriendRequest → Option FriendRequest
find_request i = find_first (has_id i)

abbrev pub set_status : ℕ → ℕ → FriendRequest → FriendRequest
set_status status now r = record r { status = status; updated_at = now }

unfoldable pub get_friend_user_profile : ℕ → Sql Db (Option User)
unfolding query
get_friend_user_profile u = query (λ d. find_user u d.users)

unfoldable pub is_either_blocked : ℕ → ℕ → Sql Db Bool
unfolding query
is_either_blocked a b = query (λ d. has_edge a b d.blacklist || has_edge b a d.blacklist)

-- The newest row has the largest identifier and stands first.
unfoldable pub find_pending_friend_request : ℕ → ℕ → Sql Db (Option FriendRequest)
unfolding query
find_pending_friend_request a b =
    query (λ d. find_first (has_status request_pending a b) d.requests)

unfoldable pub remove_terminal_requests : ℕ → ℕ → Sql Db (Unit {0})
unfolding exec
remove_terminal_requests a b =
    exec (λ d. record d { requests = drop_passing (is_terminal a b) d.requests })

-- UNIQUE KEY uk_pair(from_user_id, to_user_id); the row takes the next AUTO_INCREMENT value.
unfoldable pub insert_friend_request : FriendRequest → Sql Db ℕ
unfolding statement
insert_friend_request request = statement (λ d.
    if some_passes (is_from_to request.from_user_id request.to_user_id) d.requests
    then (err conflict, d)
    else (
      ok d.next_request_id,
      record d {
        requests = record request { id = d.next_request_id } ∷ d.requests;
        next_request_id = d.next_request_id + 1;
      },
    ))

-- `SaveFriendRequest`: the new row's identifier.
abbrev pub save_friend_request : FriendRequest → Sql Db ℕ
save_friend_request request =
    remove_terminal_requests request.from_user_id request.to_user_id
    >> insert_friend_request request

-- `GetFriendRequest` and `GetFriendRequestForUpdate`
unfoldable pub get_friend_request : ℕ → Sql Db (Option FriendRequest)
unfolding query
get_friend_request i = query (λ d. find_request i d.requests)

-- A row that is found counts as affected: the service never writes the status that it has.
unfoldable pub set_friend_request_status : ℕ → ℕ → Sql Db (Unit {0})
unfolding statement
set_friend_request_status i status = statement (λ d. (
  if is_some (find_request i d.requests) then ok tt else err not_found,
  record d { requests = update_where (has_id i) (set_status status d.clock) d.requests },
))

-- INSERT IGNORE: UNIQUE KEY uk_bidirectional(user_id, friend_id)
abbrev pub put_edge : ℕ → ℕ → List Edge → List Edge
put_edge a b es = if has_edge a b es then es else record { user_id = a; peer_id = b } ∷ es

abbrev pub drop_edge : ℕ → ℕ → List Edge → List Edge
drop_edge a b = drop_passing (is_edge a b)

abbrev pub drop_pair : ℕ → ℕ → List Edge → List Edge
drop_pair a b = drop_passing (λ e. is_edge a b e || is_edge b a e)

unfoldable pub ensure_friendship_pair : ℕ → ℕ → Sql Db (Unit {0})
unfolding exec
ensure_friendship_pair a b =
    exec (λ d. record d { friendships = put_edge b a (put_edge a b d.friendships) })

unfoldable pub delete_friendship_pair : ℕ → ℕ → Sql Db (Unit {0})
unfolding exec
delete_friendship_pair a b = exec (λ d. record d { friendships = drop_pair a b d.friendships })

-- Both UPDATEs turn the pair's requests of one status into rejected ones.
abbrev pub reject_where : ℕ → ℕ → ℕ → Db → Db
reject_where status a b d = record d {
  requests = update_where (has_status status a b) (set_status request_rejected d.clock) d.requests;
}

unfoldable pub invalidate_accepted_friend_requests : ℕ → ℕ → Sql Db (Unit {0})
unfolding exec
invalidate_accepted_friend_requests a b = exec (reject_where request_accepted a b)

unfoldable pub reject_pending_friend_requests : ℕ → ℕ → Sql Db (Unit {0})
unfolding exec
reject_pending_friend_requests a b = exec (reject_where request_pending a b)

-- UNIQUE KEY uk_pair(user_id, blocked_id)
unfoldable pub add_blacklist_entry : ℕ → ℕ → Sql Db (Unit {0})
unfolding statement
add_blacklist_entry a b = statement (λ d.
    if has_edge a b d.blacklist
    then (err conflict, d)
    else (ok tt, record d { blacklist = record { user_id = a; peer_id = b } ∷ d.blacklist }))

unfoldable pub remove_blacklist_entry : ℕ → ℕ → Sql Db (Unit {0})
unfolding exec
remove_blacklist_entry a b = exec (λ d. record d { blacklist = drop_edge a b d.blacklist })
