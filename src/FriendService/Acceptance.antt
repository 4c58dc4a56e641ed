-- ===== src/FriendService/Acceptance.antt =====
-- The acceptance of a request, and its retry.
use yun_chat.Prelude.{
  ℕ, ◌<◌, ◌≡◌, ◌≢◌, refl, false, true, some, none, arith, ◌==◌, leb, on_option, ==_iff,
}
use yun_chat.Sql.{Result, Conn, ok, quiet, within_transaction, ◌>>=◌}
use yun_chat.Model.{FriendRequest, request_pending, request_accepted}
use yun_chat.Database.{Db, has_edge, find_user}
use yun_chat.Database.Locks.{Exists, lock_count, lock_users_lem}
use yun_chat.Database.Friends.{find_request, set_status, get_friend_request}
use yun_chat.Database.Friends.Tables.{found_id, find-settling}
use yun_chat.FriendService
use yun_chat.FriendService.{FriendOptions}
use yun_chat.FriendService.UseCases.{accept_request, perform}
use yun_chat.FriendService.Callbacks.{
  Accepted, accept_request_callback, accept_locked, accept_by_status, accept_pending, accept_again,
  statements,
}
use yun_chat.FriendService.Moves.{with_rebuilds, with_friends, with_status, has_block}
use yun_chat.FriendService.Orderly.Answers.{has-with_friends}

-- Both users are there, and the request is addressed to the caller.
pub record Answerable (d : Db) (user i : ℕ) (request : FriendRequest) : Type 0 where
  pub found : find_request i d.requests ≡ some request
  pub target : request.to_user_id ≡ user
  pub differ : request.from_user_id ≢ request.to_user_id
  pub sender : Exists d request.from_user_id
  pub receiver : Exists d request.to_user_id
  pub positive : (0 < i) × (0 < request.from_user_id) × (0 < user)

module _ (options : FriendOptions) (d : Db) (user i : ℕ) (request : FriendRequest)
    (may : Answerable d user i request) where
  two : (lock_count d request.from_user_id request.to_user_id == 2) ≡ true
  two = (==_iff _ _).1 (
      (lock_users_lem d request.from_user_id request.to_user_id).1.1
        (may.differ, may.sender, may.receiver))

  from_ok : leb request.from_user_id 0 ≡ false
  from_ok = ground (arith, may.positive)

  to_ok : leb request.to_user_id 0 ≡ false
  to_ok = ground (arith, may.positive, may.target)

  abbrev befriended : Db → Db
  befriended d' =
      with_rebuilds (with_friends d' request.from_user_id request.to_user_id) request.from_user_id
        request.to_user_id

  -- What the switch on the status does, the whole call does.
  accepted_callback :
      (r : Result Accepted × Conn Db)
      → accept_by_status request (quiet d) ≡ r
      → accept_request_callback user i request (quiet d) ≡ r
  unfolding accept_request_callback accept_locked get_friend_request ◌>>=◌
  accepted_callback r e =
      let mine : (request.to_user_id == user) ≡ true = (==_iff _ _).1 may.target in
      let locked = (lock_users_lem d request.from_user_id request.to_user_id).0 in
      simp (locked, two, may.found, mine) e

  accepted_transaction :
      (a : Accepted) (d' : Db)
      → accept_by_status request (quiet d) ≡ (ok a, quiet d')
      → within_transaction (accept_request_callback user i request) (quiet d) ≡ (ok a, quiet d')
  unfolding within_transaction
  accepted_transaction a d' e = simp (accepted_callback (ok a, quiet d') e)

  accepted_call :
      (a : Accepted) (d' : Db)
      → accept_by_status request (quiet d) ≡ (ok a, quiet d')
      → perform options (accept_request user i) (quiet d) ≡ (none, d')
  unfolding perform FriendService.accept_request FriendService.accept_from get_friend_request
  accepted_call a d' e =
      let i_ok : leb i 0 ≡ false = ground (arith, may.positive) in
      let user_ok : leb user 0 ≡ false = ground (arith, may.positive) in
      let mine : (request.to_user_id == user) ≡ true = (==_iff _ _).1 may.target in
      simp (i_ok, user_ok, may.found, mine, accepted_transaction a d' e)

  accept_pending_lem :
      request.status ≡ request_pending
      → has_block d request.from_user_id request.to_user_id ≡ false
      → perform options (accept_request user i) (quiet d)
        ≡ (none, befriended (with_status d i request_accepted))
  unfolding accept_by_status accept_pending statements
  accept_pending_lem pending welcome =
      let same = found_id i d.requests request may.found in
      on_option (find_user request.to_user_id d.users) (λ e. absurd (ground (arith, may.receiver)))
        (λ profile e.
          accepted_call (request.from_user_id, some profile) _
            (simp (pending, welcome, same, may.found, e, from_ok, to_ok)))

  accept_again_lem :
      request.status ≡ request_accepted
      → perform options (accept_request user i) (quiet d) ≡ (none, befriended d)
  unfolding accept_by_status accept_again statements
  accept_again_lem done = accepted_call (request.from_user_id, none) _ (simp (done, from_ok, to_ok))

module _ (options : FriendOptions) (d : Db) (user i : ℕ) (request : FriendRequest)
    (may : Answerable d user i request) (pending : request.status ≡ request_pending)
    (welcome : has_block d request.from_user_id request.to_user_id ≡ false) where
  abbrev accepted_request : FriendRequest
  accepted_request = set_status request_accepted d.clock request

  abbrev accepted_db : Db
  accepted_db =
      with_rebuilds
        (with_friends (with_status d i request_accepted) request.from_user_id request.to_user_id)
        request.from_user_id request.to_user_id

  still-Answerable : Answerable accepted_db user i accepted_request
  still-Answerable = record {
    found = find-settling i request_accepted d.clock d.requests request may.found;
    target = may.target;
    differ = may.differ;
    sender = may.sender;
    receiver = may.receiver;
    positive = may.positive;
  }

  -- Where the driver does not fail, the receiver's acceptance of a pending request succeeds if the two
  -- users exist and neither has blocked the other. Both are then friends of the other, and a retry of the
  -- same acceptance succeeds too and leaves the friendships as they are.
  pub accept_request-befriends :
      ((perform options (accept_request user i) (quiet d)).0 ≡ none)
      × (has_edge request.from_user_id request.to_user_id
            (perform options (accept_request user i) (quiet d)).1.friendships
          ≡ true)
      × (has_edge request.to_user_id request.from_user_id
            (perform options (accept_request user i) (quiet d)).1.friendships
          ≡ true)
      × ((perform options
            (accept_request user i)
            (quiet (perform options (accept_request user i) (quiet d)).1)).0
          ≡ none)
      × ((perform options
            (accept_request user i)
            (quiet (perform options (accept_request user i) (quiet d)).1)).1.friendships
          ≡ (perform options (accept_request user i) (quiet d)).1.friendships)
  accept_request-befriends =
      let a = request.from_user_id in
      let b = request.to_user_id in
      let first = accept_pending_lem options d user i request may pending welcome in
      let again =
        accept_again_lem options accepted_db user i accepted_request still-Answerable refl in
      let there : has_edge a b accepted_db.friendships ≡ true =
        ground (arith, has-with_friends d a b a b) in
      let back : has_edge b a accepted_db.friendships ≡ true =
        ground (arith, has-with_friends d a b b a) in
      rw first (refl, there, back, rw again refl, rw again (simp (there, back)))
