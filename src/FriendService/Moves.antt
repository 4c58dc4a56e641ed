-- ===== src/FriendService/Moves.antt =====
-- The moves of the friend tables: what a committed transaction of friend.go may change. This is the
-- specification that the callbacks refine.
use yun_chat.Prelude.{
  ℕ, ◌+◌, ◌≡◌, ◌≢◌, Bool, false, ◌||◌, some, ◌∷◌, is_some, drop_passing, update_where, find_first,
}
use yun_chat.Model.{Text, FriendRequest, request_pending, request_accepted, request_rejected}
use yun_chat.Database.{Db, ReconcileEvent, CacheResource, friends, blacklist, has_edge}
use yun_chat.Database.Friends.{
  has_status, is_terminal, has_id, find_request, set_status, put_edge, drop_edge, drop_pair,
  reject_where,
}
use yun_chat.FriendService.Callbacks.{new_request}

abbrev pub event : CacheResource → ℕ → ReconcileEvent
event resource u = record { resource = resource; resource_id = u }

-- The outbox rows that ask for the caches of the two users' friends.
abbrev pub with_rebuilds : Db → ℕ → ℕ → Db
with_rebuilds d a b = record d { events = event friends b ∷ event friends a ∷ d.events }

abbrev pub with_rebuild : Db → ℕ → Db
with_rebuild d a = record d { events = event blacklist a ∷ d.events }

abbrev pub has_block : Db → ℕ → ℕ → Bool
has_block d a b = has_edge a b d.blacklist || has_edge b a d.blacklist

abbrev pub are_friends : Db → ℕ → ℕ → Bool
are_friends d a b = has_edge a b d.friendships || has_edge b a d.friendships

abbrev pub with_request : Db → ℕ → ℕ → Text → ℕ → Db
with_request d a b message now = record d {
  requests =
      record (new_request a b message now) { id = d.next_request_id }
      ∷ drop_passing (is_terminal a b) d.requests;
  next_request_id = d.next_request_id + 1;
}

abbrev pub with_status : Db → ℕ → ℕ → Db
with_status d i status = record d {
  requests = update_where (has_id i) (set_status status d.clock) d.requests;
}

abbrev pub with_friends : Db → ℕ → ℕ → Db
with_friends d a b = record d { friendships = put_edge b a (put_edge a b d.friendships) }

abbrev pub without_friends : Db → ℕ → ℕ → Db
without_friends d a b = record d { friendships = drop_pair a b d.friendships }

abbrev pub with_block : Db → ℕ → ℕ → Db
with_block d a b = record d { blacklist = record { user_id = a; peer_id = b } ∷ d.blacklist }

abbrev pub without_block : Db → ℕ → ℕ → Db
without_block d a b = record d { blacklist = drop_edge a b d.blacklist }

pub data Move (d : Db) (d' : Db) : Type 0 where
  stays : d' ≡ d → Move d d'
  requested :
      (a b : ℕ) (message : Text) (now : ℕ)
      → a ≢ b
      → has_block d a b ≡ false
      → are_friends d a b ≡ false
      → is_some (find_first (has_status request_pending a b) d.requests) ≡ false
      → d' ≡ with_request d a b message now
      → Move d d'
  accepted :
      (user i : ℕ) (request : FriendRequest)
      → find_request i d.requests ≡ some request
      → request.to_user_id ≡ user
      → request.status ≡ request_pending
      → has_block d request.from_user_id request.to_user_id ≡ false
      → d'
        ≡ with_rebuilds
            (with_friends
              (with_status d i request_accepted)
              request.from_user_id
              request.to_user_id)
            request.from_user_id
            request.to_user_id
      → Move d d'
  repaired :
      (user i : ℕ) (request : FriendRequest)
      → find_request i d.requests ≡ some request
      → request.to_user_id ≡ user
      → request.status ≡ request_accepted
      → d'
        ≡ with_rebuilds
            (with_friends d request.from_user_id request.to_user_id)
            request.from_user_id
            request.to_user_id
      → Move d d'
  declined :
      (user i : ℕ) (request : FriendRequest)
      → find_request i d.requests ≡ some request
      → request.to_user_id ≡ user
      → request.status ≡ request_pending
      → d' ≡ with_status d i request_rejected
      → Move d d'
  unfriended :
      (a b : ℕ)
      → a ≢ b
      → d' ≡ with_rebuilds (reject_where request_accepted a b (without_friends d a b)) a b
      → Move d d'
  blocked :
      (a b : ℕ)
      → a ≢ b
      → has_edge a b d.blacklist ≡ false
      → d' ≡ with_rebuild (reject_where request_pending a b (with_block d a b)) a
      → Move d d'
  unblocked : (a b : ℕ) → a ≢ b → d' ≡ with_rebuild (without_block d a b) a → Move d d'
