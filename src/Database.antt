-- ===== src/Database.antt =====
-- The MySQL tables that the friend and group services share (backend/scripts/baseline), and the
-- statements that both use. The statements of one service only stand in the modules below.
--
-- A table is the list of its rows, newest first; no result below depends on the order of a SELECT
-- without ORDER BY. A statement's effect is that of its SQL text with the table's unique keys.
pub mod Rows
pub mod Locks
pub mod Steadiness
pub mod Groups
pub mod Friends
use yun_chat.Prelude.{
  ℕ, ◌+◌, Bool, true, false, ◌&&◌, ◌||◌, Option, List, [], ◌∷◌, ◌==◌, leb, is_some, some_passes,
  if◌then◌else◌,
}
use yun_chat.Sql.{Sql, driver, ok, pure, raise, query, statement, ◌>>=◌}
use yun_chat.Model.{User, Group, GroupMember, FriendRequest}

-- A row of `friendships` (user_id, friend_id) or of `blacklist` (user_id, blocked_id).
pub record Edge : Type 0 where
  pub user_id : ℕ
  pub peer_id : ℕ

pub record Tombstone : Type 0 where
  pub group_id : ℕ
  pub owner_id : ℕ

pub data CacheResource : Type 0 where
  friends group_members blacklist : CacheResource

abbrev pub same_resource : CacheResource → CacheResource → Bool
same_resource friends friends = true
same_resource group_members group_members = true
same_resource blacklist blacklist = true
same_resource _ _ = false

pub record ReconcileEvent : Type 0 where
  pub resource : CacheResource
  pub resource_id : ℕ

pub record Db : Type 0 where
  pub users : List User
  pub friendships : List Edge
  pub blacklist : List Edge
  pub requests : List FriendRequest
  pub next_request_id : ℕ
  pub groups : List Group
  pub next_group_id : ℕ
  pub members : List GroupMember
  pub next_member_id : ℕ
  pub tombstones : List Tombstone
  pub events : List ReconcileEvent
  pub clock : ℕ

-- The tables of a new installation.
unfoldable pub empty : ℕ → Db
empty now = record {
  users = [];
  friendships = [];
  blacklist = [];
  requests = [];
  next_request_id = 1;
  groups = [];
  next_group_id = 1;
  members = [];
  next_member_id = 1;
  tombstones = [];
  events = [];
  clock = now;
}

unfoldable pub find_user : ℕ → List User → Option User
find_user u [] = Option.none
find_user u (row ∷ rows) = if row.id == u then Option.some row else find_user u rows

abbrev pub is_edge : ℕ → ℕ → Edge → Bool
is_edge a b e = e.user_id == a && e.peer_id == b

abbrev pub has_edge : ℕ → ℕ → List Edge → Bool
has_edge a b = some_passes (is_edge a b)

-- `SELECT id FROM users WHERE id = ? FOR UPDATE` for each of the sorted identifiers.
lock_each : List ℕ → ℕ → Sql Db ℕ
lock_each [] locked = pure locked
lock_each (u ∷ us) locked = query (λ d. is_some (find_user u d.users)) >>= λ found.
    lock_each us (if found then locked + 1 else locked)

-- The two identifiers in ascending order, once if they are equal.
abbrev lock_order : ℕ → ℕ → List ℕ
lock_order a b = if a == b then a ∷ [] else if leb a b then a ∷ b ∷ [] else b ∷ a ∷ []

-- `LockGroupUsers` and `LockFriendUsers`: how many of the two rows there are.
unfoldable pub lock_users : ℕ → ℕ → Sql Db ℕ
unfolding lock_each query ◌>>=◌
lock_users a b = lock_each (lock_order a b) 0

-- Friendship rows in either direction count.
unfoldable pub is_friend_pair : ℕ → ℕ → Sql Db Bool
unfolding query
is_friend_pair a b = query (λ d. has_edge a b d.friendships || has_edge b a d.friendships)

-- Every resource of the type is valid, so the only refusal left is that of the identifier.
unfoldable pub enqueue_cache_reconcile : CacheResource → ℕ → Sql Db (Unit {0})
unfolding statement
enqueue_cache_reconcile resource resource_id =
    if leb resource_id 0
    then raise driver
    else statement (λ d. (
      ok tt,
      record d { events = record { resource = resource; resource_id = resource_id } ∷ d.events },
    ))
