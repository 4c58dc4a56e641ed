-- ===== src/CacheTruth.antt =====
-- backend/internal/service/cache_truth.go: `CacheTruthService`, which rebuilds the keys of Redis from
-- MySQL, and the reads of backend/internal/repository/cache_mysql.go that it uses.
--
-- The state is the tables of MySQL, the mirrored keys, and the warm locks with Redis's clock. A
-- snapshot transaction only reads MySQL, so that its end changes nothing; the owner's row lock, which
-- the transactions of the services take too, makes it one step against them. A lock's token is a
-- number, 0 for the empty string; times are in milliseconds. A cancelled context is a refused call.
pub mod Mirroring
pub mod Locking
pub mod Freshness
pub mod AsMirror
pub mod Access
pub mod Admission
pub mod Paging
pub mod PrivateMessages
pub mod GroupMessages
pub mod Rebuild
use yun_chat.Prelude.{
  ℕ, zero, suc, ◌+◌, Bool, true, false, not, ◌&&◌, ◌||◌, List, [], ◌∷◌, map, ◌==◌, leb, ltb, keep,
  is_some, some_passes, drop_passing, if◌then◌else◌,
}
use yun_chat.Sql.{
  Failure, driver, group_dissolved, group_missing, warm_timeout, Outcome, Result, ok, err, Conn,
  Sql, pure, raise, statement, query, exec, ◌>>=◌, ◌>>◌,
}
use yun_chat.Ids.{has, sort_ids}
use yun_chat.Model.{GroupMember}
use yun_chat.Database.{
  Db, Edge, CacheResource, same_resource, friends, group_members, blacklist, find_user,
}
use yun_chat.Database.Rows.{find_group, in_group}
use yun_chat.Database.Groups.{has_tombstone}
use yun_chat.Projection.{
  Projection, replace_friend_owner, replace_blacklist_owner, replace_group_members_owner,
  delete_disbanded_group_runtime, friends_loaded, blacklist_loaded, group_members_loaded,
  invalidate_projection_markers,
}

pub record WarmLock : Type 0 where
  pub resource : CacheResource
  pub resource_id : ℕ
  pub token : ℕ
  pub deadline : ℕ

pub record Stores : Type 0 where
  pub tables : Db
  pub cache : Projection
  pub locks : List WarmLock
  pub now : ℕ

abbrev pub peers : ℕ → List Edge → List ℕ
peers user edges = sort_ids (map (λ e. e.peer_id) (keep (λ e. e.user_id == user) edges))

unfoldable pub insert_member : GroupMember → List GroupMember → List GroupMember
insert_member m [] = m ∷ []
insert_member m (n ∷ ns) =
    let rest = insert_member m ns in if ltb n.user_id m.user_id then n ∷ rest else m ∷ n ∷ ns

-- ORDER BY user_id
unfoldable pub by_user : List GroupMember → List GroupMember
unfolding insert_member
by_user [] = []
by_user (m ∷ ms) = insert_member m (by_user ms)

unfoldable pub list_friend_ids : ℕ → Sql Stores (List ℕ)
unfolding query
list_friend_ids user = query (λ s. peers user s.tables.friendships)

unfoldable pub list_blocked_ids : ℕ → Sql Stores (List ℕ)
unfolding query
list_blocked_ids user = query (λ s. peers user s.tables.blacklist)

unfoldable pub group_exists : ℕ → Sql Stores Bool
unfolding query
group_exists group = query (λ s. is_some (find_group group s.tables.groups))

unfoldable pub list_group_members : ℕ → Sql Stores (List GroupMember)
unfolding by_user query
list_group_members group = query (λ s. by_user (keep (in_group group) s.tables.members))

unfoldable pub is_group_tombstoned : ℕ → Sql Stores Bool
unfolding query
is_group_tombstoned group = query (λ s. has_tombstone group s.tables.tombstones)

-- A call of Redis that changes the mirrored keys.
unfoldable pub redis : (Projection → Projection) → Sql Stores (Unit {0})
unfolding exec
redis f = exec (λ s. record s { cache = f s.cache })

-- BEGIN, COMMIT or ROLLBACK of a transaction that has only read.
unfoldable pub boundary : Sql Stores (Unit {0})
unfolding exec
boundary = exec (λ s. s)

-- FOR UPDATE of the owner's row, or of the tombstone of a group that has none. No row is no error.
unfoldable pub lock_owner : CacheResource → ℕ → Sql Stores (Unit {0})
unfolding query ◌>>=◌
lock_owner friends user = query (λ s. is_some (find_user user s.tables.users)) >>= λ _. pure tt
lock_owner blacklist user = query (λ s. is_some (find_user user s.tables.users)) >>= λ _. pure tt
lock_owner group_members group = group_exists group >>= λ found.
    if found then pure tt else is_group_tombstoned group >>= λ _. pure tt

-- `err := f()`: the error is a value.
unfoldable pub caught : Sql Stores (Unit {0}) → Sql Stores (Result (Unit {0}))
caught m c = let (r, c') = m c in (ok r, c')

-- errors.Join
abbrev pub joined : Result (Unit {0}) → Result (Unit {0}) → Result (Unit {0})
joined (ok _) r = r
joined (err e) r = err e

abbrev pub from_result : Result (Unit {0}) → Sql Stores (Unit {0})
from_result (ok _) = pure tt
from_result (err e) = raise e

-- After the callback: COMMIT, or ROLLBACK, whose own error is joined to the callback's.
unfoldable pub end_snapshot : Result (Unit {0}) → Sql Stores (Unit {0})
unfolding boundary caught ◌>>=◌
end_snapshot (ok _) = boundary
end_snapshot (err e) = caught boundary >>= λ _. raise e

unfoldable pub within_cache_snapshot :
    CacheResource → ℕ → Sql Stores (Unit {0}) → Sql Stores (Unit {0})
unfolding boundary lock_owner caught end_snapshot ◌>>=◌
within_cache_snapshot resource resource_id body =
    if leb resource_id 0
    then raise driver
    else boundary >> caught (lock_owner resource resource_id >> body) >>= end_snapshot

unfoldable pub clean_if_gone : ℕ → Bool → Sql Stores (Unit {0})
unfolding redis
clean_if_gone group exists =
    if exists then pure tt else redis (delete_disbanded_group_runtime group)

unfoldable pub mirror_owner : CacheResource → ℕ → Sql Stores (Unit {0})
unfolding list_friend_ids list_blocked_ids group_exists list_group_members redis clean_if_gone ◌>>=◌
mirror_owner friends user = list_friend_ids user >>= λ ids. redis (replace_friend_owner user ids)
mirror_owner blacklist user =
    list_blocked_ids user >>= λ ids. redis (replace_blacklist_owner user ids)
mirror_owner group_members group = group_exists group >>= λ exists.
    list_group_members group >>= λ members.
    redis (replace_group_members_owner group members) >> clean_if_gone group exists

unfoldable pub reconcile_current : CacheResource → ℕ → Sql Stores (Unit {0})
unfolding within_cache_snapshot mirror_owner
reconcile_current resource resource_id =
    within_cache_snapshot resource resource_id (mirror_owner resource resource_id)

abbrev pub is_lock : CacheResource → ℕ → WarmLock → Bool
is_lock r i l = same_resource l.resource r && l.resource_id == i

abbrev pub ttl_or_default : ℕ → ℕ
ttl_or_default ttl = if leb ttl 0 then 5000 else ttl

-- SETNX with the time to live: the key is free, or its lock has run out.
unfoldable pub try_cache_warm_lock : CacheResource → ℕ → ℕ → ℕ → Sql Stores Bool
unfolding statement
try_cache_warm_lock r i ttl token = statement (λ s.
    if some_passes (λ l. is_lock r i l && ltb s.now l.deadline) s.locks then (ok false, s) else (
      ok true,
      record s {
        locks =
            record {
              resource = r;
              resource_id = i;
              token = token;
              deadline = s.now + ttl_or_default ttl;
            }
            ∷ drop_passing (is_lock r i) s.locks;
      },
    ))

-- The script deletes the key only while it holds the caller's token.
unfoldable pub release_cache_warm_lock : CacheResource → ℕ → ℕ → Sql Stores (Unit {0})
unfolding exec
release_cache_warm_lock r i token =
    if token == 0
    then pure tt
    else exec (λ s. record s {
      locks =
          drop_passing (λ l. (is_lock r i l && l.token == token) && ltb s.now l.deadline) s.locks;
    })

-- The service's options after their defaults, the random tokens of its attempts, and how often the
-- ticker comes before the deadline of the wait.
pub record Settings : Type 0 where
  pub lock_ttl : ℕ
  pub poll_interval : ℕ
  pub polls : ℕ
  pub token : ℕ → ℕ

unfoldable pub run_locked : CacheResource → ℕ → ℕ → Sql Stores (Unit {0}) → Sql Stores (Unit {0})
unfolding release_cache_warm_lock caught ◌>>=◌
run_locked r i token operation = caught operation >>= λ result.
    caught (release_cache_warm_lock r i token) >>= λ released. from_result (joined result released)

unfoldable pub tick : ℕ → Sql Stores (Unit {0})
tick interval c = (ok tt, record c { db = record c.db { now = c.db.now + interval } })

-- The loop of `withResourceLock` with the ticks that are left.
unfoldable pub poll_lock :
    CacheResource → ℕ → Settings → ℕ → Sql Stores (Unit {0}) → Sql Stores (Unit {0})
unfolding try_cache_warm_lock run_locked tick ◌>>=◌
poll_lock r i o zero operation = try_cache_warm_lock r i o.lock_ttl (o.token zero) >>= λ acquired.
    if acquired then run_locked r i (o.token zero) operation else raise warm_timeout
poll_lock r i o (suc n) operation =
    let again = tick o.poll_interval >> poll_lock r i o n operation in
    try_cache_warm_lock r i o.lock_ttl (o.token (suc n)) >>= λ acquired.
    if acquired then run_locked r i (o.token (suc n)) operation else again

unfoldable pub with_resource_lock :
    CacheResource → ℕ → Settings → Sql Stores (Unit {0}) → Sql Stores (Unit {0})
unfolding poll_lock
with_resource_lock r i o operation = poll_lock r i o o.polls operation

unfoldable pub reconcile_now : Settings → CacheResource → ℕ → Sql Stores (Unit {0})
unfolding with_resource_lock reconcile_current
reconcile_now o r i =
    if leb i 0 then raise driver else with_resource_lock r i o (reconcile_current r i)
