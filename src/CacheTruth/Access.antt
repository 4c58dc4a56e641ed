-- ===== src/CacheTruth/Access.antt =====
-- `EnsurePrivateAccess` and `EnsureGroupAccess`, which precede the scripts that admit a message, and the
-- refreshes that follow a commit.
use yun_chat.Prelude.{ℕ, Bool, not, ◌||◌, List, [], ◌∷◌, leb, if◌then◌else◌}
use yun_chat.Sql.{
  driver, group_dissolved, group_missing, Result, ok, err, Sql, pure, raise, query, ◌>>=◌, ◌>>◌,
}
use yun_chat.Ids.{has}
use yun_chat.Database.{CacheResource, friends, group_members, blacklist}
use yun_chat.Projection.{
  friends_loaded, blacklist_loaded, group_members_loaded, invalidate_projection_markers,
}
use yun_chat.CacheTruth.{
  Stores, Settings, caught, joined, from_result, group_exists, is_group_tombstoned, redis,
  reconcile_current, reconcile_now, with_resource_lock,
}

unfoldable pub marked : CacheResource → ℕ → Stores → Bool
marked friends user s = friends_loaded user s.cache
marked blacklist user s = blacklist_loaded user s.cache
marked group_members group s = group_members_loaded group s.cache

unfoldable pub is_loaded : CacheResource → ℕ → Sql Stores Bool
unfolding marked query
is_loaded r i = query (marked r i)

unfoldable pub load_if_still_missing : CacheResource → ℕ → Sql Stores (Unit {0})
unfolding is_loaded ◌>>=◌
load_if_still_missing r i =
    is_loaded r i >>= λ loaded. if loaded then pure tt else reconcile_current r i

unfoldable pub ensure_loaded : Settings → CacheResource → ℕ → Sql Stores (Unit {0})
unfolding is_loaded load_if_still_missing ◌>>=◌
ensure_loaded o r i = is_loaded r i >>= λ loaded.
    if loaded then pure tt else with_resource_lock r i o (load_if_still_missing r i)

unfoldable pub ensure_owner : Settings → ℕ → Sql Stores (Unit {0})
unfolding ensure_loaded ◌>>=◌
ensure_owner o user = ensure_loaded o friends user >> ensure_loaded o blacklist user

unfoldable pub ensure_private_access : Settings → ℕ → ℕ → Sql Stores (Unit {0})
unfolding ensure_owner ◌>>=◌
ensure_private_access o sender receiver =
    if leb sender 0 || leb receiver 0
    then raise driver
    else ensure_owner o sender >> ensure_owner o receiver

unfoldable pub load_group : Settings → ℕ → Bool → Sql Stores (Unit {0})
unfolding load_if_still_missing
load_group o group exists =
    if not exists
    then raise group_missing
    else with_resource_lock group_members group o (load_if_still_missing group_members group)

unfoldable pub ensure_live_group : Settings → ℕ → Sql Stores (Unit {0})
unfolding is_loaded group_exists load_group ◌>>=◌
ensure_live_group o group = is_loaded group_members group >>= λ loaded.
    if loaded then pure tt else group_exists group >>= load_group o group

unfoldable pub ensure_group_access : Settings → ℕ → Sql Stores (Unit {0})
unfolding is_group_tombstoned ensure_live_group ◌>>=◌
ensure_group_access o group =
    if leb group 0
    then raise driver
    else is_group_tombstoned group >>= λ tombstoned.
        if tombstoned then raise group_dissolved else ensure_live_group o group

-- One owner of `reconcileOwners`: its error, if any, is kept and the loop goes on.
unfoldable pub reconcile_owner :
    Settings → CacheResource → List ℕ → ℕ → Sql Stores (Result (Unit {0}))
unfolding caught reconcile_now
reconcile_owner o r seen owner =
    if leb owner 0
    then pure (err driver)
    else if has owner seen
    then pure (ok tt)
    else caught (reconcile_now o r owner)

unfoldable pub reconcile_all :
    Settings → CacheResource → List ℕ → List ℕ → Sql Stores (Result (Unit {0}))
unfolding reconcile_owner ◌>>=◌
reconcile_all o r seen [] = pure (ok tt)
reconcile_all o r seen (owner ∷ owners) = reconcile_owner o r seen owner >>= λ first.
    reconcile_all o r (if leb owner 0 then seen else owner ∷ seen) owners >>= λ rest.
    pure (joined first rest)

-- `reconcileOwners`: each owner once, the failures joined.
unfoldable pub reconcile_owners : Settings → CacheResource → List ℕ → Sql Stores (Unit {0})
unfolding reconcile_all ◌>>=◌
reconcile_owners o r owners = reconcile_all o r [] owners >>= from_result

-- `SetFriendCache` and `DeleteFriendCache`, which both reload MySQL's rows.
unfoldable pub set_friend_cache : Settings → ℕ → ℕ → Sql Stores (Unit {0})
unfolding reconcile_owners
set_friend_cache o first second = reconcile_owners o friends (first ∷ second ∷ [])

-- `reconcileForBulkOperation`: the strict form first makes the owner's keys unreadable.
unfoldable pub reconcile_for_bulk_operation :
    Settings → CacheResource → ℕ → Bool → Sql Stores (Unit {0})
unfolding reconcile_now with_resource_lock redis reconcile_current ◌>>=◌
reconcile_for_bulk_operation o r i strict =
    if not strict
    then reconcile_now o r i
    else with_resource_lock r i o
        (redis (invalidate_projection_markers r i) >> reconcile_current r i)
