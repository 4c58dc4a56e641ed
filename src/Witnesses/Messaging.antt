-- ===== src/Witnesses/Messaging.antt =====
-- Concrete inputs for messages and connections: a user and a group of two, and a hub that is closed.
use yun_chat.Prelude.{
  ◌+◌, ◌<◌, ◌≡◌, refl, arith, true, false, not, ◌&&◌, some, [], ◌∷◌, length, some_passes,
}
use yun_chat.Sql.{query, quiet, ok}
use yun_chat.Ids.{has}
use yun_chat.Database.{Db, friends}
use yun_chat.Projection.{
  Projection, friends_loaded, blacklist_loaded, replace_friend_owner, replace_blacklist_owner,
}
use yun_chat.CacheTruth.{Stores, Settings}
use yun_chat.CacheTruth
use yun_chat.CacheTruth.Access
use yun_chat.CacheTruth.Access.{ensure_private_access}
use yun_chat.CacheTruth.Admission.{IsHonest}
use yun_chat.CacheTruth.PrivateMessages.{may_write, private_msg_check_iff}
use yun_chat.CacheTruth.Freshness.{Shows}
use yun_chat.CacheTruth.Rebuild.{
  CacheRebuildReport, scope_friends, rebuild_resource, rebuild_user, rebuild_users, rebuild_owners,
  rebuild, warm,
}
use yun_chat.CacheTruth.Rebuild as Rebuild
use yun_chat.CacheTruth.Paging.{for_each, list_ids}
use yun_chat.CacheTruth.Rebuild.Warm.{warm-refreshes}
use yun_chat.Projection.Friendships.{IsIndexed}
use yun_chat.Consistency.Deployment.{cold, cold-IsIndexed, cold-Shows}
use yun_chat.Messages.{
  Runtime, is_message_id, is_duplicate, exec_private_msg_check, exec_group_msg_check,
  group_msg_check, group_result, group_seq,
}
use yun_chat.Projection.Keys.{entry, items, remove_owner}
use yun_chat.Messages.Histories.{
  send, group_message, private_message, is_admitted, here, next, waits, send-admits_once,
}
use yun_chat.Messages.Sequences.{calls, to_group, range_from, calls-consecutive}
use yun_chat.Hub.{
  Hub, new_hub, begin_registration, install, finish_registration, end_registration, begin_close,
  sweep, close_all, is_registration,
}
use yun_chat.Hub.Steps as Hubs
use yun_chat.Hub.Shutdown.Histories.{sweep-leaves_none_open}
use yun_chat.Witnesses.{fresh, settings}

-- Users 1 and 2 are friends.
abbrev friendly : Db
friendly = record fresh {
  friendships = record { user_id = 1; peer_id = 2 } ∷ record { user_id = 2; peer_id = 1 } ∷ [];
}

friendly-IsHonest : IsHonest friendly (cold friendly)
friendly-IsHonest = (refl, cold-IsIndexed friendly, cold-Shows friendly)

prepared : (ensure_private_access settings 1 2 (quiet (cold friendly))).0 ≡ ok tt
unfolding ensure_private_access Access.ensure_owner Access.ensure_loaded Access.is_loaded
    Access.load_if_still_missing CacheTruth.with_resource_lock CacheTruth.reconcile_current
    CacheTruth.try_cache_warm_lock CacheTruth.run_locked friends_loaded blacklist_loaded
    replace_friend_owner replace_blacklist_owner
prepared = refl

abbrev prepared_keys : Projection
prepared_keys = (ensure_private_access settings 1 2 (quiet (cold friendly))).1.db.cache

abbrev runtime : Runtime
runtime = record { cache = prepared_keys; dedup = []; online = 2 ∷ []; now = 90 }

private_msg_check_iff_example :
    is_admitted (exec_private_msg_check (some 8) 1 2 77 runtime).0
    ≡ (is_message_id 8 && (may_write 1 2 friendly && not (is_duplicate 1 77 runtime)))
private_msg_check_iff_example =
    private_msg_check_iff settings 1 2 77 8 (quiet (cold friendly)) [] (2 ∷ []) 90 friendly-IsHonest
      prepared

-- User 1 is a member of group 4.
abbrev team_runtime : Runtime
team_runtime = record {
  cache = record (cold friendly).cache {
    group_members = entry 4 1 ∷ [];
    group_member_info =
        record { group = 4; member = record { user_id = 1; role = 2; muted_until = 0 } } ∷ [];
  };
  dedup = [];
  online = [];
  now = 90;
}

first_admitted : (send (group_message 4) (some 8) 1 77 team_runtime).0 ≡ true
unfolding send exec_group_msg_check group_msg_check group_result
first_admitted = refl

abbrev first_sent : Runtime
first_sent = (send (group_message 4) (some 8) 1 77 team_runtime).1

soon_after : first_sent.now + 1000 < team_runtime.now + 300_000
unfolding send exec_group_msg_check group_msg_check group_result
soon_after = omega arith

send-admits_once_example :
    send (private_message 2) (some 9) 1 77 (record first_sent { now = first_sent.now + 1000 })
    ≡ (false, record first_sent { now = first_sent.now + 1000 })
send-admits_once_example =
    send-admits_once (group_message 4) (private_message 2) (some 8) (some 9) 1 77 team_runtime
      (record first_sent { now = first_sent.now + 1000 }) first_admitted
      (next here (waits 1000 first_sent)) soon_after

calls-consecutive_example :
    ((calls 4 (to_group 4 (some 8) 1 77 ∷ to_group 4 (some 9) 1 78 ∷ []) team_runtime).0
      ≡ range_from (group_seq 4 team_runtime + 1) (
          length
            (calls 4 (to_group 4 (some 8) 1 77 ∷ to_group 4 (some 9) 1 78 ∷ []) team_runtime).0))
    × (group_seq 4
          (calls 4 (to_group 4 (some 8) 1 77 ∷ to_group 4 (some 9) 1 78 ∷ []) team_runtime).1
        ≡ group_seq 4 team_runtime
          + length
              (calls 4 (to_group 4 (some 8) 1 77 ∷ to_group 4 (some 9) 1 78 ∷ []) team_runtime).0)
calls-consecutive_example =
    calls-consecutive 4 (to_group 4 (some 8) 1 77 ∷ to_group 4 (some 9) 1 78 ∷ []) team_runtime

-- User 1 connects, and the hub is closed.
abbrev opening : Hub
opening = (begin_registration 1 6 new_hub).1

abbrev installed : Hub
installed = install 1 6 opening

abbrev ready : Hub
ready = finish_registration 6 installed

abbrev closing : Hub
closing = begin_close ready

opening_registers : some_passes (is_registration 6) opening.registrations ≡ true
unfolding new_hub begin_registration
opening_registers = refl

closing_is_closed : closing.closed ≡ true
unfolding begin_close
closing_is_closed = refl

closing_has_none : closing.registrations ≡ []
unfolding begin_close finish_registration end_registration install begin_registration new_hub items
closing_has_none = refl

sweep-Reach : Hubs.Reach new_hub (sweep closing)
sweep-Reach =
    Hubs.next
      (Hubs.next
        (Hubs.next
          (Hubs.next (Hubs.next Hubs.here (Hubs.registers 1 6 new_hub))
            (Hubs.installs 1 6 opening opening_registers))
          (Hubs.finishes 6 installed))
        (Hubs.begins_close ready))
      (Hubs.sweeps closing closing_is_closed closing_has_none)

is_swept : (sweep closing).swept ≡ true
unfolding sweep
is_swept = refl

was_started : has 6 (sweep closing).started ≡ true
unfolding sweep close_all begin_close finish_registration end_registration install
    begin_registration new_hub items remove_owner
was_started = refl

sweep-leaves_none_open_example :
    ((sweep closing).closed ≡ true)
    × ((sweep closing).registrations ≡ [])
    × (has 6 (sweep closing).done ≡ true)
sweep-leaves_none_open_example =
    sweep-leaves_none_open (sweep closing) 6 sweep-Reach is_swept was_started

-- Redis still shows user 3 as a friend of user 1.
abbrev stale : Stores
stale = record (cold friendly) {
  cache = record (cold friendly).cache {
    friend = entry 1 3 ∷ [];
    friend_owner_index = entry 1 3 ∷ [];
    friend_loaded = 1 ∷ [];
    friend_index_loaded = 1 ∷ [];
  };
}

stale-IsIndexed : IsIndexed stale.cache
stale-IsIndexed u x h k l = l

abbrev warmed : CacheRebuildReport
warmed = record { scope = scope_friends; users = 1; groups = 0; resources = 1 }

warm_succeeds : (warm settings scope_friends 500 (1 ∷ []) [] (quiet stale)).0 ≡ ok warmed
unfolding warm rebuild rebuild_owners Rebuild.for_each_user query for_each list_ids rebuild_users
    rebuild_user rebuild_resource Access.reconcile_for_bulk_operation CacheTruth.reconcile_now
    CacheTruth.with_resource_lock CacheTruth.reconcile_current CacheTruth.try_cache_warm_lock
    CacheTruth.run_locked replace_friend_owner
warm_succeeds = refl

warm-refreshes_example :
    ((warm settings scope_friends 500 (1 ∷ []) [] (quiet stale)).1.db.tables ≡ friendly)
    × Shows friends 1 friendly
        (warm settings scope_friends 500 (1 ∷ []) [] (quiet stale)).1.db.cache
warm-refreshes_example =
    warm-refreshes settings scope_friends 500 (1 ∷ []) [] (quiet stale) warmed friends 1 (tt, tt)
      (omega arith, tt) tt tt (omega arith) (omega arith) stale-IsIndexed warm_succeeds refl
