-- ===== src/Witnesses/Caches.antt =====
-- Concrete inputs for the caches: a block that a worker repairs, pages, and delays.
use yun_chat.Prelude.{
  ℕ, zero, suc, ◌+◌, ◌<◌, ◌≡◌, refl, arith, true, false, some, List, [], ◌∷◌, ◌++◌, ◌⊎◌, ◌*◌, ◌^◌,
  ltb, ◌&&◌, take, is_some, inr,
}
use Prim.Native.Nat.{◌-◌}
use yun_chat.Sql.{quiet, err, driver, group_dissolved, group_missing}
use yun_chat.Sql
use yun_chat.Text.{trim_space}
use yun_chat.Ids.{canonical_ids, has}
use yun_chat.Ids.Sorting.{Above}
use yun_chat.Ids.Canonical.{canonical_ids_unique}
use yun_chat.Database.{CacheResource, lock_users, find_user}
use yun_chat.FriendService
use yun_chat.FriendService.UseCases as Friends
use yun_chat.FriendService.Callbacks
use yun_chat.FriendService.Moves.{event}
use yun_chat.Outbox
use yun_chat.Outbox.{ClaimedEvent, normalize_cache_page_limit}
use yun_chat.Reconciler.{Options, retry_delay}
use yun_chat.Reconciler.{World, Round, run_once}
use yun_chat.Reconciler.Rounds.{with_knowledge, run_once-Reach}
use yun_chat.CacheTruth.AsMirror.{as_mirror}
use yun_chat.Outbox.{ClaimedEvent}
use yun_chat.Sql.{Conn}
use yun_chat.Reconciler.Backoff.{capped, retry_delay-eq-capped}
use yun_chat.Reconciler.Workers as Workers
use yun_chat.Reconciler.Workers.{System, new_system}
use yun_chat.Reconciler.Dues.{awaits}
use yun_chat.CacheTruth.{Stores}
use yun_chat.CacheTruth.Freshness.{Shows}
use yun_chat.CacheTruth.Access.{marked, ensure_group_access}
use yun_chat.CacheTruth.GroupMessages.{ensure_group_access-refuses}
use yun_chat.Projection.{group_members_loaded}
use yun_chat.Projection.Keys.{items}
use yun_chat.Database.Rows.{find_group}
use yun_chat.CacheTruth.Paging.{for_each, for_each-visits-all, for_each-stops-early}
use yun_chat.Consistency.{Announced}
use yun_chat.Consistency.Requests.{friend_perform-Announced}
use yun_chat.Consistency.Deployment.{
  Reach, here, next, cold, friend_request, worker, with_tables, Reach-tracked,
}
use yun_chat.Messages.Sequences.{range_from}
use yun_chat.Witnesses.{asked, friend_options, bar, barred, settings}

abbrev start : System Stores
start = new_system (cold asked) 1 0

-- User 2 blocks user 1, and a worker takes the event.
abbrev blocked : System Stores
blocked = with_tables start barred (event CacheResource.blacklist 2 ∷ [])

bar-told : barred.events ≡ event CacheResource.blacklist 2 ∷ asked.events
unfolding Friends.perform FriendService.send_request FriendService.normalize_friend_message
    FriendService.Callbacks.send_request_callback FriendService.Callbacks.statements
    Sql.within_transaction trim_space lock_users find_user FriendService.block
    FriendService.Callbacks.block_callback
bar-told = refl

blocked-Reach : Reach settings start blocked
blocked-Reach = next here (
    friend_request start friend_options bar [] barred (event CacheResource.blacklist 2 ∷ []) refl
      bar-told)

abbrev worker_id : List ℕ
worker_id = 0x77 ∷ []

abbrev taken : System Stores
taken = record blocked {
  queue = (Outbox.claim worker_id 10 0 0 (some 5) (λ id. false) (quiet blocked.queue)).1.db;
  known =
      Workers.returned
        (Outbox.claim worker_id 10 0 0 (some 5) (λ id. false) (quiet blocked.queue)).0
      ++ blocked.known;
}

taken-Reach : Reach settings start taken
taken-Reach =
    next blocked-Reach (worker (Workers.claims blocked worker_id 10 0 0 5 (λ id. false) [] refl))

Reach-tracked_example :
    Shows CacheResource.blacklist 2 taken.stores.tables taken.stores.cache
    ⊎ (awaits CacheResource.blacklist 2 taken.reconciled taken.queue ≡ true)
Reach-tracked_example =
    Reach-tracked settings asked 1 0 taken-Reach CacheResource.blacklist 2 (omega arith)

friend_perform-Announced_example :
    Announced asked (Friends.perform friend_options bar (quiet asked)).1
friend_perform-Announced_example = friend_perform-Announced friend_options bar (quiet asked)

for_each-visits-all_example : for_each 4 0 2 (3 ∷ 5 ∷ 9 ∷ []) ≡ some (3 ∷ 5 ∷ 9 ∷ [])
for_each-visits-all_example =
    for_each-visits-all 2 (3 ∷ 5 ∷ 9 ∷ [])
      ((omega arith, (omega arith, tt)), ((omega arith, tt), (tt, tt)))
      (omega arith, (omega arith, (omega arith, tt))) (omega arith) (omega arith)

Above-range_from : (b start n : ℕ) → b < start → Above b (range_from start n)
Above-range_from b start zero h = tt
Above-range_from b start (suc n) h = (h, Above-range_from b (start + 1) n (omega arith))

for_each-stops-early_example :
    for_each 3 0 6000 (range_from 1 5001)
    ≡ some (take (normalize_cache_page_limit 6000) (range_from 1 5001))
for_each-stops-early_example =
    for_each-stops-early 6000 2 (range_from 1 5001) (Above-range_from 0 1 5001 (omega arith))
      (omega arith)

abbrev options : Options
options = record {
  batch_size = 100;
  lease = 30_000_000;
  retry_base = 1_000_000;
  max_backoff = 300_000_000;
}

retry_delay-eq-capped_example :
    retry_delay options 9 ≡ capped options.max_backoff (options.retry_base * 2 ^ (9 - 1))
retry_delay-eq-capped_example = retry_delay-eq-capped options 9 (omega arith) (omega arith)

held_once : (x : ℕ) → has x (2 ∷ 7 ∷ []) ≡ (ltb 0 x && has x (7 ∷ 2 ∷ 0 ∷ 7 ∷ []))
held_once x = ground arith

canonical_ids_unique_example : canonical_ids (7 ∷ 2 ∷ 0 ∷ 7 ∷ []) ≡ 2 ∷ 7 ∷ []
canonical_ids_unique_example =
    canonical_ids_unique (7 ∷ 2 ∷ 0 ∷ 7 ∷ []) (2 ∷ 7 ∷ []) ((omega arith, tt), (tt, tt)) held_once

unwarmed : marked CacheResource.group_members 9 (cold asked) ≡ false
unfolding marked group_members_loaded items
unwarmed = refl

none_found : is_some (find_group 9 (cold asked).tables.groups) ≡ false
unfolding Friends.perform FriendService.send_request FriendService.normalize_friend_message
    FriendService.Callbacks.send_request_callback FriendService.Callbacks.statements
    Sql.within_transaction trim_space lock_users find_user find_group
none_found = refl

ensure_group_access-refuses_example :
    ((ensure_group_access settings 9 (quiet (cold asked))).1.db ≡ cold asked)
    × (((ensure_group_access settings 9 (quiet (cold asked))).0 ≡ err group_dissolved)
        ⊎ (((ensure_group_access settings 9 (quiet (cold asked))).0 ≡ err group_missing)
            ⊎ ((ensure_group_access settings 9 (quiet (cold asked))).0 ≡ err driver)))
ensure_group_access-refuses_example =
    ensure_group_access-refuses settings 9 (quiet (cold asked)) (inr (unwarmed, none_found))

abbrev round : Round
round = record { token = some 5; now = 0; held = λ id. false }

abbrev blocked_world : Conn (World Stores)
blocked_world = quiet (record { stores = blocked.stores; queue = blocked.queue })

run_once-Reach_example :
    (known : List ClaimedEvent) × (reconciled : List ClaimedEvent) × Workers.Reach
      (as_mirror settings)
      (with_knowledge blocked_world.db [] [])
      (with_knowledge
        (run_once (as_mirror settings) worker_id options (λ e. []) round blocked_world).1.db
        known
        reconciled)
run_once-Reach_example =
    run_once-Reach (as_mirror settings) worker_id options (λ e. []) round blocked_world [] []
      (λ t e. refl)
