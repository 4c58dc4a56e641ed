-- ===== src/Consistency.antt =====
-- The services, the outbox, its workers and the Redis keys as one system: backend/internal/service
-- (group.go, friend.go, cache_truth.go) with backend/internal/repository (cache_mysql.go,
-- cache_redis.go).
pub mod Announcements
pub mod Requests
pub mod Deployment
use yun_chat.Prelude.{ℕ, ◌<◌, ◌≡◌, ◌⊎◌, true, List, [], ◌∷◌, some_passes}
use yun_chat.Database.{Db, CacheResource, ReconcileEvent}
use yun_chat.Projection.{Projection}
use yun_chat.CacheTruth.Freshness.{Shows}
use yun_chat.Reconciler.Workers.{is_for}

-- The outbox table after some INSERTs, its newest row first.
abbrev pub logged : List ReconcileEvent → List ReconcileEvent → List ReconcileEvent
logged [] log = log
logged (e ∷ es) log = logged es (e ∷ log)

-- Redis goes on to show an owner's rows, or there is an event for the owner.
abbrev pub Tells : Db → Db → List ReconcileEvent → Type 0
Tells d d' events =
    (r : CacheResource) (i : ℕ)
    → ((p : Projection) → Shows r i d p → Shows r i d' p) ⊎ (some_passes (is_for r i) events ≡ true)

-- A change of the tables with the events that it has inserted.
abbrev pub Announced : Db → Db → Type 0
Announced d d' =
    (events : List ReconcileEvent) × (d'.events ≡ logged events d.events) × Tells d d' events
