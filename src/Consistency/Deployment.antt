-- ===== src/Consistency/Deployment.antt =====
-- The deployed system: any number of processes that serve requests, refresh Redis after their commits
-- and run workers.
use yun_chat.Prelude.{ℕ, ◌<◌, ◌≡◌, refl, sym, ap, ◌∙◌, ◌⊎◌, inl, inr, true, List, [], ◌∷◌, ◌++◌}
use mathlib.Core.List.{reverse, reverse-cons, reverse-reverse, append_cancel_right, append_assoc}
use yun_chat.Sql.{Outcome}
use yun_chat.Database.{Db, CacheResource, ReconcileEvent}
use yun_chat.GroupService.{GroupOptions}
use yun_chat.GroupService.UseCases as Groups
use yun_chat.FriendService.{FriendOptions}
use yun_chat.FriendService.UseCases as Friends
use yun_chat.CacheTruth.{Stores, Settings}
use yun_chat.CacheTruth.Freshness.{Shows}
use yun_chat.CacheTruth.AsMirror.{as_mirror}
use yun_chat.Projection.Friendships.{IsIndexed}
use yun_chat.Reconciler.Workers.{System, new_system, appended_all, is_for}
use yun_chat.Reconciler.Workers as Workers
use yun_chat.Reconciler.Dues.{awaits}
use yun_chat.Reconciler.Coverage.Histories.{Reach-covered}
use yun_chat.Consistency.{logged, Tells, Announced}
use yun_chat.Consistency.Requests.{group_perform-Announced, friend_perform-Announced}

logged-eq : (es log : List ReconcileEvent) → logged es log ≡ reverse es ++ log
logged-eq [] log = refl
logged-eq (e ∷ es) log =
    logged-eq es (e ∷ log)
    ∙ sym (append_assoc (reverse es) (e ∷ []) log)
    ∙ ap (λ (r : List ReconcileEvent). r ++ log) (sym (reverse-cons e es))

logged-inj : (es fs log : List ReconcileEvent) → logged es log ≡ logged fs log → es ≡ fs
logged-inj es fs log h =
    let r : reverse es ≡ reverse fs =
      append_cancel_right (reverse es) (reverse fs) log
        (sym (logged-eq es log) ∙ h ∙ logged-eq fs log) in
    sym (reverse-reverse es) ∙ ap reverse r ∙ reverse-reverse fs

abbrev pub with_tables : System Stores → Db → List ReconcileEvent → System Stores
with_tables s d events = record s {
  stores = record s.stores { tables = d };
  queue = appended_all events s.queue;
}

-- A request is served, and the rows that its transaction has added to the outbox stand in the queue;
-- or a worker, a refresh or time goes on.
pub data Step (o : Settings) : System Stores → System Stores → Type 0 where
  group_request :
      (s : System Stores) (options : GroupOptions) (request : Groups.Request)
      (outcomes : List Outcome) (d : Db) (events : List ReconcileEvent)
      → d
        ≡ (Groups.perform options request (record { db = s.stores.tables; outcomes = outcomes })).1
      → d.events ≡ logged events s.stores.tables.events
      → Step o s (with_tables s d events)
  friend_request :
      (s : System Stores) (options : FriendOptions) (request : Friends.Request)
      (outcomes : List Outcome) (d : Db) (events : List ReconcileEvent)
      → d
        ≡ (Friends.perform options request (record { db = s.stores.tables; outcomes = outcomes })).1
      → d.events ≡ logged events s.stores.tables.events
      → Step o s (with_tables s d events)
  worker : {s t : System Stores} → Workers.Step (as_mirror o) s t → Step o s t

pub data Reach (o : Settings) (s : System Stores) : System Stores → Type 0 where
  here : Reach o s s
  next : {t u : System Stores} → Reach o s t → Step o t u → Reach o s u

-- The events are those that the request announces.
announced :
    (d d' : Db) (events : List ReconcileEvent)
    → d'.events ≡ logged events d.events
    → Announced d d'
    → Tells d d' events
announced d d' events e (fs, told, tells) = rw (logged-inj events fs d.events (sym e ∙ told)) tells

serves :
    (o : Settings) (s : System Stores) (d : Db) (events : List ReconcileEvent)
    → Tells s.stores.tables d events
    → Workers.Step (as_mirror o) s (with_tables s d events)
serves o s d events tells =
    Workers.change s (record s.stores { tables = d }) events (λ v. v)
      (λ r i p fresh. elim (tells r i) [
        | inl keeps ↦ inl (keeps s.stores.cache fresh)
        | inr told ↦ inr told
      ])

as_worker : (o : Settings) {s t : System Stores} → Step o s t → Workers.Step (as_mirror o) s t
as_worker o (group_request s options request outcomes d events e log) = serves o s d events (
    announced s.stores.tables d events log (
      rw e (
        group_perform-Announced options request
          (record { db = s.stores.tables; outcomes = outcomes }))))
as_worker o (friend_request s options request outcomes d events e log) = serves o s d events (
    announced s.stores.tables d events log (
      rw e (
        friend_perform-Announced options request
          (record { db = s.stores.tables; outcomes = outcomes }))))
as_worker o (worker step) = step

as_workers : (o : Settings) {s t : System Stores} → Reach o s t → Workers.Reach (as_mirror o) s t
as_workers o here = Workers.here
as_workers o (next r step) = Workers.next (as_workers o r) (as_worker o step)

-- Redis without any key, beside tables of any content.
abbrev pub cold : Db → Stores
cold d = record {
  tables = d;
  cache = record {
    friend = [];
    friend_owner_index = [];
    friend_loaded = [];
    friend_index_loaded = [];
    blacklist = [];
    blacklist_loaded = [];
    group_members = [];
    group_member_info = [];
    user_groups = [];
    group_reverse_owner_index = [];
    group_member_loaded = [];
    group_reverse_index_loaded = [];
    outbox = [];
    group_seq = [];
  };
  locks = [];
  now = 0;
}

pub cold-Shows : (d : Db) (r : CacheResource) (i : ℕ) → Shows r i d (cold d).cache
cold-Shows d CacheResource.friends i = inl refl
cold-Shows d CacheResource.blacklist i = inl refl
cold-Shows d CacheResource.group_members i = inl refl

pub cold-IsIndexed : (d : Db) → IsIndexed (cold d).cache
cold-IsIndexed d u x h k l = l

-- From a cold Redis beside any tables and an empty queue, in every interleaving of group and friend requests,
-- refreshes and workers whose claims draw new tokens, under any answers of the driver and however leases run
-- out: for every owner, Redis shows the owner's friends, blocked users or members with their roles and
-- mute deadlines as MySQL has them (or the owner's marker is missing, so that the keys are not read), or
-- the queue holds an event for the owner that no worker can finish before it has reconciled the owner
-- again.
pub Reach-tracked :
    (o : Settings) (d : Db) (next_id now : ℕ) {t : System Stores}
    → Reach o (new_system (cold d) next_id now) t
    → (r : CacheResource) (i : ℕ) → 0 < i
    → Shows r i t.stores.tables t.stores.cache ⊎ (awaits r i t.reconciled t.queue ≡ true)
Reach-tracked o d next_id now h r i p =
    Reach-covered (as_mirror o) (cold d) next_id now (cold-IsIndexed d) (cold-Shows d)
      (as_workers o h) r i p
