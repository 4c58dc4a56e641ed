-- ===== src/Reconciler/Workers.antt =====
-- Workers, requests and time, interleaved. A worker's calls of the database and of Redis are single
-- steps, so that any number of workers, crashes between two calls, lost leases and lost answers are
-- all among the histories.
use yun_chat.Prelude.{
  ℕ, ◌≡◌, ◌⊎◌, Bool, true, false, ◌&&◌, some, List, [], ◌∷◌, ◌++◌, ◌<◌, ◌==◌, some_passes,
}
use yun_chat.Sql.{Outcome, Result, ok, err}
use yun_chat.Database.{CacheResource, same_resource, ReconcileEvent}
use yun_chat.Outbox.{Queue, ClaimedEvent, claim, mark_success, mark_failure}
use yun_chat.Outbox.Moves.{appended}
use yun_chat.Reconciler.{Mirror}

-- The system and, for the statements only, what the workers know: the events that claims have
-- returned, and those of them whose owner was then reconciled with success.
pub record System (D : Type 0) : Type 0 where
  pub stores : D
  pub queue : Queue
  pub known : List ClaimedEvent
  pub reconciled : List ClaimedEvent

-- The start: an empty outbox, and no worker knows anything.
abbrev pub new_system : {D : Type 0} → D → ℕ → ℕ → System D
new_system d next_id now = record {
  stores = d;
  queue = record { rows = []; next_id = next_id; now = now };
  known = [];
  reconciled = [];
}

-- The events of a committed transaction, in the order of their INSERTs.
abbrev pub appended_all : List ReconcileEvent → Queue → Queue
appended_all [] q = q
appended_all (e ∷ es) q = appended_all es (appended e.resource e.resource_id q)

abbrev pub is_for : CacheResource → ℕ → ReconcileEvent → Bool
is_for r i e = same_resource e.resource r && e.resource_id == i

abbrev pub knows : ClaimedEvent → List ClaimedEvent → Bool
knows e = some_passes (λ k. k.id == e.id && k.lock_token == e.lock_token)

abbrev pub In : ClaimedEvent → List ClaimedEvent → Type 0
In e [] = ⊥
In e (k ∷ ks) = (e ≡ k) ⊎ In e ks

abbrev pub returned : Result (List ClaimedEvent) → List ClaimedEvent
returned (ok events) = events
returned (err e) = []

abbrev pub noted : Result (Unit {0}) → ClaimedEvent → List ClaimedEvent → List ClaimedEvent
noted (ok _) e es = e ∷ es
noted (err _) e es = es

module _ {D : Type 0} (m : Mirror D) where
  -- A transaction of the services may make Redis stale for those owners only for which it has
  -- inserted an event.
  abbrev pub Announces : D → D → List ReconcileEvent → Type 0
  Announces d d' events =
      (r : CacheResource) (i : ℕ)
      → 0 < i
      → m.Fresh r i d
      → m.Fresh r i d' ⊎ (some_passes (is_for r i) events ≡ true)

  pub data Step : System D → System D → Type 0 where
    change :
        (s : System D) (d : D) (events : List ReconcileEvent)
        → (m.IsSound s.stores → m.IsSound d)
        → Announces s.stores d events
        → Step s (record s { stores = d; queue = appended_all events s.queue })
    claims :
        (s : System D) (worker : List ℕ) (limit lease now token : ℕ) (held : ℕ → Bool)
        (outcomes : List Outcome)
        → some_passes (λ (e : ClaimedEvent). e.lock_token == token) s.reconciled ≡ false
        → Step s (record s {
          queue =
              (claim worker limit lease now
                (some token)
                held
                (record { db = s.queue; outcomes = outcomes })).1.db;
          known =
              returned
                (claim worker limit lease now
                  (some token)
                  held
                  (record { db = s.queue; outcomes = outcomes })).0
              ++ s.known;
        })
    reconciles :
        (s : System D) (e : ClaimedEvent) (outcomes : List Outcome)
        → In e s.known
        → Step s (record s {
          stores =
              (m.reconcile_now e.resource e.resource_id
                (record { db = s.stores; outcomes = outcomes })).1.db;
          reconciled =
              noted
                (m.reconcile_now e.resource e.resource_id
                  (record { db = s.stores; outcomes = outcomes })).0
                e
                s.reconciled;
        })
    -- The refresh that follows a commit, or `Warm`.
    refreshes :
        (s : System D) (r : CacheResource) (i : ℕ) (outcomes : List Outcome)
        → Step s (record s {
          stores = (m.reconcile_now r i (record { db = s.stores; outcomes = outcomes })).1.db;
        })
    succeeds :
        (s : System D) (e : ClaimedEvent) (outcomes : List Outcome)
        → In e s.reconciled
        → Step s (record s {
          queue =
              (mark_success e.id e.lock_token (record { db = s.queue; outcomes = outcomes })).1.db;
        })
    fails :
        (s : System D) (id token : ℕ) (cause : List ℕ) (now retry : ℕ) (outcomes : List Outcome)
        → Step s (record s {
          queue =
              (mark_failure id token cause now retry
                (record { db = s.queue; outcomes = outcomes })).1.db;
        })
    passes : (s : System D) (t : ℕ) → Step s (record s { queue = record s.queue { now = t } })

  pub data Reach (s : System D) : System D → Type 0 where
    here : Reach s s
    next : {t u : System D} → Reach s t → Step t u → Reach s u
