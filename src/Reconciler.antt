-- ===== src/Reconciler.antt =====
-- backend/internal/service/cache_truth.go: `CacheReconciler`, the worker that repairs Redis from MySQL.
--
-- The reconciliation of one owner is an interface here, `Mirror`; `CacheTruth` fills it. The two
-- databases are the fields of `World`; one list of driver answers serves both.
pub mod Backoff
pub mod Workers
pub mod Subjects
pub mod Dues
pub mod Coverage
pub mod Rounds
use Prim.Native.Nat.{◌/◌, ◌%◌, ◌-◌}
use yun_chat.Prelude.{
  ℕ, zero, suc, ◌+◌, ◌*◌, ◌≡◌, Bool, true, false, not, ◌&&◌, ◌||◌, Option, List, [], ◌∷◌, ◌++◌, ltb,
  leb, length, if◌then◌else◌,
}
use yun_chat.Sql.{Failure, Result, ok, err, Conn, Sql, pure, ◌>>=◌}
use yun_chat.Database.{CacheResource}
use yun_chat.Outbox.{Queue, ClaimedEvent, claim, mark_success, mark_failure}

-- What the worker relies on: in sound stores, reconciling an owner makes Redis show MySQL's rows for it,
-- and spoils no owner, also if it fails.
pub record Mirror (D : Type 0) : Type 1 where
  pub Fresh : CacheResource → ℕ → D → Type 0
  pub IsSound : D → Type 0
  pub reconcile_now : CacheResource → ℕ → Sql D (Unit {0})
  pub stays_sound :
      (r : CacheResource) (i : ℕ) (c : Conn D) → IsSound c.db → IsSound (reconcile_now r i c).1.db
  pub reconciles :
      (r : CacheResource) (i : ℕ) (c : Conn D)
      → IsSound c.db
      → (reconcile_now r i c).0 ≡ ok tt
      → Fresh r i (reconcile_now r i c).1.db
  pub spoils_none :
      (r s : CacheResource) (i j : ℕ) (c : Conn D)
      → IsSound c.db
      → Fresh s j c.db
      → Fresh s j (reconcile_now r i c).1.db

pub record World (D : Type 0) : Type 0 where
  pub stores : D
  pub queue : Queue

module _ {D A : Type 0} where
  -- An operation on the one part of the world.
  unfoldable pub on_queue : Sql Queue A → Sql (World D) A
  on_queue m c =
      let (r, c') = m (record { db = c.db.queue; outcomes = c.outcomes }) in
      (r, record { db = record { stores = c.db.stores; queue = c'.db }; outcomes = c'.outcomes })

  unfoldable pub on_stores : Sql D A → Sql (World D) A
  on_stores m c =
      let (r, c') = m (record { db = c.db.stores; outcomes = c.outcomes }) in
      (r, record { db = record { stores = c'.db; queue = c.db.queue }; outcomes = c'.outcomes })

  -- `err := f()`: the error is a value.
  unfoldable pub caught : Sql D A → Sql D (Result A)
  caught m c = let (r, c') = m c in (ok r, c')

-- The options of `NewCacheReconciler` after its defaults; durations in microseconds.
pub record Options : Type 0 where
  pub batch_size : ℕ
  pub lease : ℕ
  pub retry_base : ℕ
  pub max_backoff : ℕ

unfoldable pub new_cache_reconciler : Options → Options
new_cache_reconciler o = record {
  batch_size = if leb o.batch_size 0 then 100 else o.batch_size;
  lease = if leb o.lease 0 then 30_000_000 else o.lease;
  retry_base = if leb o.retry_base 0 then 1_000_000 else o.retry_base;
  max_backoff = if leb o.max_backoff 0 then 300_000_000 else o.max_backoff;
}

-- A delay is an int64, read as the number of its 64 bits: from 2^63 on it is negative.
abbrev pub is_negative : ℕ → Bool
is_negative delay = leb 9_223_372_036_854_775_808 delay

-- `delay < max` and `delay > max`, for a maximum that is not negative.
abbrev pub is_less : ℕ → ℕ → Bool
is_less delay max = is_negative delay || ltb delay max

abbrev pub is_greater : ℕ → ℕ → Bool
is_greater delay max = not (is_negative delay) && ltb max delay

-- `delay *= 2`, which keeps the low 64 bits.
unfoldable pub doubled : ℕ → ℕ
doubled delay = (delay * 2) % 18_446_744_073_709_551_616

abbrev pub last_delay : ℕ → ℕ → ℕ
last_delay max delay = if is_greater delay max then max else delay

-- The loop of `retryDelay` with the rounds that `attempt` leaves.
unfoldable pub retry_loop : ℕ → ℕ → ℕ → ℕ
unfolding doubled
retry_loop max zero delay = last_delay max delay
retry_loop max (suc rounds) delay =
    let rest = retry_loop max rounds (doubled delay) in
    if is_less delay max
    then if is_greater delay (max / 2) then max else rest
    else last_delay max delay

unfoldable pub retry_delay : Options → ℕ → ℕ
unfolding retry_loop
retry_delay o attempt = retry_loop o.max_backoff (attempt - 1) o.retry_base

-- One claim's circumstances: the claimed rows of others, the random token, the worker's clock.
pub record Round : Type 0 where
  pub token : Option ℕ
  pub now : ℕ
  pub held : ℕ → Bool

-- The failures so far, and that of the last statement if it failed.
abbrev pub reported : List Failure → Result (Unit {0}) → List Failure
reported failures (ok _) = failures
reported failures (err e) = failures ++ e ∷ []

-- `message` is the text of an error.
module _ {D : Type 0} (m : Mirror D) (worker_id : List ℕ) (o : Options)
    (message : Failure → List ℕ) where
  unfoldable pub after_success : ClaimedEvent → Sql (World D) (List Failure)
  unfolding on_queue caught ◌>>=◌
  after_success e =
      caught (on_queue (mark_success e.id e.lock_token)) >>= λ marked. pure (reported [] marked)

  unfoldable pub after_failure : ℕ → ClaimedEvent → Failure → Sql (World D) (List Failure)
  unfolding on_queue caught retry_delay ◌>>=◌
  after_failure now e cause =
      caught
        (on_queue (mark_failure e.id e.lock_token (message cause) now (retry_delay o e.attempts)))
      >>= λ marked. pure (reported (cause ∷ []) marked)

  unfoldable pub settle_event : ℕ → ClaimedEvent → Result (Unit {0}) → Sql (World D) (List Failure)
  unfolding after_success after_failure
  settle_event now e (ok _) = after_success e
  settle_event now e (err cause) = after_failure now e cause

  unfoldable pub process_event : ℕ → ClaimedEvent → Sql (World D) (List Failure)
  unfolding settle_event on_stores caught ◌>>=◌
  process_event now e =
      caught (on_stores (m.reconcile_now e.resource e.resource_id)) >>= settle_event now e

  -- The loop over the claimed events, which goes on after a failure.
  unfoldable pub process_events : ℕ → List ClaimedEvent → Sql (World D) (List Failure)
  unfolding process_event ◌>>=◌
  process_events now [] = pure []
  process_events now (e ∷ es) =
      process_event now e >>= λ failures. process_events now es >>= λ more. pure (failures ++ more)

  -- `RunOnce`: how many events were claimed, and the failures that it joins.
  unfoldable pub run_once : Round → Sql (World D) (ℕ × List Failure)
  unfolding process_events on_queue ◌>>=◌
  run_once round =
      on_queue (claim worker_id o.batch_size o.lease round.now round.token round.held) >>= λ events.
      process_events round.now events >>= λ failures. pure (length events, failures)
