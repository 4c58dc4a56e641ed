-- ===== src/Outbox.antt =====
-- backend/internal/repository/cache_mysql.go: the table `cache_reconcile_events` and the statements of
-- the workers that drain it.
--
-- The table is the list of its rows in the order of the primary key. Times are in microseconds, by
-- the clock of MySQL unless said otherwise; a lock token is a number, 0 for the empty string, as
-- statements only compare it. A limit or a duration is 0 for every value below 1.
pub mod Moves
pub mod Claims
use Prim.Native.Nat.{◌-◌}
use yun_chat.Prelude.{
  ℕ, zero, suc, ◌+◌, Bool, true, false, not, ◌&&◌, ◌||◌, Option, none, some, List, [], ◌∷◌, ◌++◌,
  map, ◌==◌, ltb, leb, keep, take, length, count_where, update_where, if◌then◌else◌,
}
use yun_chat.Sql.{
  Sql, ok, driver, not_found, pure, raise, query, exec, statement, ◌>>=◌, ◌>>◌, within_transaction,
}
use yun_chat.Text.{trim_space}
use yun_chat.Ids.{has}
use yun_chat.Database.{CacheResource}

pub record EventRow : Type 0 where
  pub id : ℕ
  pub resource : CacheResource
  pub resource_id : ℕ
  pub status : ℕ
  pub attempts : ℕ
  pub available_at : ℕ
  pub locked_at : Option ℕ
  pub lock_token : ℕ
  pub last_error : List ℕ

pub record Queue : Type 0 where
  pub rows : List EventRow
  pub next_id : ℕ
  pub now : ℕ

-- `CacheReconcileEvent`, as a claim returns it.
pub record ClaimedEvent : Type 0 where
  pub id : ℕ
  pub resource : CacheResource
  pub resource_id : ℕ
  pub attempts : ℕ
  pub lock_token : ℕ

abbrev pub pending : ℕ
pending = 0

abbrev pub claimed : ℕ
claimed = 1

abbrev pub finished : ℕ
finished = 2

abbrev pub cache_truth_page_limit : ℕ
cache_truth_page_limit = 5000

unfoldable pub normalize_cache_page_limit : ℕ → ℕ
normalize_cache_page_limit limit =
    if leb limit 0
    then 500
    else if ltb cache_truth_page_limit limit
    then cache_truth_page_limit
    else limit

-- The INSERT with the defaults of the other columns.
unfoldable pub new_row : CacheResource → ℕ → Queue → EventRow
new_row resource resource_id q = record {
  id = q.next_id;
  resource = resource;
  resource_id = resource_id;
  status = pending;
  attempts = 0;
  available_at = q.now;
  locked_at = none;
  lock_token = 0;
  last_error = [];
}

unfoldable pub enqueue : CacheResource → ℕ → Sql Queue (Unit {0})
unfolding new_row exec
enqueue resource resource_id =
    if leb resource_id 0
    then raise driver
    else exec (λ q. record q {
      rows = q.rows ++ new_row resource resource_id q ∷ [];
      next_id = q.next_id + 1;
    })

abbrev pub is_before : Option ℕ → ℕ → Bool
is_before none t = false
is_before (some at) t = ltb at t

-- The WHERE clause of the claim; `held` are the rows that other transactions have locked, which
-- SKIP LOCKED passes over.
unfoldable pub is_claimable : ℕ → ℕ → (ℕ → Bool) → EventRow → Bool
is_claimable now stale_before held row =
    not (held row.id)
    && (row.status == pending && leb row.available_at now
        || row.status == claimed && is_before row.locked_at stale_before)

unfoldable pub as_claimed : ℕ → EventRow → ClaimedEvent
as_claimed token row = record {
  id = row.id;
  resource = row.resource;
  resource_id = row.resource_id;
  attempts = row.attempts + 1;
  lock_token = token;
}

unfoldable pub mark_claimed : ℕ → ℕ → EventRow → EventRow
mark_claimed token now row = record row {
  status = claimed;
  attempts = row.attempts + 1;
  locked_at = some now;
  lock_token = token;
}

unfoldable pub selected : ℕ → ℕ → (ℕ → Bool) → Queue → List EventRow
unfolding is_claimable
selected limit stale_before held q = take limit (keep (is_claimable q.now stale_before held) q.rows)

abbrev pub row_ids : List EventRow → List ℕ
row_ids = map (λ row. row.id)

unfoldable pub mark_all : ℕ → List EventRow → Sql Queue (Unit {0})
unfolding mark_claimed exec
mark_all token [] = pure tt
mark_all token (row ∷ rows) = exec (λ q. record q {
  rows = update_where (λ r. has r.id (row_ids (row ∷ rows))) (mark_claimed token q.now) q.rows;
})

unfoldable pub claim_callback : ℕ → ℕ → ℕ → (ℕ → Bool) → Sql Queue (List ClaimedEvent)
unfolding selected mark_all as_claimed query ◌>>=◌
claim_callback token limit stale_before held =
    query (selected limit stale_before held) >>= λ events.
    mark_all token events >>= λ _. pure (map (as_claimed token) events)

-- 30 seconds
abbrev pub default_lease : ℕ
default_lease = 30_000_000

abbrev pub lease_or_default : ℕ → ℕ
lease_or_default lease = if leb lease 0 then default_lease else lease

-- `ClaimCacheReconcileEvents`. The caller's clock `now` and the token with its random part are
-- arguments; without a token the source of randomness has failed.
unfoldable pub claim : List ℕ → ℕ → ℕ → ℕ → Option ℕ → (ℕ → Bool) → Sql Queue (List ClaimedEvent)
unfolding claim_callback normalize_cache_page_limit within_transaction
claim worker_id limit lease now token held =
    if length (trim_space worker_id) == 0 then raise driver else elim token [
      | none ↦ raise driver
      | some t ↦
          within_transaction (
            claim_callback t (normalize_cache_page_limit limit) (now - lease_or_default lease) held)
    ]

abbrev pub is_held : ℕ → ℕ → EventRow → Bool
is_held event_id token row = row.id == event_id && row.status == claimed && row.lock_token == token

unfoldable pub require_one_affected : ℕ → Sql Queue (Unit {0})
require_one_affected affected = if affected == 1 then pure tt else raise not_found

-- An UPDATE of the rows that the worker holds by its token; the driver tells how many they were.
unfoldable pub update_held : ℕ → ℕ → (EventRow → EventRow) → Sql Queue ℕ
unfolding statement
update_held event_id token change = statement (λ q. (
  ok (count_where (is_held event_id token) q.rows),
  record q { rows = update_where (is_held event_id token) change q.rows },
))

unfoldable pub finish : EventRow → EventRow
finish row = record row { status = finished; locked_at = none; lock_token = 0; last_error = [] }

-- `MarkCacheReconcileSuccess`
unfoldable pub mark_success : ℕ → ℕ → Sql Queue (Unit {0})
unfolding update_held finish require_one_affected ◌>>=◌
mark_success event_id token = update_held event_id token finish >>= require_one_affected

abbrev pub is_continuation : ℕ → Bool
is_continuation byte = leb 128 byte && ltb byte 192

abbrev pub byte_at : List ℕ → ℕ → ℕ
byte_at [] n = 0
byte_at (b ∷ bs) zero = b
byte_at (b ∷ bs) (suc n) = byte_at bs n

-- Step back to the beginning of a character.
unfoldable pub cut_at : List ℕ → ℕ → ℕ
cut_at bytes zero = zero
cut_at bytes (suc n) =
    let back = cut_at bytes n in if is_continuation (byte_at bytes (suc n)) then back else suc n

unfoldable pub truncate_utf8 : List ℕ → ℕ → List ℕ
unfolding cut_at
truncate_utf8 value max_bytes =
    if leb (length value) max_bytes then value else take (cut_at value max_bytes) value

unfoldable pub reschedule : ℕ → List ℕ → EventRow → EventRow
reschedule at message row = record row {
  status = pending;
  available_at = at;
  locked_at = none;
  lock_token = 0;
  last_error = message;
}

-- `MarkCacheReconcileFailure` with the message of the cause; `now` is the caller's clock.
unfoldable pub mark_failure : ℕ → ℕ → List ℕ → ℕ → ℕ → Sql Queue (Unit {0})
unfolding update_held reschedule truncate_utf8 require_one_affected ◌>>=◌
mark_failure event_id token cause now retry_after =
    update_held event_id token (reschedule (now + retry_after) (truncate_utf8 cause 500))
    >>= require_one_affected
