-- ===== src/MessageId/MysqlStore.antt =====
-- backend/internal/messageid/mysql_store.go, on the allocator row of one namespace.
-- `next_id` is none where the migration that inserts the row has not run, and 0 stands for a corrupt value
-- below 1.
pub mod Reservations
use yun_chat.Prelude.{
  ℕ, ◌+◌, ◌-◌, ◌≡◌, Bool, not, ◌||◌, Option, none, some, ◌==◌, ltb, is_some, if◌then◌else◌,
}
use yun_chat.Sql.{
  Failure, driver, exhausted, Result, ok, err, Conn, Sql, pure, raise, query, statement,
  within_transaction, ◌>>=◌, ◌>>◌,
}
use yun_chat.MessageId.Generator.{Segment, max_id, max_segment_size}

pub record Allocator : Type 0 where
  pub next_id : Option ℕ

-- The errors that are not an `apperror.Error`.
abbrev pub raise_if : Bool → Failure → Sql Allocator (Unit {0})
raise_if bad e = if bad then raise e else pure tt

abbrev pub found_or : Option ℕ → Failure → Sql Allocator ℕ
found_or none e = raise e
found_or (some n) e = pure n

-- `Validate`: the read-only check at startup.
unfoldable pub validate : Sql Allocator (Unit {0})
validate = do
  next ← found_or (← query (λ d. d.next_id)) driver
  raise_if (ltb next 1) driver
  raise_if (ltb max_id next) exhausted

-- The UPDATE, with the number of rows that it affects.
unfoldable pub advance : ℕ → Sql Allocator ℕ
advance next = statement (λ d. (
  if is_some d.next_id then ok 1 else ok 0,
  record d { next_id = if is_some d.next_id then some next else none },
))

abbrev pub clamped : ℕ → ℕ → ℕ
clamped size first = if ltb (max_id - first + 1) size then max_id - first + 1 else size

-- The rest of `Reserve` once the row is locked.
unfoldable pub reserve_from : ℕ → ℕ → Sql Allocator Segment
reserve_from size first = do
  raise_if (ltb first 1 || ltb max_id first) exhausted
  let last = first + clamped size first - 1
  rows ← advance (last + 1)
  raise_if (not (rows == 1)) driver
  pure (record { first = first; last = last })

unfoldable pub reserve_callback : ℕ → Sql Allocator Segment
reserve_callback size = do
  first ← found_or (← query (λ d. d.next_id)) driver
  reserve_from size first

-- `Reserve`
unfoldable pub reserve : ℕ → Conn Allocator → Result Segment × Conn Allocator
reserve size c =
    if ltb size 1 || ltb max_segment_size size
    then (err driver, c)
    else within_transaction (reserve_callback size) c
