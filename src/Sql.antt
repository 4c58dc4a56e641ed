-- ===== src/Sql.antt =====
-- Statements and transactions: backend/internal/repository/mysql_runner.go and the
-- `Within*Transaction` methods of the repositories.
--
-- The MySQL driver is not modelled: what it answers is the list `outcomes` of the connection, one
-- entry for each statement to come, and an empty list stands for a driver that never fails again.
pub mod Steady
pub mod Transactions
pub mod Reads
pub mod After
use yun_chat.Prelude.{Bool, List, [], ◌∷◌, Option, none, some, if◌then◌else◌}
use yun_chat.AppError.{Code}

-- `refused`: an error, and the statement had no effect. `lost`: an error, although the statement
-- was carried out; this matters at COMMIT.
pub data Outcome : Type 0 where
  done refused lost : Outcome

-- What `errors.As` and `errors.Is` can tell apart in an error of the repositories.
pub data Failure : Type 0 where
  app : Code → Failure
  conflict not_found exhausted invalid_segment driver : Failure
  -- ErrGroupDissolved, ErrGroupDoesNotExist, ErrCacheWarmTimeout
  group_dissolved group_missing warm_timeout : Failure
  -- The error of Rebuild for a scope that is not valid.
  invalid_rebuild_scope : Failure

pub data Result (A : Type 0) : Type 0 where
  ok : A → Result A
  err : Failure → Result A

pub record Conn (D : Type 0) : Type 0 where
  pub db : D
  pub outcomes : List Outcome

abbrev pub quiet : {D : Type 0} → D → Conn D
quiet d = record { db = d; outcomes = [] }

abbrev pub Sql : Type 0 → Type 0 → Type 0
Sql D A = Conn D → Result A × Conn D

module _ {D A : Type 0} where
  abbrev pub pure : A → Sql D A
  pure a c = (ok a, c)

  abbrev pub raise : Failure → Sql D A
  raise e c = (err e, c)

  abbrev answer : Outcome → Result A × D → Conn D → List Outcome → Result A × Conn D
  answer done (r, d) c rest = (r, record { db = d; outcomes = rest })
  answer refused _ c rest = (err driver, record c { outcomes = rest })
  answer lost (_, d) c rest = (err driver, record { db = d; outcomes = rest })

  -- One statement, in the driver's next outcome.
  pub statement_from : List Outcome → (D → Result A × D) → Conn D → Result A × Conn D
  statement_from [] f c = answer done (f c.db) c []
  statement_from (o ∷ rest) f c = answer o (f c.db) c rest

  unfoldable pub statement : (D → Result A × D) → Sql D A
  unfolding statement_from
  statement f c = statement_from c.outcomes f c

  -- A statement that only reads.
  unfoldable pub query : (D → A) → Sql D A
  unfolding statement
  query f = statement (λ d. (ok (f d), d))

-- A statement that writes and returns nothing.
unfoldable pub exec : {D : Type 0} → (D → D) → Sql D (Unit {0})
unfolding statement
exec f = statement (λ d. (ok tt, f d))

module _ {D A B : Type 0} where
  abbrev pub continue : Result A → (A → Sql D B) → Sql D B
  continue (ok a) f = f a
  continue (err e) f = raise e

  infixl 5 ◌>>=◌
  unfoldable pub ◌>>=◌ : Sql D A → (A → Sql D B) → Sql D B
  ◌>>=◌ m f c = let (r, c') = m c in continue r f c'

infixl 5 ◌>>◌
abbrev pub ◌>>◌ : {D B : Type 0} → Sql D (Unit {0}) → Sql D B → Sql D B
m >> k = m >>= λ _. k

-- `if bad { return apperror.New(code) }`
abbrev pub reject_if : {D : Type 0} → Bool → Code → Sql D (Unit {0})
reject_if bad code = if bad then raise (app code) else pure tt

-- `if row == nil { return apperror.New(code) }`
abbrev pub require : {D A : Type 0} → Option A → Code → Sql D A
require none code = raise (app code)
require (some a) code = pure a

module _ {D A : Type 0} where
  abbrev commit : D → A → Outcome → D → List Outcome → Result A × Conn D
  commit before a done after rest = (ok a, record { db = after; outcomes = rest })
  commit before a refused after rest = (err driver, record { db = before; outcomes = rest })
  commit before a lost after rest = (err driver, record { db = after; outcomes = rest })

  abbrev commit_from : D → A → D → List Outcome → Result A × Conn D
  commit_from before a after [] = commit before a done after []
  commit_from before a after (o ∷ rest) = commit before a o after rest

  -- A rollback that fails joins its error to the callback's, which `errors.As` still finds; the
  -- server drops the open transaction either way.
  abbrev rollback : D → Failure → List Outcome → Result A × Conn D
  rollback before e [] = (err e, record { db = before; outcomes = [] })
  rollback before e (o ∷ rest) = (err e, record { db = before; outcomes = rest })

  abbrev pub close : D → Result A → Conn D → Result A × Conn D
  close before (ok a) c = commit_from before a c.db c.outcomes
  close before (err e) c = rollback before e c.outcomes

  abbrev pub begin_from : List Outcome → Sql D A → Conn D → Result A × Conn D
  begin_from [] body c = let (r, c') = body (record { db = c.db; outcomes = [] }) in close c.db r c'
  begin_from (done ∷ rest) body c =
      let (r, c') = body (record { db = c.db; outcomes = rest }) in close c.db r c'
  begin_from (o ∷ rest) body c = (err driver, record { db = c.db; outcomes = rest })

  -- `WithinGroupTransaction`, `WithinFriendTransaction`, `WithinTransaction`
  unfoldable pub within_transaction : Sql D A → Sql D A
  within_transaction body c = begin_from c.outcomes body c
