-- ===== src/Service.antt =====
-- What the use cases of backend/internal/service share: the checks before a transaction, the transaction,
-- and the best-effort hints that follow a commit, whose errors the source drops.
pub mod Settles
use yun_chat.Prelude.{Option, none, some, List, []}
use yun_chat.AppError.{Code}
use yun_chat.Sql.{Failure, Result, ok, err, Conn}
use yun_chat.Database.{Db}

-- A value or the code of an `apperror.Error`.
pub data Checked (A : Type 0) : Type 0 where
  valid : A → Checked A
  invalid : Code → Checked A

pub data Answer (A : Type 0) : Type 0 where
  returned : A → Answer A
  failed : Code → Answer A

-- The answer to the caller, the connection, and the hints sent, of a type `E`.
abbrev pub Reply : Type 0 → Type 0 → Type 0
Reply E A = Answer A × Conn Db × List E

abbrev pub code_of : {A : Type 0} → Answer A → Option Code
code_of (returned a) = none
code_of (failed code) = some code

module _ {E : Type 0} where
  -- The error code of a call, if it fails, and the database that it leaves.
  abbrev pub outcome : {A : Type 0} → Reply E A → Option Code × Db
  outcome (answer, c, hints) = (code_of answer, c.db)

  -- What follows the transaction: the hints if it committed, the error's code if not.
  abbrev pub respond :
      {A B : Type 0} → (Failure → Code) → (A → Conn Db → Reply E B) → Result A × Conn Db → Reply E B
  respond to_code after (ok a, c) = after a c
  respond to_code after (err e, c) = (failed (to_code e), c, [])

  abbrev pub with_valid :
      {A B : Type 0} → Checked A → (A → Conn Db → Reply E B) → Conn Db → Reply E B
  with_valid (valid a) next c = next a c
  with_valid (invalid code) next c = (failed code, c, [])

  abbrev pub reject : {B : Type 0} → Code → Conn Db → Reply E B
  reject code c = (failed code, c, [])
