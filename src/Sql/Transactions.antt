-- ===== src/Sql/Transactions.antt =====
-- What a transaction does to the database, whatever the driver answers.
use yun_chat.Prelude.{◌≡◌, refl, ◌⊎◌, inl, Option, none, some, List, [], ◌∷◌, arith}
use yun_chat.Sql.{
  Outcome, done, refused, lost, Failure, driver, Result, ok, err, Conn, quiet, Sql, begin_from,
  close, within_transaction,
}
use yun_chat.Sql.Steady.{Agrees, Steady}

abbrev first : List Outcome → Option Outcome
first [] = none
first (o ∷ rest) = some o

abbrev after_begin : List Outcome → List Outcome
after_begin [] = []
after_begin (o ∷ rest) = rest

module _ {D A : Type 0} where
  -- The transaction read as one step: the callback's writes, or none of them if it fails.
  abbrev pub settle : D → Result A × Conn D → Result A × D
  settle before (ok a, c) = (ok a, c.db)
  settle before (err e, c) = (err e, before)

  abbrev pub serial : Sql D A → D → Result A × D
  serial body d = settle d (body (quiet d))

  -- What the driver answers to COMMIT, if the callback gets there: the first answer that it leaves.
  abbrev pub commit_answer : Sql D A → Conn D → Option Outcome
  commit_answer body c =
      first (body (record { db = c.db; outcomes = after_begin c.outcomes })).1.outcomes

  -- Either the caller is told of a driver failure, and the database is as before or, in the case of
  -- `Lost`, as the step leaves it; or the call was exactly the step.
  abbrev pub IsAtomic : Type 0 → D → Result A × Conn D → Result A × D → Type 0
  IsAtomic Lost before (r, c) (q, after) =
      ((r ≡ err driver) × ((c.db ≡ before) ⊎ (Lost × (c.db ≡ after)))) ⊎ ((r ≡ q) × (c.db ≡ after))

  close-IsAtomic :
      (before : D) (r q : Result A) (c e : Conn D)
      → Agrees (r, c) (q, e)
      → IsAtomic (first c.outcomes ≡ some lost) before (close before r c) (settle before (q, e))
  close-IsAtomic before (ok a) (ok b) c e h = ground arith
  close-IsAtomic before (ok a) (err x) c e h = ground arith
  close-IsAtomic before (err x) (ok b) c e h = ground arith
  close-IsAtomic before (err x) (err y) c e h = ground arith

  begin-IsAtomic :
      (body : Sql D A)
      → Steady body
      → (outcomes : List Outcome) (d : D)
      → IsAtomic
          (commit_answer body (record { db = d; outcomes = outcomes }) ≡ some lost)
          d
          (begin_from outcomes body (record { db = d; outcomes = outcomes }))
          (serial body d)
  begin-IsAtomic body h [] d = close-IsAtomic d _ _ _ _ (h.agrees (quiet d))
  begin-IsAtomic body h (done ∷ rest) d =
      close-IsAtomic d _ _ _ _ (h.agrees (record { db = d; outcomes = rest }))
  begin-IsAtomic body h (refused ∷ rest) d = inl (refl, inl refl)
  begin-IsAtomic body h (lost ∷ rest) d = inl (refl, inl refl)

  -- A transaction of statements is atomic: it reports a driver failure, and has then changed nothing
  -- or, if the answer to COMMIT was lost, made all the callback's writes; or it returns what the callback
  -- returns without failures, with all its writes if that is a success and none if it is an error.
  pub within_transaction-IsAtomic :
      (body : Sql D A)
      → Steady body
      → (c : Conn D)
      → IsAtomic
          (commit_answer body c ≡ some lost)
          c.db
          (within_transaction body c)
          (serial body c.db)
  unfolding within_transaction
  within_transaction-IsAtomic body h c = begin-IsAtomic body h c.outcomes c.db

  pub settle_rolls_back :
      (d : D) (r : Result A × Conn D) (e : Failure) → (settle d r).0 ≡ err e → (settle d r).1 ≡ d
  settle_rolls_back d (ok a, c) e h = cc
  settle_rolls_back d (err x, c) e h = refl
