-- ===== src/MessageId/Fleet.antt =====
-- Several application processes that share one allocator row (backend/internal/messageid).
-- A process holds the mutex of its generator for a whole call of `Next`, and a reservation holds the row
-- lock, so a history is a sequence of calls; the processes and the driver's answers may interleave in
-- any order, and a process may crash and start again at any time.
pub mod Calls
pub mod Invariant
pub mod Uniqueness
use yun_chat.Prelude.{ℕ, ◌≡◌, Bool, Option, some, List, [], ◌∷◌, ◌==◌, if◌then◌else◌}
use yun_chat.Sql.{Result, ok, err, Conn, Outcome}
use yun_chat.MessageId.Generator.{Generator, ℤ, new, next_id}
use yun_chat.MessageId.MysqlStore.{Allocator, reserve}

-- The generators of the processes, the row, and the identifiers that calls have returned.
pub record Fleet : Type 0 where
  pub generators : ℕ → Generator
  pub allocator : Allocator
  pub issued : List ℕ

abbrev pub update : (ℕ → Generator) → ℕ → Generator → ℕ → Generator
update generators i g j = if i == j then g else generators j

abbrev pub add_issued : Result ℕ → List ℕ → List ℕ
add_issued (ok id) issued = id ∷ issued
add_issued (err e) issued = issued

abbrev pub call : Fleet → ℕ → Bool → Bool → List Outcome → Result ℕ × Generator × Conn Allocator
call f i cancelled cancelled_waiting outcomes =
    next_id reserve cancelled cancelled_waiting (f.generators i)
      (record { db = f.allocator; outcomes = outcomes })

abbrev pub after_call : Fleet → ℕ → Result ℕ × Generator × Conn Allocator → Fleet
after_call f i (r, g, c) = record {
  generators = update f.generators i g;
  allocator = c.db;
  issued = add_issued r f.issued;
}

pub data Step (f : Fleet) (f' : Fleet) : Type 0 where
  called :
      (i : ℕ) (cancelled cancelled_waiting : Bool) (outcomes : List Outcome)
      → f' ≡ after_call f i (call f i cancelled cancelled_waiting outcomes)
      → Step f f'
  started :
      (i : ℕ) (size : ℤ) (g : Generator)
      → new size ≡ some g
      → f' ≡ record f { generators = update f.generators i g }
      → Step f f'

pub data Reach (f : Fleet) : Fleet → Type 0 where
  here : Reach f f
  next : {f' f'' : Fleet} → Reach f f' → Step f' f'' → Reach f f''
