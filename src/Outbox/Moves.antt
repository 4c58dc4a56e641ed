-- ===== src/Outbox/Moves.antt =====
-- What the statements of the outbox can do to the table, whatever the driver answers.
use yun_chat.Prelude.{ℕ, ◌+◌, ◌≡◌, ◌⊎◌, List, [], ◌∷◌, ◌++◌, update_where, arith}
use yun_chat.Sql.{Conn, statement}
use yun_chat.Ids.{has}
use yun_chat.Database.{CacheResource}
use yun_chat.Outbox.{
  EventRow, Queue, new_row, enqueue, row_ids, mark_claimed, is_held, finish, reschedule,
  truncate_utf8, mark_success, mark_failure,
}

abbrev pub appended : CacheResource → ℕ → Queue → Queue
appended resource i q = record q {
  rows = q.rows ++ new_row resource i q ∷ [];
  next_id = q.next_id + 1;
}

abbrev pub taken : ℕ → List EventRow → Queue → Queue
taken token [] q = q
taken token (row ∷ rows) q = record q {
  rows = update_where (λ r. has r.id (row_ids (row ∷ rows))) (mark_claimed token q.now) q.rows;
}

abbrev pub settled : ℕ → ℕ → (EventRow → EventRow) → Queue → Queue
settled event_id token change q = record q {
  rows = update_where (is_held event_id token) change q.rows;
}

-- Either nothing happened or `f` did.
abbrev pub Maybe : Queue → Queue → Queue → Type 0
Maybe before after result = (result ≡ before) ⊎ (result ≡ after)

pub enqueue-Maybe :
    (resource : CacheResource) (i : ℕ) (c : Conn Queue)
    → Maybe c.db (appended resource i c.db) (enqueue resource i c).1.db
unfolding enqueue statement
enqueue-Maybe resource i c = ground arith

pub mark_success-Maybe :
    (i token : ℕ) (c : Conn Queue)
    → Maybe c.db (settled i token finish c.db) (mark_success i token c).1.db
unfolding mark_success statement
mark_success-Maybe i token c = ground arith

pub mark_failure-Maybe :
    (i token : ℕ) (cause : List ℕ) (now retry : ℕ) (c : Conn Queue)
    → Maybe c.db
        (settled i token (reschedule (now + retry) (truncate_utf8 cause 500)) c.db)
        (mark_failure i token cause now retry c).1.db
unfolding mark_failure statement
mark_failure-Maybe i token cause now retry c = ground arith
