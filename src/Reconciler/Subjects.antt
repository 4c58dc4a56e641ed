-- ===== src/Reconciler/Subjects.antt =====
-- The identifier and the owner of an event, from its INSERT on.
use yun_chat.Prelude.{
  ℕ, ◌+◌, ◌<◌, ◌≡◌, Bool, List, [], ◌∷◌, map, ◌==◌, keep, take, All, All-append, All-map,
  All-update_where, arith, if◌then◌else◌, on_test,
}
use yun_chat.Database.{CacheResource}
use yun_chat.Outbox.{EventRow, Queue, ClaimedEvent, new_row, mark_claimed, as_claimed, selected}
use yun_chat.Outbox.Moves.{appended, taken, settled}

-- The owner that the event with an identifier is about.
abbrev pub Subject : Type 0
Subject = ℕ → CacheResource × ℕ

abbrev pub RowAgrees : Subject → ℕ → EventRow → Type 0
RowAgrees subject bound row = (row.id < bound) × (subject row.id ≡ (row.resource, row.resource_id))

abbrev pub EventAgrees : Subject → ℕ → ClaimedEvent → Type 0
EventAgrees subject bound e = (e.id < bound) × (subject e.id ≡ (e.resource, e.resource_id))

pub record IsKept (q : Queue) (known : List ClaimedEvent) (subject : Subject) : Type 0 where
  pub rows : All (RowAgrees subject q.next_id) q.rows
  pub events : All (EventAgrees subject q.next_id) known

-- Subject of the new event.
abbrev pub with_subject : Subject → ℕ → CacheResource → ℕ → Subject
with_subject subject n r i id = if id == n then (r, i) else subject id

row-step :
    (subject : Subject) (n : ℕ) (r : CacheResource) (i : ℕ) (row : EventRow)
    → RowAgrees subject n row
    → RowAgrees (with_subject subject n r i) (n + 1) row
row-step subject n r i row h = ground arith

event-step :
    (subject : Subject) (n : ℕ) (r : CacheResource) (i : ℕ) (e : ClaimedEvent)
    → EventAgrees subject n e
    → EventAgrees (with_subject subject n r i) (n + 1) e
event-step subject n r i e h = ground arith

pub appended-IsKept :
    (q : Queue) (known : List ClaimedEvent) (subject : Subject) (r : CacheResource) (i : ℕ)
    → IsKept q known subject
    → IsKept (appended r i q) known (with_subject subject q.next_id r i)
unfolding new_row
appended-IsKept q known subject r i k = record {
  rows =
      All-append _ q.rows _ (All-map _ _ q.rows (row-step subject q.next_id r i) k.rows)
        (ground arith);
  events = All-map _ _ known (event-step subject q.next_id r i) k.events;
}

pub taken-IsKept :
    (token : ℕ) (rows : List EventRow) (q : Queue) (known : List ClaimedEvent) (subject : Subject)
    → IsKept q known subject
    → IsKept (taken token rows q) known subject
unfolding mark_claimed
taken-IsKept token [] q known subject k = k
taken-IsKept token (row ∷ rows) q known subject k = record {
  rows = All-update_where _ _ _ q.rows (λ r h. h) k.rows;
  events = k.events;
}

pub settled-IsKept :
    (event_id token : ℕ) (change : EventRow → EventRow) (q : Queue) (known : List ClaimedEvent)
    (subject : Subject)
    → ((row : EventRow)
        → RowAgrees subject q.next_id row
        → RowAgrees subject q.next_id (change row))
    → IsKept q known subject
    → IsKept (settled event_id token change q) known subject
settled-IsKept event_id token change q known subject same k = record {
  rows = All-update_where _ _ _ q.rows same k.rows;
  events = k.events;
}

All-keep :
    (P : EventRow → Type 0) (p : EventRow → Bool) (xs : List EventRow)
    → All P xs
    → All P (keep p xs)
All-keep P p [] h = tt
All-keep P p (x ∷ xs) h =
    on_test (p x) (λ e. rw e (All-keep P p xs h.1)) (λ e. rw e (h.0, All-keep P p xs h.1))

All-take : (P : EventRow → Type 0) (n : ℕ) (xs : List EventRow) → All P xs → All P (take n xs)
All-take P ℕ.zero xs h = tt
All-take P (ℕ.suc n) [] h = tt
All-take P (ℕ.suc n) (x ∷ xs) h = (h.0, All-take P n xs h.1)

pub claimed-Agree :
    (subject : Subject) (n token : ℕ) (rows : List EventRow)
    → All (RowAgrees subject n) rows
    → All (EventAgrees subject n) (map (as_claimed token) rows)
unfolding as_claimed
claimed-Agree subject n token [] h = tt
claimed-Agree subject n token (row ∷ rows) h = (h.0, claimed-Agree subject n token rows h.1)

pub selected-Agree :
    (subject : Subject) (limit stale : ℕ) (held : ℕ → Bool) (q : Queue)
    → All (RowAgrees subject q.next_id) q.rows
    → All (RowAgrees subject q.next_id) (selected limit stale held q)
unfolding selected
selected-Agree subject limit stale held q h = All-take _ limit _ (All-keep _ _ q.rows h)
