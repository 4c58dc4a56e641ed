-- ===== src/Reconciler/Dues.antt =====
-- Which rows of the outbox still have work to be done, and the statements that touch them.
use yun_chat.Prelude.{
  ℕ, ◌≡◌, refl, sym, ap, ◌∙◌, ==_iff, inl, inr, Bool, true, false, not, ◌&&◌, ◌||◌, List, [], ◌∷◌,
  ◌==◌, some_passes, All, some_passes-update, some_passes-append_left, some_passes-append_right,
  arith, if◌then◌else◌, Bool-cases,
}
use yun_chat.Ids.{has}
use yun_chat.Database.{
  CacheResource, same_resource, friends, group_members, blacklist, ReconcileEvent,
}
use yun_chat.Outbox.{
  EventRow, Queue, ClaimedEvent, new_row, mark_claimed, finish, reschedule, is_held, row_ids,
}
use yun_chat.Outbox.Moves.{appended, taken, settled}
use yun_chat.Reconciler.Subjects.{Subject, RowAgrees, EventAgrees}
use yun_chat.Reconciler.Workers.{appended_all, is_for, In}

pub same_resource-eq : (r s : CacheResource) → same_resource r s ≡ true → r ≡ s
same_resource-eq friends friends h = refl
same_resource-eq group_members group_members h = refl
same_resource-eq blacklist blacklist h = refl
same_resource-eq friends group_members h = absurd (cc)
same_resource-eq friends blacklist h = absurd (cc)
same_resource-eq group_members friends h = absurd (cc)
same_resource-eq group_members blacklist h = absurd (cc)
same_resource-eq blacklist friends h = absurd (cc)
same_resource-eq blacklist group_members h = absurd (cc)

-- Is the row's work still to be done? It is pending, or claimed by a worker that has not yet
-- reconciled the owner since.
abbrev pub to_do : List ClaimedEvent → EventRow → Bool
to_do reconciled row =
    row.status == 0
    || (row.status == 1
        && not (some_passes (λ k. k.id == row.id && k.lock_token == row.lock_token) reconciled))

abbrev pub is_due : CacheResource → ℕ → List ClaimedEvent → EventRow → Bool
is_due r i reconciled row =
    (same_resource row.resource r && row.resource_id == i) && to_do reconciled row

abbrev pub awaits : CacheResource → ℕ → List ClaimedEvent → Queue → Bool
awaits r i reconciled q = some_passes (is_due r i reconciled) q.rows

abbrev pub Due : CacheResource → ℕ → List ClaimedEvent → Queue → Type 0
Due r i reconciled q = awaits r i reconciled q ≡ true

appended-awaits :
    (r : CacheResource) (i : ℕ) (reconciled : List ClaimedEvent) (s : CacheResource) (j : ℕ)
    (q : Queue)
    → Due r i reconciled q
    → Due r i reconciled (appended s j q)
appended-awaits r i reconciled s j q h = some_passes-append_left _ q.rows _ h

new-awaits :
    (r : CacheResource) (i : ℕ) (reconciled : List ClaimedEvent) (e : ReconcileEvent) (q : Queue)
    → is_for r i e ≡ true
    → Due r i reconciled (appended e.resource e.resource_id q)
unfolding new_row
new-awaits r i reconciled e q h = some_passes-append_right _ q.rows _ (ground arith)

pub appended_all-awaits :
    (r : CacheResource) (i : ℕ) (reconciled : List ClaimedEvent) (es : List ReconcileEvent)
    (q : Queue)
    → Due r i reconciled q
    → Due r i reconciled (appended_all es q)
appended_all-awaits r i reconciled [] q h = h
appended_all-awaits r i reconciled (e ∷ es) q h =
    appended_all-awaits r i reconciled es (appended e.resource e.resource_id q)
      (appended-awaits r i reconciled e.resource e.resource_id q h)

pub announced-awaits :
    (r : CacheResource) (i : ℕ) (reconciled : List ClaimedEvent) (es : List ReconcileEvent)
    (q : Queue)
    → some_passes (is_for r i) es ≡ true
    → Due r i reconciled (appended_all es q)
announced-awaits r i reconciled [] q h = absurd (cc)
announced-awaits r i reconciled (e ∷ es) q h = elim (Bool-cases (is_for r i e)) [
  | inl now ↦
      appended_all-awaits r i reconciled es (appended e.resource e.resource_id q)
        (new-awaits r i reconciled e q now)
  | inr later ↦
      announced-awaits r i reconciled es (appended e.resource e.resource_id q) (rw later at h)
]

-- A token that no reconciliation was made with.
abbrev pub Unused : ℕ → List ClaimedEvent → Type 0
Unused token reconciled =
    some_passes (λ (e : ClaimedEvent). e.lock_token == token) reconciled ≡ false

unknown :
    (id token : ℕ) (reconciled : List ClaimedEvent)
    → Unused token reconciled
    → some_passes (λ (k : ClaimedEvent). k.id == id && k.lock_token == token) reconciled ≡ false
unknown id token [] h = refl
unknown id token (k ∷ ks) h = ground (arith, unknown id token ks)

marked-due :
    (r : CacheResource) (i : ℕ) (reconciled : List ClaimedEvent) (token now : ℕ) (row : EventRow)
    → Unused token reconciled
    → is_due r i reconciled row ≡ true
    → is_due r i reconciled (mark_claimed token now row) ≡ true
unfolding mark_claimed
marked-due r i reconciled token now row h d = ground (arith, unknown row.id token reconciled)

always : (xs : List EventRow) → All (λ _. Unit {0}) xs
always [] = tt
always (x ∷ xs) = (tt, always xs)

if_due :
    (r : CacheResource) (i : ℕ) (reconciled : List ClaimedEvent) (b : Bool)
    (f : EventRow → EventRow) (row : EventRow)
    → (is_due r i reconciled (f row) ≡ true)
    → is_due r i reconciled row ≡ true
    → is_due r i reconciled (if b then f row else row) ≡ true
if_due r i reconciled true f row h d = h
if_due r i reconciled false f row h d = d

pub taken-awaits :
    (r : CacheResource) (i : ℕ) (reconciled : List ClaimedEvent) (token : ℕ) (rows : List EventRow)
    (q : Queue)
    → Unused token reconciled
    → Due r i reconciled q
    → Due r i reconciled (taken token rows q)
taken-awaits r i reconciled token [] q u h = h
taken-awaits r i reconciled token (row ∷ rows) q u h =
    some_passes-update (λ _. Unit {0}) _ _ _ (mark_claimed token q.now) q.rows
      (λ x _ d.
        if_due r i reconciled (has x.id (row_ids (row ∷ rows))) (mark_claimed token q.now) x
          (marked-due r i reconciled token q.now x u d) d)
      (always q.rows) h

rescheduled-due :
    (r : CacheResource) (i : ℕ) (reconciled : List ClaimedEvent) (at : ℕ) (message : List ℕ)
    (row : EventRow)
    → is_due r i reconciled row ≡ true
    → is_due r i reconciled (reschedule at message row) ≡ true
unfolding reschedule
rescheduled-due r i reconciled at message row d = ground arith

pub rescheduled-awaits :
    (r : CacheResource) (i : ℕ) (reconciled : List ClaimedEvent) (id token at : ℕ)
    (message : List ℕ) (q : Queue)
    → Due r i reconciled q
    → Due r i reconciled (settled id token (reschedule at message) q)
rescheduled-awaits r i reconciled id token at message q h =
    some_passes-update (λ _. Unit {0}) _ _ _ (reschedule at message) q.rows
      (λ x _ d.
        if_due r i reconciled (is_held id token x) (reschedule at message) x
          (rescheduled-due r i reconciled at message x d) d)
      (always q.rows) h

In-knows :
    (e : ClaimedEvent) (es : List ClaimedEvent)
    → In e es
    → some_passes (λ (k : ClaimedEvent). k.id == e.id && k.lock_token == e.lock_token) es ≡ true
In-knows e [] h = absurd h
In-knows e (k ∷ ks) (inl same) = ground arith
In-knows e (k ∷ ks) (inr later) = ground (arith, In-knows e ks later)

-- A row that the worker marks as finished was not due: the worker has reconciled its owner.
finished-due :
    (r : CacheResource) (i : ℕ) (reconciled : List ClaimedEvent) (e : ClaimedEvent) (row : EventRow)
    → In e reconciled
    → is_due r i reconciled row ≡ true
    → is_held e.id e.lock_token row ≡ false
finished-due r i reconciled e row known d = ground (arith, In-knows e reconciled known)

pub finished-awaits :
    (r : CacheResource) (i : ℕ) (reconciled : List ClaimedEvent) (e : ClaimedEvent) (q : Queue)
    → In e reconciled
    → Due r i reconciled q
    → Due r i reconciled (settled e.id e.lock_token finish q)
finished-awaits r i reconciled e q known h =
    some_passes-update (λ _. Unit {0}) _ _ _ finish q.rows
      (λ x _ d. rw (finished-due r i reconciled e x known d) d) (always q.rows) h

-- Reconciling the owner of one event leaves the rows of the others to be done.
other-due :
    (subject : Subject) (n : ℕ) (r : CacheResource) (i : ℕ) (reconciled : List ClaimedEvent)
    (e : ClaimedEvent) (row : EventRow)
    → EventAgrees subject n e
    → (same_resource e.resource r && e.resource_id == i) ≡ false
    → RowAgrees subject n row
    → is_due r i reconciled row ≡ true
    → is_due r i (e ∷ reconciled) row ≡ true
other-due subject n r i reconciled e row a o b d = elim (Bool-cases (e.id == row.id)) [
  | inl same ↦
      let ids : e.id ≡ row.id = (==_iff e.id row.id).0 same in
      let owners : (e.resource, e.resource_id) ≡ (row.resource, row.resource_id) =
        sym a.1 ∙ ap subject ids ∙ b.1 in
      absurd (
        ground (
          arith,
          ap (λ (p : CacheResource × ℕ). p.0) owners,
          ap (λ (p : CacheResource × ℕ). p.1) owners,
        ))
  | inr differs ↦ ground arith
]

pub noted-awaits :
    (subject : Subject) (n : ℕ) (r : CacheResource) (i : ℕ) (reconciled : List ClaimedEvent)
    (e : ClaimedEvent) (rows : List EventRow)
    → EventAgrees subject n e
    → (same_resource e.resource r && e.resource_id == i) ≡ false
    → All (RowAgrees subject n) rows
    → some_passes (is_due r i reconciled) rows ≡ true
    → some_passes (is_due r i (e ∷ reconciled)) rows ≡ true
noted-awaits subject n r i reconciled e [] a o k h = h
noted-awaits subject n r i reconciled e (row ∷ rows) a o k h =
    elim (Bool-cases (is_due r i reconciled row)) [
      | inl due ↦ rw (other-due subject n r i reconciled e row a o k.0 due) refl
      | inr not_due ↦
          rw (noted-awaits subject n r i reconciled e rows a o k.1 (rw not_due at h)) (or_true _)
    ]
  where
    or_true : (b : Bool) → (b || true) ≡ true
    or_true true = refl
    or_true false = refl
