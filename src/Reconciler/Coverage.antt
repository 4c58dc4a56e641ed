-- ===== src/Reconciler/Coverage.antt =====
-- The invariant of the worker's histories: each owner, and the events that are left for it.
pub mod Histories
use yun_chat.Prelude.{
  ℕ, ◌<◌, ◌≡◌, ◌⊎◌, inl, inr, Bool, true, false, ◌&&◌, List, [], ◌∷◌, ◌++◌, ◌==◌, some_passes, All,
  All-append, on_test, ==_iff, Bool-cases, leb, arith,
}
use yun_chat.Sql.{Outcome, Result, ok, err, Conn}
use yun_chat.Database.{CacheResource, same_resource, ReconcileEvent}
use yun_chat.Outbox.{
  EventRow, Queue, ClaimedEvent, claim, mark_success, mark_failure, finish, reschedule,
  truncate_utf8,
}
use yun_chat.Outbox.Moves.{appended, taken, settled, Maybe, mark_success-Maybe, mark_failure-Maybe}
use yun_chat.Outbox.Claims.{Claims, claim-Claims, selection}
use yun_chat.Reconciler.{Mirror}
use yun_chat.Reconciler.Workers.{System, appended_all, In, returned, noted, Announces, Step, Reach}
use yun_chat.Reconciler.Subjects.{
  Subject, RowAgrees, EventAgrees, IsKept, with_subject, appended-IsKept, taken-IsKept,
  settled-IsKept, claimed-Agree, selected-Agree,
}
use yun_chat.Reconciler.Dues.{
  Due, same_resource-eq, appended_all-awaits, announced-awaits, taken-awaits, rescheduled-awaits,
  finished-awaits, noted-awaits, Unused,
}

pub record IsCovered {D : Type 0} (m : Mirror D) (s : System D) : Type 0 where
  pub sound : m.IsSound s.stores
  pub subject : Subject
  pub kept : IsKept s.queue s.known subject
  pub covered :
      (r : CacheResource) (i : ℕ) → 0 < i → m.Fresh r i s.stores ⊎ Due r i s.reconciled s.queue

appended_all-IsKept :
    (es : List ReconcileEvent) (q : Queue) (known : List ClaimedEvent) (subject : Subject)
    → IsKept q known subject
    → (subject' : Subject) × IsKept (appended_all es q) known subject'
appended_all-IsKept [] q known subject k = (subject, k)
appended_all-IsKept (e ∷ es) q known subject k =
    appended_all-IsKept es (appended e.resource e.resource_id q) known _
      (appended-IsKept q known subject e.resource e.resource_id k)

finish-Agrees :
    (subject : Subject) (n : ℕ) (row : EventRow)
    → RowAgrees subject n row
    → RowAgrees subject n (finish row)
unfolding finish
finish-Agrees subject n row h = h

reschedule-Agrees :
    (subject : Subject) (n at : ℕ) (message : List ℕ) (row : EventRow)
    → RowAgrees subject n row
    → RowAgrees subject n (reschedule at message row)
unfolding reschedule
reschedule-Agrees subject n at message row h = h

In-Agrees :
    (subject : Subject) (n : ℕ) (e : ClaimedEvent) (known : List ClaimedEvent)
    → In e known
    → All (EventAgrees subject n) known
    → EventAgrees subject n e
In-Agrees subject n e [] h a = absurd h
In-Agrees subject n e (k ∷ ks) (inl same) a = rw same a.0
In-Agrees subject n e (k ∷ ks) (inr later) a = In-Agrees subject n e ks later a.1

module _ {D : Type 0} (m : Mirror D) where
  -- A queue that is covered on the whole, at the stores and the reconciliations of a system.
  abbrev Covers : System D → Queue → Type 0
  Covers s q =
      ((subject : Subject) × IsKept q s.known subject)
      × ((r : CacheResource) (i : ℕ) → 0 < i → m.Fresh r i s.stores ⊎ Due r i s.reconciled q)

  covers : (s : System D) → IsCovered m s → Covers s s.queue
  covers s v = ((v.subject, v.kept), v.covered)

  by_Maybe :
      (s : System D) (before after q : Queue)
      → Covers s before
      → Covers s after
      → Maybe before after q
      → Covers s q
  by_Maybe s before after q b a (inl e) = rw e b
  by_Maybe s before after q b a (inr e) = rw e a

  along :
      (s : System D) (f : Queue → Queue)
      → IsCovered m s
      → ((subject : Subject) → IsKept s.queue s.known subject → IsKept (f s.queue) s.known subject)
      → ((r : CacheResource) (i : ℕ)
          → Due r i s.reconciled s.queue
          → Due r i s.reconciled (f s.queue))
      → Covers s (f s.queue)
  along s f v kept due = (
    (v.subject, kept v.subject v.kept),
    λ r i p. elim (v.covered r i p) [ inl fresh ↦ inl fresh | inr h ↦ inr (due r i h) ],
  )

  build :
      (s : System D) (q : Queue)
      → m.IsSound s.stores
      → Covers s q
      → IsCovered m (record s { queue = q })
  build s q sound c = record { sound = sound; subject = c.0.0; kept = c.0.1; covered = c.1 }

  finished-Covers :
      (s : System D) (e : ClaimedEvent)
      → In e s.reconciled
      → IsCovered m s
      → Covers s (settled e.id e.lock_token finish s.queue)
  finished-Covers s e known v =
      along s (settled e.id e.lock_token finish) v
        (λ subject k.
          settled-IsKept e.id e.lock_token finish s.queue s.known subject
            (finish-Agrees subject s.queue.next_id) k)
        (λ r i h. finished-awaits r i s.reconciled e s.queue known h)

  rescheduled-Covers :
      (s : System D) (id token at : ℕ) (message : List ℕ)
      → IsCovered m s
      → Covers s (settled id token (reschedule at message) s.queue)
  rescheduled-Covers s id token at message v =
      along s (settled id token (reschedule at message)) v
        (λ subject k.
          settled-IsKept id token (reschedule at message) s.queue s.known subject
            (reschedule-Agrees subject s.queue.next_id at message) k)
        (λ r i h. rescheduled-awaits r i s.reconciled id token at message s.queue h)

  taken-Covers :
      (s : System D) (token : ℕ) (rows : List EventRow)
      → Unused token s.reconciled
      → IsCovered m s
      → Covers s (taken token rows s.queue)
  taken-Covers s token rows unused v =
      along s (taken token rows) v (λ subject k. taken-IsKept token rows s.queue s.known subject k)
        (λ r i h. taken-awaits r i s.reconciled token rows s.queue unused h)
