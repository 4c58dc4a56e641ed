-- ===== src/Reconciler/Coverage/Histories.antt =====
-- The invariant along the steps of a history.
use yun_chat.Prelude.{
  ℕ, ◌+◌, ◌<◌, ◌≡◌, refl, ◌⊎◌, inl, inr, true, ◌&&◌, List, [], ◌∷◌, ◌++◌, map, ◌==◌, All,
  All-append, Bool-cases, arith,
}
use yun_chat.Sql.{Result, ok, err, Conn}
use yun_chat.Database.{CacheResource, same_resource, ReconcileEvent}
use yun_chat.Outbox.{EventRow, Queue, ClaimedEvent, finish, reschedule, truncate_utf8, as_claimed}
use yun_chat.Outbox.Moves.{taken, settled, mark_success-Maybe, mark_failure-Maybe}
use yun_chat.Outbox.Claims.{Claims, claim-Claims, selection}
use yun_chat.Reconciler.{Mirror}
use yun_chat.Reconciler.Workers.{
  System, new_system, appended_all, In, returned, noted, Announces, Step, Reach, change, claims,
  reconciles, refreshes, succeeds, fails, passes, here, next,
}
use yun_chat.Reconciler.Subjects.{
  Subject, EventAgrees, IsKept, taken-IsKept, claimed-Agree, selected-Agree,
}
use yun_chat.Reconciler.Dues.{
  awaits, same_resource-eq, appended_all-awaits, announced-awaits, noted-awaits, Unused,
}
use yun_chat.Reconciler.Coverage.{
  IsCovered, appended_all-IsKept, In-Agrees, covers, by_Maybe, build, finished-Covers,
  rescheduled-Covers, taken-Covers,
}

with_known :
    (q : Queue) (more known : List ClaimedEvent) (subject : Subject)
    → All (EventAgrees subject q.next_id) more
    → IsKept q known subject
    → IsKept q (more ++ known) subject
with_known q more known subject a k = record {
  rows = k.rows;
  events = All-append _ more known a k.events;
}

taken-next_id :
    (token : ℕ) (rows : List EventRow) (q : Queue) → (taken token rows q).next_id ≡ q.next_id
taken-next_id token [] q = refl
taken-next_id token (row ∷ rows) q = refl

module _ {D : Type 0} (m : Mirror D) where
  change-IsCovered :
      (s : System D) (d : D) (events : List ReconcileEvent)
      → (m.IsSound s.stores → m.IsSound d)
      → Announces m s.stores d events
      → IsCovered m s
      → IsCovered m (record s { stores = d; queue = appended_all events s.queue })
  change-IsCovered s d events sound a v =
      let k = appended_all-IsKept events s.queue s.known v.subject v.kept in
      record {
        sound = sound v.sound;
        subject = k.0;
        kept = k.1;
        covered = λ r i p. elim (v.covered r i p) [
          | inl fresh ↦ elim (a r i p fresh) [
            | inl still ↦ inl still
            | inr told ↦ inr (announced-awaits r i s.reconciled events s.queue told)
          ]
          | inr due ↦ inr (appended_all-awaits r i s.reconciled events s.queue due)
        ];
      }

  -- A claim's result and the queue that it leaves.
  claimed-IsCovered :
      (s : System D) (token : ℕ) (rows : List EventRow) (q : Queue)
      (result : Result (List ClaimedEvent))
      → ((subject : Subject)
          → IsKept s.queue s.known subject
          → All (EventAgrees subject s.queue.next_id) (map (as_claimed token) rows))
      → Claims token rows s.queue result q
      → Unused token s.reconciled
      → IsCovered m s
      → IsCovered m (record s { queue = q; known = returned result ++ s.known })
  claimed-IsCovered s token rows q (ok events) agree c unused v =
      rw (c.0, c.1)
        record {
          sound = v.sound;
          subject = v.subject;
          kept =
              with_known (taken token rows s.queue) (map (as_claimed token) rows) s.known v.subject
                (rw (taken-next_id token rows s.queue) (agree v.subject v.kept))
                (taken-IsKept token rows s.queue s.known v.subject v.kept);
          covered = (taken-Covers m s token rows unused v).1;
        }
  claimed-IsCovered s token rows q (err e) agree c unused v = build m s q v.sound (
      by_Maybe m s s.queue (taken token rows s.queue) q (covers m s v)
        (taken-Covers m s token rows unused v) c)

  -- The owner of the event is the one asked for.
  owned :
      (s r : CacheResource) (j i : ℕ) (d : D)
      → (same_resource s r && j == i) ≡ true
      → m.Fresh s j d
      → m.Fresh r i d
  owned s r j i d this fresh =
      let resources : s ≡ r = same_resource-eq s r (ground arith) in
      let ids : j ≡ i = ground arith in rw (← resources, ← ids) fresh

  reconciled-IsCovered :
      (s : System D) (e : ClaimedEvent) (result : Result (Unit {0})) (d : D)
      → In e s.known
      → (result ≡ ok tt → m.Fresh e.resource e.resource_id d)
      → ((r : CacheResource) (i : ℕ) → m.Fresh r i s.stores → m.Fresh r i d)
      → m.IsSound d
      → IsCovered m s
      → IsCovered m (record s { stores = d; reconciled = noted result e s.reconciled })
  reconciled-IsCovered s e (ok _) d known works spoils sound v = record {
    sound = sound;
    subject = v.subject;
    kept = v.kept;
    covered = λ r i p. elim (Bool-cases (same_resource e.resource r && e.resource_id == i)) [
      | inl this ↦ inl (owned e.resource r e.resource_id i d this (works refl))
      | inr other ↦ elim (v.covered r i p) [
        | inl fresh ↦ inl (spoils r i fresh)
        | inr due ↦ inr (
            noted-awaits v.subject s.queue.next_id r i s.reconciled e s.queue.rows
              (In-Agrees v.subject s.queue.next_id e s.known known v.kept.events) other v.kept.rows
              due)
      ]
    ];
  }
  reconciled-IsCovered s e (err x) d known works spoils sound v = record {
    sound = sound;
    subject = v.subject;
    kept = v.kept;
    covered =
        λ r i p. elim (v.covered r i p) [ inl fresh ↦ inl (spoils r i fresh) | inr due ↦ inr due ];
  }

  Step-IsCovered : {s t : System D} → Step m s t → IsCovered m s → IsCovered m t
  Step-IsCovered (change s d events sound a) v = change-IsCovered s d events sound a v
  Step-IsCovered (claims s worker limit lease now token held outcomes unused) v =
      claimed-IsCovered s token (selection limit lease now held s.queue) _ _
        (λ subject k.
          claimed-Agree subject s.queue.next_id token _
            (selected-Agree subject _ _ held s.queue k.rows))
        (claim-Claims worker limit lease now token held
          (record { db = s.queue; outcomes = outcomes }))
        unused v
  Step-IsCovered (reconciles s e outcomes known) v =
      let c : Conn D = record { db = s.stores; outcomes = outcomes } in
      reconciled-IsCovered s e (m.reconcile_now e.resource e.resource_id c).0
        (m.reconcile_now e.resource e.resource_id c).1.db known
        (m.reconciles e.resource e.resource_id c v.sound)
        (λ r i fresh. m.spoils_none e.resource r e.resource_id i c v.sound fresh)
        (m.stays_sound e.resource e.resource_id c v.sound) v
  Step-IsCovered (refreshes s r i outcomes) v = record {
    sound = m.stays_sound r i (record { db = s.stores; outcomes = outcomes }) v.sound;
    subject = v.subject;
    kept = v.kept;
    covered = λ r' i' p. elim (v.covered r' i' p) [
      | inl fresh ↦
          inl
            (m.spoils_none r r' i i' (record { db = s.stores; outcomes = outcomes }) v.sound fresh)
      | inr due ↦ inr due
    ];
  }
  Step-IsCovered (succeeds s e outcomes known) v = build m s _ v.sound (
      by_Maybe m s s.queue (settled e.id e.lock_token finish s.queue) _ (covers m s v)
        (finished-Covers m s e known v)
        (mark_success-Maybe e.id e.lock_token (record { db = s.queue; outcomes = outcomes })))
  Step-IsCovered (fails s id token cause now retry outcomes) v = build m s _ v.sound (
      by_Maybe m s s.queue
        (settled id token (reschedule (now + retry) (truncate_utf8 cause 500)) s.queue) _
        (covers m s v) (rescheduled-Covers m s id token (now + retry) (truncate_utf8 cause 500) v)
        (mark_failure-Maybe id token cause now retry
          (record { db = s.queue; outcomes = outcomes })))
  Step-IsCovered (passes s t) v = record {
    sound = v.sound;
    subject = v.subject;
    kept = record { rows = v.kept.rows; events = v.kept.events };
    covered = v.covered;
  }

  start-IsCovered :
      (d : D) (next_id now : ℕ)
      → m.IsSound d
      → ((r : CacheResource) (i : ℕ) → m.Fresh r i d)
      → IsCovered m (new_system d next_id now)
  start-IsCovered d next_id now sound fresh = record {
    sound = sound;
    subject = λ _. (CacheResource.friends, 0);
    kept = record { rows = tt; events = tt };
    covered = λ r i p. inl (fresh r i);
  }

  Reach-IsCovered : {s t : System D} → IsCovered m s → Reach m s t → IsCovered m t
  Reach-IsCovered v here = v
  Reach-IsCovered v (next r step) = Step-IsCovered step (Reach-IsCovered v r)

  -- From sound stores at which Redis shows MySQL's rows and an empty outbox, in every interleaving of
  -- transactions that announce what they make stale, workers with distinct tokens, refreshes, failures
  -- and time: for every owner, Redis shows MySQL's rows or the outbox holds an event for it that no
  -- worker can finish without reconciling the owner again.
  pub Reach-covered :
      (d : D) (next_id now : ℕ)
      → m.IsSound d
      → ((r : CacheResource) (i : ℕ) → m.Fresh r i d)
      → {t : System D} → Reach m (new_system d next_id now) t
      → (r : CacheResource) (i : ℕ) → 0 < i
      → m.Fresh r i t.stores ⊎ (awaits r i t.reconciled t.queue ≡ true)
  Reach-covered d next_id now sound fresh h r i p =
      (Reach-IsCovered (start-IsCovered d next_id now sound fresh) h).covered r i p
