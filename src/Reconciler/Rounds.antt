-- ===== src/Reconciler/Rounds.antt =====
-- `RunOnce` as a sequence of the steps of a worker.
use yun_chat.Prelude.{
  ℕ, ◌≡◌, refl, inl, inr, Bool, false, Option, none, some, List, [], ◌∷◌, ◌++◌, ◌==◌, length,
  some_passes, on_test,
}
use yun_chat.Sql.{Failure, driver, Result, ok, err, Conn, Sql, Outcome, pure, continue, ◌>>=◌}
use yun_chat.Text.{trim_space}
use yun_chat.Outbox.{Queue, ClaimedEvent, claim}
use yun_chat.Reconciler.{
  Mirror, World, Options, Round, on_queue, retry_delay, settle_event, process_event, process_events,
  run_once,
}
use yun_chat.Reconciler.Workers.{
  System, Reach, here, next, claims, reconciles, succeeds, fails, In, returned, noted,
}

module _ {D : Type 0} (m : Mirror D) where
  Reach-trans : {s t u : System D} → Reach m s t → Reach m t u → Reach m s u
  Reach-trans r here = r
  Reach-trans r (next q step) = next (Reach-trans r q) step

-- What the workers know, beside the world.
abbrev pub with_knowledge :
    {D : Type 0} → World D → List ClaimedEvent → List ClaimedEvent → System D
with_knowledge w known reconciled = record {
  stores = w.stores;
  queue = w.queue;
  known = known;
  reconciled = reconciled;
}

In-append : (e : ClaimedEvent) (es known : List ClaimedEvent) → In e es → In e (es ++ known)
In-append e [] known i = absurd i
In-append e (f ∷ es) known (inl h) = inl h
In-append e (f ∷ es) known (inr h) = inr (In-append e es known h)

-- Without a token the call fails before its transaction.
claim-tokenless :
    (worker : List ℕ) (limit lease now : ℕ) (held : ℕ → Bool) (c : Conn Queue)
    → claim worker limit lease now none held c ≡ (err driver, c)
unfolding claim
claim-tokenless worker limit lease now held c =
    on_test (length (trim_space worker) == 0) (λ h. rw h refl) (λ h. rw h refl)

module _ {D : Type 0} (m : Mirror D) (worker : List ℕ) (o : Options)
    (message : Failure → List ℕ) where
  -- From one world to another, by steps after which the workers know what they have reconciled.
  abbrev Reaches : World D → List ClaimedEvent → List ClaimedEvent → World D → Type 0
  Reaches w known reconciled w' =
      (after : List ClaimedEvent) × Reach m (with_knowledge w known reconciled)
        (with_knowledge w' known after)

  -- The event is settled by the result of its reconciliation.
  settle_event-Reach :
      (now : ℕ) (e : ClaimedEvent) (r : Result (Unit {0})) (c : Conn (World D))
      (known reconciled : List ClaimedEvent)
      → Reach m (with_knowledge c.db known (noted r e reconciled)) (
          with_knowledge
            (settle_event m worker o message now e r c).1.db
            known
            (noted r e reconciled))
  unfolding settle_event
  settle_event-Reach now e (ok _) c known reconciled =
      next here (succeeds (with_knowledge c.db known (e ∷ reconciled)) e c.outcomes (inl refl))
  settle_event-Reach now e (err cause) c known reconciled = next here (
      fails (with_knowledge c.db known reconciled) e.id e.lock_token (message cause) now
        (retry_delay o e.attempts) c.outcomes)

  process_event-Reaches :
      (now : ℕ) (e : ClaimedEvent) (c : Conn (World D)) (known reconciled : List ClaimedEvent)
      → In e known
      → Reaches c.db known reconciled (process_event m worker o message now e c).1.db
  unfolding process_event
  process_event-Reaches now e c known reconciled i =
      let r =
        m.reconcile_now e.resource e.resource_id
          (record { db = c.db.stores; outcomes = c.outcomes }) in
      let c' : Conn (World D) = record {
        db = record { stores = r.1.db; queue = c.db.queue };
        outcomes = r.1.outcomes;
      } in
      (
        noted r.0 e reconciled,
        Reach-trans m (next here (reconciles (with_knowledge c.db known reconciled) e c.outcomes i))
            (settle_event-Reach now e r.0 c' known reconciled),
      )

  continue-Reaches :
      {A B : Type 0} (f : A → Sql (World D) B) (r : Result A) (c : Conn (World D))
      (known reconciled : List ClaimedEvent)
      → ((a : A) → r ≡ ok a → Reaches c.db known reconciled (f a c).1.db)
      → Reaches c.db known reconciled (continue r f c).1.db
  continue-Reaches f (ok a) c known reconciled h = h a refl
  continue-Reaches f (err e) c known reconciled h = (reconciled, here)

  bind-Reaches :
      {A B : Type 0} (q : Sql (World D) A) (f : A → Sql (World D) B) (c : Conn (World D))
      (known reconciled : List ClaimedEvent)
      → Reaches c.db known reconciled (q c).1.db
      → ((a : A) (after : List ClaimedEvent) → Reaches (q c).1.db known after (f a (q c).1).1.db)
      → Reaches c.db known reconciled ((q >>= f) c).1.db
  unfolding ◌>>=◌
  bind-Reaches q f c known reconciled h k =
      let rest = continue-Reaches f (q c).0 (q c).1 known h.0 (λ a e. k a h.0) in
      (rest.0, Reach-trans m h.1 rest.1)

  process_events-Reaches :
      (now : ℕ) (es : List ClaimedEvent) (c : Conn (World D)) (known reconciled : List ClaimedEvent)
      → ((e : ClaimedEvent) → In e es → In e known)
      → Reaches c.db known reconciled (process_events m worker o message now es c).1.db
  unfolding process_events
  process_events-Reaches now [] c known reconciled i = (reconciled, here)
  process_events-Reaches now (e ∷ es) c known reconciled i =
      let rest = process_events m worker o message now es in
      let c' = (process_event m worker o message now e c).1 in
      bind-Reaches (process_event m worker o message now e)
        (λ failures. rest >>= λ more. pure (failures ++ more)) c known reconciled
        (process_event-Reaches now e c known reconciled (i e (inl refl)))
        (λ failures after.
          bind-Reaches rest (λ more. pure (failures ++ more)) c' known after
            (process_events-Reaches now es c' known after (λ f j. i f (inr j)))
            (λ more later. (later, here)))

  -- The claim of a round, after which the workers know its events.
  claim-Reach :
      (token : Option ℕ) (now : ℕ) (held : ℕ → Bool) (w : World D) (outcomes : List Outcome)
      (known reconciled : List ClaimedEvent)
      → ((t : ℕ)
          → token ≡ some t
          → some_passes (λ (e : ClaimedEvent). e.lock_token == t) reconciled ≡ false)
      → (let r =
            claim worker o.batch_size o.lease now token held
              (record { db = w.queue; outcomes = outcomes }) in
          Reach m (with_knowledge w known reconciled) (
            with_knowledge
              (record { stores = w.stores; queue = r.1.db })
              (returned r.0 ++ known)
              reconciled))
  claim-Reach none now held w outcomes known reconciled h =
      rw
        (claim-tokenless worker o.batch_size o.lease now held
          (record { db = w.queue; outcomes = outcomes }))
        here
  claim-Reach (some t) now held w outcomes known reconciled h = next here (
      claims (with_knowledge w known reconciled) worker o.batch_size o.lease now t held outcomes
        (h t refl))

  round-Reaches :
      (now : ℕ) (r : Result (List ClaimedEvent)) (c : Conn (World D))
      (known reconciled : List ClaimedEvent)
      → Reaches c.db
          (returned r ++ known)
          reconciled
          (continue {B = ℕ × List Failure} r
            (λ events. process_events m worker o message now events >>= λ failures.
              pure (length events, failures))
            c).1.db
  round-Reaches now (err e) c known reconciled = (reconciled, here)
  round-Reaches now (ok events) c known reconciled =
      bind-Reaches (process_events m worker o message now events)
        (λ failures. pure (length events, failures)) c (events ++ known) reconciled
        (process_events-Reaches now events c (events ++ known) reconciled
          (λ e i. In-append e events known i))
        (λ failures after. (after, here))

  -- Whatever the driver answers, a run of RunOnce whose random token is not that of an event that was
  -- reconciled before leaves stores and outbox that the steps of the histories reach from those before it,
  -- where the workers know some more events, and some more that were reconciled. In these steps an event
  -- is only marked as a success after its owner was reconciled with success under the event's token.
  pub run_once-Reach :
      (round : Round) (c : Conn (World D)) (known reconciled : List ClaimedEvent)
      → ((t : ℕ)
          → round.token ≡ some t
          → some_passes (λ (e : ClaimedEvent). e.lock_token == t) reconciled ≡ false)
      → (known' : List ClaimedEvent) × (reconciled' : List ClaimedEvent) × Reach m
          (with_knowledge c.db known reconciled)
          (with_knowledge (run_once m worker o message round c).1.db known' reconciled')
  unfolding run_once on_queue ◌>>=◌
  run_once-Reach round c known reconciled h =
      let r =
        claim worker o.batch_size o.lease round.now round.token round.held
          (record { db = c.db.queue; outcomes = c.outcomes }) in
      let c' : Conn (World D) = record {
        db = record { stores = c.db.stores; queue = r.1.db };
        outcomes = r.1.outcomes;
      } in
      let rest = round-Reaches round.now r.0 c' known reconciled in
      (
        returned r.0 ++ known,
        rest.0,
        Reach-trans m
            (claim-Reach round.token round.now round.held c.db c.outcomes known reconciled h)
            rest.1,
      )
