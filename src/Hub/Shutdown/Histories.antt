-- ===== src/Hub/Shutdown/Histories.antt =====
-- `Close` in the histories of a hub.
use yun_chat.Prelude.{
  ℕ, ◌≡◌, refl, ap, sym, ◌∙◌, drop_passing, ltb, ◌⊎◌, inl, inr, Bool, true, false, List, [], ◌∷◌,
  map, arith, if◌then◌else◌,
}
use yun_chat.Ids.{has}
use yun_chat.Projection.Keys.{Entry}
use yun_chat.Hub.{
  Hub, new_hub, is_registration, kicks, client_of, begin_registration, end_registration, install,
  close_client, close_all, finish_registration, remove, disconnect, notify, take_message,
  begin_close, sweep, notify_client, waiting, queue_capacity, Sent, queued, backpressure,
}
use yun_chat.Hub.Steps.{
  Step, registers, installs, finishes, disconnects, closes, notifies, writes, begins_close, sweeps,
  Reach, here, next,
}
use yun_chat.Hub.Shutdown.{
  is_replaced, Accounted, Swept, done-close_all, closed-rest, kicks-replaced, with_replaced-old,
  with_replaced-keeps, client-removed, entry-removed, has-clients,
}

-- What a notification can do to the hub.
abbrev Notified : Hub → Hub → Type 0
Notified h k =
    ((qs : List Entry) × (k ≡ record h { queues = qs }))
    ⊎ ((c : ℕ) × (k ≡ record h { done = c ∷ h.done }))

notify-Notified : (user : ℕ) (h : Hub) → Notified h (notify user h).1
unfolding notify
notify-Notified user h = by_client (client_of user h)
  where
    by_test :
        (c : ℕ) (b : Bool) (qs : List Entry)
        → Notified h
            (if◌then◌else◌ {A = Sent × Hub} b
              (queued, record h { queues = qs })
              (backpressure, record h { done = c ∷ h.done })).1
    by_test c true qs = inl (qs, refl)
    by_test c false qs = inr (c, refl)

    by_client : (cs : List ℕ) → Notified h (notify_client cs h).1
    by_client [] = inl (h.queues, refl)
    by_client (c ∷ cs) = by_test c (ltb (waiting c h) queue_capacity) _

finish-eq :
    (connection : ℕ) (h : Hub)
    → finish_registration connection h ≡ record h {
      done = (close_all (kicks connection h.registrations) h).done;
      registrations = drop_passing (is_registration connection) h.registrations;
    }
unfolding finish_registration end_registration
finish-eq connection h =
    ap (end_registration connection) (closed-rest (kicks connection h.registrations) h)

abbrev all_clients : Hub → List ℕ
all_clients h = map (λ e. e.item) h.clients

sweep-eq :
    (h : Hub) → sweep h ≡ record h { done = (close_all (all_clients h) h).done; swept = true }
unfolding sweep
sweep-eq h = ap (λ (k : Hub). record k { swept = true }) (closed-rest (all_clients h) h)

Notified-Accounted : (h k : Hub) → Notified h k → Accounted h → Accounted k
Notified-Accounted h k (inl (qs, e)) a = rw e a
Notified-Accounted h k (inr (d, e)) a = rw e (λ c s. ground (arith, a c s))

finished-Accounted :
    (connection : ℕ) (h k : Hub)
    → k ≡ record h {
      done = (close_all (kicks connection h.registrations) h).done;
      registrations = drop_passing (is_registration connection) h.registrations;
    }
    → Accounted h
    → Accounted k
finished-Accounted connection h k e a = rw e (λ c s. ground (
  arith,
  a c s,
  done-close_all c (kicks connection h.registrations) h,
  kicks-replaced c connection h.registrations,
))

swept-Accounted :
    (h k : Hub)
    → k ≡ record h { done = (close_all (all_clients h) h).done; swept = true }
    → Accounted h
    → Accounted k
swept-Accounted h k e a =
    rw e (λ c s. ground (arith, a c s, done-close_all c (all_clients h) h, has-clients c h.clients))

Step-Accounted : {h k : Hub} → Step h k → Accounted h → Accounted k
unfolding begin_registration install disconnect remove close_client take_message begin_close
Step-Accounted (registers user connection h) a c s = ground (arith, a c)
Step-Accounted (installs user connection h e) a c s = ground (
  arith,
  a c,
  with_replaced-old c connection (client_of user h) h.registrations e,
  with_replaced-keeps c connection (client_of user h) h.registrations,
  client-removed c user h.clients,
)
Step-Accounted (finishes connection h) a c s =
    finished-Accounted connection h _ (finish-eq connection h) a c s
Step-Accounted (disconnects user connection h) a c s =
    ground (arith, a c, entry-removed c user connection h.clients)
Step-Accounted (closes connection h) a c s = ground (arith, a c)
Step-Accounted (notifies user h) a c s = Notified-Accounted h _ (notify-Notified user h) a c s
Step-Accounted (writes connection h) a c s = a c s
Step-Accounted (begins_close h) a c s = a c s
Step-Accounted (sweeps h closed none_left) a c s = swept-Accounted h _ (sweep-eq h) a c s

-- What the sweep finds in the map is all that is left.
swept-Swept :
    (h k : Hub)
    → h.closed ≡ true
    → h.registrations ≡ []
    → k ≡ record h { done = (close_all (all_clients h) h).done; swept = true }
    → Accounted h
    → Swept k
swept-Swept h k closed none_left e a = rw e (
    inr (
      closed,
      none_left,
      λ c s. ground (
        arith,
        a c s,
        done-close_all c (all_clients h) h,
        has-clients c h.clients,
        ap (is_replaced c) none_left,
      ),
    ))

-- What a hub does when it is swept, and only closes connections.
only_closes-Swept :
    (h k : Hub)
    → k ≡ record h { done = k.done; queues = k.queues }
    → ((c : ℕ) → has c h.done ≡ true → has c k.done ≡ true)
    → Swept h
    → Swept k
only_closes-Swept h k e more (inl before) = inl (ap (λ g. g.swept) e ∙ before)
only_closes-Swept h k e more (inr (closed, none_left, all_done)) = inr (
  ap (λ g. g.closed) e ∙ closed,
  ap (λ g. g.registrations) e ∙ none_left,
  λ c s. more c (all_done c (sym (ap (λ g. has c g.started) e) ∙ s)),
)

Notified-Swept : (h k : Hub) → Notified h k → Swept h → Swept k
Notified-Swept h k (inl (qs, e)) s = rw e s
Notified-Swept h k (inr (d, e)) s =
    rw e (only_closes-Swept h (record h { done = d ∷ h.done }) refl (λ c m. ground (arith, m)) s)

finished-Swept :
    (connection : ℕ) (h k : Hub)
    → k ≡ record h {
      done = (close_all (kicks connection h.registrations) h).done;
      registrations = drop_passing (is_registration connection) h.registrations;
    }
    → Swept h
    → Swept k
finished-Swept connection h k e (inl before) = rw e (inl before)
finished-Swept connection h k e (inr (closed, none_left, all_done)) = rw e (
    inr (
      closed,
      rw none_left refl,
      λ c s. ground (arith, all_done c s, done-close_all c (kicks connection h.registrations) h),
    ))

Step-Swept : {h k : Hub} → Step h k → Accounted h → Swept h → Swept k
unfolding begin_registration install disconnect remove close_client take_message begin_close
Step-Swept (registers user connection h) a (inl before) = inl (ground arith)
Step-Swept (registers user connection h) a (inr (closed, none_left, all_done)) = inr (
  ground (arith, closed),
  ground (arith, closed, none_left),
  λ c s. ground (arith, closed, all_done c),
)
Step-Swept (installs user connection h e) a (inl before) = inl before
Step-Swept (installs user connection h e) a (inr (closed, none_left, all_done)) =
    absurd (ground (arith, rw none_left at e))
Step-Swept (finishes connection h) a s = finished-Swept connection h _ (finish-eq connection h) s
Step-Swept (disconnects user connection h) a (inl before) = inl (ground arith)
Step-Swept (disconnects user connection h) a (inr (closed, none_left, all_done)) =
    inr (ground arith, ground arith, λ c s. ground (arith, all_done c))
Step-Swept (closes connection h) a s =
    only_closes-Swept h (close_client connection h) refl (λ c m. ground (arith, m)) s
Step-Swept (notifies user h) a s = Notified-Swept h _ (notify-Notified user h) s
Step-Swept (writes connection h) a s = s
Step-Swept (begins_close h) a (inl before) = inl before
Step-Swept (begins_close h) a (inr (closed, none_left, all_done)) = inr (refl, none_left, all_done)
Step-Swept (sweeps h closed none_left) a s = swept-Swept h _ closed none_left (sweep-eq h) a

Reach-invariant : {h k : Hub} → Reach h k → Accounted h → Swept h → Accounted k × Swept k
Reach-invariant here a s = (a, s)
Reach-invariant (next r step) a s =
    let before = Reach-invariant r a s in
    (Step-Accounted step before.0, Step-Swept step before.0 before.1)

new_hub-Accounted : Accounted new_hub
unfolding new_hub
new_hub-Accounted c s = absurd (ground (arith, s))

new_hub-Swept : Swept new_hub
unfolding new_hub
new_hub-Swept = inl refl

-- However registrations, installations, notifications, disconnections and the two halves of Close
-- interleave: once Close has swept, the hub is closed, no registration is under way, and the channel
-- `done` of every connection that was ever started is closed.
pub sweep-leaves_none_open :
    (h : Hub) (c : ℕ)
    → Reach new_hub h
    → h.swept ≡ true
    → has c h.started ≡ true
    → (h.closed ≡ true) × (h.registrations ≡ []) × (has c h.done ≡ true)
sweep-leaves_none_open h c r swept s = elim (Reach-invariant r new_hub-Accounted new_hub-Swept).1 [
  | inl before ↦ absurd (ground (arith, before, swept))
  | inr after ↦ (after.0, after.1, after.2 c s)
]
