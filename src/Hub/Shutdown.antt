-- ===== src/Hub/Shutdown.antt =====
-- `Close` of backend/internal/ws/hub.go: where a started connection can be.
pub mod Histories
use yun_chat.Prelude.{
  ℕ, ◌≡◌, refl, ◌∙◌, sym, ◌⊎◌, inl, inr, Bool, true, false, not, ◌&&◌, ◌||◌, List, [], ◌∷◌, ◌++◌,
  map, ◌==◌, some_passes, drop_passing, arith, Bool-cases, ==_iff, if◌then◌else◌,
}
use yun_chat.Ids.{has}
use yun_chat.Projection.Keys.{Entry, entry, items, remove_owner, remove_entry}
use yun_chat.Hub.{
  Hub, Registration, new_hub, is_registration, kicks, with_replaced, client_of, begin_registration,
  end_registration, install, close_client, close_all, finish_registration, remove, disconnect,
  notify, take_message, begin_close, sweep,
}
use yun_chat.Hub.Steps.{
  Step, registers, installs, finishes, disconnects, closes, notifies, writes, begins_close, sweeps,
  Reach, here, next,
}

abbrev is_client : ℕ → List Entry → Bool
is_client c = some_passes (λ e. e.item == c)

abbrev is_replaced : ℕ → List Registration → Bool
is_replaced c = some_passes (λ r. has c r.replaced)

-- A started connection is closed, in the map, or about to be kicked.
abbrev is_accounted : ℕ → Hub → Bool
is_accounted c h = has c h.done || (is_client c h.clients || is_replaced c h.registrations)

abbrev Accounted : Hub → Type 0
Accounted h = (c : ℕ) → has c h.started ≡ true → is_accounted c h ≡ true

-- Once `Close` has swept, there is nothing left to account for.
abbrev Swept : Hub → Type 0
Swept h =
    (h.swept ≡ false)
    ⊎ ((h.closed ≡ true)
        × (h.registrations ≡ [])
        × ((c : ℕ) → has c h.started ≡ true → has c h.done ≡ true))

has-append : (c : ℕ) (xs ys : List ℕ) → has c (xs ++ ys) ≡ (has c xs || has c ys)
has-append c [] ys = refl
has-append c (x ∷ xs) ys = ground (arith, has-append c xs ys)

done-close_all :
    (c : ℕ) (cs : List ℕ) (h : Hub) → has c (close_all cs h).done ≡ (has c cs || has c h.done)
unfolding close_all
done-close_all c [] h = refl
done-close_all c (d ∷ ds) h = ground (arith, done-close_all c ds h)

-- Closing touches nothing but `done`.
closed-rest : (cs : List ℕ) (h : Hub) → close_all cs h ≡ record h { done = (close_all cs h).done }
unfolding close_all
closed-rest [] h = refl
closed-rest (c ∷ cs) h = rw (closed-rest cs h) refl

kicks-replaced :
    (c connection : ℕ) (rs : List Registration)
    → is_replaced c rs ≡ true
    → (has c (kicks connection rs) || is_replaced c (drop_passing (is_registration connection) rs))
      ≡ true
kicks-replaced c connection [] h = absurd (cc)
kicks-replaced c connection (r ∷ rs) h =
    ground (arith, kicks-replaced c connection rs, has-append c r.replaced (kicks connection rs))

with_replaced-old :
    (c connection : ℕ) (old : List ℕ) (rs : List Registration)
    → some_passes (is_registration connection) rs ≡ true
    → has c old ≡ true
    → is_replaced c (with_replaced connection old rs) ≡ true
with_replaced-old c connection old [] h k = absurd (cc)
with_replaced-old c connection old (r ∷ rs) h k =
    ground (arith, with_replaced-old c connection old rs, has-append c old r.replaced)

with_replaced-keeps :
    (c connection : ℕ) (old : List ℕ) (rs : List Registration)
    → is_replaced c rs ≡ true
    → is_replaced c (with_replaced connection old rs) ≡ true
with_replaced-keeps c connection old [] h = h
with_replaced-keeps c connection old (r ∷ rs) h =
    ground (arith, with_replaced-keeps c connection old rs, has-append c old r.replaced)

client-removed :
    (c user : ℕ) (es : List Entry)
    → is_client c es ≡ true
    → (has c (items user es) || is_client c (remove_owner user es)) ≡ true
unfolding items remove_owner
client-removed c user [] h = absurd (cc)
client-removed c user (e ∷ es) h = ground (arith, client-removed c user es)

entry-removed :
    (c user d : ℕ) (es : List Entry)
    → is_client c es ≡ true
    → (d == c || is_client c (remove_entry user d es)) ≡ true
unfolding remove_entry
entry-removed c user d [] h = absurd (cc)
entry-removed c user d (e ∷ es) h = ground (arith, entry-removed c user d es)

has-clients : (c : ℕ) (es : List Entry) → has c (map (λ (e : Entry). e.item) es) ≡ is_client c es
has-clients c [] = refl
has-clients c (e ∷ es) = ground (arith, has-clients c es)
