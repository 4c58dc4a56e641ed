-- ===== src/Hub/Steps.antt =====
-- The histories of a hub of backend/internal/ws/hub.go.
use yun_chat.Prelude.{ℕ, ◌≡◌, true, [], some_passes}
use yun_chat.Hub.{
  Hub, is_registration, begin_registration, install, finish_registration, disconnect, notify,
  take_message, begin_close, sweep, close_client,
}

pub data Step : Hub → Hub → Type 0 where
  -- A request is upgraded, under a new random identifier, and asks to register.
  registers : (user connection : ℕ) (h : Hub) → Step h (begin_registration user connection h).1
  installs :
      (user connection : ℕ) (h : Hub)
      → some_passes (is_registration connection) h.registrations ≡ true
      → Step h (install user connection h)
  -- After the installation, or after the presence lease was refused.
  finishes : (connection : ℕ) (h : Hub) → Step h (finish_registration connection h)
  disconnects : (user connection : ℕ) (h : Hub) → Step h (disconnect user connection h)
  -- A failed write, or a lost lease.
  closes : (connection : ℕ) (h : Hub) → Step h (close_client connection h)
  notifies : (user : ℕ) (h : Hub) → Step h (notify user h).1
  writes : (connection : ℕ) (h : Hub) → Step h (take_message connection h)
  begins_close : (h : Hub) → Step h (begin_close h)
  sweeps : (h : Hub) → h.closed ≡ true → h.registrations ≡ [] → Step h (sweep h)

pub data Reach (h : Hub) : Hub → Type 0 where
  here : Reach h h
  next : {g k : Hub} → Reach h g → Step g k → Reach h k
