-- ===== src/Hub.antt =====
-- backend/internal/ws/hub.go: the connections of one process.
--
-- What several goroutines do to the hub is a sequence of the steps between which a lock is free. A
-- connection is the number of its random identifier, 0 for none; its queue is the number of waiting
-- messages. Sockets, timeouts and log lines are left out.
pub mod Steps
pub mod Shutdown
use yun_chat.Prelude.{
  ℕ, ◌+◌, ◌-◌, Bool, true, false, ◌&&◌, ◌||◌, Option, none, some, List, [], ◌∷◌, ◌++◌, map, ◌==◌,
  leb, ltb, drop_passing, some_passes, if◌then◌else◌,
}
use yun_chat.Ids.{has}
use yun_chat.Projection.Keys.{Entry, entry, items, remove_owner, remove_entry}

-- A handler between `beginRegistration` and its return: `replaced` is the connection that it still has to
-- kick.
pub record Registration : Type 0 where
  pub user_id : ℕ
  pub connection : ℕ
  pub replaced : List ℕ

pub record Hub : Type 0 where
  pub closed : Bool
  -- `Close` has waited for the registrations and closed the clients.
  pub swept : Bool
  pub registrations : List Registration
  -- The map from users to connections.
  pub clients : List Entry
  -- The connections whose goroutines have been started, and those whose `done` is closed.
  pub started : List ℕ
  pub done : List ℕ
  pub queues : List Entry

unfoldable pub new_hub : Hub
new_hub = record {
  closed = false;
  swept = false;
  registrations = [];
  clients = [];
  started = [];
  done = [];
  queues = [];
}

-- The capacity of the channel `send`.
abbrev pub queue_capacity : ℕ
queue_capacity = 64

abbrev pub client_of : ℕ → Hub → List ℕ
client_of user h = items user h.clients

abbrev pub first_or_zero : List ℕ → ℕ
first_or_zero [] = 0
first_or_zero (x ∷ xs) = x

-- The waiting messages of a connection.
abbrev pub waiting : ℕ → Hub → ℕ
waiting connection h = first_or_zero (items connection h.queues)

unfoldable pub begin_registration : ℕ → ℕ → Hub → Bool × Hub
begin_registration user connection h = if h.closed then (false, h) else (
  true,
  record h {
    registrations =
        record { user_id = user; connection = connection; replaced = [] } ∷ h.registrations;
  },
)

-- `registrationWG.Done()` at the end of the handler.
abbrev pub is_registration : ℕ → Registration → Bool
is_registration connection r = r.connection == connection

unfoldable pub end_registration : ℕ → Hub → Hub
end_registration connection h = record h {
  registrations = drop_passing (is_registration connection) h.registrations;
}

-- The connections that the handler of a registration still has to kick.
abbrev pub kicks : ℕ → List Registration → List ℕ
kicks connection [] = []
kicks connection (r ∷ rs) =
    let rest = kicks connection rs in
    if r.connection == connection then r.replaced ++ rest else rest

abbrev pub with_replaced : ℕ → List ℕ → List Registration → List Registration
with_replaced connection old [] = []
with_replaced connection old (r ∷ rs) =
    (if r.connection == connection then record r { replaced = old ++ r.replaced } else r)
    ∷ with_replaced connection old rs

-- `install`, after which the handler starts the client's goroutine and knows whom to kick.
unfoldable pub install : ℕ → ℕ → Hub → Hub
install user connection h = record h {
  clients = entry user connection ∷ remove_owner user h.clients;
  started = connection ∷ h.started;
  registrations = with_replaced connection (client_of user h) h.registrations;
}

-- `close` and `kickAndClose`, each at most once: both close the channel `done`.
unfoldable pub close_client : ℕ → Hub → Hub
close_client connection h = record h { done = connection ∷ h.done }

unfoldable pub close_all : List ℕ → Hub → Hub
unfolding close_client
close_all [] h = h
close_all (c ∷ cs) h = close_client c (close_all cs h)

-- The rest of the handler: the replaced client is kicked, and the registration ends.
unfoldable pub finish_registration : ℕ → Hub → Hub
unfolding close_all end_registration
finish_registration connection h =
    end_registration connection (close_all (kicks connection h.registrations) h)

-- `remove`: only the user's present connection is taken out of the map.
unfoldable pub remove : ℕ → ℕ → Hub → Bool × Hub
remove user connection h =
    if has connection (client_of user h)
    then (true, record h { clients = remove_entry user connection h.clients })
    else (false, h)

-- `disconnect` without the release of the presence.
unfoldable pub disconnect : ℕ → ℕ → Hub → Hub
unfolding remove close_client
disconnect user connection h = (remove user connection (close_client connection h)).1

pub data Sent : Type 0 where
  queued absent backpressure : Sent

abbrev pub put_queue : ℕ → ℕ → List Entry → List Entry
put_queue connection n es = entry connection n ∷ remove_owner connection es

abbrev pub notify_client : List ℕ → Hub → Sent × Hub
notify_client [] h = (absent, h)
notify_client (c ∷ cs) h =
    if ltb (waiting c h) queue_capacity
    then (queued, record h { queues = put_queue c (waiting c h + 1) h.queues })
    else (backpressure, record h { done = c ∷ h.done })

-- `Notify`: a full queue closes the connection.
unfoldable pub notify : ℕ → Hub → Sent × Hub
notify user h = notify_client (client_of user h) h

-- `writeLoop` takes one message.
unfoldable pub take_message : ℕ → Hub → Hub
take_message connection h = record h {
  queues = put_queue connection (waiting connection h - 1) h.queues;
}

-- `Close` up to its wait for the registrations.
unfoldable pub begin_close : Hub → Hub
begin_close h = record h { closed = true }

-- `Close` after the wait: every client of the map is closed.
unfoldable pub sweep : Hub → Hub
unfolding close_all
sweep h = record (close_all (map (λ e. e.item) h.clients) h) { swept = true }
