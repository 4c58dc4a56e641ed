-- ===== src/FriendService/Requests.antt =====
-- The requests to the friend service, and who makes which move by which of them.
use yun_chat.Prelude.{ℕ, ◌≡◌, ◌⊎◌, Option}
use yun_chat.Model.{Text, FriendRequest}
use yun_chat.Database.{Db}
use yun_chat.Service.{valid}
use yun_chat.FriendService.{normalize_friend_message}
use yun_chat.FriendService.Moves.{
  Move, stays, requested, accepted, repaired, declined, unfriended, blocked, unblocked,
}

-- A call of the service. `accept_from` and `reject_from` are the two calls from the preview on, as other
-- transactions may have committed since the preview was read.
pub data Request : Type 0 where
  send_request : ℕ → ℕ → Text → ℕ → Request
  accept_request reject_request : ℕ → ℕ → Request
  accept_from reject_from : ℕ → ℕ → Option FriendRequest → Request
  delete_friend block unblock : ℕ → ℕ → Request

-- With the preview that is read, or with any other.
abbrev pub Accepts : Request → ℕ → ℕ → Type 0
Accepts request user i =
    (request ≡ accept_request user i)
    ⊎ ((preview : Option FriendRequest) × (request ≡ accept_from user i preview))

abbrev pub Rejects : Request → ℕ → ℕ → Type 0
Rejects request user i =
    (request ≡ reject_request user i)
    ⊎ ((preview : Option FriendRequest) × (request ≡ reject_from user i preview))

-- The request is the one for the move, and its caller is the user of the move.
abbrev pub By : Request → {d d' : Db} → Move d d' → Type 0
By request (stays _) = Unit {0}
By request (requested a b message now _ _ _ _ _) =
    (raw : Text) × (request ≡ send_request a b raw now)
    × (normalize_friend_message raw ≡ valid message)
By request (accepted user i _ _ _ _ _ _) = Accepts request user i
By request (repaired user i _ _ _ _ _) = Accepts request user i
By request (declined user i _ _ _ _ _) = Rejects request user i
By request (unfriended a b _ _) = request ≡ delete_friend a b
By request (blocked a b _ _ _) = request ≡ block a b
By request (unblocked a b _ _) = request ≡ unblock a b

-- A move that the request stands for, or no change.
pub record Performs (request : Request) (d d' : Db) : Type 0 where
  pub move : Move d d'
  pub by : By request move

pub still : {request : Request} {d d' : Db} → d' ≡ d → Performs request d d'
still e = record { move = stays e; by = tt }

pub via :
    {request : Request} {d d' : Db} (move : Move d d') → By request move → Performs request d d'
via move by = record { move = move; by = by }
