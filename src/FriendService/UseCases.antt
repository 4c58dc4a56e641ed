-- ===== src/FriendService/UseCases.antt =====
-- The use cases of friend.go under any answers of the driver.
use yun_chat.Prelude.{
  List, [], ℕ, ◌≡◌, refl, inl, inr, not, ◌||◌, Option, none, some, arith, ◌==◌, leb,
}
use yun_chat.AppError.{Code, internal_failure, invalid_param, self_request}
use yun_chat.Sql.{Outcome, driver, ok, err, Result, Conn}
use yun_chat.Sql.Reads.{Reads, Reads-query}
use yun_chat.Model.{Text, FriendRequest}
use yun_chat.Database.{Db}
use yun_chat.Database.Friends.{get_friend_request}
use yun_chat.Service.{reject, outcome, respond}
use yun_chat.Service.Settles.{
  Settles, transaction-Settles, if-Settles, if_action-Settles, with_valid-Settles,
}
use yun_chat.FriendService
use yun_chat.FriendService.{
  FriendOptions, friend_service_error, send_request_error, block_error, normalize_friend_message,
  applied, accept_done, done_with, Reply, send_valid,
}
use yun_chat.FriendService.Moves.{Move}
pub use yun_chat.FriendService.Requests.{
  Request, send_request, accept_request, reject_request, accept_from, reject_from, delete_friend,
  block, unblock,
}
use yun_chat.FriendService.Requests.{Accepts, Rejects, Performs, still}
use yun_chat.FriendService.Refinement.{
  send_request-Move, accept_request-Move, reject_request-Move, delete_friend-Move, block-Move,
  unblock-Move,
}
use yun_chat.FriendService.Steadiness.{
  send_request_callback-Steady, accept_request_callback-Steady, reject_request_callback-Steady,
  delete_friend_callback-Steady, block_callback-Steady, unblock_callback-Steady,
}

-- The error code of a request, if it fails, and the database that it leaves.
unfoldable pub perform : FriendOptions → Request → Conn Db → Option Code × Db
perform options (send_request a b message now) c =
    outcome (FriendService.send_request options a b message now c)
perform options (accept_request u i) c = outcome (FriendService.accept_request options u i c)
perform options (reject_request u i) c = outcome (FriendService.reject_request options u i c)
perform options (accept_from u i preview) c =
    outcome (FriendService.accept_from options u i preview c)
perform options (reject_from u i preview) c =
    outcome (FriendService.reject_from options u i preview c)
perform options (delete_friend a b) c = outcome (FriendService.delete_friend options a b c)
perform options (block a b) c = outcome (FriendService.block options a b c)
perform options (unblock a b) c = outcome (FriendService.unblock options a b c)

-- What a request may do: its own move by its caller, and none if it fails with a code of its own.
abbrev pub Keeps : Request → Db → Option Code × Db → Type 0
Keeps request = Settles (Performs request)

reports : friend_service_error driver ≡ internal_failure
unfolding friend_service_error
reports = refl

reports_sending : send_request_error driver ≡ internal_failure
unfolding send_request_error friend_service_error
reports_sending = refl

reports_blocking : block_error driver ≡ internal_failure
unfolding block_error friend_service_error
reports_blocking = refl

get_friend_request-Reads : (i : ℕ) → Reads (get_friend_request i)
unfolding get_friend_request
get_friend_request-Reads i = Reads-query _

-- A row is read outside a transaction, and what follows keeps the rules from there.
previewed :
    {A : Type 0} (q : Request) (d : Db) (next : Option FriendRequest → Conn Db → Reply A)
    (h : (preview : Option FriendRequest) (c : Conn Db)
      → c.db ≡ d
      → Keeps q d (outcome (next preview c)))
    (r : Result (Option FriendRequest) × Conn Db)
    → r.1.db ≡ d
    → Keeps q d (outcome (respond friend_service_error next r))
previewed q d next h (ok preview, c) e = h preview c e
previewed q d next h (err x, c) e = (still e, inr e)

module _ (options : FriendOptions) (d : Db) (outcomes : List Outcome) where
  abbrev conn : Conn Db
  conn = record { db = d; outcomes = outcomes }

  send_request-Keeps :
      (a b : ℕ) (message : Text) (now : ℕ)
      → Keeps (send_request a b message now) d (perform options (send_request a b message now) conn)
  unfolding perform FriendService.send_request
  send_request-Keeps a b message now =
      if_action-Settles (Performs (send_request a b message now)) (λ _ _ e. still e) d
        (leb a 0 || leb b 0) (reject invalid_param) _ conn (still refl, inr refl)
        λ positive.
          if_action-Settles (Performs (send_request a b message now)) (λ _ _ e. still e) d (a == b)
            (reject self_request) _ conn (still refl, inr refl)
            λ differ.
              with_valid-Settles (Performs (send_request a b message now)) (λ _ _ e. still e) d
                (normalize_friend_message message) (send_valid options a b now) conn refl
                λ text normal.
                  transaction-Settles (Performs (send_request a b message now)) (λ _ _ e. still e) d
                    send_request_error reports_sending (applied options b) (λ _ c. (refl, refl)) _
                    outcomes (send_request_callback-Steady a b text now)
                    (send_request-Move d a b (ground arith) message text now normal)

  accept_from-Keeps :
      (q : Request) (u i : ℕ) (preview : Option FriendRequest)
      → Accepts q u i
      → Keeps q d (outcome (FriendService.accept_from options u i preview conn))
  unfolding FriendService.accept_from
  accept_from-Keeps q u i none asks = (still refl, inr refl)
  accept_from-Keeps q u i (some preview) asks =
      if-Settles (Performs q) (λ _ _ e. still e) d (not (preview.to_user_id == u)) _ _
        (still refl, inr refl)
        λ target.
          transaction-Settles (Performs q) (λ _ _ e. still e) d friend_service_error reports
            (accept_done options u i) (λ _ c. (refl, refl)) _ outcomes
            (accept_request_callback-Steady u i preview) (accept_request-Move q d u i preview asks)

  reject_from-Keeps :
      (q : Request) (u i : ℕ) (preview : Option FriendRequest)
      → Rejects q u i
      → Keeps q d (outcome (FriendService.reject_from options u i preview conn))
  unfolding FriendService.reject_from
  reject_from-Keeps q u i none asks = (still refl, inr refl)
  reject_from-Keeps q u i (some preview) asks =
      if-Settles (Performs q) (λ _ _ e. still e) d (not (preview.to_user_id == u)) _ _
        (still refl, inr refl)
        λ target.
          transaction-Settles (Performs q) (λ _ _ e. still e) d friend_service_error reports
            (done_with options []) (λ _ c. (refl, refl)) _ outcomes
            (reject_request_callback-Steady u i preview) (reject_request-Move q d u i preview asks)

  delete_friend-Keeps :
      (a b : ℕ) → Keeps (delete_friend a b) d (perform options (delete_friend a b) conn)
  unfolding perform FriendService.delete_friend
  delete_friend-Keeps a b =
      if-Settles (Performs (delete_friend a b)) (λ _ _ e. still e) d (leb a 0 || leb b 0) _ _
        (still refl, inr refl)
        λ positive.
          if-Settles (Performs (delete_friend a b)) (λ _ _ e. still e) d (a == b) _ _
            (still refl, inr refl)
            λ differ.
              transaction-Settles (Performs (delete_friend a b)) (λ _ _ e. still e) d
                friend_service_error reports (done_with options _) (λ _ c. (refl, refl)) _ outcomes
                (delete_friend_callback-Steady a b) (delete_friend-Move d a b (ground arith))

  block-Keeps : (a b : ℕ) → Keeps (block a b) d (perform options (block a b) conn)
  unfolding perform FriendService.block
  block-Keeps a b =
      if-Settles (Performs (block a b)) (λ _ _ e. still e) d (leb a 0 || leb b 0) _ _
        (still refl, inr refl)
        λ positive.
          if-Settles (Performs (block a b)) (λ _ _ e. still e) d (a == b) _ _ (still refl, inr refl)
            λ differ.
              transaction-Settles (Performs (block a b)) (λ _ _ e. still e) d block_error
                reports_blocking (done_with options _) (λ _ c. (refl, refl)) _ outcomes
                (block_callback-Steady a b) (block-Move d a b (ground arith))

  unblock-Keeps : (a b : ℕ) → Keeps (unblock a b) d (perform options (unblock a b) conn)
  unfolding perform FriendService.unblock
  unblock-Keeps a b =
      if-Settles (Performs (unblock a b)) (λ _ _ e. still e) d (leb a 0 || leb b 0) _ _
        (still refl, inr refl)
        λ positive.
          if-Settles (Performs (unblock a b)) (λ _ _ e. still e) d (a == b) _ _
            (still refl, inr refl)
            λ differ.
              transaction-Settles (Performs (unblock a b)) (λ _ _ e. still e) d friend_service_error
                reports (done_with options _) (λ _ c. (refl, refl)) _ outcomes
                (unblock_callback-Steady a b) (unblock-Move d a b (ground arith))

module _ (options : FriendOptions) (d : Db) (u i : ℕ) where
  accept_request-Keeps :
      (outcomes : List Outcome)
      → Keeps
          (accept_request u i)
          d
          (perform options (accept_request u i) (record { db = d; outcomes = outcomes }))
  unfolding perform FriendService.accept_request
  accept_request-Keeps outcomes =
      if-Settles (Performs (accept_request u i)) (λ _ _ e. still e) d (leb u 0 || leb i 0) _ _
        (still refl, inr refl)
        λ positive.
          previewed (accept_request u i) d (FriendService.accept_from options u i)
            (λ preview c e. rw (← e) (
              accept_from-Keeps options c.db c.outcomes (accept_request u i) u i preview
                (inl refl)))
            _ ((get_friend_request-Reads i).same (record { db = d; outcomes = outcomes }))

  reject_request-Keeps :
      (outcomes : List Outcome)
      → Keeps
          (reject_request u i)
          d
          (perform options (reject_request u i) (record { db = d; outcomes = outcomes }))
  unfolding perform FriendService.reject_request
  reject_request-Keeps outcomes =
      if-Settles (Performs (reject_request u i)) (λ _ _ e. still e) d (leb u 0 || leb i 0) _ _
        (still refl, inr refl)
        λ positive.
          previewed (reject_request u i) d (FriendService.reject_from options u i)
            (λ preview c e. rw (← e) (
              reject_from-Keeps options c.db c.outcomes (reject_request u i) u i preview
                (inl refl)))
            _ ((get_friend_request-Reads i).same (record { db = d; outcomes = outcomes }))

-- Every use case of friend.go, whatever the driver answers and however stale the row that it read before
-- its transaction: it makes the one move that the request stands for, with the request's users or
-- identifier, its caller being the sender, the receiver of the stored row or the owner as the move asks, or it
-- leaves the database as it was; and if it fails with a code other than internal_failure, it leaves the
-- database as it was.
pub friend_perform-Keeps :
    (options : FriendOptions) (request : Request) (c : Conn Db)
    → Keeps request c.db (perform options request c)
unfolding perform
friend_perform-Keeps options (send_request a b message now) c =
    send_request-Keeps options c.db c.outcomes a b message now
friend_perform-Keeps options (accept_request u i) c =
    accept_request-Keeps options c.db u i c.outcomes
friend_perform-Keeps options (reject_request u i) c =
    reject_request-Keeps options c.db u i c.outcomes
friend_perform-Keeps options (accept_from u i preview) c =
    accept_from-Keeps options c.db c.outcomes (accept_from u i preview) u i preview
      (inr (preview, refl))
friend_perform-Keeps options (reject_from u i preview) c =
    reject_from-Keeps options c.db c.outcomes (reject_from u i preview) u i preview
      (inr (preview, refl))
friend_perform-Keeps options (delete_friend a b) c = delete_friend-Keeps options c.db c.outcomes a b
friend_perform-Keeps options (block a b) c = block-Keeps options c.db c.outcomes a b
friend_perform-Keeps options (unblock a b) c = unblock-Keeps options c.db c.outcomes a b

-- The move alone.
pub friend_perform-Move :
    (options : FriendOptions) (request : Request) (c : Conn Db)
    → Move c.db (perform options request c).1
friend_perform-Move options request c = (friend_perform-Keeps options request c).0.move
