-- ===== src/FriendService/Refinement.antt =====
-- The callbacks of friend.go, run without driver failures, against the moves of their callers.
use yun_chat.Prelude.{
  ℕ, ◌≡◌, ◌≢◌, refl, some, ◌==◌, ==_iff, leb, is_some, find_first, on_option, on_test, unless,
}
use yun_chat.Sql.{◌>>=◌}
use yun_chat.Sql.Transactions.{serial}
use yun_chat.Model.{Text, FriendRequest, request_pending, request_accepted, request_rejected}
use yun_chat.Database.{Db, has_edge, find_user}
use yun_chat.Database.Locks.{Locks, lock_count, lock_users_lem}
use yun_chat.Database.Friends.{has_status, find_request}
use yun_chat.Database.Friends.Tables.{no_row_of_none, count-eq-zero_of_none, found_id}
use yun_chat.FriendService.Callbacks.{
  statements, send_request_callback, accept_request_callback, accept_by_status, accept_locked,
  reject_locked, accept_again, accept_pending, reject_request_callback, reject_by_status,
  delete_friend_callback, block_callback, unblock_callback,
}
use yun_chat.Service.{valid}
use yun_chat.FriendService.{normalize_friend_message}
use yun_chat.FriendService.Requests.{
  Request, send_request, delete_friend, block, unblock, Accepts, Rejects, Performs, still, via,
}
use yun_chat.FriendService.Moves.{
  requested, accepted, repaired, declined, unfriended, blocked, unblocked, has_block, are_friends,
}

module _ (d : Db) (a b : ℕ) (differ : a ≢ b) where
  locks : Locks d a b (lock_count d a b)
  locks = lock_users_lem d a b

  pub send_request-Move :
      (raw message : Text) (now : ℕ)
      → normalize_friend_message raw ≡ valid message
      → Performs (send_request a b raw now) d (serial (send_request_callback a b message now) d).1
  unfolding send_request_callback statements
  send_request-Move raw message now normal =
      on_test (lock_count d a b == 2) (λ e. still (simp (locks.0, e)))
        λ two.
          unless (has_block d a b) (λ e. still (simp (locks.0, two, e)))
            λ allowed.
              unless (are_friends d a b) (λ e. still (simp (locks.0, two, allowed, e)))
                λ strangers.
                  unless (is_some (find_first (has_status request_pending a b) d.requests))
                    (λ e. still (simp (locks.0, two, allowed, strangers, e)))
                    λ fresh.
                      let free =
                        no_row_of_none a b d.requests
                          (count-eq-zero_of_none a b d.requests fresh) in
                      on_option (find_user a d.users)
                        (λ e. still (simp (locks.0, two, allowed, strangers, fresh, free, e)))
                        λ profile e.
                          via
                            (requested a b message now differ allowed strangers fresh
                              (simp (locks.0, two, allowed, strangers, fresh, free, e)))
                            (raw, refl, normal)

  pub delete_friend-Move : Performs (delete_friend a b) d (serial (delete_friend_callback a b) d).1
  unfolding delete_friend_callback statements
  delete_friend-Move =
      on_test (lock_count d a b == 2) (λ e. still (simp (locks.0, e)))
        λ two.
          unless (leb a 0) (λ e. still (simp (locks.0, two, e)))
            λ pa.
              unless (leb b 0) (λ e. still (simp (locks.0, two, pa, e)))
                λ pb. via (unfriended a b differ (simp (locks.0, two, pa, pb))) refl

  pub block-Move : Performs (block a b) d (serial (block_callback a b) d).1
  unfolding block_callback statements
  block-Move =
      on_test (lock_count d a b == 2) (λ e. still (simp (locks.0, e)))
        λ two.
          unless (has_edge a b d.blacklist) (λ e. still (simp (locks.0, two, e)))
            λ fresh.
              unless (leb a 0) (λ e. still (simp (locks.0, two, fresh, e)))
                λ pa. via (blocked a b differ fresh (simp (locks.0, two, fresh, pa))) refl

  pub unblock-Move : Performs (unblock a b) d (serial (unblock_callback a b) d).1
  unfolding unblock_callback statements
  unblock-Move =
      on_test (lock_count d a b == 2) (λ e. still (simp (locks.0, e)))
        λ two.
          unless (leb a 0) (λ e. still (simp (locks.0, two, e)))
            λ pa. via (unblocked a b differ (simp (locks.0, two, pa))) refl

module _ (q : Request) (d : Db) (user i : ℕ) (request : FriendRequest)
    (er : find_request i d.requests ≡ some request) (target : request.to_user_id ≡ user) where
  same_id : request.id ≡ i
  same_id = found_id i d.requests request er

  accept_again-Move :
      Accepts q user i
      → request.status ≡ request_accepted
      → Performs q d (serial (accept_again request) d).1
  unfolding accept_again statements
  accept_again-Move asks e =
      unless (leb request.from_user_id 0) (λ h. still (simp h))
        λ pa.
          unless (leb request.to_user_id 0) (λ h. still (simp (pa, h)))
            λ pb. via (repaired user i request er target e (simp (pa, pb))) asks

  accept_pending-Move :
      Accepts q user i
      → request.status ≡ request_pending
      → Performs q d (serial (accept_pending request) d).1
  unfolding accept_pending statements
  accept_pending-Move asks e =
      unless (has_block d request.from_user_id request.to_user_id) (λ h. still (simp h))
        λ allowed.
          on_option (find_user request.to_user_id d.users)
            (λ h. still (simp (allowed, same_id, er, h)))
            λ profile ep.
              unless (leb request.from_user_id 0) (λ h. still (simp (allowed, same_id, er, ep, h)))
                λ pa.
                  unless (leb request.to_user_id 0)
                    (λ h. still (simp (allowed, same_id, er, ep, pa, h)))
                    λ pb.
                      via
                        (accepted user i request er target e allowed
                          (simp (allowed, same_id, er, ep, pa, pb)))
                        asks

  accept_by_status-Move : Accepts q user i → Performs q d (serial (accept_by_status request) d).1
  unfolding accept_by_status
  accept_by_status-Move asks =
      on_test (request.status == request_accepted)
        (λ h.
          unless (request.status == request_rejected) (λ k. still (simp (h, k)))
            λ k.
              on_test (request.status == request_pending) (λ p. still (simp (h, k, p)))
                λ p. simp (h, k, p) (accept_pending-Move asks ((==_iff _ _).0 p)))
        (λ h. simp h (accept_again-Move asks ((==_iff _ _).0 h)))

  reject_by_status-Move : Rejects q user i → Performs q d (serial (reject_by_status request) d).1
  unfolding reject_by_status statements
  reject_by_status-Move asks =
      unless (request.status == request_rejected) (λ h. still (simp h))
        λ h.
          unless (request.status == request_accepted) (λ k. still (simp (h, k)))
            λ k.
              on_test (request.status == request_pending) (λ p. still (simp (h, k, p)))
                λ p.
                  via
                    (declined user i request er target ((==_iff _ _).0 p)
                      (simp (h, k, p, same_id, er)))
                    asks

module _ (q : Request) (d : Db) (user i : ℕ) (request : FriendRequest)
    (er : find_request i d.requests ≡ some request) where
  accept_locked-Move : Accepts q user i → Performs q d (serial (accept_locked user request) d).1
  unfolding accept_locked ◌>>=◌
  accept_locked-Move asks =
      on_test (request.to_user_id == user) (λ e. still (simp e))
        λ target.
          simp target (accept_by_status-Move q d user i request er ((==_iff _ _).0 target) asks)

  reject_locked-Move : Rejects q user i → Performs q d (serial (reject_locked user request) d).1
  unfolding reject_locked ◌>>=◌
  reject_locked-Move asks =
      on_test (request.to_user_id == user) (λ e. still (simp e))
        λ target.
          simp target (reject_by_status-Move q d user i request er ((==_iff _ _).0 target) asks)

-- The preview may be stale: it is any row.
module _ (q : Request) (d : Db) (user i : ℕ) (preview : FriendRequest) where
  preview-Locks :
      Locks d preview.from_user_id preview.to_user_id
        (lock_count d preview.from_user_id preview.to_user_id)
  preview-Locks = lock_users_lem d preview.from_user_id preview.to_user_id

  pub accept_request-Move :
      Accepts q user i → Performs q d (serial (accept_request_callback user i preview) d).1
  unfolding accept_request_callback statements
  accept_request-Move asks =
      on_test (lock_count d preview.from_user_id preview.to_user_id == 2)
        (λ e. still (simp (preview-Locks.0, e)))
        λ two.
          on_option (find_request i d.requests) (λ e. still (simp (preview-Locks.0, two, e)))
            λ request er.
              simp (preview-Locks.0, two, er) (accept_locked-Move q d user i request er asks)

  pub reject_request-Move :
      Rejects q user i → Performs q d (serial (reject_request_callback user i preview) d).1
  unfolding reject_request_callback statements
  reject_request-Move asks =
      on_test (lock_count d preview.from_user_id preview.to_user_id == 2)
        (λ e. still (simp (preview-Locks.0, e)))
        λ two.
          on_option (find_request i d.requests) (λ e. still (simp (preview-Locks.0, two, e)))
            λ request er.
              simp (preview-Locks.0, two, er) (reject_locked-Move q d user i request er asks)
