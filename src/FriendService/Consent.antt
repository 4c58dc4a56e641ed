-- ===== src/FriendService/Consent.antt =====
-- Where friendships and requests come from, and what a block prevents.
use yun_chat.Prelude.{
  not, ◌&&◌, ℕ, ◌≤◌, ◌≡◌, refl, true, false, ◌&&◌, ◌||◌, arith, ◌==◌, unless, unless_le,
}
use yun_chat.Model.{request_pending, request_accepted, request_rejected}
use yun_chat.Database.{Db, has_edge}
use yun_chat.Database.Friends.Tables.{
  count_pending, has-drop_pair, found_pending, count_pending_sym, count_pending-terminal,
  count_pending-rejecting, count_pending-settling,
}
use yun_chat.FriendService.Moves.{
  Move, stays, requested, accepted, repaired, declined, unfriended, blocked, unblocked, has_block,
}
use yun_chat.Sql.{Conn}
use yun_chat.FriendService.{FriendOptions}
use yun_chat.FriendService.UseCases.{Request, perform, friend_perform-Move}
use yun_chat.FriendService.Orderly.{IsOrderly}
use yun_chat.FriendService.Orderly.Answers.{has-with_friends, repaired_adds_nothing}

-- The pair had its pending request, and neither had blocked the other.
abbrev pub Consented : Db → ℕ → ℕ → Type 0
Consented d x y = (count_pending x y d.requests ≡ 1) × (has_block d x y ≡ false)

Move-Consented :
    (d d' : Db) (x y : ℕ)
    → IsOrderly d
    → Move d d'
    → has_edge x y d.friendships ≡ false
    → has_edge x y d'.friendships ≡ true
    → Consented d x y
Move-Consented d d' x y v (stays e) n h = ground arith
Move-Consented d d' x y v (requested a b message now differ welcome strangers free e) n h =
    ground arith
Move-Consented d d' x y v (accepted user i r er target pending welcome e) n h =
    let one : 1 ≤ count_pending r.from_user_id r.to_user_id d.requests =
      found_pending i d.requests r er (ground arith) in
    let pair : ((r.to_user_id == x && r.from_user_id == y)
          || (r.from_user_id == x && r.to_user_id == y))
        ≡ true =
      ground (arith, has-with_friends d r.from_user_id r.to_user_id x y) in
    let enough : 1 ≤ count_pending x y d.requests =
      ground (arith, count_pending_sym x y d.requests) in
    (omega (arith, v.one_pending x y), (v.pending_open x y enough).1)
Move-Consented d d' x y v (repaired user i r er target done e) n h =
    ground (arith, repaired_adds_nothing d v i r er done x y)
Move-Consented d d' x y v (declined user i r er target pending e) n h = ground arith
Move-Consented d d' x y v (unfriended a b differ e) n h =
    ground (arith, has-drop_pair a b x y d.friendships)
Move-Consented d d' x y v (blocked a b differ fresh e) n h = ground arith
Move-Consented d d' x y v (unblocked a b differ e) n h = ground arith

no_pending_blocked :
    (d : Db) (x y : ℕ) → IsOrderly d → has_block d x y ≡ true → count_pending x y d.requests ≡ 0
no_pending_blocked d x y v h =
    unless_le 1 (count_pending x y d.requests)
      (λ e. absurd (ground (arith, (v.pending_open x y (ground arith)).1))) (λ few e. omega arith)

still_no_pending :
    (d d' : Db) (x y : ℕ)
    → Move d d'
    → has_block d x y ≡ true
    → count_pending x y d.requests ≡ 0
    → count_pending x y d'.requests ≡ 0
still_no_pending d d' x y (stays e) h n = ground arith
still_no_pending d d' x y (requested a b message now differ welcome strangers free e) h n =
    ground (arith, count_pending-terminal a b x y d.requests)
still_no_pending d d' x y (accepted user i r er target pending welcome e) h n =
    ground (arith, count_pending-settling i request_accepted d.clock x y d.requests refl)
still_no_pending d d' x y (repaired user i r er target done e) h n = ground arith
still_no_pending d d' x y (declined user i r er target pending e) h n =
    ground (arith, count_pending-settling i request_rejected d.clock x y d.requests refl)
still_no_pending d d' x y (unfriended a b differ e) h n =
    ground (arith, count_pending-rejecting a b request_accepted d.clock x y d.requests)
still_no_pending d d' x y (blocked a b differ fresh e) h n =
    ground (arith, count_pending-rejecting a b request_pending d.clock x y d.requests)
still_no_pending d d' x y (unblocked a b differ e) h n = ground arith

Move-Barred :
    (d d' : Db) (x y : ℕ)
    → IsOrderly d
    → Move d d'
    → has_block d x y ≡ true
    → (count_pending x y d'.requests ≡ 0)
      × (has_edge x y d'.friendships ≡ true → has_edge x y d.friendships ≡ true)
Move-Barred d d' x y v m h = (
  still_no_pending d d' x y m h (no_pending_blocked d x y v h),
  λ made.
      unless (has_edge x y d.friendships) (λ e. e)
        (λ e. absurd (ground (arith, (Move-Consented d d' x y v m e made).1))),
)

module _ (options : FriendOptions) (request : Request) (c : Conn Db) (x y : ℕ)
    (v : IsOrderly c.db) where
  -- In orderly tables, whatever the driver answers: if x has no friendship row for y before a request and
  -- has one after it, then the two had a pending request and neither had blocked the other. So a delayed
  -- retry of an old acceptance never restores a deleted friendship.
  pub perform-Consented :
      has_edge x y c.db.friendships ≡ false
      → has_edge x y (perform options request c).1.friendships ≡ true
      → Consented c.db x y
  perform-Consented n h = Move-Consented c.db _ x y v (friend_perform-Move options request c) n h

  -- In orderly tables, whatever the driver answers: while one of two users has blocked the other, no
  -- request leaves a pending request between them or adds a friendship row.
  pub perform-Barred :
      has_block c.db x y ≡ true
      → (count_pending x y (perform options request c).1.requests ≡ 0)
        × ((has_edge x y (perform options request c).1.friendships
              && not (has_edge x y c.db.friendships))
            ≡ false)
  perform-Barred h =
      let r = Move-Barred c.db _ x y v (friend_perform-Move options request c) h in
      (
        r.0,
        unless (has_edge x y (perform options request c).1.friendships)
            (λ e. let old = r.1 e in simp (e, old)) (λ e. simp e),
      )
