-- ===== src/FriendService/Histories.antt =====
-- Histories of the friend tables: requests, one transaction after the other in the order of the row locks,
-- between which other parts of the program change the other tables.
use yun_chat.Prelude.{ℕ, ◌≡◌, refl, List, arith}
use yun_chat.Sql.{Outcome}
use yun_chat.Database.{Db, empty}
use yun_chat.FriendService.{FriendOptions}
use yun_chat.FriendService.UseCases.{Request, perform, friend_perform-Move}
use yun_chat.FriendService.Orderly.{IsOrderly}
use yun_chat.FriendService.Orderly.Steps.{Move-IsOrderly}

pub record SameFriendTables (d d' : Db) : Type 0 where
  pub friendships : d'.friendships ≡ d.friendships
  pub blacklist : d'.blacklist ≡ d.blacklist
  pub requests : d'.requests ≡ d.requests
  pub next_request_id : d'.next_request_id ≡ d.next_request_id

pub data Step (d : Db) (d' : Db) : Type 0 where
  served :
      (options : FriendOptions) (request : Request) (outcomes : List Outcome)
      → d' ≡ (perform options request (record { db = d; outcomes = outcomes })).1
      → Step d d'
  elsewhere : SameFriendTables d d' → Step d d'

pub data Reach (d : Db) : Db → Type 0 where
  here : Reach d d
  next : {d' d'' : Db} → Reach d d' → Step d' d'' → Reach d d''

empty-IsOrderly : (now : ℕ) → IsOrderly (empty now)
unfolding empty
empty-IsOrderly now = record {
  symmetric = λ x y. refl;
  one_pending = λ x y. omega arith;
  pending_open = λ x y h. absurd (omega arith);
  accepted_friends = λ x y e. absurd (cc);
  one_row = λ i. omega arith;
  fresh = λ i h. refl;
}

Step-IsOrderly : (d d' : Db) → Step d d' → IsOrderly d → IsOrderly d'
Step-IsOrderly d d' (served options request outcomes e) v = rw e (
    Move-IsOrderly d _
      (friend_perform-Move options request (record { db = d; outcomes = outcomes })) v)
Step-IsOrderly d d' (elsewhere s) v = record {
  symmetric = λ x y. rw s.friendships (v.symmetric x y);
  one_pending = λ x y. rw s.requests (v.one_pending x y);
  pending_open = λ x y h. rw (s.friendships, s.blacklist) (v.pending_open x y (rw s.requests at h));
  accepted_friends = λ x y e. rw s.friendships (v.accepted_friends x y (rw s.requests at e));
  one_row = λ i. rw s.requests (v.one_row i);
  fresh = λ i h. rw s.requests (v.fresh i (rw s.next_request_id at h));
}

-- From a new installation, every history of requests, whatever the driver answers to each of them and
-- however stale the rows read before a transaction, leaves the friend tables in order.
pub Reach-IsOrderly : (now : ℕ) (d : Db) → Reach (empty now) d → IsOrderly d
Reach-IsOrderly now d here = empty-IsOrderly now
Reach-IsOrderly now d (next r s) = Step-IsOrderly _ d s (Reach-IsOrderly now _ r)
