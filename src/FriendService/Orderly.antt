-- ===== src/FriendService/Orderly.antt =====
-- The invariant of the friend tables.
pub mod Pairs
pub mod Answers
pub mod Steps
use yun_chat.Prelude.{
  ℕ, ◌+◌, ◌≤◌, ◌≡◌, refl, true, false, ◌&&◌, ◌||◌, some, arith, ◌==◌, is_some, some_passes,
  find_first, count_where, unless,
}
use yun_chat.Model.{Text, FriendRequest, request_pending, request_accepted, request_rejected}
use yun_chat.Database.{Db, has_edge}
use yun_chat.Database.Friends.{has_id, has_status, find_request, reject_where, put_edge}
use yun_chat.Database.Friends.Tables.{
  count_pending, is_accepted, has-put_edge, has-drop_edge, has-drop_pair, count-eq-zero_of_none,
  count_pending-terminal, accepted-terminal, count_id-terminal, count_pending-rejecting,
  accepted-rejecting, count_id-rejecting, pending_gone, accepted_gone, count_id-settling,
  count_pending-settling, accepted-settling, found_accepted, settled_pending, count_pending_sym,
}
use yun_chat.FriendService.Moves.{
  Move, stays, requested, accepted, repaired, declined, unfriended, blocked, unblocked, has_block,
  are_friends, with_rebuilds, with_rebuild, with_request, with_status, with_friends,
  without_friends, with_block, without_block,
}

-- Friendship is symmetric; two users have at most one pending request, and then are neither friends nor
-- blocked; the sender and the receiver of an accepted request are friends; identifiers are unique and the
-- next one is unused.
pub record IsOrderly (d : Db) : Type 0 where
  pub symmetric : (x y : ℕ) → has_edge x y d.friendships ≡ has_edge y x d.friendships
  pub one_pending : (x y : ℕ) → count_pending x y d.requests ≤ 1
  pub pending_open :
      (x y : ℕ)
      → 1 ≤ count_pending x y d.requests
      → (has_edge x y d.friendships ≡ false) × (has_block d x y ≡ false)
  pub accepted_friends :
      (x y : ℕ)
      → some_passes (is_accepted x y) d.requests ≡ true
      → has_edge x y d.friendships ≡ true
  pub one_row : (i : ℕ) → count_where (has_id i) d.requests ≤ 1
  pub fresh : (i : ℕ) → d.next_request_id ≤ i → count_where (has_id i) d.requests ≡ 0

pub rebuilds-IsOrderly : (d : Db) (a b : ℕ) → IsOrderly d → IsOrderly (with_rebuilds d a b)
rebuilds-IsOrderly d a b v = record {
  symmetric = v.symmetric;
  one_pending = v.one_pending;
  pending_open = v.pending_open;
  accepted_friends = v.accepted_friends;
  one_row = v.one_row;
  fresh = v.fresh;
}

pub rebuild-IsOrderly : (d : Db) (a : ℕ) → IsOrderly d → IsOrderly (with_rebuild d a)
rebuild-IsOrderly d a v = record {
  symmetric = v.symmetric;
  one_pending = v.one_pending;
  pending_open = v.pending_open;
  accepted_friends = v.accepted_friends;
  one_row = v.one_row;
  fresh = v.fresh;
}
