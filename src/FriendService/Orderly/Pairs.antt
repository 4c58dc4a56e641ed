-- ===== src/FriendService/Orderly/Pairs.antt =====
-- Requests, deletions and blocks keep the invariant.
use yun_chat.Prelude.{ℕ, ◌≡◌, false, ◌&&◌, ◌||◌, arith, ◌==◌, is_some, find_first, unless}
use yun_chat.Model.{Text, request_pending, request_accepted}
use yun_chat.Database.{Db}
use yun_chat.Database.Friends.{has_status, reject_where}
use yun_chat.Database.Friends.Tables.{
  count_pending, has-drop_edge, has-drop_pair, count-eq-zero_of_none, count_pending-terminal,
  accepted-terminal, count_id-terminal, count_pending-rejecting, accepted-rejecting,
  count_id-rejecting, pending_gone, accepted_gone, count_pending_sym,
}
use yun_chat.FriendService.Moves.{
  has_block, are_friends, with_request, without_friends, with_block, without_block,
}
use yun_chat.FriendService.Orderly.{IsOrderly}

module _ (d : Db) (v : IsOrderly d) (a b : ℕ) where
  module _ (message : Text) (now : ℕ) (strangers : are_friends d a b ≡ false)
      (welcome : has_block d a b ≡ false)
      (none_pending : is_some (find_first (has_status request_pending a b) d.requests)
        ≡ false) where
    no_pending : count_pending a b d.requests ≡ 0
    no_pending = count-eq-zero_of_none a b d.requests none_pending

    pub request-IsOrderly : IsOrderly (with_request d a b message now)
    request-IsOrderly = record {
      symmetric = v.symmetric;
      one_pending = λ x y. ground (
        arith,
        count_pending-terminal a b x y d.requests,
        v.one_pending x y,
        no_pending,
        count_pending_sym a b d.requests,
      );
      pending_open = λ x y h.
          ground
            (arith, count_pending-terminal a b x y d.requests, v.pending_open x y, v.symmetric x y);
      accepted_friends =
          λ x y h. v.accepted_friends x y (accepted-terminal a b x y d.requests (ground arith));
      one_row = λ i. ground (arith, count_id-terminal a b i d.requests, v.one_row i, v.fresh i);
      fresh = λ i h. ground (arith, count_id-terminal a b i d.requests, v.fresh i);
    }

  pub unfriended-IsOrderly : IsOrderly (reject_where request_accepted a b (without_friends d a b))
  unfriended-IsOrderly = record {
    symmetric = λ x y. ground (
      arith,
      v.symmetric x y,
      has-drop_pair a b x y d.friendships,
      has-drop_pair a b y x d.friendships,
    );
    one_pending = λ x y. omega (
      arith,
      v.one_pending x y,
      count_pending-rejecting a b request_accepted d.clock x y d.requests,
    );
    pending_open = λ x y h.
        let old =
          v.pending_open x y
            (omega (arith, count_pending-rejecting a b request_accepted d.clock x y d.requests)) in
        (ground (arith, old.0, has-drop_pair a b x y d.friendships), old.1);
    accepted_friends = λ x y h.
        let old =
          v.accepted_friends x y
            (accepted-rejecting a b request_accepted d.clock x y d.requests h) in
        unless ((a == x && b == y) || (b == x && a == y))
          (λ pair. ground (arith, accepted_gone a b d.clock x y d.requests pair))
          (λ apart. rw (has-drop_pair a b x y d.friendships, apart) old);
    one_row = λ i.
        omega (arith, v.one_row i, count_id-rejecting a b request_accepted d.clock i d.requests);
    fresh = λ i h.
        omega (arith, v.fresh i h, count_id-rejecting a b request_accepted d.clock i d.requests);
  }

  pub blocked-IsOrderly : IsOrderly (reject_where request_pending a b (with_block d a b))
  blocked-IsOrderly = record {
    symmetric = v.symmetric;
    one_pending = λ x y. omega (
      arith,
      v.one_pending x y,
      count_pending-rejecting a b request_pending d.clock x y d.requests,
    );
    pending_open = λ x y h.
        let old =
          v.pending_open x y
            (omega (arith, count_pending-rejecting a b request_pending d.clock x y d.requests)) in
        unless ((a == x && b == y) || (b == x && a == y))
          (λ pair. ground (
            arith,
            pending_gone a b d.clock d.requests,
            count_pending_sym x y (reject_where request_pending a b d).requests,
          ))
          (λ apart. (old.0, ground (arith, old.1)));
    accepted_friends = λ x y h.
        v.accepted_friends x y (accepted-rejecting a b request_pending d.clock x y d.requests h);
    one_row = λ i.
        omega (arith, v.one_row i, count_id-rejecting a b request_pending d.clock i d.requests);
    fresh = λ i h.
        omega (arith, v.fresh i h, count_id-rejecting a b request_pending d.clock i d.requests);
  }

  pub unblocked-IsOrderly : IsOrderly (without_block d a b)
  unblocked-IsOrderly = record {
    symmetric = v.symmetric;
    one_pending = v.one_pending;
    pending_open = λ x y h. (
      (v.pending_open x y h).0,
      ground (
        arith,
        (v.pending_open x y h).1,
        has-drop_edge a b x y d.blacklist,
        has-drop_edge a b y x d.blacklist,
      ),
    );
    accepted_friends = v.accepted_friends;
    one_row = v.one_row;
    fresh = v.fresh;
  }
