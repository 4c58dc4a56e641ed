-- ===== src/FriendService/Orderly/Answers.antt =====
-- The answers to a request keep the invariant.
use yun_chat.Prelude.{ℕ, ◌+◌, ◌≤◌, ◌≡◌, refl, false, ◌&&◌, ◌||◌, some, arith, ◌==◌, unless}
use yun_chat.Model.{FriendRequest, request_pending, request_accepted}
use yun_chat.Database.{Db, has_edge}
use yun_chat.Database.Friends.{find_request, put_edge}
use yun_chat.Database.Friends.Tables.{
  count_pending, has-put_edge, count_id-settling, count_pending-settling, accepted-settling,
  found_accepted, settled_pending, count_pending_sym,
}
use yun_chat.FriendService.Moves.{with_status, with_friends}
use yun_chat.FriendService.Orderly.{IsOrderly}

-- The two directions that `EnsureFriendshipPair` adds.
pub has-with_friends :
    (d : Db) (a b x y : ℕ)
    → has_edge x y (with_friends d a b).friendships
      ≡ ((b == x && a == y) || ((a == x && b == y) || has_edge x y d.friendships))
has-with_friends d a b x y =
    rw (has-put_edge b a x y (put_edge a b d.friendships), has-put_edge a b x y d.friendships) refl

module _ (d : Db) (v : IsOrderly d) (i : ℕ) (request : FriendRequest)
    (er : find_request i d.requests ≡ some request) where
  abbrev a : ℕ
  a = request.from_user_id

  abbrev b : ℕ
  b = request.to_user_id

  -- A retry finds the two already friends.
  pub repaired_adds_nothing :
      request.status ≡ request_accepted
      → (x y : ℕ) → has_edge x y (with_friends d a b).friendships ≡ has_edge x y d.friendships
  repaired_adds_nothing e x y = ground (
    arith,
    has-with_friends d a b x y,
    v.accepted_friends a b (found_accepted i d.requests request er (ground arith)),
    v.symmetric a b,
  )

  pub repaired-IsOrderly : request.status ≡ request_accepted → IsOrderly (with_friends d a b)
  repaired-IsOrderly e = record {
    symmetric =
        λ x y. rw (repaired_adds_nothing e x y, repaired_adds_nothing e y x) (v.symmetric x y);
    one_pending = v.one_pending;
    pending_open = λ x y h. rw (repaired_adds_nothing e x y) (v.pending_open x y h);
    accepted_friends = λ x y h. rw (repaired_adds_nothing e x y) (v.accepted_friends x y h);
    one_row = v.one_row;
    fresh = v.fresh;
  }

  module _ (pending : request.status ≡ request_pending) (status : ℕ)
      (final : (status == request_pending) ≡ false) where
    one_less :
        count_pending a b (with_status d i status).requests + 1 ≤ count_pending a b d.requests
    one_less = settled_pending i status d.clock d.requests request er (ground arith) final

    pub declined-IsOrderly :
        (status == request_accepted) ≡ false → IsOrderly (with_status d i status)
    declined-IsOrderly e = record {
      symmetric = v.symmetric;
      one_pending = λ x y.
          omega (
            arith,
            v.one_pending x y,
            count_pending-settling i status d.clock x y d.requests final,
          );
      pending_open = λ x y h.
          v.pending_open x y
            (omega (arith, count_pending-settling i status d.clock x y d.requests final));
      accepted_friends = λ x y h. v.accepted_friends x y (
          ground
            (arith, accepted-settling i status d.clock x y d.requests request (v.one_row i) er h));
      one_row = λ j. omega (arith, v.one_row j, count_id-settling i status d.clock j d.requests);
      fresh = λ j h. omega (arith, v.fresh j h, count_id-settling i status d.clock j d.requests);
    }

    pub accepted-IsOrderly : IsOrderly (with_friends (with_status d i status) a b)
    accepted-IsOrderly = record {
      symmetric = λ x y.
          ground (arith, has-with_friends d a b x y, has-with_friends d a b y x, v.symmetric x y);
      one_pending = λ x y.
          omega (
            arith,
            v.one_pending x y,
            count_pending-settling i status d.clock x y d.requests final,
          );
      pending_open = λ x y h.
          let old =
            v.pending_open x y
              (omega (arith, count_pending-settling i status d.clock x y d.requests final)) in
          unless ((b == x && a == y) || (a == x && b == y))
            (λ pair. ground (
              arith,
              one_less,
              v.one_pending a b,
              count_pending_sym x y (with_status d i status).requests,
            ))
            (λ apart. (ground (arith, old.0, has-with_friends d a b x y), old.1));
      accepted_friends = λ x y h. ground (
        arith,
        has-with_friends d a b x y,
        v.accepted_friends x y,
        accepted-settling i status d.clock x y d.requests request (v.one_row i) er h,
      );
      one_row = λ j. omega (arith, v.one_row j, count_id-settling i status d.clock j d.requests);
      fresh = λ j h. omega (arith, v.fresh j h, count_id-settling i status d.clock j d.requests);
    }
