-- ===== src/FriendService/Orderly/Steps.antt =====
-- The moves, one by one.
use yun_chat.Prelude.{refl}
use yun_chat.Model.{request_accepted, request_rejected}
use yun_chat.Database.{Db}
use yun_chat.FriendService.Moves.{
  Move, stays, requested, accepted, repaired, declined, unfriended, blocked, unblocked,
}
use yun_chat.FriendService.Orderly.{IsOrderly, rebuild-IsOrderly, rebuilds-IsOrderly}
use yun_chat.FriendService.Orderly.Pairs.{
  request-IsOrderly, unfriended-IsOrderly, blocked-IsOrderly, unblocked-IsOrderly,
}
use yun_chat.FriendService.Orderly.Answers.{
  repaired-IsOrderly, declined-IsOrderly, accepted-IsOrderly,
}

-- Every move keeps the friend tables in order.
pub Move-IsOrderly : (d d' : Db) → Move d d' → IsOrderly d → IsOrderly d'
Move-IsOrderly d d' (stays e) v = rw e v
Move-IsOrderly d d' (requested a b message now differ welcome strangers free e) v =
    rw e (request-IsOrderly d v a b message now strangers welcome free)
Move-IsOrderly d d' (accepted user i request er target pending welcome e) v =
    rw e
      (rebuilds-IsOrderly _ _ _ (accepted-IsOrderly d v i request er pending request_accepted refl))
Move-IsOrderly d d' (repaired user i request er target done e) v =
    rw e (rebuilds-IsOrderly _ _ _ (repaired-IsOrderly d v i request er done))
Move-IsOrderly d d' (declined user i request er target pending e) v =
    rw e (declined-IsOrderly d v i request er pending request_rejected refl refl)
Move-IsOrderly d d' (unfriended a b differ e) v =
    rw e (rebuilds-IsOrderly _ a b (unfriended-IsOrderly d v a b))
Move-IsOrderly d d' (blocked a b differ fresh e) v =
    rw e (rebuild-IsOrderly _ a (blocked-IsOrderly d v a b))
Move-IsOrderly d d' (unblocked a b differ e) v =
    rw e (rebuild-IsOrderly _ a (unblocked-IsOrderly d v a b))
