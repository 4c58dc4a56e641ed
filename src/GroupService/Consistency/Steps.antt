-- ===== src/GroupService/Consistency/Steps.antt =====
-- The moves, one by one.
use yun_chat.Database.{Db}
use yun_chat.GroupService.Moves.{
  Move, stays, created, joined, removed, promoted, muted, transferred, left, renamed,
}
use yun_chat.GroupService.Consistency.{IsConsistent, with_rebuild-IsConsistent}
use yun_chat.GroupService.Consistency.Changes.{
  with_member-IsConsistent, without_member-IsConsistent, with_role-IsConsistent,
  with_mute-IsConsistent, without_group-IsConsistent, with_profile-IsConsistent,
  created-IsConsistent,
}
use yun_chat.GroupService.Consistency.Transfers.{transferred-IsConsistent}

-- Every move keeps the invariant.
pub Move-IsConsistent : (d d' : Db) → Move d d' → IsConsistent d → IsConsistent d'
Move-IsConsistent d d' (stays e) v = rw e v
Move-IsConsistent d d' (created owner name notice _ e) v =
    rw e (with_rebuild-IsConsistent _ _ (created-IsConsistent d v name notice owner))
Move-IsConsistent d d' (joined g op u group eg _ absent _ _ room e) v =
    rw e (with_rebuild-IsConsistent _ g (with_member-IsConsistent d v g u group eg absent room))
Move-IsConsistent d d' (removed g op u group eg _ other e) v =
    rw e (with_rebuild-IsConsistent _ g (without_member-IsConsistent d v g u group eg other))
Move-IsConsistent d d' (promoted g op u role group eg _ other ordinary e) v =
    rw e
      (with_rebuild-IsConsistent _ g (with_role-IsConsistent d v g u group eg other role ordinary))
Move-IsConsistent d d' (muted g op u deadline group eg _ other e) v =
    rw e (with_rebuild-IsConsistent _ g (with_mute-IsConsistent d v g u group eg deadline))
Move-IsConsistent d d' (transferred g op u unmutes group eg may differ belongs e) v = rw e (
    with_rebuild-IsConsistent _ g
      (transferred-IsConsistent d v g op u group eg unmutes may.0 differ belongs))
Move-IsConsistent d d' (left g u group eg _ other e) v =
    rw e (with_rebuild-IsConsistent _ g (without_member-IsConsistent d v g u group eg other))
Move-IsConsistent d d' (Move.dissolved g op group eg owns e) v =
    rw e
      (with_rebuild-IsConsistent _ g (without_group-IsConsistent d v g op group eg group.owner_id))
Move-IsConsistent d d' (renamed g op name notice group eg _ e) v =
    rw e (with_profile-IsConsistent d v g op group eg name notice)
