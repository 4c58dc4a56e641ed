-- ===== src/Histories/Frames.antt =====
-- The group service and the friend service write tables of their own, beside the outbox that they share.
use yun_chat.Prelude.{ℕ, ◌≡◌, List, refl, ap, true, false}
use yun_chat.Model.{Group, GroupMember, FriendRequest}
use yun_chat.Database.{Db, Edge, Tombstone, empty}
use yun_chat.GroupService.UseCases.{perform-Move}
use yun_chat.GroupService.Consistency.{IsConsistent}
use yun_chat.GroupService.Histories.{SameGroupTables}
use yun_chat.GroupService.Histories as GroupHistories
use yun_chat.GroupService.Histories.{Reach-IsConsistent}
use yun_chat.GroupService.Moves as GroupMoves
use yun_chat.FriendService.UseCases.{friend_perform-Move}
use yun_chat.FriendService.Orderly.{IsOrderly}
use yun_chat.FriendService.Histories.{SameFriendTables}
use yun_chat.FriendService.Histories as FriendHistories
use yun_chat.FriendService.Histories.{Reach-IsOrderly}
use yun_chat.FriendService.Moves as FriendMoves
use yun_chat.Histories.{Step, group_request, friend_request, elsewhere, Reach, here, next}

abbrev friend_tables : Db → List Edge × List Edge × List FriendRequest × ℕ
friend_tables d = (d.friendships, d.blacklist, d.requests, d.next_request_id)

abbrev group_tables : Db → List Group × ℕ × List GroupMember × List Tombstone
group_tables d = (d.groups, d.next_group_id, d.members, d.tombstones)

same_friend_tables : (d d' : Db) → friend_tables d' ≡ friend_tables d → SameFriendTables d d'
same_friend_tables d d' e = record {
  friendships = ap (λ t. t.0) e;
  blacklist = ap (λ t. t.1) e;
  requests = ap (λ t. t.2) e;
  next_request_id = ap (λ t. t.3) e;
}

same_group_tables : (d d' : Db) → group_tables d' ≡ group_tables d → SameGroupTables d d'
same_group_tables d d' e = record {
  groups = ap (λ t. t.0) e;
  next_group_id = ap (λ t. t.1) e;
  members = ap (λ t. t.2) e;
  tombstones = ap (λ t. t.3) e;
}

-- No operation on groups writes the friend tables.
pub group-Move-SameFriendTables : (d d' : Db) → GroupMoves.Move d d' → SameFriendTables d d'
group-Move-SameFriendTables d d' (GroupMoves.stays e) = rw e (same_friend_tables d _ refl)
group-Move-SameFriendTables d d' (GroupMoves.created _ _ _ _ e) = rw e (same_friend_tables d _ refl)
group-Move-SameFriendTables d d' (GroupMoves.joined _ _ _ _ _ _ _ _ _ _ e) =
    rw e (same_friend_tables d _ refl)
group-Move-SameFriendTables d d' (GroupMoves.removed _ _ _ _ _ _ _ e) =
    rw e (same_friend_tables d _ refl)
group-Move-SameFriendTables d d' (GroupMoves.promoted _ _ _ _ _ _ _ _ _ e) =
    rw e (same_friend_tables d _ refl)
group-Move-SameFriendTables d d' (GroupMoves.muted _ _ _ _ _ _ _ _ e) =
    rw e (same_friend_tables d _ refl)
group-Move-SameFriendTables d d' (GroupMoves.transferred _ _ _ true _ _ _ _ _ e) =
    rw e (same_friend_tables d _ refl)
group-Move-SameFriendTables d d' (GroupMoves.transferred _ _ _ false _ _ _ _ _ e) =
    rw e (same_friend_tables d _ refl)
group-Move-SameFriendTables d d' (GroupMoves.left _ _ _ _ _ _ e) =
    rw e (same_friend_tables d _ refl)
group-Move-SameFriendTables d d' (GroupMoves.dissolved _ _ _ _ _ e) =
    rw e (same_friend_tables d _ refl)
group-Move-SameFriendTables d d' (GroupMoves.renamed _ _ _ _ _ _ _ e) =
    rw e (same_friend_tables d _ refl)

-- No operation on friends writes the group tables.
pub friend-Move-SameGroupTables : (d d' : Db) → FriendMoves.Move d d' → SameGroupTables d d'
friend-Move-SameGroupTables d d' (FriendMoves.stays e) = rw e (same_group_tables d _ refl)
friend-Move-SameGroupTables d d' (FriendMoves.requested _ _ _ _ _ _ _ _ e) =
    rw e (same_group_tables d _ refl)
friend-Move-SameGroupTables d d' (FriendMoves.accepted _ _ _ _ _ _ _ e) =
    rw e (same_group_tables d _ refl)
friend-Move-SameGroupTables d d' (FriendMoves.repaired _ _ _ _ _ _ e) =
    rw e (same_group_tables d _ refl)
friend-Move-SameGroupTables d d' (FriendMoves.declined _ _ _ _ _ _ e) =
    rw e (same_group_tables d _ refl)
friend-Move-SameGroupTables d d' (FriendMoves.unfriended _ _ _ e) =
    rw e (same_group_tables d _ refl)
friend-Move-SameGroupTables d d' (FriendMoves.blocked _ _ _ _ e) = rw e (same_group_tables d _ refl)
friend-Move-SameGroupTables d d' (FriendMoves.unblocked _ _ _ e) = rw e (same_group_tables d _ refl)

-- A history of both services, as each of them sees it.
group_view : (d d' : Db) → Step d d' → GroupHistories.Step d d'
group_view d d' (group_request options request outcomes e) =
    GroupHistories.served options request outcomes e
group_view d d' (friend_request options request outcomes e) = GroupHistories.elsewhere (
    rw e (
      friend-Move-SameGroupTables d _
        (friend_perform-Move options request (record { db = d; outcomes = outcomes }))))
group_view d d' (elsewhere s t) = GroupHistories.elsewhere s

friend_view : (d d' : Db) → Step d d' → FriendHistories.Step d d'
friend_view d d' (group_request options request outcomes e) = FriendHistories.elsewhere (
    rw e (
      group-Move-SameFriendTables d _
        (perform-Move options request (record { db = d; outcomes = outcomes }))))
friend_view d d' (friend_request options request outcomes e) =
    FriendHistories.served options request outcomes e
friend_view d d' (elsewhere s t) = FriendHistories.elsewhere t

group_views : (d d' : Db) → Reach d d' → GroupHistories.Reach d d'
group_views d d' here = GroupHistories.here
group_views d d' (next r s) = GroupHistories.next (group_views d _ r) (group_view _ d' s)

friend_views : (d d' : Db) → Reach d d' → FriendHistories.Reach d d'
friend_views d d' here = FriendHistories.here
friend_views d d' (next r s) = FriendHistories.next (friend_views d _ r) (friend_view _ d' s)

-- From a new installation, every interleaving of group and friend requests, under any answers of the
-- driver, leaves the group tables consistent and the friend tables in order.
pub Reach-IsSound : (now : ℕ) (d : Db) → Reach (empty now) d → IsConsistent d × IsOrderly d
Reach-IsSound now d r =
    (Reach-IsConsistent now d (group_views _ d r), Reach-IsOrderly now d (friend_views _ d r))
