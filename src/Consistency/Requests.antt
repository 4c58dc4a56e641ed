-- ===== src/Consistency/Requests.antt =====
-- The requests to the two services, and the events that they insert.
use yun_chat.Prelude.{
  ℕ, ◌≡◌, refl, ap, ◌⊎◌, inl, inr, true, false, List, [], ◌∷◌, ◌==◌, some_passes, Bool-cases, arith,
}
use yun_chat.Sql.{Conn}
use yun_chat.Database.{Db, Edge, has_edge, friends, blacklist, ReconcileEvent}
use yun_chat.Database.Rows.{find_member}
use yun_chat.Database.Friends.{put_edge, drop_pair}
use yun_chat.Database.Friends.Tables.{has-put_edge, has-drop_edge, has-drop_pair}
use yun_chat.GroupService.{GroupOptions}
use yun_chat.GroupService.UseCases as Groups
use yun_chat.GroupService.Moves.{rebuild}
use yun_chat.GroupService.Footprint.{perform-Local, Local}
use yun_chat.GroupService.Histories.{SameGroupTables}
use yun_chat.FriendService.{FriendOptions}
use yun_chat.FriendService.UseCases as Friends
use yun_chat.FriendService.Moves as FriendMoves
use yun_chat.FriendService.Moves.{event}
use yun_chat.FriendService.Histories.{SameFriendTables}
use yun_chat.Histories.Frames.{group-Move-SameFriendTables, friend-Move-SameGroupTables}
use yun_chat.Consistency.{Announced, logged}
use yun_chat.Consistency.Announcements.{SameFriends, SameBlocks, Tells-each}
use yun_chat.Reconciler.Workers.{is_for}

-- A change of the group tables at one group.
group-Announced : (d d' : Db) → SameFriendTables d d' → Local d d' → Announced d d'
group-Announced d d' s (g, spares, inl same) = (
  [],
  same.1,
  Tells-each d d' [] (λ i. inl (λ x. ap (has_edge i x) s.friendships))
      (λ i. inl (λ x. ap (has_edge i x) s.blacklist)) (λ i. inl (λ u. ap (find_member i u) same.0)),
)
group-Announced d d' s (g, spares, inr told) = (
  rebuild g ∷ [],
  told,
  Tells-each d d' (rebuild g ∷ []) (λ i. inl (λ x. ap (has_edge i x) s.friendships))
      (λ i. inl (λ x. ap (has_edge i x) s.blacklist))
      (λ i. elim (Bool-cases (g == i)) [
        | inl this ↦ inr (ground arith)
        | inr other ↦ inl (λ u. spares.members i u (ground arith))
      ]),
)

-- A change of the friend tables, which leaves the groups alone.
friend-Announced :
    (d d' : Db) (events : List ReconcileEvent)
    → SameGroupTables d d'
    → d'.events ≡ logged events d.events
    → ((i : ℕ) → SameFriends i d d' ⊎ (some_passes (is_for friends i) events ≡ true))
    → ((i : ℕ) → SameBlocks i d d' ⊎ (some_passes (is_for blacklist i) events ≡ true))
    → Announced d d'
friend-Announced d d' events s told f b =
    (events, told, Tells-each d d' events f b (λ i. inl (λ u. ap (find_member i u) s.members)))

-- Each of two users is told of, or the edges of the user are the same.
pair-told :
    (a b i : ℕ) (d d' : Db)
    → ((i == a) ≡ false → (i == b) ≡ false → SameFriends i d d')
    → SameFriends i d d'
      ⊎ (some_passes (is_for friends i) (event friends a ∷ event friends b ∷ []) ≡ true)
pair-told a b i d d' h = elim (Bool-cases (i == a)) [
  | inl first ↦ inr (ground arith)
  | inr not_first ↦ elim (Bool-cases (i == b)) [
    | inl second ↦ inr (ground arith)
    | inr not_second ↦ inl (h not_first not_second)
  ]
]

one-told :
    (a i : ℕ) (d d' : Db)
    → ((i == a) ≡ false → SameBlocks i d d')
    → SameBlocks i d d' ⊎ (some_passes (is_for blacklist i) (event blacklist a ∷ []) ≡ true)
one-told a i d d' h = elim (Bool-cases (i == a)) [
  | inl this ↦ inr (ground arith)
  | inr other ↦ inl (h other)
]

befriended :
    (a b i x : ℕ) (es : List Edge)
    → (i == a) ≡ false
    → (i == b) ≡ false
    → has_edge i x (put_edge b a (put_edge a b es)) ≡ has_edge i x es
befriended a b i x es h k =
    ground (arith, has-put_edge b a i x (put_edge a b es), has-put_edge a b i x es)

unfriended :
    (a b i x : ℕ) (es : List Edge)
    → (i == a) ≡ false
    → (i == b) ≡ false
    → has_edge i x (drop_pair a b es) ≡ has_edge i x es
unfriended a b i x es h k = ground (arith, has-drop_pair a b i x es)

friend-Move-Announced : (d d' : Db) → FriendMoves.Move d d' → SameGroupTables d d' → Announced d d'
friend-Move-Announced d d' (FriendMoves.stays e) s =
    friend-Announced d d' [] s (rw e refl) (λ i. inl (λ x. rw e refl)) (λ i. inl (λ x. rw e refl))
friend-Move-Announced d d' (FriendMoves.requested _ _ _ _ _ _ _ _ e) s =
    friend-Announced d d' [] s (rw e refl) (λ i. inl (λ x. rw e refl)) (λ i. inl (λ x. rw e refl))
friend-Move-Announced d d' (FriendMoves.accepted _ _ r _ _ _ _ e) s =
    friend-Announced d d' (event friends r.from_user_id ∷ event friends r.to_user_id ∷ []) s
      (rw e refl)
      (λ i.
        pair-told r.from_user_id r.to_user_id i d d'
          (λ h k x. rw e (befriended r.from_user_id r.to_user_id i x d.friendships h k)))
      (λ i. inl (λ x. rw e refl))
friend-Move-Announced d d' (FriendMoves.repaired _ _ r _ _ _ e) s =
    friend-Announced d d' (event friends r.from_user_id ∷ event friends r.to_user_id ∷ []) s
      (rw e refl)
      (λ i.
        pair-told r.from_user_id r.to_user_id i d d'
          (λ h k x. rw e (befriended r.from_user_id r.to_user_id i x d.friendships h k)))
      (λ i. inl (λ x. rw e refl))
friend-Move-Announced d d' (FriendMoves.declined _ _ _ _ _ _ e) s =
    friend-Announced d d' [] s (rw e refl) (λ i. inl (λ x. rw e refl)) (λ i. inl (λ x. rw e refl))
friend-Move-Announced d d' (FriendMoves.unfriended a b _ e) s =
    friend-Announced d d' (event friends a ∷ event friends b ∷ []) s (rw e refl)
      (λ i. pair-told a b i d d' (λ h k x. rw e (unfriended a b i x d.friendships h k)))
      (λ i. inl (λ x. rw e refl))
friend-Move-Announced d d' (FriendMoves.blocked a b _ _ e) s =
    friend-Announced d d' (event blacklist a ∷ []) s (rw e refl) (λ i. inl (λ x. rw e refl))
      (λ i. one-told a i d d' (λ h x. rw e (ground arith)))
friend-Move-Announced d d' (FriendMoves.unblocked a b _ e) s =
    friend-Announced d d' (event blacklist a ∷ []) s (rw e refl) (λ i. inl (λ x. rw e refl))
      (λ i. one-told a i d d' (λ h x. rw e (ground (arith, has-drop_edge a b i x d.blacklist))))

-- Whatever the driver answers, a request to the group service inserts an event for the group whose
-- members it changes, if it changes any.
pub group_perform-Announced :
    (options : GroupOptions) (request : Groups.Request) (c : Conn Db)
    → Announced c.db (Groups.perform options request c).1
group_perform-Announced options request c =
    group-Announced c.db _
      (group-Move-SameFriendTables c.db _ (Groups.perform-Move options request c))
      (perform-Local options request c)

-- Whatever the driver answers, a request to the friend service inserts an event for each user whose
-- friends or blacklist it changes.
pub friend_perform-Announced :
    (options : FriendOptions) (request : Friends.Request) (c : Conn Db)
    → Announced c.db (Friends.perform options request c).1
friend_perform-Announced options request c =
    let move = (Friends.friend_perform-Move options request c) in
    friend-Move-Announced c.db _ move (friend-Move-SameGroupTables c.db _ move)
