-- ===== src/CacheTruth/Freshness.antt =====
-- When Redis shows MySQL's rows of an owner.
use yun_chat.Prelude.{
  ℕ, ◌<◌, ◌≡◌, refl, ◌∙◌, ap, ◌⊎◌, inl, inr, Bool, false, Option, none, some, List, [], ◌∷◌, map,
  ◌==◌, keep, is_some, some_passes, Bool-cases, arith, if◌then◌else◌, ==_iff,
}
use yun_chat.Model.{GroupMember}
use yun_chat.Ids.{has}
use yun_chat.Ids.Canonical.{has-canonical_ids}
use yun_chat.Ids.Sorting.{has-sort_ids}
use yun_chat.Database.{Db, Edge, has_edge, CacheResource, friends, group_members, blacklist}
use yun_chat.Database.Rows.{find_member, in_group}
use yun_chat.Projection.{
  Projection, desired_members, replace_friend_owner, replace_blacklist_owner,
  replace_group_members_owner,
}
use yun_chat.Projection.Keys.{holds, remove_owner, Entry}
use yun_chat.Projection.Infos.{find_info}
use yun_chat.Projection.Friendships.{
  IsIndexed, friend-others, friend-owner, friend_loaded-replaced, blacklist-replaced,
  blacklist_loaded-replaced,
}
use yun_chat.Projection.Members.{
  cached, as_info, row_of, member_of-desired_members, has-user_ids, members-replaced,
  infos-replaced,
}
use yun_chat.CacheTruth.{peers, by_user, insert_member}

-- The marker of a group, whatever number it holds.
abbrev pub is_marked : ℕ → Projection → Bool
is_marked g p = some_passes (λ e. e.owner == g) p.group_member_loaded

-- Without its marker an owner's keys are not read. Only positive identifiers are mirrored.
abbrev pub Shows : CacheResource → ℕ → Db → Projection → Type 0
Shows friends u t p =
    (has u p.friend_loaded ≡ false)
    ⊎ ((x : ℕ) → 0 < x → holds u x p.friend ≡ has_edge u x t.friendships)
Shows blacklist u t p =
    (has u p.blacklist_loaded ≡ false)
    ⊎ ((x : ℕ) → 0 < x → holds u x p.blacklist ≡ has_edge u x t.blacklist)
Shows group_members g t p =
    (is_marked g p ≡ false)
    ⊎ ((u : ℕ)
        → 0 < u
        → (holds g u p.group_members ≡ is_some (find_member g u t.members))
          × (find_info g u p.group_member_info ≡ as_info g (cached (find_member g u t.members))))

has-peers :
    (u x : ℕ) (es : List Edge)
    → has x (map (λ (e : Edge). e.peer_id) (keep (λ e. e.user_id == u) es)) ≡ has_edge u x es
has-peers u x [] = refl
has-peers u x (e ∷ es) = ground (arith, has-peers u x es)

peers_lem : (u x : ℕ) (es : List Edge) → has x (peers u es) ≡ has_edge u x es
peers_lem u x es =
    has-sort_ids x (map (λ (e : Edge). e.peer_id) (keep (λ e. e.user_id == u) es))
    ∙ has-peers u x es

row_of-insert_member :
    (u : ℕ) (m : GroupMember) (ms : List GroupMember)
    → row_of u (insert_member m ms) ≡ (if m.user_id == u then some m else row_of u ms)
unfolding insert_member
row_of-insert_member u m [] = refl
row_of-insert_member u m (n ∷ ns) = ground (arith, row_of-insert_member u m ns)

row_of-by_user : (u : ℕ) (ms : List GroupMember) → row_of u (by_user ms) ≡ row_of u ms
unfolding by_user
row_of-by_user u [] = refl
row_of-by_user u (m ∷ ms) =
    ground (arith, row_of-insert_member u m (by_user ms), row_of-by_user u ms)

row_of-keep :
    (g u : ℕ) (ms : List GroupMember) → row_of u (keep (in_group g) ms) ≡ find_member g u ms
unfolding find_member
row_of-keep g u [] = refl
row_of-keep g u (m ∷ ms) = ground (arith, row_of-keep g u ms)

pub Shows-friends :
    (u i : ℕ) (t : Db) (p : Projection)
    → IsIndexed p
    → Shows friends i t p ⊎ (i ≡ u)
    → Shows friends i t (replace_friend_owner u (peers u t.friendships) p)
Shows-friends u i t p v h = elim (Bool-cases (u == i)) [
  | inl this ↦
      let e : u ≡ i = (==_iff u i).0 this in
      inr (rw (← e) (λ x h'. friend-owner u _ p x h' v ∙ peers_lem u x t.friendships))
  | inr other ↦ elim h [
    | inl (inl unmarked) ↦
        inl (ground (arith, friend_loaded-replaced u (peers u t.friendships) p i))
    | inl (inr shown) ↦
        inr (λ x h'. friend-others u (peers u t.friendships) p i x other ∙ shown x h')
    | inr e ↦ absurd (ground arith)
  ]
]

pub Shows-blacklist :
    (u i : ℕ) (t : Db) (p : Projection)
    → Shows blacklist i t p ⊎ (i ≡ u)
    → Shows blacklist i t (replace_blacklist_owner u (peers u t.blacklist) p)
Shows-blacklist u i t p h = elim (Bool-cases (u == i)) [
  | inl this ↦
      let e : u ≡ i = (==_iff u i).0 this in
      inr (
        rw (← e) (λ x h'. ground (
          arith,
          blacklist-replaced u (peers u t.blacklist) p u x,
          has-canonical_ids x (peers u t.blacklist),
          peers_lem u x t.blacklist,
        )))
  | inr other ↦ elim h [
    | inl (inl unmarked) ↦
        inl (ground (arith, blacklist_loaded-replaced u (peers u t.blacklist) p i))
    | inl (inr shown) ↦
        inr (λ x h'. ground (arith, blacklist-replaced u (peers u t.blacklist) p i x, shown x h'))
    | inr e ↦ absurd (ground arith)
  ]
]

is_owner-removed :
    (g i : ℕ) (es : List Entry)
    → (g == i) ≡ false
    → some_passes (λ e. e.owner == i) (remove_owner g es) ≡ some_passes (λ e. e.owner == i) es
unfolding remove_owner
is_owner-removed g i [] h = refl
is_owner-removed g i (e ∷ es) h = ground (arith, is_owner-removed g i es)

marked-others :
    (g i : ℕ) (ms : List GroupMember) (p : Projection)
    → (g == i) ≡ false
    → is_marked i (replace_group_members_owner g ms p) ≡ is_marked i p
unfolding replace_group_members_owner
marked-others g i ms p h = rw (h, is_owner-removed g i p.group_member_loaded h) refl

is_some-cached : (o : Option GroupMember) → is_some (cached o) ≡ is_some o
is_some-cached none = refl
is_some-cached (some m) = refl

module _ (g : ℕ) (t : Db) (p : Projection) where
  abbrev pub rows : List GroupMember
  rows = by_user (keep (in_group g) t.members)

  listed : (u : ℕ) → row_of u rows ≡ find_member g u t.members
  listed u = row_of-by_user u (keep (in_group g) t.members) ∙ row_of-keep g u t.members

  members-own :
      (u : ℕ)
      → 0 < u
      → holds g u (replace_group_members_owner g rows p).group_members
        ≡ is_some (find_member g u t.members)
  members-own u h = ground (
    arith,
    members-replaced g rows p g u,
    has-user_ids u (desired_members [] rows),
    ap is_some (member_of-desired_members u [] rows h),
    is_some-cached (row_of u rows),
    ap is_some (listed u),
  )

  infos-own :
      (u : ℕ)
      → 0 < u
      → find_info g u (replace_group_members_owner g rows p).group_member_info
        ≡ as_info g (cached (find_member g u t.members))
  infos-own u h = ground (
    arith,
    infos-replaced g rows p g u,
    ap (as_info g) (member_of-desired_members u [] rows h),
    ap (λ o. as_info g (cached o)) (listed u),
  )

  pub Shows-group :
      (i : ℕ)
      → Shows group_members i t p ⊎ (i ≡ g)
      → Shows group_members i t (replace_group_members_owner g rows p)
  Shows-group i h = elim (Bool-cases (g == i)) [
    | inl this ↦
        let e : g ≡ i = (==_iff g i).0 this in
        inr (rw (← e) (λ u k. (members-own u k, infos-own u k)))
    | inr other ↦ elim h [
      | inl (inl unmarked) ↦ inl (marked-others g i rows p other ∙ unmarked)
      | inl (inr shown) ↦ inr (λ u k. (
        ground (arith, members-replaced g rows p i u, (shown u k).0),
        ground (arith, infos-replaced g rows p i u, (shown u k).1),
      ))
      | inr e ↦ absurd (ground arith)
    ]
  ]
