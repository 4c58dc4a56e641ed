-- ===== src/Projection/Friendships.antt =====
-- Replacing the friends of one user, and the users that a user has blocked.
use yun_chat.Prelude.{
  ℕ, ◌<◌, ◌≡◌, refl, inl, inr, true, false, not, ◌&&◌, ◌||◌, List, [], ◌==◌, arith, Bool-cases,
  if◌then◌else◌,
}
use yun_chat.Ids.{has, canonical_ids}
use yun_chat.Ids.Canonical.{has-canonical_ids}
use yun_chat.Projection.{Projection, set_key, replace_friend_owner, replace_blacklist_owner}
use yun_chat.Projection.Keys.{
  holds, items, remove_entries, remove_owner, holds-add_entries, holds-remove_entries,
  holds-remove_owner, has-items,
}

pub has-set_key : (j k : ℕ) (ks : List ℕ) → has j (set_key k ks) ≡ (k == j || has j ks)
has-set_key j k ks = ground arith

-- With its marker, the index of a user knows all the user's keys.
abbrev pub IsIndexed : Projection → Type 0
IsIndexed p =
    (u x : ℕ)
    → 0 < x
    → has u p.friend_index_loaded ≡ true
    → holds u x p.friend ≡ true
    → holds u x p.friend_owner_index ≡ true

module _ (owner : ℕ) (ids : List ℕ) (p : Projection) where
  legacy : List ℕ
  legacy = if has owner p.friend_index_loaded then [] else canonical_ids (items owner p.friend)

  old : List ℕ
  old = items owner p.friend_owner_index

  friend-replaced :
      (o x : ℕ)
      → holds o x (replace_friend_owner owner ids p).friend ≡ (
          (owner == o && has x (canonical_ids ids))
          || (not (owner == o && has x legacy)
              && (not (owner == o && has x old) && holds o x p.friend)))
  unfolding replace_friend_owner legacy old
  friend-replaced o x =
      let kept = remove_entries owner old p.friend in
      rw
        (
          holds-add_entries o x owner (canonical_ids ids) (remove_entries owner legacy kept),
          holds-remove_entries o x owner legacy kept,
          holds-remove_entries o x owner old p.friend,
        )
        refl

  pub friend-others :
      (o x : ℕ)
      → (owner == o) ≡ false
      → holds o x (replace_friend_owner owner ids p).friend ≡ holds o x p.friend
  friend-others o x e = ground (arith, friend-replaced o x)

  gone :
      (x : ℕ)
      → 0 < x
      → IsIndexed p
      → holds owner x p.friend ≡ true
      → (has x legacy || has x old) ≡ true
  unfolding legacy old
  gone x h v k = elim (Bool-cases (has owner p.friend_index_loaded)) [
    | inl marked ↦ ground (arith, v owner x h marked k, has-items owner x p.friend_owner_index)
    | inr unmarked ↦
        ground (arith, has-canonical_ids x (items owner p.friend), has-items owner x p.friend)
  ]

  -- The replaced keys are those of the given friends.
  pub friend-owner :
      (x : ℕ)
      → 0 < x
      → IsIndexed p
      → holds owner x (replace_friend_owner owner ids p).friend ≡ has x ids
  friend-owner x h v = ground (arith, friend-replaced owner x, has-canonical_ids x ids, gone x h v)

  index-replaced :
      (o x : ℕ)
      → holds o x (replace_friend_owner owner ids p).friend_owner_index ≡ (
          (owner == o && has x (canonical_ids ids))
          || (not (owner == o) && holds o x p.friend_owner_index))
  unfolding replace_friend_owner
  index-replaced o x =
      rw
        (
          holds-add_entries o x owner (canonical_ids ids) (remove_owner owner p.friend_owner_index),
          holds-remove_owner o x owner p.friend_owner_index,
        )
        refl

  pub index_loaded-replaced :
      (o : ℕ)
      → has o (replace_friend_owner owner ids p).friend_index_loaded
        ≡ (owner == o || has o p.friend_index_loaded)
  unfolding replace_friend_owner
  index_loaded-replaced o = has-set_key o owner p.friend_index_loaded

  pub friend_loaded-replaced :
      (o : ℕ)
      → has o (replace_friend_owner owner ids p).friend_loaded
        ≡ (owner == o || has o p.friend_loaded)
  unfolding replace_friend_owner
  friend_loaded-replaced o = has-set_key o owner p.friend_loaded

  pub replaced-IsIndexed : IsIndexed p → IsIndexed (replace_friend_owner owner ids p)
  replaced-IsIndexed v u x h marked k = elim (Bool-cases (owner == u)) [
    | inl this ↦ ground (
      arith,
      index-replaced u x,
      has-canonical_ids x ids,
      friend-owner x h v,
      friend-replaced u x,
    )
    | inr other ↦
        ground
          (arith, index-replaced u x, friend-others u x other, index_loaded-replaced u, v u x h)
  ]

  pub blacklist-replaced :
      (o x : ℕ)
      → holds o x (replace_blacklist_owner owner ids p).blacklist
        ≡ ((owner == o && has x (canonical_ids ids)) || (not (owner == o) && holds o x p.blacklist))
  unfolding replace_blacklist_owner
  blacklist-replaced o x =
      rw
        (
          holds-add_entries o x owner (canonical_ids ids) (remove_owner owner p.blacklist),
          holds-remove_owner o x owner p.blacklist,
        )
        refl

  pub blacklist_loaded-replaced :
      (o : ℕ)
      → has o (replace_blacklist_owner owner ids p).blacklist_loaded
        ≡ (owner == o || has o p.blacklist_loaded)
  unfolding replace_blacklist_owner
  blacklist_loaded-replaced o = has-set_key o owner p.blacklist_loaded
