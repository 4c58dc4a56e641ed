-- ===== src/Consistency/Announcements.antt =====
-- Changes of the tables, and the owners that they concern.
use yun_chat.Prelude.{ℕ, ◌≡◌, ◌∙◌, sym, ◌⊎◌, inl, inr, true, List, some_passes}
use yun_chat.Database.{Db, has_edge, friends, group_members, blacklist, ReconcileEvent}
use yun_chat.Database.Rows.{find_member}
use yun_chat.Projection.{Projection}
use yun_chat.CacheTruth.Freshness.{Shows}
use yun_chat.Reconciler.Workers.{is_for}
use yun_chat.Consistency.{Tells}

-- The edges of a user, and the members of a group, are the same.
abbrev pub SameFriends : ℕ → Db → Db → Type 0
SameFriends i d d' = (x : ℕ) → has_edge i x d'.friendships ≡ has_edge i x d.friendships

abbrev pub SameBlocks : ℕ → Db → Db → Type 0
SameBlocks i d d' = (x : ℕ) → has_edge i x d'.blacklist ≡ has_edge i x d.blacklist

abbrev pub SameMembers : ℕ → Db → Db → Type 0
SameMembers g d d' = (u : ℕ) → find_member g u d'.members ≡ find_member g u d.members

pub friends-Shows :
    (i : ℕ) (d d' : Db)
    → SameFriends i d d'
    → (p : Projection) → Shows friends i d p
    → Shows friends i d' p
friends-Shows i d d' h p (inl unmarked) = inl unmarked
friends-Shows i d d' h p (inr shown) = inr (λ x k. shown x k ∙ sym (h x))

pub blocks-Shows :
    (i : ℕ) (d d' : Db)
    → SameBlocks i d d'
    → (p : Projection) → Shows blacklist i d p
    → Shows blacklist i d' p
blocks-Shows i d d' h p (inl unmarked) = inl unmarked
blocks-Shows i d d' h p (inr shown) = inr (λ x k. shown x k ∙ sym (h x))

pub members-Shows :
    (g : ℕ) (d d' : Db)
    → SameMembers g d d'
    → (p : Projection) → Shows group_members g d p
    → Shows group_members g d' p
members-Shows g d d' h p (inl unmarked) = inl unmarked
members-Shows g d d' h p (inr shown) = inr (λ u k. rw (h u) (shown u k))

module _ (d d' : Db) (events : List ReconcileEvent) where
  -- Each kind of owner on its own.
  pub Tells-each :
      ((i : ℕ) → SameFriends i d d' ⊎ (some_passes (is_for friends i) events ≡ true))
      → ((i : ℕ) → SameBlocks i d d' ⊎ (some_passes (is_for blacklist i) events ≡ true))
      → ((i : ℕ) → SameMembers i d d' ⊎ (some_passes (is_for group_members i) events ≡ true))
      → Tells d d' events
  Tells-each f b m friends i = elim (f i) [
    | inl same ↦ inl (friends-Shows i d d' same)
    | inr told ↦ inr told
  ]
  Tells-each f b m blacklist i = elim (b i) [
    | inl same ↦ inl (blocks-Shows i d d' same)
    | inr told ↦ inr told
  ]
  Tells-each f b m group_members i = elim (m i) [
    | inl same ↦ inl (members-Shows i d d' same)
    | inr told ↦ inr told
  ]
