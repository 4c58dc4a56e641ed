-- ===== src/GroupService/Moves.antt =====
-- The moves of the group tables: what a committed transaction of group.go may change, and under which
-- authority. This is the specification that the callbacks refine.
use yun_chat.Prelude.{
  ℕ, ◌+◌, ◌<◌, ◌≡◌, ◌≢◌, ◌⊎◌, Bool, true, ◌||◌, Option, none, some, ◌∷◌, is_some, if◌then◌else◌,
}
use yun_chat.Model.{Text, Group, GroupMember, role_member, role_admin, role_owner}
use yun_chat.Database.{Db, ReconcileEvent, group_members, has_edge}
use yun_chat.Database.Locks.{Exists}
use yun_chat.Database.Rows.{
  find_group, find_member, count_members, map_some, remove_group, update_group, remove_member,
  remove_members, update_member,
}
use yun_chat.Database.Groups.{put_tombstone}
use yun_chat.GroupService.Callbacks.{new_member, default_group_max_members}

-- The outbox row that asks for the group's cache to be rebuilt.
abbrev pub rebuild : ℕ → ReconcileEvent
rebuild g = record { resource = group_members; resource_id = g }

abbrev pub role_of : Option GroupMember → Option ℕ
role_of = map_some (λ m. m.role)

abbrev pub role_in : Db → ℕ → ℕ → Option ℕ
role_in d g u = role_of (find_member g u d.members)

-- `groups.owner_id` is the owner, and a member.
abbrev pub Owns : Db → Group → ℕ → ℕ → Type 0
Owns d group g op = (group.owner_id ≡ op) × (is_some (find_member g op d.members) ≡ true)

abbrev pub Manages : Db → Group → ℕ → ℕ → Type 0
Manages d group g op = Owns d group g op ⊎ (role_in d g op ≡ some role_admin)

-- The owner may act on any other member, an administrator on ordinary members.
abbrev pub Outranks : Db → Group → ℕ → ℕ → ℕ → Type 0
Outranks d group g op u =
    Owns d group g op ⊎ ((role_in d g op ≡ some role_admin) × (role_in d g u ≡ some role_member))

abbrev pub with_group : Db → Text → Text → ℕ → Db
with_group d name notice owner = record d {
  groups =
      record {
        id = d.next_group_id;
        name = name;
        notice = notice;
        owner_id = owner;
        max_members = default_group_max_members;
        created_at = d.clock;
        updated_at = d.clock;
      }
      ∷ d.groups;
  next_group_id = d.next_group_id + 1;
}

abbrev pub with_member : Db → ℕ → ℕ → ℕ → Db
with_member d g u role = record d {
  members = record (new_member g u role) { id = d.next_member_id; joined_at = d.clock } ∷ d.members;
  next_member_id = d.next_member_id + 1;
}

abbrev pub without_member : Db → ℕ → ℕ → Db
without_member d g u = record d { members = remove_member g u d.members }

abbrev pub with_role : Db → ℕ → ℕ → ℕ → Db
with_role d g u role = record d {
  members = update_member g u (λ m. record m { role = role }) d.members;
}

abbrev pub with_mute : Db → ℕ → ℕ → Option ℕ → Db
with_mute d g u deadline = record d {
  members = update_member g u (λ m. record m { muted_until = deadline }) d.members;
}

abbrev pub with_owner : Db → ℕ → ℕ → Db
with_owner d g owner = record d {
  groups = update_group g (λ row. record row { owner_id = owner; updated_at = d.clock }) d.groups;
}

abbrev pub with_profile : Db → ℕ → Text → Text → Db
with_profile d g name notice = record d {
  groups =
      update_group g (λ row. record row { name = name; notice = notice; updated_at = d.clock })
        d.groups;
}

abbrev pub without_group : Db → ℕ → ℕ → Db
without_group d g owner = record d {
  tombstones = put_tombstone g owner d.tombstones;
  members = remove_members g d.members;
  groups = remove_group g d.groups;
}

abbrev pub with_rebuild : Db → ℕ → Db
with_rebuild d g = record d { events = rebuild g ∷ d.events }

pub data Move (d : Db) (d' : Db) : Type 0 where
  stays : d' ≡ d → Move d d'
  created :
      (owner : ℕ) (name notice : Text)
      → Exists d owner
      → d'
        ≡ with_rebuild
            (with_member (with_group d name notice owner) d.next_group_id owner role_owner)
            d.next_group_id
      → Move d d'
  joined :
      (g op u : ℕ) (group : Group)
      → find_group g d.groups ≡ some group
      → Manages d group g op
      → find_member g u d.members ≡ none
      → Exists d op × Exists d u
      → (has_edge op u d.friendships || has_edge u op d.friendships) ≡ true
      → count_members g d.members < group.max_members
      → d' ≡ with_rebuild (with_member d g u role_member) g
      → Move d d'
  removed :
      (g op u : ℕ) (group : Group)
      → find_group g d.groups ≡ some group
      → Outranks d group g op u
      → u ≢ group.owner_id
      → d' ≡ with_rebuild (without_member d g u) g
      → Move d d'
  promoted :
      (g op u role : ℕ) (group : Group)
      → find_group g d.groups ≡ some group
      → Owns d group g op
      → u ≢ group.owner_id
      → role ≢ role_owner
      → d' ≡ with_rebuild (with_role d g u role) g
      → Move d d'
  muted :
      (g op u : ℕ) (deadline : Option ℕ) (group : Group)
      → find_group g d.groups ≡ some group
      → Outranks d group g op u
      → u ≢ group.owner_id
      → d' ≡ with_rebuild (with_mute d g u deadline) g
      → Move d d'
  transferred :
      (g op u : ℕ) (unmutes : Bool) (group : Group)
      → find_group g d.groups ≡ some group
      → Owns d group g op
      → op ≢ u
      → is_some (find_member g u d.members) ≡ true
      → (let swapped = with_role (with_role d g op role_member) g u role_owner in
          d'
          ≡ with_rebuild
              (with_owner (if unmutes then with_mute swapped g u none else swapped) g u)
              g)
      → Move d d'
  left :
      (g u : ℕ) (group : Group)
      → find_group g d.groups ≡ some group
      → is_some (find_member g u d.members) ≡ true
      → u ≢ group.owner_id
      → d' ≡ with_rebuild (without_member d g u) g
      → Move d d'
  dissolved :
      (g op : ℕ) (group : Group)
      → find_group g d.groups ≡ some group
      → group.owner_id ≡ op
      → d' ≡ with_rebuild (without_group d g group.owner_id) g
      → Move d d'
  renamed :
      (g op : ℕ) (name notice : Text) (group : Group)
      → find_group g d.groups ≡ some group
      → Manages d group g op
      → d' ≡ with_profile d g name notice
      → Move d d'
