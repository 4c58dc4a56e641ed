-- ===== src/GroupService/Footprint.antt =====
-- What a move touches: one group, with an outbox row for it whenever its membership changes.
use yun_chat.Prelude.{
  ℕ, ◌≡◌, ◌≢◌, refl, ◌⊎◌, inl, inr, ◌∙◌, List, Bool, true, false, none, ◌∷◌, arith, if◌then◌else◌,
}
use yun_chat.Model.{Group, GroupMember, role_member, role_owner}
use yun_chat.Database.{Db}
use yun_chat.Database.Rows.{
  find_group, find_member, update_member, KeepsKey, find-remove_member, find-remove_members,
  find-remove_group, find-update_group, find-update_member, find_group-cons, find_member-cons,
}
use yun_chat.GroupService.Callbacks.{new_member, default_group_max_members}
use yun_chat.Sql.{Conn}
use yun_chat.GroupService.{GroupOptions}
use yun_chat.GroupService.UseCases.{Request, perform, perform-Move}
use yun_chat.GroupService.Moves.{
  Move, stays, created, joined, removed, promoted, muted, transferred, left, dissolved, renamed,
  rebuild, with_role, with_owner, with_mute, with_rebuild,
}

-- The rows of every other group are as before.
pub record Spares (g : ℕ) (d d' : Db) : Type 0 where
  pub groups : (h : ℕ) → h ≢ g → find_group h d'.groups ≡ find_group h d.groups
  pub members : (h u : ℕ) → h ≢ g → find_member h u d'.members ≡ find_member h u d.members

-- Nothing is asked of the cache and no membership changes, or the group's cache is to be rebuilt.
abbrev pub Traced : ℕ → Db → Db → Type 0
Traced g d d' =
    ((d'.members ≡ d.members) × (d'.events ≡ d.events)) ⊎ (d'.events ≡ rebuild g ∷ d.events)

abbrev pub Local : Db → Db → Type 0
Local d d' = (g : ℕ) × Spares g d d' × Traced g d d'

update_spares :
    (g u : ℕ) (f : GroupMember → GroupMember) (h w : ℕ) (rows : List GroupMember)
    → KeepsKey f
    → h ≢ g
    → find_member h w (update_member g u f rows) ≡ find_member h w rows
update_spares g u f h w rows keeps ne = ground (arith, find-update_member g u h w f rows keeps)

module _ (d : Db) (g op u : ℕ) where
  abbrev swapped : Db
  swapped = with_role (with_role d g op role_member) g u role_owner

  swapped-spares : (h w : ℕ) → h ≢ g → find_member h w swapped.members ≡ find_member h w d.members
  swapped-spares h w ne =
      update_spares g u (λ m. record m { role = role_owner }) h w
        (with_role d g op role_member).members (λ m. (refl, refl)) ne
      ∙ update_spares g op (λ m. record m { role = role_member }) h w d.members (λ m. (refl, refl))
          ne

  owner_spares : (h : ℕ) → h ≢ g → find_group h (with_owner d g u).groups ≡ find_group h d.groups
  owner_spares h ne = ground (
    arith,
    find-update_group g h (λ row. record row { owner_id = u; updated_at = d.clock }) d.groups
        (λ row. refl),
  )

  transferred-Local :
      (unmutes : Bool)
      → Local d (
          with_rebuild (with_owner (if unmutes then with_mute swapped g u none else swapped) g u) g)
  transferred-Local true = (
    g,
    record {
      groups = owner_spares;
      members = λ h w ne.
          update_spares g u (λ m. record m { muted_until = none }) h w swapped.members
            (λ m. (refl, refl)) ne
          ∙ swapped-spares h w ne;
    },
    inr refl,
  )
  transferred-Local false =
      (g, record { groups = owner_spares; members = swapped-spares }, inr refl)

Move-Local : (d d' : Db) → Move d d' → Local d d'
Move-Local d d' (stays e) = (
  0,
  record { groups = λ h n. ground arith; members = λ h u n. ground arith },
  inl (ground arith),
)
Move-Local d d' (created owner name notice exists e) =
    let n = d.next_group_id in
    let new : Group = record {
      id = n;
      name = name;
      notice = notice;
      owner_id = owner;
      max_members = default_group_max_members;
      created_at = d.clock;
      updated_at = d.clock;
    } in
    let row : GroupMember = record (new_member n owner role_owner) {
      id = d.next_member_id;
      joined_at = d.clock;
    } in
    (
      n,
      rw e (record {
        groups = λ h ne. ground (arith, find_group-cons h new d.groups);
        members = λ h u ne. ground (arith, find_member-cons h u row d.members);
      }),
      inr (rw e refl),
    )
Move-Local d d' (joined g op u group eg may absent exist befriended room e) =
    let row : GroupMember = record (new_member g u role_member) {
      id = d.next_member_id;
      joined_at = d.clock;
    } in
    (
      g,
      rw e (record {
        groups = λ h ne. refl;
        members = λ h w ne. ground (arith, find_member-cons h w row d.members);
      }),
      inr (rw e refl),
    )
Move-Local d d' (removed g op u group eg may other e) = (
  g,
  rw e (record {
    groups = λ h ne. refl;
    members = λ h w ne. ground (arith, find-remove_member g u h w d.members);
  }),
  inr (rw e refl),
)
Move-Local d d' (promoted g op u role group eg may other ordinary e) = (
  g,
  rw e (record {
    groups = λ h ne. refl;
    members = λ h w ne.
        update_spares g u (λ m. record m { role = role }) h w d.members (λ m. (refl, refl)) ne;
  }),
  inr (rw e refl),
)
Move-Local d d' (muted g op u deadline group eg may other e) = (
  g,
  rw e (record {
    groups = λ h ne. refl;
    members = λ h w ne.
        update_spares g u (λ m. record m { muted_until = deadline }) h w d.members
          (λ m. (refl, refl)) ne;
  }),
  inr (rw e refl),
)
Move-Local d d' (transferred g op u unmutes group eg may differ belongs e) =
    rw e (transferred-Local d g op u unmutes)
Move-Local d d' (left g u group eg belongs other e) = (
  g,
  rw e (record {
    groups = λ h ne. refl;
    members = λ h w ne. ground (arith, find-remove_member g u h w d.members);
  }),
  inr (rw e refl),
)
Move-Local d d' (dissolved g op group eg owns e) = (
  g,
  rw e (record {
    groups = λ h ne. ground (arith, find-remove_group g h d.groups);
    members = λ h w ne. ground (arith, find-remove_members g h w d.members);
  }),
  inr (rw e refl),
)
Move-Local d d' (renamed g op name notice group eg may e) =
    let f = λ (row : Group). record row { name = name; notice = notice; updated_at = d.clock } in
    (
      g,
      rw e (record {
        groups = λ h ne. ground (arith, find-update_group g h f d.groups (λ row. refl));
        members = λ h w ne. refl;
      }),
      inl (rw e (refl, refl)),
    )

-- Every request to the group service, whatever the driver answers, touches the groups and members of one
-- group only; and if it changes the member table it also adds, in the same transaction, the outbox row that
-- asks for that group's cache to be rebuilt.
pub perform-Local :
    (options : GroupOptions) (request : Request) (c : Conn Db)
    → Local c.db (perform options request c).1
perform-Local options request c = Move-Local c.db _ (perform-Move options request c)
