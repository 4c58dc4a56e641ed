-- ===== src/GroupService/Consistency/Transfers.antt =====
-- A transfer of ownership keeps the invariant: the owner changes as the two roles do.
use yun_chat.Prelude.{
  ℕ, ◌≡◌, ◌≢◌, refl, ◌∙◌, ◌&&◌, Bool, true, false, Option, none, some, arith, ◌==◌, is_some,
  on_option, if◌then◌else◌,
}
use yun_chat.Model.{Group, GroupMember, role_member, role_owner}
use yun_chat.Database.{Db}
use yun_chat.Database.Rows.{
  find_group, find_member, count_members, map_some, count-update_member, find-update_group,
  find-update_member,
}
use yun_chat.GroupService.Moves.{role_of, role_in, with_role, with_mute, with_owner}
use yun_chat.GroupService.Consistency.{IsConsistent}

abbrev swapped : Db → ℕ → ℕ → ℕ → Db
swapped d g op u = with_role (with_role d g op role_member) g u role_owner

abbrev unmuted : Bool → Db → ℕ → ℕ → Db
unmuted unmutes d g u = if unmutes then with_mute d g u none else d

module _ (d : Db) (g op u : ℕ) where
  -- The roles after the two updates of `TransferOwnership`.
  role-swapped :
      (h w : ℕ)
      → op ≢ u
      → role_in (swapped d g op u) h w ≡ (
          if g == h && u == w
          then map_some (λ m. role_owner) (find_member h w d.members)
          else if g == h && op == w
          then map_some (λ m. role_member) (find_member h w d.members)
          else role_in d h w)
  role-swapped h w differ =
      let f = λ (m : GroupMember). record m { role = role_member } in
      let f' = λ (m : GroupMember). record m { role = role_owner } in
      ground (
        arith,
        find-update_member g op h w f d.members (λ m. (refl, refl)),
        find-update_member g u h w f' (with_role d g op role_member).members (λ m. (refl, refl)),
      )

  count-swapped : (h : ℕ) → count_members h (swapped d g op u).members ≡ count_members h d.members
  count-swapped h =
      let f = λ (m : GroupMember). record m { role = role_member } in
      let f' = λ (m : GroupMember). record m { role = role_owner } in
      omega (
        arith,
        count-update_member g op h f d.members (λ m. (refl, refl)),
        count-update_member g u h f' (with_role d g op role_member).members (λ m. (refl, refl)),
      )

  role-unmuted : (unmutes : Bool) (h w : ℕ) → role_in (unmuted unmutes d g u) h w ≡ role_in d h w
  role-unmuted unmutes h w =
      let f = λ (m : GroupMember). record m { muted_until = none } in
      ground (arith, find-update_member g u h w f d.members (λ m. (refl, refl)))

  count-unmuted :
      (unmutes : Bool) (h : ℕ)
      → count_members h (unmuted unmutes d g u).members ≡ count_members h d.members
  count-unmuted unmutes h =
      let f = λ (m : GroupMember). record m { muted_until = none } in
      ground (arith, count-update_member g u h f d.members (λ m. (refl, refl)))

abbrev SameGroups : Db → Db → Type 0
SameGroups d d' =
    (d'.groups ≡ d.groups) × (d'.tombstones ≡ d.tombstones) × (d'.next_group_id ≡ d.next_group_id)

unmuted-SameGroups :
    (d : Db) (unmutes : Bool) (g op u : ℕ) → SameGroups d (unmuted unmutes (swapped d g op u) g u)
unmuted-SameGroups d true g op u = (refl, refl, refl)
unmuted-SameGroups d false g op u = (refl, refl, refl)

none_of_role : (o : Option GroupMember) → role_of o ≡ none → o ≡ none
none_of_role none e = refl
none_of_role (some m) e = cc

-- Where the roles, the counts and the owner change as in a transfer, the invariant is kept.
module _ (d d' : Db) (v : IsConsistent d) (same : SameGroups d d') (g op u : ℕ) (group : Group)
    (eg : find_group g d.groups ≡ some group) (owns : group.owner_id ≡ op)
    (belongs : is_some (find_member g u d.members) ≡ true)
    (roles : (h w : ℕ)
      → role_in d' h w ≡ (
          if g == h && u == w
          then map_some (λ m. role_owner) (find_member h w d.members)
          else if g == h && op == w
          then map_some (λ m. role_member) (find_member h w d.members)
          else role_in d h w))
    (counts : (h : ℕ) → count_members h d'.members ≡ count_members h d.members) where
  owner_at :
      (h : ℕ)
      → find_group h (with_owner d' g u).groups ≡ (
          if g == h
          then map_some
              (λ (row : Group). record row { owner_id = u; updated_at = d'.clock })
              (find_group h d.groups)
          else find_group h d.groups)
  owner_at h = rw same.0 (
      find-update_group g h (λ row. record row { owner_id = u; updated_at = d'.clock }) d.groups
        (λ row. refl))

  pub with_owner-IsConsistent : IsConsistent (with_owner d' g u)
  with_owner-IsConsistent = record {
    owner_is_member = λ h own e.
        on_option (find_group h d.groups) (λ e'. ground (arith, owner_at h))
          (λ old e'. ground (arith, v.owner_is_member h old e', owner_at h, roles h own.owner_id));
    only_owner = λ h w own e r.
        on_option (find_group h d.groups) (λ e'. ground (arith, owner_at h))
          (λ old e'. ground (arith, v.only_owner h w old e', owner_at h, roles h w));
    members_live =
        λ h w e. none_of_role _ (ground (arith, v.members_live h w, owner_at h, roles h w));
    capacity = λ h own e.
        on_option (find_group h d.groups) (λ e'. ground (arith, owner_at h))
          (λ old e'. ground (arith, v.capacity h old e', owner_at h, counts h));
    dissolved = λ h e. ground (arith, v.dissolved h, owner_at h, same.1);
    unused = λ h e. (
      ground (arith, v.unused h, owner_at h, same.2),
      ground (arith, v.unused h, same.1, same.2),
    );
    numbered = ground (arith, v.numbered, same.2);
  }

module _ (d : Db) (v : IsConsistent d) (g op u : ℕ) (group : Group)
    (eg : find_group g d.groups ≡ some group) where
  pub transferred-IsConsistent :
      (unmutes : Bool)
      → group.owner_id ≡ op
      → op ≢ u
      → is_some (find_member g u d.members) ≡ true
      → IsConsistent (with_owner (unmuted unmutes (swapped d g op u) g u) g u)
  transferred-IsConsistent unmutes owns differ belongs =
      with_owner-IsConsistent d (unmuted unmutes (swapped d g op u) g u) v
        (unmuted-SameGroups d unmutes g op u) g op u group eg owns belongs
        (λ h w.
          role-unmuted (swapped d g op u) g op u unmutes h w ∙ role-swapped d g op u h w differ)
        (λ h. count-unmuted (swapped d g op u) g op u unmutes h ∙ count-swapped d g op u h)
