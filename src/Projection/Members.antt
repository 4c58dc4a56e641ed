-- ===== src/Projection/Members.antt =====
-- Replacing the members of one group.
use yun_chat.Prelude.{
  ℕ, ◌<◌, ◌≡◌, refl, false, not, ◌&&◌, ◌||◌, Option, none, some, List, [], ◌∷◌, ◌==◌, arith,
  find_first, drop_passing, is_some, if◌then◌else◌,
}
use yun_chat.Ids.{has}
use yun_chat.Model.{GroupMember}
use yun_chat.Projection.{
  Projection, cached_muted_until, desired_members, user_ids, replace_group_members_owner,
}
use yun_chat.Projection.Infos.{Info, Member, is_info, find_info, put_info, put_infos, remove_infos}
use yun_chat.Projection.Keys.{holds, remove_owner, holds-add_entries, holds-remove_owner}

find_info-dropped :
    (g u h v : ℕ) (is : List Info)
    → (h == g && v == u) ≡ false
    → find_info g u (drop_passing (is_info h v) is) ≡ find_info g u is
find_info-dropped g u h v [] e = refl
find_info-dropped g u h v (i ∷ is) e = ground (arith, find_info-dropped g u h v is)

pub find_info-put_info :
    (g u h : ℕ) (m : Member) (is : List Info)
    → find_info g u (put_info h m is) ≡ (
        if h == g && m.user_id == u
        then some (record { group = h; member = m })
        else find_info g u is)
unfolding put_info
find_info-put_info g u h m is = ground (arith, find_info-dropped g u h m.user_id is)

pub find_info-remove_infos :
    (g u h : ℕ) (is : List Info)
    → find_info g u (remove_infos h is) ≡ (if h == g then none else find_info g u is)
unfolding remove_infos
find_info-remove_infos g u h [] = ground arith
find_info-remove_infos g u h (i ∷ is) = ground (arith, find_info-remove_infos g u h is)

abbrev pub member_of : ℕ → List Member → Option Member
member_of u = find_first (λ m. m.user_id == u)

abbrev pub as_info : ℕ → Option Member → Option Info
as_info g none = none
as_info g (some m) = some (record { group = g; member = m })

abbrev pub or_else : Option Info → Option Info → Option Info
or_else none o = o
or_else (some i) o = some i

pub find_info-put_infos :
    (g u h : ℕ) (ms : List Member) (is : List Info)
    → find_info g u (put_infos h ms is) ≡ (
        if h == g
        then or_else (as_info h (member_of u ms)) (find_info g u is)
        else find_info g u is)
unfolding put_infos
find_info-put_infos g u h [] is = ground arith
find_info-put_infos g u h (m ∷ ms) is =
    ground (arith, find_info-put_info g u h m (put_infos h ms is), find_info-put_infos g u h ms is)

-- What Redis is to say of a member's row.
abbrev pub cached_member : GroupMember → Member
cached_member m = record {
  user_id = m.user_id;
  role = m.role;
  muted_until = cached_muted_until m.muted_until;
}

abbrev pub cached : Option GroupMember → Option Member
cached none = none
cached (some m) = some (cached_member m)

abbrev pub row_of : ℕ → List GroupMember → Option GroupMember
row_of u = find_first (λ m. m.user_id == u)

pub member_of-desired_members :
    (u : ℕ) (seen : List ℕ) (ms : List GroupMember)
    → 0 < u
    → member_of u (desired_members seen ms) ≡ (if has u seen then none else cached (row_of u ms))
unfolding desired_members
member_of-desired_members u seen [] h = ground arith
member_of-desired_members u seen (m ∷ ms) h = ground (
  arith,
  member_of-desired_members u seen ms h,
  member_of-desired_members u (m.user_id ∷ seen) ms h,
)

pub has-user_ids : (u : ℕ) (ms : List Member) → has u (user_ids ms) ≡ is_some (member_of u ms)
has-user_ids u [] = refl
has-user_ids u (m ∷ ms) = ground (arith, has-user_ids u ms)

module _ (group : ℕ) (ms : List GroupMember) (p : Projection) where
  abbrev desired : List Member
  desired = desired_members [] ms

  pub members-replaced :
      (g u : ℕ)
      → holds g u (replace_group_members_owner group ms p).group_members ≡ (
          (group == g && has u (user_ids desired))
          || (not (group == g) && holds g u p.group_members))
  unfolding replace_group_members_owner
  members-replaced g u =
      rw
        (
          holds-add_entries g u group (user_ids desired) (remove_owner group p.group_members),
          holds-remove_owner g u group p.group_members,
        )
        refl

  pub infos-replaced :
      (g u : ℕ)
      → find_info g u (replace_group_members_owner group ms p).group_member_info ≡ (
          if group == g
          then as_info group (member_of u desired)
          else find_info g u p.group_member_info)
  unfolding replace_group_members_owner
  infos-replaced g u = ground (
    arith,
    find_info-put_infos g u group desired (remove_infos group p.group_member_info),
    find_info-remove_infos g u group p.group_member_info,
  )
