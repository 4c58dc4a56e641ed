-- ===== src/Projection/Infos.antt =====
-- The hashes `group_member_info:{group}` with a field for each user.
use yun_chat.Prelude.{
  ℕ, Bool, ◌&&◌, Option, List, [], ◌∷◌, map, ◌==◌, keep, drop_passing, find_first,
}

-- `cachedGroupMemberInfo` with the user that it is about, as the script is given it.
pub record Member : Type 0 where
  pub user_id : ℕ
  pub role : ℕ
  pub muted_until : ℕ

pub record Info : Type 0 where
  pub group : ℕ
  pub member : Member

abbrev pub is_info : ℕ → ℕ → Info → Bool
is_info g u i = i.group == g && i.member.user_id == u

-- HGET
abbrev pub find_info : ℕ → ℕ → List Info → Option Info
find_info g u = find_first (is_info g u)

-- HSET
unfoldable pub put_info : ℕ → Member → List Info → List Info
put_info g m is = record { group = g; member = m } ∷ drop_passing (is_info g m.user_id) is

unfoldable pub put_infos : ℕ → List Member → List Info → List Info
unfolding put_info
put_infos g [] is = is
put_infos g (m ∷ ms) is = put_info g m (put_infos g ms is)

-- DEL of the hash of one group.
unfoldable pub remove_infos : ℕ → List Info → List Info
remove_infos g = drop_passing (λ i. i.group == g)

-- HKEYS
unfoldable pub info_fields : ℕ → List Info → List ℕ
info_fields g is = map (λ i. i.member.user_id) (keep (λ i. i.group == g) is)
