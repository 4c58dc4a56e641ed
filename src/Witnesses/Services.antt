-- ===== src/Witnesses/Services.antt =====
-- Concrete inputs: a group of two, a pending request, a clock, texts, and a fresh generator.
use yun_chat.Prelude.{
  ◌↔◌, ℕ, ◌+◌, ◌*◌, suc, ◌≡◌, refl, true, false, none, some, [], ◌∷◌, is_some, arith, inl,
}
use yun_chat.AppError.{group_not_found, already_member}
use yun_chat.Sql.{ok, quiet}
use yun_chat.Model.{User, Group, GroupMember, FriendRequest, role_owner, request_pending}
use yun_chat.Database.{Db, find_user, has_edge}
use yun_chat.Database.Rows.{find_group, find_member, count_members}
use yun_chat.Service.{returned, failed, valid}
use yun_chat.Text.{trim_space, is_space}
use yun_chat.GroupService.{GroupOptions, disband, get, refresh_group_member_cache}
use yun_chat.GroupService.UseCases as Groups
use yun_chat.GroupService.Lifecycle.{disband-returned}
use yun_chat.GroupService.Removal.{Removable, remove_member_iff}
use yun_chat.GroupService.Admission.{Admissible, add_member-admits}
use yun_chat.GroupService.Profile.{
  normalize_group_mute_deadline, normalize_group_profile, second, year_1000,
}
use yun_chat.GroupService.Profile.Deadlines.{
  IsWholeSecond, normalize_group_mute_deadline-IsWholeSecond,
}
use yun_chat.GroupService.Profile.Names.{Presentable, normalize_group_profile-Presentable}
use yun_chat.FriendService.{FriendOptions}
use yun_chat.FriendService.UseCases as Friends
use yun_chat.FriendService.Acceptance.{Answerable, accept_request-befriends}
use yun_chat.MessageId.Generator.{Generator, next_id}
use yun_chat.MessageId.MysqlStore.{Allocator, reserve}
use yun_chat.MessageId.Progress.{next_id-ok}

abbrev team : Group
team = record {
  id = 1;
  name = 0x61 ∷ [];
  notice = [];
  owner_id = 1;
  max_members = 500;
  created_at = 3;
  updated_at = 3;
}

abbrev owner_row : GroupMember
owner_row = record {
  id = 1;
  group_id = 1;
  user_id = 1;
  role = role_owner;
  muted_until = none;
  joined_at = 3;
}

abbrev asking : FriendRequest
asking = record {
  id = 1;
  from_user_id = 2;
  to_user_id = 3;
  username = [];
  avatar_url = [];
  message = [];
  status = request_pending;
  created_at = 4;
  updated_at = 4;
}

abbrev user : ℕ → User
user id = record { id = id; username = 0x62 ∷ []; avatar_url = [] }

-- User 1 owns the team and is a friend of user 2, who has asked user 3.
abbrev lively : Db
lively = record {
  users = user 3 ∷ user 2 ∷ user 1 ∷ [];
  friendships = record { user_id = 1; peer_id = 2 } ∷ record { user_id = 2; peer_id = 1 } ∷ [];
  blacklist = [];
  requests = asking ∷ [];
  next_request_id = 2;
  groups = team ∷ [];
  next_group_id = 2;
  members = owner_row ∷ [];
  next_member_id = 2;
  tombstones = [];
  events = [];
  clock = 9;
}

abbrev group_options : GroupOptions
group_options = record { has_cache = true; has_notifier = true }

abbrev friend_options : FriendOptions
friend_options = record { has_cache = true; has_notifier = true }

team_found : find_group 1 lively.groups ≡ some team
unfolding find_group
team_found = refl

disband-returned_example :
    ((disband group_options 1 1 (quiet lively)).0 ≡ returned tt)
    × (find_member 1 2 (disband group_options 1 1 (quiet lively)).1.db.members ≡ none)
    × (get 2 1 (disband group_options 1 1 (quiet lively)).1
        ≡ (failed group_not_found, (disband group_options 1 1 (quiet lively)).1, []))
    × (disband group_options 1 2 (disband group_options 1 1 (quiet lively)).1 ≡ (
      returned tt,
      (disband group_options 1 1 (quiet lively)).1,
      refresh_group_member_cache group_options 1,
    ))
disband-returned_example =
    disband-returned group_options lively 1 1 team team_found refl (omega arith) (omega arith) 2 2
      (omega arith)

may_join : Admissible lively 1 1 2 team
unfolding find_group find_member count_members find_user
may_join = record {
  found = refl;
  manages = inl (refl, refl);
  absent = refl;
  differ = λ e. absurd (omega arith);
  exist = (refl, refl);
  friends = refl;
  room = omega arith;
  positive = (omega arith, omega arith, omega arith);
}

abbrev add : Groups.Request
add = Groups.add_member 1 1 2

add_member-admits_example :
    ((Groups.perform group_options add (quiet lively)).0 ≡ none)
    × (is_some (find_member 1 2 (Groups.perform group_options add (quiet lively)).1.members) ≡ true)
    × (count_members 1 (Groups.perform group_options add (quiet lively)).1.members
        ≡ suc (count_members 1 lively.members))
    × (Groups.perform group_options add (quiet (Groups.perform group_options add (quiet lively)).1)
        ≡ (some already_member, (Groups.perform group_options add (quiet lively)).1))
add_member-admits_example = add_member-admits group_options lively 1 1 2 team may_join

may_answer : Answerable lively 3 1 asking
unfolding find_user
may_answer = record {
  found = refl;
  target = refl;
  differ = λ e. absurd (omega arith);
  sender = refl;
  receiver = refl;
  positive = (omega arith, omega arith, omega arith);
}

abbrev accept : Friends.Request
accept = Friends.accept_request 3 1

abbrev accepted : Db
accepted = (Friends.perform friend_options accept (quiet lively)).1

accept_request-befriends_example :
    ((Friends.perform friend_options accept (quiet lively)).0 ≡ none)
    × (has_edge 2 3 accepted.friendships ≡ true)
    × (has_edge 3 2 accepted.friendships ≡ true)
    × ((Friends.perform friend_options accept (quiet accepted)).0 ≡ none)
    × ((Friends.perform friend_options accept (quiet accepted)).1.friendships
        ≡ accepted.friendships)
accept_request-befriends_example =
    accept_request-befriends friend_options lively 3 1 asking may_answer refl refl

-- Three nanoseconds after a whole second of the year 1000.
abbrev asked_deadline : ℕ
asked_deadline = year_1000 + 5 * second + 3

deadline_accepted :
    normalize_group_mute_deadline (some asked_deadline) 7 ≡ valid (some (year_1000 + 5 * second))
unfolding normalize_group_mute_deadline
deadline_accepted = refl

normalize_group_mute_deadline-IsWholeSecond_example :
    IsWholeSecond asked_deadline 7 (year_1000 + 5 * second)
    × (normalize_group_mute_deadline (some (year_1000 + 5 * second)) 7
        ≡ valid (some (year_1000 + 5 * second)))
normalize_group_mute_deadline-IsWholeSecond_example =
    normalize_group_mute_deadline-IsWholeSecond asked_deadline 7 (year_1000 + 5 * second)
      deadline_accepted

-- Both with white space around them.
profile_accepted :
    normalize_group_profile (0x20 ∷ 0x61 ∷ []) (0x0a ∷ 0x62 ∷ 0x0a ∷ 0x63 ∷ 0x3000 ∷ [])
    ≡ valid (0x61 ∷ [], 0x62 ∷ 0x0a ∷ 0x63 ∷ [])
unfolding normalize_group_profile trim_space is_space
profile_accepted = refl

normalize_group_profile-Presentable_example :
    Presentable (0x61 ∷ []) (0x62 ∷ 0x0a ∷ 0x63 ∷ [])
    × (normalize_group_profile (0x61 ∷ []) (0x62 ∷ 0x0a ∷ 0x63 ∷ [])
        ≡ valid (0x61 ∷ [], 0x62 ∷ 0x0a ∷ 0x63 ∷ []))
normalize_group_profile-Presentable_example =
    normalize_group_profile-Presentable (0x20 ∷ 0x61 ∷ []) (0x0a ∷ 0x62 ∷ 0x0a ∷ 0x63 ∷ 0x3000 ∷ [])
      (0x61 ∷ []) (0x62 ∷ 0x0a ∷ 0x63 ∷ []) profile_accepted

abbrev fresh_generator : Generator
fresh_generator = record { segment_size = 10; next = 0; last = 0 }

abbrev marked_row : Allocator
marked_row = record { next_id = some 5 }

next_id-ok_example :
    ((next_id reserve false false fresh_generator (quiet marked_row)).0 ≡ ok 5)
    × ((next_id reserve false false fresh_generator (quiet marked_row)).1.next ≡ 6)
next_id-ok_example =
    next_id-ok fresh_generator marked_row 5 refl (omega arith, omega arith)
      (omega arith, omega arith)

-- User 2 is an ordinary member of the team.
abbrev paired : Db
paired = record lively {
  members =
      record { id = 2; group_id = 1; user_id = 2; role = 0; muted_until = none; joined_at = 5 }
      ∷ owner_row
      ∷ [];
}

remove_member_iff_example :
    ((Groups.perform group_options (Groups.remove_member 1 1 2) (quiet paired)).0 ≡ none)
    ↔ ((group : Group) × Removable paired 1 1 2 group)
remove_member_iff_example =
    remove_member_iff group_options paired 1 1 2 (omega arith, omega arith, omega arith)
