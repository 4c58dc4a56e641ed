-- ===== src/Model.antt =====
-- The records of backend/internal/model (user.go, group.go) that the services read and write.
-- Identifiers are positive `int64`s; 0 stands for every identifier that the guards `id <= 0` refuse.
-- A text is the list of its code points, and a time counts
-- nanoseconds since 0001-01-01T00:00:00Z.
use yun_chat.Prelude.{ℕ, List, Option}

abbrev pub Text : Type 0
Text = List ℕ

-- What the friend and group repositories read of `model.User`.
pub record User : Type 0 where
  pub id : ℕ
  pub username : Text
  pub avatar_url : Text

abbrev pub role_member : ℕ
role_member = 0

abbrev pub role_admin : ℕ
role_admin = 1

abbrev pub role_owner : ℕ
role_owner = 2

pub record Group : Type 0 where
  pub id : ℕ
  pub name : Text
  pub notice : Text
  pub owner_id : ℕ
  pub max_members : ℕ
  pub created_at : ℕ
  pub updated_at : ℕ

pub record GroupMember : Type 0 where
  pub id : ℕ
  pub group_id : ℕ
  pub user_id : ℕ
  pub role : ℕ
  pub muted_until : Option ℕ
  pub joined_at : ℕ

abbrev pub request_pending : ℕ
request_pending = 0

abbrev pub request_accepted : ℕ
request_accepted = 1

abbrev pub request_rejected : ℕ
request_rejected = 2

-- A row of `friend_requests`; `username` and `avatar_url` are filled in from the user's row.
pub record FriendRequest : Type 0 where
  pub id : ℕ
  pub from_user_id : ℕ
  pub to_user_id : ℕ
  pub username : Text
  pub avatar_url : Text
  pub message : Text
  pub status : ℕ
  pub created_at : ℕ
  pub updated_at : ℕ
