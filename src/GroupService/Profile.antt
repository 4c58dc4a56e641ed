-- ===== src/GroupService/Profile.antt =====
-- The pure validation of group.go: names and notices, and mute deadlines.
pub mod Deadlines
pub mod Names
use Prim.Native.Nat.{◌/◌}
use yun_chat.Prelude.{
  ℕ, ◌*◌, Bool, true, false, not, ◌&&◌, ◌||◌, Option, none, some, [], ◌∷◌, ◌==◌, ltb, leb, length,
  some_passes, if◌then◌else◌,
}
use yun_chat.AppError.{invalid_param}
use yun_chat.Service.{Checked, valid, invalid}
use yun_chat.Model.{Text}
use yun_chat.Text.{trim_space, is_control}

abbrev pub max_group_name_runes : ℕ
max_group_name_runes = 50

abbrev pub max_group_notice_runes : ℕ
max_group_notice_runes = 300

-- U+0009, U+000A and U+000D are allowed in a notice.
abbrev pub is_unsupported : ℕ → Bool
is_unsupported c = is_control c && not (c == 0x0a) && not (c == 0x0d) && not (c == 0x09)

abbrev checked_notice : Text → Text → Checked (Text × Text)
checked_notice name notice =
    if ltb max_group_notice_runes (length notice)
    then invalid invalid_param
    else if some_passes is_unsupported notice
    then invalid invalid_param
    else valid (name, notice)

abbrev is_empty : Text → Bool
is_empty [] = true
is_empty (c ∷ cs) = false

abbrev checked_name : Text → Text → Checked (Text × Text)
checked_name name raw_notice =
    if is_empty name
    then invalid invalid_param
    else if ltb max_group_name_runes (length name)
    then invalid invalid_param
    else if some_passes is_control name
    then invalid invalid_param
    else checked_notice name (trim_space raw_notice)

unfoldable pub normalize_group_profile : Text → Text → Checked (Text × Text)
normalize_group_profile raw_name raw_notice = checked_name (trim_space raw_name) raw_notice

abbrev pub second : ℕ
second = 1_000_000_000

-- The first instants of the years 1000 and 10000.
abbrev pub year_1000 : ℕ
year_1000 = 31_525_372_800 * second

abbrev pub year_10000 : ℕ
year_10000 = 315_537_897_600 * second

abbrev pub truncate_second : ℕ → ℕ
truncate_second t = t / second * second

abbrev checked_deadline : ℕ → ℕ → Checked (Option ℕ)
checked_deadline normalized now =
    if ltb normalized year_1000 || leb year_10000 normalized || not (ltb now normalized)
    then invalid invalid_param
    else valid (some normalized)

-- `now` is the clock read before the transaction.
unfoldable pub normalize_group_mute_deadline : Option ℕ → ℕ → Checked (Option ℕ)
normalize_group_mute_deadline none now = valid none
normalize_group_mute_deadline (some deadline) now = checked_deadline (truncate_second deadline) now
