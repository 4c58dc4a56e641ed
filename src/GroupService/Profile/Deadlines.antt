-- ===== src/GroupService/Profile/Deadlines.antt =====
-- Mute deadlines are cut to whole seconds, which MySQL's DATETIME keeps.
use Prim.Native.Nat.{◌/◌}
use yun_chat.Prelude.{ℕ, ◌+◌, ◌*◌, ◌≤◌, ◌<◌, ◌≡◌, some, arith}
use yun_chat.Service.{valid}
use yun_chat.GroupService.Profile.{normalize_group_mute_deadline, second, year_1000, year_10000}

abbrev pub IsWholeSecond : ℕ → ℕ → ℕ → Type 0
IsWholeSecond deadline now t =
    ((n : ℕ) × (t ≡ n * second))
    × (t ≤ deadline)
    × (deadline < t + second)
    × (now < t)
    × (year_1000 ≤ t)
    × (t < year_10000)

-- A deadline that is accepted is the last whole second not after the one asked for, in the future and
-- between the years 1000 and 9999; and it is accepted as it is when it is read back and sent again.
pub normalize_group_mute_deadline-IsWholeSecond :
    (deadline now t : ℕ)
    → normalize_group_mute_deadline (some deadline) now ≡ valid (some t)
    → IsWholeSecond deadline now t × (normalize_group_mute_deadline (some t) now ≡ valid (some t))
unfolding normalize_group_mute_deadline
normalize_group_mute_deadline-IsWholeSecond deadline now t e =
    let t_is : t ≡ deadline / second * second = ground (arith, e) in
    (
      (
        (deadline / second, t_is),
        ground (arith, e),
        ground (arith, e),
        ground (arith, e),
        ground (arith, e),
        ground (arith, e),
      ),
      ground (arith, e),
    )
