-- ===== src/Presence.antt =====
-- backend/internal/repository/presence_repository.go: the lease that makes one connection of a user the
-- owner of the user's presence.
--
-- The state is the two Redis keys of one user and Redis's clock in milliseconds; Redis runs a script as one
-- step. A connection identifier is a number, 0 for the empty string, as scripts only compare them. A time
-- to live is in nanoseconds, 0 for every value below 1.
pub mod Leases
pub mod Sharing
use Prim.Native.Nat.{◌/◌}
use yun_chat.Prelude.{
  ℕ, ◌+◌, Bool, true, false, not, ◌||◌, Option, none, some, ◌==◌, ltb, leb, is_some, if◌then◌else◌,
}
use yun_chat.Sql.{Result, ok, err, driver}

pub record Key : Type 0 where
  pub value : ℕ
  pub deadline : ℕ

pub record Presence : Type 0 where
  pub conn : Option Key
  pub online : Option Key
  pub now : ℕ

-- GET: a key past its deadline is gone.
abbrev pub read : ℕ → Option Key → Option ℕ
read now none = none
read now (some key) = if ltb now key.deadline then some key.value else none

abbrev pub holds : Option ℕ → ℕ → Bool
holds none connection = false
holds (some owner) connection = owner == connection

abbrev pub milliseconds : ℕ → ℕ
milliseconds ttl = ttl / 1_000_000

abbrev pub key_until : ℕ → ℕ → ℕ → Option Key
key_until connection now ms = some (record { value = connection; deadline = now + ms })

-- `claimPresenceScript`; SET refuses PX 0.
unfoldable pub claim_script : ℕ → ℕ → Presence → Result ℕ × Presence
claim_script connection ms s = if ms == 0 then (err driver, s) else (
  ok (if is_some (read s.now s.online) then 0 else 1),
  record s { conn = key_until connection s.now ms; online = key_until connection s.now ms },
)

-- `renewPresenceScript`; PEXPIRE 0 deletes the key, and SET then refuses PX 0.
unfoldable pub renew_script : ℕ → ℕ → Presence → Result ℕ × Presence
renew_script connection ms s =
    if not (holds (read s.now s.conn) connection)
    then (ok 0, s)
    else if ms == 0
    then (err driver, record s { conn = none })
    else (
      ok 1,
      record s { conn = key_until connection s.now ms; online = key_until connection s.now ms },
    )

-- `releasePresenceScript`
unfoldable pub release_script : ℕ → Presence → Result ℕ × Presence
release_script connection s =
    if not (holds (read s.now s.conn) connection)
    then (ok 0, s)
    else (ok 1, record s { conn = none; online = none })

abbrev pub is_one : Result ℕ × Presence → Result Bool × Presence
is_one (ok n, s) = (ok (n == 1), s)
is_one (err e, s) = (err e, s)

-- Did the user come online?
unfoldable pub claim_presence : ℕ → ℕ → ℕ → Presence → Result Bool × Presence
claim_presence user_id connection ttl s =
    if leb user_id 0 || connection == 0 || leb ttl 0
    then (err driver, s)
    else is_one (claim_script connection (milliseconds ttl) s)

unfoldable pub renew_presence : ℕ → ℕ → Presence → Result Bool × Presence
renew_presence connection ttl s = is_one (renew_script connection (milliseconds ttl) s)

unfoldable pub release_presence : ℕ → Presence → Result Bool × Presence
release_presence connection s = is_one (release_script connection s)
