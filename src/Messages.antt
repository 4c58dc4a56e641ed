-- ===== src/Messages.antt =====
-- backend/internal/redis/lua_private_msg.go and lua_group_msg.go: the scripts that admit a message, with the
-- methods of backend/internal/repository/redis_repository.go that run them.
--
-- Redis runs a script as one step. Its clock is in milliseconds, as the scripts round it. A client's
-- message identifier is a number here, as the scripts only put it into a key's name.
pub mod Deduplication
pub mod Sequences
pub mod Histories
use yun_chat.Prelude.{
  ℕ, ◌+◌, Bool, true, false, not, ◌&&◌, ◌||◌, Option, none, some, List, [], ◌∷◌, ◌==◌, leb, ltb,
  is_some, some_passes, drop_passing, if◌then◌else◌,
}
use yun_chat.Sql.{Failure, driver}
use yun_chat.Ids.{has}
use yun_chat.Projection.{Projection}
use yun_chat.Projection.Keys.{Entry, entry, holds, items, remove_owner}
use yun_chat.Projection.Infos.{Info, find_info}

-- The key `msg_dedup:{sender}:{client}` with the end of its time to live.
pub record Dedup : Type 0 where
  pub sender : ℕ
  pub client_msg_id : ℕ
  pub deadline : ℕ

pub record Runtime : Type 0 where
  pub cache : Projection
  pub dedup : List Dedup
  pub online : List ℕ
  pub now : ℕ

pub record PrivateReply : Type 0 where
  pub err_code : ℕ
  pub msg_id : ℕ
  pub timestamp : ℕ
  pub is_online : Bool
  pub is_friend : Bool
  pub is_blocked : Bool

pub record GroupReply : Type 0 where
  pub err_code : ℕ
  pub msg_id : ℕ
  pub group_seq : ℕ
  pub timestamp : ℕ
  pub is_member : Bool
  pub is_muted : Bool

-- What the methods of the repository return.
pub record PrivateMsgCheckResult : Type 0 where
  pub message_id : ℕ
  pub timestamp : ℕ

pub record GroupMsgCheckResult : Type 0 where
  pub message_id : ℕ
  pub group_seq : ℕ
  pub timestamp : ℕ

pub data Checked (A : Type 0) : Type 0 where
  admitted : A → Checked A
  -- `LuaRuleError` with the client's code.
  rule : ℕ → Checked A
  failed : Failure → Checked A

-- 2^53 - 1
abbrev pub max_safe_integer : ℕ
max_safe_integer = 9_007_199_254_740_991

abbrev pub is_message_id : ℕ → Bool
is_message_id id = leb 1 id && leb id max_safe_integer

abbrev pub is_live : ℕ → ℕ → ℕ → Dedup → Bool
is_live sender client now d =
    (d.sender == sender && d.client_msg_id == client) && ltb now d.deadline

abbrev pub is_duplicate : ℕ → ℕ → Runtime → Bool
is_duplicate sender client s = some_passes (is_live sender client s.now) s.dedup

-- SET NX EX 300 of a key that is free.
unfoldable pub remember : ℕ → ℕ → Runtime → Runtime
remember sender client s = record s {
  dedup =
      record { sender = sender; client_msg_id = client; deadline = s.now + 300_000 }
      ∷ drop_passing (λ d. d.sender == sender && d.client_msg_id == client) s.dedup;
}

abbrev private_error : ℕ → Bool → PrivateReply
private_error code blocked = record {
  err_code = code;
  msg_id = 0;
  timestamp = 0;
  is_online = false;
  is_friend = blocked;
  is_blocked = blocked;
}

-- `luaPrivateMsgCheck`; no reply is an error reply.
unfoldable pub private_msg_check : ℕ → ℕ → ℕ → ℕ → Runtime → Option PrivateReply × Runtime
unfolding remember
private_msg_check sender receiver client id s =
    if not (is_message_id id)
    then (none, s)
    else if not (holds sender receiver s.cache.friend && holds receiver sender s.cache.friend)
    then (some (private_error 1 false), s)
    else if holds receiver sender s.cache.blacklist || holds sender receiver s.cache.blacklist
    then (some (private_error 2 true), s)
    else if is_duplicate sender client s
    then (some (private_error 3 false), s)
    else (
      some (record {
        err_code = 0;
        msg_id = id;
        timestamp = s.now;
        is_online = has receiver s.online;
        is_friend = true;
        is_blocked = false;
      }),
      remember sender client s,
    )

-- `MapLuaErrToClientCode`
unfoldable pub map_lua_err_to_client_code : ℕ → ℕ
map_lua_err_to_client_code code =
    if code == 1 then 4001 else if code == 2 then 4002 else if code == 3 then 4003 else code

-- `MapGroupLuaErrToClientCode`
unfoldable pub map_group_lua_err_to_client_code : ℕ → ℕ
map_group_lua_err_to_client_code code =
    if code == 1 then 5001 else if code == 2 then 5002 else if code == 3 then 5003 else code

unfoldable pub private_result : Option PrivateReply → Checked PrivateMsgCheckResult
unfolding map_lua_err_to_client_code
private_result none = failed driver
private_result (some reply) =
    if reply.err_code == 0
    then admitted (record { message_id = reply.msg_id; timestamp = reply.timestamp })
    else rule (map_lua_err_to_client_code reply.err_code)

-- `ExecPrivateMsgCheck` with the answer of the identifier generator; an error of the Redis client,
-- after which the script may have run, is left out.
unfoldable pub exec_private_msg_check :
    Option ℕ → ℕ → ℕ → ℕ → Runtime → Checked PrivateMsgCheckResult × Runtime
unfolding private_msg_check private_result
exec_private_msg_check none sender receiver client s = (failed driver, s)
exec_private_msg_check (some id) sender receiver client s =
    let (reply, s') = private_msg_check sender receiver client id s in (private_result reply, s')

abbrev group_error : ℕ → Bool → GroupReply
group_error code muted = record {
  err_code = code;
  msg_id = 0;
  group_seq = 0;
  timestamp = 0;
  is_member = muted;
  is_muted = muted;
}

-- The number under the key, 0 without it.
abbrev pub seq_of : List ℕ → ℕ
seq_of [] = 0
seq_of (n ∷ _) = n

abbrev pub group_seq : ℕ → Runtime → ℕ
group_seq group s = seq_of (items group s.cache.group_seq)

-- INCR of `group_seq:{group}`.
unfoldable pub increment_seq : ℕ → Runtime → Runtime
increment_seq group s = record s {
  cache = record s.cache {
    group_seq = entry group (group_seq group s + 1) ∷ remove_owner group s.cache.group_seq;
  };
}

-- Is the member muted now? The value is a deadline, so that the mute ends by itself.
abbrev pub is_muted : ℕ → Info → Bool
is_muted now info = ltb now info.member.muted_until

unfoldable pub admit_group_message : ℕ → ℕ → ℕ → ℕ → Runtime → Option GroupReply × Runtime
unfolding remember increment_seq
admit_group_message group sender client id s =
    if is_duplicate sender client s then (some (group_error 3 false), s) else (
      some (record {
        err_code = 0;
        msg_id = id;
        group_seq = group_seq group s + 1;
        timestamp = s.now;
        is_member = true;
        is_muted = false;
      }),
      increment_seq group (remember sender client s),
    )

-- `luaGroupMsgCheck`, for caches written in the present format.
unfoldable pub group_msg_check : ℕ → ℕ → ℕ → ℕ → Runtime → Option GroupReply × Runtime
unfolding admit_group_message
group_msg_check group sender client id s =
    if not (is_message_id id)
    then (none, s)
    else if not (holds group sender s.cache.group_members)
    then (some (group_error 1 false), s)
    else elim (find_info group sender s.cache.group_member_info) [
      | none ↦ (some (group_error 1 false), s)
      | some info ↦
          if is_muted s.now info
          then (some (group_error 2 true), s)
          else admit_group_message group sender client id s
    ]

unfoldable pub group_result : Option GroupReply → Checked GroupMsgCheckResult
unfolding map_group_lua_err_to_client_code
group_result none = failed driver
group_result (some reply) =
    if reply.err_code == 0
    then admitted (record {
      message_id = reply.msg_id;
      group_seq = reply.group_seq;
      timestamp = reply.timestamp;
    })
    else rule (map_group_lua_err_to_client_code reply.err_code)

-- `ExecGroupMsgCheck`
unfoldable pub exec_group_msg_check :
    Option ℕ → ℕ → ℕ → ℕ → Runtime → Checked GroupMsgCheckResult × Runtime
unfolding group_msg_check group_result
exec_group_msg_check none group sender client s = (failed driver, s)
exec_group_msg_check (some id) group sender client s =
    let (reply, s') = group_msg_check group sender client id s in (group_result reply, s')
