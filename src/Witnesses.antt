-- ===== src/Witnesses.antt =====
-- Concrete inputs: two users, a request between them, a group, and one process that draws identifiers.
mod Services
mod Presences
mod Caches
mod Messaging
use yun_chat.Prelude.{not, ◌&&◌, ℕ, ◌≤◌, ◌+◌, ◌≡◌, refl, true, false, some, List, [], ◌∷◌}
use yun_chat.Sql.{Outcome, done, lost, Conn, quiet, within_transaction}
use yun_chat.Sql.Transactions.{IsAtomic, commit_answer, serial, within_transaction-IsAtomic}
use yun_chat.Model.{User}
use yun_chat.Text.{trim_space}
use yun_chat.Database.{Db, empty, has_edge, lock_users, find_user}
use yun_chat.Database.Friends.Tables.{count_pending}
use yun_chat.GroupService.{GroupOptions}
use yun_chat.GroupService.UseCases as Groups
use yun_chat.GroupService.UseCases.{perform-Keeps}
use yun_chat.GroupService.Consistency.{IsConsistent}
use yun_chat.GroupService.Footprint.{Local, perform-Local}
use yun_chat.GroupService.Callbacks.{create_callback}
use yun_chat.GroupService.Steadiness.{create_callback-Steady}
use yun_chat.FriendService
use yun_chat.FriendService.{FriendOptions}
use yun_chat.FriendService.UseCases as Friends
use yun_chat.FriendService.UseCases.{friend_perform-Keeps}
use yun_chat.FriendService.Orderly.{IsOrderly}
use yun_chat.FriendService.Consent.{Consented, perform-Consented, perform-Barred}
use yun_chat.FriendService.Callbacks
use yun_chat.FriendService.Moves.{has_block}
use yun_chat.Histories.{Reach, here, next, elsewhere, group_request, friend_request}
use yun_chat.Histories.Frames.{Reach-IsSound}
use yun_chat.CacheTruth.{Settings}
use yun_chat.MessageId.Generator.{max_id}
use yun_chat.MessageId.MysqlStore.{Allocator, reserve}
use yun_chat.MessageId.MysqlStore.Reservations.{Reserves, reserve-Reserves}
use yun_chat.MessageId.Fleet as Fleets
use yun_chat.MessageId.Fleet.Invariant.{Unique}
use yun_chat.MessageId.Fleet.Uniqueness.{InRange, installed, issued-Unique}

abbrev settings : Settings
settings = record { lock_ttl = 0; poll_interval = 1; polls = 0; token = λ n. n + 1 }

abbrev user : ℕ → User
user id = record { id = id; username = 0x61 ∷ []; avatar_url = [] }

abbrev fresh : Db
fresh = record {
  users = user 1 ∷ user 2 ∷ [];
  friendships = [];
  blacklist = [];
  requests = [];
  next_request_id = 1;
  groups = [];
  next_group_id = 1;
  members = [];
  next_member_id = 1;
  tombstones = [];
  events = [];
  clock = 7;
}

abbrev group_options : GroupOptions
group_options = record { has_cache = true; has_notifier = true }

abbrev friend_options : FriendOptions
friend_options = record { has_cache = true; has_notifier = true }

abbrev ask : Friends.Request
ask = Friends.send_request 1 2 [] 7

abbrev asked : Db
asked = (Friends.perform friend_options ask (quiet fresh)).1

abbrev open_group : Groups.Request
open_group = Groups.create 1 (0x61 ∷ []) []

abbrev grouped : Db
grouped = (Groups.perform group_options open_group (quiet asked)).1

fresh-Reach : Reach (empty 7) fresh
unfolding empty
fresh-Reach = next here (
    elsewhere (record { groups = refl; next_group_id = refl; members = refl; tombstones = refl })
      (record { friendships = refl; blacklist = refl; requests = refl; next_request_id = refl }))

asked-Reach : Reach (empty 7) asked
asked-Reach = next fresh-Reach (friend_request friend_options ask [] refl)

grouped-Reach : Reach (empty 7) grouped
grouped-Reach = next asked-Reach (group_request group_options open_group [] refl)

Reach-IsSound_example : IsConsistent grouped × IsOrderly grouped
Reach-IsSound_example = Reach-IsSound 7 grouped grouped-Reach

perform-Keeps_example :
    Groups.Keeps open_group asked (Groups.perform group_options open_group (quiet asked))
perform-Keeps_example = perform-Keeps group_options open_group (quiet asked)

friend_perform-Keeps_example :
    Friends.Keeps ask fresh (Friends.perform friend_options ask (quiet fresh))
friend_perform-Keeps_example = friend_perform-Keeps friend_options ask (quiet fresh)

perform-Local_example : Local asked grouped
perform-Local_example = perform-Local group_options open_group (quiet asked)

abbrev accept : Friends.Request
accept = Friends.accept_request 2 1

asked-IsOrderly : IsOrderly asked
asked-IsOrderly = (Reach-IsSound 7 asked asked-Reach).1

asked_strangers : has_edge 1 2 asked.friendships ≡ false
unfolding Friends.perform FriendService.send_request FriendService.normalize_friend_message
    FriendService.Callbacks.send_request_callback FriendService.Callbacks.statements
    within_transaction trim_space lock_users find_user
asked_strangers = refl

accepted_friends :
    has_edge 1 2 (Friends.perform friend_options accept (quiet asked)).1.friendships ≡ true
unfolding Friends.perform FriendService.send_request FriendService.normalize_friend_message
    FriendService.Callbacks.send_request_callback FriendService.Callbacks.statements
    within_transaction trim_space lock_users find_user FriendService.accept_request
    FriendService.accept_from FriendService.Callbacks.accept_request_callback
    FriendService.Callbacks.accept_locked FriendService.Callbacks.accept_by_status
    FriendService.Callbacks.accept_pending
accepted_friends = refl

perform-Consented_example : Consented asked 1 2
perform-Consented_example =
    perform-Consented friend_options accept (quiet asked) 1 2 asked-IsOrderly asked_strangers
      accepted_friends

abbrev bar : Friends.Request
bar = Friends.block 2 1

abbrev barred : Db
barred = (Friends.perform friend_options bar (quiet asked)).1

barred-IsOrderly : IsOrderly barred
barred-IsOrderly =
    (Reach-IsSound 7 barred (next asked-Reach (friend_request friend_options bar [] refl))).1

asked_then_barred : has_block barred 1 2 ≡ true
unfolding Friends.perform FriendService.send_request FriendService.normalize_friend_message
    FriendService.Callbacks.send_request_callback FriendService.Callbacks.statements
    within_transaction trim_space lock_users find_user FriendService.block
    FriendService.Callbacks.block_callback
asked_then_barred = refl

perform-Barred_example :
    (count_pending 1 2 (Friends.perform friend_options ask (quiet barred)).1.requests ≡ 0)
    × ((has_edge 1 2 (Friends.perform friend_options ask (quiet barred)).1.friendships
          && not (has_edge 1 2 barred.friendships))
        ≡ false)
perform-Barred_example =
    perform-Barred friend_options ask (quiet barred) 1 2 barred-IsOrderly asked_then_barred

-- The answer to the last COMMIT is lost.
abbrev outcomes : List Outcome
outcomes = done ∷ done ∷ done ∷ lost ∷ []

abbrev row : Conn Allocator
row = record { db = record { next_id = some 1 }; outcomes = outcomes }

reserve-Reserves_example : Reserves 100 row.db (reserve 100 row)
reserve-Reserves_example = reserve-Reserves 100 row

within_transaction-IsAtomic_example :
    IsAtomic
      (commit_answer (create_callback 1 (0x61 ∷ []) []) (record { db = asked; outcomes = outcomes })
        ≡ some lost)
      asked
      (within_transaction
        (create_callback 1 (0x61 ∷ []) [])
        (record { db = asked; outcomes = outcomes }))
      (serial (create_callback 1 (0x61 ∷ []) []) asked)
within_transaction-IsAtomic_example =
    within_transaction-IsAtomic (create_callback 1 (0x61 ∷ []) [])
      (create_callback-Steady 1 (0x61 ∷ []) []) (record { db = asked; outcomes = outcomes })

abbrev drawn : Fleets.Fleet
drawn = Fleets.after_call (installed 1) 0 (Fleets.call (installed 1) 0 false false [])

abbrev drawn_twice : Fleets.Fleet
drawn_twice = Fleets.after_call drawn 5 (Fleets.call drawn 5 false false outcomes)

issued-Unique_example : Unique drawn_twice.issued × InRange drawn_twice.issued
issued-Unique_example = issued-Unique 1 drawn_twice (
    Fleets.next (Fleets.next Fleets.here (Fleets.called 0 false false [] refl))
      (Fleets.called 5 false false outcomes refl))
