-- ===== src/Histories.antt =====
-- Histories of the whole database: the requests of the group service and of the friend service, in any
-- interleaving of their transactions, between which the tables that neither owns may change.
pub mod Frames
use yun_chat.Prelude.{ℕ, ◌≡◌, List}
use yun_chat.Sql.{Outcome}
use yun_chat.Database.{Db, empty}
use yun_chat.GroupService.{GroupOptions}
use yun_chat.GroupService.UseCases as Groups
use yun_chat.GroupService.Histories.{SameGroupTables}
use yun_chat.FriendService.{FriendOptions}
use yun_chat.FriendService.UseCases as Friends
use yun_chat.FriendService.Histories.{SameFriendTables}

pub data Step (d : Db) (d' : Db) : Type 0 where
  group_request :
      (options : GroupOptions) (request : Groups.Request) (outcomes : List Outcome)
      → d' ≡ (Groups.perform options request (record { db = d; outcomes = outcomes })).1
      → Step d d'
  friend_request :
      (options : FriendOptions) (request : Friends.Request) (outcomes : List Outcome)
      → d' ≡ (Friends.perform options request (record { db = d; outcomes = outcomes })).1
      → Step d d'
  elsewhere : SameGroupTables d d' → SameFriendTables d d' → Step d d'

pub data Reach (d : Db) : Db → Type 0 where
  here : Reach d d
  next : {d' d'' : Db} → Reach d d' → Step d' d'' → Reach d d''
