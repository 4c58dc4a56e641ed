-- ===== src/GroupService/Requests.antt =====
-- The requests to the group service, and who makes which move by which of them.
use yun_chat.Prelude.{ℕ, ◌≡◌, Option}
use yun_chat.Model.{Text}
use yun_chat.Database.{Db}
use yun_chat.Service.{valid}
use yun_chat.GroupService.Profile.{normalize_group_profile, normalize_group_mute_deadline}
use yun_chat.GroupService.Moves.{
  Move, stays, created, joined, removed, promoted, muted, transferred, left, dissolved, renamed,
}

-- A call of the service, with the clock readings that it makes.
pub data Request : Type 0 where
  create : ℕ → Text → Text → Request
  add_member remove_member : ℕ → ℕ → ℕ → Request
  update_role : ℕ → ℕ → ℕ → ℕ → Request
  mute_member : ℕ → ℕ → ℕ → Option ℕ → ℕ → ℕ → Request
  transfer_ownership : ℕ → ℕ → ℕ → Request
  leave disband get : ℕ → ℕ → Request
  update : ℕ → ℕ → Text → Text → Request

-- The request is the one for the move, and its caller is the operator of the move.
abbrev pub By : Request → {d d' : Db} → Move d d' → Type 0
By request (stays _) = Unit {0}
By request (created owner name notice _ _) =
    (raw_name : Text) × (raw_notice : Text) × (request ≡ create owner raw_name raw_notice)
    × (normalize_group_profile raw_name raw_notice ≡ valid (name, notice))
By request (joined g op u _ _ _ _ _ _ _ _) = request ≡ add_member g op u
By request (removed g op u _ _ _ _ _) = request ≡ remove_member g op u
By request (promoted g op u role _ _ _ _ _ _) = request ≡ update_role g op u role
By request (muted g op u deadline _ _ _ _ _) =
    (raw : Option ℕ) × (now : ℕ) × (later : ℕ) × (request ≡ mute_member g op u raw now later)
    × (normalize_group_mute_deadline raw now ≡ valid deadline)
By request (transferred g op u _ _ _ _ _ _ _) = request ≡ transfer_ownership g op u
By request (left g u _ _ _ _ _) = request ≡ leave g u
By request (dissolved g op _ _ _ _) = request ≡ disband g op
By request (renamed g op name notice _ _ _ _) =
    (raw_name : Text) × (raw_notice : Text) × (request ≡ update op g raw_name raw_notice)
    × (normalize_group_profile raw_name raw_notice ≡ valid (name, notice))

-- A move that the request stands for, or no change.
pub record Performs (request : Request) (d d' : Db) : Type 0 where
  pub move : Move d d'
  pub by : By request move

pub still : {request : Request} {d d' : Db} → d' ≡ d → Performs request d d'
still e = record { move = stays e; by = tt }

pub via :
    {request : Request} {d d' : Db} (move : Move d d') → By request move → Performs request d d'
via move by = record { move = move; by = by }
