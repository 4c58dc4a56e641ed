-- ===== src/GroupService/UseCases.antt =====
-- The use cases of group.go under any answers of the driver, and histories of them.
use yun_chat.Prelude.{
  ℕ, ◌≡◌, refl, inr, true, false, not, ◌&&◌, ◌||◌, Option, List, arith, ◌==◌, leb, on_test,
}
use yun_chat.AppError.{Code, internal_failure, invalid_param}
use yun_chat.Sql.{Outcome, driver, Result, ok, err, Conn}
use yun_chat.Model.{Text, Group, role_member, role_admin}
use yun_chat.Database.{Db}
use yun_chat.Sql.Reads.{Reads, Reads-query, reads_rules}
use yun_chat.Database.Groups.{get_group_members, get_group_for_update, get_group_member_for_update}
use yun_chat.Service.{respond, reject, outcome}
use yun_chat.Service.Settles.{
  Settles, Harmless, transaction-Settles, if-Settles, if_action-Settles, with_valid-Settles,
}
use yun_chat.GroupService
use yun_chat.GroupService.{
  GroupOptions, add_member_error, group_service_error, GroupEvent, get_reads,
  notify_current_group_members,
}
use yun_chat.GroupService.Profile.{normalize_group_profile, normalize_group_mute_deadline}
use yun_chat.GroupService.Moves.{Move}
pub use yun_chat.GroupService.Requests.{
  Request, create, add_member, remove_member, update_role, mute_member, transfer_ownership, leave,
  disband, get, update,
}
use yun_chat.GroupService.Requests.{Performs, still}
use yun_chat.GroupService.Refinement.{
  create-Move, add_member-Move, remove_member-Move, update_role-Move, mute_member-Move,
  transfer_ownership-Move, leave-Move, disband-Move, update-Move,
}
use yun_chat.GroupService.Steadiness.{
  create_callback-Steady, add_member_callback-Steady, remove_member_callback-Steady,
  update_role_callback-Steady, mute_member_callback-Steady, transfer_ownership_callback-Steady,
  leave_callback-Steady, disband_callback-Steady, update_callback-Steady,
}

-- The error code of a request, if it fails, and the database that it leaves.
unfoldable pub perform : GroupOptions → Request → Conn Db → Option Code × Db
perform options (create owner name notice) c =
    outcome (GroupService.create options owner name notice c)
perform options (add_member g op u) c = outcome (GroupService.add_member options g op u c)
perform options (remove_member g op u) c = outcome (GroupService.remove_member options g op u c)
perform options (update_role g op u role) c =
    outcome (GroupService.update_role options g op u role c)
perform options (mute_member g op u t now later) c =
    outcome (GroupService.mute_member options g op u t now later c)
perform options (transfer_ownership g op u) c =
    outcome (GroupService.transfer_ownership options g op u c)
perform options (leave g u) c = outcome (GroupService.leave options g u c)
perform options (disband g op) c = outcome (GroupService.disband options g op c)
perform options (get u g) c = outcome (GroupService.get u g c)
perform options (update op g name notice) c = outcome (GroupService.update op g name notice c)

-- What a request may do: its own move by its caller, and none if it fails with a code of its own.
abbrev pub Keeps : Request → Db → Option Code × Db → Type 0
Keeps request = Settles (Performs request)

reports : group_service_error driver ≡ internal_failure
unfolding group_service_error
reports = refl

reports_adding : add_member_error driver ≡ internal_failure
unfolding add_member_error group_service_error
reports_adding = refl

get_reads-Reads : (u g : ℕ) → Reads (get_reads u g)
unfolding get_reads get_group_for_update get_group_member_for_update
get_reads-Reads u g = search reads_rules depth 12

-- Reading the members for the hints changes nothing.
get_group_members-Reads : (g : ℕ) → Reads (get_group_members g)
unfolding get_group_members
get_group_members-Reads g = Reads-query _

db-notify :
    (options : GroupOptions) (event : GroupEvent) (g : ℕ) (fallback : List ℕ) (c : Conn Db)
    → (notify_current_group_members options event g fallback c).0.db ≡ c.db
unfolding notify_current_group_members
db-notify options event g fallback c =
    on_test options.has_notifier (λ e. simp e) (λ e. simp e ((get_group_members-Reads g).same c))

module _ (options : GroupOptions) (d : Db) (outcomes : List Outcome) where
  abbrev conn : Conn Db
  conn = record { db = d; outcomes = outcomes }

  add_member-Keeps :
      (g op u : ℕ) → Keeps (add_member g op u) d (perform options (add_member g op u) conn)
  unfolding perform GroupService.add_member
  add_member-Keeps g op u =
      if-Settles (Performs (add_member g op u)) (λ _ _ e. still e) d
        (leb g 0 || leb op 0 || leb u 0) _ _ (still refl, inr refl)
        λ positive.
          transaction-Settles (Performs (add_member g op u)) (λ _ _ e. still e) d add_member_error
            reports_adding (GroupService.refreshed options g) (λ _ c. (refl, refl)) _ outcomes
            (add_member_callback-Steady g op u) (add_member-Move d g op u)

  remove_member-Keeps :
      (g op u : ℕ) → Keeps (remove_member g op u) d (perform options (remove_member g op u) conn)
  unfolding perform GroupService.remove_member
  remove_member-Keeps g op u =
      if-Settles (Performs (remove_member g op u)) (λ _ _ e. still e) d
        (leb g 0 || leb op 0 || leb u 0) _ _ (still refl, inr refl)
        λ positive.
          transaction-Settles (Performs (remove_member g op u)) (λ _ _ e. still e) d
            group_service_error reports (GroupService.refreshed options g) (λ _ c. (refl, refl)) _
            outcomes (remove_member_callback-Steady g op u) (remove_member-Move d g op u)

  update_role-Keeps :
      (g op u role : ℕ)
      → Keeps (update_role g op u role) d (perform options (update_role g op u role) conn)
  unfolding perform GroupService.update_role
  update_role-Keeps g op u role =
      if-Settles (Performs (update_role g op u role)) (λ _ _ e. still e) d
        (leb g 0 || leb op 0 || leb u 0) _ _ (still refl, inr refl)
        λ positive.
          if-Settles (Performs (update_role g op u role)) (λ _ _ e. still e) d
            (not (role == role_member) && not (role == role_admin)) _ _ (still refl, inr refl)
            λ ordinary.
              transaction-Settles (Performs (update_role g op u role)) (λ _ _ e. still e) d
                group_service_error reports (GroupService.refreshed_if_changed options g)
                (λ changed c. (refl, refl)) _ outcomes (update_role_callback-Steady g op u role)
                (update_role-Move d g op u role (ground arith))

  mute_member-Keeps :
      (g op u : ℕ) (t : Option ℕ) (now later : ℕ)
      → Keeps
          (mute_member g op u t now later)
          d
          (perform options (mute_member g op u t now later) conn)
  unfolding perform GroupService.mute_member
  mute_member-Keeps g op u t now later =
      if_action-Settles (Performs (mute_member g op u t now later)) (λ _ _ e. still e) d
        (leb g 0 || leb op 0 || leb u 0) (reject invalid_param) _ conn (still refl, inr refl)
        (λ positive.
          with_valid-Settles (Performs (mute_member g op u t now later)) (λ _ _ e. still e) d
            (normalize_group_mute_deadline t now) (GroupService.mute_valid options g op u later)
            conn refl
            λ deadline normal.
              transaction-Settles (Performs (mute_member g op u t now later)) (λ _ _ e. still e) d
                group_service_error reports (GroupService.refreshed_if_changed options g)
                (λ changed c. (refl, refl)) _ outcomes
                (mute_member_callback-Steady g op u deadline later)
                (mute_member-Move d g op u t now later deadline normal))

  create-Keeps :
      (owner : ℕ) (name notice : Text)
      → Keeps (create owner name notice) d (perform options (create owner name notice) conn)
  unfolding perform GroupService.create
  create-Keeps owner name notice =
      if_action-Settles (Performs (create owner name notice)) (λ _ _ e. still e) d (leb owner 0)
        (reject invalid_param) _ conn (still refl, inr refl)
        (λ positive.
          with_valid-Settles (Performs (create owner name notice)) (λ _ _ e. still e) d
            (normalize_group_profile name notice) (GroupService.create_valid options owner) conn
            refl
            λ (n, t) normal.
              transaction-Settles (Performs (create owner name notice)) (λ _ _ e. still e) d
                group_service_error reports (GroupService.named options) (λ _ c. (refl, refl)) _
                outcomes (create_callback-Steady owner n t)
                (create-Move d owner name notice n t normal))

  update-Keeps :
      (op g : ℕ) (name notice : Text)
      → Keeps (update op g name notice) d (perform options (update op g name notice) conn)
  unfolding perform GroupService.update
  update-Keeps op g name notice =
      if_action-Settles (Performs (update op g name notice)) (λ _ _ e. still e) d
        (leb op 0 || leb g 0) (reject invalid_param) _ conn (still refl, inr refl)
        (λ positive.
          with_valid-Settles (Performs (update op g name notice)) (λ _ _ e. still e) d
            (normalize_group_profile name notice) (GroupService.update_valid op g) conn refl
            λ (n, t) normal.
              transaction-Settles (Performs (update op g name notice)) (λ _ _ e. still e) d
                group_service_error reports GroupService.silent (λ _ c. (refl, refl)) _ outcomes
                (update_callback-Steady op g n t) (update-Move d g op name notice n t normal))

  transfer_ownership-Keeps :
      (g op u : ℕ)
      → Keeps (transfer_ownership g op u) d (perform options (transfer_ownership g op u) conn)
  unfolding perform GroupService.transfer_ownership
  transfer_ownership-Keeps g op u =
      if-Settles (Performs (transfer_ownership g op u)) (λ _ _ e. still e) d
        (leb g 0 || leb op 0 || leb u 0) _ _ (still refl, inr refl)
        λ positive.
          if-Settles (Performs (transfer_ownership g op u)) (λ _ _ e. still e) d (op == u) _ _
            (still refl, inr refl)
            λ differ.
              transaction-Settles (Performs (transfer_ownership g op u)) (λ _ _ e. still e) d
                group_service_error reports (GroupService.owner_moved options g op u)
                (λ _ c. (refl, db-notify options _ g _ c)) _ outcomes
                (transfer_ownership_callback-Steady g op u)
                (transfer_ownership-Move d g op u (ground arith))

  leave-Keeps : (g u : ℕ) → Keeps (leave g u) d (perform options (leave g u) conn)
  unfolding perform GroupService.leave
  leave-Keeps g u =
      if-Settles (Performs (leave g u)) (λ _ _ e. still e) d (leb g 0 || leb u 0) _ _
        (still refl, inr refl)
        λ positive.
          transaction-Settles (Performs (leave g u)) (λ _ _ e. still e) d group_service_error
            reports (GroupService.member_gone options g u)
            (λ _ c. (refl, db-notify options _ g _ c)) _ outcomes (leave_callback-Steady g u)
            (leave-Move d g u)

  group_gone-Harmless : (g : ℕ) → Harmless (GroupService.group_gone options g)
  group_gone-Harmless g (true, us) c = (refl, refl)
  group_gone-Harmless g (false, us) c = (refl, refl)

  disband-Keeps : (g op : ℕ) → Keeps (disband g op) d (perform options (disband g op) conn)
  unfolding perform GroupService.disband
  disband-Keeps g op =
      if-Settles (Performs (disband g op)) (λ _ _ e. still e) d (leb g 0 || leb op 0) _ _
        (still refl, inr refl)
        λ positive.
          transaction-Settles (Performs (disband g op)) (λ _ _ e. still e) d group_service_error
            reports (GroupService.group_gone options g) (group_gone-Harmless g) _ outcomes
            (disband_callback-Steady g op) (disband-Move d g op)

  answered-Keeps :
      (request : Request) (r : Result Group × Conn Db)
      → r.1.db ≡ d
      → Keeps request d (outcome (respond group_service_error GroupService.found r))
  answered-Keeps request (ok group, c) e = (still e, inr e)
  answered-Keeps request (err x, c) e = (still e, inr e)

  get-Keeps : (u g : ℕ) → Keeps (get u g) d (perform options (get u g) conn)
  unfolding perform GroupService.get
  get-Keeps u g =
      if-Settles (Performs (get u g)) (λ _ _ e. still e) d (leb u 0 || leb g 0) _ _
        (still refl, inr refl)
        λ positive. answered-Keeps (get u g) (get_reads u g conn) ((get_reads-Reads u g).same conn)

-- Every use case, whatever the driver answers: it makes the one move that the request stands for, with
-- the request's group, caller and target (and the normalised texts or deadline) and under the authority
-- that the move asks of the caller, or it leaves the database as it was; and if it fails with a code
-- other than internal_failure, it leaves the database as it was.
pub perform-Keeps :
    (options : GroupOptions) (request : Request) (c : Conn Db)
    → Keeps request c.db (perform options request c)
perform-Keeps options (create owner name notice) c =
    create-Keeps options c.db c.outcomes owner name notice
perform-Keeps options (add_member g op u) c = add_member-Keeps options c.db c.outcomes g op u
perform-Keeps options (remove_member g op u) c = remove_member-Keeps options c.db c.outcomes g op u
perform-Keeps options (update_role g op u role) c =
    update_role-Keeps options c.db c.outcomes g op u role
perform-Keeps options (mute_member g op u t now later) c =
    mute_member-Keeps options c.db c.outcomes g op u t now later
perform-Keeps options (transfer_ownership g op u) c =
    transfer_ownership-Keeps options c.db c.outcomes g op u
perform-Keeps options (leave g u) c = leave-Keeps options c.db c.outcomes g u
perform-Keeps options (disband g op) c = disband-Keeps options c.db c.outcomes g op
perform-Keeps options (get u g) c = get-Keeps options c.db c.outcomes u g
perform-Keeps options (update op g name notice) c =
    update-Keeps options c.db c.outcomes op g name notice

-- The move alone.
pub perform-Move :
    (options : GroupOptions) (request : Request) (c : Conn Db)
    → Move c.db (perform options request c).1
perform-Move options request c = (perform-Keeps options request c).0.move
