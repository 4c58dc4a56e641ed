-- ===== src/GroupService/Histories.antt =====
-- Histories of the group tables: requests, one transaction after the other in the order of the row locks,
-- between which other parts of the program change the other tables.
use yun_chat.Prelude.{ℕ, ◌≡◌, refl, List, arith}
use yun_chat.Sql.{Outcome}
use yun_chat.Database.{Db, empty}
use yun_chat.Database.Rows.{find_group, find_member}
use yun_chat.GroupService.{GroupOptions}
use yun_chat.GroupService.UseCases.{Request, perform, perform-Move}
use yun_chat.GroupService.Consistency.{IsConsistent}
use yun_chat.GroupService.Consistency.Steps.{Move-IsConsistent}

pub record SameGroupTables (d d' : Db) : Type 0 where
  pub groups : d'.groups ≡ d.groups
  pub next_group_id : d'.next_group_id ≡ d.next_group_id
  pub members : d'.members ≡ d.members
  pub tombstones : d'.tombstones ≡ d.tombstones

pub data Step (d : Db) (d' : Db) : Type 0 where
  served :
      (options : GroupOptions) (request : Request) (outcomes : List Outcome)
      → d' ≡ (perform options request (record { db = d; outcomes = outcomes })).1
      → Step d d'
  elsewhere : SameGroupTables d d' → Step d d'

pub data Reach (d : Db) : Db → Type 0 where
  here : Reach d d
  next : {d' d'' : Db} → Reach d d' → Step d' d'' → Reach d d''

empty-IsConsistent : (now : ℕ) → IsConsistent (empty now)
unfolding empty find_group find_member
empty-IsConsistent now = record {
  owner_is_member = λ g row e. cc;
  only_owner = λ g u row e r. cc;
  members_live = λ g u e. refl;
  capacity = λ g row e. absurd (cc);
  dissolved = λ g e. refl;
  unused = λ g e. (refl, refl);
  numbered = omega arith;
}

Step-IsConsistent : (d d' : Db) → Step d d' → IsConsistent d → IsConsistent d'
Step-IsConsistent d d' (served options request outcomes e) v = rw e (
    Move-IsConsistent d _ (perform-Move options request (record { db = d; outcomes = outcomes })) v)
Step-IsConsistent d d' (elsewhere s) v = record {
  owner_is_member =
      λ g row e. ground (arith, s.groups, s.members, v.owner_is_member g row (rw s.groups at e));
  only_owner = λ g u row e r.
      ground (arith, s.members, v.only_owner g u row (rw s.groups at e) (rw s.members at r));
  members_live = λ g u e. rw s.members (v.members_live g u (rw s.groups at e));
  capacity = λ g row e. rw s.members (v.capacity g row (rw s.groups at e));
  dissolved = λ g e. rw s.groups (v.dissolved g (rw s.tombstones at e));
  unused = λ g e. rw (s.groups, s.tombstones) (v.unused g (rw s.next_group_id at e));
  numbered = rw s.next_group_id v.numbered;
}

-- From a new installation, every history of requests, whatever the driver answers to each of them, leaves
-- the group tables consistent.
pub Reach-IsConsistent : (now : ℕ) (d : Db) → Reach (empty now) d → IsConsistent d
Reach-IsConsistent now d here = empty-IsConsistent now
Reach-IsConsistent now d (next r s) = Step-IsConsistent _ d s (Reach-IsConsistent now _ r)
