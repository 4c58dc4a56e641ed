-- ===== src/CacheTruth/Rebuild.antt =====
-- `Warm` and `Rebuild` of backend/internal/service/cache_truth.go. The identifiers of users and groups in MySQL
-- are two lists that stay as they are during a run, and the queries for the pages of a walk are one, before
-- its visits; a failed run returns its error here, without the report so far.
pub mod Repairs
pub mod Visits
pub mod Warm
use yun_chat.Prelude.{
  ℕ, ◌+◌, Bool, true, false, not, ◌||◌, Option, some, none, List, [], ◌∷◌, length, if◌then◌else◌,
}
use yun_chat.Sql.{Sql, invalid_rebuild_scope, pure, raise, query, ◌>>=◌}
use yun_chat.Database.{CacheResource, friends, group_members, blacklist}
use yun_chat.CacheTruth.{Stores, Settings}
use yun_chat.CacheTruth.Access.{reconcile_for_bulk_operation}
use yun_chat.CacheTruth.Paging.{for_each}

pub data CacheScope : Type 0 where
  scope_friends scope_blacklists scope_groups scope_all : CacheScope
  -- Any other text.
  scope_other : List ℕ → CacheScope

-- `Valid`
abbrev pub is_valid : CacheScope → Bool
is_valid scope_friends = true
is_valid scope_blacklists = true
is_valid scope_groups = true
is_valid scope_all = true
is_valid (scope_other _) = false

abbrev pub has_friends : CacheScope → Bool
has_friends scope_friends = true
has_friends scope_blacklists = false
has_friends scope_groups = false
has_friends scope_all = true
has_friends (scope_other _) = false

abbrev pub has_blacklists : CacheScope → Bool
has_blacklists scope_friends = false
has_blacklists scope_blacklists = true
has_blacklists scope_groups = false
has_blacklists scope_all = true
has_blacklists (scope_other _) = false

abbrev pub has_groups : CacheScope → Bool
has_groups scope_friends = false
has_groups scope_blacklists = false
has_groups scope_groups = true
has_groups scope_all = true
has_groups (scope_other _) = false

pub record CacheRebuildReport : Type 0 where
  pub scope : CacheScope
  pub users : ℕ
  pub groups : ℕ
  pub resources : ℕ

abbrev pub new_report : CacheScope → CacheRebuildReport
new_report scope = record { scope = scope; users = 0; groups = 0; resources = 0 }

-- One resource of one owner, if the scope asks for it.
unfoldable pub rebuild_resource :
    Settings → Bool → Bool → CacheResource → ℕ → CacheRebuildReport → Sql Stores CacheRebuildReport
unfolding reconcile_for_bulk_operation ◌>>=◌
rebuild_resource o strict wanted r i report =
    if wanted
    then (reconcile_for_bulk_operation o r i strict >>= λ _.
        pure (record report { resources = report.resources + 1 }))
    else pure report

unfoldable pub rebuild_user :
    Settings → Bool → CacheScope → ℕ → CacheRebuildReport → Sql Stores CacheRebuildReport
unfolding rebuild_resource ◌>>=◌
rebuild_user o strict scope user report =
    rebuild_resource o strict (has_friends scope) friends user
      (record report { users = report.users + 1 })
    >>= rebuild_resource o strict (has_blacklists scope) blacklist user

unfoldable pub rebuild_users :
    Settings → Bool → CacheScope → List ℕ → CacheRebuildReport → Sql Stores CacheRebuildReport
unfolding rebuild_user ◌>>=◌
rebuild_users o strict scope [] report = pure report
rebuild_users o strict scope (user ∷ users) report =
    rebuild_user o strict scope user report >>= rebuild_users o strict scope users

unfoldable pub rebuild_groups :
    Settings → Bool → List ℕ → CacheRebuildReport → Sql Stores CacheRebuildReport
unfolding rebuild_resource ◌>>=◌
rebuild_groups o strict [] report = pure report
rebuild_groups o strict (group ∷ groups) report =
    rebuild_resource o strict true group_members group
      (record report { groups = report.groups + 1 })
    >>= rebuild_groups o strict groups

-- The owners that a walk over the pages visits, with one round more than there are identifiers.
abbrev visited : Option (List ℕ) → List ℕ
visited none = []
visited (some ids) = ids

abbrev pub walked : ℕ → List ℕ → List ℕ
walked page_size ids = visited (for_each (length ids + 1) 0 page_size ids)

-- `forEachUser` with the part of the report that it fills.
unfoldable pub for_each_user :
    Settings → Bool → CacheScope → ℕ → List ℕ → CacheRebuildReport → Sql Stores CacheRebuildReport
unfolding rebuild_users query ◌>>=◌
for_each_user o strict scope page_size user_ids report =
    query (λ _. walked page_size user_ids) >>= λ users. rebuild_users o strict scope users report

unfoldable pub for_each_group :
    Settings → Bool → ℕ → List ℕ → CacheRebuildReport → Sql Stores CacheRebuildReport
unfolding rebuild_groups query ◌>>=◌
for_each_group o strict page_size group_ids report =
    query (λ _. walked page_size group_ids) >>= λ groups. rebuild_groups o strict groups report

-- The two walks.
unfoldable pub rebuild_owners :
    Settings → Bool → CacheScope → ℕ → List ℕ → List ℕ → Sql Stores CacheRebuildReport
unfolding for_each_user for_each_group ◌>>=◌
rebuild_owners o strict scope page_size user_ids group_ids =
    (if has_friends scope || has_blacklists scope
      then for_each_user o strict scope page_size user_ids (new_report scope)
      else pure (new_report scope))
    >>= λ report.
        if has_groups scope then for_each_group o strict page_size group_ids report else pure report

unfoldable pub rebuild :
    Settings → Bool → CacheScope → ℕ → List ℕ → List ℕ → Sql Stores CacheRebuildReport
unfolding rebuild_owners
rebuild o strict scope page_size user_ids group_ids =
    if not (is_valid scope)
    then raise invalid_rebuild_scope
    else rebuild_owners o strict scope page_size user_ids group_ids

unfoldable pub warm : Settings → CacheScope → ℕ → List ℕ → List ℕ → Sql Stores CacheRebuildReport
unfolding rebuild
warm o scope page_size user_ids group_ids = rebuild o false scope page_size user_ids group_ids
