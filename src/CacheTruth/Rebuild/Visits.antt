-- ===== src/CacheTruth/Rebuild/Visits.antt =====
-- The visits of `Warm` to the owners of a walk, one after the other.
use yun_chat.Prelude.{ℕ, ◌+◌, ◌≡◌, Bool, true, false, ◌&&◌, List, [], ◌∷◌, arith, if◌then◌else◌}
use yun_chat.Sql.{Sql, pure}
use yun_chat.Ids.{has}
use yun_chat.Database.{CacheResource, friends, group_members, blacklist}
use yun_chat.CacheTruth.{Stores, Settings, reconcile_now}
use yun_chat.CacheTruth.Access.{reconcile_for_bulk_operation}
use yun_chat.CacheTruth.Rebuild.{
  CacheScope, CacheRebuildReport, has_friends, has_blacklists, rebuild_resource, rebuild_user,
  rebuild_users, rebuild_groups,
}
use yun_chat.CacheTruth.Rebuild.Repairs.{
  Repairs, both, none_covered, is_owner, pure-Repairs, Repairs-chain, Repairs-covers,
  reconcile_now-Repairs,
}

abbrev if_wanted : Bool → CacheResource → ℕ → CacheResource → ℕ → Bool
if_wanted wanted r i q j = wanted && is_owner r i q j

resource-Repairs :
    (o : Settings) (wanted : Bool) (r : CacheResource) (i : ℕ) (report : CacheRebuildReport)
    → Repairs (if_wanted wanted r i) (rebuild_resource o false wanted r i report)
unfolding rebuild_resource reconcile_for_bulk_operation
resource-Repairs o true r i report =
    let counted : CacheRebuildReport = record report { resources = report.resources + 1 } in
    Repairs-chain (is_owner r i) none_covered (is_owner r i) (reconcile_now o r i)
      (λ _. pure counted) (λ q j h. ground (arith, h)) (reconcile_now-Repairs o r i)
      (λ a. pure-Repairs counted)
resource-Repairs o false r i report = pure-Repairs report

-- The owners that a run covers.
abbrev pub covers_user : CacheScope → List ℕ → CacheResource → ℕ → Bool
covers_user scope users friends j = has_friends scope && has j users
covers_user scope users blacklist j = has_blacklists scope && has j users
covers_user scope users group_members j = false

abbrev pub covers_group : List ℕ → CacheResource → ℕ → Bool
covers_group groups friends j = false
covers_group groups blacklist j = false
covers_group groups group_members j = has j groups

user-Repairs :
    (o : Settings) (scope : CacheScope) (user : ℕ) (report : CacheRebuildReport)
    → Repairs (covers_user scope (user ∷ [])) (rebuild_user o false scope user report)
unfolding rebuild_user
user-Repairs o scope user report =
    let counted : CacheRebuildReport = record report { users = report.users + 1 } in
    Repairs-chain (if_wanted (has_friends scope) friends user)
      (if_wanted (has_blacklists scope) blacklist user) (covers_user scope (user ∷ []))
      (rebuild_resource o false (has_friends scope) friends user counted)
      (rebuild_resource o false (has_blacklists scope) blacklist user) cover
      (resource-Repairs o (has_friends scope) friends user counted)
      (resource-Repairs o (has_blacklists scope) blacklist user)
  where
    cover :
        (q : CacheResource) (j : ℕ)
        → covers_user scope (user ∷ []) q j ≡ true
        → both
            (if_wanted (has_friends scope) friends user)
            (if_wanted (has_blacklists scope) blacklist user)
            q
            j
          ≡ true
    cover friends j h = ground (arith, h)
    cover blacklist j h = ground (arith, h)
    cover group_members j h = absurd (cc)

pub users-Repairs :
    (o : Settings) (scope : CacheScope) (users : List ℕ) (report : CacheRebuildReport)
    → Repairs (covers_user scope users) (rebuild_users o false scope users report)
unfolding rebuild_users
users-Repairs o scope [] report =
    Repairs-covers none_covered (covers_user scope []) (pure report) nothing (pure-Repairs report)
  where
    nothing :
        (q : CacheResource) (j : ℕ) → covers_user scope [] q j ≡ true → none_covered q j ≡ true
    nothing friends j h = ground (arith, h)
    nothing blacklist j h = ground (arith, h)
    nothing group_members j h = h
users-Repairs o scope (user ∷ users) report =
    Repairs-chain (covers_user scope (user ∷ [])) (covers_user scope users)
      (covers_user scope (user ∷ users)) (rebuild_user o false scope user report)
      (rebuild_users o false scope users) cover (user-Repairs o scope user report)
      (users-Repairs o scope users)
  where
    cover :
        (q : CacheResource) (j : ℕ)
        → covers_user scope (user ∷ users) q j ≡ true
        → both (covers_user scope (user ∷ [])) (covers_user scope users) q j ≡ true
    cover friends j h = ground (arith, h)
    cover blacklist j h = ground (arith, h)
    cover group_members j h = h

pub groups-Repairs :
    (o : Settings) (groups : List ℕ) (report : CacheRebuildReport)
    → Repairs (covers_group groups) (rebuild_groups o false groups report)
unfolding rebuild_groups
groups-Repairs o [] report =
    Repairs-covers none_covered (covers_group []) (pure report) nothing (pure-Repairs report)
  where
    nothing : (q : CacheResource) (j : ℕ) → covers_group [] q j ≡ true → none_covered q j ≡ true
    nothing friends j h = h
    nothing blacklist j h = h
    nothing group_members j h = h
groups-Repairs o (group ∷ groups) report =
    let counted : CacheRebuildReport = record report { groups = report.groups + 1 } in
    Repairs-chain (if_wanted true group_members group) (covers_group groups)
      (covers_group (group ∷ groups)) (rebuild_resource o false true group_members group counted)
      (rebuild_groups o false groups) cover (resource-Repairs o true group_members group counted)
      (groups-Repairs o groups)
  where
    cover :
        (q : CacheResource) (j : ℕ)
        → covers_group (group ∷ groups) q j ≡ true
        → both (if_wanted true group_members group) (covers_group groups) q j ≡ true
    cover friends j h = absurd (cc)
    cover blacklist j h = absurd (cc)
    cover group_members j h = ground (arith, h)

-- Each half of a run, if the scope asks for it.
pub half-Repairs :
    (wanted : Bool) (p : CacheResource → ℕ → Bool) (m : Sql Stores CacheRebuildReport)
    (report : CacheRebuildReport)
    → Repairs p m
    → Repairs (λ q j. wanted && p q j) (if wanted then m else pure report)
half-Repairs true p m report h = h
half-Repairs false p m report h = pure-Repairs report
