-- ===== src/CacheTruth/Rebuild/Warm.antt =====
-- `Warm` over stale keys.
use yun_chat.Prelude.{
  ℕ, ◌≡◌, refl, ◌<◌, ◌≤◌, on_test, Bool, true, false, ◌&&◌, ◌||◌, List, [], ◌∷◌, arith,
  if◌then◌else◌,
}
use yun_chat.Sql.{
  Failure, ok, err, Conn, Sql, Outcome, done, refused, lost, quiet, pure, query, ◌>>=◌,
}
use yun_chat.Ids.Sorting.{Above, IsAscending}
use yun_chat.CacheTruth.Paging.{for_each-visits-all}
use yun_chat.Ids.{has}
use yun_chat.Database.{CacheResource, friends, group_members, blacklist, same_resource}
use yun_chat.Projection.Friendships.{IsIndexed}
use yun_chat.CacheTruth.{Stores, Settings}
use yun_chat.CacheTruth.Freshness.{Shows}
use yun_chat.CacheTruth.Rebuild.{
  CacheScope, scope_friends, scope_blacklists, scope_groups, scope_all, scope_other,
  CacheRebuildReport, has_friends, has_blacklists, has_groups, new_report, is_valid, walked,
  for_each_user, for_each_group, rebuild_owners, rebuild, warm,
}
use yun_chat.CacheTruth.Rebuild.Repairs.{IsRepaired, Repairs, both, Repairs-chain}
use yun_chat.CacheTruth.Rebuild.Visits.{
  covers_user, covers_group, users-Repairs, groups-Repairs, half-Repairs,
}

-- The resources that a scope is for.
abbrev pub is_for : CacheScope → CacheResource → Bool
is_for scope_all r = true
is_for scope_friends r = same_resource friends r
is_for scope_blacklists r = same_resource blacklist r
is_for scope_groups r = same_resource group_members r
is_for (scope_other _) r = false

is_for-friends : (scope : CacheScope) → is_for scope friends ≡ has_friends scope
is_for-friends scope_all = refl
is_for-friends scope_friends = refl
is_for-friends scope_blacklists = refl
is_for-friends scope_groups = refl
is_for-friends (scope_other _) = refl

is_for-blacklist : (scope : CacheScope) → is_for scope blacklist ≡ has_blacklists scope
is_for-blacklist scope_all = refl
is_for-blacklist scope_friends = refl
is_for-blacklist scope_blacklists = refl
is_for-blacklist scope_groups = refl
is_for-blacklist (scope_other _) = refl

is_for-group_members : (scope : CacheScope) → is_for scope group_members ≡ has_groups scope
is_for-group_members scope_all = refl
is_for-group_members scope_friends = refl
is_for-group_members scope_blacklists = refl
is_for-group_members scope_groups = refl
is_for-group_members (scope_other _) = refl

abbrev owners_of : CacheResource → List ℕ → List ℕ → List ℕ
owners_of friends users groups = users
owners_of blacklist users groups = users
owners_of group_members users groups = groups

abbrev pub is_covered : CacheScope → List ℕ → List ℕ → CacheResource → ℕ → Bool
is_covered scope users groups r j = is_for scope r && has j (owners_of r users groups)

-- A call that fails and changes nothing.
unanswered :
    {A : Type 0} {e : Failure} (p : CacheResource → ℕ → Bool) (s : Stores)
    → IsIndexed s.cache
    → IsRepaired {A = A} p (err e) s s
unanswered p s v = record {
  same_tables = refl;
  indexed = v;
  keeps = λ q j h. h;
  repaired = λ q j a e covered. absurd (cc);
}

-- A query whose answer is known, and what is done with it.
asked-Repairs :
    {A B : Type 0} (p : CacheResource → ℕ → Bool) (a : A) (f : A → Sql Stores B)
    → Repairs p (f a)
    → Repairs p (query (λ _. a) >>= f)
unfolding query ◌>>=◌
asked-Repairs p a f h c v = after_answer c.db c.outcomes v
  where
    after_answer :
        (s : Stores) (outcomes : List Outcome)
        → IsIndexed s.cache
        → (let c' : Conn Stores = record { db = s; outcomes = outcomes } in
            IsRepaired p ((query (λ _. a) >>= f) c').0 s ((query (λ _. a) >>= f) c').1.db)
    after_answer s [] w = h (quiet s) w
    after_answer s (done ∷ rest) w = h (record { db = s; outcomes = rest }) w
    after_answer s (refused ∷ rest) w = unanswered p s w
    after_answer s (lost ∷ rest) w = unanswered p s w

owners-Repairs :
    (o : Settings) (scope : CacheScope) (page_size : ℕ) (user_ids group_ids : List ℕ)
    → Repairs
        (is_covered scope (walked page_size user_ids) (walked page_size group_ids))
        (rebuild_owners o false scope page_size user_ids group_ids)
unfolding rebuild_owners for_each_user for_each_group
owners-Repairs o scope page_size user_ids group_ids =
    let users = walked page_size user_ids in
    let groups = walked page_size group_ids in
    Repairs-chain
      (λ q j. (has_friends scope || has_blacklists scope) && covers_user scope users q j)
      (λ q j. has_groups scope && covers_group groups q j) (is_covered scope users groups)
      (if has_friends scope || has_blacklists scope
        then for_each_user o false scope page_size user_ids (new_report scope)
        else pure (new_report scope))
      (λ report.
        if has_groups scope then for_each_group o false page_size group_ids report else pure report)
      cover
      (half-Repairs (has_friends scope || has_blacklists scope) (covers_user scope users) _
        (new_report scope)
        (asked-Repairs _ users _ (users-Repairs o scope users (new_report scope))))
      (λ report.
        half-Repairs (has_groups scope) (covers_group groups) _ report
          (asked-Repairs _ groups _ (groups-Repairs o groups report)))
  where
    cover :
        (q : CacheResource) (j : ℕ)
        → is_covered scope (walked page_size user_ids) (walked page_size group_ids) q j ≡ true
        → both
            (λ r i.
              (has_friends scope || has_blacklists scope)
              && covers_user scope (walked page_size user_ids) r i)
            (λ r i. has_groups scope && covers_group (walked page_size group_ids) r i)
            q
            j
          ≡ true
    cover friends j h = ground (arith, h, is_for-friends scope)
    cover blacklist j h = ground (arith, h, is_for-blacklist scope)
    cover group_members j h = ground (arith, h, is_for-group_members scope)

warm-Repairs :
    (o : Settings) (scope : CacheScope) (page_size : ℕ) (user_ids group_ids : List ℕ)
    → Repairs
        (is_covered scope (walked page_size user_ids) (walked page_size group_ids))
        (warm o scope page_size user_ids group_ids)
unfolding warm rebuild
warm-Repairs o scope page_size user_ids group_ids =
    on_test (is_valid scope) (λ invalid. rw invalid (λ c v. unanswered _ c.db v))
      (λ valid. rw valid (owners-Repairs o scope page_size user_ids group_ids))

walked-all :
    (page_size : ℕ) (ids : List ℕ)
    → IsAscending ids
    → Above 0 ids
    → 0 < page_size
    → page_size ≤ 5000
    → walked page_size ids ≡ ids
walked-all page_size ids s p h k = rw (for_each-visits-all page_size ids s p h k) refl

-- Whatever stale keys Redis holds, as long as the index of a user's friends names them all: if Warm succeeds
-- with a page size from 1 to 5000, then the tables are as before, and for every user
-- and group of MySQL that its scope covers, Redis shows the owner's rows in MySQL or the owner's marker
-- is missing, so that the keys are not read.
pub warm-refreshes :
    (o : Settings) (scope : CacheScope) (page_size : ℕ) (user_ids group_ids : List ℕ)
    (c : Conn Stores) (report : CacheRebuildReport) (r : CacheResource) (i : ℕ)
    → IsAscending user_ids
    → Above 0 user_ids
    → IsAscending group_ids
    → Above 0 group_ids
    → 0 < page_size
    → page_size ≤ 5000
    → IsIndexed c.db.cache
    → (warm o scope page_size user_ids group_ids c).0 ≡ ok report
    → is_covered scope user_ids group_ids r i ≡ true
    → ((warm o scope page_size user_ids group_ids c).1.db.tables ≡ c.db.tables)
      × Shows r i c.db.tables (warm o scope page_size user_ids group_ids c).1.db.cache
warm-refreshes o scope page_size user_ids group_ids c report r i s p t q n m v e h =
    let done = warm-Repairs o scope page_size user_ids group_ids c v in
    let shown =
      done.repaired r i report e
        (rw (walked-all page_size user_ids s p n m, walked-all page_size group_ids t q n m) h) in
    (done.same_tables, rw done.same_tables at shown)
