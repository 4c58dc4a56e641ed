-- ===== src/CacheTruth/Admission.antt =====
-- The state after `EnsurePrivateAccess`.
use yun_chat.Prelude.{ℕ, ◌≡◌, refl, inl, inr, true, List, arith, unless, if◌then◌else◌}
use yun_chat.Sql.{Failure, Result, ok, err, Sql, pure, ◌>>=◌}
use yun_chat.Sql.After.{After, After-pure, After-query, After-bind, After-weaken}
use yun_chat.Ids.{has}
use yun_chat.Model.{GroupMember}
use yun_chat.Database.{Db, CacheResource, friends, group_members, blacklist}
use yun_chat.Projection.{
  Projection, friends_loaded, blacklist_loaded, replace_friend_owner, replace_blacklist_owner,
  replace_group_members_owner, delete_disbanded_group_runtime,
}
use yun_chat.Projection.Friendships.{
  IsIndexed, has-set_key, friend_loaded-replaced, blacklist_loaded-replaced,
}
use yun_chat.CacheTruth.{Stores, WarmLock, Settings, peers, reconcile_current}
use yun_chat.CacheTruth.Mirroring.{Mirrors, Mirrored, Same, reconcile_current-After}
use yun_chat.CacheTruth.Locking.{IsRobust, lock-After}
use yun_chat.CacheTruth.Freshness.{Shows}
use yun_chat.CacheTruth.AsMirror.{Mirrors-IsIndexed, Mirrors-Shows}
use yun_chat.CacheTruth.Access.{marked, is_loaded, load_if_still_missing, ensure_loaded}

-- Every owner's keys are MySQL's or are not read.
abbrev pub IsHonest : Db → Stores → Type 0
IsHonest t s =
    (s.tables ≡ t) × IsIndexed s.cache × ((r : CacheResource) (i : ℕ) → Shows r i t s.cache)

-- The owner's marker is there.
abbrev pub Marks : CacheResource → ℕ → Projection → Type 0
Marks friends u p = has u p.friend_loaded ≡ true
Marks blacklist u p = has u p.blacklist_loaded ≡ true
Marks group_members g p = Unit {0}

-- No marker goes.
abbrev pub Grows : Projection → Projection → Type 0
Grows p q = (r : CacheResource) (i : ℕ) → Marks r i p → Marks r i q

abbrev pub Post : Db → Projection → CacheResource → ℕ → Result (Unit {0}) → Stores → Type 0
Post t p r i (ok _) s = IsHonest t s × Grows p s.cache × Marks r i s.cache
Post t p r i (err e) s = IsHonest t s × Grows p s.cache

friend-Grows : (u : ℕ) (ids : List ℕ) (p : Projection) → Grows p (replace_friend_owner u ids p)
unfolding replace_friend_owner
friend-Grows u ids p friends i m = ground (arith, has-set_key i u p.friend_loaded)
friend-Grows u ids p blacklist i m = m
friend-Grows u ids p group_members i m = tt

block-Grows : (u : ℕ) (ids : List ℕ) (p : Projection) → Grows p (replace_blacklist_owner u ids p)
unfolding replace_blacklist_owner
block-Grows u ids p friends i m = m
block-Grows u ids p blacklist i m = ground (arith, has-set_key i u p.blacklist_loaded)
block-Grows u ids p group_members i m = tt

same-Grows :
    (p q : Projection)
    → q.friend_loaded ≡ p.friend_loaded
    → q.blacklist_loaded ≡ p.blacklist_loaded
    → Grows p q
same-Grows p q e f friends i m = rw e m
same-Grows p q e f blacklist i m = rw f m
same-Grows p q e f group_members i m = tt

group-Grows :
    (g : ℕ) (ms : List GroupMember) (p : Projection)
    → Grows p (replace_group_members_owner g ms p)
      × Grows p (delete_disbanded_group_runtime g (replace_group_members_owner g ms p))
unfolding replace_group_members_owner delete_disbanded_group_runtime
group-Grows g ms p = (same-Grows p _ refl refl, same-Grows p _ refl refl)

Mirrored-Grows :
    (r : CacheResource) (i : ℕ) (t : Db) (p q : Projection)
    → Mirrored r i t p q
    → Grows p q × Marks r i q
Mirrored-Grows friends u t p q e = rw e (
  friend-Grows u (peers u t.friendships) p,
  ground (arith, friend_loaded-replaced u (peers u t.friendships) p u),
)
Mirrored-Grows blacklist u t p q e = rw e (
  block-Grows u (peers u t.blacklist) p,
  ground (arith, blacklist_loaded-replaced u (peers u t.blacklist) p u),
)
Mirrored-Grows group_members u t p q (inl e) = rw e ((group-Grows u _ p).0, tt)
Mirrored-Grows group_members u t p q (inr e) = rw e ((group-Grows u _ p).1, tt)

Mirrors-Post :
    (r : CacheResource) (i : ℕ) (t : Db) (p : Projection) (x : Result (Unit {0})) (s : Stores)
    → IsIndexed p
    → ((k : CacheResource) (j : ℕ) → Shows k j t p)
    → Mirrors r i t p x s
    → Post t p r i x s
Mirrors-Post r i t p (ok u) s v h m = (
  (
    m.0,
    Mirrors-IsIndexed r i t p (ok u) s m v,
    λ k j. rw m.0 at (Mirrors-Shows r i t p (ok u) s k j m v (h k j)),
  ),
  (Mirrored-Grows r i t p s.cache m.1).0,
  (Mirrored-Grows r i t p s.cache m.1).1,
)
Mirrors-Post r i t p (err e) s v h (a, inl same) =
    ((a, rw same v, λ k j. rw same (h k j)), λ k j l. rw same l)
Mirrors-Post r i t p (err e) s v h (a, inr m) = (
  (
    a,
    Mirrors-IsIndexed r i t p (err e) s (a, inr m) v,
    λ k j. rw a at (Mirrors-Shows r i t p (err e) s k j (a, inr m) v (h k j)),
  ),
  (Mirrored-Grows r i t p s.cache m).0,
)

module _ (t : Db) (p : Projection) (v : IsIndexed p)
    (h : (k : CacheResource) (j : ℕ) → Shows k j t p) where
  honest : (s : Stores) → Same t p s → IsHonest t s × Grows p s.cache
  honest s (a, b) = ((a, rw b v, λ k j. rw b (h k j)), λ k j m. rw b m)

  Post-IsRobust : (r : CacheResource) (i : ℕ) → IsRobust t p (Post t p r i)
  Post-IsRobust r i = record { moved = moves; failed = λ e s k. honest s k; spent = weaker }
    where
      moves :
          (x : Result (Unit {0})) (s : Stores) (ls : List WarmLock) (n : ℕ)
          → Post t p r i x s
          → Post t p r i x (record s { locks = ls; now = n })
      moves (ok _) s ls n k = k
      moves (err e) s ls n k = k

      weaker :
          (x : Result (Unit {0})) (e : Failure) (s : Stores)
          → Post t p r i x s
          → Post t p r i (err e) s
      weaker (ok _) e s k = (k.0, k.1)
      weaker (err x) e s k = k

  current-After :
      (r : CacheResource) (i : ℕ) (s : Stores)
      → Same t p s
      → After (reconcile_current r i) s (Post t p r i)
  current-After r i s (a, b) =
      After-weaken _ s (Mirrors r i t p) (Post t p r i) (λ x s' m. Mirrors-Post r i t p x s' v h m)
        (rw (← a, ← b) (reconcile_current-After r i s))

  marks :
      (r : CacheResource) (i : ℕ) (s : Stores)
      → Same t p s
      → marked r i s ≡ true
      → Marks r i s.cache
  unfolding marked friends_loaded blacklist_loaded
  marks friends i s e m = m
  marks blacklist i s e m = m
  marks group_members i s e m = tt

  loaded-After :
      (r : CacheResource) (i : ℕ) (s : Stores) (rest : Sql Stores (Unit {0}))
      → Same t p s
      → After rest s (Post t p r i)
      → After (is_loaded r i >>= λ loaded. if loaded then pure tt else rest) s (Post t p r i)
  unfolding is_loaded
  loaded-After r i s rest e k = After-bind _ (Post t p r i) _ s (
      After-query (marked r i) s _
        (unless (marked r i s)
          (λ m. rw m (After-pure tt s _ ((honest s e).0, (honest s e).1, marks r i s e m)))
          (λ m. rw m k))
        (honest s e))

  pub ensure_loaded-After :
      (o : Settings) (r : CacheResource) (i : ℕ) (s : Stores)
      → Same t p s
      → After (ensure_loaded o r i) s (Post t p r i)
  unfolding ensure_loaded
  ensure_loaded-After o r i s e = loaded-After r i s _ e (
      lock-After (Post-IsRobust r i) r i o (load_if_still_missing r i)
        (λ s' e'. loaded-After r i s' (reconcile_current r i) e' (current-After r i s' e')) s e)
