-- ===== src/CacheTruth/AsMirror.antt =====
-- `CacheTruthService` as the `Mirror` of the worker.
use yun_chat.Prelude.{ℕ, ◌≡◌, ◌≢◌, refl, ◌⊎◌, inl, inr, leb}
use yun_chat.Sql.{driver, Result, ok, err, raise}
use yun_chat.Sql.After.{After, After-raise, After-if}
use yun_chat.Database.{Db, CacheResource, friends, group_members, blacklist}
use yun_chat.Projection.{
  Projection, replace_friend_owner, replace_blacklist_owner, replace_group_members_owner,
  delete_disbanded_group_runtime,
}
use yun_chat.Projection.Friendships.{IsIndexed, replaced-IsIndexed}
use yun_chat.Reconciler.{Mirror}
use yun_chat.CacheTruth.{Stores, Settings, peers, reconcile_current, reconcile_now}
use yun_chat.CacheTruth.Mirroring.{Mirrored, Mirrors, Same, reconcile_current-After, spent-Mirrors}
use yun_chat.CacheTruth.Locking.{IsRobust, lock-After}
use yun_chat.CacheTruth.Freshness.{Shows, Shows-friends, Shows-blacklist, Shows-group}

Mirrors-IsRobust :
    (r : CacheResource) (i : ℕ) (t : Db) (p : Projection) → IsRobust t p (Mirrors r i t p)
Mirrors-IsRobust r i t p = record {
  moved = moves;
  failed = λ e s h. (h.0, inl h.1);
  spent = λ x e s h. spent-Mirrors r i t p x s e h;
}
  where
    moves :
        (x : Result (Unit {0})) (s : Stores) (ls : _) (n : ℕ)
        → Mirrors r i t p x s
        → Mirrors r i t p x (record s { locks = ls; now = n })
    moves (ok _) s ls n h = h
    moves (err e) s ls n h = h

under_lock :
    (r : CacheResource) (i : ℕ) (t : Db) (p : Projection) (s : Stores)
    → Same t p s
    → After (reconcile_current r i) s (Mirrors r i t p)
under_lock r i t p s h = rw (← h.0, ← h.1) (reconcile_current-After r i s)

-- `ReconcileNow` mirrors the owner, or fails having mirrored it at most.
pub reconcile_now-After :
    (o : Settings) (r : CacheResource) (i : ℕ) (s : Stores)
    → After (reconcile_now o r i) s (Mirrors r i s.tables s.cache)
unfolding reconcile_now
reconcile_now-After o r i s =
    After-if (leb i 0) (raise driver) _ s _ (After-raise driver s _ (refl, inl refl)) (
      lock-After (Mirrors-IsRobust r i s.tables s.cache) r i o (reconcile_current r i)
        (λ s' h. under_lock r i s.tables s.cache s' h) s (refl, refl))

Mirrored-IsIndexed :
    (r : CacheResource) (i : ℕ) (t : Db) (p q : Projection)
    → Mirrored r i t p q
    → IsIndexed p
    → IsIndexed q
unfolding replace_blacklist_owner replace_group_members_owner delete_disbanded_group_runtime
Mirrored-IsIndexed friends u t p q e v = rw e (replaced-IsIndexed u (peers u t.friendships) p v)
Mirrored-IsIndexed blacklist u t p q e v = rw e v
Mirrored-IsIndexed group_members g t p q (inl e) v = rw e v
Mirrored-IsIndexed group_members g t p q (inr e) v = rw e v

module _ {A : Type 0} {r s : CacheResource} {j i : ℕ} where
  own : A ⊎ ((r ≡ s) × (j ≡ i)) → A ⊎ (j ≡ i)
  own (inl a) = inl a
  own (inr h) = inr h.1

  other : (r ≢ s) → A ⊎ ((r ≡ s) × (j ≡ i)) → A
  other n (inl a) = a
  other n (inr h) = absurd (n h.0)

-- Every owner that was shown is shown, and the mirrored one in any case.
Mirrored-Shows :
    (r : CacheResource) (i : ℕ) (t : Db) (p q : Projection) (s : CacheResource) (j : ℕ)
    → Mirrored r i t p q
    → IsIndexed p
    → Shows s j t p ⊎ ((r ≡ s) × (j ≡ i))
    → Shows s j t q
unfolding replace_friend_owner replace_blacklist_owner replace_group_members_owner
    delete_disbanded_group_runtime
Mirrored-Shows friends i t p q friends j e v h = rw e (Shows-friends i j t p v (own h))
Mirrored-Shows friends i t p q blacklist j e v h = rw e (other (λ k. cc) h)
Mirrored-Shows friends i t p q group_members j e v h = rw e (other (λ k. cc) h)
Mirrored-Shows blacklist i t p q friends j e v h = rw e (other (λ k. cc) h)
Mirrored-Shows blacklist i t p q blacklist j e v h = rw e (Shows-blacklist i j t p (own h))
Mirrored-Shows blacklist i t p q group_members j e v h = rw e (other (λ k. cc) h)
Mirrored-Shows group_members i t p q friends j (inl e) v h = rw e (other (λ k. cc) h)
Mirrored-Shows group_members i t p q friends j (inr e) v h = rw e (other (λ k. cc) h)
Mirrored-Shows group_members i t p q blacklist j (inl e) v h = rw e (other (λ k. cc) h)
Mirrored-Shows group_members i t p q blacklist j (inr e) v h = rw e (other (λ k. cc) h)
Mirrored-Shows group_members i t p q group_members j (inl e) v h =
    rw e (Shows-group i t p j (own h))
Mirrored-Shows group_members i t p q group_members j (inr e) v h =
    rw e (Shows-group i t p j (own h))

pub Mirrors-IsIndexed :
    (r : CacheResource) (i : ℕ) (t : Db) (p : Projection) (x : Result (Unit {0})) (s : Stores)
    → Mirrors r i t p x s
    → IsIndexed p
    → IsIndexed s.cache
Mirrors-IsIndexed r i t p (ok _) s m v = Mirrored-IsIndexed r i t p s.cache m.1 v
Mirrors-IsIndexed r i t p (err e) s (a, inl same) v = rw same v
Mirrors-IsIndexed r i t p (err e) s (a, inr m) v = Mirrored-IsIndexed r i t p s.cache m v

pub Mirrors-Shows :
    (r : CacheResource) (i : ℕ) (t : Db) (p : Projection) (x : Result (Unit {0})) (s : Stores)
    (k : CacheResource) (j : ℕ)
    → Mirrors r i t p x s
    → IsIndexed p
    → Shows k j t p
    → Shows k j s.tables s.cache
Mirrors-Shows r i t p (ok _) s k j m v h = rw m.0 (Mirrored-Shows r i t p s.cache k j m.1 v (inl h))
Mirrors-Shows r i t p (err e) s k j (a, inl same) v h = rw (a, same) h
Mirrors-Shows r i t p (err e) s k j (a, inr m) v h =
    rw a (Mirrored-Shows r i t p s.cache k j m v (inl h))

pub Mirrors-own :
    (r : CacheResource) (i : ℕ) (t : Db) (p : Projection) (x : Result (Unit {0})) (s : Stores)
    → Mirrors r i t p x s
    → IsIndexed p
    → x ≡ ok tt
    → Shows r i s.tables s.cache
Mirrors-own r i t p (ok _) s m v e =
    rw m.0 (Mirrored-Shows r i t p s.cache r i m.1 v (inr (refl, refl)))
Mirrors-own r i t p (err f) s m v e = absurd (cc)

abbrev pub as_mirror : Settings → Mirror Stores
as_mirror o = record {
  Fresh = λ r i s. Shows r i s.tables s.cache;
  IsSound = λ s. IsIndexed s.cache;
  reconcile_now = reconcile_now o;
  stays_sound = λ r i c v.
      Mirrors-IsIndexed r i c.db.tables c.db.cache _ _
        ((reconcile_now-After o r i c.db).holds c.outcomes) v;
  reconciles = λ r i c v e.
      Mirrors-own r i c.db.tables c.db.cache _ _ ((reconcile_now-After o r i c.db).holds c.outcomes)
        v e;
  spoils_none = λ r s i j c v h.
      Mirrors-Shows r i c.db.tables c.db.cache _ _ s j
        ((reconcile_now-After o r i c.db).holds c.outcomes) v h;
}
