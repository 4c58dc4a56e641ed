-- ===== src/CacheTruth/Mirroring.antt =====
-- What `ReconcileNow` does to the stores, whatever the driver answers and however long the lock is held
-- by others.
use yun_chat.Prelude.{ℕ, ◌≡◌, refl, ap, ◌⊎◌, inl, inr, Bool, true, false, leb, is_some, keep}
use yun_chat.Sql.{Failure, driver, Result, ok, err, Sql, pure, raise, query, ◌>>=◌}
use yun_chat.Sql.After.{
  After, After-pure, After-raise, After-query, After-exec, After-if, After-bind,
}
use yun_chat.Database.{Db, CacheResource, friends, group_members, blacklist, find_user}
use yun_chat.Database.Rows.{in_group}
use yun_chat.Projection.{
  Projection, replace_friend_owner, replace_blacklist_owner, replace_group_members_owner,
  delete_disbanded_group_runtime,
}
use yun_chat.CacheTruth.{
  Stores, peers, by_user, list_friend_ids, list_blocked_ids, group_exists, list_group_members,
  is_group_tombstoned, redis, boundary, lock_owner, caught, end_snapshot, within_cache_snapshot,
  clean_if_gone, mirror_owner, reconcile_current,
}

-- The keys are those that the tables call for.
abbrev pub Mirrored : CacheResource → ℕ → Db → Projection → Projection → Type 0
Mirrored friends u t p q = q ≡ replace_friend_owner u (peers u t.friendships) p
Mirrored blacklist u t p q = q ≡ replace_blacklist_owner u (peers u t.blacklist) p
Mirrored group_members g t p q =
    let r = replace_group_members_owner g (by_user (keep (in_group g) t.members)) p in
    (q ≡ r) ⊎ (q ≡ delete_disbanded_group_runtime g r)

-- On success the owner is mirrored; on an error, at most.
abbrev pub Mirrors : CacheResource → ℕ → Db → Projection → Result (Unit {0}) → Stores → Type 0
Mirrors r i t p (ok _) s = (s.tables ≡ t) × Mirrored r i t p s.cache
Mirrors r i t p (err e) s = (s.tables ≡ t) × ((s.cache ≡ p) ⊎ Mirrored r i t p s.cache)

module _ (Q : Result (Unit {0}) → Stores → Type 0) where
  pub caught-After :
      (m : Sql Stores (Unit {0})) (s : Stores) (R : Result (Result (Unit {0})) → Stores → Type 0)
      → ((r : Result (Unit {0})) (e : Stores) → Q r e → R (ok r) e)
      → After m s Q
      → After (caught m) s R
  unfolding caught
  caught-After m s R f a = record { holds = λ o. f _ _ (a.holds o) }

redis-After :
    (f : Projection → Projection) (s : Stores) (Q : Result (Unit {0}) → Stores → Type 0)
    → Q (ok tt) (record s { cache = f s.cache })
    → Q (err driver) s
    → Q (err driver) (record s { cache = f s.cache })
    → After (redis f) s Q
unfolding redis
redis-After f s Q h r l = After-exec (λ (s' : Stores). record s' { cache = f s'.cache }) s Q h r l

abbrev replaced : ℕ → Db → Projection → Projection
replaced g t p = replace_group_members_owner g (by_user (keep (in_group g) t.members)) p

clean-After :
    (g : ℕ) (exists : Bool) (s : Stores) (t : Db) (p : Projection)
    → (s.tables ≡ t) × (s.cache ≡ replaced g t p)
    → After (clean_if_gone g exists) s (Mirrors group_members g t p)
unfolding clean_if_gone
clean-After g true s t p h = After-pure tt s _ (h.0, inl h.1)
clean-After g false s t p h =
    redis-After (delete_disbanded_group_runtime g) s _
      (h.0, inr (ap (delete_disbanded_group_runtime g) h.1)) (h.0, inr (inl h.1))
      (h.0, inr (inr (ap (delete_disbanded_group_runtime g) h.1)))

mirror_owner-After :
    (r : CacheResource) (i : ℕ) (s : Stores)
    → After (mirror_owner r i) s (Mirrors r i s.tables s.cache)
unfolding mirror_owner
mirror_owner-After friends u s = After-bind _ _ (list_friend_ids u) s (
    After-query _ s _ (redis-After _ s _ (refl, refl) (refl, inl refl) (refl, inr refl))
      (refl, inl refl))
mirror_owner-After blacklist u s = After-bind _ _ (list_blocked_ids u) s (
    After-query _ s _ (redis-After _ s _ (refl, refl) (refl, inl refl) (refl, inr refl))
      (refl, inl refl))
mirror_owner-After group_members g s = After-bind _ _ (group_exists g) s (
    After-query _ s _
      (After-bind _ _ (list_group_members g) s (
        After-query _ s _
          (After-bind _ _ _ s (
            redis-After _ s _ (clean-After g _ _ s.tables s.cache (refl, refl)) (refl, inl refl)
              (refl, inr (inl refl))))
          (refl, inl refl)))
      (refl, inl refl))

abbrev pub Same : Db → Projection → Stores → Type 0
Same t p s = (s.tables ≡ t) × (s.cache ≡ p)

pub failed-Mirrors :
    (r : CacheResource) (i : ℕ) (t : Db) (p : Projection) (s : Stores)
    → Same t p s
    → Mirrors r i t p (err driver) s
failed-Mirrors r i t p s h = (h.0, inl h.1)

pub spent-Mirrors :
    (r : CacheResource) (i : ℕ) (t : Db) (p : Projection) (x : Result (Unit {0})) (s : Stores)
    (e : Failure)
    → Mirrors r i t p x s
    → Mirrors r i t p (err e) s
spent-Mirrors r i t p (ok _) s e h = (h.0, inr h.1)
spent-Mirrors r i t p (err x) s e h = h

boundary-After :
    (s : Stores) (Q : Result (Unit {0}) → Stores → Type 0)
    → Q (ok tt) s
    → Q (err driver) s
    → After boundary s Q
unfolding boundary
boundary-After s Q h k = After-exec _ s Q h k k

module _ (r : CacheResource) (i : ℕ) (t : Db) (p : Projection) where
  end-After :
      (x : Result (Unit {0})) (s : Stores)
      → Mirrors r i t p x s
      → After (end_snapshot x) s (Mirrors r i t p)
  unfolding end_snapshot
  end-After (ok _) s h = boundary-After s _ h (h.0, inr h.1)
  end-After (err e) s h = After-bind _ _ (caught boundary) s (
      caught-After (λ _ s'. Mirrors r i t p (err e) s') boundary s _
        (λ x s' k. After-raise e s' _ k) (boundary-After s _ h h))

lock_user-After :
    (u : ℕ) (s : Stores) (Q : Result (Unit {0}) → Stores → Type 0)
    → Q (ok tt) s
    → Q (err driver) s
    → After (query (λ (s' : Stores). is_some (find_user u s'.tables.users)) >>= λ _. pure tt) s Q
lock_user-After u s Q h k = After-bind _ Q _ s (After-query _ s _ (After-pure tt s Q h) k)

lock-After :
    (r : CacheResource) (i : ℕ) (s : Stores) (Q : Result (Unit {0}) → Stores → Type 0)
    → Q (ok tt) s
    → Q (err driver) s
    → After (lock_owner r i) s Q
unfolding lock_owner is_group_tombstoned group_exists
lock-After friends u s Q h k = lock_user-After u s Q h k
lock-After blacklist u s Q h k = lock_user-After u s Q h k
lock-After group_members g s Q h k = After-bind _ Q (group_exists g) s (
    After-query _ s _
      (After-if _ (pure tt) _ s Q (After-pure tt s Q h)
        (After-bind _ Q (is_group_tombstoned g) s (After-query _ s _ (After-pure tt s Q h) k)))
      k)

module _ (r : CacheResource) (i : ℕ) where
  snapshot-After :
      (body : Sql Stores (Unit {0})) (s : Stores)
      → After body s (Mirrors r i s.tables s.cache)
      → After (within_cache_snapshot r i body) s (Mirrors r i s.tables s.cache)
  unfolding within_cache_snapshot
  snapshot-After body s h =
      After-if (leb i 0) (raise driver) _ s _ (After-raise driver s _ (refl, inl refl)) (
        After-bind _ _ _ s (
          After-bind _ _ boundary s (
            boundary-After s _
              (caught-After (Mirrors r i s.tables s.cache) _ s _
                (λ x s' k. end-After r i s.tables s.cache x s' k)
                (After-bind _ _ (lock_owner r i) s (lock-After r i s _ h (refl, inl refl))))
              (refl, inl refl))))

  pub reconcile_current-After :
      (s : Stores) → After (reconcile_current r i) s (Mirrors r i s.tables s.cache)
  unfolding reconcile_current
  reconcile_current-After s = snapshot-After (mirror_owner r i) s (mirror_owner-After r i s)
