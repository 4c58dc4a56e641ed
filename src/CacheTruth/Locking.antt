-- ===== src/CacheTruth/Locking.antt =====
-- Waiting for the warm lock, and working under it: `withResourceLock` of
-- backend/internal/service/cache_truth.go.
use yun_chat.Prelude.{
  ℕ, zero, suc, ◌+◌, inl, inr, Bool, true, false, ◌&&◌, List, ◌==◌, ltb, some_passes, Bool-cases,
}
use yun_chat.Sql.{Failure, driver, warm_timeout, Result, ok, err, Sql, pure, raise}
use yun_chat.Sql.After.{
  After, After-pure, After-raise, After-exec, After-statement, After-if, After-bind,
}
use yun_chat.Database.{CacheResource}
use yun_chat.Database.{Db}
use yun_chat.Projection.{Projection}
use yun_chat.CacheTruth.{
  Stores, WarmLock, Settings, is_lock, joined, from_result, try_cache_warm_lock,
  release_cache_warm_lock, run_locked, tick, poll_lock, with_resource_lock,
}
use yun_chat.CacheTruth.Mirroring.{Same, caught-After}

-- A statement about the tables and the keys, that a failure may weaken.
pub record IsRobust (t : Db) (p : Projection) (Q : Result (Unit {0}) → Stores → Type 0)
    : Type 0 where
  pub moved :
      (x : Result (Unit {0})) (s : Stores) (ls : List WarmLock) (n : ℕ)
      → Q x s
      → Q x (record s { locks = ls; now = n })
  pub failed : (e : Failure) (s : Stores) → Same t p s → Q (err e) s
  pub spent : (x : Result (Unit {0})) (e : Failure) (s : Stores) → Q x s → Q (err e) s

tick-After :
    (interval : ℕ) (s : Stores) (Q : Result (Unit {0}) → Stores → Type 0)
    → Q (ok tt) (record s { now = s.now + interval })
    → After (tick interval) s Q
unfolding tick
tick-After interval s Q h = record { holds = λ outcomes. h }

module _ {t : Db} {p : Projection} {Q : Result (Unit {0}) → Stores → Type 0}
    (v : IsRobust t p Q) where
  release-After :
      (r : CacheResource) (i token : ℕ) (x : Result (Unit {0})) (s : Stores)
      → Q x s
      → After (release_cache_warm_lock r i token) s (λ y s'. Q x s')
  unfolding release_cache_warm_lock
  release-After r i token x s h =
      After-if (token == 0) (pure tt) _ s _ (After-pure tt s _ h)
        (After-exec _ s _ (v.moved x s _ s.now h) h (v.moved x s _ s.now h))

  join-After : (x y : Result (Unit {0})) (s : Stores) → Q x s → After (from_result (joined x y)) s Q
  join-After (ok _) (ok _) s h = After-pure tt s Q h
  join-After (ok _) (err e) s h = After-raise e s Q (v.spent _ e s h)
  join-After (err e) y s h = After-raise e s Q h

  run-After :
      (r : CacheResource) (i token : ℕ) (operation : Sql Stores (Unit {0})) (s : Stores)
      → After operation s Q
      → After (run_locked r i token operation) s Q
  unfolding run_locked
  run-After r i token operation s h = After-bind _ Q _ s (
      caught-After Q operation s _
        (λ x s' k. After-bind _ Q _ s' (
          caught-After (λ _ s''. Q x s'') _ s' _ (λ y s'' l. join-After x y s'' l)
            (release-After r i token x s' k)))
        h)

  try-After :
      (r : CacheResource) (i ttl token : ℕ) (s : Stores) (R : Result Bool → Stores → Type 0)
      → Same t p s
      → ((b : Bool) (s' : Stores) → Same t p s' → R (ok b) s')
      → ((s' : Stores) → Same t p s' → R (err driver) s')
      → After (try_cache_warm_lock r i ttl token) s R
  unfolding try_cache_warm_lock
  try-After r i ttl token s R same h k =
      elim (Bool-cases (some_passes (λ l. is_lock r i l && ltb s.now l.deadline) s.locks)) [
        | inl busy ↦
            After-statement _ s R (rw busy (h false s same)) (k s same) (rw busy (k s same))
        | inr free ↦ After-statement _ s R (rw free (h true _ same)) (k s same) (rw free (k _ same))
      ]

  module _ (r : CacheResource) (i : ℕ) (o : Settings) (operation : Sql Stores (Unit {0}))
      (works : (s : Stores) → Same t p s → After operation s Q) where
    poll-After : (n : ℕ) (s : Stores) → Same t p s → After (poll_lock r i o n operation) s Q
    unfolding poll_lock
    poll-After zero s same = After-bind _ Q _ s (
        try-After r i o.lock_ttl (o.token zero) s _ same
          (λ b s' k.
            After-if b (run_locked r i (o.token zero) operation) (raise warm_timeout) s' Q
              (run-After r i (o.token zero) operation s' (works s' k))
              (After-raise warm_timeout s' Q (v.failed warm_timeout s' k)))
          (λ s' k. v.failed driver s' k))
    poll-After (suc n) s same = After-bind _ Q _ s (
        try-After r i o.lock_ttl (o.token (suc n)) s _ same
          (λ b s' k.
            After-if b (run_locked r i (o.token (suc n)) operation) _ s' Q
              (run-After r i (o.token (suc n)) operation s' (works s' k))
              (After-bind (λ _. poll_lock r i o n operation) Q (tick o.poll_interval) s'
                (tick-After o.poll_interval s' _ (poll-After n _ k))))
          (λ s' k. v.failed driver s' k))

    pub lock-After : (s : Stores) → Same t p s → After (with_resource_lock r i o operation) s Q
    unfolding with_resource_lock
    lock-After s same = poll-After o.polls s same
