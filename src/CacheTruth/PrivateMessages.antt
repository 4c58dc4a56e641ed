-- ===== src/CacheTruth/PrivateMessages.antt =====
-- `EnsurePrivateAccess`, then the script for private messages.
use yun_chat.Prelude.{ℕ, ◌<◌, ◌≡◌, refl, inl, inr, Bool, not, ◌&&◌, ◌||◌, List, leb, arith, some}
use yun_chat.Sql.{driver, Result, ok, err, Conn, raise}
use yun_chat.Sql.After.{After, After-raise, After-if, After-bind, After-weaken, Then}
use yun_chat.Database.{Db, has_edge, CacheResource, friends, blacklist}
use yun_chat.Projection.{Projection}
use yun_chat.Projection.Keys.{holds}
use yun_chat.CacheTruth.{Stores, Settings}
use yun_chat.CacheTruth.Access.{ensure_loaded, ensure_owner, ensure_private_access}
use yun_chat.CacheTruth.Admission.{IsHonest, Marks, Grows, Post, ensure_loaded-After}
use yun_chat.CacheTruth.Freshness.{Shows}
use yun_chat.Messages.{Runtime, Dedup, exec_private_msg_check, is_message_id, is_duplicate}
use yun_chat.Messages.Histories.{is_admitted}

abbrev Opens : ℕ → Projection → Type 0
Opens u p = Marks friends u p × Marks blacklist u p

Grows-trans : (p q r : Projection) → Grows p q → Grows q r → Grows p r
Grows-trans p q r g h k i m = h k i (g k i m)

-- What an owner's preparation leaves.
abbrev Opened : Db → Projection → ℕ → Result (Unit {0}) → Stores → Type 0
Opened t p u (ok _) s = IsHonest t s × Grows p s.cache × Opens u s.cache
Opened t p u (err e) s = IsHonest t s × Grows p s.cache

module _ (o : Settings) (t : Db) where
  step :
      (r : CacheResource) (i : ℕ) (s : Stores)
      → IsHonest t s
      → After (ensure_loaded o r i) s (Post t s.cache r i)
  step r i s h = ensure_loaded-After t s.cache h.1 h.2 o r i s (h.0, refl)

  owner-After :
      (u : ℕ) (s : Stores) → IsHonest t s → After (ensure_owner o u) s (Opened t s.cache u)
  unfolding ensure_owner
  owner-After u s h = After-bind _ _ _ s (After-weaken _ s _ _ first (step friends u s h))
    where
      second :
          (p : Projection) (e : Stores)
          → Grows p e.cache
          → Marks friends u e.cache
          → (x : Result (Unit {0})) (f : Stores) → Post t e.cache blacklist u x f
          → Opened t p u x f
      second p e g m (ok _) f k = (k.0, Grows-trans p e.cache f.cache g k.1, (k.1 friends u m, k.2))
      second p e g m (err x) f k = (k.0, Grows-trans p e.cache f.cache g k.1)

      first :
          (x : Result (Unit {0})) (e : Stores)
          → Post t s.cache friends u x e
          → Then (λ _. ensure_loaded o blacklist u) (Opened t s.cache u) x e
      first (ok _) e k = After-weaken _ e _ _ (second s.cache e k.1 k.2) (step blacklist u e k.0)
      first (err x) e k = k

  -- Both owners are prepared.
  abbrev Ready : ℕ → ℕ → Result (Unit {0}) → Stores → Type 0
  Ready a b (ok _) s = IsHonest t s × Opens a s.cache × Opens b s.cache
  Ready a b (err e) s = Unit {0}

  access-After :
      (a b : ℕ) (s : Stores) → IsHonest t s → After (ensure_private_access o a b) s (Ready a b)
  unfolding ensure_private_access
  access-After a b s h =
      After-if (leb a 0 || leb b 0) (raise driver) _ s _ (After-raise driver s _ tt)
        (After-bind _ _ _ s (After-weaken _ s _ _ first (owner-After a s h)))
    where
      second :
          (e : Stores)
          → Opens a e.cache
          → (x : Result (Unit {0})) (f : Stores) → Opened t e.cache b x f
          → Ready a b x f
      second e m (ok _) f k = (k.0, (k.1 friends a m.0, k.1 blacklist a m.1), k.2)
      second e m (err x) f k = tt

      first :
          (x : Result (Unit {0})) (e : Stores)
          → Opened t s.cache a x e
          → Then (λ _. ensure_owner o b) (Ready a b) x e
      first (ok _) e k = After-weaken _ e _ _ (second e k.2) (owner-After b e k.0)
      first (err x) e k = tt

shown_edges :
    (u x : ℕ) (t : Db) (s : Stores)
    → IsHonest t s
    → Opens u s.cache
    → 0 < x
    → (holds u x s.cache.friend ≡ has_edge u x t.friendships)
      × (holds u x s.cache.blacklist ≡ has_edge u x t.blacklist)
shown_edges u x t s h m p = (by_friends (h.2 friends u), by_blocks (h.2 blacklist u))
  where
    by_friends : Shows friends u t s.cache → holds u x s.cache.friend ≡ has_edge u x t.friendships
    by_friends (inl unmarked) = absurd (cc)
    by_friends (inr shown) = shown x p

    by_blocks : Shows blacklist u t s.cache → holds u x s.cache.blacklist ≡ has_edge u x t.blacklist
    by_blocks (inl unmarked) = absurd (cc)
    by_blocks (inr shown) = shown x p

-- The users are friends of each other and neither has blocked the other.
abbrev pub may_write : ℕ → ℕ → Db → Bool
may_write a b t =
    (has_edge a b t.friendships && has_edge b a t.friendships)
    && not (has_edge b a t.blacklist || has_edge a b t.blacklist)

script-admits :
    (a b client id : ℕ) (t : Db) (s : Runtime)
    → holds a b s.cache.friend ≡ has_edge a b t.friendships
    → holds b a s.cache.friend ≡ has_edge b a t.friendships
    → holds b a s.cache.blacklist ≡ has_edge b a t.blacklist
    → holds a b s.cache.blacklist ≡ has_edge a b t.blacklist
    → is_admitted (exec_private_msg_check (some id) a b client s).0
      ≡ (is_message_id id && (may_write a b t && not (is_duplicate a client s)))
unfolding exec_private_msg_check
script-admits a b client id t s e f g h = ground arith

positive :
    (a b : ℕ) (r : Result (Unit {0})) (s : Stores) (o : Settings) (c : Conn Stores)
    → (ensure_private_access o a b c).0 ≡ ok tt
    → (0 < a) × (0 < b)
unfolding ensure_private_access
positive a b r s o c h = ground arith

Ready-ok :
    (o : Settings) (t : Db) (a b : ℕ) (r : Result (Unit {0})) (s : Stores)
    → r ≡ ok tt
    → Ready o t a b r s
    → IsHonest t s × Opens a s.cache × Opens b s.cache
Ready-ok o t a b (ok _) s e h = h
Ready-ok o t a b (err x) s e h = absurd (cc)

-- Where every marked owner's keys are MySQL's, whatever the driver answers to the preparation and however
-- other processes hold the locks: if EnsurePrivateAccess succeeds, the private-message script then
-- admits a message exactly if its identifier is in range, the users are friends of each other in MySQL,
-- neither has blocked the other there, and the client's identifier is not a recent one of the sender.
pub private_msg_check_iff :
    (o : Settings) (a b client id : ℕ) (c : Conn Stores) (dedup : List Dedup) (online : List ℕ)
    (now : ℕ)
    → IsHonest c.db.tables c.db
    → (ensure_private_access o a b c).0 ≡ ok tt
    → is_admitted
        (exec_private_msg_check (some id) a b client (record {
          cache = (ensure_private_access o a b c).1.db.cache;
          dedup = dedup;
          online = online;
          now = now;
        })).0
      ≡ (is_message_id id
          && (may_write a b c.db.tables
              && not (
                  is_duplicate a client (record {
                    cache = (ensure_private_access o a b c).1.db.cache;
                    dedup = dedup;
                    online = online;
                    now = now;
                  }))))
private_msg_check_iff o a b client id c dedup online now h k =
    let r = ensure_private_access o a b c in
    let signs = positive a b r.0 r.1.db o c k in
    let ready =
      Ready-ok o c.db.tables a b r.0 r.1.db k
        ((access-After o c.db.tables a b c.db h).holds c.outcomes) in
    let ab = shown_edges a b c.db.tables r.1.db ready.0 ready.1 signs.1 in
    let ba = shown_edges b a c.db.tables r.1.db ready.0 ready.2 signs.0 in
    script-admits a b client id c.db.tables _ ab.0 ba.0 ba.1 ab.1
