-- ===== src/Presence/Sharing.antt =====
-- The two keys of a user's presence say the same.
use yun_chat.Prelude.{
  ℕ, ◌≤◌, ◌<◌, ◌≡◌, refl, sym, ap, Bool, false, not, ◌||◌, none, arith, ◌==◌, leb, is_some, unless,
}
use yun_chat.Sql.{ok}
use yun_chat.Presence.{
  Presence, read, holds, claim_presence, renew_presence, release_presence, claim_script,
  renew_script, release_script, milliseconds,
}
use yun_chat.Presence.Leases.{owner, shown}

-- Calls of any connections. The time to live of a renewal is at least a millisecond.
pub data Step (s : Presence) (s' : Presence) : Type 0 where
  claimed : (user c ttl : ℕ) → s' ≡ (claim_presence user c ttl s).1 → Step s s'
  renewed : (c ttl : ℕ) → 0 < milliseconds ttl → s' ≡ (renew_presence c ttl s).1 → Step s s'
  released : (c : ℕ) → s' ≡ (release_presence c s).1 → Step s s'
  waited : (now : ℕ) → s.now ≤ now → s' ≡ record s { now = now } → Step s s'

pub data Reach (s : Presence) : Presence → Type 0 where
  here : Reach s s
  next : {s' s'' : Presence} → Reach s s' → Step s' s'' → Reach s s''

abbrev pub offline : ℕ → Presence
offline now = record { conn = none; online = none; now = now }

Step-same : (s s' : Presence) → Step s s' → s.conn ≡ s.online → s'.conn ≡ s'.online
unfolding claim_presence renew_presence release_presence claim_script renew_script release_script
Step-same s s' (claimed user c ttl e) v =
    unless (leb user 0 || c == 0 || leb ttl 0) (λ h. rw e (simp h v))
      λ valid.
        unless (milliseconds ttl == 0) (λ h. rw e (simp (valid, h) v))
          λ long. rw e (simp (valid, long))
Step-same s s' (renewed c ttl long e) v =
    let lasts : (milliseconds ttl == 0) ≡ false = ground (arith, long) in
    unless (not (holds (read s.now s.conn) c)) (λ h. rw e (simp h v))
      λ mine. rw e (simp (mine, lasts))
Step-same s s' (released c e) v =
    unless (not (holds (read s.now s.conn) c)) (λ h. rw e (simp h v)) λ mine. rw e (simp mine)
Step-same s s' (waited now later e) v = rw e v

Reach-same : (now : ℕ) (s : Presence) → Reach (offline now) s → s.conn ≡ s.online
Reach-same now s here = refl
Reach-same now s (next r o) = Step-same _ s o (Reach-same now _ r)

-- In every history of claims, renewals of at least a millisecond and releases by any connections: the user is
-- shown online exactly with the connection that owns the presence; and a claim that succeeds reports that
-- the user came online exactly if nobody owned it, so that a replaced connection is not announced again.
pub Reach-shown :
    (now : ℕ) (s : Presence)
    → Reach (offline now) s
    → (user c ttl : ℕ) (came : Bool) → (claim_presence user c ttl s).0 ≡ ok came
    → (shown s ≡ owner s) × (came ≡ not (is_some (owner s)))
unfolding claim_presence claim_script
Reach-shown now s r user c ttl came e =
    let v = Reach-same now s r in
    let same : shown s ≡ owner s = ap (read s.now) (sym v) in
    unless (leb user 0 || c == 0 || leb ttl 0) (λ h. absurd (ground (arith, e, h)))
      λ valid.
        unless (milliseconds ttl == 0) (λ h. absurd (ground (arith, e, valid, h)))
          λ long. (same, ground (arith, same, simp (valid, long) at e))
