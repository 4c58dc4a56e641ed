-- ===== src/Presence/Leases.antt =====
-- Histories of one user's presence: calls of any connections, while time passes.
use yun_chat.Prelude.{
  ℕ, ◌+◌, ◌≤◌, ◌≡◌, ◌≢◌, Bool, true, not, ◌||◌, Option, none, some, arith, ◌==◌, leb, ltb,
  if◌then◌else◌, unless,
}
use yun_chat.Sql.{ok}
use yun_chat.Presence.{
  Presence, read, holds, claim_presence, renew_presence, release_presence, claim_script,
  renew_script, release_script, milliseconds,
}

-- The connection that owns the presence, and the one that the user is shown online with.
abbrev pub owner : Presence → Option ℕ
owner s = read s.now s.conn

abbrev pub shown : Presence → Option ℕ
shown s = read s.now s.online

-- Calls of connections that are not `b`, none of them a claim.
pub data OtherStep (b : ℕ) (s : Presence) (s' : Presence) : Type 0 where
  renewed : (a ttl : ℕ) → a ≢ b → s' ≡ (renew_presence a ttl s).1 → OtherStep b s s'
  released : (a : ℕ) → a ≢ b → s' ≡ (release_presence a s).1 → OtherStep b s s'
  waited : (now : ℕ) → s.now ≤ now → s' ≡ record s { now = now } → OtherStep b s s'

pub data Others (b : ℕ) (s : Presence) : Presence → Type 0 where
  here : Others b s s
  next : {s' s'' : Presence} → Others b s s' → OtherStep b s' s'' → Others b s s''

-- The keys name `b` alone.
abbrev Named : ℕ → ℕ → Presence → Type 0
Named b deadline s =
    (s.conn ≡ some (record { value = b; deadline = deadline }))
    × (s.online ≡ some (record { value = b; deadline = deadline }))

refused :
    (b a deadline : ℕ) (s : Presence)
    → Named b deadline s
    → a ≢ b
    → not (holds (read s.now s.conn) a) ≡ true
refused b a deadline s n ne = ground (arith, n, ne)

OtherStep-Named :
    (b deadline : ℕ) (s s' : Presence) → OtherStep b s s' → Named b deadline s → Named b deadline s'
unfolding renew_presence release_presence renew_script release_script
OtherStep-Named b deadline s s' (renewed a ttl ne e) n = rw (e, refused b a deadline s n ne) n
OtherStep-Named b deadline s s' (released a ne e) n = rw (e, refused b a deadline s n ne) n
OtherStep-Named b deadline s s' (waited now later e) n = rw e n

Others-Named :
    (b deadline : ℕ) (s s' : Presence) → Others b s s' → Named b deadline s → Named b deadline s'
Others-Named b deadline s s' here n = n
Others-Named b deadline s s' (next r o) n =
    OtherStep-Named b deadline _ s' o (Others-Named b deadline s _ r n)

-- After a claim that succeeds, whatever older connections renew or release and however long it takes: until
-- the claim's time to live is over, the claiming connection owns the presence and the user is shown online
-- with it, and from then on nobody owns it and the user is shown offline.
pub claim_presence-lasts :
    (user b ttl : ℕ) (s s' : Presence) (came : Bool)
    → (claim_presence user b ttl s).0 ≡ ok came
    → Others b (claim_presence user b ttl s).1 s'
    → (owner s' ≡ (if ltb s'.now (s.now + milliseconds ttl) then some b else none))
      × (shown s' ≡ (if ltb s'.now (s.now + milliseconds ttl) then some b else none))
unfolding claim_presence claim_script
claim_presence-lasts user b ttl s s' came e r =
    unless (leb user 0 || b == 0 || leb ttl 0) (λ h. absurd (ground (arith, e, h)))
      λ valid.
        unless (milliseconds ttl == 0) (λ h. absurd (ground (arith, e, valid, h)))
          λ long.
            let n =
              Others-Named b (s.now + milliseconds ttl) (claim_presence user b ttl s).1 s' r
                (simp (valid, long), simp (valid, long)) in
            (simp (n.0), simp (n.1))
