-- ===== src/Witnesses/Presences.antt =====
-- A phone takes over from a laptop, which then renews and releases in vain.
use yun_chat.Prelude.{ℕ, ◌≡◌, refl, false, not, some, none, is_some, arith, ltb, ◌+◌, if◌then◌else◌}
use yun_chat.Sql.{ok}
use yun_chat.Presence.{
  Presence, claim_presence, claim_script, renew_presence, release_presence, renew_script,
  release_script, milliseconds,
}
use yun_chat.Presence.Leases.{
  owner, shown, here, next, renewed, released, waited, claim_presence-lasts,
}
use yun_chat.Presence.Sharing as Sharing
use yun_chat.Presence.Sharing.{Reach-shown}

abbrev laptop : ℕ
laptop = 1

abbrev phone : ℕ
phone = 2

-- Thirty seconds.
abbrev ttl : ℕ
ttl = 30_000_000_000

abbrev on_laptop : Presence
on_laptop = (claim_presence 7 laptop ttl (Sharing.offline 100)).1

abbrev on_phone : Presence
on_phone = (claim_presence 7 phone ttl on_laptop).1

abbrev later : Presence
later = record (release_presence laptop (renew_presence laptop ttl on_phone).1).1 { now = 20_000 }

taken_over : (claim_presence 7 phone ttl on_laptop).0 ≡ ok false
unfolding claim_presence claim_script
taken_over = refl

still_before : (release_presence laptop (renew_presence laptop ttl on_phone).1).1.now ≡ 100
unfolding claim_presence claim_script renew_presence release_presence renew_script release_script
still_before = refl

claim_presence-lasts_example :
    (owner later ≡ (if ltb later.now (on_laptop.now + milliseconds ttl) then some phone else none))
    × (shown later
        ≡ (if ltb later.now (on_laptop.now + milliseconds ttl) then some phone else none))
claim_presence-lasts_example = claim_presence-lasts 7 phone ttl on_laptop later false taken_over (
    next
      (next (next here (renewed laptop ttl (λ e. absurd (omega arith)) refl))
        (released laptop (λ e. absurd (omega arith)) refl))
      (waited 20_000 (omega (arith, still_before)) refl))

Reach-shown_example :
    (shown on_laptop ≡ owner on_laptop) × (false ≡ not (is_some (owner on_laptop)))
Reach-shown_example =
    Reach-shown 100 on_laptop (Sharing.next Sharing.here (Sharing.claimed 7 laptop ttl refl)) 7
      phone ttl false taken_over
