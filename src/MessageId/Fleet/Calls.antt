-- ===== src/MessageId/Fleet/Calls.antt =====
-- What one call of `Next` does over the MySQL store.
use yun_chat.Prelude.{
  ℕ, ◌+◌, ◌≤◌, ◌≡◌, refl, ◌⊎◌, inl, inr, Bool, true, ◌||◌, arith, ◌==◌, ltb, unless,
}
use yun_chat.Sql.{Failure, driver, Result, ok, err, Conn}
use yun_chat.MessageId.Generator.{Generator, Segment, validate_segment, install, next_id}
use yun_chat.MessageId.MysqlStore.{Allocator, reserve}
use yun_chat.MessageId.MysqlStore.Reservations.{Advances, Reserves, reserve-Reserves}

pub data Call (g : Generator) (d : Allocator) (r : Result ℕ × Generator × Conn Allocator)
    : Type 0 where
  fails :
      (e : Failure)
      → r.0 ≡ err e
      → r.1 ≡ g
      → (r.2.db ≡ d) ⊎ ((segment : Segment) × Advances g.segment_size segment d r.2.db)
      → Call g d r
  local :
      1 ≤ g.next
      → g.next ≤ g.last
      → r.0 ≡ ok g.next
      → r.1 ≡ record g { next = g.next + 1 }
      → r.2.db ≡ d
      → Call g d r
  refills :
      (segment : Segment)
      → Advances g.segment_size segment d r.2.db
      → r.0 ≡ ok segment.first
      → r.1 ≡ record g { next = segment.first + 1; last = segment.last }
      → Call g d r

advanced_valid :
    (size : ℕ) (segment : Segment) (d d' : Allocator)
    → Advances size segment d d'
    → validate_segment segment size ≡ true
unfolding validate_segment
advanced_valid size segment d d' a = ground (arith, a.positive, a.ordered, a.safe, a.fits)

ok_injective : {A : Type 0} {a b : A} → ok a ≡ ok b → a ≡ b
ok_injective e = cc

Advances-along :
    (size : ℕ) (d d' : Allocator) {s t : Segment}
    → s ≡ t
    → Advances size t d d'
    → Advances size s d d'
Advances-along size d d' e a = rw e a

module _ (g : Generator) (d : Allocator) where
  install-Call :
      (r : Result Segment × Conn Allocator) → Reserves g.segment_size d r → Call g d (install g r)
  install-Call (ok segment, c) (inl (s, e, a)) =
      let a' = Advances-along g.segment_size d c.db (ok_injective e) a in
      simp (advanced_valid g.segment_size segment d c.db a') (refills segment a' refl refl)
  install-Call (err x, c) (inl (s, e, a)) = absurd (cc)
  install-Call (ok segment, c) (inr ((x, e), after)) = absurd (cc)
  install-Call (err x, c) (inr (failed, after)) = fails x refl refl after

-- A call of `Next` over the MySQL store.
pub next_id-Call :
    (cancelled cancelled_waiting : Bool) (g : Generator) (c : Conn Allocator)
    → Call g c.db (next_id reserve cancelled cancelled_waiting g c)
unfolding next_id
next_id-Call cancelled waiting g c =
    unless (cancelled || waiting) (λ e. simp e (fails driver refl refl (inl refl)))
      λ live.
        unless (g.next == 0 || ltb g.last g.next)
          (λ e.
            simp (live, e)
              (install-Call g c.db (reserve g.segment_size c) (reserve-Reserves g.segment_size c)))
          λ e. simp (live, e) (local (ground arith) (ground arith) refl refl refl)
