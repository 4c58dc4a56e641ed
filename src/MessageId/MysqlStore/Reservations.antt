-- ===== src/MessageId/MysqlStore/Reservations.antt =====
-- What a reservation does to the durable high-water mark, whatever the driver answers.
use yun_chat.Prelude.{
  ℕ, ◌+◌, ◌-◌, ◌≤◌, ◌≡◌, refl, ◌∙◌, ◌⊎◌, inl, inr, ◌||◌, Option, none, some, arith, ltb, on_option,
  unless,
}
use yun_chat.Sql.{
  Failure, driver, exhausted, Result, ok, err, Conn, query, statement, within_transaction, ◌>>=◌,
}
use yun_chat.Sql.Steady.{Steady, steady_rules}
use yun_chat.Sql.Transactions.{IsAtomic, serial, within_transaction-IsAtomic}
use yun_chat.MessageId.Generator.{Segment, max_id, max_segment_size}
use yun_chat.MessageId.MysqlStore.{
  Allocator, reserve, reserve_callback, reserve_from, advance, clamped, found_or,
}

-- The mark moves from the segment's first identifier to the one behind its last.
pub record Advances (size : ℕ) (segment : Segment) (d d' : Allocator) : Type 0 where
  pub marked : d.next_id ≡ some segment.first
  pub moved : d'.next_id ≡ some (segment.last + 1)
  pub positive : 1 ≤ segment.first
  pub ordered : segment.first ≤ segment.last
  pub safe : segment.last ≤ max_id
  pub fits : segment.last + 1 ≤ segment.first + size

-- The outcomes of `Reserve`: the segment behind the mark and the mark moved past it, or an error with the
-- mark as it was or, where the answer to COMMIT was lost, moved past a segment that nobody will use.
abbrev pub Reserves : ℕ → Allocator → Result Segment × Conn Allocator → Type 0
Reserves size d (r, c) =
    ((segment : Segment) × (r ≡ ok segment) × Advances size segment d c.db)
    ⊎ (((e : Failure) × (r ≡ err e))
        × ((c.db ≡ d) ⊎ ((segment : Segment) × Advances size segment d c.db)))

abbrev Serially : ℕ → Allocator → Result Segment × Allocator → Type 0
Serially size d (r, d') =
    ((segment : Segment) × (r ≡ ok segment) × Advances size segment d d')
    ⊎ (((e : Failure) × (r ≡ err e)) × (d' ≡ d))

advance-Steady : (n : ℕ) → Steady (advance n)
unfolding advance
advance-Steady n = search steady_rules

from-Steady : (size first : ℕ) → Steady (reserve_from size first)
unfolding reserve_from
from-Steady size first = search (steady_rules, advance-Steady) depth 12

found_or-Steady : (o : Option ℕ) (e : Failure) → Steady (found_or o e)
found_or-Steady none e = search steady_rules
found_or-Steady (some n) e = search steady_rules

callback-Steady : (size : ℕ) → Steady (reserve_callback size)
unfolding reserve_callback
callback-Steady size = search (steady_rules, found_or-Steady, from-Steady) depth 12

module _ (size : ℕ) (d : Allocator) (positive : 1 ≤ size) where
  from-Serially :
      (first : ℕ) → d.next_id ≡ some first → Serially size d (serial (reserve_from size first) d)
  unfolding reserve_from advance statement ◌>>=◌
  from-Serially first e =
      unless (ltb first 1 || ltb max_id first) (λ bad. inr ((exhausted, simp bad), simp bad))
        λ good. inl (
          record { first = first; last = first + clamped size first - 1 },
          simp (e, good),
          record {
            marked = e;
            moved = simp (e, good);
            positive = ground arith;
            ordered = ground arith;
            safe = ground arith;
            fits = ground arith;
          },
        )

  callback-Serially : Serially size d (serial (reserve_callback size) d)
  unfolding reserve_callback query statement ◌>>=◌
  callback-Serially =
      on_option d.next_id (λ e. inr ((driver, simp e), simp e))
        λ first e. simp e (from-Serially first e)

  reserved :
      (Lost : Type 0) (r : Result Segment × Conn Allocator) (q : Result Segment × Allocator)
      → IsAtomic Lost d r q
      → Serially size d q
      → Reserves size d r
  reserved _ (r, c) (q, d') (inl (e, inl same)) s = inr ((driver, e), inl same)
  reserved _ (r, c) (q, d') (inl (e, inr (_, after))) (inl (segment, ok', a)) =
      inr ((driver, e), inr (segment, rw after a))
  reserved _ (r, c) (q, d') (inl (e, inr (_, after))) (inr (failed, same)) =
      inr ((driver, e), inl (after ∙ same))
  reserved _ (r, c) (q, d') (inr (e, after)) (inl (segment, ok', a)) =
      inl (segment, e ∙ ok', rw after a)
  reserved _ (r, c) (q, d') (inr (e, after)) (inr ((x, failed), same)) =
      inr ((x, e ∙ failed), inl (after ∙ same))

-- `Reserve` returns the segment that begins at the durable mark and moves the mark just behind it, within
-- the safe integers and the size asked for; or it fails, with the mark as it was or moved past a segment
-- that nobody holds.
pub reserve-Reserves : (size : ℕ) (c : Conn Allocator) → Reserves size c.db (reserve size c)
unfolding reserve
reserve-Reserves size c =
    unless (ltb size 1 || ltb max_segment_size size)
      (λ bad. simp bad (inr ((driver, refl), inl refl)))
      λ good.
        let positive : 1 ≤ size = ground arith in
        simp good (
          reserved size c.db positive _ (within_transaction (reserve_callback size) c)
            (serial (reserve_callback size) c.db)
            (within_transaction-IsAtomic (reserve_callback size) (callback-Steady size) c)
            (callback-Serially size c.db positive))
