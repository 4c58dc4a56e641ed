-- ===== src/MessageId/Progress.antt =====
-- A call of `Next` succeeds while identifiers are left.
use yun_chat.Prelude.{
  ℕ, ◌+◌, ◌-◌, ◌≤◌, ◌≡◌, true, false, ◌||◌, some, arith, ◌==◌, ltb, unless, if◌then◌else◌,
}
use yun_chat.Sql.{ok, quiet, within_transaction, query, statement, ◌>>=◌}
use yun_chat.MessageId.Generator.{Generator, next_id, validate_segment, max_id, max_segment_size}
use yun_chat.MessageId.MysqlStore.{
  Allocator, reserve, reserve_callback, reserve_from, advance, clamped,
}

module _ (g : Generator) (a : Allocator) (first : ℕ) (marked : a.next_id ≡ some first)
    (sized : (1 ≤ g.segment_size) × (g.segment_size ≤ max_segment_size))
    (room : (1 ≤ first) × (first ≤ max_id)) where
  abbrev last : ℕ
  last = first + clamped g.segment_size first - 1

  reserve_lem :
      reserve g.segment_size (quiet a)
      ≡ (ok (record { first = first; last = last }), quiet (record { next_id = some (last + 1) }))
  unfolding reserve reserve_callback reserve_from advance statement query ◌>>=◌ within_transaction
  reserve_lem =
      let size_ok : (ltb g.segment_size 1 || ltb max_segment_size g.segment_size) ≡ false =
        ground arith in
      let mark_ok : (ltb first 1 || ltb max_id first) ≡ false = ground arith in
      simp (size_ok, marked, mark_ok)

  segment_ok : validate_segment (record { first = first; last = last }) g.segment_size ≡ true
  unfolding validate_segment
  segment_ok = ground arith

  abbrev issued : ℕ
  issued = if g.next == 0 || ltb g.last g.next then first else g.next

  -- Where the driver does not fail, the size is one that `New` accepts and the allocator's mark is an
  -- identifier, Next returns an identifier: the next of the segment, or the first of a new segment that
  -- begins at the mark; and the generator moves past it.
  pub next_id-ok :
      ((next_id reserve false false g (quiet a)).0 ≡ ok issued)
      × ((next_id reserve false false g (quiet a)).1.next ≡ issued + 1)
  unfolding next_id
  next_id-ok =
      unless (g.next == 0 || ltb g.last g.next)
        (λ e. (simp (e, reserve_lem, segment_ok), simp (e, reserve_lem, segment_ok)))
        λ e. (simp e, simp e)
