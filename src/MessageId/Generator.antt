-- ===== src/MessageId/Generator.antt =====
-- backend/internal/messageid/generator.go.
-- Identifiers and segment bounds are `int64`s; 0 stands for every value below 1, which the guards treat
-- alike. A segment size is an integer, as 0 means the default and a negative size is refused.
use yun_chat.Prelude.{ℕ, ◌+◌, ◌-◌, ◌^◌, Bool, ◌||◌, Option, none, some, ◌==◌, ltb, if◌then◌else◌}
use yun_chat.Sql.{Result, ok, err, driver, invalid_segment}

-- JavaScript's largest exactly representable integer.
abbrev pub max_id : ℕ
max_id = 2 ^ 53 - 1

abbrev pub default_segment_size : ℕ
default_segment_size = 65_536

abbrev pub max_segment_size : ℕ
max_segment_size = 1_000_000

-- An inclusive range of identifiers.
pub record Segment : Type 0 where
  pub first : ℕ
  pub last : ℕ

pub record Generator : Type 0 where
  pub segment_size : ℕ
  pub next : ℕ
  pub last : ℕ

-- `negsuc n` is -(n + 1).
pub data ℤ : Type 0 where
  pos : ℕ → ℤ
  negsuc : ℕ → ℤ

abbrev with_size : ℕ → Option Generator
with_size size =
    if ltb size 1 || ltb max_segment_size size
    then none
    else some (record { segment_size = size; next = 0; last = 0 })

-- `New`, for a store that is not nil.
unfoldable pub new : ℤ → Option Generator
new (pos size) = with_size (if size == 0 then default_segment_size else size)
new (negsuc n) = none

unfoldable pub validate_segment : Segment → ℕ → Bool
validate_segment segment expected_size =
    if ltb segment.first 1 || ltb segment.last segment.first || ltb max_id segment.last
    then Bool.false
    else if ltb expected_size (segment.last - segment.first + 1)
    then Bool.false
    else Bool.true

-- A `SegmentStore`: its method `Reserve`, on the store's state.
abbrev pub SegmentStore : Type 0 → Type 0
SegmentStore S = ℕ → S → Result Segment × S

module _ {S : Type 0} where
  abbrev pub issue : Generator → S → Result ℕ × Generator × S
  issue g s = (ok g.next, record g { next = g.next + 1 }, s)

  abbrev pub install : Generator → Result Segment × S → Result ℕ × Generator × S
  install g (err e, s) = (err e, g, s)
  install g (ok segment, s) =
      if validate_segment segment g.segment_size
      then issue (record g { next = segment.first; last = segment.last }) s
      else (err invalid_segment, g, s)

  -- `Next`: the two flags are the context's state before and after the wait for the mutex.
  unfoldable pub next_id : SegmentStore S → Bool → Bool → Generator → S → Result ℕ × Generator × S
  unfolding validate_segment
  next_id reserve cancelled cancelled_waiting g s =
      if cancelled || cancelled_waiting
      then (err driver, g, s)
      else if g.next == 0 || ltb g.last g.next
      then install g (reserve g.segment_size s)
      else issue g s
