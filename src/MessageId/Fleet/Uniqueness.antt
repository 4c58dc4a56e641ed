-- ===== src/MessageId/Fleet/Uniqueness.antt =====
-- Every step of a fleet keeps the invariant, so the identifiers of any history are unique.
use yun_chat.Prelude.{List, refl, [], ℕ, ◌+◌, ◌≤◌, ◌<◌, ◌≡◌, inl, inr, some, [], ◌∷◌, arith}
use yun_chat.Sql.{Result, Conn}
use yun_chat.MessageId.Generator.{
  Generator, ℤ, pos, negsuc, Segment, new, max_id, default_segment_size,
}
use yun_chat.MessageId.MysqlStore.{Allocator}
use yun_chat.MessageId.MysqlStore.Reservations.{Advances}
use yun_chat.MessageId.Fleet.{
  Fleet, Step, called, started, Reach, here, next, update, after_call, call,
}
use yun_chat.MessageId.Fleet.Calls.{Call, fails, local, refills, next_id-Call}
use yun_chat.MessageId.Fleet.Invariant.{
  Holds, In, Unique, mark, IsSound, HeldAfter, held_after, raised_mark, shrunk, issued_local,
  advanced_mark,
}

module _ (f : Fleet) (v : IsSound f) (i size : ℕ) (s : Segment) (a : Allocator)
    (moves : Advances size s f.allocator a) where
  abbrev g' : Generator
  g' = record (f.generators i) { next = s.first + 1; last = s.last }

  before : mark f.allocator ≡ s.first
  before = (advanced_mark size s f.allocator a moves).0

  after : mark a ≡ s.last + 1
  after = (advanced_mark size s f.allocator a moves).1

  old_below : (j x : ℕ) → Holds (f.generators j) x → x < s.first
  old_below j x h = omega (arith, v.held_safe j x h, before)

  refilled_safe : (j x : ℕ) → Holds (update f.generators i g' j) x → (x < mark a) × (x ≤ max_id)
  refilled_safe j x h = elim (held_after f.generators i g' j x h) [
    | inl (same, now) ↦ (omega (arith, after), omega (arith, moves.safe))
    | inr (ne, other) ↦
        (omega (arith, after, old_below j x other, moves.ordered), (v.held_safe j x other).1)
  ]

  refilled_apart :
      (j k x : ℕ)
      → Holds (update f.generators i g' j) x
      → Holds (update f.generators i g' k) x
      → j ≡ k
  refilled_apart j k x h h' =
      apart (held_after f.generators i g' j x h) (held_after f.generators i g' k x h')
    where
      apart : HeldAfter f.generators i g' j x → HeldAfter f.generators i g' k x → j ≡ k
      apart (inl (p, now)) (inl (q, now')) = omega arith
      apart (inl (p, now)) (inr (q, other)) = absurd (omega (arith, old_below k x other))
      apart (inr (p, other)) (inl (q, now)) = absurd (omega (arith, old_below j x other))
      apart (inr (p, other)) (inr (q, other')) = v.held_apart j k x other other'

  refilled_issued : (x : ℕ) → In x (s.first ∷ f.issued) → (1 ≤ x) × (x < mark a) × (x ≤ max_id)
  refilled_issued x (inl e) = (
    omega (arith, moves.positive),
    omega (arith, after, moves.ordered),
    omega (arith, moves.ordered, moves.safe),
  )
  refilled_issued x (inr m) =
      let old = v.issued_safe x m in
      (old.0, omega (arith, old.1, before, after, moves.ordered), old.2)

  refilled_gone : (j x : ℕ) → In x (s.first ∷ f.issued) → ¬ Holds (update f.generators i g' j) x
  refilled_gone j x (inl e) h = elim (held_after f.generators i g' j x h) [
    | inl (same, now) ↦ omega arith
    | inr (ne, other) ↦ omega (arith, old_below j x other)
  ]
  refilled_gone j x (inr m) h = elim (held_after f.generators i g' j x h) [
    | inl (same, now) ↦ omega (arith, (v.issued_safe x m).1, before)
    | inr (ne, other) ↦ v.issued_gone j x m other
  ]

  issued_refill :
      IsSound (record {
        generators = update f.generators i g';
        allocator = a;
        issued = s.first ∷ f.issued;
      })
  issued_refill = record {
    held_safe = refilled_safe;
    held_apart = refilled_apart;
    issued_safe = refilled_issued;
    issued_gone = refilled_gone;
    distinct = ((λ m. omega (arith, (v.issued_safe s.first m).1, before)), v.distinct);
  }

module _ (f : Fleet) (v : IsSound f) (i : ℕ) where
  Call-IsSound :
      (r : Result ℕ × Generator × Conn Allocator)
      → Call (f.generators i) f.allocator r
      → IsSound (after_call f i r)
  Call-IsSound r (fails e failed same (inl unmoved)) =
      simp (failed, same, unmoved) (shrunk f v i (f.generators i) (λ x h. h))
  Call-IsSound r (fails e failed same (inr (s, moves))) =
      let m = advanced_mark _ s f.allocator r.2.db moves in
      let raised = raised_mark f r.2.db v (omega (arith, m.0, m.1, moves.ordered)) in
      simp (failed, same)
        (shrunk (record f { allocator = r.2.db }) raised i (f.generators i) (λ x h. h))
  Call-IsSound r (local live left issued moved unmoved) =
      simp (issued, moved, unmoved) (issued_local f v i live left)
  Call-IsSound r (refills s moves issued moved) =
      simp (issued, moved) (issued_refill f v i _ s r.2.db moves)

-- A new generator holds nothing.
new_holds_nothing : (size : ℤ) (g : Generator) → new size ≡ some g → g.next ≡ 0
unfolding new
new_holds_nothing (pos n) g e = ground arith
new_holds_nothing (negsuc n) g e = ground arith

Step-IsSound : (f f' : Fleet) → Step f f' → IsSound f → IsSound f'
Step-IsSound f f' (called i cancelled waiting outcomes e) v = rw e (
    Call-IsSound f v i (call f i cancelled waiting outcomes) (
      next_id-Call cancelled waiting (f.generators i)
        (record { db = f.allocator; outcomes = outcomes })))
Step-IsSound f f' (started i size g made e) v =
    rw e (shrunk f v i g (λ x h. absurd (omega (arith, new_holds_nothing size g made))))

-- No process has started, the row is at `first`, and nothing has been issued.
abbrev pub installed : ℕ → Fleet
installed first = record {
  generators = λ i. record { segment_size = default_segment_size; next = 0; last = 0 };
  allocator = record { next_id = some first };
  issued = [];
}

installed-IsSound : (first : ℕ) → IsSound (installed first)
installed-IsSound first = record {
  held_safe = λ i x h. absurd (omega arith);
  held_apart = λ i j x h h'. absurd (omega arith);
  issued_safe = λ x m. absurd m;
  issued_gone = λ i x m. absurd m;
  distinct = tt;
}

Reach-IsSound : (first : ℕ) (f : Fleet) → Reach (installed first) f → IsSound f
Reach-IsSound first f here = installed-IsSound first
Reach-IsSound first f (next r s) = Step-IsSound _ f s (Reach-IsSound first _ r)

abbrev pub InRange : List ℕ → Type 0
InRange [] = Unit {0}
InRange (x ∷ xs) = (1 ≤ x) × (x ≤ max_id) × InRange xs

all-InRange : (xs : List ℕ) → ((x : ℕ) → In x xs → (1 ≤ x) × (x ≤ max_id)) → InRange xs
all-InRange [] h = tt
all-InRange (x ∷ xs) h =
    let first = h x (inl refl) in (first.0, first.1, all-InRange xs (λ y m. h y (inr m)))

-- In every history of calls by any number of processes, with crashes, restarts and driver failures (lost
-- answers to COMMIT included), the identifiers that calls have returned are pairwise different, at
-- least 1 and at most 2^53 - 1.
pub issued-Unique :
    (first : ℕ) (f : Fleet) → Reach (installed first) f → Unique f.issued × InRange f.issued
issued-Unique first f r =
    let v = Reach-IsSound first f r in
    (v.distinct, all-InRange f.issued (λ x m. ((v.issued_safe x m).0, (v.issued_safe x m).2)))
