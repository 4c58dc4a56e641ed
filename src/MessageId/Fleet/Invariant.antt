-- ===== src/MessageId/Fleet/Invariant.antt =====
-- Identifiers are unique across processes, crashes and driver failures.
use yun_chat.Prelude.{
  ℕ, ◌+◌, ◌≤◌, ◌<◌, ◌≡◌, ◌≢◌, sym, ◌⊎◌, inl, inr, none, some, List, [], ◌∷◌, arith, ◌==◌, ==_iff,
  on_test,
}
use mathlib.Core.Path.{subst}
use yun_chat.MessageId.Generator.{Generator, Segment, max_id}
use yun_chat.MessageId.MysqlStore.{Allocator}
use yun_chat.MessageId.MysqlStore.Reservations.{Advances}
use yun_chat.MessageId.Fleet.{Fleet, update}

-- The identifiers that a generator may still hand out.
abbrev pub Holds : Generator → ℕ → Type 0
Holds g x = (1 ≤ g.next) × (g.next ≤ x) × (x ≤ g.last)

abbrev pub In : ℕ → List ℕ → Type 0
In x [] = ⊥
In x (y ∷ ys) = (x ≡ y) ⊎ In x ys

abbrev pub Unique : List ℕ → Type 0
Unique [] = Unit
Unique (x ∷ xs) = ¬ In x xs × Unique xs

-- The first identifier that no process has reserved.
abbrev pub mark : Allocator → ℕ
mark a = elim a.next_id [ none ↦ 0 | some n ↦ n ]

pub record IsSound (f : Fleet) : Type 0 where
  pub held_safe : (i x : ℕ) → Holds (f.generators i) x → (x < mark f.allocator) × (x ≤ max_id)
  pub held_apart : (i j x : ℕ) → Holds (f.generators i) x → Holds (f.generators j) x → i ≡ j
  pub issued_safe : (x : ℕ) → In x f.issued → (1 ≤ x) × (x < mark f.allocator) × (x ≤ max_id)
  pub issued_gone : (i x : ℕ) → In x f.issued → ¬ Holds (f.generators i) x
  pub distinct : Unique f.issued

-- The mark never moves back.
pub advanced_mark :
    (size : ℕ) (s : Segment) (d d' : Allocator)
    → Advances size s d d'
    → (mark d ≡ s.first) × (mark d' ≡ s.last + 1)
advanced_mark size s d d' a = (rw a.marked, rw a.moved)

pub raised_mark :
    (f : Fleet) (a : Allocator)
    → IsSound f
    → mark f.allocator ≤ mark a
    → IsSound (record f { allocator = a })
raised_mark f a v up = record {
  held_safe = λ j x h. (omega (arith, v.held_safe j x h), (v.held_safe j x h).1);
  held_apart = v.held_apart;
  issued_safe = λ x m. let s = v.issued_safe x m in (s.0, omega (arith, s.1), s.2);
  issued_gone = v.issued_gone;
  distinct = v.distinct;
}

-- Who holds an identifier after the generator of one process has been replaced.
abbrev pub HeldAfter : (ℕ → Generator) → ℕ → Generator → ℕ → ℕ → Type 0
HeldAfter generators i g j x = ((i ≡ j) × Holds g x) ⊎ ((i ≢ j) × Holds (generators j) x)

pub held_after :
    (generators : ℕ → Generator) (i : ℕ) (g : Generator) (j x : ℕ)
    → Holds (update generators i g j) x
    → HeldAfter generators i g j x
held_after generators i g j x h =
    on_test (i == j) (λ e. inr (ground (arith, e), (simp e at h)))
      (λ e. inl ((==_iff i j).0 e, (simp e at h)))

module _ (f : Fleet) (v : IsSound f) (i : ℕ) where
  -- A generator that holds no more than before.
  pub shrunk :
      (g : Generator)
      → ((x : ℕ) → Holds g x → Holds (f.generators i) x)
      → IsSound (record f { generators = update f.generators i g })
  shrunk g within = record {
    held_safe = λ j x h. v.held_safe j x (back j x h);
    held_apart = λ j k x h h'. v.held_apart j k x (back j x h) (back k x h');
    issued_safe = v.issued_safe;
    issued_gone = λ j x m h. v.issued_gone j x m (back j x h);
    distinct = v.distinct;
  }
    where
      back : (j x : ℕ) → Holds (update f.generators i g j) x → Holds (f.generators j) x
      back j x h = elim (held_after f.generators i g j x h) [
        | inl (e, held) ↦ subst (λ k. Holds (f.generators k) x) e (within x held)
        | inr (ne, held) ↦ held
      ]

  -- One identifier leaves the segment of its generator and is issued.
  module _ (live : 1 ≤ (f.generators i).next)
      (left : (f.generators i).next ≤ (f.generators i).last) where
    abbrev g : Generator
    g = f.generators i

    abbrev g' : Generator
    g' = record g { next = g.next + 1 }

    held : Holds g g.next
    held = (live, omega arith, left)

    gone : (j x : ℕ) → In x (g.next ∷ f.issued) → ¬ Holds (update f.generators i g' j) x
    gone j x (inl e) h = elim (held_after f.generators i g' j x h) [
      | inl (same, now) ↦ omega arith
      | inr (ne, other) ↦ ne (v.held_apart i j g.next held (rw (sym e) other))
    ]
    gone j x (inr m) h = elim (held_after f.generators i g' j x h) [
      | inl (same, now) ↦ v.issued_gone i x m (omega arith)
      | inr (ne, other) ↦ v.issued_gone j x m other
    ]

    pub issued_local :
        IsSound (record f { generators = update f.generators i g'; issued = g.next ∷ f.issued })
    issued_local =
        let smaller = shrunk g' (λ x h. omega arith) in
        record {
          held_safe = smaller.held_safe;
          held_apart = smaller.held_apart;
          issued_safe = λ x m. issued_safely x m;
          issued_gone = gone;
          distinct = ((λ m. v.issued_gone i g.next m held), v.distinct);
        }
      where
        issued_safely :
            (x : ℕ) → In x (g.next ∷ f.issued) → (1 ≤ x) × (x < mark f.allocator) × (x ≤ max_id)
        issued_safely x (inl e) = let s = v.held_safe i g.next held in rw e (live, s.0, s.1)
        issued_safely x (inr m) = v.issued_safe x m
