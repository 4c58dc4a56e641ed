-- ===== src/Sql/After.antt =====
-- What holds after an action, whatever the driver answers: rules for the parts of a do block.
use yun_chat.Prelude.{Bool, true, false, List, [], ◌∷◌, if◌then◌else◌}
use yun_chat.Sql.{
  Failure, driver, Outcome, done, refused, lost, Result, ok, err, Conn, Sql, pure, raise, statement,
  query, exec, continue, ◌>>=◌,
}

module _ {D A : Type 0} where
  pub record After (m : Sql D A) (d : D) (Q : Result A → D → Type 0) : Type 0 where
    pub holds :
        (outcomes : List Outcome)
        → Q
            (m (record { db = d; outcomes = outcomes })).0
            (m (record { db = d; outcomes = outcomes })).1.db

  pub After-pure : (a : A) (d : D) (Q : Result A → D → Type 0) → Q (ok a) d → After (pure a) d Q
  After-pure a d Q h = record { holds = λ o. h }

  pub After-raise :
      (e : Failure) (d : D) (Q : Result A → D → Type 0) → Q (err e) d → After (raise e) d Q
  After-raise e d Q h = record { holds = λ o. h }

  statement-holds :
      (f : D → Result A × D) (d : D) (Q : Result A → D → Type 0)
      → Q (f d).0 (f d).1
      → Q (err driver) d
      → Q (err driver) (f d).1
      → (o : List Outcome)
      → Q
          (statement f (record { db = d; outcomes = o })).0
          (statement f (record { db = d; outcomes = o })).1.db
  unfolding statement
  statement-holds f d Q h r l [] = h
  statement-holds f d Q h r l (done ∷ rest) = h
  statement-holds f d Q h r l (refused ∷ rest) = r
  statement-holds f d Q h r l (lost ∷ rest) = l

  pub After-statement :
      (f : D → Result A × D) (d : D) (Q : Result A → D → Type 0)
      → Q (f d).0 (f d).1
      → Q (err driver) d
      → Q (err driver) (f d).1
      → After (statement f) d Q
  After-statement f d Q h r l = record { holds = statement-holds f d Q h r l }

  pub After-query :
      (f : D → A) (d : D) (Q : Result A → D → Type 0)
      → Q (ok (f d)) d
      → Q (err driver) d
      → After (query f) d Q
  unfolding query
  After-query f d Q h r = After-statement (λ s. (ok (f s), s)) d Q h r r

  pub After-if :
      (b : Bool) (m n : Sql D A) (d : D) (Q : Result A → D → Type 0)
      → After m d Q
      → After n d Q
      → After (if b then m else n) d Q
  After-if true m n d Q hm hn = hm
  After-if false m n d Q hm hn = hn

  pub After-weaken :
      (m : Sql D A) (d : D) (P Q : Result A → D → Type 0)
      → ((r : Result A) (e : D) → P r e → Q r e)
      → After m d P
      → After m d Q
  After-weaken m d P Q f a = record { holds = λ o. f _ _ (a.holds o) }

pub After-exec :
    {D : Type 0} (f : D → D) (d : D) (Q : Result (Unit {0}) → D → Type 0)
    → Q (ok tt) (f d)
    → Q (err driver) d
    → Q (err driver) (f d)
    → After (exec f) d Q
unfolding exec
After-exec f d Q h r l = After-statement (λ s. (ok tt, f s)) d Q h r l

module _ {D A B : Type 0} (f : A → Sql D B) (Q : Result B → D → Type 0) where
  -- What the first action owes to the second.
  abbrev pub Then : Result A → D → Type 0
  Then (ok a) d = After (f a) d Q
  Then (err e) d = Q (err e) d

  Then-continue :
      (r : Result A) (c : Conn D) → Then r c.db → Q (continue r f c).0 (continue r f c).1.db
  Then-continue (ok a) c h = h.holds c.outcomes
  Then-continue (err e) c h = h

  pub After-bind : (m : Sql D A) (d : D) → After m d Then → After (m >>= f) d Q
  unfolding ◌>>=◌
  After-bind m d h = record {
    holds = λ o.
        Then-continue (m (record { db = d; outcomes = o })).0
          (m (record { db = d; outcomes = o })).1 (h.holds o);
  }
