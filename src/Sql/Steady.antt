-- ===== src/Sql/Steady.antt =====
-- Runs under driver failures compared with the run in which the driver never fails: each statement
-- either reports a driver failure, which ends the callback, or does what it does in that run.
use yun_chat.Prelude.{
  ◌≡◌, refl, ◌⊎◌, inl, inr, Bool, true, false, Option, none, some, arith, if◌then◌else◌,
}
use yun_chat.AppError.{Code}
use yun_chat.Sql.{
  Failure, app, driver, Result, ok, err, Conn, quiet, Sql, pure, raise, statement, query, exec,
  ◌>>=◌, reject_if, require, continue,
}

-- The first run stopped at the driver, or ended as the second did.
abbrev pub Agrees : {D A : Type 0} → Result A × Conn D → Result A × Conn D → Type 0
Agrees (r, c) (q, e) = (r ≡ err driver) ⊎ ((r ≡ q) × (c.db ≡ e.db))

pub record Steady {D A : Type 0} (m : Sql D A) : Type 0 where
  pub stays_quiet : (d : D) → (m (quiet d)).1 ≡ quiet (m (quiet d)).1.db
  pub agrees : (c : Conn D) → Agrees (m c) (m (quiet c.db))

module _ {D A : Type 0} where
  pub Steady-pure : (a : A) → Steady {D = D} (pure a)
  Steady-pure a = record { stays_quiet = λ d. refl; agrees = λ c. inr (refl, refl) }

  pub Steady-raise : (e : Failure) → Steady {D = D} (raise {A = A} e)
  Steady-raise e = record { stays_quiet = λ d. refl; agrees = λ c. inr (refl, refl) }

  pub Steady-statement : (f : D → Result A × D) → Steady (statement f)
  unfolding statement
  Steady-statement f = record { stays_quiet = λ d. refl; agrees = λ c. ground arith }

  pub Steady-if : (b : Bool) (m n : Sql D A) → Steady m → Steady n → Steady (if b then m else n)
  Steady-if true m n hm hn = hm
  Steady-if false m n hm hn = hn

  pub Steady-query : (f : D → A) → Steady (query f)
  unfolding query
  Steady-query f = Steady-statement (λ d. (ok (f d), d))

  pub Steady-require : (o : Option A) (code : Code) → Steady {D = D} (require o code)
  Steady-require none code = Steady-raise (app code)
  Steady-require (some a) code = Steady-pure a

module _ {D : Type 0} where
  pub Steady-exec : (f : D → D) → Steady (exec f)
  unfolding exec
  Steady-exec f = Steady-statement (λ d. (ok tt, f d))

  pub Steady-reject_if : (b : Bool) (code : Code) → Steady {D = D} (reject_if b code)
  Steady-reject_if true code = Steady-raise (app code)
  Steady-reject_if false code = Steady-pure tt

module _ {D A B : Type 0} (f : A → Sql D B) (hf : (a : A) → Steady (f a)) where
  Agrees-continue :
      (r q : Result A) (c e : Conn D)
      → (r ≡ q) × (c.db ≡ e.db)
      → e ≡ quiet e.db
      → Agrees (continue r f c) (continue q f e)
  Agrees-continue r (ok a) c e h k = rw (h.0, k, ← h.1) ((hf a).agrees c)
  Agrees-continue r (err x) c e h k = rw h.0 (inr (refl, h.1))

  continue-quiet :
      (q : Result A) (e : Conn D)
      → e ≡ quiet e.db
      → (continue q f e).1 ≡ quiet (continue q f e).1.db
  continue-quiet (ok a) e k = rw k ((hf a).stays_quiet e.db)
  continue-quiet (err x) e k = k

  Agrees-bind :
      (r : Result A × Conn D) (q : Result A × Conn D)
      → Agrees r q
      → q.1 ≡ quiet q.1.db
      → Agrees (continue r.0 f r.1) (continue q.0 f q.1)
  Agrees-bind r q (inl e) k = rw e (inl refl)
  Agrees-bind r q (inr h) k = Agrees-continue r.0 q.0 r.1 q.1 h k

  pub Steady-bind : (m : Sql D A) → Steady m → Steady (m >>= f)
  unfolding ◌>>=◌
  Steady-bind m hm = record {
    stays_quiet = λ d. continue-quiet (m (quiet d)).0 (m (quiet d)).1 (hm.stays_quiet d);
    agrees = λ c. Agrees-bind (m c) (m (quiet c.db)) (hm.agrees c) (hm.stays_quiet c.db);
  }

pub ruleset steady_rules = (
  Steady-pure, Steady-raise, Steady-statement, Steady-query, Steady-exec, Steady-require,
  Steady-reject_if, Steady-if, Steady-bind,
)
