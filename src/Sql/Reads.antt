-- ===== src/Sql/Reads.antt =====
-- Actions that leave the database as it is.
use yun_chat.Prelude.{◌≡◌, refl, ◌∙◌, Option, none, some, arith}
use yun_chat.AppError.{Code}
use yun_chat.Sql.{Result, ok, err, Conn, Sql, pure, query, require, continue, ◌>>=◌}

pub record Reads {D A : Type 0} (m : Sql D A) : Type 0 where
  pub same : (c : Conn D) → (m c).1.db ≡ c.db

module _ {D A : Type 0} where
  pub Reads-pure : (a : A) → Reads {D = D} (pure a)
  Reads-pure a = record { same = λ c. refl }

  pub Reads-query : (f : D → A) → Reads (query f)
  unfolding query
  Reads-query f = record { same = λ c. ground arith }

  pub Reads-require : (o : Option A) (code : Code) → Reads {D = D} (require o code)
  Reads-require none code = record { same = λ c. refl }
  Reads-require (some a) code = record { same = λ c. refl }

module _ {D A B : Type 0} (f : A → Sql D B) (hf : (a : A) → Reads (f a)) where
  continue-same : (r : Result A) (c : Conn D) → (continue r f c).1.db ≡ c.db
  continue-same (ok a) c = (hf a).same c
  continue-same (err e) c = refl

  pub Reads-bind : (m : Sql D A) → Reads m → Reads (m >>= f)
  unfolding ◌>>=◌
  Reads-bind m hm = record { same = λ c. continue-same (m c).0 (m c).1 ∙ hm.same c }

pub ruleset reads_rules = (Reads-pure, Reads-query, Reads-require, Reads-bind)
