-- ===== src/Service/Settles.antt =====
-- A use case under any answers of the driver, given what its transaction does as one step.
use yun_chat.Prelude.{
  ◌≡◌, ◌≢◌, refl, sym, ◌∙◌, ◌⊎◌, inl, inr, Bool, true, false, Option, none, some, List, arith,
  if◌then◌else◌,
}
use yun_chat.AppError.{Code, internal_failure}
use yun_chat.Sql.{Outcome, Failure, driver, Result, ok, err, Conn, quiet, Sql, within_transaction}
use yun_chat.Sql.Steady.{Steady}
use yun_chat.Sql.Transactions.{IsAtomic, serial, within_transaction-IsAtomic, settle_rolls_back}
use yun_chat.Database.{Db}
use yun_chat.Service.{Checked, valid, invalid, Reply, code_of, outcome, respond, with_valid}

-- The steps of `Move`, and no step if the call fails with a code of its own.
abbrev pub Settles : (Db → Db → Type 0) → Db → Option Code × Db → Type 0
Settles Move d (code, d') =
    Move d d' × (((code ≡ none) ⊎ (code ≡ some internal_failure)) ⊎ (d' ≡ d))

-- The steps after a commit leave the database as it is, and succeed.
abbrev pub Harmless : {E A B : Type 0} → (A → Conn Db → Reply E B) → Type 0
Harmless {A = A} after =
    (a : A) (c : Conn Db) → (code_of (after a c).0 ≡ none) × ((after a c).1.db ≡ c.db)

ok_ne_err : {A : Type 0} (a : A) {e : Failure} → ok a ≢ err e
ok_ne_err a h = cc

module _ (Move : Db → Db → Type 0) (stays : (d d' : Db) → d' ≡ d → Move d d') (d : Db)
    {E : Type 0} where
  module _ {A B : Type 0} (to_code : Failure → Code) (reports : to_code driver ≡ internal_failure)
      (after : A → Conn Db → Reply E B) (harmless : Harmless after) where
    settled :
        (Lost : Type 0) (r : Result A × Conn Db) (q : Result A × Db)
        → Move d q.1
        → ((e : Failure) → q.0 ≡ err e → q.1 ≡ d)
        → IsAtomic Lost d r q
        → Settles Move d (outcome (respond to_code after r))
    settled _ (ok a, c) q m rolls (inl h) = absurd (ok_ne_err a h.0)
    settled _ (ok a, c) q m rolls (inr h) =
        (rw ((harmless a c).1, h.1) m, inl (inl (harmless a c).0))
    settled _ (err e, c) q m rolls (inl (h, inl unchanged)) =
        (stays d c.db unchanged, inl (inr (ground (arith, reports))))
    settled _ (err e, c) q m rolls (inl (h, inr (_, carried_out))) =
        (rw carried_out m, inl (inr (ground (arith, reports))))
    settled _ (err e, c) q m rolls (inr h) =
        let unchanged = h.1 ∙ rolls e (sym h.0) in (stays d c.db unchanged, inr unchanged)

    pub transaction-Settles :
        (body : Sql Db A) (outcomes : List Outcome)
        → Steady body
        → Move d (serial body d).1
        → Settles Move d (
            outcome (
              respond to_code after
                (within_transaction body (record { db = d; outcomes = outcomes }))))
    transaction-Settles body outcomes steady m =
        settled _ _ (serial body d) m (settle_rolls_back d (body (quiet d)))
          (within_transaction-IsAtomic body steady (record { db = d; outcomes = outcomes }))

  module _ {A : Type 0} where
    pub if-Settles :
        (b : Bool) (r s : Reply E A)
        → Settles Move d (outcome r)
        → (b ≡ false → Settles Move d (outcome s))
        → Settles Move d (outcome (if b then r else s))
    if-Settles true r s kr ks = kr
    if-Settles false r s kr ks = ks refl

    pub if_action-Settles :
        (b : Bool) (r s : Conn Db → Reply E A) (c : Conn Db)
        → Settles Move d (outcome (r c))
        → (b ≡ false → Settles Move d (outcome (s c)))
        → Settles Move d (outcome ((if b then r else s) c))
    if_action-Settles true r s c kr ks = kr
    if_action-Settles false r s c kr ks = ks refl

    pub with_valid-Settles :
        {B : Type 0} (v : Checked B) (next : B → Conn Db → Reply E A) (c : Conn Db)
        → c.db ≡ d
        → ((b : B) → v ≡ valid b → Settles Move d (outcome (next b c)))
        → Settles Move d (outcome (with_valid v next c))
    with_valid-Settles (valid b) next c e h = h b refl
    with_valid-Settles (invalid code) next c e h = (stays d c.db e, inr e)
