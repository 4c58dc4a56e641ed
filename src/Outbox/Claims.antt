-- ===== src/Outbox/Claims.antt =====
-- The claim of backend/internal/repository/cache_mysql.go as one move of the table.
use yun_chat.Prelude.{
  inl, inr, ℕ, ◌≡◌, refl, true, false, on_test, inl, Bool, List, [], ◌∷◌, map, ◌==◌, length, some,
  arith,
}
use Prim.Native.Nat.{◌-◌}
use yun_chat.Sql.{driver, Result, ok, err, Conn, quiet, within_transaction, statement}
use yun_chat.Sql.Steady.{Steady, Steady-pure, Steady-exec, Steady-query, Steady-bind}
use yun_chat.Sql.Transactions.{serial, IsAtomic, within_transaction-IsAtomic}
use yun_chat.Text.{trim_space}
use yun_chat.Outbox.{
  EventRow, Queue, ClaimedEvent, selected, as_claimed, mark_all, claim_callback, claim,
  normalize_cache_page_limit, lease_or_default,
}
use yun_chat.Outbox.Moves.{Maybe, taken}

-- A claim that returns events has taken over exactly the selected rows; one that fails may have.
abbrev pub Claims : ℕ → List EventRow → Queue → Result (List ClaimedEvent) → Queue → Type 0
Claims token rows q (ok events) q' =
    (events ≡ map (as_claimed token) rows) × (q' ≡ taken token rows q)
Claims token rows q (err e) q' = Maybe q (taken token rows q) q'

mark_all-Steady : (token : ℕ) (rows : List EventRow) → Steady (mark_all token rows)
unfolding mark_all
mark_all-Steady token [] = Steady-pure tt
mark_all-Steady token (row ∷ rows) = search (Steady-exec)

claim_callback-Steady :
    (token limit stale : ℕ) (held : ℕ → Bool) → Steady (claim_callback token limit stale held)
unfolding claim_callback
claim_callback-Steady token limit stale held =
    Steady-bind _
      (λ rows.
        Steady-bind _ (λ _. Steady-pure _) (mark_all token rows) (mark_all-Steady token rows))
      _ (Steady-query _)

mark_all-quiet :
    (token : ℕ) (rows : List EventRow) (q : Queue)
    → mark_all token rows (quiet q) ≡ (ok tt, quiet (taken token rows q))
unfolding mark_all statement
mark_all-quiet token [] q = refl
mark_all-quiet token (row ∷ rows) q = refl

claim_callback-serial :
    (token limit stale : ℕ) (held : ℕ → Bool) (q : Queue)
    → serial (claim_callback token limit stale held) q ≡ (
      ok (map (as_claimed token) (selected limit stale held q)),
      taken token (selected limit stale held q) q,
    )
unfolding claim_callback statement
claim_callback-serial token limit stale held q =
    rw (mark_all-quiet token (selected limit stale held q) q) refl

Claims-atomic :
    (Lost : Type 0) (token : ℕ) (rows : List EventRow) (q : Queue)
    (r : Result (List ClaimedEvent) × Conn Queue)
    → IsAtomic Lost q r (ok (map (as_claimed token) rows), taken token rows q)
    → Claims token rows q r.0 r.1.db
Claims-atomic Lost token rows q (ok events, c) (inl h) = absurd (cc)
Claims-atomic Lost token rows q (ok events, c) (inr h) = ground arith
Claims-atomic Lost token rows q (err e, c) (inl (h, inl same)) = ground arith
Claims-atomic Lost token rows q (err e, c) (inl (h, inr (_, all))) = ground arith
Claims-atomic Lost token rows q (err e, c) (inr h) = absurd (cc)

-- What a claim by a worker with this limit, lease and clock selects.
abbrev pub selection : ℕ → ℕ → ℕ → (ℕ → Bool) → Queue → List EventRow
selection limit lease now held =
    selected (normalize_cache_page_limit limit) (now - lease_or_default lease) held

claim-refused :
    (worker : List ℕ) (limit lease now token : ℕ) (held : ℕ → Bool) (c : Conn Queue)
    → (length (trim_space worker) == 0) ≡ true
    → claim worker limit lease now (some token) held c ≡ (err driver, c)
unfolding claim
claim-refused worker limit lease now token held c h = rw h refl

claim-runs :
    (worker : List ℕ) (limit lease now token : ℕ) (held : ℕ → Bool)
    → (length (trim_space worker) == 0) ≡ false
    → claim worker limit lease now (some token) held
      ≡ within_transaction (
          claim_callback token
            (normalize_cache_page_limit limit)
            (now - lease_or_default lease)
            held)
unfolding claim
claim-runs worker limit lease now token held h = rw h refl

transaction-Claims :
    (token limit stale : ℕ) (held : ℕ → Bool) (c : Conn Queue)
    → Claims token
        (selected limit stale held c.db)
        c.db
        (within_transaction (claim_callback token limit stale held) c).0
        (within_transaction (claim_callback token limit stale held) c).1.db
transaction-Claims token limit stale held c =
    let atomic =
      within_transaction-IsAtomic (claim_callback token limit stale held)
        (claim_callback-Steady token limit stale held) c in
    Claims-atomic _ token (selected limit stale held c.db) c.db
      (within_transaction (claim_callback token limit stale held) c)
      (rw (claim_callback-serial token limit stale held c.db) at atomic)

pub claim-Claims :
    (worker : List ℕ) (limit lease now token : ℕ) (held : ℕ → Bool) (c : Conn Queue)
    → Claims token
        (selection limit lease now held c.db)
        c.db
        (claim worker limit lease now (some token) held c).0
        (claim worker limit lease now (some token) held c).1.db
claim-Claims worker limit lease now token held c =
    on_test (length (trim_space worker) == 0)
      (λ e. rw (claim-runs worker limit lease now token held e) (
        transaction-Claims token (normalize_cache_page_limit limit) (now - lease_or_default lease)
          held c))
      (λ e. rw (claim-refused worker limit lease now token held c e) (inl refl))
