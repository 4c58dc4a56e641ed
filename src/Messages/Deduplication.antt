-- ===== src/Messages/Deduplication.antt =====
-- The key `msg_dedup` of a client's message identifier.
use yun_chat.Prelude.{
  ℕ, ◌<◌, ◌≡◌, inl, inr, Bool, true, false, ◌&&◌, List, [], ◌∷◌, ◌==◌, some_passes, drop_passing,
  arith, Bool-cases,
}
use yun_chat.Messages.{Runtime, Dedup, remember, is_live, is_duplicate}

-- The key with the end of its time to live.
abbrev pub is_key : ℕ → ℕ → ℕ → Dedup → Bool
is_key sender client deadline d =
    (d.sender == sender && d.client_msg_id == client) && d.deadline == deadline

abbrev pub is_remembered : ℕ → ℕ → ℕ → Runtime → Bool
is_remembered sender client deadline s = some_passes (is_key sender client deadline) s.dedup

duplicates :
    (sender client deadline now : ℕ) (ds : List Dedup)
    → now < deadline
    → some_passes (is_key sender client deadline) ds ≡ true
    → some_passes (is_live sender client now) ds ≡ true
duplicates sender client deadline now [] h k = k
duplicates sender client deadline now (d ∷ ds) h k =
    ground (arith, duplicates sender client deadline now ds h)

kept :
    (sender client deadline a b : ℕ) (ds : List Dedup)
    → (a == sender && b == client) ≡ false
    → some_passes (is_key sender client deadline) ds ≡ true
    → some_passes
        (is_key sender client deadline)
        (drop_passing (λ d. d.sender == a && d.client_msg_id == b) ds)
      ≡ true
kept sender client deadline a b [] h k = k
kept sender client deadline a b (d ∷ ds) h k = ground (arith, kept sender client deadline a b ds h)

module _ (sender client deadline : ℕ) where
  abbrev pub Before : Runtime → Type 0
  Before s = (s.now < deadline) × (is_remembered sender client deadline s ≡ true)

  pub is_again : (s : Runtime) → Before s → is_duplicate sender client s ≡ true
  is_again s h = duplicates sender client deadline s.now s.dedup h.0 h.1

  pub remember-keeps :
      (a b : ℕ) (s : Runtime)
      → Before s
      → is_duplicate a b s ≡ false
      → is_remembered sender client deadline (remember a b s) ≡ true
  unfolding remember
  remember-keeps a b s h new = elim (Bool-cases (a == sender && b == client)) [
    | inl same ↦ let again : is_duplicate a b s ≡ true = ground (arith, is_again s h) in absurd (cc)
    | inr differ ↦ ground (arith, kept sender client deadline a b s.dedup differ h.1)
  ]
