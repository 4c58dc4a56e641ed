-- ===== src/Messages/Histories.antt =====
-- Messages one after the other, with time and the rest of Redis moving between them.
use yun_chat.Prelude.{
  ℕ, ◌+◌, ◌≤◌, ◌<◌, ◌≡◌, refl, ap, ◌⊎◌, inl, inr, Bool, true, false, Option, none, some, List,
  arith,
}
use yun_chat.Projection.{Projection}
use yun_chat.Projection.Infos.{Info, find_info}
use yun_chat.Messages.{
  Runtime, Checked, admitted, rule, failed, remember, is_duplicate, increment_seq,
  exec_private_msg_check, exec_group_msg_check,
}
use yun_chat.Messages.Deduplication.{is_remembered, Before, is_again, remember-keeps}

-- Whom a message is for.
pub data Message : Type 0 where
  private_message : ℕ → Message
  group_message : ℕ → Message

abbrev pub is_admitted : {A : Type 0} → Checked A → Bool
is_admitted (admitted a) = true
is_admitted (rule code) = false
is_admitted (failed e) = false

-- Sending one: whether it is admitted, and the state that it leaves.
unfoldable pub send : Message → Option ℕ → ℕ → ℕ → Runtime → Bool × Runtime
send (private_message receiver) id sender client s =
    let (r, s') = exec_private_msg_check id sender receiver client s in (is_admitted r, s')
send (group_message group) id sender client s =
    let (r, s') = exec_group_msg_check id group sender client s in (is_admitted r, s')

pub data Step : Runtime → Runtime → Type 0 where
  sends :
      (m : Message) (id : Option ℕ) (sender client : ℕ) (s : Runtime)
      → Step s (send m id sender client s).1
  waits : (n : ℕ) (s : Runtime) → Step s (record s { now = s.now + n })
  changes :
      (p : Projection) (online : List ℕ) (s : Runtime)
      → Step s (record s { cache = p; online = online })

pub data Reach (s : Runtime) : Runtime → Type 0 where
  here : Reach s s
  next : {t u : Runtime} → Reach s t → Step t u → Reach s u

-- A message changes nothing and is refused, or it is new and is remembered.
abbrev Admits : ℕ → ℕ → Runtime → Bool × Runtime → Type 0
Admits sender client s r =
    (r ≡ (false, s))
    ⊎ ((is_duplicate sender client s ≡ false)
        × (r.1.now ≡ s.now)
        × (r.1.dedup ≡ (remember sender client s).dedup))

group-Admits :
    (o : Option Info) (group sender client id : ℕ) (s : Runtime)
    → find_info group sender s.cache.group_member_info ≡ o
    → Admits sender client s (send (group_message group) (some id) sender client s)
unfolding send exec_group_msg_check increment_seq
group-Admits none group sender client id s e = ground arith
group-Admits (some info) group sender client id s e = ground arith

pub send-Admits :
    (m : Message) (id : Option ℕ) (sender client : ℕ) (s : Runtime)
    → Admits sender client s (send m id sender client s)
unfolding send exec_private_msg_check exec_group_msg_check
send-Admits (private_message receiver) none sender client s = inl refl
send-Admits (private_message receiver) (some id) sender client s = ground arith
send-Admits (group_message group) none sender client s = inl refl
send-Admits (group_message group) (some id) sender client s =
    group-Admits (find_info group sender s.cache.group_member_info) group sender client id s refl

module _ (sender client deadline : ℕ) where
  sent-Remembers :
      (a b : ℕ) (s : Runtime) (r : Bool × Runtime)
      → Admits a b s r
      → Before sender client deadline s
      → is_remembered sender client deadline r.1 ≡ true
  sent-Remembers a b s r (inl e) h = rw e h.1
  sent-Remembers a b s r (inr e) h = rw e.2 (remember-keeps sender client deadline a b s h e.0)

  Step-now : {s t : Runtime} → Step s t → s.now ≤ t.now
  Step-now (sends m id a b s) = elim (send-Admits m id a b s) [
    | inl e ↦ rw e (omega arith)
    | inr e ↦ omega (arith, e.1)
  ]
  Step-now (waits n s) = omega arith
  Step-now (changes p online s) = omega arith

  Step-Remembers :
      {s t : Runtime}
      → Step s t
      → Before sender client deadline s
      → is_remembered sender client deadline t ≡ true
  Step-Remembers (sends m id a b s) h = sent-Remembers a b s _ (send-Admits m id a b s) h
  Step-Remembers (waits n s) h = h.1
  Step-Remembers (changes p online s) h = h.1

  Reach-now : {s t : Runtime} → Reach s t → s.now ≤ t.now
  Reach-now here = omega arith
  Reach-now (next r step) = omega (arith, Reach-now r, Step-now step)

  Reach-Remembers :
      {s t : Runtime}
      → Reach s t
      → t.now < deadline
      → is_remembered sender client deadline s ≡ true
      → is_remembered sender client deadline t ≡ true
  Reach-Remembers here h k = k
  Reach-Remembers (next r step) h k =
      Step-Remembers step
        (omega (arith, Step-now step), Reach-Remembers r (omega (arith, Step-now step)) k)

remembered :
    (sender client : ℕ) (s : Runtime)
    → is_remembered sender client (s.now + 300_000) (remember sender client s) ≡ true
unfolding remember
remembered sender client s = ground arith

refused :
    (m : Message) (id : Option ℕ) (sender client : ℕ) (t : Runtime)
    → is_duplicate sender client t ≡ true
    → send m id sender client t ≡ (false, t)
refused m id sender client t h = elim (send-Admits m id sender client t) [
  | inl e ↦ e
  | inr e ↦ absurd (cc)
]

-- After a message has been admitted, a message of the same sender with the same client identifier, private or
-- to a group, under any allocated identifier, is refused and changes nothing for five minutes of Redis's
-- clock, whatever else is sent and however the mirrored keys change in between.
pub send-admits_once :
    (m again : Message) (id id' : Option ℕ) (sender client : ℕ) (s t : Runtime)
    → (send m id sender client s).0 ≡ true
    → Reach (send m id sender client s).1 t
    → t.now < s.now + 300_000
    → send again id' sender client t ≡ (false, t)
send-admits_once m again id id' sender client s t ok r h = elim (send-Admits m id sender client s) [
  | inl e ↦ absurd (ground (arith, ap (λ (x : Bool × Runtime). x.0) e))
  | inr e ↦ refused again id' sender client t (
      is_again sender client (s.now + 300_000) t (
        h,
        Reach-Remembers sender client (s.now + 300_000) r h (rw e.2 (remembered sender client s)),
      ))
]
