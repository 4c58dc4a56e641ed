-- ===== src/Messages/Sequences.antt =====
-- The sequence numbers that a group's messages are given.
use yun_chat.Prelude.{
  ℕ, zero, suc, ◌+◌, ◌≡◌, refl, ◌∙◌, ap, ◌⊎◌, inl, inr, false, Option, none, some, List, [], ◌∷◌,
  ◌==◌, length, length-append, arith, sym, ==_iff, ◌++◌, if◌then◌else◌, Bool-cases,
}
use yun_chat.Projection.Keys.{Entry, items, remove_owner}
use yun_chat.Projection.Infos.{Info, find_info}
use yun_chat.Messages.{
  Runtime, Checked, admitted, rule, failed, GroupMsgCheckResult, remember, increment_seq, group_seq,
  exec_private_msg_check, exec_group_msg_check, seq_of,
}

-- A message that a client sends: to a user, or to a group.
pub data Call : Type 0 where
  to_user : ℕ → Option ℕ → ℕ → ℕ → Call
  to_group : ℕ → Option ℕ → ℕ → ℕ → Call

-- The number that the reply gives in the group, if it admits the message.
abbrev pub assigned : Checked GroupMsgCheckResult → List ℕ
assigned (admitted reply) = reply.group_seq ∷ []
assigned (rule code) = []
assigned (failed e) = []

pub call : ℕ → Call → Runtime → List ℕ × Runtime
call group (to_user receiver id sender client) s =
    let (r, s') = exec_private_msg_check id sender receiver client s in ([], s')
call group (to_group other id sender client) s =
    let (r, s') = exec_group_msg_check id other sender client s in
    (if other == group then assigned r else [], s')

-- The numbers given in one group by a sequence of messages of any kind.
pub calls : ℕ → List Call → Runtime → List ℕ × Runtime
calls group [] s = ([], s)
calls group (c ∷ cs) s =
    let (seqs, s') = call group c s in let (rest, s'') = calls group cs s' in (seqs ++ rest, s'')

-- start, start + 1, …
abbrev pub range_from : ℕ → ℕ → List ℕ
range_from start zero = []
range_from start (suc n) = start ∷ range_from (start + 1) n

others_kept :
    (group other : ℕ) (es : List Entry)
    → (other == group) ≡ false
    → items group (remove_owner other es) ≡ items group es
unfolding items remove_owner
others_kept group other [] h = refl
others_kept group other (e ∷ es) h = ground (arith, others_kept group other es h)

increment_lem :
    (group other : ℕ) (s : Runtime)
    → group_seq group (increment_seq other s)
      ≡ (if other == group then group_seq group s + 1 else group_seq group s)
unfolding increment_seq items
increment_lem group other s = elim (Bool-cases (other == group)) [
  | inl same ↦
      let e : other ≡ group = (==_iff other group).0 same in
      ground (arith, ap (λ (g : ℕ). group_seq g s) e)
  | inr differ ↦ rw differ (ap seq_of (others_kept group other s.cache.group_seq differ))
]

abbrev Counts : ℕ → Runtime → List ℕ × Runtime → Type 0
Counts group s r =
    (r.0 ≡ range_from (group_seq group s + 1) (length r.0))
    × (group_seq group r.1 ≡ group_seq group s + length r.0)

private_kept :
    (group : ℕ) (id : Option ℕ) (sender receiver client : ℕ) (s : Runtime)
    → group_seq group (exec_private_msg_check id sender receiver client s).1 ≡ group_seq group s
unfolding exec_private_msg_check
private_kept group none sender receiver client s = refl
private_kept group (some id) sender receiver client s = ground arith

-- One message to a group: the group's number goes up by one exactly if the message is admitted.
abbrev Numbers : ℕ → Runtime → Checked GroupMsgCheckResult × Runtime → Type 0
Numbers other s r =
    ((assigned r.0 ≡ []) × (r.1 ≡ s))
    ⊎ ((assigned r.0 ≡ (group_seq other s + 1) ∷ [])
        × (r.1.cache.group_seq ≡ (increment_seq other s).cache.group_seq))

group-Numbers :
    (o : Option Info) (other sender client id : ℕ) (s : Runtime)
    → find_info other sender s.cache.group_member_info ≡ o
    → Numbers other s (exec_group_msg_check (some id) other sender client s)
unfolding exec_group_msg_check remember
group-Numbers none other sender client id s e = ground arith
group-Numbers (some info) other sender client id s e = ground arith

exec-Numbers :
    (id : Option ℕ) (other sender client : ℕ) (s : Runtime)
    → Numbers other s (exec_group_msg_check id other sender client s)
unfolding exec_group_msg_check
exec-Numbers none other sender client s = inl (refl, refl)
exec-Numbers (some id) other sender client s =
    group-Numbers (find_info other sender s.cache.group_member_info) other sender client id s refl

Counts-group :
    (group other : ℕ) (s : Runtime) (r : Checked GroupMsgCheckResult × Runtime)
    → Numbers other s r
    → Counts group s (if other == group then assigned r.0 else [], r.1)
Counts-group group other s r (inl h) = elim (Bool-cases (other == group)) [
  | inl same ↦ rw (same, h.0, h.1) (refl, omega arith)
  | inr differ ↦ rw (differ, h.1) (refl, omega arith)
]
Counts-group group other s r (inr h) =
    let after : group_seq group r.1 ≡ group_seq group (increment_seq other s) =
      ap (λ (es : List Entry). seq_of (items group es)) h.1 in
    elim (Bool-cases (other == group)) [
      | inl same ↦
          let e : other ≡ group = (==_iff other group).0 same in
          rw (same, h.0)
            (
              ap (λ (g : ℕ). (group_seq g s + 1) ∷ []) e,
              after ∙ increment_lem group other s ∙ rw same refl,
            )
      | inr differ ↦ rw differ (refl, after ∙ increment_lem group other s ∙ rw differ (omega arith))
    ]

call-Counts : (group : ℕ) (c : Call) (s : Runtime) → Counts group s (call group c s)
unfolding call
call-Counts group (to_user receiver id sender client) s =
    (refl, private_kept group id sender receiver client s ∙ omega arith)
call-Counts group (to_group other id sender client) s =
    Counts-group group other s _ (exec-Numbers id other sender client s)

range_from-append :
    (start n m : ℕ) → range_from start n ++ range_from (start + n) m ≡ range_from start (n + m)
range_from-append start zero m =
    let z : start + 0 ≡ start = omega arith in let z' : 0 + m ≡ m = omega arith in rw (z, z') refl
range_from-append start (suc n) m =
    let moved : start + suc n ≡ start + 1 + n = omega arith in
    let more : suc n + m ≡ suc (n + m) = omega arith in
    rw (moved, more) (ap (λ (l : List ℕ). start ∷ l) (range_from-append (start + 1) n m))

Counts-append :
    (group : ℕ) (s : Runtime) (a b : List ℕ × Runtime)
    → Counts group s a
    → Counts group a.1 b
    → Counts group s (a.0 ++ b.0, b.1)
Counts-append group s a b h k =
    let start = group_seq group s + 1 in
    let shifted : group_seq group a.1 + 1 ≡ start + length a.0 = omega (arith, h.1) in
    let later : b.0 ≡ range_from (start + length a.0) (length b.0) =
      k.0 ∙ ap (λ (n : ℕ). range_from n (length b.0)) shifted in
    (
      ap (λ (l : List ℕ). l ++ b.0) h.0
          ∙ ap (λ (l : List ℕ). range_from start (length a.0) ++ l) later
          ∙ range_from-append start (length a.0) (length b.0)
          ∙ ap (range_from start) (sym (length-append a.0 b.0)),
      omega (arith, h.1, k.1, length-append {0} a.0 b.0),
    )

-- Whatever messages are sent, to users and to groups, by members and others, repeated or not: the messages
-- that a group admits are numbered without a gap, each one more than the one before, from the number
-- after the group's counter on, and the counter ends at the last of them.
pub calls-consecutive :
    (group : ℕ) (cs : List Call) (s : Runtime)
    → ((calls group cs s).0 ≡ range_from (group_seq group s + 1) (length (calls group cs s).0))
      × (group_seq group (calls group cs s).1 ≡ group_seq group s + length (calls group cs s).0)
unfolding calls
calls-consecutive group [] s = (refl, omega arith)
calls-consecutive group (c ∷ cs) s =
    Counts-append group s (call group c s) (calls group cs (call group c s).1)
      (call-Counts group c s) (calls-consecutive group cs (call group c s).1)
