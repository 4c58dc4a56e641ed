-- ===== src/Database/Friends/Tables.antt =====
-- Laws of the rows of `friendships`, `blacklist` and `friend_requests`.
use yun_chat.Prelude.{
  ℕ, ◌+◌, ◌≤◌, ◌≡◌, refl, Bool, true, false, not, ◌&&◌, ◌||◌, some, List, [], ◌∷◌, arith, ◌==◌,
  is_some, some_passes, find_first, count_where, drop_passing, update_where,
}
use yun_chat.Model.{FriendRequest, request_pending, request_accepted, request_rejected}
use yun_chat.Database.{Edge, has_edge, is_edge}
use yun_chat.Database.Friends.{
  is_from_to, has_status, is_terminal, has_id, find_request, set_status, put_edge, drop_edge,
  drop_pair,
}

abbrev pub count_pending : ℕ → ℕ → List FriendRequest → ℕ
count_pending a b = count_where (has_status request_pending a b)

abbrev pub is_accepted : ℕ → ℕ → FriendRequest → Bool
is_accepted a b r = r.status == request_accepted && is_from_to a b r

pub has-put_edge :
    (a b x y : ℕ) (es : List Edge)
    → has_edge x y (put_edge a b es) ≡ ((a == x && b == y) || has_edge x y es)
has-put_edge a b x y es = ground arith

pub has-drop_edge :
    (a b x y : ℕ) (es : List Edge)
    → has_edge x y (drop_edge a b es) ≡ (not (a == x && b == y) && has_edge x y es)
has-drop_edge a b x y [] = ground arith
has-drop_edge a b x y (e ∷ es) = ground (arith, has-drop_edge a b x y es)

-- Deletion by a test that depends on the two users alone.
has-drop_passing :
    (p : Edge → Bool) (gone : Bool) (x y : ℕ) (es : List Edge)
    → ((e : Edge) → is_edge x y e ≡ true → p e ≡ gone)
    → has_edge x y (drop_passing p es) ≡ (not gone && has_edge x y es)
has-drop_passing p gone x y [] k = ground arith
has-drop_passing p gone x y (e ∷ es) k = ground (arith, k e, has-drop_passing p gone x y es k)

pub has-drop_pair :
    (a b x y : ℕ) (es : List Edge)
    → has_edge x y (drop_pair a b es)
      ≡ (not ((a == x && b == y) || (b == x && a == y)) && has_edge x y es)
has-drop_pair a b x y es = has-drop_passing _ _ x y es (λ e h. ground arith)

-- No row is pending for the pair exactly if the search finds none.
pub count-eq-zero_of_none :
    (a b : ℕ) (rows : List FriendRequest)
    → is_some (find_first (has_status request_pending a b) rows) ≡ false
    → count_pending a b rows ≡ 0
count-eq-zero_of_none a b [] e = refl
count-eq-zero_of_none a b (r ∷ rows) e = ground (arith, count-eq-zero_of_none a b rows)

module _ (a b : ℕ) where
  pub count_pending-terminal :
      (x y : ℕ) (rows : List FriendRequest)
      → count_pending x y (drop_passing (is_terminal a b) rows) ≡ count_pending x y rows
  count_pending-terminal x y [] = refl
  count_pending-terminal x y (r ∷ rows) = ground (arith, count_pending-terminal x y rows)

  -- What is left of the ordered pair after the terminal rows are gone is pending.
  pub no_row_of_none :
      (rows : List FriendRequest)
      → count_pending a b rows ≡ 0
      → some_passes (is_from_to a b) (drop_passing (is_terminal a b) rows) ≡ false
  no_row_of_none [] e = refl
  no_row_of_none (r ∷ rows) e = ground (arith, no_row_of_none rows)

  pub accepted-terminal :
      (x y : ℕ) (rows : List FriendRequest)
      → some_passes (is_accepted x y) (drop_passing (is_terminal a b) rows) ≡ true
      → some_passes (is_accepted x y) rows ≡ true
  accepted-terminal x y [] e = e
  accepted-terminal x y (r ∷ rows) e = ground (arith, accepted-terminal x y rows)

  pub count_id-terminal :
      (i : ℕ) (rows : List FriendRequest)
      → count_where (has_id i) (drop_passing (is_terminal a b) rows) ≤ count_where (has_id i) rows
  count_id-terminal i [] = omega arith
  count_id-terminal i (r ∷ rows) = ground (arith, count_id-terminal i rows)

  module _ (status now : ℕ) where
    abbrev rejecting : List FriendRequest → List FriendRequest
    rejecting = update_where (has_status status a b) (set_status request_rejected now)

    pub count_pending-rejecting :
        (x y : ℕ) (rows : List FriendRequest)
        → count_pending x y (rejecting rows) ≤ count_pending x y rows
    count_pending-rejecting x y [] = omega arith
    count_pending-rejecting x y (r ∷ rows) = ground (arith, count_pending-rejecting x y rows)

    pub accepted-rejecting :
        (x y : ℕ) (rows : List FriendRequest)
        → some_passes (is_accepted x y) (rejecting rows) ≡ true
        → some_passes (is_accepted x y) rows ≡ true
    accepted-rejecting x y [] e = e
    accepted-rejecting x y (r ∷ rows) e = ground (arith, accepted-rejecting x y rows)

    pub count_id-rejecting :
        (i : ℕ) (rows : List FriendRequest)
        → count_where (has_id i) (rejecting rows) ≡ count_where (has_id i) rows
    count_id-rejecting i [] = refl
    count_id-rejecting i (r ∷ rows) = ground (arith, count_id-rejecting i rows)

  pub pending_gone :
      (now : ℕ) (rows : List FriendRequest)
      → count_pending a b (rejecting request_pending now rows) ≡ 0
  pending_gone now [] = refl
  pending_gone now (r ∷ rows) = ground (arith, pending_gone now rows)

  pub accepted_gone :
      (now : ℕ) (x y : ℕ) (rows : List FriendRequest)
      → ((a == x && b == y) || (b == x && a == y)) ≡ true
      → some_passes (is_accepted x y) (rejecting request_accepted now rows) ≡ false
  accepted_gone now x y [] h = refl
  accepted_gone now x y (r ∷ rows) h = ground (arith, accepted_gone now x y rows h)

module _ (i status now : ℕ) where
  abbrev settling : List FriendRequest → List FriendRequest
  settling = update_where (has_id i) (set_status status now)

  pub count_id-settling :
      (j : ℕ) (rows : List FriendRequest)
      → count_where (has_id j) (settling rows) ≡ count_where (has_id j) rows
  count_id-settling j [] = refl
  count_id-settling j (r ∷ rows) = ground (arith, count_id-settling j rows)

  pub count_pending-settling :
      (x y : ℕ) (rows : List FriendRequest)
      → (status == request_pending) ≡ false
      → count_pending x y (settling rows) ≤ count_pending x y rows
  count_pending-settling x y [] e = omega arith
  count_pending-settling x y (r ∷ rows) e = ground (arith, count_pending-settling x y rows e)

  -- The only row that may become accepted is the one found.
  settling_absent :
      (x y : ℕ) (rows : List FriendRequest)
      → count_where (has_id i) rows ≡ 0
      → some_passes (is_accepted x y) (settling rows) ≡ some_passes (is_accepted x y) rows
  settling_absent x y [] e = refl
  settling_absent x y (r ∷ rows) e = ground (arith, settling_absent x y rows)

  pub accepted-settling :
      (x y : ℕ) (rows : List FriendRequest) (request : FriendRequest)
      → count_where (has_id i) rows ≤ 1
      → find_request i rows ≡ some request
      → some_passes (is_accepted x y) (settling rows) ≡ true
      → (some_passes (is_accepted x y) rows
          || (status == request_accepted && is_from_to x y request))
        ≡ true
  accepted-settling x y [] request u e h = ground arith
  accepted-settling x y (r ∷ rows) request u e h =
      ground (arith, accepted-settling x y rows request, settling_absent x y rows)

pub found_pending :
    (i : ℕ) (rows : List FriendRequest) (request : FriendRequest)
    → find_request i rows ≡ some request
    → (request.status == request_pending) ≡ true
    → 1 ≤ count_pending request.from_user_id request.to_user_id rows
found_pending i [] request e h = ground arith
found_pending i (r ∷ rows) request e h = ground (arith, found_pending i rows request)

pub found_accepted :
    (i : ℕ) (rows : List FriendRequest) (request : FriendRequest)
    → find_request i rows ≡ some request
    → (request.status == request_accepted) ≡ true
    → some_passes (is_accepted request.from_user_id request.to_user_id) rows ≡ true
found_accepted i [] request e h = ground arith
found_accepted i (r ∷ rows) request e h = ground (arith, found_accepted i rows request)

-- After the row found is settled, the pair has one pending request less.
pub settled_pending :
    (i status now : ℕ) (rows : List FriendRequest) (request : FriendRequest)
    → find_request i rows ≡ some request
    → (request.status == request_pending) ≡ true
    → (status == request_pending) ≡ false
    → count_pending request.from_user_id request.to_user_id (settling i status now rows) + 1
      ≤ count_pending request.from_user_id request.to_user_id rows
settled_pending i status now [] request e h k = ground arith
settled_pending i status now (r ∷ rows) request e h k = ground (
  arith,
  settled_pending i status now rows request,
  count_pending-settling i status now request.from_user_id request.to_user_id rows k,
)

pub found_id :
    (i : ℕ) (rows : List FriendRequest) (request : FriendRequest)
    → find_request i rows ≡ some request
    → request.id ≡ i
found_id i [] request e = ground arith
found_id i (r ∷ rows) request e = ground (arith, found_id i rows request)

pub count_pending_sym :
    (a b : ℕ) (rows : List FriendRequest) → count_pending b a rows ≡ count_pending a b rows
count_pending_sym a b [] = refl
count_pending_sym a b (r ∷ rows) = ground (arith, count_pending_sym a b rows)

pub find-settling :
    (i status now : ℕ) (rows : List FriendRequest) (request : FriendRequest)
    → find_request i rows ≡ some request
    → find_request i (settling i status now rows) ≡ some (set_status status now request)
find-settling i status now [] request e = ground arith
find-settling i status now (r ∷ rows) request e =
    ground (arith, find-settling i status now rows request)
