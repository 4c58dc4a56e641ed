-- ===== src/Database/Locks.antt =====
-- `LockGroupUsers` and `LockFriendUsers` count two exactly if both users exist and differ.
use yun_chat.Prelude.{ℕ, ◌≡◌, ◌≢◌, ◌↔◌, true, is_some, arith}
use yun_chat.Sql.{ok, quiet}
use yun_chat.Database.{Db, lock_users, find_user}

abbrev pub Exists : Db → ℕ → Type 0
Exists d u = is_some (find_user u d.users) ≡ true

abbrev pub Locks : Db → ℕ → ℕ → ℕ → Type 0
Locks d a b n =
    (lock_users a b (quiet d) ≡ (ok n, quiet d)) × ((n ≡ 2) ↔ ((a ≢ b) × Exists d a × Exists d b))

abbrev pub lock_count : Db → ℕ → ℕ → ℕ
lock_count d a b = elim (lock_users a b (quiet d)).0 [ ok n ↦ n | _ ↦ 0 ]

pub lock_users_lem : (d : Db) (a b : ℕ) → Locks d a b (lock_count d a b)
unfolding lock_users
lock_users_lem d a b = ground arith
