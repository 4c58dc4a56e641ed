-- ===== src/Database/Steadiness.antt =====
-- The shared statements are steady.
use yun_chat.Prelude.{ℕ, ◌+◌, List, [], ◌∷◌, is_some, if◌then◌else◌}
use yun_chat.Sql.Steady.{Steady, Steady-pure, Steady-query, Steady-bind}
use yun_chat.Database.{lock_each, lock_order, lock_users, find_user}

lock_each-Steady : (us : List ℕ) (locked : ℕ) → Steady (lock_each us locked)
unfolding lock_each
lock_each-Steady [] locked = Steady-pure locked
lock_each-Steady (u ∷ us) locked =
    Steady-bind (λ found. lock_each us (if found then locked + 1 else locked))
      (λ found. lock_each-Steady us (if found then locked + 1 else locked)) _
      (Steady-query (λ d. is_some (find_user u d.users)))

pub lock_users-Steady : (a b : ℕ) → Steady (lock_users a b)
unfolding lock_users
lock_users-Steady a b = lock_each-Steady (lock_order a b) 0
