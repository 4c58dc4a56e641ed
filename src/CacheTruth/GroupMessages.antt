-- ===== src/CacheTruth/GroupMessages.antt =====
-- `EnsureGroupAccess` for groups that are gone.
use yun_chat.Prelude.{ℕ, ◌≡◌, refl, ◌⊎◌, inl, inr, Bool, true, false, leb, is_some, if◌then◌else◌}
use yun_chat.Sql.{driver, group_dissolved, group_missing, Result, err, Conn, raise}
use yun_chat.Sql.After.{After, After-raise, After-query, After-if, After-bind}
use yun_chat.Database.{group_members}
use yun_chat.Database.Rows.{find_group}
use yun_chat.Database.Groups.{has_tombstone}
use yun_chat.CacheTruth.{Stores, Settings, is_group_tombstoned, group_exists}
use yun_chat.CacheTruth.Access.{
  marked, is_loaded, load_group, ensure_live_group, ensure_group_access,
}

-- The call fails, with one of the sentinels or the driver's error, and neither database has changed.
abbrev Refuses : Stores → Result (Unit {0}) → Stores → Type 0
Refuses s r s' =
    (s' ≡ s) × ((r ≡ err group_dissolved) ⊎ ((r ≡ err group_missing) ⊎ (r ≡ err driver)))

-- Dissolved, whatever Redis holds; or no group in MySQL, and no complete projection in Redis.
abbrev IsGone : ℕ → Stores → Type 0
IsGone g s =
    (has_tombstone g s.tables.tombstones ≡ true)
    ⊎ ((marked group_members g s ≡ false) × (is_some (find_group g s.tables.groups) ≡ false))

failed-Refuses : (s : Stores) → Refuses s (err driver) s
failed-Refuses s = (refl, inr (inr refl))

live_group-Refuses :
    (o : Settings) (g : ℕ) (s : Stores)
    → marked group_members g s ≡ false
    → is_some (find_group g s.tables.groups) ≡ false
    → After (ensure_live_group o g) s (Refuses s)
unfolding ensure_live_group is_loaded group_exists load_group
live_group-Refuses o g s h k = After-bind _ (Refuses s) _ s (
    After-query (marked group_members g) s _
      (rw h (
        After-bind (load_group o g) (Refuses s) (group_exists g) s (
          After-query (λ s'. is_some (find_group g s'.tables.groups)) s _
            (rw k (After-raise group_missing s (Refuses s) (refl, inr (inl refl))))
            (failed-Refuses s))))
      (failed-Refuses s))

access-After :
    (o : Settings) (g : ℕ) (s : Stores) → IsGone g s → After (ensure_group_access o g) s (Refuses s)
unfolding ensure_group_access is_group_tombstoned
access-After o g s h =
    After-if (leb g 0) (raise driver) _ s (Refuses s)
      (After-raise driver s (Refuses s) (failed-Refuses s))
      (After-bind _ (Refuses s) _ s (
        After-query (λ s'. has_tombstone g s'.tables.tombstones) s _ (by_tombstone _ refl)
          (failed-Refuses s)))
  where
    by_tombstone :
        (b : Bool)
        → has_tombstone g s.tables.tombstones ≡ b
        → After (if b then raise group_dissolved else ensure_live_group o g) s (Refuses s)
    by_tombstone true e = After-raise group_dissolved s (Refuses s) (refl, inl refl)
    by_tombstone false e = elim h [
      | inl t ↦ absurd (cc)
      | inr gone ↦ live_group-Refuses o g s gone.0 gone.1
    ]

-- A group with a tombstone in MySQL, whatever Redis holds for it, or a group that MySQL does not have and
-- whose projection in Redis is missing or incomplete: EnsureGroupAccess fails, with the sentinel for a
-- dissolved or a missing group or with the driver's error, and changes neither MySQL nor Redis.
pub ensure_group_access-refuses :
    (o : Settings) (g : ℕ) (c : Conn Stores)
    → IsGone g c.db
    → ((ensure_group_access o g c).1.db ≡ c.db)
      × (((ensure_group_access o g c).0 ≡ err group_dissolved)
          ⊎ (((ensure_group_access o g c).0 ≡ err group_missing)
              ⊎ ((ensure_group_access o g c).0 ≡ err driver)))
ensure_group_access-refuses o g c h = (access-After o g c.db h).holds c.outcomes
