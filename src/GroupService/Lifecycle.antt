-- ===== src/GroupService/Lifecycle.antt =====
-- The end of a group.
use yun_chat.Prelude.{ℕ, ◌<◌, ◌≡◌, false, true, none, some, [], arith, ◌==◌, leb, on_test}
use yun_chat.Sql.{quiet, within_transaction}
use yun_chat.Model.{Group}
use yun_chat.AppError.{group_not_found}
use yun_chat.Database.{Db}
use yun_chat.Database.Rows.{find_group, find_member, find-remove_group, find-remove_members}
use yun_chat.Database.Groups.{has_tombstone, has-put_tombstone}
use yun_chat.Service.{returned, failed}
use yun_chat.GroupService.{
  GroupOptions, disband, get, get_reads, notify_distinct, refresh_group_member_cache,
  group_service_error,
}
use yun_chat.GroupService.Callbacks.{disband_callback, disband_found, disband_live, statements}
use yun_chat.GroupService.Moves.{with_rebuild, without_group}

-- A group that is dissolved: no row, a tombstone.
abbrev pub IsDissolved : ℕ → Db → Type 0
IsDissolved g d = (find_group g d.groups ≡ none) × (has_tombstone g d.tombstones ≡ true)

-- A retry succeeds without a change; its only hint is the refresh of the cache.
disband_again :
    (options : GroupOptions) (d : Db) (g who : ℕ)
    → IsDissolved g d
    → 0 < g
    → 0 < who
    → disband options g who (quiet d) ≡ (returned tt, quiet d, refresh_group_member_cache options g)
unfolding disband disband_callback disband_found statements within_transaction notify_distinct
    refresh_group_member_cache
disband_again options d g who gone pg pw =
    let g_ok : leb g 0 ≡ false = ground arith in
    let who_ok : leb who 0 ≡ false = ground arith in
    on_test options.has_cache (λ e. simp (gone.0, gone.1, g_ok, who_ok, e))
      (λ e. simp (gone.0, gone.1, g_ok, who_ok, e))

get_dissolved :
    (d : Db) (g who : ℕ)
    → IsDissolved g d
    → 0 < g
    → 0 < who
    → get who g (quiet d) ≡ (failed group_not_found, quiet d, [])
unfolding get get_reads statements group_service_error
get_dissolved d g who gone pg pw =
    let g_ok : leb g 0 ≡ false = ground arith in
    let who_ok : leb who 0 ≡ false = ground arith in simp (gone.0, g_ok, who_ok)

module _ (options : GroupOptions) (d : Db) (g op : ℕ) (group : Group)
    (eg : find_group g d.groups ≡ some group) (owns : group.owner_id ≡ op) (pg : 0 < g)
    (po : 0 < op) where
  abbrev left_db : Db
  left_db = with_rebuild (without_group d g group.owner_id) g

  disband_lem :
      ((disband options g op (quiet d)).0 ≡ returned tt)
      × ((disband options g op (quiet d)).1 ≡ quiet left_db)
  unfolding disband disband_callback disband_found disband_live statements within_transaction
  disband_lem =
      let g_ok : leb g 0 ≡ false = ground arith in
      let op_ok : leb op 0 ≡ false = ground arith in
      let owner : (group.owner_id == op) ≡ true = ground arith in
      (simp (eg, owner, g_ok, op_ok), simp (eg, owner, g_ok, op_ok))

  left_db-IsDissolved : IsDissolved g left_db
  left_db-IsDissolved = (
    ground (arith, find-remove_group g g d.groups),
    ground (arith, has-put_tombstone g group.owner_id g d.tombstones),
  )

  -- Where the driver does not fail, the owner's Disband of a live group succeeds and removes the group and
  -- all its members. From then on Get tells everybody that the group is not found, and another Disband by
  -- anybody succeeds, changes nothing, tells nobody and only refreshes the cache.
  pub disband-returned :
      (who u : ℕ)
      → 0 < who
      → ((disband options g op (quiet d)).0 ≡ returned tt)
        × (find_member g u (disband options g op (quiet d)).1.db.members ≡ none)
        × (get who g (disband options g op (quiet d)).1
            ≡ (failed group_not_found, (disband options g op (quiet d)).1, []))
        × (disband options g who (disband options g op (quiet d)).1 ≡ (
          returned tt,
          (disband options g op (quiet d)).1,
          refresh_group_member_cache options g,
        ))
  disband-returned who u pw = rw disband_lem.1 (
    disband_lem.0,
    ground (arith, find-remove_members g g u d.members),
    get_dissolved left_db g who left_db-IsDissolved pg pw,
    disband_again options left_db g who left_db-IsDissolved pg pw,
  )
