-- ===== src/Sample/Storage.antt =====
-- The statements on the table at concrete inputs.
use service_json_keys.Prelude.{
  ◌+◌, ◌≤◌, ◌≡◌, ◌≢◌, ◌↔◌, inl, refl, none, [], ◌∷◌, length, arith, All, Each, Listed,
}
use service_json_keys.Fault.{ok, err, sentinel, jwk_select_not_found, jwk_delete_not_found}
use service_json_keys.Clock.{second}
use service_json_keys.Types.{Row, pool}
use service_json_keys.World.{World, query}
use service_json_keys.Dao.{
  search, select_by_id, delete, JwkInsertRequest, JwkDeleteRequest, revoke, keys_max_batch_size,
}
use service_json_keys.Dao.Order.{place, sort_newest}
use service_json_keys.Dao.Order.Laws.{IsNewestFirst}
use service_json_keys.Dao.Schema.{is_active, active_keys, has_id, is_deletable}
use service_json_keys.Dao.Search.{IsServed, search_sound}
use service_json_keys.Dao.Insert.{IsTable}
use service_json_keys.Dao.Select.{IsSelected, not_found_iff}
use service_json_keys.Dao.Delete.{IsTarget, IsMarked, IsAfter, delete_sound}
use service_json_keys.Dao.Repetition.{delete-delete}
use service_json_keys.Dao.Revocation.{select_by_id-delete}
use service_json_keys.Lifecycle.Statements.{delete-Reach}
use service_json_keys.Lifecycle.Schedule.{served_until}
use service_json_keys.Sample.{sample, ctx, old_row, empty_world, one_key, start}

pub old-IsTable : IsTable one_key.rows
unfolding has_id
old-IsTable = (refl, λ e. cc, tt)

abbrev after_search : World
after_search = record one_key { step = 1 }

search_runs : search sample ctx "auth" one_key ≡ (ok (old_row ∷ []), after_search)
unfolding search query active_keys is_active place sort_newest
search_runs = refl

old_served : IsServed "auth" one_key old_row
unfolding is_active
old_served = (refl, refl, inl refl)

search_sound_example :
    All (IsServed "auth" one_key) (old_row ∷ [])
    × IsNewestFirst (old_row ∷ [])
    × (length (old_row ∷ []) ≤ keys_max_batch_size)
    × (after_search.rows ≡ one_key.rows)
search_sound_example =
    search_sound sample ctx "auth" one_key after_search (old_row ∷ []) search_runs

abbrev pub new_key : JwkInsertRequest
new_key = record {
  id = 9;
  private_key = 65 ∷ [];
  public_key = none;
  usage = "auth";
  now = start;
  expiration = start + second;
}

old-IsSelected : IsSelected 3 one_key old_row
unfolding is_active
old-IsSelected = (refl, refl, inl refl)

not_found_iff_example :
    ((select_by_id sample ctx 4 one_key).0 ≡ err (sentinel jwk_select_not_found))
    ↔ ((r : Row) → ¬ IsSelected 4 one_key r)
not_found_iff_example = not_found_iff sample ctx pool 4 one_key refl refl

abbrev pub compromised : JwkDeleteRequest
compromised = record { id = 3; now = start; comment = "compromised" }

abbrev scheduled : JwkDeleteRequest
scheduled = record { id = 3; now = start + second; comment = "scheduled" }

delete_runs : (delete sample ctx compromised one_key).0 ≡ ok (revoke sample compromised old_row)
unfolding delete query is_deletable
delete_runs = refl

delete_sound_example :
    (s : Row) × Listed s one_key.rows
    × IsTarget sample compromised one_key.db_time s
    × IsMarked sample compromised s (revoke sample compromised old_row)
    × Each
        (IsAfter sample compromised one_key.db_time)
        one_key.rows
        (delete sample ctx compromised one_key).1.rows
delete_sound_example =
    delete_sound sample ctx compromised one_key (revoke sample compromised old_row) delete_runs

absent : (r : Row) → (delete sample ctx compromised empty_world).0 ≢ ok r
unfolding delete query
absent r h = cc

select_by_id-delete_example :
    (select_by_id sample ctx 3 (delete sample ctx compromised one_key).1).0
    ≡ err (sentinel jwk_select_not_found)
select_by_id-delete_example =
    select_by_id-delete sample ctx pool compromised one_key (revoke sample compromised old_row) refl
      old-IsTable delete_runs (omega arith) refl

delete-delete_example :
    (delete sample ctx scheduled (delete sample ctx compromised one_key).1).0
    ≡ err (sentinel jwk_delete_not_found)
delete-delete_example =
    delete-delete sample ctx pool compromised scheduled one_key (revoke sample compromised old_row)
      refl refl delete_runs refl

scheduled_runs : (delete sample ctx scheduled one_key).0 ≡ ok (revoke sample scheduled old_row)
unfolding delete query is_deletable
scheduled_runs = refl

-- A second revocation, which finds nothing, and some time.
abbrev still : World
still = (delete sample ctx compromised (delete sample ctx scheduled one_key).1).1

served_until_example : (select_by_id sample ctx 3 still).0 ≡ ok (revoke sample scheduled old_row)
unfolding delete is_deletable
served_until_example =
    served_until sample ctx ctx pool scheduled one_key still (revoke sample scheduled old_row)
      old-IsTable scheduled_runs
      (delete-Reach sample ctx compromised (delete sample ctx scheduled one_key).1) (omega arith)
      (omega arith) refl refl
