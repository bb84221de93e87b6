-- ===== src/Sample/Transport.antt =====
-- The handlers at concrete inputs.
use service_json_keys.Prelude.{ℕ, ◌≡◌, inl, refl, false, some, none, [], ◌∷◌, if◌then◌else◌}
use service_json_keys.Fault.{Error, ok, errors_is}
use service_json_keys.Encoding.Base64
use service_json_keys.Types.{Row, Context, pool}
use service_json_keys.World.{World}
use service_json_keys.Dao.Schema.{is_active, has_id}
use service_json_keys.Dao.Select.{IsSelected}
use service_json_keys.Dao.Insert.{IsTable}
use service_json_keys.Core.Extract.{extract}
use service_json_keys.Handlers.Grpc
use service_json_keys.Handlers.Grpc.{reply, status, not_found, to_proto}
use service_json_keys.Handlers.Rest
use service_json_keys.Handlers.Rest.{Httpf, IsHttpf, ErrMap, json, failed}
use service_json_keys.Handlers.Privacy.{jwk_list_public, jwk_get_public}
use service_json_keys.Handlers.Transports.{ListsAgree, KeysAgree, transports_agree}
use service_json_keys.Handlers.Status.{unknown_key, known_key}
use service_json_keys.Sample.{sample, ctx, key_of, old_row, empty_world, one_key}

abbrev pub status_of : ErrMap → Error → ℕ
status_of [] e = 500
status_of ((none, code) ∷ entries) e = code
status_of ((some s, code) ∷ entries) e = if errors_is e s then code else status_of entries e

abbrev pub httpf : Httpf
httpf = record { handle_error = status_of }

httpf_sample : IsHttpf httpf
httpf_sample = record {
  named = λ s code e h. rw h;
  unnamed = λ s code e h. rw h;
  any = λ code e. refl;
  empty = λ e. refl;
}

-- The same table with another private key.
abbrev pub other_private : World
other_private = record one_key { rows = record old_row { private_key = 66 ∷ [] } ∷ [] }

abbrev unkeyed : Context
unkeyed = record ctx { master_key = none }

jwk_list_public_example :
    ((Grpc.jwk_list sample ctx "auth" one_key).0
      ≡ (Grpc.jwk_list sample unkeyed "auth" other_private).0)
    × ((Rest.jwk_list httpf sample ctx "auth" one_key).0
        ≡ (Rest.jwk_list httpf sample unkeyed "auth" other_private).0)
jwk_list_public_example =
    jwk_list_public httpf sample ctx unkeyed "auth" one_key other_private refl refl

jwk_get_public_example :
    ((Grpc.jwk_get sample ctx "a" one_key).0 ≡ (Grpc.jwk_get sample unkeyed "a" other_private).0)
    × ((Rest.jwk_get httpf sample ctx "a" one_key).0
        ≡ (Rest.jwk_get httpf sample unkeyed "a" other_private).0)
jwk_get_public_example = jwk_get_public httpf sample ctx unkeyed "a" one_key other_private refl refl

unknown_key_example :
    ((Grpc.jwk_get sample ctx "a" empty_world).0 ≡ status not_found "jwk not found")
    × ((Rest.jwk_get httpf sample ctx "a" empty_world).0 ≡ failed 404)
unknown_key_example =
    unknown_key httpf sample ctx pool "a" 7 empty_world httpf_sample refl refl refl
      (λ r h. absurd h.2)

-- A key whose identifier is the one that the sample parses.
abbrev row_7 : Row
row_7 = record old_row { id = 7 }

abbrev world_7 : World
world_7 = record one_key { rows = row_7 ∷ [] }

IsTable-7 : IsTable world_7.rows
unfolding has_id
IsTable-7 = (refl, λ e. cc, tt)

IsSelected-7 : IsSelected 7 world_7 row_7
unfolding is_active
IsSelected-7 = (refl, refl, inl refl)

extract_runs : extract sample ctx row_7 false ≡ ok (some (key_of (5 ∷ [])))
unfolding extract Base64.encode Base64.decode
extract_runs = refl

known_key_example :
    ((Grpc.jwk_get sample ctx "a" world_7).0 ≡ reply (to_proto (key_of (5 ∷ []))))
    × ((Rest.jwk_get httpf sample ctx "a" world_7).0 ≡ json 200 (some (key_of (5 ∷ []))))
known_key_example =
    known_key httpf sample ctx pool "a" 7 world_7 row_7 (key_of (5 ∷ [])) refl refl refl IsTable-7
      IsSelected-7 extract_runs

transports_agree_example :
    ListsAgree
      (Grpc.jwk_list sample ctx "auth" one_key).0
      (Rest.jwk_list httpf sample ctx "auth" one_key).0
    × ((Grpc.jwk_list sample ctx "auth" one_key).1
        ≡ (Rest.jwk_list httpf sample ctx "auth" one_key).1)
    × KeysAgree
        (Grpc.jwk_get sample ctx "a" one_key).0
        (Rest.jwk_get httpf sample ctx "a" one_key).0
    × ((Grpc.jwk_get sample ctx "a" one_key).1 ≡ (Rest.jwk_get httpf sample ctx "a" one_key).1)
transports_agree_example = transports_agree httpf sample ctx httpf_sample "auth" "a" one_key
