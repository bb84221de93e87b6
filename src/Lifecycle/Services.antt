-- ===== src/Lifecycle/Services.antt =====
-- The services of internal/core and the handlers of internal/handlers change the table by moves
-- only.
use service_json_keys.Prelude.{
  ℕ, ◌+◌, String, ◌≡◌, inl, inr, Bool, false, some, List, [], ◌∷◌, arith,
}
use service_json_keys.Fault.{
  Result-cases, ok, wrap, sentinel, map_error, or_raise-eq-ok, jwk_gen_unknown_key_usage,
}
use service_json_keys.Types.{Context, Uuid, Jwk, Row}
use service_json_keys.Externals.{Externals}
use service_json_keys.Config.{Alg, JwkConfig, KeysConfig}
use service_json_keys.World.{World, lift}
use service_json_keys.Dao
use service_json_keys.Dao.{inserted, JwkInsertRequest, JwkDeleteRequest, revoke_all}
use service_json_keys.MasterKey.{encrypt_master_key}
use service_json_keys.Core.Presets.Laws.{generators_cases}
use service_json_keys.Core.Presets.{
  JwkGenAny, jwk_generators, jwk_generator_ed25519, jwk_generator_es, jwk_generator_rsa,
}
use service_json_keys.Core.Search
use service_json_keys.Core.Select
use service_json_keys.Core.Gen.{gen, generate, first_key}
use service_json_keys.Core.RotateAll.{rotate_usages}
use service_json_keys.Lifecycle.{Reach, here, Reach-trans}
use service_json_keys.Lifecycle.Follows.{
  Follows, still, Follows-continue, Follows->>=, Follows-lift, Follows-lift->>=, Follows-crash,
  Follows-observe, Follows-on_error, Follows-if,
}
use service_json_keys.Lifecycle.Statements.{
  search-Follows, select_by_id-Follows, insert-Follows, insert-Reach, delete-Reach,
}
use service_json_keys.Core.Extract.{extract}
use service_json_keys.Handlers.Grpc
use service_json_keys.Handlers.Rest
use service_json_keys.Handlers.Rest.{Httpf}

module _ (x : Externals) (ctx : Context) where
  Follows-first_key : (keys : List Row) → Follows x (first_key keys)
  Follows-first_key [] = Follows-crash
  Follows-first_key (key ∷ keys) = Follows-lift

  encrypt-Follows : (k : Jwk) → Follows x (encrypt_master_key x ctx k)
  unfolding encrypt_master_key
  encrypt-Follows k = record { moves = λ w. still (ground arith) (ground arith) }

  ed25519-Follows : Follows x (jwk_generator_ed25519 x)
  unfolding jwk_generator_ed25519
  ed25519-Follows = record { moves = λ w. still (ground arith) (ground arith) }

  es-Follows : (alg : Alg) → Follows x (jwk_generator_es x alg)
  unfolding jwk_generator_es
  es-Follows alg = record { moves = λ w. still (ground arith) (ground arith) }

  rsa-Follows : (alg : Alg) → Follows x (jwk_generator_rsa x alg)
  unfolding jwk_generator_rsa
  rsa-Follows alg = record { moves = λ w. still (ground arith) (ground arith) }

  generator-Follows : (alg : Alg) (g : JwkGenAny) → jwk_generators x alg ≡ some g → Follows x g
  generator-Follows = generators_cases x (Follows x) ed25519-Follows es-Follows rsa-Follows

  generate-Follows :
      (key_config : JwkConfig) (usage : String) → Follows x (generate x ctx key_config usage)
  unfolding generate
  generate-Follows key_config usage = Follows-lift->>= λ key_generator known.
      Follows->>=
        (Follows-on_error (wrap "generate key") (
          generator-Follows key_config.alg key_generator (
            or_raise-eq-ok (wrap usage (sentinel jwk_gen_unknown_key_usage))
              (jwk_generators x key_config.alg) known)))
        λ generated.
          Follows->>=
            (Follows-on_error (wrap "encrypt private key") (encrypt-Follows generated.private_key))
            λ private_key_encrypted. Follows->>= Follows-lift λ kid.
              Follows->>= Follows-lift λ public_key_encoded.
                Follows->>= (Follows-observe (λ n. ok (x.now n)))
                  λ created. Follows-on_error (wrap "insert key") (insert-Follows x ctx _)

  pub gen-Follows :
      (keys_config : KeysConfig) (usage : String) → Follows x (gen x ctx keys_config usage)
  unfolding gen
  gen-Follows keys_config usage =
      Follows->>= (Follows-on_error (wrap "list keys") (search-Follows x ctx usage)) λ keys.
        Follows->>= Follows-lift λ key_config.
          Follows->>= (Follows-observe (λ n. ok (x.now n))) λ checked.
            Follows->>= (Follows-if _ (generate-Follows key_config usage) (Follows-first_key keys))
              λ latest. Follows-lift

  pub rotate_usages-Follows :
      (keys_config : KeysConfig) (entries : List (String × JwkConfig)) (processed : ℕ)
      → Follows x (rotate_usages x keys_config entries processed ctx)
  unfolding rotate_usages
  rotate_usages-Follows keys_config [] processed = Follows-lift
  rotate_usages-Follows keys_config ((usage, key_config) ∷ rest) processed =
      Follows->>= (Follows-on_error (wrap usage) (gen-Follows keys_config usage))
        λ key. rotate_usages-Follows keys_config rest (processed + 1)

  service_search-Follows :
      (usage : String) (private : Bool) → Follows x (Search.search x ctx usage private)
  unfolding Search.search
  service_search-Follows usage private = record {
    moves = λ w. Reach-trans ((search-Follows x ctx usage).moves w) (
        Follows-continue _ (λ entities. lift (Search.extract_all x ctx private entities)) _
          (λ entities. Follows-lift));
  }

  service_select-Follows : (id : Uuid) (private : Bool) → Follows x (Select.select x ctx id private)
  unfolding Select.select
  service_select-Follows id private = record {
    moves = λ w. Reach-trans ((select_by_id-Follows x ctx id).moves w) (
        Follows-continue _
          (λ entity. lift (map_error (wrap "deserialize key") (extract x ctx entity private))) _
          (λ entity. Follows-lift));
  }

  grpc_get-Reach : (id : String) (w : World) → Reach x w (Grpc.jwk_get x ctx id w).1
  unfolding Grpc.jwk_get
  grpc_get-Reach id w = elim (Result-cases (x.parse_uuid id)) [
    | inl (key_id, e) ↦ rw (e, Grpc.jwk_get) ((service_select-Follows key_id false).moves w)
    | inr (inl (_, e)) ↦ rw (e, Grpc.jwk_get) here
    | inr (inr e) ↦ rw (e, Grpc.jwk_get) here
  ]

  rest_get-Reach : (h : Httpf) (id : String) (w : World) → Reach x w (Rest.jwk_get h x ctx id w).1
  unfolding Rest.jwk_get
  rest_get-Reach h id w = elim (Result-cases (x.parse_uuid id)) [
    | inl (key_id, e) ↦ rw (e, Rest.jwk_get) ((service_select-Follows key_id false).moves w)
    | inr (inl (_, e)) ↦ rw (e, Rest.jwk_get) here
    | inr (inr e) ↦ rw (e, Rest.jwk_get) here
  ]

-- Whatever their outcome is, the insertion and the revocation of internal/dao, the generation of a
-- key, the loop of a rotation over the usages, and the handlers of both transports that read keys
-- change the table by moves only: they add rows of new identifiers that are not deleted, and revoke
-- rows, and do nothing else to it.
pub operations-Reach :
    (x : Externals) (ctx : Context) (h : Httpf) (keys_config : KeysConfig) (usage id : String)
    (insertion : JwkInsertRequest) (deletion : JwkDeleteRequest) (w : World)
    → Reach x w (Dao.insert x ctx insertion w).1
      × Reach x w (Dao.delete x ctx deletion w).1
      × Reach x w (gen x ctx keys_config usage w).1
      × Reach x w (rotate_usages x keys_config keys_config 0 ctx w).1
      × Reach x w (Grpc.jwk_get x ctx id w).1
      × Reach x w (Grpc.jwk_list x ctx usage w).1
      × Reach x w (Rest.jwk_get h x ctx id w).1
      × Reach x w (Rest.jwk_list h x ctx usage w).1
unfolding Grpc.jwk_list Rest.jwk_list
operations-Reach x ctx h keys_config usage id insertion deletion w = (
  insert-Reach x ctx insertion w,
  delete-Reach x ctx deletion w,
  (gen-Follows x ctx keys_config usage).moves w,
  (rotate_usages-Follows x ctx keys_config keys_config 0).moves w,
  grpc_get-Reach x ctx id w,
  (service_search-Follows x ctx usage false).moves w,
  rest_get-Reach x ctx h id w,
  (service_search-Follows x ctx usage false).moves w,
)
