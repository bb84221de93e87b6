-- ===== src/Cmd/Delivery.antt =====
-- The rotation job, the gRPC server and a client of it together: how long after a run of the job
-- they have keys that fit.
use service_json_keys.Prelude.{
  ℕ, ◌+◌, ◌*◌, ◌≤◌, ◌<◌, String, ◌≡◌, ◌≢◌, refl, sym, ap, ◌∙◌, inl, inr, none, some, List, [], ◌∷◌,
  arith, length, map, str_eq, eq_iff, Bool-cases, All, Listed,
}
use service_json_keys.Prelude.Int.{pos}
use service_json_keys.Fault.{Result, ok, Result-cases}
use service_json_keys.Encoding.{Bytes}
use service_json_keys.Encoding.Hex
use service_json_keys.Clock.{second, max_int64}
use service_json_keys.Types.{Context, Row, pool}
use service_json_keys.Externals.{Externals, KeyPair, IsSecretbox, IsJson, IsRandom}
use service_json_keys.Config.{JwkConfig, lookup, jwk_preset_default}
use service_json_keys.Config.Env.{Settings}
use service_json_keys.World.{World}
use service_json_keys.Dao.Search.{IsServed, served, Listed-served}
use service_json_keys.Core.Claims.{Jwt}
use service_json_keys.Core.Presets.Laws.{IsDrawn}
use service_json_keys.Core.RotateAll.{Transactor, IsTransactor, JwkRotateAllResponse, rotate_all}
use service_json_keys.Core.Search
use service_json_keys.Core.Sources.{Plugin}
use service_json_keys.Client.{BaseClient, search_keys}
use service_json_keys.Client.Dialled.{LeadsTo, connected}
use service_json_keys.Deployment.{IsClock, IsInStep, half_second, History, rotated, History-trans}
use service_json_keys.Deployment.Limits.{preset_cases, preset_known}
use service_json_keys.Deployment.Availability.{key_active}
use service_json_keys.Deployment.Fetch.{halves_served}
use service_json_keys.Cmd.{Golib, IsGolib, codes}
use service_json_keys.Cmd.Keys.{start_key}
use service_json_keys.Cmd.Grpc
use service_json_keys.Cmd.Grpc.{Server}
use service_json_keys.Cmd.Grpc.Serving.{start_holds}
use service_json_keys.Cmd.RotateKeys
use service_json_keys.Cmd.RotateKeys.{run, done, outcome, outcome-eq-done}

lookup-Listed :
    {V : Type 0} (key : String) (v : V) (entries : List (String × V))
    → lookup key entries ≡ some v
    → Listed (key, v) entries
unfolding lookup
lookup-Listed key v [] h = absurd cc
lookup-Listed key v ((k, u) ∷ rest) h = elim (Bool-cases (str_eq k key)) [
  | inl e ↦
      let value : u ≡ v = ground arith in
      let name : k ≡ key = (eq_iff k key).0 e in inl (λ i. (name i, value i))
  | inr e ↦ inr (lookup-Listed key v rest (ground arith))
]

length-Listed : (r : Row) (rows : List Row) → Listed r rows → 0 < length rows
length-Listed r [] h = elim h [ ]
length-Listed r (q ∷ rows) h = omega arith

-- A run that ends well has rotated, in the context that it started with.
run-eq-done :
    (g : Golib) (x : Externals) (t : Transactor) (env : Settings) (w : World) {n : ℕ}
    → (run g x t env w).0 ≡ done n
    → (ctx : Context) × (response : JwkRotateAllResponse) × (RotateKeys.start g env ≡ ok ctx)
      × (rotate_all x jwk_preset_default t ctx w ≡ (ok response, (run g x t env w).1))
unfolding run
run-eq-done g x t env w h = elim (Result-cases (RotateKeys.start g env)) [
  | inr (inl (_, e)) ↦ absurd (cc (rw (e, run) at h))
  | inr (inr e) ↦ absurd (cc (rw (e, run) at h))
  | inl (ctx, e) ↦
      let rotation = rotate_all x jwk_preset_default t ctx w in
      let runs : run g x t env w ≡ (outcome rotation.0, rotation.1) = unfold run in rw e refl in
      let (response, answered) = outcome-eq-done rotation.0 (sym (ap (λ p. p.0) runs) ∙ h) in
      (ctx, response, e, λ i. (answered i, ap (λ p. p.1) (sym runs) i))
]

module _ {Payload Value Claims Token Recipient : Type 0} (g : Golib) (x : Externals)
    (unmarshal : Payload → Result Value) (jwt : Jwt Value Claims Token Plugin Recipient)
    (server : Server) (t : Transactor) (env env' : Settings) (secret : Bytes) (skew lag : ℕ)
    (golib : IsGolib g) (box : IsSecretbox x) (json : IsJson x) (random : IsRandom x)
    (clock : IsClock x) (transactor : IsTransactor t)
    (job_key : Hex.decode (codes env.app_master_key) ≡ ok secret)
    (server_key : Hex.decode (codes env'.app_master_key) ≡ ok secret)
    (served_by : Grpc.start g env' ≡ ok server) (w u y : World) (empty : w.rows ≡ [])
    (history : History x jwk_preset_default secret skew w u) (ran : (run g x t env u).0 ≡ done 2)
    (onward : u.db_time ≤ (run g x t env u).1.db_time)
    (in_step : IsInStep x skew u (run g x t env u).1) (close : u.db_time ≤ x.now u.step + lag)
    (later : History x jwk_preset_default secret skew (run g x t env u).1 y)
    (soon : y.db_time + lag + second < u.db_time + 144 * 3600 * second) where
  -- The job's rotation, under the master key.
  job_rotated :
      (ctx : Context) × (response : JwkRotateAllResponse) × (ctx.master_key ≡ some secret)
      × (rotate_all x jwk_preset_default t ctx u ≡ (ok response, (run g x t env u).1))
  job_rotated =
      let (ctx, response, started, ended) = run-eq-done g x t env u ran in
      let (key, read, held) = start_key g env ctx golib started in
      (ctx, response, cc (read, job_key, held), ended)

  whole : History x jwk_preset_default secret skew w y
  whole =
      let (ctx, response, holds, ended) = job_rotated in
      History-trans x jwk_preset_default secret skew
        (rotated t ctx history holds transactor (sym (ap (λ p. p.1) ended)) onward in_step) later

  active :
      (usage : String) (key_config : JwkConfig) (interval life : ℕ)
      → lookup usage jwk_preset_default ≡ some key_config
      → key_config.key.rotation ≡ pos interval
      → key_config.key.ttl ≡ pos life
      → half_second ≤ interval
      → interval ≤ max_int64
      → interval + 144 * 3600 * second ≤ life
      → ((r : Row) → Listed r y.rows → r.usage ≡ usage → r.deleted_at ≡ none)
      → (r : Row) × IsServed usage y r
  active usage key_config interval life configured interval_is life_is long short lasting
        undeleted =
      let (ctx, response, holds, ended) = job_rotated in
      key_active x jwk_preset_default secret skew usage key_config interval life box json random
        clock preset_known (lookup-Listed usage key_config jwk_preset_default configured)
        interval_is life_is long short t ctx response lag w u (run g x t env u).1 y empty history
        holds transactor ended onward in_step close later undeleted (omega arith)

  -- Let the job and the gRPC server have master keys that are hexadecimal texts of the same bytes,
  -- and a run of the job have ended well in a deployment that began with an empty table; let the
  -- clock of the service not go back, and be ahead of the database's by a skew at most during each
  -- rotation, and behind it by a lag at most when the run began; and let columns hold the nearest
  -- second. As long as less than 144 hours, without the lag and one second, have passed since on
  -- the database's clock, and no key of a configured usage has been revoked, then whatever other
  -- calls were made, and when the database answers: the server's signer is given private keys of
  -- this usage, one at least, and a client that leads to the server is given the public halves of
  -- the same pairs in the same order, which the library gave for the algorithm of the usage.
  pub delivered :
      (client : BaseClient) (usage : String) (key_config : JwkConfig)
      → LeadsTo g x unmarshal jwt server client
      → lookup usage jwk_preset_default ≡ some key_config
      → ((r : Row) → Listed r y.rows → r.usage ≡ usage → r.deleted_at ≡ none)
      → x.database_fault y.step ≡ none
      → (pairs : List KeyPair) × (pairs ≢ [])
        × All (λ p. (n : ℕ) × IsDrawn x key_config.alg n p) pairs
        × ((Search.search_keys x server.ctx usage y).0 ≡ ok (map some (map (λ p. p.private) pairs)))
        × ((search_keys client usage y).0 ≡ ok (map some (map (λ p. p.public) pairs)))
  delivered client usage key_config leads configured undeleted up =
      let (key, read, _, held, opened) = start_holds g env' server golib served_by in
      let holds : server.ctx.master_key ≡ some secret = cc (read, server_key, held) in
      let found : (r : Row) × IsServed usage y r = elim (preset_cases usage key_config configured) [
        | inl e ↦
            active usage key_config (24 * 3600 * second) (168 * 3600 * second) configured
              (ap (λ c. c.key.rotation) e) (ap (λ c. c.key.ttl) e) (omega arith) (omega arith)
              (omega arith) undeleted
        | inr e ↦
            active usage key_config (168 * 3600 * second) (720 * 3600 * second) configured
              (ap (λ c. c.key.rotation) e) (ap (λ c. c.key.ttl) e) (omega arith) (omega arith)
              (omega arith) undeleted
      ] in
      let (pairs, drawn, counted, privates, publics) =
        halves_served x jwk_preset_default secret skew usage key_config w y box json random
          server.ctx server.ctx pool pool client preset_known configured empty whole holds opened
          opened up (connected g x unmarshal jwt server env' client golib served_by leads) in
      let some_key =
        length-Listed found.0 (served usage y) (Listed-served usage y found.0 found.1) in
      (
        pairs,
        λ nothing. omega (arith, ap length nothing, counted, some_key),
        drawn,
        privates,
        publics,
      )
