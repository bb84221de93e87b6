-- ===== src/Cmd/Keys.antt =====
-- A key that the rotation job makes, as the gRPC server reads it: the two commands share the table
-- and the master key.
use service_json_keys.Prelude.{
  String, ◌≡◌, refl, sym, ap, ◌∙◌, inl, inr, true, Option, some, Listed, Any-append_right, [], ◌∷◌,
}
use service_json_keys.Fault.{ok}
use service_json_keys.Encoding.{Bytes}
use service_json_keys.Encoding.Hex
use service_json_keys.Types.{Context, Jwk, Row, transaction}
use service_json_keys.Externals.{Externals, IsSecretbox, IsJson, IsRandom}
use service_json_keys.Config.{JwkConfig, jwk_preset_default, lookup}
use service_json_keys.Config.Env.{Settings}
use service_json_keys.Config.App.{job_rotate_keys_preset_default}
use service_json_keys.World.{World}
use service_json_keys.Core.Extract.{extract}
use service_json_keys.Core.Extract.Laws.{extract-master_key}
use service_json_keys.Core.Gen.{gen}
use service_json_keys.Core.Gen.Rotation.{gen_sound}
use service_json_keys.Cmd.{Golib, IsGolib, boot_outcome, codes}
use service_json_keys.Cmd.Grpc
use service_json_keys.Cmd.Grpc.{Server, ctx_interceptor}
use service_json_keys.Cmd.Grpc.Serving.{start_holds, ctx_interceptor_lem}
use service_json_keys.Cmd.RotateKeys

pub start_key :
    (g : Golib) (env : Settings) (ctx : Context)
    → IsGolib g
    → RotateKeys.start g env ≡ ok ctx
    → (key : Bytes) × (Hex.decode (codes env.app_master_key) ≡ ok key) × (ctx.master_key ≡ some key)
unfolding RotateKeys.start
start_key g env ctx golib started =
    let cfg = job_rotate_keys_preset_default env in
    elim (boot_outcome g cfg.app cfg.otel cfg.postgres golib) [
      | inl e ↦ absurd (cc)
      | inr (other, key, e, read, _, held, _) ↦
          let same : other ≡ ctx = cc (e, started) in (key, read, rw (← same) held)
    ]

-- A rotation job and a gRPC server whose master keys are hexadecimal texts of the same bytes, in
-- whatever case: when the job's generation for a configured usage, within its transaction, gives a
-- key, then the table that it leaves has a row of the usage, from which the server, in the context
-- of any of its requests, reads exactly the private key that the job was given.
pub job_key_served :
    (g : Golib) (x : Externals) (env env' : Settings) (job rp_ctx : Context) (server : Server)
    (usage : String) (key_config : JwkConfig) (w v : World) (key : Option Jwk)
    → IsGolib g
    → IsSecretbox x
    → IsJson x
    → IsRandom x
    → Hex.decode (codes env.app_master_key) ≡ Hex.decode (codes env'.app_master_key)
    → RotateKeys.start g env ≡ ok job
    → Grpc.start g env' ≡ ok server
    → lookup usage jwk_preset_default ≡ some key_config
    → gen x (record job { postgres = some transaction }) jwk_preset_default usage w ≡ (ok key, v)
    → (row : Row) × Listed row v.rows
      × (row.usage ≡ usage)
      × (extract x (ctx_interceptor g server.ctx rp_ctx) row true ≡ ok key)
job_key_served g x env env' job rp_ctx server usage key_config w v key golib box json random alike
      started served configured ran =
    let (secret, read, held) = start_key g env job golib started in
    let (secret', read', _, held', _) = start_holds g env' server golib served in
    let same : secret ≡ secret' = cc in
    let shared : job.master_key ≡ server.ctx.master_key = cc in
    let back : (row : Row)
        → extract x (ctx_interceptor g server.ctx rp_ctx) row true
          ≡ extract x (record job { postgres = some transaction }) row true =
      λ row.
        ap (λ c. extract x c row true) (ctx_interceptor_lem g env' server rp_ctx golib served)
        ∙ extract-master_key x server.ctx (record job { postgres = some transaction }) row true
            (sym shared) in
    elim (gen_sound x (record job { postgres = some transaction }) jwk_preset_default key_config
      usage w v key box json random configured ran) [
        | inl k ↦ (k.main, rw k.unchanged k.served.2, k.served.0, back k.main ∙ k.given)
        | inr k ↦ (
          k.row,
          rw k.added (Any-append_right (λ q. q ≡ k.row) w.rows (k.row ∷ []) (inl refl)),
          k.made.of_usage,
          back k.row ∙ k.made.private_back ∙ ap ok (sym k.given),
        )
      ]
