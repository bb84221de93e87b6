-- ===== src/Deployment/Fetch.antt =====
-- What the server's signer and a client of the server are given for a usage.
use service_json_keys.Prelude.{
  ℕ, String, ◌≡◌, refl, sym, ap, ◌∙◌, true, false, Bool, none, some, List, [], arith, length,
  length-take, map, All, All-imp, All-at,
}
use Prim.Native.Nat.{min}
use service_json_keys.Fault.{ok}
use service_json_keys.Encoding.{Bytes}
use service_json_keys.Types.{Context, Handle, Row}
use service_json_keys.Externals.{Externals, KeyPair, IsSecretbox, IsJson, IsRandom}
use service_json_keys.Config.{JwkConfig, KeysConfig, lookup}
use service_json_keys.World.{World, ◌>>=◌}
use service_json_keys.Dao
use service_json_keys.Dao.Order.{sort_newest}
use service_json_keys.Dao.Order.Laws.{length-sort_newest}
use service_json_keys.Dao.Search.{served, search_sound, search-eq-ok}
use service_json_keys.Core.Presets.Laws.{IsDrawn}
use service_json_keys.Core.Search
use service_json_keys.Core.Search.{extract_all}
use service_json_keys.Core.Gen.Making.{search-Runs}
use service_json_keys.Client.{BaseClient, search_keys}
use service_json_keys.Client.Keys.{IsConnected, search_keys-connected}
use service_json_keys.Deployment.{History}
use service_json_keys.Deployment.Induction.{History-IsKept}
use service_json_keys.Deployment.Halves.{IsHalved, IsPaired, IsPaired-IsKept, halves}

service_search-eq :
    (x : Externals) (ctx : Context) (usage : String) (private : Bool) (rows : List Row)
    (w u : World)
    → Dao.search x ctx usage w ≡ (ok rows, u)
    → Search.search x ctx usage private w ≡ (extract_all x ctx private rows, u)
unfolding Search.search ◌>>=◌
service_search-eq x ctx usage private rows w u found = rw found refl

-- The rows that a search lists have both their halves, when those of the table have.
listed-IsHalved :
    (x : Externals) (ctx reader : Context) (usage : String) (key_config : JwkConfig)
    (rows : List Row) (v u : World)
    → IsPaired x ctx usage key_config v
    → Dao.search x reader usage v ≡ (ok rows, u)
    → All (IsHalved x ctx usage key_config) rows
listed-IsHalved x ctx reader usage key_config rows v u paired found =
    All-imp
      (λ r h.
        All-at (λ q. q.usage ≡ usage → IsHalved x ctx usage key_config q) r v.rows paired h.2 h.0)
      rows (search_sound x reader usage v u rows found).0

-- How many rows a search lists.
length-search :
    (x : Externals) (ctx : Context) (usage : String) (rows : List Row) (v u : World)
    → Dao.search x ctx usage v ≡ (ok rows, u)
    → length rows ≡ min Dao.keys_max_batch_size (length (served usage v))
length-search x ctx usage rows v u found =
    let (is, _, _) = search-eq-ok x ctx usage v u rows found in
    omega (
      arith,
      ap length is,
      length-take Dao.keys_max_batch_size (sort_newest (served usage v)),
      length-sort_newest (served usage v),
    )

module _ (x : Externals) (keys_config : KeysConfig) (secret : Bytes) (skew : ℕ) (usage : String)
    (key_config : JwkConfig) (w v : World) (box : IsSecretbox x) (json : IsJson x)
    (random : IsRandom x) where
  -- From an empty table, whatever calls have been made: when the database answers, the signer of a
  -- server that holds the master key is given the private halves of the newest active keys of a
  -- configured usage, one hundred at most, and a client that is connected to a server is given the
  -- public halves of the same pairs in the same order; each is a pair that the library has given
  -- for the algorithm of the usage.
  pub halves_served :
      (signer reader : Context) (handle handle' : Handle) (client : BaseClient)
      → All (λ e. lookup e.0 keys_config ≡ some e.1) keys_config
      → lookup usage keys_config ≡ some key_config
      → w.rows ≡ []
      → History x keys_config secret skew w v
      → signer.master_key ≡ some secret
      → signer.postgres ≡ some handle
      → reader.postgres ≡ some handle'
      → x.database_fault v.step ≡ none
      → IsConnected client x reader
      → (pairs : List KeyPair) × All (λ p. (n : ℕ) × IsDrawn x key_config.alg n p) pairs
        × (length pairs ≡ min Dao.keys_max_batch_size (length (served usage v)))
        × ((Search.search_keys x signer usage v).0 ≡ ok (map some (map (λ p. p.private) pairs)))
        × ((search_keys client usage v).0 ≡ ok (map some (map (λ p. p.public) pairs)))
  unfolding Search.search_keys
  halves_served signer reader handle handle' client known configured empty history held connected
        connected' up leads =
      let paired : IsPaired x signer usage key_config v =
        History-IsKept x keys_config secret skew (IsPaired x signer usage key_config) box json
          random (IsPaired-IsKept x signer usage key_config keys_config secret skew held configured)
          known history (rw empty tt) in
      let run = search-Runs x signer key_config usage v connected up in
      let reader_run = search-Runs x reader key_config usage v connected' up in
      let (is, _, _) = search-eq-ok x signer usage v run.after run.value run.ran in
      let (is', _, _) =
        search-eq-ok x reader usage v reader_run.after reader_run.value reader_run.ran in
      let (pairs, drawn, counted, privates, publics) =
        halves x signer usage key_config reader run.value
          (listed-IsHalved x signer signer usage key_config run.value v run.after paired run.ran) in
      let found = service_search-eq x signer usage true run.value v run.after run.ran in
      let found' =
        service_search-eq x reader usage false reader_run.value v reader_run.after reader_run.ran in
      (
        pairs,
        drawn,
        counted ∙ length-search x signer usage run.value v run.after run.ran,
        ap (λ p. p.0) found ∙ privates,
        ap (λ p. p.0)
            (search_keys-connected client x reader usage v reader_run.after
              (map (λ p. p.public) pairs) leads
              (found'
                ∙ ap (λ rs. (extract_all x reader false rs, reader_run.after)) (is' ∙ sym is)
                ∙ ap (λ r. (r, reader_run.after)) publics)),
      )
