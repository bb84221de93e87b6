-- ===== src/Sample/Clients.antt =====
-- A client that has dialled the server, at concrete inputs.
use service_json_keys.Prelude.{◌+◌, ℕ, String, List}
use service_json_keys.Fault.{Result, ok, err, other}
use service_json_keys.Encoding.Base64
use service_json_keys.World.{World}
use service_json_keys.Dao
use service_json_keys.Core.Search
use service_json_keys.Handlers.Grpc.{Reply, ProtoJwk, reply, status, panicked}
use service_json_keys.Cmd.Grpc.{Answer, Call, listed, serve}
use service_json_keys.Client.{BaseClient, Client, GrpcClient, new_client}
use service_json_keys.Sample.{sample, one_key}
use service_json_keys.Sample.Commands.{golib}
use service_json_keys.Sample.Servers.{plain, read, server, arrived}

abbrev pub result_of : Reply (List ProtoJwk) → Result (List ProtoJwk)
result_of (reply items) = ok items
result_of (status code message) = err (other message)
result_of panicked = err (other "internal")

abbrev pub items_of : Answer ℕ → Result (List ProtoJwk)
items_of (listed answer) = result_of answer
items_of _ = err (other "internal")

-- A connection is an address.
abbrev base : BaseClient
base = record {
  jwk_list = λ usage w.
      let (answer, w') = serve golib sample read plain server arrived (Call.list usage) w in
      (items_of answer, w');
}

abbrev grpc : GrpcClient String
grpc = record {
  new_client = λ addr. ok addr;
  services = λ conn. base;
  close = λ conn w. (ok tt, w);
}

abbrev after : World
after = record one_key { step = one_key.step + 1 }
