-- ===== src/Cmd/Grpc/Signing.antt =====
-- The signature of claims by a server that has started.
use service_json_keys.Externals.{Externals}
use service_json_keys.World.{World}
use service_json_keys.Cmd.Grpc
use service_json_keys.Cmd.Grpc.{Answer}
