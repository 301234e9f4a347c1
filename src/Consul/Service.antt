-- ===== src/Consul/Service.antt =====
-- pkg/consulclient/service.go: the two operations on the agent's services.
pub mod Sent
use cluster_api_provider_nom.Base.{String, ◌<>◌, Option, none, some}
use cluster_api_provider_nom.World.Error.{Error}
use cluster_api_provider_nom.World.Wire.{put, null, service, Service}
use cluster_api_provider_nom.World.Remote.{World}
use cluster_api_provider_nom.World.Monad.{M, pure, on_no_error, ◌>>=◌}
use cluster_api_provider_nom.Consul.Client.{Client, send}

abbrev pub register_path : String
register_path = "/v1/agent/service/register"

abbrev pub deregister_path : String → String
deregister_path service_id = "/v1/agent/service/deregister/" <> service_id

module _ (W : World) where
  unfoldable pub register_service : Client → Service → M W.State (Option Error)
  register_service c s = do
    failed ← send W c put register_path (service s) none
    on_no_error failed (λ e. pure (some e)) (pure none)

  unfoldable pub deregister_service : Client → String → M W.State (Option Error)
  deregister_service c service_id = do
    failed ← send W c put (deregister_path service_id) null none
    on_no_error failed (λ e. pure (some e)) (pure none)
