-- ===== src/Dns.antt =====
-- pkg/nomad/dns/dns.go: a control-plane machine's service in Consul.
use cluster_api_provider_nom.Base.{Option, [], ◌∷◌}
use cluster_api_provider_nom.World.Error.{Error}
use cluster_api_provider_nom.World.Wire
use cluster_api_provider_nom.World.Remote.{World}
use cluster_api_provider_nom.World.Monad.{M, pure, ◌>>=◌}
use cluster_api_provider_nom.Consul.Client.{Client}
use cluster_api_provider_nom.Consul.Service
use cluster_api_provider_nom.Scope.Clients.{new_consul_client}
use cluster_api_provider_nom.Scope.MachineScope.{MachineScope, get_dns_name}

pub record DnsService : Type 0 where
  pub scope : MachineScope
  pub consul_client : Client

-- What `RegisterService` sends of a machine: the service is named after the cluster.
unfoldable pub service_of : MachineScope → Wire.Service
unfolding get_dns_name
service_of s = record {
  name = s.cluster_scope.cluster.meta.name;
  id = s.machine.meta.name;
  tags = "api-server" ∷ [];
  address = get_dns_name s;
  port = 6443;
}

module _ (W : World) where
  unfoldable pub new_service : MachineScope → M W.State DnsService
  new_service s = do
    client ← new_consul_client W
    pure (record { scope = s; consul_client = client })

  unfoldable pub register_service : DnsService → M W.State (Option Error)
  unfolding service_of
  register_service s = Service.register_service W s.consul_client (service_of s.scope)

  unfoldable pub deregister_service : DnsService → M W.State (Option Error)
  deregister_service s = Service.deregister_service W s.consul_client s.scope.machine.meta.name
