-- ===== src/Scope/Clients.antt =====
-- pkg/nomad/scope/client.go: the clients of Consul and Nomad, from the process's environment.
use cluster_api_provider_nom.Base.{String, Option, none, some}
use cluster_api_provider_nom.Base.Text.{◌==◌}
use cluster_api_provider_nom.World.Wire.{NomadConfig, read_env}
use cluster_api_provider_nom.World.Remote.{World}
use cluster_api_provider_nom.World.Monad.{
  M, missing_env, pure, panic, call, silent, branch, on_no_error, ◌>>=◌,
}
use cluster_api_provider_nom.Consul.Client.{Client, new_client}

module _ (W : World) where
  abbrev getenv : String → M W.State String
  getenv name = call (read_env name) (W.read_env name)

  unfoldable pub new_consul_client : M W.State Client
  unfolding new_client
  new_consul_client = do
    endpoint ← getenv "CONSUL_ENDPOINT"
    branch (endpoint == "") (panic (missing_env "CONSUL_ENDPOINT"))
        (do key ← getenv "CONSUL_API_KEY"; pure (new_client endpoint key))

  -- The error of `api.NewClient` is dropped, and then the client is nil.
  unfoldable pub new_nomad_client : M W.State (Option NomadConfig)
  new_nomad_client = do
    endpoint ← getenv "NOMAD_ENDPOINT"
    branch (endpoint == "") (panic (missing_env "NOMAD_ENDPOINT")) (do
      key ← getenv "NOMAD_API_KEY"
      let conf : NomadConfig = record { address = endpoint; secret_id = key; region = "global" }
      refused ← silent (W.new_nomad_client conf)
      on_no_error refused (λ e. pure none) (pure (some conf)))
