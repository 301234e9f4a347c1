-- ===== src/Scope/States.antt =====
-- The sets of deployment states of api/v1alpha3/types.go.
pub mod Laws
use cluster_api_provider_nom.Base.{String, List, [], ◌∷◌}
use cluster_api_provider_nom.Api.NomadMachine.{machine_state_running, machine_state_successful}
use cluster_api_provider_nom.World.Kit.{Kit}

module _ (K : Kit) where
  unfoldable pub machine_running_states : K.StringSet
  machine_running_states = K.new_string (machine_state_successful ∷ machine_state_running ∷ [])

  unfoldable pub machine_operational_states : K.StringSet
  unfolding machine_running_states
  machine_operational_states = K.union machine_running_states (K.new_string [])

  unfoldable pub machine_known_states : K.StringSet
  unfolding machine_operational_states
  machine_known_states = K.union machine_operational_states (K.new_string [])
