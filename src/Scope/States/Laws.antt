-- ===== src/Scope/States/Laws.antt =====
-- The three sets of states hold the same two states.
use cluster_api_provider_nom.Base.{String, ◌≡◌, ◌||◌, Bool, arith}
use cluster_api_provider_nom.Base.Text.{◌==◌}
use cluster_api_provider_nom.Api.NomadMachine.{machine_state_running, machine_state_successful}
use cluster_api_provider_nom.World.Kit.{Kit, IsLawful}
use cluster_api_provider_nom.Scope.States.{
  machine_running_states, machine_operational_states, machine_known_states,
}

abbrev pub is_deployed_state : String → Bool
is_deployed_state s = machine_state_successful == s || machine_state_running == s

module _ (K : Kit) (L : IsLawful K) (s : String) where
  pub has-machine_running_states : K.has (machine_running_states K) s ≡ is_deployed_state s
  unfolding machine_running_states
  has-machine_running_states = rw L.has-new_string (ground arith)

  pub has-machine_operational_states : K.has (machine_operational_states K) s ≡ is_deployed_state s
  unfolding machine_operational_states
  has-machine_operational_states = simp (L.has-union, L.has-new_string) (ground arith)

  pub has-machine_known_states : K.has (machine_known_states K) s ≡ is_deployed_state s
  unfolding machine_known_states
  has-machine_known_states = simp (L.has-union, L.has-new_string) (ground arith)
