-- ===== src/Scope/MachineScope.antt =====
-- pkg/nomad/scope/machine.go. The scope's NomadMachine is the object that `Sys` holds.
pub mod NodeProvider
pub mod ProviderId
use cluster_api_provider_nom.Base.{
  String, ◌<>◌, Bool, true, false, Option, none, some, List, [], ◌∷◌, lookup, if◌then◌else◌,
}
use cluster_api_provider_nom.Base.Text.{◌==◌}
use cluster_api_provider_nom.World.Error.{Error, fresh, wrap, Result, ok, err}
use cluster_api_provider_nom.World.Kit.{Kit}
use cluster_api_provider_nom.World.Wire.{
  get_object, patch_nomad_machine, get_remote_client, get_node, patch_node,
}
use cluster_api_provider_nom.World.Remote.{World}
use cluster_api_provider_nom.World.Monad.{
  M, pure, call, silent, on_ok, on_no_error, on_some, branch, get_machine, modify_machine, ◌>>=◌,
  ◌>>◌,
}
use cluster_api_provider_nom.Api.Meta.{
  Machine, Cluster, MachineAddress, Severity, ObjectKey, object_key,
}
use cluster_api_provider_nom.Api.Conditions.{
  ready_condition, machine_deployed_condition, dns_attached_condition,
}
use cluster_api_provider_nom.Api.NomadMachine.{
  NomadMachine, MachineStatus, get_conditions, set_conditions,
}
use cluster_api_provider_nom.Scope.States.{
  machine_running_states, machine_operational_states, machine_known_states,
}
use cluster_api_provider_nom.Scope.ClusterScope.{ClusterScope}

abbrev pub dns_domain : String
dns_domain = "sc"

pub record MachineScope : Type 0 where
  pub machine : Machine
  pub cluster : Cluster
  pub cluster_scope : ClusterScope
  -- The object as it was when the scope was made.
  pub patch_helper : NomadMachine

-- `Id`.
unfoldable pub id : MachineScope → String
id s = s.machine.meta.name

-- `MachineScope.GetDNSName`.
unfoldable pub get_dns_name : MachineScope → String
get_dns_name s = s.machine.meta.name <> ("." <> dns_domain)

abbrev pub is_control_plane : Kit → MachineScope → Bool
is_control_plane K s = K.is_control_plane_machine s.machine

unfoldable pub role : Kit → MachineScope → String
role K s = if K.is_control_plane_machine s.machine then "control-plane" else "node"

unfoldable pub set_addresses : List MachineAddress → NomadMachine → NomadMachine
set_addresses addrs m = record m { status = record (m.status) { addresses = addrs } }

unfoldable pub set_ready : NomadMachine → NomadMachine
set_ready m = record m { status = record (m.status) { ready = true } }

abbrev pub is_ready : NomadMachine → Bool
is_ready m = m.status.ready

unfoldable pub set_not_ready : NomadMachine → NomadMachine
set_not_ready m = record m { status = record (m.status) { ready = false } }

unfoldable pub set_failure_message : String → NomadMachine → NomadMachine
set_failure_message v m = record m { status = record (m.status) { failure_message = some v } }

unfoldable pub set_failure_reason : String → NomadMachine → NomadMachine
set_failure_reason v m = record m { status = record (m.status) { failure_reason = some v } }

unfoldable pub get_provider_id : NomadMachine → String
get_provider_id m = elim m.spec.provider_id [ some p ↦ p | none ↦ "" ]

-- The text that `SetProviderID` makes.
unfoldable pub provider_id_of : String → String → String
provider_id_of job_id deployment_id = "nomad:///" <> (job_id <> ("/" <> deployment_id))

unfoldable pub set_provider_id : String → String → NomadMachine → NomadMachine
unfolding provider_id_of
set_provider_id job_id deployment_id m = record m {
  spec = record (m.spec) { provider_id = some (provider_id_of job_id deployment_id) };
}

abbrev pub get_deployment_status : NomadMachine → Option MachineStatus
get_deployment_status m = m.status.deployment_status

unfoldable pub set_deployment_status : MachineStatus → NomadMachine → NomadMachine
set_deployment_status v m = record m { status = record (m.status) { deployment_status = some v } }

unfoldable pub set_deployment_status_description : String → NomadMachine → NomadMachine
set_deployment_status_description v m = record m {
  status = record (m.status) { status_description = some v };
}

abbrev pub mark_false : Kit → String → String → Severity → String → NomadMachine → NomadMachine
mark_false K condition reason severity message m =
    set_conditions m (K.mark_false condition reason severity message (get_conditions m))

abbrev pub mark_true : Kit → String → NomadMachine → NomadMachine
mark_true K condition m = set_conditions m (K.mark_true condition (get_conditions m))

abbrev pub mark_unknown : Kit → String → NomadMachine → NomadMachine
mark_unknown K condition m = set_conditions m (K.mark_unknown condition "" "" (get_conditions m))

abbrev in_states : (K : Kit) → K.StringSet → NomadMachine → Bool
in_states K states m = elim (get_deployment_status m) [ some s ↦ K.has states s | none ↦ false ]

unfoldable pub machine_is_running : Kit → NomadMachine → Bool
machine_is_running K = in_states K (machine_running_states K)

unfoldable pub machine_is_operational : Kit → NomadMachine → Bool
machine_is_operational K = in_states K (machine_operational_states K)

unfoldable pub machine_is_in_known_state : Kit → NomadMachine → Bool
machine_is_in_known_state K = in_states K (machine_known_states K)

-- The summary of `PatchObject`.
unfoldable pub summarize : Kit → MachineScope → NomadMachine → NomadMachine
summarize K s m =
    let applicable : List String =
      if is_control_plane K s
      then machine_deployed_condition ∷ dns_attached_condition ∷ []
      else machine_deployed_condition ∷ [] in
    set_conditions m
      (K.set_summary applicable (K.is_zero m.meta.deletion_timestamp) (get_conditions m))

abbrev pub owned_conditions : List String
owned_conditions = ready_condition ∷ machine_deployed_condition ∷ []

module _ (K : Kit) (W : World) where
  unfoldable pub new_machine_scope :
      Machine → Cluster → ClusterScope → M W.State (Result MachineScope)
  new_machine_scope machine cluster cluster_scope = do
    m ← get_machine
    failed ← silent (W.new_machine_helper m)
    on_no_error failed (λ e. pure (err (wrap e "failed to init patch helper")))
        (pure (
          ok (record {
            machine = machine;
            cluster = cluster;
            cluster_scope = cluster_scope;
            patch_helper = m;
          })))

  -- `PatchObject`, which is all of `Close`.
  unfoldable pub close_machine_scope : MachineScope → M W.State (Option Error)
  unfolding summarize
  close_machine_scope s = do
    modify_machine (summarize K s)
    m ← get_machine
    call (patch_nomad_machine m) (W.patch_nomad_machine s.patch_helper m owned_conditions)

module _ (W : World) where
  unfoldable pub get_raw_bootstrap_data : MachineScope → M W.State (Result String)
  get_raw_bootstrap_data s =
      on_some s.machine.data_secret_name
        (pure (
          err (
            fresh
              "error retrieving bootstrap data: linked Machine's bootstrap.dataSecretName is nil")))
        (λ secret_name. do
          let key : ObjectKey = record {
            key_namespace = s.machine.meta.namespace;
            key_name = secret_name;
          }
          found ← call (get_object "Secret" key) (W.get_secret key)
          on_ok found
              (λ e. pure (
                err (
                  wrap e (
                    "failed to retrieve bootstrap data secret for NomadMachine "
                    <> (s.machine.meta.namespace <> ("/" <> s.machine.meta.name))))))
              (λ entries.
                on_some (lookup "value" entries)
                  (pure
                    (err (fresh "error retrieving bootstrap data: secret value key is missing")))
                  (λ value. pure (ok value))))

  -- The end of `SetNodeProviderID`: the node's provider id is patched where it differs.
  unfoldable pub put_provider_id : ObjectKey → String → String → String → M W.State (Option Error)
  put_provider_id key node current provider_id = branch (current == provider_id) (pure none) (do
    refused ← silent (W.new_node_helper key node)
    on_no_error refused (λ e. pure (some e))
        (call (patch_node node provider_id) (W.patch_node key node provider_id)))

  unfoldable pub set_node_provider_id : MachineScope → M W.State (Option Error)
  unfolding get_provider_id
  set_node_provider_id s =
      let key = object_key s.cluster.meta in
      let node = s.machine.meta.name in
      do
        offline ← call (get_remote_client key) (W.get_remote_client key)
        on_no_error offline (λ e. pure (some e))
            (do
              found ← call (get_node node) (W.get_node key node)
              on_ok found (λ e. pure (some e))
                  (λ current. do
                    m ← get_machine
                    put_provider_id key node current (get_provider_id m)))
