-- ===== src/Controllers/MachineNormal/Status.antt =====
-- What a run shows of the deployment that it was given.
use cluster_api_provider_nom.Base.{String, List, some, ◌≡◌, ◌≢◌, arith}
use cluster_api_provider_nom.Base.Text.{◌==◌, eq_iff}
use mathlib.Core.Bool.{false≢true}
use cluster_api_provider_nom.World.Kit.{Kit, IsLawful}
use cluster_api_provider_nom.World.Remote.{World}
use cluster_api_provider_nom.World.Monad.{Sys, ◌>>=◌}
use cluster_api_provider_nom.World.Keeps.{Keeps, Keeps-continue, stable_rules}
use cluster_api_provider_nom.Api.Conditions.{
  machine_deployed_condition, machine_deploying_reason, dns_attached_condition, dns_attach_pending,
}
use cluster_api_provider_nom.Api.Meta.{MachineAddress, info_severity, warning_severity}
use cluster_api_provider_nom.Api.NomadMachine.{
  NomadMachine, Deployed, machine_state_running, machine_state_successful,
}
use cluster_api_provider_nom.Scope.MachineScope.{MachineScope, provider_id_of, set_addresses}
use cluster_api_provider_nom.Frames.{finish_node-Keeps}
use cluster_api_provider_nom.Controllers.DnsAttachment.Laws.{
  IgnoresDns, reconcile_dns_attachment-Keeps,
}
use cluster_api_provider_nom.Controllers.DnsAttachment.{set_dns_attached}
use cluster_api_provider_nom.Controllers.MachineNormal.{
  adopt, dispatch_status, settle_machine, follow_deployment,
}

-- The object shows the deployment: its provider id, its status, and whether it is ready, both
-- in the flag and in the condition MachineDeployed.
pub record Shows (K : Kit) (d : Deployed) (m : NomadMachine) : Type 0 where
  pub provider : m.spec.provider_id ≡ some (provider_id_of d.job_id d.deployment_id)
  pub status : m.status.deployment_status ≡ some d.status
  pub description : m.status.status_description ≡ some d.status_description
  pub ready : m.status.ready ≡ (d.status == machine_state_successful)
  pub deployed :
      K.holds machine_deployed_condition m.status.conditions
      ≡ (d.status == machine_state_successful)

module _ (K : Kit) (L : IsLawful K) (W : World) (s : MachineScope) (d : Deployed) where
  abbrev P : Sys W.State → Type 0
  P sys = Shows K d sys.nomad_machine

  states_differ : ◌≢◌ {A = String} machine_state_running machine_state_successful
  states_differ e = false≢true ((eq_iff _ _).1 e)

  other_condition : ◌≢◌ {A = String} dns_attached_condition machine_deployed_condition
  other_condition e = false≢true ((eq_iff _ _).1 e)

  P-IgnoresDns : IgnoresDns K P
  unfolding set_dns_attached
  P-IgnoresDns = record {
    stable = record { calls_only = λ sys w calls h. h };
    flag = λ b sys h. ground arith;
    attached = λ sys h. ground (
      arith,
      L.holds-mark_true_ne dns_attached_condition machine_deployed_condition
          sys.nomad_machine.status.conditions other_condition,
    );
    pending = λ sys h. ground (
      arith,
      L.holds-mark_false_ne dns_attached_condition machine_deployed_condition dns_attach_pending
          warning_severity "" sys.nomad_machine.status.conditions other_condition,
    );
  }

  -- The switch shows the status, whatever it is.
  dispatch_status-Shows :
      (sys : Sys W.State)
      → P
          (dispatch_status K W d.status
            (record sys { nomad_machine = adopt d sys.nomad_machine })).1
  unfolding dispatch_status adopt ◌>>=◌
  dispatch_status-Shows sys =
      let cs = sys.nomad_machine.status.conditions in
      ground (
        arith,
        eq_iff d.status machine_state_running,
        eq_iff d.status machine_state_successful,
        states_differ,
        L.holds-mark_true machine_deployed_condition cs,
        L.holds-mark_false machine_deployed_condition machine_deploying_reason info_severity "" cs,
        L.holds-mark_unknown machine_deployed_condition "" "" cs,
      )

  set_addresses-Shows :
      (addrs : List MachineAddress) (sys : Sys W.State)
      → P sys
      → P (record sys { nomad_machine = set_addresses addrs sys.nomad_machine })
  unfolding set_addresses
  set_addresses-Shows addrs sys h = ground arith

  settle_machine-Shows : Keeps P (settle_machine K W s d)
  unfolding settle_machine
  settle_machine-Shows =
      search
        (
          stable_rules, P-IgnoresDns.stable, finish_node-Keeps, reconcile_dns_attachment-Keeps,
          P-IgnoresDns, set_addresses-Shows,
        )
        depth 10

  -- However the rest of the run ends, with a reply or by a panic, with or without the DNS
  -- attachment and the node's provider id, the object then shows the deployment: its provider
  -- id is nomad:///<job>/<deployment>, its status and description are the deployment's, and the
  -- flag `ready` and the condition MachineDeployed are both true if the status is "successful",
  -- both not true otherwise.
  pub follow_deployment-Shows :
      (sys : Sys W.State) → Shows K d (follow_deployment K W s (some d) sys).1.nomad_machine
  unfolding follow_deployment ◌>>=◌
  follow_deployment-Shows sys =
      let adopted = record sys { nomad_machine = adopt d sys.nomad_machine } in
      let (r, sys') = dispatch_status K W d.status adopted in
      Keeps-continue {P = P} r (λ _. settle_machine K W s d) sys' (λ _. settle_machine-Shows)
        (dispatch_status-Shows sys)
