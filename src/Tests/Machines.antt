-- ===== src/Tests/Machines.antt =====
-- The machine controller on concrete objects.
use mathlib.Core.Bool.{false≢true}
use cluster_api_provider_nom.Base.{List, true, ◌≡◌, ◌⊎◌, inl, refl, some, [], ◌∷◌, if◌then◌else◌}
use cluster_api_provider_nom.Base.Text.{eq_iff}
use cluster_api_provider_nom.World.Error.{fresh}
use cluster_api_provider_nom.World.Wire.{NomadConfig}
use cluster_api_provider_nom.World.Monad.{returned, panicked, nil_dereference, ◌>>=◌}
use cluster_api_provider_nom.World.Ensures.{Ends}
use cluster_api_provider_nom.Api.NomadMachine.{Deployed, NomadMachine}
use cluster_api_provider_nom.Machine.Job.{failure_domain}
use cluster_api_provider_nom.Machine.Service.{new_service, get_deployment_id, poll_evaluation}
use cluster_api_provider_nom.Scope.Clients.{new_nomad_client}
use cluster_api_provider_nom.Scope.MachineScope.{get_raw_bootstrap_data}
use cluster_api_provider_nom.Controllers.Reply.{finished}
use cluster_api_provider_nom.Controllers.MachineDelete.{reconcile_delete}
use cluster_api_provider_nom.Controllers.MachineDelete.Laws.{IsGone, IsKept, reconcile_delete-Ends}
use cluster_api_provider_nom.Controllers.MachineReconcile.{run_machine_scope}
use cluster_api_provider_nom.Controllers.MachineReconcile.Close.{
  IsPatched, run_machine_scope-IsPatched, run_machine_scope-has_finalizer,
}
use cluster_api_provider_nom.Controllers.MachineNormal.{
  reconcile_normal, follow_deployment, deploy_and_follow, resolve_user_data,
}
use cluster_api_provider_nom.Controllers.MachineNormal.Status.{Shows, follow_deployment-Shows}
use cluster_api_provider_nom.Controllers.MachineNormal.Finalizer.{
  has_finalizer, reconcile_normal-has_finalizer, reconcile_normal_waits,
}
use cluster_api_provider_nom.Controllers.MachineNormal.Attached.{
  IsAttached, reconcile_normal-IsAttached,
}
use cluster_api_provider_nom.Controllers.MachineNormal.Panics.{
  deploy_and_follow-empty_eval, deploy_and_follow-unread_deployment,
}
use cluster_api_provider_nom.Controllers.DnsAttachment.{leaves_dns, reconcile_dns_attachment}
use cluster_api_provider_nom.Controllers.DnsAttachment.Outcomes.{
  Outcome, reconcile_dns_attachment-Ends,
}
use cluster_api_provider_nom.World.Wire.{Call, patch_nomad_machine}
use cluster_api_provider_nom.Scope.MachineScope.{set_node_provider_id}
use cluster_api_provider_nom.Scope.MachineScope.NodeProvider
use cluster_api_provider_nom.Scope.MachineScope.NodeProvider.{set_node_provider_id-Ends}
use cluster_api_provider_nom.Base.Search.{occurs}
use cluster_api_provider_nom.Footprint.Render.{Renderer}
use cluster_api_provider_nom.Tests.Fixtures.{
  kit, kit-IsLawful, world, mute_world, lost_world, machine_scope, running, deleted, fresh_start,
}

reconcile_delete-Ends_example :
    let t = reconcile_delete kit world machine_scope deleted in
    let m₀ = deleted.nomad_machine.meta in
    Ends
      (λ reply u.
        IsGone kit world machine_scope m₀ reply u ⊎ IsKept kit world machine_scope m₀ reply u)
      (λ u. u.nomad_machine.meta ≡ m₀)
      t.0
      t.1
reconcile_delete-Ends_example = reconcile_delete-Ends kit world machine_scope deleted refl

run_machine_scope-IsPatched_example :
    IsPatched kit world 5 machine_scope deleted.nomad_machine.meta
      (run_machine_scope kit world 5 machine_scope deleted).1
run_machine_scope-IsPatched_example =
    run_machine_scope-IsPatched kit world 5 machine_scope deleted refl

abbrev failed_deployment : Deployed
failed_deployment = record {
  job_id = "cp0";
  deployment_id = "d1";
  status = "failed";
  status_description = "no node fits";
  addresses = [];
}

follow_deployment-Shows_example :
    Shows kit failed_deployment
      (follow_deployment kit world machine_scope (some failed_deployment) running).1.nomad_machine
follow_deployment-Shows_example =
    follow_deployment-Shows kit kit-IsLawful world machine_scope failed_deployment running

reconcile_normal-has_finalizer_example :
    has_finalizer kit (reconcile_normal kit world 5 machine_scope fresh_start).1.nomad_machine
    ≡ true
reconcile_normal-has_finalizer_example =
    reconcile_normal-has_finalizer kit world kit-IsLawful 5 machine_scope fresh_start

reconcile_normal_waits_example :
    let t = reconcile_normal kit world 5 machine_scope fresh_start in
    (t.0 ≡ returned finished)
    × (t.1.world ≡ fresh_start.world)
    × (t.1.calls ≡ fresh_start.calls)
    × (t.1.nomad_machine.spec ≡ fresh_start.nomad_machine.spec)
    × (t.1.nomad_machine.status.ready ≡ fresh_start.nomad_machine.status.ready)
reconcile_normal_waits_example =
    reconcile_normal_waits kit world 5 machine_scope fresh_start (inl refl)

reconcile_normal-IsAttached_example :
    IsAttached kit (reconcile_normal kit world 5 machine_scope running).1.nomad_machine
reconcile_normal-IsAttached_example =
    reconcile_normal-IsAttached kit kit-IsLawful world 5 machine_scope running (refl, refl)

abbrev config : NomadConfig
config = record { address = "http://server"; secret_id = "http://server"; region = "global" }

deploy_and_follow-empty_eval_example :
    (deploy_and_follow kit mute_world 5 machine_scope running).0 ≡ panicked (nil_dereference "m")
unfolding new_service resolve_user_data failure_domain new_nomad_client get_raw_bootstrap_data ◌>>=◌
deploy_and_follow-empty_eval_example =
    deploy_and_follow-empty_eval kit mute_world 5 machine_scope running config "#cloud-config" "dc1"
      refl refl refl refl

deploy_and_follow-unread_deployment_example :
    (deploy_and_follow kit lost_world 5 machine_scope running).0
    ≡ panicked (nil_dereference "deployment")
unfolding new_service resolve_user_data failure_domain new_nomad_client get_raw_bootstrap_data
    get_deployment_id poll_evaluation ◌>>=◌
deploy_and_follow-unread_deployment_example =
    deploy_and_follow-unread_deployment kit lost_world 5 machine_scope running config
      "#cloud-config" "dc1" refl refl refl "e1" "d1" (fresh "no deployment") refl
      (λ e. false≢true ((eq_iff _ _).1 e)) refl refl

reconcile_dns_attachment-Ends_example :
    let t = reconcile_dns_attachment kit world machine_scope deleted in
    let m₀ = deleted.nomad_machine in
    Ends
      (Outcome kit kit-IsLawful world machine_scope m₀ (leaves_dns kit world m₀))
      (λ u. u.nomad_machine ≡ m₀)
      t.0
      t.1
reconcile_dns_attachment-Ends_example =
    reconcile_dns_attachment-Ends kit kit-IsLawful world machine_scope deleted refl

run_machine_scope-has_finalizer_example :
    (m : NomadMachine) × (earlier : List Call) × ((run_machine_scope kit world 5 machine_scope
        running).1.calls
      ≡ patch_nomad_machine m ∷ earlier)
    × (has_finalizer kit m ≡ true)
run_machine_scope-has_finalizer_example =
    run_machine_scope-has_finalizer kit kit-IsLawful world 5 machine_scope running refl

set_node_provider_id-Ends_example :
    let t = set_node_provider_id world machine_scope running in
    let m₀ = running.nomad_machine in
    Ends (NodeProvider.Outcome world machine_scope m₀) (λ u. u.nomad_machine ≡ m₀) t.0 t.1
set_node_provider_id-Ends_example = set_node_provider_id-Ends world machine_scope running

-- A text in which something would be executed comes out empty.
abbrev renderer : Renderer
renderer = record {
  render = λ left right text. if occurs left text then "" else text;
  plain = λ left right text absent. rw absent refl;
}
