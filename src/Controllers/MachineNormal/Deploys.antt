-- ===== src/Controllers/MachineNormal/Deploys.antt =====
-- A run of `reconcileNormal` in which Nomad takes the job and its evaluation completes.
use mathlib.Core.Bool.{false≢true}
use cluster_api_provider_nom.Base.{ℕ, String, some, true, ◌∷◌, ◌≡◌, ◌≢◌, ◌<◌, refl, sym, ◌∙◌}
use cluster_api_provider_nom.Base.Text.{eq_iff}
use cluster_api_provider_nom.World.Error.{ok}
use cluster_api_provider_nom.World.Kit.{Kit, IsLawful}
use cluster_api_provider_nom.World.Wire.{
  NomadConfig, Evaluation, Deployment, register_job, read_evaluation, read_deployment,
}
use cluster_api_provider_nom.World.Remote.{World}
use cluster_api_provider_nom.World.Monad.{Sys, returned, ◌>>=◌}
use cluster_api_provider_nom.Api.NomadMachine.{machine_finalizer}
use cluster_api_provider_nom.Scope.MachineScope.{MachineScope}
use cluster_api_provider_nom.Machine.Job.{failure_domain, make_job}
use cluster_api_provider_nom.Machine.Service.{
  new_service, settle, get_deployment_id, fetch_machine, follow_registration, deploy_machine,
  deployment_to_machine,
}
use cluster_api_provider_nom.Machine.Service.Polling.{
  Pending, Settled, rounds, get_deployment_id_settles,
}
use cluster_api_provider_nom.Controllers.MachineNormal.{
  resolve_user_data, deploy, follow_deployment, deploy_and_follow, reconcile_normal,
}
use cluster_api_provider_nom.Controllers.MachineNormal.Panics.{not_empty}
use cluster_api_provider_nom.Controllers.MachineNormal.Status.{Shows, follow_deployment-Shows}

module _ (K : Kit) (W : World) (fuel : ℕ) (s : MachineScope) (sys : Sys W.State) (c : NomadConfig)
    (text datacenter : String) {sys₁ sys₂ : Sys W.State}
    (serviced : new_service W s sys
      ≡ (returned (record { scope = s; nomad_client = some c }), sys₁))
    (resolved : resolve_user_data K W s sys₁ ≡ (returned (ok text), sys₂))
    (placed : failure_domain s.machine sys₂.nomad_machine ≡ some datacenter) (eval_id : String)
    (n : ℕ) {v w : W.State} (e : Evaluation) (d : Deployment)
    (accepted : (W.register_job c
        (make_job s.machine sys₂.nomad_machine text datacenter)
        sys₂.world).0
      ≡ ok eval_id)
    (named : eval_id ≢ "")
    (pending : Pending W c eval_id
      (W.register_job c (make_job s.machine sys₂.nomad_machine text datacenter) sys₂.world).1
      n
      v)
    (read : W.read_evaluation c eval_id v ≡ (ok e, w)) (complete : e.status ≡ "complete")
    (enough : n < fuel) (found : (W.read_deployment c e.deployment_id w).0 ≡ ok d) where
  abbrev registered : Sys W.State
  registered =
      let job = make_job s.machine sys₂.nomad_machine text datacenter in
      record sys₂ {
        world = (W.register_job c job sys₂.world).1;
        calls = register_job c job ∷ sys₂.calls;
      }

  settled : Settled W c eval_id (ok e)
  settled still = false≢true ((eq_iff _ _).1 (sym complete ∙ still))

  settle_complete : settle e ≡ ok e.deployment_id
  unfolding settle
  settle_complete = rw complete refl

  awaited : get_deployment_id W fuel c eval_id registered ≡ (
    returned (ok e.deployment_id),
    record registered {
      world = w;
      calls = read_evaluation c eval_id ∷ rounds W c eval_id n registered.calls;
    },
  )
  awaited =
      get_deployment_id_settles W c eval_id n fuel registered pending (rw read settled) enough
      ∙ rw read (rw settle_complete refl)

  -- The state when the deployment has been read.
  abbrev deployed_state : Sys W.State
  deployed_state =
      let job = make_job s.machine sys₂.nomad_machine text datacenter in
      record sys₂ {
        world = (W.read_deployment c e.deployment_id w).1;
        calls =
            read_deployment c e.deployment_id
            ∷ read_evaluation c eval_id
            ∷ rounds W c eval_id n (register_job c job ∷ sys₂.calls);
      }

  deploy_and_follow-deployed :
      deploy_and_follow K W fuel s sys
      ≡ follow_deployment K W s (some (deployment_to_machine s d)) deployed_state
  unfolding deploy_and_follow deploy deploy_machine follow_registration fetch_machine settle ◌>>=◌
  deploy_and_follow-deployed = rw serviced (
      rw resolved
        (rw placed (rw accepted (rw (not_empty eval_id named) (rw awaited (rw found refl))))))

  -- On a machine that holds the finalizer, whose cluster's infrastructure is ready and whose
  -- bootstrap data are set: if the client is made, the user data are read and a failure domain is
  -- set, Nomad accepts the job, the evaluation reads as pending n times and then completes, and its
  -- deployment is read, then with fuel above n the machine shows this deployment, however the run
  -- goes on: its provider id, its status and description, and whether it is ready.
  pub reconcile_normal-Shows :
      (L : IsLawful K) {secret : String}
      → K.contains_finalizer sys.nomad_machine.meta.finalizers machine_finalizer ≡ true
      → s.cluster.infrastructure_ready ≡ true
      → s.machine.data_secret_name ≡ some secret
      → Shows K (deployment_to_machine s d) (reconcile_normal K W fuel s sys).1.nomad_machine
  unfolding reconcile_normal ◌>>=◌
  reconcile_normal-Shows L held ready given =
      simp (held, ready, given, deploy_and_follow-deployed)
        (follow_deployment-Shows K L W s (deployment_to_machine s d) deployed_state)
