-- ===== src/Machine/Service.antt =====
-- The service of pkg/nomad/machine/machine.go. Waiting for an evaluation is an unbounded
-- recursion in the code and takes `fuel` here.
pub mod Polling
use cluster_api_provider_nom.Base.{
  ℕ, zero, suc, String, ◌<>◌, true, Option, none, some, [], ◌∷◌, if◌then◌else◌,
}
use cluster_api_provider_nom.Base.Text.{◌==◌}
use cluster_api_provider_nom.World.Error.{Error, fresh, wrap, Result, ok, err}
use cluster_api_provider_nom.World.Wire.{
  NomadConfig, Evaluation, Deployment, register_job, deregister_job, read_evaluation,
  read_deployment, sleep,
}
use cluster_api_provider_nom.World.Remote.{World}
use cluster_api_provider_nom.World.Monad.{
  M, nil_dereference, pure, panic, call, on_ok, on_some, branch, unfinished_loop, get_machine,
  ◌>>=◌, ◌>>◌,
}
use cluster_api_provider_nom.Api.Meta.{external_dns}
use cluster_api_provider_nom.Api.NomadMachine.{Deployed}
use cluster_api_provider_nom.Scope.Clients.{new_nomad_client}
use cluster_api_provider_nom.Scope.MachineScope.{MachineScope, get_dns_name}
use cluster_api_provider_nom.Machine.Job.{failure_domain, make_job}

pub record Service : Type 0 where
  pub scope : MachineScope
  pub nomad_client : Option NomadConfig

unfoldable pub deployment_to_machine : MachineScope → Deployment → Deployed
unfolding get_dns_name
deployment_to_machine s d = record {
  job_id = d.job_id;
  deployment_id = d.id;
  status = d.status;
  status_description = d.status_description;
  addresses = record { kind = external_dns; address = get_dns_name s } ∷ [];
}

-- What an evaluation that is not pending amounts to.
unfoldable pub settle : Evaluation → Result String
settle e =
    if e.status == "complete"
    then ok e.deployment_id
    else err (fresh ("Unable state " <> (e.status <> (" for eval " <> e.id))))

module _ (W : World) where
  unfoldable pub new_service : MachineScope → M W.State Service
  new_service s = do client ← new_nomad_client W; pure (record { scope = s; nomad_client = client })

  -- A method of a nil client reads through it.
  abbrev pub with_client : {A : Type 0} → Service → (NomadConfig → M W.State A) → M W.State A
  with_client s f = on_some s.nomad_client (panic (nil_dereference "nomadClient")) f

  unfoldable pub release_machine : Service → String → M W.State (Option Error)
  release_machine s job_id = with_client s λ c. do
    answer ← call (deregister_job c job_id true) (W.deregister_job c job_id true)
    on_ok answer (λ e. pure (some (wrap e "Unable to deregister job"))) (λ eval_id. pure none)

  -- One round of `getDeploymentIDFromEval`: `again` is the recursive call.
  unfoldable pub poll_evaluation :
      NomadConfig → String → M W.State (Result String) → M W.State (Result String)
  unfolding settle
  poll_evaluation c eval_id again = do
    answer ← call (read_evaluation c eval_id) (W.read_evaluation c eval_id)
    on_ok answer (λ e. pure (err e))
        (λ e.
          branch (e.status == "complete") (pure (settle e)) (
            branch (e.status == "pending") (do call (sleep 1) (W.sleep 1); again)
              (pure (settle e))))

  unfoldable pub get_deployment_id : ℕ → NomadConfig → String → M W.State (Result String)
  get_deployment_id zero c eval_id = unfinished_loop
  get_deployment_id (suc fuel) c eval_id =
      poll_evaluation c eval_id (get_deployment_id fuel c eval_id)

  -- `getDeployment` and `deploymentToMachine`: the error of the first is dropped, and the second
  -- reads through the nil deployment that came with it.
  unfoldable pub fetch_machine : MachineScope → NomadConfig → String → M W.State Deployed
  unfolding deployment_to_machine
  fetch_machine s c deployment_id = do
    answer ← call (read_deployment c deployment_id) (W.read_deployment c deployment_id)
    on_ok answer (λ e. panic (nil_dereference "deployment")) (λ d. pure (deployment_to_machine s d))

  -- From the registration's answer on. `errors.Wrapf` of a nil error is nil, so an empty evaluation
  -- id gives a nil machine and no error.
  unfoldable pub follow_registration :
      ℕ → MachineScope → NomadConfig → Result String → M W.State (Result (Option Deployed))
  follow_registration fuel s c answer =
      on_ok answer (λ e. pure (err (wrap e "Unable to register job")))
        (λ eval_id. branch (eval_id == "") (pure (ok none)) (do
          found ← get_deployment_id fuel c eval_id
          on_ok found (λ e. pure (err (wrap e "Unable to find matching deployment")))
              (λ deployment_id. do m ← fetch_machine s c deployment_id; pure (ok (some m)))))

  -- A machine with no failure domain anywhere reads through a nil pointer.
  unfoldable pub deploy_machine : ℕ → Service → String → M W.State (Result (Option Deployed))
  deploy_machine fuel s user_data = do
    nm ← get_machine
    on_some (failure_domain s.scope.machine nm) (panic (nil_dereference "failureDomain"))
        (λ datacenter. with_client s λ c. do
          let job = make_job s.scope.machine nm user_data datacenter
          answer ← call (register_job c job) (W.register_job c job)
          follow_registration fuel s.scope c answer)
