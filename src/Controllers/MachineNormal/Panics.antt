-- ===== src/Controllers/MachineNormal/Panics.antt =====
-- Answers of Nomad that end a run by a nil pointer.
use cluster_api_provider_nom.Base.{ℕ, String, some, false, ◌∷◌, ◌≡◌, ◌≢◌, refl, arith}
use cluster_api_provider_nom.Base.Text.{◌==◌, eq_iff}
use cluster_api_provider_nom.World.Error.{Error, ok, err}
use cluster_api_provider_nom.World.Kit.{Kit}
use cluster_api_provider_nom.World.Wire.{NomadConfig, register_job}
use cluster_api_provider_nom.World.Remote.{World}
use cluster_api_provider_nom.World.Monad.{Sys, returned, panicked, nil_dereference, ◌>>=◌}
use cluster_api_provider_nom.Scope.MachineScope.{MachineScope}
use cluster_api_provider_nom.Machine.Job.{failure_domain, make_job}
use cluster_api_provider_nom.Machine.Service.{
  new_service, get_deployment_id, fetch_machine, follow_registration, deploy_machine,
}
use cluster_api_provider_nom.Controllers.MachineNormal.{
  resolve_user_data, deploy, follow_deployment, deploy_and_follow,
}

pub not_empty : (t : String) → t ≢ "" → (t == "") ≡ false
not_empty t ne = ground (arith, eq_iff t "")

-- A run up to the registration: the service, the user data, the client and the failure domain.
module _ (K : Kit) (W : World) (fuel : ℕ) (s : MachineScope) (sys : Sys W.State) (c : NomadConfig)
    (text datacenter : String) {sys₁ sys₂ : Sys W.State}
    (serviced : new_service W s sys
      ≡ (returned (record { scope = s; nomad_client = some c }), sys₁))
    (resolved : resolve_user_data K W s sys₁ ≡ (returned (ok text), sys₂))
    (placed : failure_domain s.machine sys₂.nomad_machine ≡ some datacenter) where
  -- The state after the registration of the job.
  abbrev registered : Sys W.State
  registered =
      let job = make_job s.machine sys₂.nomad_machine text datacenter in
      record sys₂ {
        world = (W.register_job c job sys₂.world).1;
        calls = register_job c job ∷ sys₂.calls;
      }

  -- Where the client is made, the user data are read and a failure domain is set: if Nomad
  -- accepts the job and gives no evaluation id, the run ends by reading through a nil machine,
  -- and returns no error.
  pub deploy_and_follow-empty_eval :
      (W.register_job c (make_job s.machine sys₂.nomad_machine text datacenter) sys₂.world).0
        ≡ ok ""
      → (deploy_and_follow K W fuel s sys).0 ≡ panicked (nil_dereference "m")
  unfolding deploy_and_follow deploy deploy_machine follow_registration follow_deployment ◌>>=◌
  deploy_and_follow-empty_eval h = rw serviced (rw resolved (rw placed (rw h refl)))

  -- Where the client is made, the user data are read and a failure domain is set: if Nomad
  -- accepts the job, and its evaluation ends and names a deployment that then cannot be read,
  -- the run ends by reading through a nil deployment, and the error of the read is lost.
  pub deploy_and_follow-unread_deployment :
      {sys₃ : Sys W.State} (eval_id deployment_id : String) (e : Error)
      → (W.register_job c (make_job s.machine sys₂.nomad_machine text datacenter) sys₂.world).0
        ≡ ok eval_id
      → eval_id ≢ ""
      → get_deployment_id W fuel c eval_id registered ≡ (returned (ok deployment_id), sys₃)
      → (W.read_deployment c deployment_id sys₃.world).0 ≡ err e
      → (deploy_and_follow K W fuel s sys).0 ≡ panicked (nil_dereference "deployment")
  unfolding deploy_and_follow deploy deploy_machine follow_registration fetch_machine ◌>>=◌
  deploy_and_follow-unread_deployment eval_id deployment_id e h ne settled lost =
      rw serviced
        (rw resolved (rw placed (rw h (rw (not_empty eval_id ne) (rw settled (rw lost refl))))))
