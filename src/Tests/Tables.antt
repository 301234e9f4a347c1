-- ===== src/Tests/Tables.antt =====
-- Nomad's jobs and Consul's services as concrete tables.
use cluster_api_provider_nom.Base.{
  ℕ, zero, suc, String, true, false, ◌≡◌, ◌⊎◌, refl, Option, none, some, List, [], ◌∷◌,
}
use cluster_api_provider_nom.Base.Text.{eq_refl}
use cluster_api_provider_nom.World.Error.{Error, ok}
use cluster_api_provider_nom.World.Wire.{Body, null, service, Call, patch_nomad_machine}
use cluster_api_provider_nom.World.Remote.{World}
use cluster_api_provider_nom.World.Monad.{Sys}
use cluster_api_provider_nom.World.Ensures.{Ends}
use cluster_api_provider_nom.Api.NomadMachine.{NomadMachine, machine_finalizer}
use cluster_api_provider_nom.Api.NomadCluster.{cluster_finalizer}
use cluster_api_provider_nom.Poller.{no_polls}
use cluster_api_provider_nom.Scope.MachineScope.{owned_conditions}
use cluster_api_provider_nom.Controllers.MachineReconcile.{run_machine_scope}
use cluster_api_provider_nom.Controllers.MachineReconcile.NoJob.{
  JobTable, KeptOrJobless, run_machine_scope-KeptOrJobless,
}
use cluster_api_provider_nom.Controllers.DnsAttachment.{reconcile_dns_attachment}
use cluster_api_provider_nom.Controllers.DnsAttachment.Mirror.{
  ServiceTable, Mirrors, reconcile_dns_attachment-Mirrors,
}
use cluster_api_provider_nom.Tests.Fixtures.{
  kit, kit-IsLawful, world, machine, cluster, nomad_machine, nomad_cluster, deployment, evaluation,
  machine_scope, deleted,
}

-- Nomad has the job until the clock is set back to zero.
abbrev job_world : World
job_world = record world { deregister_job = λ _ _ _ w. (ok "e2", 0) }

abbrev jobs_at : ℕ → List String
jobs_at zero = []
jobs_at (suc n) = "cp0" ∷ []

abbrev job_table : JobTable job_world
job_table = record { jobs = jobs_at; purged = λ c job_id eval_id w taken. refl }

abbrev deployed : Sys ℕ
deployed = record deleted { world = 1 }

run_machine_scope-KeptOrJobless_example :
    let t = (run_machine_scope kit job_world 5 machine_scope deployed).1 in
    (m : NomadMachine) × (earlier : List Call) × (now : ℕ) × (t.calls
      ≡ patch_nomad_machine m ∷ earlier)
    × (t.world
        ≡ (job_world.patch_nomad_machine machine_scope.patch_helper m owned_conditions now).1)
    × KeptOrJobless kit job_world job_table machine_scope deployed.nomad_machine.meta m now
run_machine_scope-KeptOrJobless_example =
    run_machine_scope-KeptOrJobless kit job_world job_table 5 machine_scope deployed refl

-- The services after a request: a service in the body is added, and no body empties the table.
abbrev after_request : Option Body → List String → List String
after_request (some (service svc)) w = svc.id ∷ w
after_request (some null) w = []
after_request none w = w

-- A world whose state is the table of services, in which every call is answered.
abbrev service_world : World
service_world = record {
  State = List String;
  get_nomad_machine = λ _ w. (ok (nomad_machine (machine_finalizer ∷ []) none false), w);
  get_nomad_cluster = λ _ w. (ok (nomad_cluster (cluster_finalizer ∷ []) none), w);
  get_cluster = λ _ w. (ok cluster, w);
  get_secret = λ _ w. (ok (("value", "#cloud-config") ∷ []), w);
  get_owner_machine = λ _ w. (ok (some machine), w);
  get_owner_cluster = λ _ w. (ok (some cluster), w);
  get_cluster_from_metadata = λ _ w. (ok cluster, w);
  list_machines = λ _ _ w. (ok (machine ∷ []), w);
  new_machine_helper = λ _ w. (none, w);
  new_cluster_helper = λ _ w. (none, w);
  patch_nomad_machine = λ _ _ _ w. (none, w);
  patch_nomad_cluster = λ _ _ _ w. (none, w);
  get_remote_client = λ _ w. (none, w);
  list_nodes = λ _ w. (none, w);
  get_node = λ _ _ w. (ok "", w);
  new_node_helper = λ _ _ w. (none, w);
  patch_node = λ _ _ _ w. (none, w);
  new_nomad_client = λ _ w. (none, w);
  register_job = λ _ _ w. (ok "e1", w);
  deregister_job = λ _ _ _ w. (ok "e2", w);
  read_evaluation = λ _ _ w. (ok (evaluation 2), w);
  read_deployment = λ _ _ w. (ok deployment, w);
  check_url = λ _ w. (none, w);
  send_http = λ req w. (
    ok (record { status_code = 200; body = ok ""; close_error = none }),
    after_request req.payload w,
  );
  read_env = λ name w. ("http://server", w);
  sleep = λ n w. (tt, w);
}

abbrev service_table : ServiceTable service_world
service_table = record {
  services = λ w. w;
  registered = λ c svc res w sent good. rw (eq_refl svc.id) refl;
  deregistered = λ c service_id res w sent good. refl;
}

abbrev attached : Sys (List String)
attached = record {
  world = "cp0" ∷ [];
  calls = [];
  nomad_machine = nomad_machine (machine_finalizer ∷ []) (some 7) true;
  nomad_cluster = nomad_cluster (cluster_finalizer ∷ []) (some 7);
  polls = no_polls;
}

reconcile_dns_attachment-Mirrors_example :
    let m₀ = attached.nomad_machine in
    let (r, t) = reconcile_dns_attachment kit service_world machine_scope attached in
    Ends
      (λ failure u.
        ((e : Error) × (failure ≡ some e))
        ⊎ Mirrors kit kit-IsLawful service_world service_table machine_scope m₀ u)
      (λ _. Unit)
      r
      t
reconcile_dns_attachment-Mirrors_example =
    reconcile_dns_attachment-Mirrors kit kit-IsLawful service_world service_table machine_scope
      attached refl
