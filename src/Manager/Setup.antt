-- ===== src/Manager/Setup.antt =====
-- `main`, `initFlags`, `setupChecks`, `setupReconcilers`, `setupWebhooks` and `concurrency` of
-- main.go, and `SetupWithManager` of controllers/nomadmachine_controller.go and
-- controllers/nomadcluster_controller.go.
use cluster_api_provider_nom.Base.{ℕ, false, Option, none, some, [], ◌∷◌}
use cluster_api_provider_nom.World.Error.{Error}
use cluster_api_provider_nom.Manager.Boot.{
  Flags, Options, kind, channel, nomad_cluster_to_nomad_machines, control_plane_machine_to_cluster,
  machine_to_infrastructure, cluster_to_infrastructure, cluster_to_objects, enqueue_object,
  resource_not_paused, cluster_unpaused, cluster_unpaused_and_infrastructure_ready, Watch,
  Controller, new_manager, add_readyz_check, add_healthz_check, new_tracker, setup_cache_reconciler,
  objects_mapper, build, watch, start, Host, Boot, pure, on_no_error, attempt, exit_on, must, ◌>>=◌,
  ◌>>◌,
}

-- The defaults of the flags.
abbrev pub init_flags : Flags
init_flags = record {
  metrics_bind_addr = ":8080";
  machine_concurrency = 2;
  enable_leader_election = false;
  sync_period = 7200;
  health_addr = ":9440";
  webhook_port = 9443;
  watch_namespace = "";
}

unfoldable pub manager_options : Flags → Options
manager_options flags = record {
  metrics_bind_address = flags.metrics_bind_addr;
  leader_election = flags.enable_leader_election;
  leader_election_id = "controller-leader-election-capnomad";
  sync_period = flags.sync_period;
  health_probe_bind_address = flags.health_addr;
  port = flags.webhook_port;
  namespace = flags.watch_namespace;
}

-- `concurrency`: controller.Options.
abbrev pub concurrency : ℕ → Option ℕ
concurrency c = some c

-- The machine controller, as its builder is told.
unfoldable pub machine_controller : Option ℕ → Controller
machine_controller options = record {
  for_kind = "NomadMachine";
  max_concurrent_reconciles = options;
  watches =
      record {
        source = kind "Machine";
        handler = machine_to_infrastructure "NomadMachine";
        predicates = [];
      }
      ∷ record {
        source = kind "NomadCluster";
        handler = nomad_cluster_to_nomad_machines;
        predicates = [];
      }
      ∷ [];
  event_filter = resource_not_paused;
}

abbrev pub machine_cluster_watch : Watch
machine_cluster_watch = record {
  source = kind "Cluster";
  handler = cluster_to_objects "NomadMachineList";
  predicates = cluster_unpaused_and_infrastructure_ready ∷ [];
}

-- The cluster controller. Its channel is made where the reconciler has none.
unfoldable pub cluster_controller : Controller
cluster_controller = record {
  for_kind = "NomadCluster";
  max_concurrent_reconciles = none;
  watches =
      record {
        source = kind "NomadMachine";
        handler = control_plane_machine_to_cluster;
        predicates = [];
      }
      ∷ record { source = channel; handler = enqueue_object; predicates = [] }
      ∷ [];
  event_filter = resource_not_paused;
}

abbrev pub cluster_cluster_watch : Watch
cluster_cluster_watch = record {
  source = kind "Cluster";
  handler = cluster_to_infrastructure "NomadCluster";
  predicates = cluster_unpaused ∷ [];
}

module _ (H : Host) where
  unfoldable pub setup_machine_reconciler : Option ℕ → Boot H.State (Option Error)
  unfolding machine_controller
  setup_machine_reconciler options = do
    unmapped ← attempt H (objects_mapper "NomadMachineList")
    on_no_error unmapped (λ e. pure (some e))
        (do
          unbuilt ← attempt H (build (machine_controller options))
          on_no_error unbuilt (λ e. pure (some e)) (attempt H (watch machine_cluster_watch)))

  unfoldable pub setup_cluster_reconciler : Boot H.State (Option Error)
  unfolding cluster_controller
  setup_cluster_reconciler = do
    unbuilt ← attempt H (build cluster_controller)
    on_no_error unbuilt (λ e. pure (some e)) (attempt H (watch cluster_cluster_watch))

  unfoldable pub setup_checks : Boot H.State (Unit {0})
  setup_checks = do must H (add_readyz_check "ping"); must H (add_healthz_check "ping")

  unfoldable pub setup_reconcilers : Flags → Boot H.State (Unit {0})
  setup_reconcilers flags = do
    must H new_tracker
    must H (setup_cache_reconciler 1)
    machine_failed ← setup_machine_reconciler (concurrency flags.machine_concurrency)
    exit_on H machine_failed
    cluster_failed ← setup_cluster_reconciler
    exit_on H cluster_failed

  -- The whole body is commented out.
  unfoldable pub setup_webhooks : Boot H.State (Unit {0})
  setup_webhooks = pure tt

  -- The command line is read into the flags.
  unfoldable pub parse : Boot H.State Flags
  parse p = let (read, host) = H.parse_flags init_flags p.host in (read, record p { host = host })

  unfoldable pub main : Boot H.State (Unit {0})
  unfolding parse
  main = do
    flags ← parse
    must H (new_manager (manager_options flags))
    setup_checks
    setup_reconcilers flags
    setup_webhooks
    must H start
