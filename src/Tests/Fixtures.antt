-- ===== src/Tests/Fixtures.antt =====
-- A kit, a world and objects to run the model on. Every function is written out, so a run computes.
use mathlib.Core.Bool.{◌||◌}
use cluster_api_provider_nom.Base.{
  ℕ, ◌+◌, ltb, String, ◌<>◌, Bool, true, false, ◌≡◌, ◌≢◌, refl, Option, none, some, List, [], ◌∷◌,
  ◌++◌, contains, lookup, arith, if◌then◌else◌,
}
use cluster_api_provider_nom.Base.Text.{◌==◌, eq_iff, eq_refl}
use cluster_api_provider_nom.World.Error.{fresh, error_text, ok, err}
use cluster_api_provider_nom.World.Kit.{Kit, IsLawful}
use cluster_api_provider_nom.World.Wire.{Evaluation, Deployment}
use cluster_api_provider_nom.World.Remote.{World}
use cluster_api_provider_nom.World.Monad.{Sys}
use cluster_api_provider_nom.Poller.{delete, no_polls}
use cluster_api_provider_nom.Api.Meta.{
  Timestamp, ObjectMeta, Machine, Cluster, Severity, Status, is_true, is_false, is_unknown,
  no_severity, Condition, ConditionList,
}
use cluster_api_provider_nom.Api.NomadMachine.{NomadMachine, machine_finalizer}
use cluster_api_provider_nom.Api.NomadCluster.{NomadCluster, cluster_finalizer}
use cluster_api_provider_nom.Scope.ClusterScope.{ClusterScope}
use cluster_api_provider_nom.Scope.MachineScope.{MachineScope}

abbrev pub condition : String → Status → Severity → String → String → Condition
condition kind status severity reason message = record {
  kind = kind;
  status = status;
  severity = severity;
  reason = reason;
  message = message;
}

abbrev is_true_status : Status → Bool
is_true_status is_true = true
is_true_status is_false = false
is_true_status is_unknown = false

-- The newest condition of a kind counts.
abbrev pub holds_in : String → ConditionList → Bool
holds_in c [] = false
holds_in c (d ∷ cs) = if d.kind == c then is_true_status d.status else holds_in c cs

abbrev given : Option String → Bool
given none = false
given (some _) = true

abbrev no_time : Timestamp → Bool
no_time none = true
no_time (some _) = false

abbrev pub kit : Kit
kit = record {
  is_zero = no_time;
  contains_finalizer = contains;
  add_finalizer = λ fs f. f ∷ fs;
  remove_finalizer = λ fs f. delete f fs;
  is_control_plane_machine = λ m. given (lookup "cluster.x-k8s.io/control-plane" m.meta.labels);
  is_paused = λ c m. given (lookup "paused" m.labels);
  mark_true = λ c cs. condition c is_true no_severity "" "" ∷ cs;
  mark_false = λ c reason v message cs. condition c is_false v reason message ∷ cs;
  mark_unknown = λ c reason message cs. condition c is_unknown no_severity reason message ∷ cs;
  set_summary = λ _ _ cs. cs;
  holds = holds_in;
  StringSet = List String;
  new_string = λ xs. xs;
  union = λ xs ys. xs ++ ys;
  has = contains;
  format_verbose = error_text;
  quote = λ t. "'" <> t <> "'";
  format = λ t. t;
}

contains-delete : (fs : List String) (f : String) → contains (delete f fs) f ≡ false
unfolding delete
contains-delete [] f = refl
contains-delete (g ∷ fs) f = ground (arith, contains-delete fs f)

contains-++ :
    (s t : List String) (x : String) → contains (s ++ t) x ≡ (contains s x || contains t x)
contains-++ [] t x = refl
contains-++ (y ∷ s) t x = ground (arith, contains-++ s t x)

holds_in_same :
    (c : String) (s : Status) (v : Severity) (reason message : String) (cs : ConditionList)
    → holds_in c (condition c s v reason message ∷ cs) ≡ is_true_status s
holds_in_same c s v reason message cs = rw (eq_refl c) refl

holds_in_other :
    (c d : String) (s : Status) (v : Severity) (reason message : String) (cs : ConditionList)
    → c ≢ d
    → holds_in d (condition c s v reason message ∷ cs) ≡ holds_in d cs
holds_in_other c d s v reason message cs ne = ground (arith, eq_iff c d)

pub kit-IsLawful : IsLawful kit
kit-IsLawful = record {
  contains-add = λ fs f. rw (eq_refl f) refl;
  contains-remove = contains-delete;
  holds-mark_true = λ c cs. holds_in_same c is_true no_severity "" "" cs;
  holds-mark_false = λ c reason v message cs. holds_in_same c is_false v reason message cs;
  holds-mark_unknown =
      λ c reason message cs. holds_in_same c is_unknown no_severity reason message cs;
  holds-mark_true_ne = λ c d cs ne. holds_in_other c d is_true no_severity "" "" cs ne;
  holds-mark_false_ne =
      λ c d reason v message cs ne. holds_in_other c d is_false v reason message cs ne;
  has-new_string = λ xs x. refl;
  has-union = contains-++;
}

abbrev pub meta : String → List String → Timestamp → ObjectMeta
meta name finalizers deleted = record {
  name = name;
  namespace = "default";
  uid = "uid-" <> name;
  labels = ("cluster.x-k8s.io/control-plane", "") ∷ [];
  finalizers = finalizers;
  deletion_timestamp = deleted;
}

abbrev pub machine : Machine
machine = record {
  meta = meta "cp0" [] none;
  failure_domain = some "dc1";
  data_secret_name = some "secret";
  infrastructure_ref = record { ref_namespace = "default"; ref_name = "infra0" };
}

abbrev pub cluster : Cluster
cluster = record {
  meta = meta "prod" [] none;
  infrastructure_ref = some (record { ref_namespace = "default"; ref_name = "prod" });
  network = none;
  infrastructure_ready = true;
  control_plane_initialized = false;
}

abbrev pub nomad_machine : List String → Timestamp → Bool → NomadMachine
nomad_machine finalizers deleted attached = record {
  meta = meta "cp0" finalizers deleted;
  spec = record {
    failure_domain = none;
    provider_id = none;
    cpu = 2;
    memory_mb = 2048;
    debug_vnc = none;
    image = "image.qcow2";
  };
  status = record {
    ready = false;
    deployment_status = none;
    status_description = none;
    dns_attached = attached;
    addresses = [];
    conditions = [];
    failure_reason = none;
    failure_message = none;
  };
}

abbrev pub nomad_cluster : List String → Timestamp → NomadCluster
nomad_cluster finalizers deleted = record {
  meta = meta "prod" finalizers deleted;
  spec = record {
    control_plane_endpoint = record { host = ""; port = 0 };
    failure_domains = "dc1" ∷ "dc2" ∷ [];
  };
  status = record { ready = false; dns_name = ""; failure_domains = []; conditions = [] };
}

abbrev pub deployment : Deployment
deployment = record {
  job_id = "cp0";
  id = "d1";
  status = "successful";
  status_description = "done";
}

-- The evaluation is pending until the clock shows two.
abbrev pub evaluation : ℕ → Evaluation
evaluation now = record {
  id = "e1";
  status = if ltb now 2 then "pending" else "complete";
  deployment_id = "d1";
}

-- A world whose state is a clock, in which every call is answered.
abbrev pub world : World
world = record {
  State = ℕ;
  get_nomad_machine = λ _ w. (ok (nomad_machine (machine_finalizer ∷ []) none false), w);
  get_nomad_cluster = λ _ w. (ok (nomad_cluster (cluster_finalizer ∷ []) none), w);
  get_cluster = λ _ w. (ok cluster, w);
  get_secret = λ _ w. (ok (("value", "#cloud-config") ∷ []), w);
  get_owner_machine = λ _ w. (ok (some machine), w);
  get_owner_cluster = λ _ w. (ok (some cluster), w);
  get_cluster_from_metadata = λ _ w. (ok cluster, w);
  list_machines = λ _ _ w. (ok (machine ∷ []), w);
  new_machine_helper = λ _ w. (none, w);
  new_cluster_helper = λ _ w. (none, w);
  patch_nomad_machine = λ _ _ _ w. (none, w);
  patch_nomad_cluster = λ _ _ _ w. (none, w);
  get_remote_client = λ _ w. (none, w);
  list_nodes = λ _ w. (none, w);
  get_node = λ _ _ w. (ok "", w);
  new_node_helper = λ _ _ w. (none, w);
  patch_node = λ _ _ _ w. (none, w);
  new_nomad_client = λ _ w. (none, w);
  register_job = λ _ _ w. (ok "e1", w);
  deregister_job = λ _ _ _ w. (ok "e2", w);
  read_evaluation = λ _ _ w. (ok (evaluation w), w);
  read_deployment = λ _ _ w. (ok deployment, w);
  check_url = λ _ w. (none, w);
  send_http = λ _ w. (ok (record { status_code = 200; body = ok ""; close_error = none }), w);
  read_env = λ name w. ("http://server", w);
  sleep = λ n w. (tt, w + n);
}

-- A world in which Nomad gives no evaluation id, and one in which no deployment can be read.
abbrev pub mute_world : World
mute_world = record world { register_job = λ _ _ w. (ok "", w) }

abbrev pub lost_world : World
lost_world = record world { read_deployment = λ _ _ w. (err (fresh "no deployment"), w) }

abbrev pub cluster_scope : ClusterScope
cluster_scope = record {
  cluster = cluster;
  patch_helper = nomad_cluster [] none;
  controller_name = "nomadmachine";
}

abbrev pub machine_scope : MachineScope
machine_scope = record {
  machine = machine;
  cluster = cluster;
  cluster_scope = cluster_scope;
  patch_helper = nomad_machine [] none false;
}

abbrev pub system : NomadMachine → NomadCluster → Sys ℕ
system m c = record {
  world = 0;
  calls = [];
  nomad_machine = m;
  nomad_cluster = c;
  polls = no_polls;
}

-- A machine that runs, is attached and has the finalizer; the same machine once deleted; one that
-- is new.
abbrev pub running : Sys ℕ
running =
    system (nomad_machine (machine_finalizer ∷ []) none true)
      (nomad_cluster (cluster_finalizer ∷ []) none)

abbrev pub deleted : Sys ℕ
deleted =
    system (nomad_machine (machine_finalizer ∷ []) (some 7) true)
      (nomad_cluster (cluster_finalizer ∷ []) (some 7))

abbrev pub fresh_start : Sys ℕ
fresh_start = system (nomad_machine [] none false) (nomad_cluster [] none)
