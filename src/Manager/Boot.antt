-- ===== src/Manager/Boot.antt =====
-- A run of `main`: the steps that are asked of the libraries, each of which may fail, and the
-- exit of the process.
use cluster_api_provider_nom.Base.{ℕ, String, Bool, Option, none, some, List, ◌∷◌}
use cluster_api_provider_nom.World.Error.{Error}

-- The flags of main.go. Durations are in seconds.
pub record Flags : Type 0 where
  pub metrics_bind_addr : String
  pub machine_concurrency : ℕ
  pub enable_leader_election : Bool
  pub sync_period : ℕ
  pub health_addr : String
  pub webhook_port : ℕ
  pub watch_namespace : String

-- ctrl.Options: the fields that `main` sets, less the scheme.
pub record Options : Type 0 where
  pub metrics_bind_address : String
  pub leader_election : Bool
  pub leader_election_id : String
  pub sync_period : ℕ
  pub health_probe_bind_address : String
  pub port : ℕ
  pub namespace : String

-- Where a watch's events come from: the objects of a kind, or the reconciler's own channel.
pub data Source : Type 0 where
  kind : String → Source
  channel : Source

-- What makes requests of an event: the two functions of this repository, cluster-api's mappers
-- by the kind that they map to, and `EnqueueRequestForObject`.
pub data Handler : Type 0 where
  nomad_cluster_to_nomad_machines : Handler
  control_plane_machine_to_cluster : Handler
  machine_to_infrastructure : String → Handler
  cluster_to_infrastructure : String → Handler
  cluster_to_objects : String → Handler
  enqueue_object : Handler

pub data Predicate : Type 0 where
  resource_not_paused : Predicate
  cluster_unpaused : Predicate
  cluster_unpaused_and_infrastructure_ready : Predicate

pub record Watch : Type 0 where
  pub source : Source
  pub handler : Handler
  pub predicates : List Predicate

-- A controller as its builder is told. `none` leaves the concurrency to controller-runtime.
pub record Controller : Type 0 where
  pub for_kind : String
  pub max_concurrent_reconciles : Option ℕ
  pub watches : List Watch
  pub event_filter : Predicate

pub data Step : Type 0 where
  new_manager : Options → Step
  add_readyz_check : String → Step
  add_healthz_check : String → Step
  new_tracker : Step
  setup_cache_reconciler : ℕ → Step
  objects_mapper : String → Step
  build : Controller → Step
  watch : Watch → Step
  start : Step

-- How a part of the start ends: with a value, or with the exit of the process.
pub data Ending (A : Type 0) : Type 0 where
  goes_on : A → Ending A
  exits : ℕ → Ending A

-- The libraries: what reading the command line makes of the flags' defaults, which ends the process
-- on a flag that it refuses, and how each step ends.
pub record Host : Type 1 where
  pub State : Type 0
  pub parse_flags : Flags → State → Ending Flags × State
  pub attempt : Step → State → Option Error × State

-- The steps so far, the last one first.
pub record Process (S : Type 0) : Type 0 where
  pub host : S
  pub steps : List Step

abbrev pub Boot : Type 0 → Type 0 → Type 0
Boot S A = Process S → Ending A × Process S

module _ {S A : Type 0} where
  unfoldable pub pure : A → Boot S A
  pure a p = (goes_on a, p)

  unfoldable pub exit : ℕ → Boot S A
  exit code p = (exits code, p)

  unfoldable pub on_no_error : Option Error → (Error → Boot S A) → Boot S A → Boot S A
  on_no_error none handle go p = go p
  on_no_error (some e) handle go p = handle e p

abbrev pub continue : {S A B : Type 0} → Ending A → (A → Boot S B) → Boot S B
continue (goes_on a) f p = f a p
continue (exits code) f p = (exits code, p)

infixl 5 ◌>>=◌ ◌>>◌
-- Whoever opens this opens the others too.
unfoldable pub ◌>>=◌ : {S A B : Type 0} → Boot S A → (A → Boot S B) → Boot S B
unfolding pure exit on_no_error
◌>>=◌ m f p = let (r, p') = m p in continue r f p'

abbrev pub ◌>>◌ : {S B : Type 0} → Boot S (Unit {0}) → Boot S B → Boot S B
m >> k = m >>= λ _. k

module _ (H : Host) where
  unfoldable pub attempt : Step → Boot H.State (Option Error)
  attempt s p =
      let (failed, host) = H.attempt s p.host in
      (goes_on failed, record { host = host; steps = s ∷ p.steps })

  -- `if err != nil { …; os.Exit(1) }`.
  abbrev pub exit_on : Option Error → Boot H.State (Unit {0})
  exit_on failed = on_no_error failed (λ e. exit 1) (pure tt)

  unfoldable pub must : Step → Boot H.State (Unit {0})
  unfolding attempt
  must s = attempt s >>= exit_on
