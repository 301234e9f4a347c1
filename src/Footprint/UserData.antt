-- ===== src/Footprint/UserData.antt =====
-- What the registered job carries: the data of the machine's bootstrap secret.
use cluster_api_provider_nom.Base.{
  ℕ, String, Option, some, List, [], ◌∷◌, ◌++◌, map, All, ◌≡◌, ◌⊎◌, inl, inr, true, refl, ap,
  lookup, Bool-cases,
}
use cluster_api_provider_nom.Base.Search.{occurs}
use cluster_api_provider_nom.World.Error.{ok, err, wrap, Result}
use cluster_api_provider_nom.World.Kit.{Kit}
use cluster_api_provider_nom.World.Wire.{
  NomadConfig, Job, Task, TaskGroup, Call, get_object, register_job,
}
use cluster_api_provider_nom.World.Remote.{World}
use cluster_api_provider_nom.World.Monad.{Sys, M, pure, on_ok, ◌>>=◌}
use cluster_api_provider_nom.World.Keeps.{Keeps, Keeps-bind}
use cluster_api_provider_nom.Api.Meta.{ObjectKey}
use cluster_api_provider_nom.Api.NomadMachine.{Deployed, NomadMachine}
use cluster_api_provider_nom.Scope.MachineScope.{MachineScope, get_raw_bootstrap_data}
use cluster_api_provider_nom.Machine.Job.{failure_domain, make_job}
use cluster_api_provider_nom.Machine.Service.{follow_registration, deploy_machine}
use cluster_api_provider_nom.Controllers.MachineNormal.{resolve_user_data, deploy}
use cluster_api_provider_nom.Footprint.{Frame, frame_rules}
use cluster_api_provider_nom.Footprint.Render.{Renderer, first_boot_template, user_data_of}
use cluster_api_provider_nom.Footprint.Machine.{IsOwnJob, QuietCall, follow_registration-Keeps}

-- The tasks of all groups.
abbrev pub all_tasks : List TaskGroup → List Task
all_tasks [] = []
all_tasks (g ∷ gs) = g.tasks ++ all_tasks gs

-- The calls that `before` grows by: the bootstrap secret is read, then one job of the machine is
-- registered, and no later call is for a job. The job has one task. Its template for the user data
-- holds `text` between delimiters of its own, and unless `text` has the left one in it, the task
-- finds `text` as its user data.
pub record Registers (R : Renderer) (s : MachineScope) (key : ObjectKey) (text : String)
    (before after : List Call) : Type 0 where
  pub config : NomadConfig
  pub job : Job
  pub later : List Call
  pub own : IsOwnJob s job
  pub carried :
      map (λ (t : Task). first_boot_template t.templates) (all_tasks job.task_groups)
      ≡ some (record {
        dest_path = "local/boot/user-data";
        embedded_tmpl = text;
        left_delim = some "{{**{{";
        right_delim = some "}}**}}";
      })
        ∷ []
  pub found :
      (occurs "{{**{{" text ≡ true)
      ⊎ (map (λ (t : Task). user_data_of R t.templates) (all_tasks job.task_groups)
          ≡ some text ∷ [])
  pub quiet : All (QuietCall s) later
  pub calls : after ≡ later ++ (register_job config job ∷ get_object "Secret" key ∷ before)

make_job-IsOwnJob :
    (s : MachineScope) (nm : NomadMachine) (text dc : String)
    → IsOwnJob s (make_job s.machine nm text dc)
unfolding make_job
make_job-IsOwnJob s nm text dc = record { id = refl; name = refl }

make_job-carried :
    (s : MachineScope) (nm : NomadMachine) (text dc : String)
    → map
        (λ (t : Task). first_boot_template t.templates)
        (all_tasks (make_job s.machine nm text dc).task_groups)
      ≡ some (record {
        dest_path = "local/boot/user-data";
        embedded_tmpl = text;
        left_delim = some "{{**{{";
        right_delim = some "}}**}}";
      })
        ∷ []
unfolding make_job
make_job-carried s nm text dc = refl

make_job-user_data :
    (R : Renderer) (s : MachineScope) (nm : NomadMachine) (text dc : String)
    → (occurs "{{**{{" text ≡ true)
      ⊎ (map
            (λ (t : Task). user_data_of R t.templates)
            (all_tasks (make_job s.machine nm text dc).task_groups)
          ≡ some text ∷ [])
unfolding make_job
make_job-user_data R s nm text dc = elim (Bool-cases (occurs "{{**{{" text)) [
  | inl present ↦ inl present
  | inr absent ↦ inr (ap (λ t. some t ∷ []) (R.plain "{{**{{" "}}**}}" text absent))
]

module _ (R : Renderer) (W : World) (s : MachineScope) (key : ObjectKey) (text : String)
    (before : List Call) where
  Registers-Frame : Frame (QuietCall s) (λ (t : Sys W.State). Registers R s key text before t.calls)
  Registers-Frame = record {
    on_call = λ t w c own h. record {
      config = h.config;
      job = h.job;
      later = c ∷ h.later;
      own = h.own;
      carried = h.carried;
      found = h.found;
      quiet = (own, h.quiet);
      calls = ap (λ cs. c ∷ cs) h.calls;
    };
    on_silent = λ t w h. h;
    on_objects = λ t m k h. h;
  }

-- The bootstrap secret of the machine.
abbrev pub secret_key : MachineScope → String → ObjectKey
secret_key s name = record { key_namespace = s.machine.meta.namespace; key_name = name }

module _ (R : Renderer) (K : Kit) (W : World) (fuel : ℕ) (s : MachineScope) (sys : Sys W.State)
    (c : NomadConfig) where
  -- The rest of deployMachine, once the answer on the registration is there.
  abbrev after_registration : Result String → M W.State (Result (Option Deployed))
  after_registration answer = do
    deployed ← follow_registration W fuel s c answer
    on_ok deployed (λ e. pure (err (wrap e "failed to deploy NomadMachine instance")))
        (λ m. pure (ok m))

  after_registration-Registers :
      (key : ObjectKey) (text : String) (answer : Result String)
      → Keeps
          (λ (t : Sys W.State). Registers R s key text sys.calls t.calls)
          (after_registration answer)
  after_registration-Registers key text answer =
      Keeps-bind _ _
        (follow_registration-Keeps K W s (Registers-Frame R W s key text sys.calls) fuel c answer)
        (λ deployed. search frame_rules)

  deploy_registers :
      (name text dc : String) {entries : List (String × String)} {w : W.State}
      → s.machine.data_secret_name ≡ some name
      → W.get_secret (secret_key s name) sys.world ≡ (ok entries, w)
      → lookup "value" entries ≡ some text
      → failure_domain s.machine sys.nomad_machine ≡ some dc
      → let job = make_job s.machine sys.nomad_machine text dc in
        deploy K W fuel s (record { scope = s; nomad_client = some c }) sys
        ≡ after_registration (W.register_job c job w).0 (record sys {
          world = (W.register_job c job w).1;
          calls = register_job c job ∷ get_object "Secret" (secret_key s name) ∷ sys.calls;
        })
  unfolding deploy resolve_user_data get_raw_bootstrap_data deploy_machine ◌>>=◌
  deploy_registers name text dc given read value placed = simp (given, read, value, placed)

  -- However deployMachine ends: where the machine's bootstrap secret is read and has a text under
  -- "value", Nomad's client was made and a failure domain is set, it reads the secret once, and then
  -- registers one job, which is the machine's own and carries this text to its one task; its other
  -- calls come later and none of them registers or deregisters a job.
  pub deploy-Registers :
      (name text dc : String) {entries : List (String × String)} {w : W.State}
      → s.machine.data_secret_name ≡ some name
      → W.get_secret (secret_key s name) sys.world ≡ (ok entries, w)
      → lookup "value" entries ≡ some text
      → failure_domain s.machine sys.nomad_machine ≡ some dc
      → Registers R s
          (secret_key s name)
          text
          sys.calls
          (deploy K W fuel s (record { scope = s; nomad_client = some c }) sys).1.calls
  deploy-Registers name text dc {w} given read value placed =
      let job = make_job s.machine sys.nomad_machine text dc in
      let key = secret_key s name in
      let (answer, w') = W.register_job c job w in
      let t : Sys W.State = record sys {
        world = w';
        calls = register_job c job ∷ get_object "Secret" key ∷ sys.calls;
      } in
      rw (deploy_registers name text dc given read value placed) (
        (after_registration-Registers key text answer).at t (record {
          config = c;
          job = job;
          later = [];
          own = make_job-IsOwnJob s sys.nomad_machine text dc;
          carried = make_job-carried s sys.nomad_machine text dc;
          found = make_job-user_data R s sys.nomad_machine text dc;
          quiet = tt;
          calls = refl;
        }))
