-- ===== src/Footprint/Machine.antt =====
-- The calls of the machine controller, once it has a machine's scope.
use cluster_api_provider_nom.Base.{
  ℕ, zero, suc, String, Option, true, ◌≡◌, ◌⊎◌, inl, inr, refl, ◌∷◌,
}
use cluster_api_provider_nom.World.Error.{Result}
use cluster_api_provider_nom.World.Kit.{Kit}
use cluster_api_provider_nom.World.Wire.{
  Job, Request, Body, service, null, put, NomadConfig, Call, get_object, get_owner, list_machines,
  patch_nomad_machine, patch_nomad_cluster, get_remote_client, list_nodes, get_node, patch_node,
  register_job, deregister_job, read_evaluation, read_deployment, send_http, read_env, sleep,
  record_event,
}
use cluster_api_provider_nom.World.Remote.{World}
use cluster_api_provider_nom.World.Monad.{Sys, call}
use cluster_api_provider_nom.World.Keeps.{Keeps, Keeps-bind, Keeps-gets}
use cluster_api_provider_nom.World.Leads.{
  Leads, Weaker, Leads-call, Leads-bind, Leads-then, Leads-on_some, Leads-panic,
}
use cluster_api_provider_nom.Api.Meta.{Cluster}
use cluster_api_provider_nom.Api.NomadMachine.{NomadMachine}
use cluster_api_provider_nom.Consul.Client.{Client, send_request, send}
use cluster_api_provider_nom.Consul.Service.{register_path, deregister_path}
use cluster_api_provider_nom.Consul.Service as Consul
use cluster_api_provider_nom.Consul.Service.Sent.{put_request}
use cluster_api_provider_nom.Dns.{service_of}
use cluster_api_provider_nom.Scope.Clients.{new_consul_client, new_nomad_client}
use cluster_api_provider_nom.Scope.ClusterScope.{is_api_server_online}
use cluster_api_provider_nom.Scope.MachineScope.{
  MachineScope, id, get_raw_bootstrap_data, put_provider_id, set_node_provider_id,
}
use cluster_api_provider_nom.Machine.Job.{make_job}
use cluster_api_provider_nom.Machine.Service.{
  release_machine, poll_evaluation, get_deployment_id, fetch_machine, follow_registration,
  deploy_machine,
}
use cluster_api_provider_nom.Footprint.{Frame, frame_rules}

-- A job of the machine `s`, registered under its name.
pub record IsOwnJob (s : MachineScope) (j : Job) : Type 0 where
  pub id : j.id ≡ s.machine.meta.name
  pub name : j.job_name ≡ s.machine.meta.name

-- A request to a client of Consul that registers or deregisters the service of the machine `s`.
abbrev pub IsOwnRequest : MachineScope → Request → Type 0
IsOwnRequest s r =
    ((c : Client) × (r ≡ put_request c register_path (service (service_of s))))
    ⊎ ((c : Client) × (r ≡ put_request c (deregister_path s.machine.meta.name) null))

-- What a run for the machine `s` may call as often as it likes, before its patch.
abbrev pub QuietCall : MachineScope → Call → Type 0
QuietCall s (get_object _ _) = Unit
QuietCall s (get_owner _ _) = Unit
QuietCall s (list_machines _ _) = ⊥
QuietCall s (patch_nomad_machine _) = ⊥
QuietCall s (patch_nomad_cluster _) = ⊥
QuietCall s (get_remote_client _) = Unit
QuietCall s list_nodes = Unit
QuietCall s (get_node name) = name ≡ s.machine.meta.name
QuietCall s (patch_node name _) = name ≡ s.machine.meta.name
QuietCall s (register_job _ _) = ⊥
QuietCall s (deregister_job _ _ _) = ⊥
QuietCall s (read_evaluation _ _) = Unit
QuietCall s (read_deployment _ _) = Unit
QuietCall s (send_http r) = IsOwnRequest s r
QuietCall s (read_env _) = Unit
QuietCall s (sleep seconds) = seconds ≡ 1
QuietCall s (record_event _ _ _) = Unit

-- The registration and the deregistration of its job.
abbrev pub JobCall : MachineScope → Call → Type 0
JobCall s (register_job _ j) = IsOwnJob s j
JobCall s (deregister_job _ job_id purge) = (job_id ≡ s.machine.meta.name) × (purge ≡ true)
JobCall s _ = ⊥

-- These, and the patch of the NomadMachine.
abbrev pub MachineCall : MachineScope → Call → Type 0
MachineCall s c = QuietCall s c ⊎ JobCall s c ⊎ ((m : NomadMachine) × (c ≡ patch_nomad_machine m))

-- A property before and one after the call for the job.
pub record Phases {S : Type 0} (s : MachineScope) (P Q : Sys S → Type 0) : Type 0 where
  pub before : Frame (QuietCall s) P
  pub after : Frame (QuietCall s) Q
  pub on_job :
      (t : Sys S) (w : S) (c : Call)
      → JobCall s c
      → P t
      → Q (record t { world = w; calls = c ∷ t.calls })
  pub no_job : Weaker P Q

module _ (K : Kit) (W : World) {P : Sys W.State → Type 0} (s : MachineScope)
    (f : Frame (QuietCall s) P) where
  pub new_consul_client-Keeps : Keeps P (new_consul_client W)
  unfolding new_consul_client
  new_consul_client-Keeps = search (frame_rules, f, tt) depth 10

  pub new_nomad_client-Keeps : Keeps P (new_nomad_client W)
  unfolding new_nomad_client
  new_nomad_client-Keeps = search (frame_rules, f, tt) depth 10

  -- A request of `send` with no answer to decode, for a request that the machine owns.
  send-Keeps :
      (c : Client) (path : String) (body : Body)
      → IsOwnRequest s (put_request c path body)
      → Keeps P (send W c put path body Option.none)
  unfolding send send_request
  send-Keeps c path body own = search (frame_rules, f, own) depth 10

  pub register-Keeps : (c : Client) → Keeps P (Consul.register_service W c (service_of s))
  unfolding Consul.register_service
  register-Keeps c =
      Keeps-bind _ _ (send-Keeps c register_path (service (service_of s)) (inl (c, refl)))
        (λ failed. search frame_rules)

  pub deregister-Keeps : (c : Client) → Keeps P (Consul.deregister_service W c s.machine.meta.name)
  unfolding Consul.deregister_service
  deregister-Keeps c =
      Keeps-bind _ _ (send-Keeps c (deregister_path s.machine.meta.name) null (inr (c, refl)))
        (λ failed. search frame_rules)

  get_deployment_id-Keeps :
      (fuel : ℕ) (c : NomadConfig) (eval_id : String) → Keeps P (get_deployment_id W fuel c eval_id)
  unfolding get_deployment_id poll_evaluation
  get_deployment_id-Keeps zero c eval_id = search frame_rules
  get_deployment_id-Keeps (suc fuel) c eval_id =
      search (frame_rules, f, tt, get_deployment_id-Keeps fuel) depth 12

  pub follow_registration-Keeps :
      (fuel : ℕ) (c : NomadConfig) (answer : Result String)
      → Keeps P (follow_registration W fuel s c answer)
  unfolding follow_registration fetch_machine
  follow_registration-Keeps fuel c answer =
      search (frame_rules, f, tt, get_deployment_id-Keeps) depth 12

  pub online-Keeps : (c : Cluster) → Keeps P (is_api_server_online K W c)
  unfolding is_api_server_online
  online-Keeps c = search (frame_rules, f, tt) depth 10

  pub set_node_provider_id-Keeps : Keeps P (set_node_provider_id W s)
  unfolding set_node_provider_id put_provider_id
  set_node_provider_id-Keeps = search (frame_rules, f, tt) depth 12

  pub bootstrap-Keeps : Keeps P (get_raw_bootstrap_data W s)
  unfolding get_raw_bootstrap_data
  bootstrap-Keeps = search (frame_rules, f, tt) depth 10

module _ (K : Kit) (W : World) {P Q : Sys W.State → Type 0} (s : MachineScope)
    (ph : Phases s P Q) where
  make_job-IsOwnJob :
      (nm : NomadMachine) (text dc : String) → IsOwnJob s (make_job s.machine nm text dc)
  unfolding make_job
  make_job-IsOwnJob nm text dc = record { id = refl; name = refl }

  job-Leads :
      {A : Type 0} (c : Call) (op : W.State → A × W.State) → JobCall s c → Leads P Q (call c op)
  job-Leads c op own = Leads-call c op (λ t w h. ph.on_job t w c own h)

  pub deploy_machine-Leads :
      (fuel : ℕ) (c : Option NomadConfig) (text : String)
      → Leads P Q (deploy_machine W fuel (record { scope = s; nomad_client = c }) text)
  unfolding deploy_machine
  deploy_machine-Leads fuel c text = Leads-bind ph.no_job _ _ (Keeps-gets _) (λ nm.
      Leads-on_some _ _ _ (Leads-panic ph.no_job _) (λ dc.
        Leads-on_some c _ _ (Leads-panic ph.no_job _) (λ config.
          Leads-then _ _ (job-Leads _ _ (make_job-IsOwnJob nm text dc))
            (λ answer. follow_registration-Keeps K W s ph.after fuel config answer))))

  pub release_machine-Leads :
      (c : Option NomadConfig)
      → Leads P Q (release_machine W (record { scope = s; nomad_client = c }) (id s))
  unfolding release_machine id
  release_machine-Leads c =
      Leads-on_some c _ _ (Leads-panic ph.no_job _)
        (λ config. Leads-then _ _ (job-Leads _ _ (refl, refl)) (λ answer. search frame_rules))
