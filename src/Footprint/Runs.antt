-- ===== src/Footprint/Runs.antt =====
-- The calls of a run on a machine's scope.
use mathlib.Core.Path.{subst}
use cluster_api_provider_nom.Base.{ℕ, Option, ◌≡◌, refl, sym, inl, inr}
use cluster_api_provider_nom.World.Kit.{Kit}
use cluster_api_provider_nom.World.Wire.{patch_nomad_machine, NomadConfig}
use cluster_api_provider_nom.World.Remote.{World}
use cluster_api_provider_nom.World.Monad.{Sys, M, call, ◌>>=◌}
use cluster_api_provider_nom.World.Keeps.{Keeps, Keeps-bind, Keeps-branch, Keeps-pure}
use cluster_api_provider_nom.World.Leads.{
  Leads, Weaker, Leads-bind, Leads-then, Leads-on_ok, Leads-on_no_error, Leads-pure,
  Leads-of_Ensures, Ensures-of_Leads, leads_rules,
}
use cluster_api_provider_nom.World.Ensures.{
  Ensures-of_Keeps, Keeps-of_Ensures, Ensures-bind, Ensures-pure, Ensures-weaken,
}
use cluster_api_provider_nom.Api.NomadMachine.{NomadMachine, Deployed, MachineStatus}
use cluster_api_provider_nom.Consul.Client.{Client}
use cluster_api_provider_nom.Dns
use cluster_api_provider_nom.Dns.{DnsService, service_of}
use cluster_api_provider_nom.Scope.MachineScope.{MachineScope, close_machine_scope}
use cluster_api_provider_nom.Machine.Service.{Service, new_service}
use cluster_api_provider_nom.Controllers.DnsAttachment.{detach, attach, reconcile_dns_attachment}
use cluster_api_provider_nom.Controllers.MachineDelete.{finish_delete, reconcile_delete}
use cluster_api_provider_nom.Controllers.MachineNormal.{
  resolve_user_data, deploy, dispatch_status, finish_node, settle_machine, follow_deployment,
  deploy_and_follow, reconcile_normal,
}
use cluster_api_provider_nom.Controllers.MachineReconcile.{reconcile_machine, run_machine_scope}
use cluster_api_provider_nom.Footprint.{Frame, frame_rules, frame-call, frame-narrow}
use cluster_api_provider_nom.Footprint.Machine
use cluster_api_provider_nom.Footprint.Machine.{QuietCall, MachineCall, Phases}

module _ (K : Kit) (W : World) {P : Sys W.State → Type 0} (s : MachineScope)
    (f : Frame (QuietCall s) P) where
  dns_service-Keeps :
      {B : Type 0} (k : DnsService → M W.State B)
      → ((c : Client) → Keeps P (k (record { scope = s; consul_client = c })))
      → Keeps P (Dns.new_service W s >>= k)
  unfolding Dns.new_service
  dns_service-Keeps k all = Keeps-of_Ensures _ (
      Ensures-bind (λ svc sys. P sys × (svc.scope ≡ s)) _ _
        (Ensures-bind (λ _. P) _ _ (Ensures-of_Keeps _ (Machine.new_consul_client-Keeps K W s f))
          (λ client. Ensures-pure _ (λ sys h. (h, refl))))
        (λ svc. record {
          at = λ sys h.
              (Ensures-of_Keeps _ (
                  subst (λ t. Keeps P (k (record { scope = t; consul_client = svc.consul_client })))
                    (sym h.1) (all svc.consul_client))).at
                sys h.0;
        }))

  detach-Keeps : (c : Client) → Keeps P (detach K W s (record { scope = s; consul_client = c }))
  unfolding detach Dns.deregister_service
  detach-Keeps c = search (frame_rules, f, tt, Machine.deregister-Keeps) depth 12

  attach-Keeps : (c : Client) → Keeps P (attach K W s (record { scope = s; consul_client = c }))
  unfolding attach Dns.register_service
  attach-Keeps c = search (frame_rules, f, tt, Machine.register-Keeps) depth 12

  attachment-Keeps : Keeps P (reconcile_dns_attachment K W s)
  unfolding reconcile_dns_attachment
  attachment-Keeps =
      Keeps-branch _ _ _
        (λ _. dns_service-Keeps _ (λ c. search (frame_rules, detach-Keeps, attach-Keeps) depth 10))
        (λ _. Keeps-pure _)

  finish_node-Keeps : Keeps P (finish_node K W s)
  unfolding finish_node
  finish_node-Keeps =
      Keeps-bind _ _ (Machine.online-Keeps K W s f s.cluster_scope.cluster)
        (λ answer. search (frame_rules, f, tt, Machine.set_node_provider_id-Keeps) depth 12)

  settle_machine-Keeps : (d : Deployed) → Keeps P (settle_machine K W s d)
  unfolding settle_machine
  settle_machine-Keeps d = search (frame_rules, f, attachment-Keeps, finish_node-Keeps) depth 12

  dispatch_status-Keeps : (status : MachineStatus) → Keeps P (dispatch_status K W status)
  unfolding dispatch_status
  dispatch_status-Keeps status = search (frame_rules, f) depth 12

  follow_deployment-Keeps : (d : Option Deployed) → Keeps P (follow_deployment K W s d)
  unfolding follow_deployment
  follow_deployment-Keeps d =
      search (frame_rules, f, dispatch_status-Keeps, settle_machine-Keeps) depth 12

  resolve_user_data-Keeps : Keeps P (resolve_user_data K W s)
  unfolding resolve_user_data
  resolve_user_data-Keeps =
      Keeps-bind _ _ (Machine.bootstrap-Keeps K W s f)
        (λ text. search (frame_rules, f, tt) depth 12)

  finish_delete-Keeps : Keeps P (finish_delete K W s)
  unfolding finish_delete
  finish_delete-Keeps = search (frame_rules, f) depth 10

module _ (K : Kit) (W : World) {P Q : Sys W.State → Type 0} (s : MachineScope)
    (ph : Phases s P Q) where
  -- A service that was just made for the scope `s`.
  service-Leads :
      {B : Type 0} (k : Service → M W.State B)
      → ((c : Option NomadConfig) → Leads P Q (k (record { scope = s; nomad_client = c })))
      → Leads P Q (new_service W s >>= k)
  unfolding new_service
  service-Leads k all = Leads-of_Ensures _ (
      Ensures-bind (λ svc sys. P sys × (svc.scope ≡ s)) _ _
        (Ensures-weaken {P = P} _ (λ sys h. h) (λ svc sys h. h) ph.no_job.at
          (Ensures-bind (λ _. P) _ _
            (Ensures-of_Keeps _ (Machine.new_nomad_client-Keeps K W s ph.before))
            (λ client. Ensures-pure _ (λ sys h. (h, refl)))))
        (λ svc. record {
          at = λ sys h.
              (Ensures-of_Leads _ (
                  subst (λ t. Leads P Q (k (record { scope = t; nomad_client = svc.nomad_client })))
                    (sym h.1) (all svc.nomad_client))).at
                sys h.0;
        }))

  deploy-Leads :
      (fuel : ℕ) (c : Option NomadConfig)
      → Leads P Q (deploy K W fuel s (record { scope = s; nomad_client = c }))
  unfolding deploy
  deploy-Leads fuel c = Leads-bind ph.no_job _ _ (resolve_user_data-Keeps K W s ph.before) (λ read.
      Leads-on_ok read _ _ (λ e. Leads-pure ph.no_job _)
        (λ text.
          Leads-then _ _ (Machine.deploy_machine-Leads K W s ph fuel c text)
            (λ deployed. search frame_rules)))

  rest-Keeps : (d : Option Deployed) → Keeps Q (follow_deployment K W s d)
  rest-Keeps d = follow_deployment-Keeps K W s ph.after d

  after : Frame (QuietCall s) Q
  after = ph.after

  deploy_and_follow-Leads : (fuel : ℕ) → Leads P Q (deploy_and_follow K W fuel s)
  unfolding deploy_and_follow
  deploy_and_follow-Leads fuel = service-Leads _ (λ c.
      Leads-then _ _ (deploy-Leads fuel c)
        (λ deployed. search (frame_rules, after, rest-Keeps) depth 8))

  before : Frame (QuietCall s) P
  before = ph.before

  no_job : Weaker P Q
  no_job = ph.no_job

  normal-Leads : (fuel : ℕ) → Leads P Q (reconcile_normal K W fuel s)
  unfolding reconcile_normal
  normal-Leads fuel =
      search (leads_rules, frame_rules, no_job, before, deploy_and_follow-Leads) depth 12

  finish_delete-after : Keeps Q (finish_delete K W s)
  finish_delete-after = finish_delete-Keeps K W s ph.after

  delete-Leads : Leads P Q (reconcile_delete K W s)
  unfolding reconcile_delete
  delete-Leads = service-Leads _ (λ c.
      Leads-bind ph.no_job _ _ (attachment-Keeps K W s ph.before) (λ undetached.
        Leads-on_no_error undetached _ _ (λ e. Leads-pure ph.no_job _)
          (Leads-then _ _ (Machine.release_machine-Leads K W s ph c)
            (λ unreleased. search (frame_rules, finish_delete-after)))))

  pub reconcile_machine-Leads : (fuel : ℕ) → Leads P Q (reconcile_machine K W fuel s)
  unfolding reconcile_machine
  reconcile_machine-Leads fuel =
      search (leads_rules, frame_rules, no_job, normal-Leads, delete-Leads) depth 8

module _ (K : Kit) (W : World) {P : Sys W.State → Type 0} (s : MachineScope)
    (f : Frame (MachineCall s) P) where
  body-Keeps : (fuel : ℕ) → Keeps P (reconcile_machine K W fuel s)
  body-Keeps fuel = record {
    at =
        (reconcile_machine-Leads K W s
          (record {
            before = frame-narrow (λ c own. inl own) f;
            after = frame-narrow (λ c own. inl own) f;
            on_job = λ t w c own h. f.on_call t w c (inr (inl own)) h;
            no_job = record { at = λ t h. h };
          })
          fuel).at;
  }

  patch-Keeps :
      {A : Type 0} (m : NomadMachine) (op : W.State → A × W.State)
      → Keeps P (call (patch_nomad_machine m) op)
  patch-Keeps m op = frame-call f (patch_nomad_machine m) op (inr (inr (m, refl)))

  close-Keeps : Keeps P (close_machine_scope K W s)
  unfolding close_machine_scope
  close-Keeps = search (frame_rules, f, patch-Keeps)

  pub run_machine_scope-Keeps : (fuel : ℕ) → Keeps P (run_machine_scope K W fuel s)
  unfolding run_machine_scope
  run_machine_scope-Keeps fuel = search (frame_rules, body-Keeps, close-Keeps) depth 8
