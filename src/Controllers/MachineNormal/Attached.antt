-- ===== src/Controllers/MachineNormal/Attached.antt =====
-- The DNS attachment in a run that deletes nothing.
use cluster_api_provider_nom.Base.{
  ℕ, true, false, Option, inl, inr, Option-cases, ◌≡◌, ◌∙◌, sym, ap, refl, arith,
}
use cluster_api_provider_nom.World.Kit.{Kit, IsLawful}
use cluster_api_provider_nom.World.Remote.{World}
use cluster_api_provider_nom.World.Monad.{Sys}
use cluster_api_provider_nom.World.Keeps.{Keeps, IsStable, stable_rules}
use cluster_api_provider_nom.World.Ensures.{
  Ensures, Ensures-of_Keeps, Keeps-of_Ensures, Ensures-bind, Ensures-gets, Ensures-branch,
  Ensures-modify, Ensures-weaken, Ensures-on_no_error, Ensures-pure,
}
use cluster_api_provider_nom.Api.NomadMachine.{NomadMachine, Deployed, MachineStatus}
use cluster_api_provider_nom.Scope.States.Laws.{
  has-machine_running_states, has-machine_known_states,
}
use cluster_api_provider_nom.Scope.MachineScope.{
  MachineScope, machine_is_running, machine_is_in_known_state, set_addresses,
}
use cluster_api_provider_nom.Dns.{DnsService}
use cluster_api_provider_nom.Frames.{
  finish_node-Keeps, deploy-Keeps, new_service-Keeps, new_dns_service-Keeps, dns_register-Keeps,
}
use cluster_api_provider_nom.Controllers.DnsAttachment.{
  attach, leaves_dns, reconcile_dns_attachment, set_dns_attached,
}
use cluster_api_provider_nom.Controllers.MachineNormal.{
  adopt, dispatch_status, settle_machine, follow_deployment, deploy_and_follow, reconcile_normal,
}

-- A machine that is not being deleted and whose service is registered.
abbrev pub IsAttached : Kit → NomadMachine → Type 0
IsAttached K m = (K.is_zero m.meta.deletion_timestamp ≡ true) × (m.status.dns_attached ≡ true)

module _ (K : Kit) (L : IsLawful K) (W : World) where
  -- A state that is known is a running one.
  known_runs :
      (m : NomadMachine) → machine_is_in_known_state K m ≡ true → machine_is_running K m ≡ true
  unfolding machine_is_in_known_state machine_is_running
  known_runs m h = elim (Option-cases m.status.deployment_status) [
    | inl e ↦ cc (rw e at h)
    | inr (v, e) ↦
        rw e (has-machine_running_states K L v ∙ sym (has-machine_known_states K L v) ∙ (rw e at h))
  ]

  abbrev P : Sys W.State → Type 0
  P sys = IsAttached K sys.nomad_machine

  -- The same, of a machine that runs.
  abbrev Q : Sys W.State → Type 0
  Q sys = P sys × (machine_is_running K sys.nomad_machine ≡ true)

  P-stable : IsStable P
  P-stable = record { calls_only = λ sys w calls h. h }

  Q-stable : IsStable Q
  Q-stable = record { calls_only = λ sys w calls h. h }

  stays :
      (m : NomadMachine) → IsAttached K m → machine_is_running K m ≡ true → leaves_dns K W m ≡ false
  unfolding leaves_dns
  stays m h r = ground arith

  set_dns_attached-P :
      (sys : Sys W.State)
      → P sys
      → P (record sys { nomad_machine = set_dns_attached true sys.nomad_machine })
  unfolding set_dns_attached
  set_dns_attached-P sys h = ground arith

  attach-Keeps : (s : MachineScope) (svc : DnsService) → Keeps P (attach K W s svc)
  unfolding attach
  attach-Keeps s svc =
      search (stable_rules, P-stable, set_dns_attached-P, dns_register-Keeps) depth 10

  attachment-Ensures : (s : MachineScope) → Ensures Q (reconcile_dns_attachment K W s) (λ _. P) P
  unfolding reconcile_dns_attachment
  attachment-Ensures s =
      Ensures-branch _ _ _
        (λ _.
          Ensures-bind (λ _. Q) _ _
            (Ensures-weaken _ (λ sys h. h) (λ svc sys h. h) (λ sys h. h.0)
              (Ensures-of_Keeps _ (new_dns_service-Keeps K W Q-stable s)))
            (λ svc.
              Ensures-bind (λ m sys. Q sys × (m ≡ sys.nomad_machine)) _ _
                (Ensures-gets _ (λ sys h. (h, refl)))
                (λ m.
                  Ensures-branch _ _ _
                    (λ leaves. record { at = λ sys h. cc (stays sys.nomad_machine h.0.0 h.0.1) })
                    (λ _.
                      Ensures-weaken _ (λ sys h. h.0.0) (λ a sys h. h) (λ sys h. h)
                        (Ensures-of_Keeps _ (attach-Keeps s svc))))))
        (λ _. Ensures-pure _ (λ sys h. h.0))

  settle_machine-Keeps : (s : MachineScope) (d : Deployed) → Keeps P (settle_machine K W s d)
  unfolding settle_machine set_addresses machine_is_in_known_state
  settle_machine-Keeps s d =
      let finish = Ensures-of_Keeps _ (finish_node-Keeps K W P-stable s) in
      Keeps-of_Ensures _ (
        Ensures-bind (λ m sys. P sys × (m ≡ sys.nomad_machine)) _ _
          (Ensures-gets _ (λ sys h. (h, refl)))
          (λ m.
            Ensures-branch _ _ _
              (λ known.
                Ensures-bind (λ _. Q) _ _
                  (Ensures-modify _ (λ sys h.
                    (h.0, known_runs _ (rw (ap (machine_is_in_known_state K) h.1) at known))))
                  (λ _.
                    Ensures-bind (λ _. P) _ _ (attachment-Ensures s)
                      (λ unattached.
                        Ensures-on_no_error _ _ _ (λ e _. Ensures-pure _ (λ sys h. h))
                          (λ _. finish))))
              (λ _. Ensures-weaken _ (λ sys h. h.0) (λ a sys h. h) (λ sys h. h) finish)))

  dispatch_status-Keeps : (status : MachineStatus) → Keeps P (dispatch_status K W status)
  unfolding dispatch_status
  dispatch_status-Keeps status = search (stable_rules, P-stable) depth 12

  follow_deployment-Keeps :
      (s : MachineScope) (d : Option Deployed) → Keeps P (follow_deployment K W s d)
  unfolding follow_deployment adopt
  follow_deployment-Keeps s d =
      search (stable_rules, dispatch_status-Keeps, settle_machine-Keeps) depth 10

  deploy_and_follow-Keeps : (fuel : ℕ) (s : MachineScope) → Keeps P (deploy_and_follow K W fuel s)
  unfolding deploy_and_follow
  deploy_and_follow-Keeps fuel s =
      search (stable_rules, P-stable, new_service-Keeps, deploy-Keeps, follow_deployment-Keeps)
        depth 10

  reconcile_normal-Keeps : (fuel : ℕ) (s : MachineScope) → Keeps P (reconcile_normal K W fuel s)
  unfolding reconcile_normal
  reconcile_normal-Keeps fuel s = search (stable_rules, deploy_and_follow-Keeps) depth 10

  -- A run on a machine that is not being deleted never clears the flag of its DNS attachment,
  -- whatever state its deployment is in and however the run ends.
  pub reconcile_normal-IsAttached :
      (fuel : ℕ) (s : MachineScope) (sys : Sys W.State)
      → IsAttached K sys.nomad_machine
      → IsAttached K (reconcile_normal K W fuel s sys).1.nomad_machine
  reconcile_normal-IsAttached fuel s sys h = (reconcile_normal-Keeps fuel s).at sys h
