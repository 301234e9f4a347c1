-- ===== src/Controllers/DnsAttachment/Outcomes.antt =====
-- How the attachment of a control plane ends.
use cluster_api_provider_nom.Base.{
  Bool, true, false, not, Option, none, some, ◌≡◌, ◌⊎◌, ◌∙◌, sym, inl, inr, refl, ap, if◌then◌else◌,
}
use cluster_api_provider_nom.World.Error.{Error}
use cluster_api_provider_nom.World.Kit.{Kit, IsLawful}
use cluster_api_provider_nom.World.Wire.{Request, service, null}
use cluster_api_provider_nom.World.Remote.{World}
use cluster_api_provider_nom.World.Monad.{Sys}
use cluster_api_provider_nom.World.Keeps.{IsStable}
use cluster_api_provider_nom.World.Ensures.{
  Ends, Ensures, Ensures-of_Keeps, Ensures-bind, Ensures-gets, Ensures-branch, Ensures-call,
  Ensures-modify, Ensures-weaken, Ensures-pure, Ensures-on_no_error,
}
use cluster_api_provider_nom.Api.Meta.{warning_severity}
use cluster_api_provider_nom.Api.Conditions.{dns_attached_condition, dns_attach_pending}
use cluster_api_provider_nom.Api.NomadMachine.{NomadMachine}
use cluster_api_provider_nom.Scope.MachineScope.{MachineScope}
use cluster_api_provider_nom.Consul.Client.{Client}
use cluster_api_provider_nom.Consul.Service.{register_path, deregister_path}
use cluster_api_provider_nom.Consul.Service.Sent.{
  put_request, Accepted, Sent, register_service-Sent, deregister_service-Sent,
}
use cluster_api_provider_nom.Dns
use cluster_api_provider_nom.Dns.{DnsService, service_of}
use cluster_api_provider_nom.Frames.{new_consul_client-Keeps}
use cluster_api_provider_nom.Controllers.DnsAttachment.{
  detach, attach, leaves_dns, reconcile_dns_attachment, set_dns_attached,
}

module _ (K : Kit) (L : IsLawful K) (W : World) (s : MachineScope) (m₀ : NomadMachine) where
  abbrev P : Sys W.State → Type 0
  P sys = sys.nomad_machine ≡ m₀

  P-stable : IsStable P
  P-stable = record { calls_only = λ sys w calls h. h }

  -- What Consul is asked for: the machine's service goes, or it is registered.
  abbrev pub request : Bool → Client → Request
  request leaves c =
      if leaves
      then put_request c (deregister_path s.machine.meta.name) null
      else put_request c register_path (service (service_of s))

  -- The object shows the answer of Consul, in the flag and in the condition DNSAttached.
  pub record IsSettled (leaves : Bool) (sys : Sys W.State) : Type 0 where
    pub flag : sys.nomad_machine.status.dns_attached ≡ not leaves
    pub condition : K.holds dns_attached_condition sys.nomad_machine.status.conditions ≡ not leaves
    pub client : Client
    pub accepted : Accepted W (request leaves client) sys.calls sys.world

  -- An error and the object as it was, or no error and an object that is settled.
  abbrev pub Outcome : Bool → Option Error → Sys W.State → Type 0
  Outcome leaves failure sys =
      ((e : Error) × (failure ≡ some e) × P sys) ⊎ ((failure ≡ none) × IsSettled leaves sys)

  abbrev Ready : DnsService → Sys W.State → Type 0
  Ready svc sys = P sys × (svc.scope ≡ s)

  Ready-stable : (svc : DnsService) → IsStable (Ready svc)
  Ready-stable svc = record { calls_only = λ sys w calls h. h }

  service-Ensures : Ensures P (Dns.new_service W s) Ready P
  unfolding Dns.new_service
  service-Ensures =
      Ensures-bind (λ _. P) _ _ (Ensures-of_Keeps _ (new_consul_client-Keeps K W P-stable))
        (λ client. Ensures-pure _ (λ sys h. (h, refl)))

  -- The request of a service for the scope `s`, of which no error came back.
  accepted :
      (leaves : Bool) (svc : DnsService) (failure : Option Error) (sys : Sys W.State)
      → failure ≡ none
      → Sent W
          (Ready svc)
          (if leaves
            then put_request svc.consul_client (deregister_path svc.scope.machine.meta.name) null
            else put_request svc.consul_client register_path (service (service_of svc.scope)))
          failure
          sys
      → (c : Client) × Accepted W (request leaves c) sys.calls sys.world
  accepted leaves svc failure sys quiet h = elim h.1 [
    | inl bad ↦ cc (bad.1, quiet)
    | inr good ↦ (svc.consul_client, rw h.0.1 at good.1)
  ]

  -- Between the two changes of the object.
  abbrev Half : (Sys W.State → Type 0) → Bool → Sys W.State → Type 0
  Half Q leaves sys = Q sys × ((c : Client) × Accepted W (request leaves c) sys.calls sys.world)

  detach-Ensures : (svc : DnsService) → Ensures (Ready svc) (detach K W s svc) (Outcome true) P
  unfolding detach Dns.deregister_service set_dns_attached
  detach-Ensures svc =
      Ensures-bind _ _ _
        (Ensures-weaken _ (λ sys h. h) (λ a sys h. h) (λ sys h. h.0)
          (deregister_service-Sent W (Ready-stable svc) svc.consul_client
            svc.scope.machine.meta.name))
        (λ removed.
          Ensures-on_no_error _ _ _
            (λ e _.
              Ensures-bind (λ _. P) _ _ (Ensures-call _ _ (λ sys h. h.0.0))
                (λ _. Ensures-pure _ (λ sys h. inl (_, refl, h))))
            (λ quiet.
              Ensures-bind
                (λ _.
                  Half
                    (λ sys.
                      K.holds dns_attached_condition sys.nomad_machine.status.conditions ≡ false)
                    true)
                _ _
                (Ensures-modify _ (λ sys h. (
                  L.holds-mark_false dns_attached_condition dns_attach_pending warning_severity ""
                      sys.nomad_machine.status.conditions,
                  accepted true svc removed sys quiet h,
                )))
                (λ _.
                  Ensures-bind (λ _. IsSettled true) _ _
                    (Ensures-modify _ (λ sys h. record {
                      flag = refl;
                      condition = h.0;
                      client = h.1.0;
                      accepted = h.1.1;
                    }))
                    (λ _. Ensures-pure _ (λ sys h. inr (refl, h))))))

  attach-Ensures : (svc : DnsService) → Ensures (Ready svc) (attach K W s svc) (Outcome false) P
  unfolding attach Dns.register_service set_dns_attached
  attach-Ensures svc =
      Ensures-bind _ _ _
        (Ensures-weaken _ (λ sys h. h) (λ a sys h. h) (λ sys h. h.0)
          (register_service-Sent W (Ready-stable svc) svc.consul_client (service_of svc.scope)))
        (λ added.
          Ensures-on_no_error _ _ _
            (λ e _.
              Ensures-bind (λ _. P) _ _ (Ensures-call _ _ (λ sys h. h.0.0))
                (λ _. Ensures-pure _ (λ sys h. inl (_, refl, h))))
            (λ quiet.
              Ensures-bind (λ _. Half (λ sys. sys.nomad_machine.status.dns_attached ≡ true) false) _
                _ (Ensures-modify _ (λ sys h. (refl, accepted false svc added sys quiet h)))
                (λ _.
                  Ensures-bind (λ _. IsSettled false) _ _
                    (Ensures-modify _ (λ sys h. record {
                      flag = h.0;
                      condition =
                          L.holds-mark_true dns_attached_condition
                            sys.nomad_machine.status.conditions;
                      client = h.1.0;
                      accepted = h.1.1;
                    }))
                    (λ _. Ensures-pure _ (λ sys h. inr (refl, h))))))

  attachment-Ensures :
      K.is_control_plane_machine s.machine ≡ true
      → Ensures P (reconcile_dns_attachment K W s) (Outcome (leaves_dns K W m₀)) P
  unfolding reconcile_dns_attachment
  attachment-Ensures control =
      Ensures-branch _ _ _
        (λ _. Ensures-bind _ _ _ service-Ensures (λ svc.
          Ensures-bind (λ m sys. Ready svc sys × (m ≡ m₀)) _ _ (Ensures-gets _ (λ sys h. (h, h.0)))
            (λ m.
              Ensures-branch _ _ _
                (λ leaves. record {
                  at = λ sys h.
                      rw (sym (ap (leaves_dns K W) h.1) ∙ leaves) ((detach-Ensures svc).at sys h.0);
                })
                (λ stays. record {
                  at = λ sys h.
                      rw (sym (ap (leaves_dns K W) h.1) ∙ stays) ((attach-Ensures svc).at sys h.0);
                }))))
        (λ worker. record { at = λ sys h. cc (control, worker) })

-- A run of reconcileDNSAttachment on a control plane that returns an error leaves the object as
-- it was. One that returns no error has, as its last call, a request that Consul accepted: to
-- deregister the machine's service if the machine is being deleted or its deployment is not in
-- a running state, and to register it otherwise. The flag DNSAttached and the condition
-- DNSAttached of the object then say which. A run that panics leaves the object as it was.
pub reconcile_dns_attachment-Ends :
    (K : Kit) (L : IsLawful K) (W : World) (s : MachineScope) (sys : Sys W.State)
    → K.is_control_plane_machine s.machine ≡ true
    → let m₀ = sys.nomad_machine in
      let (r, sys') = reconcile_dns_attachment K W s sys in
      Ends (Outcome K L W s m₀ (leaves_dns K W m₀)) (λ t. t.nomad_machine ≡ m₀) r sys'
reconcile_dns_attachment-Ends K L W s sys control =
    (attachment-Ensures K L W s sys.nomad_machine control).at sys refl
