-- ===== src/Controllers/MachineDelete/Detach.antt =====
-- What the attachment to DNS does for a NomadMachine that is being deleted.
use cluster_api_provider_nom.Base.{true, false, Option, none, List, ◌≡◌, ◌⊎◌, inl, inr, refl}
use cluster_api_provider_nom.World.Error.{Error}
use cluster_api_provider_nom.World.Kit.{Kit}
use cluster_api_provider_nom.World.Wire.{Call, null}
use cluster_api_provider_nom.World.Remote.{World}
use cluster_api_provider_nom.World.Monad.{Sys}
use cluster_api_provider_nom.World.Keeps.{IsStable}
use cluster_api_provider_nom.World.Ensures.{
  Ensures, Ensures-of_Keeps, Ensures-bind, Ensures-gets, Ensures-branch, Ensures-call,
  Ensures-modify, Ensures-weaken, Ensures-pure, Ensures-on_no_error,
}
use cluster_api_provider_nom.Api.Meta.{ObjectMeta}
use cluster_api_provider_nom.Api.NomadMachine.{NomadMachine}
use cluster_api_provider_nom.Scope.MachineScope.{MachineScope}
use cluster_api_provider_nom.Consul.Client.{Client}
use cluster_api_provider_nom.Consul.Service.{deregister_path}
use cluster_api_provider_nom.Consul.Service.Sent.{
  put_request, Accepted, Sent, deregister_service-Sent,
}
use cluster_api_provider_nom.Dns
use cluster_api_provider_nom.Dns.{DnsService}
use cluster_api_provider_nom.Frames.{new_consul_client-Keeps}
use cluster_api_provider_nom.Controllers.DnsAttachment.{
  detach, leaves_dns, reconcile_dns_attachment, set_dns_attached,
}

module _ (K : Kit) (W : World) (s : MachineScope) (m₀ : ObjectMeta) where
  abbrev pub P : Sys W.State → Type 0
  P sys = sys.nomad_machine.meta ≡ m₀

  pub P-stable : IsStable P
  P-stable = record { calls_only = λ sys w calls h. h }

  -- A control plane's object shows that its service is gone; other machines have none.
  abbrev pub Detached : NomadMachine → Type 0
  Detached m = (K.is_control_plane_machine s.machine ≡ false) ⊎ (m.status.dns_attached ≡ false)

  -- For a control plane, the last call deregistered the machine's service and Consul accepted it.
  abbrev pub Deregistered : List Call → W.State → Type 0
  Deregistered calls now =
      (K.is_control_plane_machine s.machine ≡ false)
      ⊎ ((c : Client) × Accepted W (put_request c (deregister_path s.machine.meta.name) null) calls
            now)

  -- The service is gone, for the object and for Consul.
  abbrev pub Ready : Sys W.State → Type 0
  Ready sys = P sys × Detached sys.nomad_machine × Deregistered sys.calls sys.world

  -- After an attachment, which is ready if it gave no error.
  abbrev pub Quiet : Option Error → Sys W.State → Type 0
  Quiet failure sys = P sys × (failure ≡ none → Ready sys)

  abbrev Made : DnsService → Sys W.State → Type 0
  Made svc sys = P sys × (svc.scope ≡ s)

  Made-stable : (svc : DnsService) → IsStable (Made svc)
  Made-stable svc = record { calls_only = λ sys w calls h. h }

  service-Ensures : Ensures P (Dns.new_service W s) Made P
  unfolding Dns.new_service
  service-Ensures =
      Ensures-bind (λ _. P) _ _ (Ensures-of_Keeps _ (new_consul_client-Keeps K W P-stable))
        (λ client. Ensures-pure _ (λ sys h. (h, refl)))

  -- A deregistration of which no error came back.
  accepted :
      (svc : DnsService) (failure : Option Error) (sys : Sys W.State)
      → failure ≡ none
      → Sent W
          (Made svc)
          (put_request svc.consul_client (deregister_path svc.scope.machine.meta.name) null)
          failure
          sys
      → Deregistered sys.calls sys.world
  accepted svc failure sys quiet h = elim h.1 [
    | inl bad ↦ cc (bad.1, quiet)
    | inr good ↦ inr (svc.consul_client, rw h.0.1 at good.1)
  ]

  abbrev Gone : Sys W.State → Type 0
  Gone sys = P sys × Deregistered sys.calls sys.world

  detach-Ensures : (svc : DnsService) → Ensures (Made svc) (detach K W s svc) Quiet P
  unfolding detach Dns.deregister_service set_dns_attached
  detach-Ensures svc =
      Ensures-bind _ _ _
        (Ensures-weaken _ (λ sys h. h) (λ a sys h. h) (λ sys h. h.0)
          (deregister_service-Sent W (Made-stable svc) svc.consul_client
            svc.scope.machine.meta.name))
        (λ removed.
          Ensures-on_no_error _ _ _
            (λ e _.
              Ensures-bind (λ _. P) _ _ (Ensures-call _ _ (λ sys h. h.0.0))
                (λ _. Ensures-pure _ (λ sys h. (h, λ absurdity. cc))))
            (λ quiet.
              Ensures-bind (λ _. Gone) _ _
                (Ensures-modify _ (λ sys h. (h.0.0, accepted svc removed sys quiet h)))
                (λ _.
                  Ensures-bind (λ _. Ready) _ _ (Ensures-modify _ (λ sys h. (h.0, inr refl, h.1)))
                    (λ _. Ensures-pure _ (λ sys h. (h.0, λ _. h))))))

  leaves :
      K.is_zero m₀.deletion_timestamp ≡ false
      → (m : NomadMachine) → m.meta ≡ m₀
      → leaves_dns K W m ≡ true
  unfolding leaves_dns
  leaves deleted m e = rw e (rw deleted refl)

  pub attachment-Ensures :
      K.is_zero m₀.deletion_timestamp ≡ false → Ensures P (reconcile_dns_attachment K W s) Quiet P
  unfolding reconcile_dns_attachment
  attachment-Ensures deleted =
      Ensures-branch _ _ _
        (λ _. Ensures-bind _ _ _ service-Ensures (λ svc.
          Ensures-bind (λ m sys. Made svc sys × (m ≡ sys.nomad_machine)) _ _
            (Ensures-gets _ (λ sys h. (h, refl)))
            (λ m.
              Ensures-branch _ _ _
                (λ _.
                  Ensures-weaken _ (λ sys h. h.0) (λ a sys h. h) (λ sys h. h) (detach-Ensures svc))
                (λ stays. record { at = λ sys h. cc (leaves deleted sys.nomad_machine h.0.0) }))))
        (λ worker. Ensures-pure _ (λ sys h. (h, λ _. (h, inl worker, inl worker))))
