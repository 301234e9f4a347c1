-- ===== src/Controllers/DnsAttachment/Mirror.antt =====
-- The flag DNSAttached of a control plane, and Consul's table of services.
use cluster_api_provider_nom.Base.{
  String, Bool, true, false, not, Option, none, some, List, ◌≡◌, ◌⊎◌, ◌∙◌, sym, inl, inr, contains,
}
use cluster_api_provider_nom.World.Error.{Error, ok}
use cluster_api_provider_nom.World.Kit.{Kit, IsLawful}
use cluster_api_provider_nom.World.Wire.{Response, Service, service, null}
use cluster_api_provider_nom.World.Remote.{World}
use cluster_api_provider_nom.World.Monad.{Outcome, returned, panicked, unfinished, Sys}
use cluster_api_provider_nom.World.Ensures.{Ends}
use cluster_api_provider_nom.Api.NomadMachine.{NomadMachine}
use cluster_api_provider_nom.Scope.MachineScope.{MachineScope}
use cluster_api_provider_nom.Consul.Client.{Client, read_response}
use cluster_api_provider_nom.Consul.Service.{register_path, deregister_path}
use cluster_api_provider_nom.Consul.Service.Sent.{put_request, Accepted}
use cluster_api_provider_nom.Dns.{service_of}
use cluster_api_provider_nom.Controllers.DnsAttachment.{leaves_dns, reconcile_dns_attachment}
use cluster_api_provider_nom.Controllers.DnsAttachment.Outcomes
use cluster_api_provider_nom.Controllers.DnsAttachment.Outcomes.{
  IsSettled, request, reconcile_dns_attachment-Ends,
}

-- The ids of the services that Consul has: a registration that succeeds adds the service, and a deregistration
-- that succeeds removes it.
pub record ServiceTable (W : World) : Type 0 where
  pub services : W.State → List String
  pub registered :
      (c : Client) (svc : Service) (res : Response) (w : W.State)
      → (W.send_http (put_request c register_path (service svc)) w).0 ≡ ok res
      → read_response res none ≡ none
      → contains (services (W.send_http (put_request c register_path (service svc)) w).1) svc.id
        ≡ true
  pub deregistered :
      (c : Client) (service_id : String) (res : Response) (w : W.State)
      → (W.send_http (put_request c (deregister_path service_id) null) w).0 ≡ ok res
      → read_response res none ≡ none
      → contains
          (services (W.send_http (put_request c (deregister_path service_id) null) w).1)
          service_id
        ≡ false

module _ (K : Kit) (L : IsLawful K) (W : World) (T : ServiceTable W) (s : MachineScope)
    (m₀ : NomadMachine) where
  -- The flag says whether Consul has the service of the machine.
  abbrev pub Mirrors : Sys W.State → Type 0
  Mirrors t =
      t.nomad_machine.status.dns_attached ≡ contains (T.services t.world) s.machine.meta.name

  table :
      (leaves : Bool) (c : Client) (t : Sys W.State)
      → Accepted W (request K L W s m₀ leaves c) t.calls t.world
      → contains (T.services t.world) s.machine.meta.name ≡ not leaves
  unfolding service_of
  table true c t a =
      rw a.after (T.deregistered c s.machine.meta.name a.response a.before a.answered a.success)
  table false c t a =
      rw a.after (T.registered c (service_of s) a.response a.before a.answered a.success)

  Ends-Mirrors :
      (leaves : Bool) (r : Outcome (Option Error)) (t : Sys W.State)
      → Ends (Outcomes.Outcome K L W s m₀ leaves) (λ u. u.nomad_machine ≡ m₀) r t
      → Ends (λ failure u. ((e : Error) × (failure ≡ some e)) ⊎ Mirrors u) (λ _. Unit) r t
  Ends-Mirrors leaves (returned failure) t (inl bad) = inl (bad.0, bad.1)
  Ends-Mirrors leaves (returned failure) t (inr good) =
      inr (good.1.flag ∙ sym (table leaves good.1.client t good.1.accepted))
  Ends-Mirrors leaves (panicked p) t h = tt
  Ends-Mirrors leaves unfinished t h = tt

-- Where a registration that succeeds adds a service to Consul's table and a deregistration that succeeds
-- removes it: after a run of reconcileDNSAttachment on a control plane that returns no error, the flag
-- DNSAttached of the object says whether Consul has the service of the machine.
pub reconcile_dns_attachment-Mirrors :
    (K : Kit) (L : IsLawful K) (W : World) (T : ServiceTable W) (s : MachineScope)
    (sys : Sys W.State)
    → K.is_control_plane_machine s.machine ≡ true
    → let m₀ = sys.nomad_machine in
      let (r, t) = reconcile_dns_attachment K W s sys in
      Ends
        (λ failure u. ((e : Error) × (failure ≡ some e)) ⊎ Mirrors K L W T s m₀ u)
        (λ _. Unit)
        r
        t
reconcile_dns_attachment-Mirrors K L W T s sys control =
    Ends-Mirrors K L W T s sys.nomad_machine (leaves_dns K W sys.nomad_machine) _ _
      (reconcile_dns_attachment-Ends K L W s sys control)
