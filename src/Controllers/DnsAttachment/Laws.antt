-- ===== src/Controllers/DnsAttachment/Laws.antt =====
-- What attaching and detaching a control plane changes in the NomadMachine.
use cluster_api_provider_nom.Base.{Bool}
use cluster_api_provider_nom.World.Kit.{Kit}
use cluster_api_provider_nom.World.Remote.{World}
use cluster_api_provider_nom.World.Monad.{Sys}
use cluster_api_provider_nom.World.Keeps.{Keeps, IsStable, stable_rules}
use cluster_api_provider_nom.Scope.MachineScope.{MachineScope}
use cluster_api_provider_nom.Dns.{DnsService}
use cluster_api_provider_nom.Controllers.DnsAttachment.{
  detach, attach, reconcile_dns_attachment, set_dns_attached,
}
use cluster_api_provider_nom.Api.Meta.{warning_severity}
use cluster_api_provider_nom.Api.Conditions.{dns_attached_condition, dns_attach_pending}
use cluster_api_provider_nom.Scope.MachineScope.{mark_false, mark_true}
use cluster_api_provider_nom.Frames.{
  new_dns_service-Keeps, dns_register-Keeps, dns_deregister-Keeps,
}

-- A property of the NomadMachine that neither outcome of the attachment touches.
pub record IgnoresDns (K : Kit) {S : Type 0} (P : Sys S → Type 0) : Type 0 where
  pub stable : IsStable P
  pub flag :
      (b : Bool) (s : Sys S)
      → P s
      → P (record s { nomad_machine = set_dns_attached b s.nomad_machine })
  pub attached :
      (s : Sys S)
      → P s
      → P (record s { nomad_machine = mark_true K dns_attached_condition s.nomad_machine })
  pub pending :
      (s : Sys S)
      → P s
      → P (record s {
        nomad_machine =
            mark_false K dns_attached_condition dns_attach_pending warning_severity ""
              s.nomad_machine;
      })

module _ (K : Kit) (W : World) {P : Sys W.State → Type 0} (i : IgnoresDns K P) where
  detach-Keeps : (s : MachineScope) (svc : DnsService) → Keeps P (detach K W s svc)
  unfolding detach
  detach-Keeps s svc =
      search (stable_rules, i.stable, i.flag, i.pending, dns_deregister-Keeps) depth 10

  attach-Keeps : (s : MachineScope) (svc : DnsService) → Keeps P (attach K W s svc)
  unfolding attach
  attach-Keeps s svc =
      search (stable_rules, i.stable, i.flag, i.attached, dns_register-Keeps) depth 10

  pub reconcile_dns_attachment-Keeps : (s : MachineScope) → Keeps P (reconcile_dns_attachment K W s)
  unfolding reconcile_dns_attachment
  reconcile_dns_attachment-Keeps s =
      search (stable_rules, i.stable, detach-Keeps, attach-Keeps, new_dns_service-Keeps) depth 10
