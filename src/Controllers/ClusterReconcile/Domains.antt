-- ===== src/Controllers/ClusterReconcile/Domains.antt =====
-- The failure domains that a NomadCluster shows.
use cluster_api_provider_nom.Base.{
  String, true, none, some, List, [], ◌∷◌, ◌≡◌, refl, arith, contains, lookup, insert,
  if◌then◌else◌,
}
use cluster_api_provider_nom.Base.Text.{◌==◌, eq_iff}
use cluster_api_provider_nom.Api.NomadCluster.{NomadCluster, FailureDomains, FailureDomainSpec}
use cluster_api_provider_nom.Controllers.ClusterReconcile.{
  collect_failure_domains, set_failure_domains,
}

abbrev pub control_plane_domain : FailureDomainSpec
control_plane_domain = record { control_plane = true }

lookup-insert :
    (zone az : String) (spec : FailureDomainSpec) (domains : FailureDomains)
    → lookup az (insert zone spec domains) ≡ (if zone == az then some spec else lookup az domains)
lookup-insert zone az spec [] = refl
lookup-insert zone az spec (entry ∷ rest) =
    ground (
      arith,
      lookup-insert zone az spec rest,
      eq_iff entry.0 zone,
      eq_iff entry.0 az,
      eq_iff zone az,
    )

lookup-collect :
    (azs : List String) (az : String) (domains : FailureDomains)
    → lookup az (collect_failure_domains azs domains)
      ≡ (if contains azs az then some control_plane_domain else lookup az domains)
unfolding collect_failure_domains
lookup-collect [] az domains = refl
lookup-collect (z ∷ azs) az domains =
    rw (lookup-collect azs az (insert z control_plane_domain domains))
      (ground (arith, lookup-insert z az control_plane_domain domains, eq_iff az z, eq_iff z az))

-- The domains shown are exactly those of the spec, each fit for control planes.
pub lookup-set_failure_domains :
    (c : NomadCluster) (az : String)
    → lookup az (set_failure_domains c).status.failure_domains
      ≡ (if contains c.spec.failure_domains az then some control_plane_domain else none)
unfolding set_failure_domains
lookup-set_failure_domains c az = lookup-collect c.spec.failure_domains az []
