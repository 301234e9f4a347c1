-- ===== src/Api/NomadCluster.antt =====
-- NomadCluster: api/v1alpha3/nomadcluster_types.go.
use cluster_api_provider_nom.Base.{ℕ, String, Bool, ◌&&◌, List, ◌==◌}
use cluster_api_provider_nom.Base.Text.{◌==◌ as same_text}
use cluster_api_provider_nom.Api.Meta.{ObjectMeta, ConditionList}

abbrev pub cluster_finalizer : String
cluster_finalizer = "nomadcluster.infrastructure.cluster.x-k8s.io"

pub record ApiEndpoint : Type 0 where
  pub host : String
  pub port : ℕ

-- `APIEndpoint.IsZero`.
unfoldable pub is_zero_endpoint : ApiEndpoint → Bool
is_zero_endpoint e = same_text e.host "" && e.port == 0

-- clusterv1.FailureDomainSpec: the one field that the provider writes.
pub record FailureDomainSpec : Type 0 where
  pub control_plane : Bool

-- clusterv1.FailureDomains, a map from the zone's name.
abbrev pub FailureDomains : Type 0
FailureDomains = List (String × FailureDomainSpec)

pub record NomadClusterSpec : Type 0 where
  pub control_plane_endpoint : ApiEndpoint
  pub failure_domains : List String

pub record NomadClusterStatus : Type 0 where
  pub ready : Bool
  pub dns_name : String
  pub failure_domains : FailureDomains
  pub conditions : ConditionList

pub record NomadCluster : Type 0 where
  pub meta : ObjectMeta
  pub spec : NomadClusterSpec
  pub status : NomadClusterStatus

abbrev pub get_conditions : NomadCluster → ConditionList
get_conditions c = c.status.conditions

abbrev pub set_conditions : NomadCluster → ConditionList → NomadCluster
set_conditions c cs = record c { status = record (c.status) { conditions = cs } }
