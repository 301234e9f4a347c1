-- ===== src/DeepCopy/NomadClusterSpec.antt =====
-- The deep copy of NomadClusterSpec, zz_generated.deepcopy.go, and that it is one.
use cluster_api_provider_nom.Base.{◌≡◌, Option}
use cluster_api_provider_nom.DeepCopy.Structs
use cluster_api_provider_nom.DeepCopy.Structs.{Address, Layout, Values, stored, value}
use cluster_api_provider_nom.DeepCopy.Memory.{Mem, pure, ◌>>=◌, new_copy}
use cluster_api_provider_nom.DeepCopy.Kinds
use cluster_api_provider_nom.DeepCopy.Rules.{Region, Copier, Grows-refl}
use cluster_api_provider_nom.DeepCopy.Rules.Parts.{Copies-field, Copies-pure}
use cluster_api_provider_nom.DeepCopy.Rules.Elements.{Equal, Copier-plain}
use cluster_api_provider_nom.DeepCopy.Rules.New.{Refers, Copier-new}

module _ {L : Layout} where
  unfoldable pub deep_copy_into :
      Structs.NomadClusterSpec (stored L) → Mem L (Structs.NomadClusterSpec (stored L))
  deep_copy_into original = do
    failure_domains ← new_copy Kinds.texts pure original.failure_domains
    pure (record original { failure_domains = failure_domains })

  unfoldable pub deep_copy : Option Address → Mem L (Option Address)
  deep_copy original = new_copy Kinds.cluster_spec deep_copy_into original

-- What a stored NomadClusterSpec shows.
pub record Shows {L : Layout} {V : Values} (H : Region L)
    (original : Structs.NomadClusterSpec (stored L)) (v : Structs.NomadClusterSpec (value V))
    : Type 0 where
  pub failure_domains : Refers Kinds.texts Equal H original.failure_domains v.failure_domains
  pub control_plane_endpoint : original.control_plane_endpoint ≡ v.control_plane_endpoint

module _ {L : Layout} {V : Values} where
  pub Copier-into : Copier {L = L} (Shows {V = V}) deep_copy_into
  unfolding deep_copy_into
  Copier-into = record {
    moves = λ H H' original v w h. record {
      failure_domains = (Copier-new Copier-plain Kinds.texts).moves H H' _ _ w h.failure_domains;
      control_plane_endpoint = h.control_plane_endpoint;
    };
    copies = λ n H original v σ h s.
        Copies-field (Copier-new Copier-plain Kinds.texts) h.failure_domains s
          λ failure_domains σ1 g1 s1 r1. Copies-pure (record {
            failure_domains = r1.later (Grows-refl σ1);
            control_plane_endpoint = h.control_plane_endpoint;
          });
  }

  pub Copier-copy : Copier {L = L} (Refers Kinds.cluster_spec (Shows {V = V})) deep_copy
  unfolding deep_copy
  Copier-copy = Copier-new Copier-into Kinds.cluster_spec
