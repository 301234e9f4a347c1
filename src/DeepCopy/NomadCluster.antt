-- ===== src/DeepCopy/NomadCluster.antt =====
-- The deep copy of NomadCluster, zz_generated.deepcopy.go, and that it is one.
use cluster_api_provider_nom.Base.{◌≡◌, Option}
use cluster_api_provider_nom.DeepCopy.Structs
use cluster_api_provider_nom.DeepCopy.Structs.{Address, Layout, Values, stored, value}
use cluster_api_provider_nom.DeepCopy.Memory.{Mem, pure, ◌>>=◌, new_copy}
use cluster_api_provider_nom.DeepCopy.Kinds
use cluster_api_provider_nom.DeepCopy.Library.{Library, Shown, IsDocumented}
use cluster_api_provider_nom.DeepCopy.Object.{Object, as_object}
use cluster_api_provider_nom.DeepCopy.Rules.{Region, Copier, Grows-refl, ◌then◌}
use cluster_api_provider_nom.DeepCopy.Rules.Parts.{Copies-field, Copies-pure}
use cluster_api_provider_nom.DeepCopy.Rules.New.{Refers, Copier-new}
use cluster_api_provider_nom.DeepCopy.NomadClusterSpec
use cluster_api_provider_nom.DeepCopy.NomadClusterStatus

module _ {L : Layout} (lib : Library L) where
  unfoldable pub deep_copy_into :
      Structs.NomadCluster (stored L) → Mem L (Structs.NomadCluster (stored L))
  deep_copy_into original = do
    meta ← lib.copy_object_meta original.meta
    spec ← NomadClusterSpec.deep_copy_into original.spec
    status ← NomadClusterStatus.deep_copy_into lib original.status
    pure (record original { meta = meta; spec = spec; status = status })

  unfoldable pub deep_copy : Option Address → Mem L (Option Address)
  deep_copy original = new_copy Kinds.cluster deep_copy_into original

  unfoldable pub deep_copy_object : Option Address → Mem L (Option Object)
  deep_copy_object original = do c ← deep_copy original; pure (as_object Object.nomad_cluster c)

-- What a stored NomadCluster shows.
pub record Shows {L : Layout} {V : Values} (shown : Shown L V) (H : Region L)
    (original : Structs.NomadCluster (stored L)) (v : Structs.NomadCluster (value V)) : Type 0 where
  pub meta : shown.object_meta H original.meta v.meta
  pub spec : NomadClusterSpec.Shows H original.spec v.spec
  pub status : NomadClusterStatus.Shows shown H original.status v.status
  pub type_meta : original.type_meta ≡ v.type_meta

module _ {L : Layout} {V : Values} {lib : Library L} {shown : Shown L V}
    (doc : IsDocumented lib shown) where
  pub Copier-into : Copier (Shows shown) (deep_copy_into lib)
  unfolding deep_copy_into
  Copier-into = record {
    moves = λ H H' original v w h. record {
      meta = doc.object_meta.moves H H' _ _ w h.meta;
      spec = (NomadClusterSpec.Copier-into).moves H H' _ _ w h.spec;
      status = (NomadClusterStatus.Copier-into doc).moves H H' _ _ w h.status;
      type_meta = h.type_meta;
    };
    copies = λ n H original v σ h s. Copies-field doc.object_meta h.meta s λ meta σ1 g1 s1 r1.
        Copies-field (NomadClusterSpec.Copier-into) h.spec s1 λ spec σ2 g2 s2 r2.
          Copies-field (NomadClusterStatus.Copier-into doc) h.status s2 λ status σ3 g3 s3 r3.
            Copies-pure (record {
              meta = r1.later (g2 then g3);
              spec = r2.later (g3);
              status = r3.later (Grows-refl σ3);
              type_meta = h.type_meta;
            });
  }

  pub Copier-copy : Copier (Refers Kinds.cluster (Shows shown)) (deep_copy lib)
  unfolding deep_copy
  Copier-copy = Copier-new Copier-into Kinds.cluster
