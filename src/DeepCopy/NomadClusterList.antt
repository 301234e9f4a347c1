-- ===== src/DeepCopy/NomadClusterList.antt =====
-- The deep copy of NomadClusterList, zz_generated.deepcopy.go, and that it is one.
use cluster_api_provider_nom.Base.{◌≡◌, Option}
use cluster_api_provider_nom.DeepCopy.Structs
use cluster_api_provider_nom.DeepCopy.Structs.{Address, Layout, Values, stored, value}
use cluster_api_provider_nom.DeepCopy.Memory.{Mem, pure, ◌>>=◌, new_copy, each}
use cluster_api_provider_nom.DeepCopy.Kinds
use cluster_api_provider_nom.DeepCopy.Library.{Library, Shown, IsDocumented}
use cluster_api_provider_nom.DeepCopy.Object.{Object, as_object}
use cluster_api_provider_nom.DeepCopy.Rules.{Region, Copier, Grows-refl}
use cluster_api_provider_nom.DeepCopy.Rules.Parts.{Copies-field, Copies-pure}
use cluster_api_provider_nom.DeepCopy.Rules.Elements.{Lists, Copier-each}
use cluster_api_provider_nom.DeepCopy.Rules.New.{Refers, Copier-new}
use cluster_api_provider_nom.DeepCopy.NomadCluster

module _ {L : Layout} (lib : Library L) where
  unfoldable pub deep_copy_into :
      Structs.NomadClusterList (stored L) → Mem L (Structs.NomadClusterList (stored L))
  deep_copy_into original = do
    meta ← lib.copy_list_meta original.meta
    items ← new_copy Kinds.clusters (each (NomadCluster.deep_copy_into lib)) original.items
    pure (record original { meta = meta; items = items })

  unfoldable pub deep_copy : Option Address → Mem L (Option Address)
  deep_copy original = new_copy Kinds.cluster_list deep_copy_into original

  unfoldable pub deep_copy_object : Option Address → Mem L (Option Object)
  deep_copy_object original = do
    c ← deep_copy original
    pure (as_object Object.nomad_cluster_list c)

-- What a stored NomadClusterList shows.
pub record Shows {L : Layout} {V : Values} (shown : Shown L V) (H : Region L)
    (original : Structs.NomadClusterList (stored L)) (v : Structs.NomadClusterList (value V))
    : Type 0 where
  pub meta : shown.list_meta H original.meta v.meta
  pub items : Refers Kinds.clusters (Lists (NomadCluster.Shows shown)) H original.items v.items
  pub type_meta : original.type_meta ≡ v.type_meta

module _ {L : Layout} {V : Values} {lib : Library L} {shown : Shown L V}
    (doc : IsDocumented lib shown) where
  pub Copier-into : Copier (Shows shown) (deep_copy_into lib)
  unfolding deep_copy_into
  Copier-into = record {
    moves = λ H H' original v w h. record {
      meta = doc.list_meta.moves H H' _ _ w h.meta;
      items =
          (Copier-new (Copier-each (NomadCluster.Copier-into doc)) Kinds.clusters).moves H H' _ _ w
            h.items;
      type_meta = h.type_meta;
    };
    copies = λ n H original v σ h s. Copies-field doc.list_meta h.meta s λ meta σ1 g1 s1 r1.
        Copies-field (Copier-new (Copier-each (NomadCluster.Copier-into doc)) Kinds.clusters)
          h.items s1
          λ items σ2 g2 s2 r2. Copies-pure (record {
            meta = r1.later (g2);
            items = r2.later (Grows-refl σ2);
            type_meta = h.type_meta;
          });
  }

  pub Copier-copy : Copier (Refers Kinds.cluster_list (Shows shown)) (deep_copy lib)
  unfolding deep_copy
  Copier-copy = Copier-new Copier-into Kinds.cluster_list
