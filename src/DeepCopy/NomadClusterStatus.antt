-- ===== src/DeepCopy/NomadClusterStatus.antt =====
-- The deep copy of NomadClusterStatus, zz_generated.deepcopy.go, and that it is one.
use cluster_api_provider_nom.Base.{◌≡◌, Option}
use cluster_api_provider_nom.DeepCopy.Structs
use cluster_api_provider_nom.DeepCopy.Structs.{Address, Layout, Values, stored, value}
use cluster_api_provider_nom.DeepCopy.Memory.{Mem, pure, ◌>>=◌, new_copy, each}
use cluster_api_provider_nom.DeepCopy.Kinds
use cluster_api_provider_nom.DeepCopy.Library.{Library, Shown, IsDocumented, entry, Copier-entry}
use cluster_api_provider_nom.DeepCopy.Rules.{Region, Copier, Grows-refl}
use cluster_api_provider_nom.DeepCopy.Rules.Parts.{Copies-field, Copies-pure}
use cluster_api_provider_nom.DeepCopy.Rules.Elements.{Lists, Keyed, Copier-each}
use cluster_api_provider_nom.DeepCopy.Rules.New.{Refers, Copier-new}

module _ {L : Layout} (lib : Library L) where
  unfoldable pub deep_copy_into :
      Structs.NomadClusterStatus (stored L) → Mem L (Structs.NomadClusterStatus (stored L))
  deep_copy_into original = do
    failure_domains ←
        new_copy Kinds.failure_domains (each (entry lib.copy_failure_domain_spec))
          original.failure_domains
    conditions ← new_copy Kinds.conditions (each lib.copy_condition) original.conditions
    pure (record original { failure_domains = failure_domains; conditions = conditions })

  unfoldable pub deep_copy : Option Address → Mem L (Option Address)
  deep_copy original = new_copy Kinds.cluster_status deep_copy_into original

-- What a stored NomadClusterStatus shows.
pub record Shows {L : Layout} {V : Values} (shown : Shown L V) (H : Region L)
    (original : Structs.NomadClusterStatus (stored L)) (v : Structs.NomadClusterStatus (value V))
    : Type 0 where
  pub failure_domains :
      Refers Kinds.failure_domains
        (Lists (Keyed shown.failure_domain_spec))
        H
        original.failure_domains
        v.failure_domains
  pub conditions :
      Refers Kinds.conditions (Lists shown.condition) H original.conditions v.conditions
  pub ready : original.ready ≡ v.ready
  pub network : original.network ≡ v.network

module _ {L : Layout} {V : Values} {lib : Library L} {shown : Shown L V}
    (doc : IsDocumented lib shown) where
  pub Copier-into : Copier (Shows shown) (deep_copy_into lib)
  unfolding deep_copy_into
  Copier-into = record {
    moves = λ H H' original v w h. record {
      failure_domains =
          (Copier-new (Copier-each (Copier-entry doc.failure_domain_spec))
              Kinds.failure_domains).moves
            H H' _ _ w h.failure_domains;
      conditions =
          (Copier-new (Copier-each doc.condition) Kinds.conditions).moves H H' _ _ w h.conditions;
      ready = h.ready;
      network = h.network;
    };
    copies = λ n H original v σ h s.
        Copies-field
          (Copier-new (Copier-each (Copier-entry doc.failure_domain_spec)) Kinds.failure_domains)
          h.failure_domains s
          λ failure_domains σ1 g1 s1 r1.
            Copies-field (Copier-new (Copier-each doc.condition) Kinds.conditions) h.conditions s1
              λ conditions σ2 g2 s2 r2. Copies-pure (record {
                failure_domains = r1.later (g2);
                conditions = r2.later (Grows-refl σ2);
                ready = h.ready;
                network = h.network;
              });
  }

  pub Copier-copy : Copier (Refers Kinds.cluster_status (Shows shown)) (deep_copy lib)
  unfolding deep_copy
  Copier-copy = Copier-new Copier-into Kinds.cluster_status
