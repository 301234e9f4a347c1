-- ===== src/DeepCopy/NomadMachineTemplateResource.antt =====
-- The deep copy of NomadMachineTemplateResource, zz_generated.deepcopy.go, and that it is one.
use cluster_api_provider_nom.Base.{Option}
use cluster_api_provider_nom.DeepCopy.Structs
use cluster_api_provider_nom.DeepCopy.Structs.{Address, Layout, Values, stored, value}
use cluster_api_provider_nom.DeepCopy.Memory.{Mem, pure, ◌>>=◌, new_copy}
use cluster_api_provider_nom.DeepCopy.Kinds
use cluster_api_provider_nom.DeepCopy.Rules.{Region, Copier, Grows-refl}
use cluster_api_provider_nom.DeepCopy.Rules.Parts.{Copies-field, Copies-pure}
use cluster_api_provider_nom.DeepCopy.Rules.New.{Refers, Copier-new}
use cluster_api_provider_nom.DeepCopy.NomadMachineSpec

module _ {L : Layout} where
  unfoldable pub deep_copy_into :
      Structs.NomadMachineTemplateResource (stored L)
      → Mem L (Structs.NomadMachineTemplateResource (stored L))
  deep_copy_into original = do
    spec ← NomadMachineSpec.deep_copy_into original.spec
    pure (record original { spec = spec })

  unfoldable pub deep_copy : Option Address → Mem L (Option Address)
  deep_copy original = new_copy Kinds.template_resource deep_copy_into original

-- What a stored NomadMachineTemplateResource shows.
pub record Shows {L : Layout} {V : Values} (H : Region L)
    (original : Structs.NomadMachineTemplateResource (stored L))
    (v : Structs.NomadMachineTemplateResource (value V)) : Type 0 where
  pub spec : NomadMachineSpec.Shows H original.spec v.spec

module _ {L : Layout} {V : Values} where
  pub Copier-into : Copier {L = L} (Shows {V = V}) deep_copy_into
  unfolding deep_copy_into
  Copier-into = record {
    moves = λ H H' original v w h. record {
      spec = (NomadMachineSpec.Copier-into).moves H H' _ _ w h.spec;
    };
    copies = λ n H original v σ h s.
        Copies-field (NomadMachineSpec.Copier-into) h.spec s
          λ spec σ1 g1 s1 r1. Copies-pure (record { spec = r1.later (Grows-refl σ1) });
  }

  pub Copier-copy : Copier {L = L} (Refers Kinds.template_resource (Shows {V = V})) deep_copy
  unfolding deep_copy
  Copier-copy = Copier-new Copier-into Kinds.template_resource
