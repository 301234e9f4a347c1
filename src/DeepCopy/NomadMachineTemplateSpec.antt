-- ===== src/DeepCopy/NomadMachineTemplateSpec.antt =====
-- The deep copy of NomadMachineTemplateSpec, zz_generated.deepcopy.go, and that it is one.
use cluster_api_provider_nom.Base.{Option}
use cluster_api_provider_nom.DeepCopy.Structs
use cluster_api_provider_nom.DeepCopy.Structs.{Address, Layout, Values, stored, value}
use cluster_api_provider_nom.DeepCopy.Memory.{Mem, pure, ◌>>=◌, new_copy}
use cluster_api_provider_nom.DeepCopy.Kinds
use cluster_api_provider_nom.DeepCopy.Rules.{Region, Copier, Grows-refl}
use cluster_api_provider_nom.DeepCopy.Rules.Parts.{Copies-field, Copies-pure}
use cluster_api_provider_nom.DeepCopy.Rules.New.{Refers, Copier-new}
use cluster_api_provider_nom.DeepCopy.NomadMachineTemplateResource

module _ {L : Layout} where
  unfoldable pub deep_copy_into :
      Structs.NomadMachineTemplateSpec (stored L)
      → Mem L (Structs.NomadMachineTemplateSpec (stored L))
  deep_copy_into original = do
    template ← NomadMachineTemplateResource.deep_copy_into original.template
    pure (record original { template = template })

  unfoldable pub deep_copy : Option Address → Mem L (Option Address)
  deep_copy original = new_copy Kinds.template_spec deep_copy_into original

-- What a stored NomadMachineTemplateSpec shows.
pub record Shows {L : Layout} {V : Values} (H : Region L)
    (original : Structs.NomadMachineTemplateSpec (stored L))
    (v : Structs.NomadMachineTemplateSpec (value V)) : Type 0 where
  pub template : NomadMachineTemplateResource.Shows H original.template v.template

module _ {L : Layout} {V : Values} where
  pub Copier-into : Copier {L = L} (Shows {V = V}) deep_copy_into
  unfolding deep_copy_into
  Copier-into = record {
    moves = λ H H' original v w h. record {
      template = (NomadMachineTemplateResource.Copier-into).moves H H' _ _ w h.template;
    };
    copies = λ n H original v σ h s.
        Copies-field (NomadMachineTemplateResource.Copier-into) h.template s
          λ template σ1 g1 s1 r1. Copies-pure (record { template = r1.later (Grows-refl σ1) });
  }

  pub Copier-copy : Copier {L = L} (Refers Kinds.template_spec (Shows {V = V})) deep_copy
  unfolding deep_copy
  Copier-copy = Copier-new Copier-into Kinds.template_spec
