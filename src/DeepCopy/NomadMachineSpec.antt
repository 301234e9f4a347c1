-- ===== src/DeepCopy/NomadMachineSpec.antt =====
-- The deep copy of NomadMachineSpec, zz_generated.deepcopy.go, and that it is one.
use cluster_api_provider_nom.Base.{◌≡◌, Option}
use cluster_api_provider_nom.DeepCopy.Structs
use cluster_api_provider_nom.DeepCopy.Structs.{Address, Layout, Values, stored, value}
use cluster_api_provider_nom.DeepCopy.Memory.{Mem, pure, ◌>>=◌, new_copy}
use cluster_api_provider_nom.DeepCopy.Kinds
use cluster_api_provider_nom.DeepCopy.Rules.{Region, Copier, Grows-refl, ◌then◌}
use cluster_api_provider_nom.DeepCopy.Rules.Parts.{Copies-field, Copies-pure}
use cluster_api_provider_nom.DeepCopy.Rules.Elements.{Equal, Copier-plain}
use cluster_api_provider_nom.DeepCopy.Rules.New.{Refers, Copier-new}

module _ {L : Layout} where
  unfoldable pub deep_copy_into :
      Structs.NomadMachineSpec (stored L) → Mem L (Structs.NomadMachineSpec (stored L))
  deep_copy_into original = do
    failure_domain ← new_copy Kinds.text pure original.failure_domain
    provider_id ← new_copy Kinds.text pure original.provider_id
    debug_vnc ← new_copy Kinds.text pure original.debug_vnc
    pure (record original {
      failure_domain = failure_domain;
      provider_id = provider_id;
      debug_vnc = debug_vnc;
    })

  unfoldable pub deep_copy : Option Address → Mem L (Option Address)
  deep_copy original = new_copy Kinds.machine_spec deep_copy_into original

-- What a stored NomadMachineSpec shows.
pub record Shows {L : Layout} {V : Values} (H : Region L)
    (original : Structs.NomadMachineSpec (stored L)) (v : Structs.NomadMachineSpec (value V))
    : Type 0 where
  pub failure_domain : Refers Kinds.text Equal H original.failure_domain v.failure_domain
  pub provider_id : Refers Kinds.text Equal H original.provider_id v.provider_id
  pub debug_vnc : Refers Kinds.text Equal H original.debug_vnc v.debug_vnc
  pub cpu : original.cpu ≡ v.cpu
  pub memory_mb : original.memory_mb ≡ v.memory_mb
  pub image : original.image ≡ v.image

module _ {L : Layout} {V : Values} where
  pub Copier-into : Copier {L = L} (Shows {V = V}) deep_copy_into
  unfolding deep_copy_into
  Copier-into = record {
    moves = λ H H' original v w h. record {
      failure_domain = (Copier-new Copier-plain Kinds.text).moves H H' _ _ w h.failure_domain;
      provider_id = (Copier-new Copier-plain Kinds.text).moves H H' _ _ w h.provider_id;
      debug_vnc = (Copier-new Copier-plain Kinds.text).moves H H' _ _ w h.debug_vnc;
      cpu = h.cpu;
      memory_mb = h.memory_mb;
      image = h.image;
    };
    copies = λ n H original v σ h s.
        Copies-field (Copier-new Copier-plain Kinds.text) h.failure_domain s
          λ failure_domain σ1 g1 s1 r1.
            Copies-field (Copier-new Copier-plain Kinds.text) h.provider_id s1
              λ provider_id σ2 g2 s2 r2.
                Copies-field (Copier-new Copier-plain Kinds.text) h.debug_vnc s2
                  λ debug_vnc σ3 g3 s3 r3. Copies-pure (record {
                    failure_domain = r1.later (g2 then g3);
                    provider_id = r2.later (g3);
                    debug_vnc = r3.later (Grows-refl σ3);
                    cpu = h.cpu;
                    memory_mb = h.memory_mb;
                    image = h.image;
                  });
  }

  pub Copier-copy : Copier {L = L} (Refers Kinds.machine_spec (Shows {V = V})) deep_copy
  unfolding deep_copy
  Copier-copy = Copier-new Copier-into Kinds.machine_spec
