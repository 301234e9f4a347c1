-- ===== src/DeepCopy/Machine.antt =====
-- The deep copy of Machine, zz_generated.deepcopy.go, and that it is one.
use cluster_api_provider_nom.Base.{◌≡◌, Option}
use cluster_api_provider_nom.DeepCopy.Structs
use cluster_api_provider_nom.DeepCopy.Structs.{Address, Layout, Values, stored, value}
use cluster_api_provider_nom.DeepCopy.Memory.{Mem, pure, ◌>>=◌, new_copy}
use cluster_api_provider_nom.DeepCopy.Kinds
use cluster_api_provider_nom.DeepCopy.Rules.{Region, Copier, Grows-refl}
use cluster_api_provider_nom.DeepCopy.Rules.Parts.{Copies-field, Copies-pure}
use cluster_api_provider_nom.DeepCopy.Rules.Elements.{Equal, Copier-plain}
use cluster_api_provider_nom.DeepCopy.Rules.New.{Refers, Copier-new}

module _ {L : Layout} where
  unfoldable pub deep_copy_into : Structs.Machine (stored L) → Mem L (Structs.Machine (stored L))
  deep_copy_into original = do
    addresses ← new_copy Kinds.machine_addresses pure original.addresses
    pure (record original { addresses = addresses })

  unfoldable pub deep_copy : Option Address → Mem L (Option Address)
  deep_copy original = new_copy Kinds.machine deep_copy_into original

-- What a stored Machine shows.
pub record Shows {L : Layout} {V : Values} (H : Region L) (original : Structs.Machine (stored L))
    (v : Structs.Machine (value V)) : Type 0 where
  pub addresses : Refers Kinds.machine_addresses Equal H original.addresses v.addresses
  pub job_id : original.job_id ≡ v.job_id
  pub deployment_id : original.deployment_id ≡ v.deployment_id
  pub status : original.status ≡ v.status
  pub status_description : original.status_description ≡ v.status_description

module _ {L : Layout} {V : Values} where
  pub Copier-into : Copier {L = L} (Shows {V = V}) deep_copy_into
  unfolding deep_copy_into
  Copier-into = record {
    moves = λ H H' original v w h. record {
      addresses = (Copier-new Copier-plain Kinds.machine_addresses).moves H H' _ _ w h.addresses;
      job_id = h.job_id;
      deployment_id = h.deployment_id;
      status = h.status;
      status_description = h.status_description;
    };
    copies = λ n H original v σ h s.
        Copies-field (Copier-new Copier-plain Kinds.machine_addresses) h.addresses s
          λ addresses σ1 g1 s1 r1. Copies-pure (record {
            addresses = r1.later (Grows-refl σ1);
            job_id = h.job_id;
            deployment_id = h.deployment_id;
            status = h.status;
            status_description = h.status_description;
          });
  }

  pub Copier-copy : Copier {L = L} (Refers Kinds.machine (Shows {V = V})) deep_copy
  unfolding deep_copy
  Copier-copy = Copier-new Copier-into Kinds.machine
