-- ===== src/DeepCopy/NomadMachineStatus.antt =====
-- The deep copy of NomadMachineStatus, zz_generated.deepcopy.go, and that it is one.
use cluster_api_provider_nom.Base.{◌≡◌, Option}
use cluster_api_provider_nom.DeepCopy.Structs
use cluster_api_provider_nom.DeepCopy.Structs.{Address, Layout, Values, stored, value}
use cluster_api_provider_nom.DeepCopy.Memory.{Mem, pure, ◌>>=◌, new_copy, each}
use cluster_api_provider_nom.DeepCopy.Kinds
use cluster_api_provider_nom.DeepCopy.Library.{Library, Shown, IsDocumented}
use cluster_api_provider_nom.DeepCopy.Rules.{Region, Copier, Grows-refl, ◌then◌}
use cluster_api_provider_nom.DeepCopy.Rules.Parts.{Copies-field, Copies-pure}
use cluster_api_provider_nom.DeepCopy.Rules.Elements.{Equal, Lists, Copier-plain, Copier-each}
use cluster_api_provider_nom.DeepCopy.Rules.New.{Refers, Copier-new}

module _ {L : Layout} (lib : Library L) where
  unfoldable pub deep_copy_into :
      Structs.NomadMachineStatus (stored L) → Mem L (Structs.NomadMachineStatus (stored L))
  deep_copy_into original = do
    deployment_status ← new_copy Kinds.text pure original.deployment_status
    status_description ← new_copy Kinds.text pure original.status_description
    addresses ← new_copy Kinds.machine_addresses pure original.addresses
    conditions ← new_copy Kinds.conditions (each lib.copy_condition) original.conditions
    failure_reason ← new_copy Kinds.text pure original.failure_reason
    failure_message ← new_copy Kinds.text pure original.failure_message
    pure (record original {
      deployment_status = deployment_status;
      status_description = status_description;
      addresses = addresses;
      conditions = conditions;
      failure_reason = failure_reason;
      failure_message = failure_message;
    })

  unfoldable pub deep_copy : Option Address → Mem L (Option Address)
  deep_copy original = new_copy Kinds.machine_status deep_copy_into original

-- What a stored NomadMachineStatus shows.
pub record Shows {L : Layout} {V : Values} (shown : Shown L V) (H : Region L)
    (original : Structs.NomadMachineStatus (stored L)) (v : Structs.NomadMachineStatus (value V))
    : Type 0 where
  pub deployment_status : Refers Kinds.text Equal H original.deployment_status v.deployment_status
  pub status_description :
      Refers Kinds.text Equal H original.status_description v.status_description
  pub addresses : Refers Kinds.machine_addresses Equal H original.addresses v.addresses
  pub conditions :
      Refers Kinds.conditions (Lists shown.condition) H original.conditions v.conditions
  pub failure_reason : Refers Kinds.text Equal H original.failure_reason v.failure_reason
  pub failure_message : Refers Kinds.text Equal H original.failure_message v.failure_message
  pub ready : original.ready ≡ v.ready
  pub dns_attached : original.dns_attached ≡ v.dns_attached

module _ {L : Layout} {V : Values} {lib : Library L} {shown : Shown L V}
    (doc : IsDocumented lib shown) where
  pub Copier-into : Copier (Shows shown) (deep_copy_into lib)
  unfolding deep_copy_into
  Copier-into = record {
    moves = λ H H' original v w h. record {
      deployment_status = (Copier-new Copier-plain Kinds.text).moves H H' _ _ w h.deployment_status;
      status_description =
          (Copier-new Copier-plain Kinds.text).moves H H' _ _ w h.status_description;
      addresses = (Copier-new Copier-plain Kinds.machine_addresses).moves H H' _ _ w h.addresses;
      conditions =
          (Copier-new (Copier-each doc.condition) Kinds.conditions).moves H H' _ _ w h.conditions;
      failure_reason = (Copier-new Copier-plain Kinds.text).moves H H' _ _ w h.failure_reason;
      failure_message = (Copier-new Copier-plain Kinds.text).moves H H' _ _ w h.failure_message;
      ready = h.ready;
      dns_attached = h.dns_attached;
    };
    copies = λ n H original v σ h s.
        Copies-field (Copier-new Copier-plain Kinds.text) h.deployment_status s
          λ deployment_status σ1 g1 s1 r1.
            Copies-field (Copier-new Copier-plain Kinds.text) h.status_description s1
              λ status_description σ2 g2 s2 r2.
                Copies-field (Copier-new Copier-plain Kinds.machine_addresses) h.addresses s2
                  λ addresses σ3 g3 s3 r3.
                    Copies-field (Copier-new (Copier-each doc.condition) Kinds.conditions)
                      h.conditions s3
                      λ conditions σ4 g4 s4 r4.
                        Copies-field (Copier-new Copier-plain Kinds.text) h.failure_reason s4
                          λ failure_reason σ5 g5 s5 r5.
                            Copies-field (Copier-new Copier-plain Kinds.text) h.failure_message s5
                              λ failure_message σ6 g6 s6 r6. Copies-pure (record {
                                deployment_status = r1.later (g2 then g3 then g4 then g5 then g6);
                                status_description = r2.later (g3 then g4 then g5 then g6);
                                addresses = r3.later (g4 then g5 then g6);
                                conditions = r4.later (g5 then g6);
                                failure_reason = r5.later (g6);
                                failure_message = r6.later (Grows-refl σ6);
                                ready = h.ready;
                                dns_attached = h.dns_attached;
                              });
  }

  pub Copier-copy : Copier (Refers Kinds.machine_status (Shows shown)) (deep_copy lib)
  unfolding deep_copy
  Copier-copy = Copier-new Copier-into Kinds.machine_status
