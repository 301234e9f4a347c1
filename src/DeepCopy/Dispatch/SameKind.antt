-- ===== src/DeepCopy/Dispatch/SameKind.antt =====
-- What type of object `DeepCopyObject` returns, for nil pointers too.
use cluster_api_provider_nom.Base.{◌≡◌, ◌≢◌, ◌⊎◌, inl, inr, Option-cases, Option, none, some, arith}
use cluster_api_provider_nom.DeepCopy.Structs.{Address, Layout}
use cluster_api_provider_nom.DeepCopy.Memory.{
  Kind, Mem, Store, pure, ◌>>=◌, new_copy, load, alloc, store,
}
use cluster_api_provider_nom.DeepCopy.Kinds
use cluster_api_provider_nom.DeepCopy.Library.{Library}
use cluster_api_provider_nom.DeepCopy.Object.{Object, as_object}
use cluster_api_provider_nom.DeepCopy.NomadCluster
use cluster_api_provider_nom.DeepCopy.NomadClusterList
use cluster_api_provider_nom.DeepCopy.NomadMachine
use cluster_api_provider_nom.DeepCopy.NomadMachineList
use cluster_api_provider_nom.DeepCopy.NomadMachineTemplate
use cluster_api_provider_nom.DeepCopy.NomadMachineTemplateList
use cluster_api_provider_nom.DeepCopy.Dispatch.{deep_copy_object}

-- The interface holds a typed pointer, which may be nil.
abbrev pub pointer : Object → Option Address
pointer (Object.nomad_cluster p) = p
pointer (Object.nomad_cluster_list p) = p
pointer (Object.nomad_machine p) = p
pointer (Object.nomad_machine_list p) = p
pointer (Object.nomad_machine_template p) = p
pointer (Object.nomad_machine_template_list p) = p

-- The same type, with another pointer.
abbrev pub with_pointer : Object → Option Address → Object
with_pointer (Object.nomad_cluster _) q = Object.nomad_cluster q
with_pointer (Object.nomad_cluster_list _) q = Object.nomad_cluster_list q
with_pointer (Object.nomad_machine _) q = Object.nomad_machine q
with_pointer (Object.nomad_machine_list _) q = Object.nomad_machine_list q
with_pointer (Object.nomad_machine_template _) q = Object.nomad_machine_template q
with_pointer (Object.nomad_machine_template_list _) q = Object.nomad_machine_template_list q

-- The nil object, for a nil pointer and with no change, or a new variable of the same type.
abbrev pub SameKind : {L : Layout} → Object → Store L → Option Object → Store L → Type 0
SameKind o σ r σ' =
    ((pointer o ≡ none) × (r ≡ none) × (σ' ≡ σ))
    ⊎ ((pointer o ≢ none) × (r ≡ some (with_pointer o (some σ.next))))

module _ {L : Layout} {A : Type 0} (k : Kind L A) (into : A → Mem L A) where
  new_copy_cases :
      (p : Option Address) (σ : Store L) {q : Option Address} {σ' : Store L}
      → new_copy k into p σ ≡ some (q, σ')
      → ((p ≡ none) × (q ≡ none) × (σ' ≡ σ)) ⊎ ((p ≢ none) × (q ≡ some σ.next))
  unfolding new_copy load alloc store
  new_copy_cases none σ h = ground arith
  new_copy_cases (some p) σ h = ground arith

  as_object_cases :
      (kind : Option Address → Object) (p : Option Address) (σ : Store L) {r : Option Object}
      {σ' : Store L}
      → (new_copy k into p >>= λ c. pure (as_object kind c)) σ ≡ some (r, σ')
      → ((p ≡ none) × (r ≡ none) × (σ' ≡ σ)) ⊎ ((p ≢ none) × (r ≡ some (kind (some σ.next))))
  as_object_cases kind p σ h = elim (Option-cases (new_copy k into p σ)) [
    | inl failed ↦ ground (arith, failed)
    | inr ran ↦ ground (arith, ran, new_copy_cases p σ ran.1)
  ]

module _ {L : Layout} (lib : Library L) where
  -- A DeepCopyObject that returns gives, for a nil pointer, the nil object, and allocates nothing; and
  -- for any other pointer an object of the same type, which is not nil and points to the first
  -- address that was free.
  pub deep_copy_object-SameKind :
      (o : Object) (σ : Store L) {r : Option Object} {σ' : Store L}
      → deep_copy_object lib o σ ≡ some (r, σ')
      → SameKind o σ r σ'
  unfolding deep_copy_object NomadCluster.deep_copy_object NomadCluster.deep_copy
      NomadClusterList.deep_copy_object NomadClusterList.deep_copy NomadMachine.deep_copy_object
      NomadMachine.deep_copy NomadMachineList.deep_copy_object NomadMachineList.deep_copy
      NomadMachineTemplate.deep_copy_object NomadMachineTemplate.deep_copy
      NomadMachineTemplateList.deep_copy_object NomadMachineTemplateList.deep_copy
  deep_copy_object-SameKind (Object.nomad_cluster p) σ h =
      as_object_cases Kinds.cluster (NomadCluster.deep_copy_into lib) Object.nomad_cluster p σ h
  deep_copy_object-SameKind (Object.nomad_cluster_list p) σ h =
      as_object_cases Kinds.cluster_list (NomadClusterList.deep_copy_into lib)
        Object.nomad_cluster_list p σ h
  deep_copy_object-SameKind (Object.nomad_machine p) σ h =
      as_object_cases Kinds.nomad_machine (NomadMachine.deep_copy_into lib) Object.nomad_machine p σ
        h
  deep_copy_object-SameKind (Object.nomad_machine_list p) σ h =
      as_object_cases Kinds.nomad_machine_list (NomadMachineList.deep_copy_into lib)
        Object.nomad_machine_list p σ h
  deep_copy_object-SameKind (Object.nomad_machine_template p) σ h =
      as_object_cases Kinds.template (NomadMachineTemplate.deep_copy_into lib)
        Object.nomad_machine_template p σ h
  deep_copy_object-SameKind (Object.nomad_machine_template_list p) σ h =
      as_object_cases Kinds.template_list (NomadMachineTemplateList.deep_copy_into lib)
        Object.nomad_machine_template_list p σ h
