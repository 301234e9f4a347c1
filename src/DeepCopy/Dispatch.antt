-- ===== src/DeepCopy/Dispatch.antt =====
-- `DeepCopyObject` through the interface runtime.Object, as a cache calls it, and what the copy is
-- worth: it shows the original's value, and neither is seen in the other.
pub mod Separate
pub mod SameKind
use cluster_api_provider_nom.Base.{◌≡◌, Option, none, some}
use cluster_api_provider_nom.DeepCopy.Structs
use cluster_api_provider_nom.DeepCopy.Structs.{Address, Layout, Values, stored, value}
use cluster_api_provider_nom.DeepCopy.Memory.{Kind, Mem, Store, pure, ◌>>=◌, new_copy}
use cluster_api_provider_nom.DeepCopy.Kinds
use cluster_api_provider_nom.DeepCopy.Library.{Library, Shown, IsDocumented}
use cluster_api_provider_nom.DeepCopy.Object
use cluster_api_provider_nom.DeepCopy.Object.{Object, as_object}
use cluster_api_provider_nom.DeepCopy.Rules.{
  Region, Above, Whole, Showing, Copies, Source, Copier, Moves, Grows-refl,
}
use cluster_api_provider_nom.DeepCopy.Rules.Parts.{Copies-field, Copies-pure}
use cluster_api_provider_nom.DeepCopy.Rules.New.{Refers, Copier-new}
use cluster_api_provider_nom.DeepCopy.NomadCluster
use cluster_api_provider_nom.DeepCopy.NomadClusterList
use cluster_api_provider_nom.DeepCopy.NomadMachine
use cluster_api_provider_nom.DeepCopy.NomadMachineList
use cluster_api_provider_nom.DeepCopy.NomadMachineTemplate
use cluster_api_provider_nom.DeepCopy.NomadMachineTemplateList

-- The method of the object's own kind.
unfoldable pub deep_copy_object : {L : Layout} → Library L → Object → Mem L (Option Object)
deep_copy_object lib (Object.nomad_cluster p) = NomadCluster.deep_copy_object lib p
deep_copy_object lib (Object.nomad_cluster_list p) = NomadClusterList.deep_copy_object lib p
deep_copy_object lib (Object.nomad_machine p) = NomadMachine.deep_copy_object lib p
deep_copy_object lib (Object.nomad_machine_list p) = NomadMachineList.deep_copy_object lib p
deep_copy_object lib (Object.nomad_machine_template p) = NomadMachineTemplate.deep_copy_object lib p
deep_copy_object lib (Object.nomad_machine_template_list p) =
    NomadMachineTemplateList.deep_copy_object lib p

-- The value of an object, by its kind.
pub data ObjectValue (V : Values) : Type 0 where
  nomad_cluster : Structs.NomadCluster (value V) → ObjectValue V
  nomad_cluster_list : Structs.NomadClusterList (value V) → ObjectValue V
  nomad_machine : Structs.NomadMachine (value V) → ObjectValue V
  nomad_machine_list : Structs.NomadMachineList (value V) → ObjectValue V
  nomad_machine_template : Structs.NomadMachineTemplate (value V) → ObjectValue V
  nomad_machine_template_list : Structs.NomadMachineTemplateList (value V) → ObjectValue V

module _ {L : Layout} {V : Values} (shown : Shown L V) where
  -- The pointer is not nil, and leads to a struct of the value's kind that shows it.
  abbrev pub Shows : Region L → Object → ObjectValue V → Type 0
  Shows H (Object.nomad_cluster p) (nomad_cluster v) =
      Refers Kinds.cluster (NomadCluster.Shows shown) H p (some v)
  Shows H (Object.nomad_cluster_list p) (nomad_cluster_list v) =
      Refers Kinds.cluster_list (NomadClusterList.Shows shown) H p (some v)
  Shows H (Object.nomad_machine p) (nomad_machine v) =
      Refers Kinds.nomad_machine (NomadMachine.Shows shown) H p (some v)
  Shows H (Object.nomad_machine_list p) (nomad_machine_list v) =
      Refers Kinds.nomad_machine_list (NomadMachineList.Shows shown) H p (some v)
  Shows H (Object.nomad_machine_template p) (nomad_machine_template v) =
      Refers Kinds.template (NomadMachineTemplate.Shows shown) H p (some v)
  Shows H (Object.nomad_machine_template_list p) (nomad_machine_template_list v) =
      Refers Kinds.template_list (NomadMachineTemplateList.Shows shown) H p (some v)
  Shows H o v = ⊥

  -- The object that is returned is not nil.
  abbrev pub Returned : Region L → Option Object → ObjectValue V → Type 0
  Returned H none v = ⊥
  Returned H (some o) v = Shows H o v

module _ {L : Layout} {V : Values} {A W : Type 0} {ShownOf : Showing L A W} (k : Kind L A)
    (shown : Shown L V) (kind : Option Address → Object) (made : W → ObjectValue V) where
  as_object-Returned :
      ((H : Region L) (p : Address) (w : W)
        → Refers k ShownOf H (some p) (some w)
        → Shows shown H (kind (some p)) (made w))
      → (H : Region L) (p : Option Address) (w : W) → Refers k ShownOf H p (some w)
      → Returned shown H (as_object kind p) (made w)
  as_object-Returned boxed H (some p) w h = boxed H p w h
  as_object-Returned boxed H none w h = absurd h

  -- A method that is `DeepCopy` and the test against nil.
  as_object-Copies :
      {into : Option Address → Mem L (Option Address)} {n : Address} {H : Region L}
      (p : Option Address) (w : W) {σ : Store L}
      → Copier (Refers k ShownOf) into
      → ((H : Region L) (q : Address) (w : W)
          → Refers k ShownOf H (some q) (some w)
          → Shows shown H (kind (some q)) (made w))
      → Refers k ShownOf H p (some w)
      → Source n H σ
      → Copies n (Returned shown) (made w) (into p >>= λ c. pure (as_object kind c)) σ
  as_object-Copies {n} p w c boxed h s = Copies-field {v = some w} c h s λ q σ' g s' r.
      Copies-pure (as_object-Returned boxed (Above n σ') q w (r.later (Grows-refl σ')))

module _ {L : Layout} {V : Values} {lib : Library L} {shown : Shown L V}
    (doc : IsDocumented lib shown) where
  pub Shows-Moves : Moves (Shows shown)
  Shows-Moves H H' (Object.nomad_cluster p) (nomad_cluster v) w h =
      (NomadCluster.Copier-copy doc).moves H H' p (some v) w h
  Shows-Moves H H' (Object.nomad_cluster_list p) (nomad_cluster_list v) w h =
      (NomadClusterList.Copier-copy doc).moves H H' p (some v) w h
  Shows-Moves H H' (Object.nomad_machine p) (nomad_machine v) w h =
      (NomadMachine.Copier-copy doc).moves H H' p (some v) w h
  Shows-Moves H H' (Object.nomad_machine_list p) (nomad_machine_list v) w h =
      (NomadMachineList.Copier-copy doc).moves H H' p (some v) w h
  Shows-Moves H H' (Object.nomad_machine_template p) (nomad_machine_template v) w h =
      (NomadMachineTemplate.Copier-copy doc).moves H H' p (some v) w h
  Shows-Moves H H' (Object.nomad_machine_template_list p) (nomad_machine_template_list v) w h =
      (NomadMachineTemplateList.Copier-copy doc).moves H H' p (some v) w h
  Shows-Moves H H' _ _ w h = elim h [ ]

  -- Every kind of object, anywhere in memory.
  pub deep_copy_object-Copies_any :
      (n : Address) (H : Region L) (o : Object) (v : ObjectValue V) (σ : Store L)
      → Shows shown H o v
      → Source n H σ
      → Copies n (Returned shown) v (deep_copy_object lib o) σ
  unfolding deep_copy_object NomadCluster.deep_copy_object NomadClusterList.deep_copy_object
      NomadMachine.deep_copy_object NomadMachineList.deep_copy_object
      NomadMachineTemplate.deep_copy_object NomadMachineTemplateList.deep_copy_object
  deep_copy_object-Copies_any n H (Object.nomad_cluster p) (nomad_cluster v) σ h s =
      as_object-Copies Kinds.cluster shown Object.nomad_cluster nomad_cluster p v
        (NomadCluster.Copier-copy doc) (λ H q w h. h) h s
  deep_copy_object-Copies_any n H (Object.nomad_cluster_list p) (nomad_cluster_list v) σ h s =
      as_object-Copies Kinds.cluster_list shown Object.nomad_cluster_list nomad_cluster_list p v
        (NomadClusterList.Copier-copy doc) (λ H q w h. h) h s
  deep_copy_object-Copies_any n H (Object.nomad_machine p) (nomad_machine v) σ h s =
      as_object-Copies Kinds.nomad_machine shown Object.nomad_machine nomad_machine p v
        (NomadMachine.Copier-copy doc) (λ H q w h. h) h s
  deep_copy_object-Copies_any n H (Object.nomad_machine_list p) (nomad_machine_list v) σ h s =
      as_object-Copies Kinds.nomad_machine_list shown Object.nomad_machine_list nomad_machine_list p
        v (NomadMachineList.Copier-copy doc) (λ H q w h. h) h s
  deep_copy_object-Copies_any n H (Object.nomad_machine_template p) (nomad_machine_template v) σ h
        s =
      as_object-Copies Kinds.template shown Object.nomad_machine_template nomad_machine_template p v
        (NomadMachineTemplate.Copier-copy doc) (λ H q w h. h) h s
  deep_copy_object-Copies_any n H (Object.nomad_machine_template_list p)
        (nomad_machine_template_list v) σ h s =
      as_object-Copies Kinds.template_list shown Object.nomad_machine_template_list
        nomad_machine_template_list p v (NomadMachineTemplateList.Copier-copy doc) (λ H q w h. h) h
        s
  deep_copy_object-Copies_any n H _ _ σ h s = elim h [ ]
