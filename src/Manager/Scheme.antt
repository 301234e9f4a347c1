-- ===== src/Manager/Scheme.antt =====
-- The registration of the provider's types: api/v1alpha3/groupversion_info.go, the `init` functions
-- of api/v1alpha3/nomadcluster_types.go, nomadmachine_types.go and nomadmachinetemplate_types.go,
-- and that of main.go.
use mathlib.Core.Path.{subst}
use cluster_api_provider_nom.Base.{◌≡◌, refl, String, Option, List, [], ◌∷◌, ◌++◌, All}
use cluster_api_provider_nom.World.Error.{Error}
use cluster_api_provider_nom.DeepCopy.Object.{Object}

pub record GroupVersion : Type 0 where
  pub group : String
  pub version : String

abbrev pub group_version : GroupVersion
group_version = record { group = "infrastructure.cluster.x-k8s.io"; version = "v1alpha3" }

-- runtime.Scheme, controller-runtime's scheme.Builder, and the types that client-go and Cluster API
-- add. A Go type is its name.
pub record Schemes : Type 1 where
  pub Scheme : Type 0
  pub Builder : Type 0
  pub new_builder : GroupVersion → Builder
  pub register : Builder → List String → Builder
  pub add_to_scheme : Builder → Scheme → Option Error × Scheme
  pub client_go_add_to_scheme : Scheme → Option Error × Scheme
  pub cluster_api_add_to_scheme : Scheme → Option Error × Scheme
  pub Knows : Scheme → GroupVersion → String → Type 0
  pub version_of : Builder → GroupVersion
  pub kinds_of : Builder → List String

-- A builder collects types for one version and adds them all; nothing takes a type away.
pub record IsDocumented (S : Schemes) : Type 1 where
  pub version_of-new_builder : (v : GroupVersion) → S.version_of (S.new_builder v) ≡ v
  pub version_of-register :
      (b : S.Builder) (kinds : List String) → S.version_of (S.register b kinds) ≡ S.version_of b
  pub kinds_of-new_builder : (v : GroupVersion) → S.kinds_of (S.new_builder v) ≡ []
  pub kinds_of-register :
      (b : S.Builder) (kinds : List String)
      → S.kinds_of (S.register b kinds) ≡ S.kinds_of b ++ kinds
  pub add_to_scheme_adds :
      (b : S.Builder) (s : S.Scheme)
      → All (S.Knows (S.add_to_scheme b s).1 (S.version_of b)) (S.kinds_of b)
  pub cluster_api_keeps :
      (s : S.Scheme) (v : GroupVersion) (kind : String)
      → S.Knows s v kind
      → S.Knows (S.cluster_api_add_to_scheme s).1 v kind

module _ (S : Schemes) where
  -- `SchemeBuilder` as it is declared.
  abbrev pub scheme_builder : S.Builder
  scheme_builder = S.new_builder group_version

  unfoldable pub init_cluster : S.Builder → S.Builder
  init_cluster b = S.register b ("NomadCluster" ∷ "NomadClusterList" ∷ [])

  unfoldable pub init_machine : S.Builder → S.Builder
  init_machine b = S.register b ("NomadMachine" ∷ "NomadMachineList" ∷ [])

  unfoldable pub init_template : S.Builder → S.Builder
  init_template b = S.register b ("NomadMachineTemplate" ∷ "NomadMachineTemplateList" ∷ [])

  -- A package's `init` functions run in the order of its files' names.
  abbrev pub package_builder : S.Builder
  package_builder = init_template (init_machine (init_cluster scheme_builder))

  -- `init` of main.go: the errors are dropped.
  unfoldable pub main_init : S.Scheme → S.Scheme
  main_init s =
      let s1 = (S.client_go_add_to_scheme s).1 in
      let s2 = (S.add_to_scheme package_builder s1).1 in (S.cluster_api_add_to_scheme s2).1

-- The Go type behind an object.
abbrev pub type_name : Object → String
type_name (Object.nomad_cluster p) = "NomadCluster"
type_name (Object.nomad_cluster_list p) = "NomadClusterList"
type_name (Object.nomad_machine p) = "NomadMachine"
type_name (Object.nomad_machine_list p) = "NomadMachineList"
type_name (Object.nomad_machine_template p) = "NomadMachineTemplate"
type_name (Object.nomad_machine_template_list p) = "NomadMachineTemplateList"

abbrev all_kinds : List String
all_kinds =
    "NomadCluster" ∷ "NomadClusterList" ∷ "NomadMachine" ∷ "NomadMachineList"
    ∷ "NomadMachineTemplate" ∷ "NomadMachineTemplateList" ∷ []

All-type_name : (P : String → Type 0) (o : Object) → All P all_kinds → P (type_name o)
All-type_name P (Object.nomad_cluster p) h = h.0
All-type_name P (Object.nomad_cluster_list p) h = h.1.0
All-type_name P (Object.nomad_machine p) h = h.1.1.0
All-type_name P (Object.nomad_machine_list p) h = h.1.1.1.0
All-type_name P (Object.nomad_machine_template p) h = h.1.1.1.1.0
All-type_name P (Object.nomad_machine_template_list p) h = h.1.1.1.1.1.0

module _ {S : Schemes} (doc : IsDocumented S) where
  kinds_of-package_builder : S.kinds_of (package_builder S) ≡ all_kinds
  unfolding init_cluster init_machine init_template
  kinds_of-package_builder =
      rw
        (
          doc.kinds_of-register, doc.kinds_of-register, doc.kinds_of-register,
          doc.kinds_of-new_builder,
        )
        refl

  version_of-package_builder : S.version_of (package_builder S) ≡ group_version
  unfolding init_cluster init_machine init_template
  version_of-package_builder =
      rw
        (
          doc.version_of-register, doc.version_of-register, doc.version_of-register,
          doc.version_of-new_builder,
        )
        refl

  -- Whatever scheme main.go starts from, its `init` leaves a scheme that knows the Go type of every
  -- object of the provider, the six that have a DeepCopyObject, under the provider's group and version.
  -- It is assumed of the libraries that a builder collects types for one version and adds them all,
  -- and that adding Cluster API's types takes none away.
  pub main_init-Knows :
      (o : Object) (s : S.Scheme) → S.Knows (main_init S s) group_version (type_name o)
  unfolding main_init
  main_init-Knows o s =
      let s1 = (S.client_go_add_to_scheme s).1 in
      let s2 = (S.add_to_scheme (package_builder S) s1).1 in
      let added : All (S.Knows s2 group_version) all_kinds =
        subst (All (S.Knows s2 group_version)) kinds_of-package_builder (
          subst (λ v. All (S.Knows s2 v) (S.kinds_of (package_builder S)))
            version_of-package_builder (doc.add_to_scheme_adds (package_builder S) s1)) in
      doc.cluster_api_keeps s2 group_version (type_name o)
        (All-type_name (S.Knows s2 group_version) o added)
