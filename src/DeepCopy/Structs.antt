-- ===== src/DeepCopy/Structs.antt =====
-- The structs of api/v1alpha3 with the references in them. One record serves twice: as the struct in
-- memory, where a reference is an address, and as its value, where a reference is what it leads to.
use cluster_api_provider_nom.Base.{ℕ, String, Bool, Option, List}
use cluster_api_provider_nom.Api.Meta.{MachineAddress}
use cluster_api_provider_nom.Api.NomadCluster.{ApiEndpoint}
use cluster_api_provider_nom.Api.NomadMachine.{MachineStatus}

-- `Ref A` is a pointer to an `A`, or a slice or a map of the elements of `A`; each may be nil. The
-- other four are structs of metav1 and of Cluster API.
pub record Shape : Type 1 where
  pub Ref : Type 0 → Type 0
  pub ObjectMeta : Type 0
  pub ListMeta : Type 0
  pub Condition : Type 0
  pub FailureDomainSpec : Type 0

-- metav1.TypeMeta: two texts.
pub record TypeMeta : Type 0 where
  pub kind : String
  pub api_version : String

-- `Machine` of types.go.
pub record Machine (S : Shape) : Type 0 where
  pub job_id : String
  pub deployment_id : String
  pub status : MachineStatus
  pub status_description : String
  pub addresses : S.Ref (List MachineAddress)

pub record Network : Type 0 where
  pub dns_name : String

pub record NomadClusterSpec (S : Shape) : Type 0 where
  pub control_plane_endpoint : ApiEndpoint
  pub failure_domains : S.Ref (List String)

pub record NomadClusterStatus (S : Shape) : Type 0 where
  pub ready : Bool
  pub network : Network
  pub failure_domains : S.Ref (List (String × S.FailureDomainSpec))
  pub conditions : S.Ref (List S.Condition)

pub record NomadCluster (S : Shape) : Type 0 where
  pub type_meta : TypeMeta
  pub meta : S.ObjectMeta
  pub spec : NomadClusterSpec S
  pub status : NomadClusterStatus S

pub record NomadClusterList (S : Shape) : Type 0 where
  pub type_meta : TypeMeta
  pub meta : S.ListMeta
  pub items : S.Ref (List (NomadCluster S))

pub record NomadMachineSpec (S : Shape) : Type 0 where
  pub failure_domain : S.Ref String
  pub provider_id : S.Ref String
  pub cpu : ℕ
  pub memory_mb : ℕ
  pub debug_vnc : S.Ref String
  pub image : String

-- `failure_reason` points to an `errors.MachineStatusError`, which is a text.
pub record NomadMachineStatus (S : Shape) : Type 0 where
  pub ready : Bool
  pub deployment_status : S.Ref MachineStatus
  pub status_description : S.Ref String
  pub dns_attached : Bool
  pub addresses : S.Ref (List MachineAddress)
  pub conditions : S.Ref (List S.Condition)
  pub failure_reason : S.Ref String
  pub failure_message : S.Ref String

pub record NomadMachine (S : Shape) : Type 0 where
  pub type_meta : TypeMeta
  pub meta : S.ObjectMeta
  pub spec : NomadMachineSpec S
  pub status : NomadMachineStatus S

pub record NomadMachineList (S : Shape) : Type 0 where
  pub type_meta : TypeMeta
  pub meta : S.ListMeta
  pub items : S.Ref (List (NomadMachine S))

pub record NomadMachineTemplateResource (S : Shape) : Type 0 where
  pub spec : NomadMachineSpec S

pub record NomadMachineTemplateSpec (S : Shape) : Type 0 where
  pub template : NomadMachineTemplateResource S

pub record NomadMachineTemplate (S : Shape) : Type 0 where
  pub type_meta : TypeMeta
  pub meta : S.ObjectMeta
  pub spec : NomadMachineTemplateSpec S

pub record NomadMachineTemplateList (S : Shape) : Type 0 where
  pub type_meta : TypeMeta
  pub meta : S.ListMeta
  pub items : S.Ref (List (NomadMachineTemplate S))

-- What the other projects' structs are: in memory, with the cells of their own that they lead to, and
-- as values.
pub record Layout : Type 1 where
  pub ObjectMeta : Type 0
  pub ListMeta : Type 0
  pub Condition : Type 0
  pub FailureDomainSpec : Type 0
  pub Hidden : Type 0

pub record Values : Type 1 where
  pub ObjectMeta : Type 0
  pub ListMeta : Type 0
  pub Condition : Type 0
  pub FailureDomainSpec : Type 0

abbrev pub Address : Type 0
Address = ℕ

abbrev pub stored : Layout → Shape
stored L = record {
  Ref = λ _. Option Address;
  ObjectMeta = L.ObjectMeta;
  ListMeta = L.ListMeta;
  Condition = L.Condition;
  FailureDomainSpec = L.FailureDomainSpec;
}

abbrev pub value : Values → Shape
value V = record {
  Ref = Option;
  ObjectMeta = V.ObjectMeta;
  ListMeta = V.ListMeta;
  Condition = V.Condition;
  FailureDomainSpec = V.FailureDomainSpec;
}
