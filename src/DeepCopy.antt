-- ===== src/DeepCopy.antt =====
-- The generated deep copies, api/v1alpha3/zz_generated.deepcopy.go, on an explicit memory: a pointer,
-- a slice and a map are addresses, so that what a copy shares with its original can be seen.
pub mod Structs
pub mod Memory
pub mod Kinds
pub mod Rules
pub mod Library
pub mod Object
pub mod ApiEndpoint
pub mod Network
pub mod Machine
pub mod NomadClusterSpec
pub mod NomadClusterStatus
pub mod NomadCluster
pub mod NomadClusterList
pub mod NomadMachineSpec
pub mod NomadMachineStatus
pub mod NomadMachine
pub mod NomadMachineList
pub mod NomadMachineTemplateResource
pub mod NomadMachineTemplateSpec
pub mod NomadMachineTemplate
pub mod NomadMachineTemplateList
pub mod Dispatch
