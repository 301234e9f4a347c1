-- ===== src/Api/Meta.antt =====
-- The fields that the provider reads of objects which other projects define: metav1.ObjectMeta,
-- Cluster API's Machine and Cluster, and conditions. A pointer is an `Option`.
use cluster_api_provider_nom.Base.{ℕ, String, Bool, Option, List}

-- An object's deletion timestamp, in seconds; `none` is the nil pointer.
abbrev pub Timestamp : Type 0
Timestamp = Option ℕ

pub record ObjectMeta : Type 0 where
  pub name : String
  pub namespace : String
  pub uid : String
  pub labels : List (String × String)
  pub finalizers : List String
  pub deletion_timestamp : Timestamp

pub record ObjectKey : Type 0 where
  pub key_namespace : String
  pub key_name : String

-- `util.ObjectKey`.
abbrev pub object_key : ObjectMeta → ObjectKey
object_key m = record { key_namespace = m.namespace; key_name = m.name }

-- clusterv1.MachineAddress.
pub record MachineAddress : Type 0 where
  pub kind : String
  pub address : String

abbrev pub external_dns : String
external_dns = "ExternalDNS"

-- corev1.ObjectReference.
pub record ObjectReference : Type 0 where
  pub ref_namespace : String
  pub ref_name : String

-- clusterv1.Machine: its metadata, and of its spec what the provider reads.
pub record Machine : Type 0 where
  pub meta : ObjectMeta
  pub failure_domain : Option String
  pub data_secret_name : Option String
  pub infrastructure_ref : ObjectReference

-- clusterv1.Cluster. `api_server_port` is `none` where the cluster network or its port is nil.
pub record Cluster : Type 0 where
  pub meta : ObjectMeta
  pub infrastructure_ref : Option ObjectReference
  pub network : Option (Option ℕ)
  pub infrastructure_ready : Bool
  pub control_plane_initialized : Bool

pub data Severity : Type 0 where
  error_severity warning_severity info_severity no_severity : Severity

-- corev1.ConditionStatus.
pub data Status : Type 0 where
  is_true is_false is_unknown : Status

pub record Condition : Type 0 where
  pub kind : String
  pub status : Status
  pub severity : Severity
  pub reason : String
  pub message : String

-- The list of the conditions of one object.
abbrev pub ConditionList : Type 0
ConditionList = List Condition
