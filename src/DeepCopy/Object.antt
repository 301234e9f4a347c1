-- ===== src/DeepCopy/Object.antt =====
-- runtime.Object: a pointer, which may be nil, to one of the six kinds of object.
use cluster_api_provider_nom.Base.{Option, none, some}
use cluster_api_provider_nom.DeepCopy.Structs.{Address}

pub data Object : Type 0 where
  nomad_cluster : Option Address → Object
  nomad_cluster_list : Option Address → Object
  nomad_machine : Option Address → Object
  nomad_machine_list : Option Address → Object
  nomad_machine_template : Option Address → Object
  nomad_machine_template_list : Option Address → Object

-- `if c := in.DeepCopy(); c != nil { return c }`, and else nil.
abbrev pub as_object : (Option Address → Object) → Option Address → Option Object
as_object kind none = none
as_object kind (some p) = some (kind (some p))
