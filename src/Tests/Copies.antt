-- ===== src/Tests/Copies.antt =====
-- A list of one NomadMachine in memory, and the theorems on deep copies at it. The machine's
-- metadata have a map of labels behind a pointer, and two of its fields point to the same text.
use cluster_api_provider_nom.Base.{
  ◌≡◌, refl, String, true, false, Option, none, some, List, [], ◌∷◌, arith, zero, suc,
}
use cluster_api_provider_nom.Api.Meta.{Condition, is_true, no_severity}
use cluster_api_provider_nom.DeepCopy.NomadMachine
use cluster_api_provider_nom.DeepCopy.NomadMachineSpec
use cluster_api_provider_nom.DeepCopy.NomadMachineStatus
use cluster_api_provider_nom.DeepCopy.NomadMachineList
use cluster_api_provider_nom.DeepCopy.Structs
use cluster_api_provider_nom.DeepCopy.Structs.{Address, Layout, Values, TypeMeta, stored, value}
use cluster_api_provider_nom.DeepCopy.Memory
use cluster_api_provider_nom.DeepCopy.Memory.{Cell, Store, pure, new_copy}
use cluster_api_provider_nom.DeepCopy.Kinds
use cluster_api_provider_nom.DeepCopy.Library.{Library, Shown, IsDocumented}
use cluster_api_provider_nom.DeepCopy.Object.{Object}
use cluster_api_provider_nom.DeepCopy.Rules.{Copies, Whole}
use cluster_api_provider_nom.DeepCopy.Rules.Elements.{Equal, Copier-plain}
use cluster_api_provider_nom.DeepCopy.Rules.New.{Refers, Copier-new}
use cluster_api_provider_nom.DeepCopy.Dispatch
use cluster_api_provider_nom.DeepCopy.Dispatch.{ObjectValue, Shows, Returned, deep_copy_object}
use cluster_api_provider_nom.DeepCopy.Dispatch.SameKind.{SameKind, deep_copy_object-SameKind}
use cluster_api_provider_nom.DeepCopy.Dispatch.Separate.{
  deep_copy_object-Copies, deep_copy_object_separates, write_all,
}

abbrev Labels : Type 0
Labels = List (String × String)

abbrev layout : Layout
layout = record {
  ObjectMeta = Option Address;
  ListMeta = String;
  Condition = Condition;
  FailureDomainSpec = String;
  Hidden = Labels;
}

abbrev values : Values
values = record {
  ObjectMeta = Option Labels;
  ListMeta = String;
  Condition = Condition;
  FailureDomainSpec = String;
}

abbrev lib : Library layout
lib = record {
  copy_object_meta = new_copy Kinds.hidden pure;
  copy_list_meta = pure;
  copy_condition = pure;
  copy_failure_domain_spec = pure;
}

abbrev shown : Shown layout values
shown = record {
  object_meta = Refers Kinds.hidden Equal;
  list_meta = Equal;
  condition = Equal;
  failure_domain_spec = Equal;
}

doc : IsDocumented lib shown
doc = record {
  object_meta = Copier-new Copier-plain Kinds.hidden;
  list_meta = Copier-plain;
  condition = Copier-plain;
  failure_domain_spec = Copier-plain;
}

abbrev ready : Condition
ready = record {
  kind = "Ready";
  status = is_true;
  severity = no_severity;
  reason = "";
  message = "";
}

abbrev types : TypeMeta
types = record { kind = "NomadMachine"; api_version = "v1alpha3" }

abbrev machine : Structs.NomadMachine (stored layout)
machine = record {
  type_meta = types;
  meta = some 0;
  spec = record {
    failure_domain = some 1;
    provider_id = none;
    cpu = 2;
    memory_mb = 512;
    debug_vnc = some 1;
    image = "ubuntu";
  };
  status = record {
    ready = true;
    deployment_status = some 1;
    status_description = none;
    dns_attached = false;
    addresses = none;
    conditions = some 2;
    failure_reason = none;
    failure_message = none;
  };
}

abbrev machine_value : Structs.NomadMachine (value values)
machine_value = record {
  type_meta = types;
  meta = some (("app", "nomad") ∷ []);
  spec = record {
    failure_domain = some "one";
    provider_id = none;
    cpu = 2;
    memory_mb = 512;
    debug_vnc = some "one";
    image = "ubuntu";
  };
  status = record {
    ready = true;
    deployment_status = some "one";
    status_description = none;
    dns_attached = false;
    addresses = none;
    conditions = some (ready ∷ []);
    failure_reason = none;
    failure_message = none;
  };
}

abbrev machines : Structs.NomadMachineList (stored layout)
machines = record { type_meta = types; meta = "7"; items = some 3 }

abbrev machines_value : Structs.NomadMachineList (value values)
machines_value = record { type_meta = types; meta = "7"; items = some (machine_value ∷ []) }

abbrev cells : Address → Option (Cell layout)
cells zero = some (Memory.hidden (("app", "nomad") ∷ []))
cells (suc zero) = some (Memory.text "one")
cells (suc (suc zero)) = some (Memory.conditions (ready ∷ []))
cells (suc (suc (suc zero))) = some (Memory.nomad_machines (machine ∷ []))
cells (suc (suc (suc (suc zero)))) = some (Memory.nomad_machine_list machines)
cells (suc (suc (suc (suc (suc n))))) = none

abbrev memory : Store layout
memory = record { next = 5; cells = cells }

machine-Shows : NomadMachine.Shows shown (Whole memory) machine machine_value
machine-Shows = record {
  meta = (_, (refl, omega arith), refl);
  spec = record {
    failure_domain = ("one", (refl, omega arith), refl);
    provider_id = tt;
    debug_vnc = ("one", (refl, omega arith), refl);
    cpu = refl;
    memory_mb = refl;
    image = refl;
  };
  status = record {
    deployment_status = ("one", (refl, omega arith), refl);
    status_description = tt;
    addresses = tt;
    conditions = (ready ∷ [], (refl, omega arith), (refl, tt));
    failure_reason = tt;
    failure_message = tt;
    ready = refl;
    dns_attached = refl;
  };
  type_meta = refl;
}

abbrev original : Object
original = Object.nomad_machine_list (some 4)

abbrev original_value : ObjectValue values
original_value = Dispatch.nomad_machine_list machines_value

original-Shows : Shows shown (Whole memory) original original_value
original-Shows = (
  machines,
  (refl, omega arith),
  record {
    meta = refl;
    items = (machine ∷ [], (refl, omega arith), (machine-Shows, tt));
    type_meta = refl;
  },
)

deep_copy_object-Copies_example :
    Copies 5 (Returned shown) original_value (deep_copy_object lib original) memory
deep_copy_object-Copies_example =
    deep_copy_object-Copies doc original original_value memory original-Shows

-- The new list stands behind 5, and its array behind 6; the machine's parts follow: the labels, two
-- texts of the specification, where the original shares one, one text of the status, the conditions.
abbrev copy : Object
copy = Object.nomad_machine_list (some 5)

-- The memory after the copy.
copied : Store layout
unfolding deep_copy_object NomadMachineList.deep_copy_object NomadMachineList.deep_copy
    NomadMachineList.deep_copy_into NomadMachine.deep_copy_into NomadMachineSpec.deep_copy_into
    NomadMachineStatus.deep_copy_into new_copy Memory.each
copied = elim (deep_copy_object lib original memory) [ none ↦ memory | some r ↦ r.1 ]

original-copied : deep_copy_object lib original memory ≡ some (some copy, copied)
unfolding copied
original-copied = refl

copied_next : copied.next ≡ 12
unfolding copied
copied_next = refl

-- The shared text and the array of the original are overwritten, and in the copy the text of the
-- provider's domain.
abbrev old : List (Address × Cell layout)
old = (1, Memory.text "two") ∷ (3, Memory.nomad_machines []) ∷ []

abbrev new : List (Address × Cell layout)
new = (8, Memory.text "three") ∷ (6, Memory.nomad_machines []) ∷ []

deep_copy_object_separates_example :
    Shows shown (Whole (write_all old copied)) copy original_value
    × Shows shown (Whole (write_all new copied)) original original_value
deep_copy_object_separates_example =
    deep_copy_object_separates doc original original_value memory old new original-Shows
      original-copied (omega arith, (omega arith, tt)) (omega arith, (omega arith, tt))

deep_copy_object-SameKind_example : SameKind original memory (some copy) copied
deep_copy_object-SameKind_example = deep_copy_object-SameKind lib original memory original-copied
