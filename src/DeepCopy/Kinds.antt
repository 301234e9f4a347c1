-- ===== src/DeepCopy/Kinds.antt =====
-- The types that a cell of memory can hold.
use cluster_api_provider_nom.Base.{refl, String, none, some, List}
use cluster_api_provider_nom.Api.Meta.{MachineAddress}
use cluster_api_provider_nom.Api.NomadCluster.{ApiEndpoint}
use cluster_api_provider_nom.DeepCopy.Structs.{
  Layout, Machine, Network, NomadCluster, NomadClusterList, NomadClusterSpec, NomadClusterStatus,
  NomadMachine, NomadMachineList, NomadMachineSpec, NomadMachineStatus, NomadMachineTemplate,
  NomadMachineTemplateList, NomadMachineTemplateResource, NomadMachineTemplateSpec, stored,
}
use cluster_api_provider_nom.DeepCopy.Memory
use cluster_api_provider_nom.DeepCopy.Memory.{Kind}

module _ {L : Layout} where
  abbrev pub text : Kind L (String)
  text = record {
    put = Memory.text;
    get = λ c. elim c [ Memory.text x ↦ some x | _ ↦ none ];
    get-put = λ x. refl;
  }

  abbrev pub texts : Kind L (List String)
  texts = record {
    put = Memory.texts;
    get = λ c. elim c [ Memory.texts x ↦ some x | _ ↦ none ];
    get-put = λ x. refl;
  }

  abbrev pub machine_addresses : Kind L (List MachineAddress)
  machine_addresses = record {
    put = Memory.machine_addresses;
    get = λ c. elim c [ Memory.machine_addresses x ↦ some x | _ ↦ none ];
    get-put = λ x. refl;
  }

  abbrev pub conditions : Kind L (List L.Condition)
  conditions = record {
    put = Memory.conditions;
    get = λ c. elim c [ Memory.conditions x ↦ some x | _ ↦ none ];
    get-put = λ x. refl;
  }

  abbrev pub failure_domains : Kind L (List (String × L.FailureDomainSpec))
  failure_domains = record {
    put = Memory.failure_domains;
    get = λ c. elim c [ Memory.failure_domains x ↦ some x | _ ↦ none ];
    get-put = λ x. refl;
  }

  abbrev pub api_endpoint : Kind L (ApiEndpoint)
  api_endpoint = record {
    put = Memory.api_endpoint;
    get = λ c. elim c [ Memory.api_endpoint x ↦ some x | _ ↦ none ];
    get-put = λ x. refl;
  }

  abbrev pub machine : Kind L (Machine (stored L))
  machine = record {
    put = Memory.machine;
    get = λ c. elim c [ Memory.machine x ↦ some x | _ ↦ none ];
    get-put = λ x. refl;
  }

  abbrev pub network : Kind L (Network)
  network = record {
    put = Memory.network;
    get = λ c. elim c [ Memory.network x ↦ some x | _ ↦ none ];
    get-put = λ x. refl;
  }

  abbrev pub cluster_spec : Kind L (NomadClusterSpec (stored L))
  cluster_spec = record {
    put = Memory.cluster_spec;
    get = λ c. elim c [ Memory.cluster_spec x ↦ some x | _ ↦ none ];
    get-put = λ x. refl;
  }

  abbrev pub cluster_status : Kind L (NomadClusterStatus (stored L))
  cluster_status = record {
    put = Memory.cluster_status;
    get = λ c. elim c [ Memory.cluster_status x ↦ some x | _ ↦ none ];
    get-put = λ x. refl;
  }

  abbrev pub cluster : Kind L (NomadCluster (stored L))
  cluster = record {
    put = Memory.cluster;
    get = λ c. elim c [ Memory.cluster x ↦ some x | _ ↦ none ];
    get-put = λ x. refl;
  }

  abbrev pub clusters : Kind L (List (NomadCluster (stored L)))
  clusters = record {
    put = Memory.clusters;
    get = λ c. elim c [ Memory.clusters x ↦ some x | _ ↦ none ];
    get-put = λ x. refl;
  }

  abbrev pub cluster_list : Kind L (NomadClusterList (stored L))
  cluster_list = record {
    put = Memory.cluster_list;
    get = λ c. elim c [ Memory.cluster_list x ↦ some x | _ ↦ none ];
    get-put = λ x. refl;
  }

  abbrev pub machine_spec : Kind L (NomadMachineSpec (stored L))
  machine_spec = record {
    put = Memory.machine_spec;
    get = λ c. elim c [ Memory.machine_spec x ↦ some x | _ ↦ none ];
    get-put = λ x. refl;
  }

  abbrev pub machine_status : Kind L (NomadMachineStatus (stored L))
  machine_status = record {
    put = Memory.machine_status;
    get = λ c. elim c [ Memory.machine_status x ↦ some x | _ ↦ none ];
    get-put = λ x. refl;
  }

  abbrev pub nomad_machine : Kind L (NomadMachine (stored L))
  nomad_machine = record {
    put = Memory.nomad_machine;
    get = λ c. elim c [ Memory.nomad_machine x ↦ some x | _ ↦ none ];
    get-put = λ x. refl;
  }

  abbrev pub nomad_machines : Kind L (List (NomadMachine (stored L)))
  nomad_machines = record {
    put = Memory.nomad_machines;
    get = λ c. elim c [ Memory.nomad_machines x ↦ some x | _ ↦ none ];
    get-put = λ x. refl;
  }

  abbrev pub nomad_machine_list : Kind L (NomadMachineList (stored L))
  nomad_machine_list = record {
    put = Memory.nomad_machine_list;
    get = λ c. elim c [ Memory.nomad_machine_list x ↦ some x | _ ↦ none ];
    get-put = λ x. refl;
  }

  abbrev pub template_resource : Kind L (NomadMachineTemplateResource (stored L))
  template_resource = record {
    put = Memory.template_resource;
    get = λ c. elim c [ Memory.template_resource x ↦ some x | _ ↦ none ];
    get-put = λ x. refl;
  }

  abbrev pub template_spec : Kind L (NomadMachineTemplateSpec (stored L))
  template_spec = record {
    put = Memory.template_spec;
    get = λ c. elim c [ Memory.template_spec x ↦ some x | _ ↦ none ];
    get-put = λ x. refl;
  }

  abbrev pub template : Kind L (NomadMachineTemplate (stored L))
  template = record {
    put = Memory.template;
    get = λ c. elim c [ Memory.template x ↦ some x | _ ↦ none ];
    get-put = λ x. refl;
  }

  abbrev pub templates : Kind L (List (NomadMachineTemplate (stored L)))
  templates = record {
    put = Memory.templates;
    get = λ c. elim c [ Memory.templates x ↦ some x | _ ↦ none ];
    get-put = λ x. refl;
  }

  abbrev pub template_list : Kind L (NomadMachineTemplateList (stored L))
  template_list = record {
    put = Memory.template_list;
    get = λ c. elim c [ Memory.template_list x ↦ some x | _ ↦ none ];
    get-put = λ x. refl;
  }

  abbrev pub hidden : Kind L (L.Hidden)
  hidden = record {
    put = Memory.hidden;
    get = λ c. elim c [ Memory.hidden x ↦ some x | _ ↦ none ];
    get-put = λ x. refl;
  }
