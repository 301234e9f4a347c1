-- ===== src/Machine/Job.antt =====
-- The job that `DeployMachine` of pkg/nomad/machine/machine.go registers.
use cluster_api_provider_nom.Base.{String, ◌<>◌, Option, none, some, List, [], ◌∷◌, ◌++◌}
use cluster_api_provider_nom.World.Wire.{Template, Task, Job}
use cluster_api_provider_nom.Api.Meta.{Machine}
use cluster_api_provider_nom.Api.NomadMachine.{NomadMachine}
use cluster_api_provider_nom.Machine.Mac.{get_mac_address}

abbrev pub network_script : String
network_script = "/opt/spectrocloud/files/qemu-ifup"

abbrev pub repo_url : String
repo_url = "http://sc-pcg.sc"

-- The domain of the NomadMachine, or else that of the Machine.
unfoldable pub failure_domain : Machine → NomadMachine → Option String
failure_domain m nm = elim nm.spec.failure_domain [ some d ↦ some d | none ↦ m.failure_domain ]

user_data_template : String → Template
user_data_template user_data = record {
  dest_path = "local/boot/user-data";
  embedded_tmpl = user_data;
  left_delim = some "{{**{{";
  right_delim = some "}}**}}";
}

meta_data_template : Machine → Template
meta_data_template m = record {
  dest_path = "local/boot/meta-data";
  embedded_tmpl = "instance-id: " <> (m.meta.name <> ("\nlocal-hostname: " <> m.meta.name));
  left_delim = none;
  right_delim = none;
}

qemu_args : Machine → NomadMachine → List String
unfolding get_mac_address
qemu_args m nm =
    let fixed : List String =
      "-nodefaults"
      ∷ "-machine"
      ∷ "type=q35"
      ∷ "-vga"
      ∷ "std"
      ∷ "-nic"
      ∷ ("tap,script="
          <> (network_script <> (",downscript=no,mac=" <> get_mac_address m.meta.name)))
      ∷ "-drive"
      ∷ "file=fat:rw:/opt/nomad/data/alloc/${NOMAD_ALLOC_ID}/${NOMAD_TASK_NAME}/local/boot,file.label=cidata,format=raw,media=disk"
      ∷ [] in
    elim nm.spec.debug_vnc [ some vnc ↦ fixed ++ ("-vnc" ∷ vnc ∷ []) | none ↦ fixed ]

task : Machine → NomadMachine → String → Task
unfolding user_data_template meta_data_template qemu_args
task m nm user_data = record {
  task_name = "t1";
  driver = "qemu";
  image_path = "local/" <> (nm.spec.image <> ".qcow2");
  accelerator = "kvm";
  args = qemu_args m nm;
  cores = nm.spec.cpu;
  memory_mb = nm.spec.memory_mb;
  artifacts = (repo_url <> ("/" <> (nm.spec.image <> ".qcow2"))) ∷ [];
  templates = user_data_template user_data ∷ meta_data_template m ∷ [];
}

unfoldable pub make_job : Machine → NomadMachine → String → String → Job
unfolding task
make_job m nm user_data datacenter = record {
  region = "global";
  namespace = "default";
  job_name = m.meta.name;
  id = m.meta.name;
  datacenters = datacenter ∷ [];
  task_groups = record { group_name = "g2"; tasks = task m nm user_data ∷ [] } ∷ [];
}
