-- ===== src/Footprint/OnePatch.antt =====
-- The one patch of a run of `Reconcile`.
use cluster_api_provider_nom.Base.{ℕ, String, List, [], ◌∷◌, ◌≡◌, ◌⊎◌, inl, inr, refl, All}
use cluster_api_provider_nom.World.Kit.{Kit}
use cluster_api_provider_nom.World.Wire.{
  Call, get_object, get_owner, patch_nomad_machine, patch_nomad_cluster,
}
use cluster_api_provider_nom.World.Remote.{World}
use cluster_api_provider_nom.World.Monad.{Sys, finally, ◌>>=◌}
use cluster_api_provider_nom.World.Keeps.{Keeps}
use cluster_api_provider_nom.World.Leads.{Leads, Weaker, leads_rules}
use cluster_api_provider_nom.Api.Meta.{ObjectKey, ObjectReference, Machine, Cluster}
use cluster_api_provider_nom.Scope.ClusterScope.{
  ClusterScope, new_cluster_scope, close_cluster_scope,
}
use cluster_api_provider_nom.Scope.MachineScope.{
  MachineScope, new_machine_scope, close_machine_scope,
}
use cluster_api_provider_nom.Controllers.ClusterReconcile
use cluster_api_provider_nom.Controllers.ClusterReconcile.{reconcile_cluster, run_cluster_scope}
use cluster_api_provider_nom.Controllers.MachineReconcile.{
  reconcile_infra, reconcile_owned, reconcile_machine, run_machine_scope, reconcile,
}
use cluster_api_provider_nom.Footprint.{Frame, frame_rules}
use cluster_api_provider_nom.Footprint.Machine.{QuietCall, JobCall, Phases}
use cluster_api_provider_nom.Footprint.Runs.{reconcile_machine-Leads}
use cluster_api_provider_nom.Footprint.Cluster.{ReadCall, reconcile_cluster-Keeps}

-- Reads of objects of the management cluster, by key or by owner.
abbrev pub Lookup : Call → Type 0
Lookup (get_object _ _) = Unit
Lookup (get_owner _ _) = Unit
Lookup _ = ⊥

Frame-All : {S : Type 0} (C : Call → Type 0) → Frame C (λ (s : Sys S). All C s.calls)
Frame-All C = record {
  on_call = λ s w c own h. (own, h);
  on_silent = λ s w h. h;
  on_objects = λ s m k h. h;
}

All-map : {C D : Call → Type 0} → ((c : Call) → C c → D c) → (cs : List Call) → All C cs → All D cs
All-map sub [] h = tt
All-map sub (c ∷ cs) h = (sub c h.0, All-map sub cs h.1)

Lookup-ReadCall : (c : Call) → Lookup c → ReadCall c
Lookup-ReadCall (get_object _ _) h = tt
Lookup-ReadCall (get_owner _ _) h = tt
Lookup-ReadCall _ h = elim h [ ]

Lookup-QuietCall : (s : MachineScope) (c : Call) → Lookup c → QuietCall s c
Lookup-QuietCall s (get_object _ _) h = tt
Lookup-QuietCall s (get_owner _ _) h = tt
Lookup-QuietCall s _ h = elim h [ ]

-- The run's last call patches the NomadCluster that it holds, and all earlier calls only read.
pub record IsClusterPatched {S : Type 0} (t : Sys S) : Type 0 where
  pub earlier : List Call
  pub calls : t.calls ≡ patch_nomad_cluster t.nomad_cluster ∷ earlier
  pub reads : All ReadCall earlier

-- Quiet calls for one machine, among which at most one call for its job stands.
pub data AtMostOneJob (s : MachineScope) : List Call → Type 0 where
  no_job : {cs : List Call} → All (QuietCall s) cs → AtMostOneJob s cs
  one_job :
      {c : Call} {cs : List Call} → JobCall s c → All (QuietCall s) cs → AtMostOneJob s (c ∷ cs)
  later : {c : Call} {cs : List Call} → QuietCall s c → AtMostOneJob s cs → AtMostOneJob s (c ∷ cs)

-- The run's last call patches the NomadMachine that it holds, and all earlier calls are those
-- for one machine, at most one of them for its job.
pub record IsMachinePatched {S : Type 0} (t : Sys S) : Type 0 where
  pub scope : MachineScope
  pub earlier : List Call
  pub calls : t.calls ≡ patch_nomad_machine t.nomad_machine ∷ earlier
  pub own : AtMostOneJob scope earlier

module _ (K : Kit) (W : World) where
  abbrev Looked : Sys W.State → Type 0
  Looked t = All Lookup t.calls

  looked : Frame Lookup Looked
  looked = Frame-All Lookup

  abbrev ClusterDone : Sys W.State → Type 0
  ClusterDone t = Looked t ⊎ IsClusterPatched t

  cluster_weaker : Weaker Looked ClusterDone
  cluster_weaker = record { at = λ s h. inl h }

  run_cluster_scope-Leads : (s : ClusterScope) → Leads Looked ClusterDone (run_cluster_scope K W s)
  unfolding run_cluster_scope close_cluster_scope finally ◌>>=◌
  run_cluster_scope-Leads s = record {
    at = λ t h. inr (record {
      earlier = (reconcile_cluster K W s t).1.calls;
      calls = refl;
      reads =
          (reconcile_cluster-Keeps K W (Frame-All ReadCall) (λ c u k. k) s).at t
            (All-map Lookup-ReadCall t.calls h);
    });
  }

  cluster_scope-Keeps : (c : Cluster) (name : String) → Keeps Looked (new_cluster_scope K W c name)
  unfolding new_cluster_scope
  cluster_scope-Keeps c name = search (frame_rules, looked)

  reconcile_cluster-Leads :
      (key : ObjectKey) → Leads Looked ClusterDone (ClusterReconcile.reconcile K W key)
  unfolding ClusterReconcile.reconcile
  reconcile_cluster-Leads key =
      search
        (
          leads_rules, frame_rules, cluster_weaker, looked, tt, cluster_scope-Keeps,
          run_cluster_scope-Leads,
        )
        depth 14

  abbrev MachineDone : Sys W.State → Type 0
  MachineDone t = Looked t ⊎ IsMachinePatched t

  machine_weaker : Weaker Looked MachineDone
  machine_weaker = record { at = λ s h. inl h }

  job_phases :
      (s : MachineScope)
      → Phases s (λ (t : Sys W.State). All (QuietCall s) t.calls) (λ t. AtMostOneJob s t.calls)
  job_phases s = record {
    before = Frame-All (QuietCall s);
    after = record {
      on_call = λ t w c own h. later own h;
      on_silent = λ t w h. h;
      on_objects = λ t m k h. h;
    };
    on_job = λ t w c own h. one_job own h;
    no_job = record { at = λ t h. no_job h };
  }

  run_machine_scope-Leads :
      (fuel : ℕ) (s : MachineScope) → Leads Looked MachineDone (run_machine_scope K W fuel s)
  unfolding run_machine_scope close_machine_scope finally ◌>>=◌
  run_machine_scope-Leads fuel s = record {
    at = λ t h. inr (record {
      scope = s;
      earlier = (reconcile_machine K W fuel s t).1.calls;
      calls = refl;
      own =
          (reconcile_machine-Leads K W s (job_phases s) fuel).at t
            (All-map (Lookup-QuietCall s) t.calls h);
    });
  }

  machine_scope-Keeps :
      (m : Machine) (c : Cluster) (cs : ClusterScope) → Keeps Looked (new_machine_scope K W m c cs)
  unfolding new_machine_scope
  machine_scope-Keeps m c cs = search (frame_rules, looked)

  infra-Leads :
      (fuel : ℕ) (m : Machine) (c : Cluster) (ref : ObjectReference)
      → Leads Looked MachineDone (reconcile_infra K W fuel m c ref)
  unfolding reconcile_infra
  infra-Leads fuel m c ref =
      search
        (
          leads_rules, frame_rules, machine_weaker, looked, tt, cluster_scope-Keeps,
          machine_scope-Keeps, run_machine_scope-Leads,
        )
        depth 16

  owned-Leads :
      (fuel : ℕ) (m : Machine) (c : Cluster)
      → Leads Looked MachineDone (reconcile_owned K W fuel m c)
  unfolding reconcile_owned
  owned-Leads fuel m c = search (leads_rules, frame_rules, machine_weaker, infra-Leads) depth 10

  reconcile-Leads : (fuel : ℕ) (key : ObjectKey) → Leads Looked MachineDone (reconcile K W fuel key)
  unfolding reconcile
  reconcile-Leads fuel key =
      search (leads_rules, frame_rules, machine_weaker, looked, tt, owned-Leads) depth 14

-- A run of the cluster controller's Reconcile that starts with no call made, however it ends, has
-- only looked objects up, or it has patched the NomadCluster that it holds once, by its last call,
-- and all its earlier calls are reads.
pub reconcile-IsClusterPatched :
    (K : Kit) (W : World) (key : ObjectKey) (sys : Sys W.State)
    → sys.calls ≡ []
    → let t = (ClusterReconcile.reconcile K W key sys).1 in All Lookup t.calls ⊎ IsClusterPatched t
reconcile-IsClusterPatched K W key sys none_yet =
    (reconcile_cluster-Leads K W key).at sys (rw none_yet tt)

-- A run of the machine controller's Reconcile that starts with no call made, however it ends, has
-- only looked objects up, or it has worked for one machine. Then its last call, and no other,
-- patches the NomadMachine that it holds; at most one call before is for a job, and it registers
-- the machine's own job, or deregisters and purges it; Consul gets no request but those for the
-- machine's service; no node but the machine's is read or patched; each pause takes one second;
-- and no cluster is patched.
pub reconcile-IsMachinePatched :
    (K : Kit) (W : World) (fuel : ℕ) (key : ObjectKey) (sys : Sys W.State)
    → sys.calls ≡ []
    → let t = (reconcile K W fuel key sys).1 in All Lookup t.calls ⊎ IsMachinePatched t
reconcile-IsMachinePatched K W fuel key sys none_yet =
    (reconcile-Leads K W fuel key).at sys (rw none_yet tt)
