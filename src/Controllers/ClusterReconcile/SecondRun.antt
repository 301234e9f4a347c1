-- ===== src/Controllers/ClusterReconcile/SecondRun.antt =====
-- Two runs in a row on a NomadCluster that is not deleted.
use cluster_api_provider_nom.Base.{◌<>◌, true, none, some, List, ◌∷◌, ◌≡◌, refl, ap}
use cluster_api_provider_nom.World.Kit.{Kit, IsLawful}
use cluster_api_provider_nom.World.Wire.{Call, get_object, get_owner, patch_nomad_cluster}
use cluster_api_provider_nom.World.Error.{ok}
use cluster_api_provider_nom.Api.Meta.{ObjectKey, Cluster}
use cluster_api_provider_nom.World.Remote.{World}
use cluster_api_provider_nom.World.Monad.{
  Outcome, returned, panicked, unfinished, Sys, finally, ◌>>=◌,
}
use cluster_api_provider_nom.World.Ensures.{Ends}
use cluster_api_provider_nom.Api.NomadCluster.{NomadCluster, cluster_finalizer}
use cluster_api_provider_nom.Scope.ClusterScope.{
  ClusterScope, api_server_port, new_cluster_scope, close_cluster_scope, summarize,
}
use cluster_api_provider_nom.Controllers.Reply.{Reply, finished}
use cluster_api_provider_nom.Controllers.ClusterReconcile.{
  set_failure_domains, reconcile_cluster, run_cluster_scope, reconcile,
}
use cluster_api_provider_nom.Controllers.ClusterReconcile.Endpoint.{
  IsServed, reconcile_normal-IsServed,
}
use cluster_api_provider_nom.Controllers.ClusterReconcile.Finalizer.{
  run_cluster_scope-has_finalizer,
}

-- What the cluster's object shows once its endpoint is known.
pub record ShowsEndpoint (owner : Cluster) (c : NomadCluster) : Type 0 where
  pub ready : c.status.ready ≡ true
  pub dns_name : c.status.dns_name ≡ owner.meta.name <> ".service.consul"
  pub host : c.spec.control_plane_endpoint.host ≡ owner.meta.name <> ".service.consul"
  pub port : c.spec.control_plane_endpoint.port ≡ api_server_port owner

module _ (K : Kit) (L : IsLawful K) (W : World) (s : ClusterScope) where
  Ends-ShowsEndpoint :
      (r : Outcome Reply) (t : Sys W.State)
      → Ends (IsServed K L W s) (λ _. ⊥) r t
      → (r ≡ returned finished) × ShowsEndpoint s.cluster t.nomad_cluster
  Ends-ShowsEndpoint (returned reply) t served = (
    ap returned served.reply,
    record {
      ready = served.named.ready;
      dns_name = served.named.dns_name;
      host = served.named.host;
      port = served.named.port;
    },
  )
  Ends-ShowsEndpoint (panicked p) t never = elim never [ ]
  Ends-ShowsEndpoint unfinished t never = elim never [ ]

  summarize-ShowsEndpoint :
      (c : NomadCluster) → ShowsEndpoint s.cluster c → ShowsEndpoint s.cluster (summarize K c)
  unfolding summarize
  summarize-ShowsEndpoint c shown = record {
    ready = shown.ready;
    dns_name = shown.dns_name;
    host = shown.host;
    port = shown.port;
  }

  -- A run on the scope of a cluster that holds the finalizer.
  run-ShowsEndpoint :
      (sys : Sys W.State)
      → K.is_zero sys.nomad_cluster.meta.deletion_timestamp ≡ true
      → K.contains_finalizer sys.nomad_cluster.meta.finalizers cluster_finalizer ≡ true
      → (c : NomadCluster) × (earlier : List Call) × ((run_cluster_scope K W s sys).1.calls
          ≡ patch_nomad_cluster c ∷ earlier)
        × ShowsEndpoint s.cluster c
  unfolding run_cluster_scope reconcile_cluster set_failure_domains close_cluster_scope finally
      summarize ◌>>=◌
  run-ShowsEndpoint sys alive held = rw alive (
    _,
    _,
    refl,
    summarize-ShowsEndpoint _ (Ends-ShowsEndpoint _ _ (reconcile_normal-IsServed K L W s _ held)).1,
  )

-- What a run of Reconcile finds: the NomadCluster, the Cluster that owns it, and a patch helper.
pub record Finds (W : World) (key : ObjectKey) (w : W.State) (c : NomadCluster) (owner : Cluster)
    : Type 0 where
  pub after_read : W.State
  pub read : W.get_nomad_cluster key w ≡ (ok c, after_read)
  pub after_owner : W.State
  pub owned : W.get_owner_cluster c.meta after_read ≡ (ok (some owner), after_owner)
  pub after_helper : W.State
  pub helped : W.new_cluster_helper c after_owner ≡ (none, after_helper)

module _ (K : Kit) (W : World) (key : ObjectKey) (sys : Sys W.State) (c : NomadCluster)
    (owner : Cluster) (found : Finds W key sys.world c owner) where
  abbrev found_scope : ClusterScope
  found_scope = record { cluster = owner; patch_helper = c; controller_name = "nomadcluster" }

  -- Where the run on the scope begins.
  abbrev at_scope : Sys W.State
  at_scope = record sys {
    world = found.after_helper;
    calls = get_owner "Cluster" c.meta ∷ get_object "NomadCluster" key ∷ sys.calls;
    nomad_cluster = c;
  }

  reconcile_scope : reconcile K W key sys ≡ run_cluster_scope K W found_scope at_scope
  unfolding reconcile new_cluster_scope ◌>>=◌
  reconcile_scope = simp (found.read, found.owned, found.helped)

  -- The finalizer in the patch that ends the run.
  reconcile-has_finalizer :
      IsLawful K
      → K.is_zero c.meta.deletion_timestamp ≡ true
      → (patched : NomadCluster) (before : List Call)
      → (reconcile K W key sys).1.calls ≡ patch_nomad_cluster patched ∷ before
      → K.contains_finalizer patched.meta.finalizers cluster_finalizer ≡ true
  reconcile-has_finalizer L alive patched before last =
      let (m, earlier, calls, held) =
        run_cluster_scope-has_finalizer K L W found_scope at_scope alive in
      cc (ap (λ r. r.1.calls) reconcile_scope, calls, held, last)

-- On a cluster that is not being deleted, two runs of Reconcile suffice, if both find the cluster,
-- its owner and a patch helper, and the cluster that the second reads holds the finalizers of the
-- patch with which the first ended. Whatever happens between the two runs, and whatever the remote
-- systems answer in them otherwise, the second run's last call patches an object that is ready,
-- whose DNS name and endpoint's host are the owner's name in the domain service.consul, and whose
-- endpoint's port is that of the owner's API server.
pub second_run-ShowsEndpoint :
    (K : Kit) (L : IsLawful K) (W : World) (key : ObjectKey) (sys later : Sys W.State)
    (c₀ c₁ patched : NomadCluster) (owner₀ owner₁ : Cluster) (before : List Call)
    → Finds W key sys.world c₀ owner₀
    → K.is_zero c₀.meta.deletion_timestamp ≡ true
    → (reconcile K W key sys).1.calls ≡ patch_nomad_cluster patched ∷ before
    → Finds W key later.world c₁ owner₁
    → K.is_zero c₁.meta.deletion_timestamp ≡ true
    → c₁.meta.finalizers ≡ patched.meta.finalizers
    → (c : NomadCluster) × (earlier : List Call) × ((reconcile K W key later).1.calls
        ≡ patch_nomad_cluster c ∷ earlier)
      × ShowsEndpoint owner₁ c
second_run-ShowsEndpoint K L W key sys later c₀ c₁ patched owner₀ owner₁ before first alive last
      second alive₁ kept =
    let held = reconcile-has_finalizer K W key sys c₀ owner₀ first L alive patched before last in
    rw (reconcile_scope K W key later c₁ owner₁ second) (
      run-ShowsEndpoint K L W (found_scope K W key later c₁ owner₁ second)
        (at_scope K W key later c₁ owner₁ second) alive₁ (rw kept held))
