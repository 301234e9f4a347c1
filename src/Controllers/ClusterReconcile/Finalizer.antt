-- ===== src/Controllers/ClusterReconcile/Finalizer.antt =====
-- The finalizer of a NomadCluster that is not deleted.
use cluster_api_provider_nom.Base.{true, List, ◌∷◌, ◌≡◌, refl, arith}
use cluster_api_provider_nom.World.Kit.{Kit, IsLawful}
use cluster_api_provider_nom.World.Wire.{Call, patch_nomad_cluster}
use cluster_api_provider_nom.World.Remote.{World}
use cluster_api_provider_nom.World.Monad.{Sys, finally, ◌>>=◌}
use cluster_api_provider_nom.World.Keeps.{Keeps, IsStable, stable_rules}
use cluster_api_provider_nom.World.Ensures.{
  Ensures, Ensures-of_Keeps, Ensures-bind, Ensures-gets, Ensures-branch, Ensures-modify,
  Ensures-weaken, Ensures-pure, merge,
}
use cluster_api_provider_nom.Api.NomadCluster.{NomadCluster, cluster_finalizer}
use cluster_api_provider_nom.Scope.ClusterScope.{
  ClusterScope, close_cluster_scope, set_dns_name, summarize,
}
use cluster_api_provider_nom.Frames.{is_api_server_online-Keeps}
use cluster_api_provider_nom.Controllers.ClusterReconcile.{
  add_cluster_finalizer, set_endpoint, set_failure_domains, check_api_server, reconcile_normal,
  reconcile_cluster, run_cluster_scope,
}

module _ (K : Kit) (W : World) (s : ClusterScope) where
  abbrev pub P : Sys W.State → Type 0
  P sys = K.contains_finalizer sys.nomad_cluster.meta.finalizers cluster_finalizer ≡ true

  P-stable : IsStable P
  P-stable = record { calls_only = λ sys w calls h. h }

  check-Keeps : Keeps P (check_api_server K W s)
  unfolding check_api_server
  check-Keeps = search (stable_rules, is_api_server_online-Keeps K W P-stable) depth 10

  pub normal-Ensures : IsLawful K → Ensures (λ _. Unit) (reconcile_normal K W s) (λ _. P) P
  unfolding reconcile_normal add_cluster_finalizer set_dns_name set_endpoint
  normal-Ensures L =
      Ensures-bind (λ c sys. c ≡ sys.nomad_cluster) _ _ (Ensures-gets _ (λ sys h. refl))
        (λ c.
          Ensures-branch _ _ _
            (λ _.
              Ensures-bind (λ _. P) _ _
                (Ensures-modify _
                  (λ sys h. L.contains-add sys.nomad_cluster.meta.finalizers cluster_finalizer))
                (λ _. Ensures-pure _ (λ sys h. h)))
            (λ present.
              Ensures-weaken {P = P} _ (λ sys h. ground arith) (λ a sys h. h) (λ sys h. h)
                (Ensures-of_Keeps _ (search (stable_rules, check-Keeps) depth 12))))

-- The run on the scope of a cluster that is not deleted ends, however it goes, with a patch of an
-- object that holds the provider's finalizer.
pub run_cluster_scope-has_finalizer :
    (K : Kit) (L : IsLawful K) (W : World) (s : ClusterScope) (sys : Sys W.State)
    → K.is_zero sys.nomad_cluster.meta.deletion_timestamp ≡ true
    → (c : NomadCluster) × (earlier : List Call) × ((run_cluster_scope K W s sys).1.calls
        ≡ patch_nomad_cluster c ∷ earlier)
      × (K.contains_finalizer c.meta.finalizers cluster_finalizer ≡ true)
unfolding run_cluster_scope reconcile_cluster set_failure_domains close_cluster_scope finally
    summarize ◌>>=◌
run_cluster_scope-has_finalizer K L W s sys alive =
    rw alive (_, _, refl, merge (P K W s) _ _ ((normal-Ensures K W s L).at _ tt))
