-- ===== src/Controllers/ClusterReconcile/Endpoint.antt =====
-- A NomadCluster that is not deleted and holds its finalizer: the endpoint it shows.
use mathlib.Core.Bool.{false≢true}
use text.Mathlib.TextLemmas.{append-ne-nil_of_right_ne-nil}
use cluster_api_provider_nom.Base.{
  String, ◌<>◌, Bool, true, false, not, none, List, ◌∷◌, ◌≡◌, ◌≢◌, ◌⊎◌, ◌∙◌, inl, inr, Bool-cases,
  refl,
}
use cluster_api_provider_nom.Base.Text.{◌==◌, eq_iff}
use cluster_api_provider_nom.World.Kit.{Kit, IsLawful}
use cluster_api_provider_nom.World.Wire.{Call, list_nodes}
use cluster_api_provider_nom.World.Remote.{World}
use cluster_api_provider_nom.World.Monad.{Sys, ◌>>=◌}
use cluster_api_provider_nom.World.Ensures.{
  Ends, Ensures, Ensures-bind, Ensures-branch, Ensures-call, Ensures-modify, Ensures-pure,
  Ensures-on_ok, Ensures-on_no_error,
}
use cluster_api_provider_nom.Api.Meta.{ObjectKey, Severity, object_key}
use cluster_api_provider_nom.Api.Conditions.{dns_ready_condition, api_server_available_condition}
use cluster_api_provider_nom.Api.NomadCluster.{NomadCluster, cluster_finalizer}
use cluster_api_provider_nom.Scope.ClusterScope.{
  ClusterScope, api_server_port, get_dns_name, set_dns_name, is_api_server_online, mark_false,
  mark_true,
}
use cluster_api_provider_nom.Controllers.Reply.{Reply, finished}
use cluster_api_provider_nom.Controllers.ClusterReconcile.{
  set_endpoint, check_api_server, reconcile_normal,
}

module _ (W : World) where
  -- The last call listed the nodes of the workload cluster, it answered, and nothing has happened
  -- since.
  pub record Listed (key : ObjectKey) (calls : List Call) (now : W.State) : Type 0 where
    pub before : W.State
    pub answered : (W.list_nodes key before).0 ≡ none
    pub earlier : List Call
    pub last : calls ≡ list_nodes ∷ earlier
    pub after : now ≡ (W.list_nodes key before).1

module _ (K : Kit) (L : IsLawful K) (W : World) (s : ClusterScope) where
  -- What the object shows before the API server is tried.
  pub record IsNamed (c : NomadCluster) : Type 0 where
    pub dns_name : c.status.dns_name ≡ s.cluster.meta.name <> ".service.consul"
    pub ready : c.status.ready ≡ true
    pub host : c.spec.control_plane_endpoint.host ≡ s.cluster.meta.name <> ".service.consul"
    pub port : c.spec.control_plane_endpoint.port ≡ api_server_port s.cluster
    pub dns_ready : K.holds dns_ready_condition c.status.conditions ≡ true

  abbrev P : Sys W.State → Type 0
  P sys = IsNamed sys.nomad_cluster

  other_condition : ◌≢◌ {A = String} api_server_available_condition dns_ready_condition
  other_condition e = false≢true ((eq_iff _ _).1 e)

  -- The answer of the API server, in a state of which `P` speaks of the cluster alone.
  online-Ensures :
      Ensures P
        (is_api_server_online K W s.cluster)
        (λ a sys. P sys × (a.0 ≡ true → Listed W (object_key s.cluster.meta) sys.calls sys.world))
        (λ _. ⊥)
  unfolding is_api_server_online
  online-Ensures =
      Ensures-bind (λ _. P) _ _ (Ensures-call _ _ (λ sys h. h))
        (λ found.
          Ensures-on_ok _ _ _ (λ e _. Ensures-pure _ (λ sys h. (h, λ absurdity. cc)))
            (λ current _.
              Ensures-branch _ _ _
                (λ alive.
                  Ensures-bind (λ _. P) _ _ (Ensures-call _ _ (λ sys h. h))
                    (λ offline.
                      Ensures-on_no_error _ _ _
                        (λ e _. Ensures-pure _ (λ sys h. (h, λ absurdity. cc)))
                        (λ _.
                          Ensures-bind
                            (λ failed sys.
                              P sys
                              × (failed ≡ none
                                  → Listed W (object_key s.cluster.meta) sys.calls sys.world))
                            _ _
                            (Ensures-call _ _ (λ sys h. (
                              h,
                              λ e. record {
                                before = sys.world;
                                answered = e;
                                earlier = sys.calls;
                                last = refl;
                                after = refl;
                              },
                            )))
                            (λ failed.
                              Ensures-on_no_error _ _ _
                                (λ e _. Ensures-pure _ (λ sys h. (h.0, λ absurdity. cc)))
                                (λ e. Ensures-pure _ (λ sys h. (h.0, λ _. h.1 e)))))))
                (λ dead. Ensures-pure _ (λ sys h. (h, λ absurdity. cc)))))

  -- What a run shows in the end.
  pub record IsServed (r : Reply) (sys : Sys W.State) : Type 0 where
    pub reply : r ≡ finished
    pub named : IsNamed sys.nomad_cluster
    pub available :
        (K.holds api_server_available_condition sys.nomad_cluster.status.conditions ≡ false)
        ⊎ Listed W (object_key s.cluster.meta) sys.calls sys.world

  -- The conditions of a cluster that is named, marked for its API server.
  marked :
      (f : NomadCluster → NomadCluster)
      → ((c : NomadCluster) → IsNamed c → IsNamed (f c))
      → (sys : Sys W.State) → P sys
      → (K.holds api_server_available_condition (f sys.nomad_cluster).status.conditions ≡ false)
        ⊎ Listed W (object_key s.cluster.meta) sys.calls sys.world
      → IsServed finished (record sys { nomad_cluster = f sys.nomad_cluster })
  marked f keeps sys h available = record {
    reply = refl;
    named = keeps sys.nomad_cluster h;
    available = available;
  }

  mark_false-IsNamed :
      (reason : String) (v : Severity) (c : NomadCluster)
      → IsNamed c
      → IsNamed (mark_false K api_server_available_condition reason v c)
  mark_false-IsNamed reason v c h = record {
    dns_name = h.dns_name;
    ready = h.ready;
    host = h.host;
    port = h.port;
    dns_ready =
        L.holds-mark_false_ne api_server_available_condition dns_ready_condition reason v ""
          c.status.conditions other_condition
        ∙ h.dns_ready;
  }

  mark_true-IsNamed :
      (c : NomadCluster) → IsNamed c → IsNamed (mark_true K api_server_available_condition c)
  mark_true-IsNamed c h = record {
    dns_name = h.dns_name;
    ready = h.ready;
    host = h.host;
    port = h.port;
    dns_ready =
        L.holds-mark_true_ne api_server_available_condition dns_ready_condition c.status.conditions
          other_condition
        ∙ h.dns_ready;
  }

  online_of_not : (b : Bool) → not b ≡ false → b ≡ true
  online_of_not true e = refl
  online_of_not false e = cc

  check-Ensures : Ensures P (check_api_server K W s) IsServed (λ _. ⊥)
  unfolding check_api_server
  check-Ensures =
      Ensures-bind (λ _. P) _ _ (Ensures-modify _ (λ sys h. h))
        (λ _. Ensures-bind _ _ _ online-Ensures (λ a.
          Ensures-branch _ _ _
            (λ _.
              Ensures-bind (λ _ sys. IsServed finished sys) _ _
                (Ensures-modify _ (λ sys h. marked _ (mark_false-IsNamed _ _) sys h.0 (
                  inl (
                    L.holds-mark_false api_server_available_condition _ _ _
                      sys.nomad_cluster.status.conditions))))
                (λ _. Ensures-pure _ (λ sys h. h)))
            (λ offline_not.
              Ensures-bind (λ _ sys. IsServed finished sys) _ _
                (Ensures-modify _ (λ sys h.
                  marked _ mark_true-IsNamed sys h.0 (inr (h.1 (online_of_not a.0 offline_not)))))
                (λ _. Ensures-pure _ (λ sys h. h)))))

  has_name : (name : String) → (name <> ".service.consul" == "") ≡ false
  has_name name = elim (Bool-cases (name <> ".service.consul" == "")) [
    | inl e ↦ absurd (
        append-ne-nil_of_right_ne-nil name
          (λ (empty : ◌≡◌ {A = String} ".service.consul" ""). false≢true ((eq_iff _ _).1 empty))
          ((eq_iff _ _).0 e))
    | inr e ↦ e
  ]

  named :
      (c : NomadCluster)
      → IsNamed (
          mark_true K dns_ready_condition
            (set_endpoint (api_server_port s.cluster) (set_dns_name (get_dns_name s) c)))
  unfolding get_dns_name set_dns_name set_endpoint
  named c = record {
    dns_name = refl;
    ready = refl;
    host = refl;
    port = refl;
    dns_ready = L.holds-mark_true dns_ready_condition c.status.conditions;
  }

  pub normal_state :
      (sys : Sys W.State)
      → K.contains_finalizer sys.nomad_cluster.meta.finalizers cluster_finalizer ≡ true
      → reconcile_normal K W s sys
        ≡ check_api_server K W s (record sys {
          nomad_cluster = mark_true K dns_ready_condition (
              set_endpoint
                (api_server_port s.cluster)
                (set_dns_name (get_dns_name s) sys.nomad_cluster));
        })
  unfolding reconcile_normal get_dns_name set_dns_name set_endpoint ◌>>=◌
  normal_state sys held = rw held (rw (has_name s.cluster.meta.name) refl)

-- A run of reconcileNormal on a cluster that holds the provider's finalizer returns, with no
-- panic, no error and no wish to run again. The object is then ready, its DNS name and the
-- endpoint's host are the cluster's name in the domain service.consul, the endpoint's port is
-- that of the API server, and the DNS condition holds. The API server's condition does not
-- hold, or the last call listed the workload cluster's nodes with success.
pub reconcile_normal-IsServed :
    (K : Kit) (L : IsLawful K) (W : World) (s : ClusterScope) (sys : Sys W.State)
    → K.contains_finalizer sys.nomad_cluster.meta.finalizers cluster_finalizer ≡ true
    → let (r, sys') = reconcile_normal K W s sys in Ends (IsServed K L W s) (λ _. ⊥) r sys'
reconcile_normal-IsServed K L W s sys held =
    rw (normal_state K L W s sys held)
      ((check-Ensures K L W s).at _ (named K L W s sys.nomad_cluster))
