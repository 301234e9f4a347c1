-- ===== src/System.antt =====
-- The provider as a whole: calls of the two reconcilers and actions of the polling goroutines, in
-- any order. A goroutine of ReconcileNomadClusterWhenAPIServerIsOnline asks IsAPIServerOnline for
-- the Cluster that it has captured. A run is one step: the goroutine that it starts acts after it,
-- where in the program it may act before the run returns. A panic, in a reconciler or in a
-- goroutine, ends the process.
pub mod Laws
pub mod Refines
use cluster_api_provider_nom.Base.{ℕ, Bool, Option, none, some, List, [], ◌∷◌, if◌then◌else◌}
use cluster_api_provider_nom.World.Error.{Error}
use cluster_api_provider_nom.World.Kit.{Kit}
use cluster_api_provider_nom.World.Remote.{World}
use cluster_api_provider_nom.World.Monad.{M, pure, gets, on_some, modify_polls, ◌>>=◌, ◌>>◌}
use cluster_api_provider_nom.Api.Meta.{ObjectKey}
use cluster_api_provider_nom.Poller.{
  Phase, polling, notifying, cleaning, Poller, Answer, offline, online, failed, poller_at, advance,
}
use cluster_api_provider_nom.Scope.ClusterScope.{is_api_server_online}
use cluster_api_provider_nom.Controllers.MachineReconcile as Machines
use cluster_api_provider_nom.Controllers.ClusterReconcile as Clusters

-- What the condition of `PollImmediateInfinite` answers: an error ends the polling, too.
unfoldable pub poll_answer : Bool → Option Error → Answer
poll_answer done none = if done then online else offline
poll_answer done (some e) = failed

pub data Act : Type 0 where
  reconcile_machine : ObjectKey → Act
  reconcile_cluster : ObjectKey → Act
  goroutine : ℕ → Act

module _ (K : Kit) (W : World) where
  -- The next action of a goroutine that stands at place `i`.
  unfoldable pub act_poller : ℕ → Poller → Phase → M W.State (Unit {0})
  unfolding poll_answer
  act_poller i g polling = do
    (done, failure) ← is_api_server_online K W g.cluster
    modify_polls (advance i (poll_answer done failure) g)
  act_poller i g notifying = modify_polls (advance i offline g)
  act_poller i g cleaning = modify_polls (advance i offline g)

module _ (K : Kit) (W : World) (fuel : ℕ) where
  unfoldable pub act : Act → M W.State (Unit {0})
  unfolding act_poller
  act (reconcile_machine key) = do _ ← Machines.reconcile K W fuel key; pure tt
  act (reconcile_cluster key) = do _ ← Clusters.reconcile K W key; pure tt
  act (goroutine i) = do
    polls ← gets (λ s. s.polls)
    on_some (poller_at i polls.pollers) (pure tt) (λ g. act_poller K W i g g.phase)

  unfoldable pub run_system : List Act → M W.State (Unit {0})
  unfolding act
  run_system [] = pure tt
  run_system (a ∷ rest) = do act a; run_system rest
