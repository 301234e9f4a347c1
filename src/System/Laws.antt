-- ===== src/System/Laws.antt =====
-- What every interleaving of the provider's parts keeps.
use cluster_api_provider_nom.Base.{ℕ, String, List, [], ◌∷◌, some, ◌≡◌, refl, ap}
use cluster_api_provider_nom.World.Wire.{Call}
use cluster_api_provider_nom.World.Kit.{Kit}
use cluster_api_provider_nom.World.Remote.{World}
use cluster_api_provider_nom.World.Monad.{Sys, modify_polls}
use cluster_api_provider_nom.World.Keeps.{Keeps, IsStable, Keeps-bind, Keeps-pure}
use cluster_api_provider_nom.World.Ensures.{
  Ensures, Ensures-of_Keeps, Keeps-of_Ensures, Ensures-bind, Ensures-gets, Ensures-modify,
  Ensures-on_some, Ensures-pure, Ensures-weaken,
}
use cluster_api_provider_nom.Frames.{is_api_server_online-Keeps}
use cluster_api_provider_nom.Api.Meta.{ObjectKey, ObjectReference, Machine, Cluster}
use cluster_api_provider_nom.Poller.{
  Phase, polling, notifying, cleaning, Poller, Polls, Answer, offline, poller_at, start, advance,
}
use cluster_api_provider_nom.Poller.Laws.{IsConsistent, start-IsConsistent, advance-IsConsistent}
use cluster_api_provider_nom.Scope.ClusterScope.{new_cluster_scope, ClusterScope}
use cluster_api_provider_nom.Scope.MachineScope.{MachineScope, new_machine_scope}
use cluster_api_provider_nom.Controllers.MachineReconcile.{
  reconcile_infra, reconcile_owned, reconcile, run_machine_scope,
}
use cluster_api_provider_nom.Footprint.{Frame, frame_rules}
use cluster_api_provider_nom.Footprint.Machine.{MachineCall}
use cluster_api_provider_nom.Footprint.Runs.{run_machine_scope-Keeps}
use cluster_api_provider_nom.Footprint.Cluster as ClusterCalls
use cluster_api_provider_nom.Footprint.Cluster.{ClusterCall}
use cluster_api_provider_nom.System.{
  poll_answer, Act, reconcile_machine, reconcile_cluster, goroutine, act_poller, act, run_system,
}

abbrev Any : Call → Type 0
Any _ = Unit

module _ {S : Type 0} {P : Sys S → Type 0} (f : Frame Any P) where
  frame_narrow : (C : Call → Type 0) → Frame C P
  frame_narrow C = record {
    on_call = λ s w c _ h. f.on_call s w c tt h;
    on_silent = f.on_silent;
    on_objects = f.on_objects;
  }

module _ (K : Kit) (W : World) (fuel : ℕ) {P : Sys W.State → Type 0} (f : Frame Any P) where
  scope-Keeps : (s : MachineScope) → Keeps P (run_machine_scope K W fuel s)
  scope-Keeps s = run_machine_scope-Keeps K W s (frame_narrow f (MachineCall s)) fuel

  new_cluster_scope-Keeps : (c : Cluster) (name : String) → Keeps P (new_cluster_scope K W c name)
  unfolding new_cluster_scope
  new_cluster_scope-Keeps c name = search (frame_rules, f)

  new_machine_scope-Keeps :
      (m : Machine) (c : Cluster) (cs : ClusterScope) → Keeps P (new_machine_scope K W m c cs)
  unfolding new_machine_scope
  new_machine_scope-Keeps m c cs = search (frame_rules, f)

  infra-Keeps :
      (m : Machine) (c : Cluster) (ref : ObjectReference)
      → Keeps P (reconcile_infra K W fuel m c ref)
  unfolding reconcile_infra
  infra-Keeps m c ref =
      search (frame_rules, f, tt, new_cluster_scope-Keeps, new_machine_scope-Keeps, scope-Keeps)
        depth 12

  owned-Keeps : (m : Machine) (c : Cluster) → Keeps P (reconcile_owned K W fuel m c)
  unfolding reconcile_owned
  owned-Keeps m c = search (frame_rules, infra-Keeps) depth 10

  reconcile-Keeps : (key : ObjectKey) → Keeps P (reconcile K W fuel key)
  unfolding reconcile
  reconcile-Keeps key = search (frame_rules, f, tt, owned-Keeps) depth 12

-- What each call of a reconciler and each action of a goroutine keeps of the polling.
module _ (K : Kit) (W : World) (fuel : ℕ) {Q : Polls → Type 0}
    (started : (c : Cluster) (p : Polls) → Q p → Q (start K c p))
    (advanced : (i : ℕ) (answer : Answer) (g : Poller) (p : Polls)
      → Q p
      → poller_at i p.pollers ≡ some g
      → Q (advance i answer g p)) where
  abbrev OfPolls : Sys W.State → Type 0
  OfPolls s = Q s.polls

  polls_frame : (C : Call → Type 0) → Frame C OfPolls
  polls_frame C = record {
    on_call = λ s w c _ h. h;
    on_silent = λ s w h. h;
    on_objects = λ s m k h. h;
  }

  -- The goroutine at place `i` is still there.
  abbrev Stands : ℕ → Poller → Sys W.State → Type 0
  Stands i g s = OfPolls s × (poller_at i s.polls.pollers ≡ some g)

  Stands-stable : (i : ℕ) (g : Poller) → IsStable (Stands i g)
  Stands-stable i g = record { calls_only = λ s w calls h. h }

  moved-Ensures :
      (i : ℕ) (g : Poller) (answer : Answer)
      → Ensures (Stands i g) (modify_polls (advance i answer g)) (λ _. OfPolls) OfPolls
  moved-Ensures i g answer = Ensures-modify _ (λ s h. advanced i answer g s.polls h.0 h.1)

  act_poller-Ensures :
      (i : ℕ) (g : Poller) (f : Phase)
      → Ensures (Stands i g) (act_poller K W i g f) (λ _. OfPolls) OfPolls
  unfolding act_poller
  act_poller-Ensures i g polling =
      Ensures-bind (λ _. Stands i g) _ _
        (Ensures-weaken _ (λ s h. h) (λ a s h. h) (λ s h. h.0)
          (Ensures-of_Keeps _ (is_api_server_online-Keeps K W (Stands-stable i g) g.cluster)))
        (λ a. moved-Ensures i g (poll_answer a.0 a.1))
  act_poller-Ensures i g notifying = moved-Ensures i g offline
  act_poller-Ensures i g cleaning = moved-Ensures i g offline

  act-Keeps : (a : Act) → Keeps OfPolls (act K W fuel a)
  unfolding act
  act-Keeps (reconcile_machine key) =
      Keeps-bind _ _ (reconcile-Keeps K W fuel (polls_frame Any) key) (λ _. Keeps-pure _)
  act-Keeps (reconcile_cluster key) =
      Keeps-bind _ _
        (ClusterCalls.reconcile-Keeps K W (polls_frame ClusterCall) (λ c s h. started c s.polls h)
          key)
        (λ _. Keeps-pure _)
  act-Keeps (goroutine i) = Keeps-of_Ensures _ (
      Ensures-bind (λ p s. OfPolls s × (p ≡ s.polls)) _ _ (Ensures-gets _ (λ s h. (h, refl)))
        (λ p.
          Ensures-on_some _ _ _ (λ _. Ensures-pure _ (λ s h. h.0))
            (λ g found.
              Ensures-weaken {P = Stands i g} _
                (λ s h. (h.0, rw (ap (λ (q : Polls). poller_at i q.pollers) h.1) at found))
                (λ a s h. h) (λ s h. h) (act_poller-Ensures i g g.phase))))

  pub run_system-Keeps : (acts : List Act) → Keeps OfPolls (run_system K W fuel acts)
  unfolding run_system
  run_system-Keeps [] = Keeps-pure _
  run_system-Keeps (a ∷ rest) = Keeps-bind _ _ (act-Keeps a) (λ _. run_system-Keeps rest)

-- However the runs of the two reconcilers and the actions of the goroutines interleave,
-- whatever the remote systems answer, and also after a panic: the map of triggers has a key for
-- each running goroutine and no other, and no two goroutines poll for the same cluster.
pub run_system-IsConsistent :
    (K : Kit) (W : World) (fuel : ℕ) (acts : List Act) (sys : Sys W.State)
    → IsConsistent sys.polls
    → IsConsistent (run_system K W fuel acts sys).1.polls
run_system-IsConsistent K W fuel acts sys h =
    (run_system-Keeps K W fuel (start-IsConsistent K) advance-IsConsistent acts).at sys h
