-- ===== src/Footprint.antt =====
-- Which calls a computation makes. A `Frame` is a property that the calls of a kind keep, and that
-- does not depend on the reconcilers' objects: one rule for each way to build a computation.
pub mod Machine
pub mod Runs
pub mod Cluster
pub mod OnePatch
pub mod Render
pub mod UserData
pub mod Deploys
use cluster_api_provider_nom.Base.{List, ◌∷◌}
use cluster_api_provider_nom.World.Wire.{Call}
use cluster_api_provider_nom.World.Monad.{
  Sys, M, Outcome, returned, panicked, unfinished, call, silent, modify_machine, modify_cluster,
  finally, conclude,
}
use cluster_api_provider_nom.World.Keeps.{
  Keeps, Keeps-pure, Keeps-panic, Keeps-unfinished_loop, Keeps-gets, Keeps-call, Keeps-silent,
  Keeps-branch, Keeps-modify, Keeps-on_ok, Keeps-on_some, Keeps-on_no_error, Keeps-bind,
}
use cluster_api_provider_nom.Api.NomadMachine.{NomadMachine}
use cluster_api_provider_nom.Api.NomadCluster.{NomadCluster}

pub record Frame {S : Type 0} (C : Call → Type 0) (P : Sys S → Type 0) : Type 0 where
  pub on_call :
      (s : Sys S) (w : S) (c : Call) → C c → P s → P (record s { world = w; calls = c ∷ s.calls })
  pub on_silent : (s : Sys S) (w : S) → P s → P (record s { world = w })
  pub on_objects :
      (s : Sys S) (m : NomadMachine) (k : NomadCluster)
      → P s
      → P (record s { nomad_machine = m; nomad_cluster = k })

module _ {S : Type 0} {C : Call → Type 0} {P : Sys S → Type 0} where
  pub frame-call :
      {A : Type 0} → Frame C P → (c : Call) (op : S → A × S) → C c → Keeps P (call c op)
  frame-call f c op own = Keeps-call c op (λ s w h. f.on_call s w c own h)

  pub frame-silent : {A : Type 0} → Frame C P → (op : S → A × S) → Keeps P (silent op)
  frame-silent f op = Keeps-silent op (λ s w h. f.on_silent s w h)

  pub frame-modify_machine :
      Frame C P → (g : NomadMachine → NomadMachine) → Keeps P (modify_machine g)
  frame-modify_machine f g =
      Keeps-modify _ (λ s h. f.on_objects s (g s.nomad_machine) s.nomad_cluster h)

  pub frame-modify_cluster :
      Frame C P → (g : NomadCluster → NomadCluster) → Keeps P (modify_cluster g)
  frame-modify_cluster f g =
      Keeps-modify _ (λ s h. f.on_objects s s.nomad_machine (g s.nomad_cluster) h)

-- A frame for fewer calls.
pub frame-narrow :
    {S : Type 0} {C D : Call → Type 0} {P : Sys S → Type 0}
    → ((c : Call) → D c → C c)
    → Frame C P
    → Frame D P
frame-narrow sub f = record {
  on_call = λ s w c own h. f.on_call s w c (sub c own) h;
  on_silent = f.on_silent;
  on_objects = f.on_objects;
}

conclude-Keeps :
    {S A : Type 0} (P : Sys S → Type 0) (r : Outcome (Outcome A)) (s : Sys S)
    → P s
    → P (conclude r s).1
conclude-Keeps P (returned o) s h = h
conclude-Keeps P (panicked p) s h = h
conclude-Keeps P unfinished s h = h

module _ {S A : Type 0} {P : Sys S → Type 0} where
  pub Keeps-finally :
      (m : M S A) (cleanup : Outcome A → M S (Outcome A))
      → Keeps P m
      → ((r : Outcome A) → Keeps P (cleanup r))
      → Keeps P (finally m cleanup)
  unfolding finally
  Keeps-finally m cleanup body last = record {
    at = λ s h.
        conclude-Keeps P (cleanup (m s).0 (m s).1).0 (cleanup (m s).0 (m s).1).1
          ((last (m s).0).at (m s).1 (body.at s h));
  }

pub ruleset frame_rules = (
  Keeps-pure, Keeps-panic, Keeps-unfinished_loop, Keeps-gets, frame-call, frame-silent,
  frame-modify_machine, frame-modify_cluster, Keeps-branch, Keeps-on_ok, Keeps-on_some,
  Keeps-on_no_error, Keeps-bind, Keeps-finally,
)
