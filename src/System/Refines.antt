-- ===== src/System/Refines.antt =====
-- The provider as a whole, seen from its polling.
use cluster_api_provider_nom.Base.{ℕ, String, List, [], ◌∷◌, ◌++◌, some, none, ◌≡◌, refl, sym}
use cluster_api_provider_nom.World.Kit.{Kit}
use cluster_api_provider_nom.World.Remote.{World}
use cluster_api_provider_nom.World.Monad.{Sys}
use cluster_api_provider_nom.Api.Meta.{Cluster}
use cluster_api_provider_nom.Poller.{
  Poller, Polls, Answer, Move, call_start, goroutine, poller_at, start, advance, step, run,
  no_polls,
}
use cluster_api_provider_nom.Poller.Refines.{Turns, view, run-refines}
use cluster_api_provider_nom.System.{Act, run_system}
use cluster_api_provider_nom.System.Laws.{run_system-Keeps}

run-snoc :
    (K : Kit) (ms : List Move) (m : Move) (p : Polls)
    → run K (ms ++ (m ∷ [])) p ≡ step K m (run K ms p)
unfolding run
run-snoc K [] m p = refl
run-snoc K (n ∷ ms) m p = run-snoc K ms m (step K n p)

-- Some moves lead from the first state of the polling to the second.
pub record IsReached (K : Kit) (from to : Polls) : Type 0 where
  pub moves : List Move
  pub ends : to ≡ run K moves from

module _ (K : Kit) (from : Polls) where
  step-IsReached : (m : Move) (p : Polls) → IsReached K from p → IsReached K from (step K m p)
  step-IsReached m p r = record {
    moves = r.moves ++ (m ∷ []);
    ends = rw r.ends (sym (run-snoc K r.moves m from));
  }

  start-IsReached : (c : Cluster) (p : Polls) → IsReached K from p → IsReached K from (start K c p)
  unfolding step
  start-IsReached c p r = step-IsReached (call_start c) p r

  step-advance :
      (i : ℕ) (answer : Answer) (g : Poller) (p : Polls)
      → poller_at i p.pollers ≡ some g
      → step K (goroutine i answer) p ≡ advance i answer g p
  unfolding step
  step-advance i answer g p found = rw (step, found) refl

  advance-IsReached :
      (i : ℕ) (answer : Answer) (g : Poller) (p : Polls)
      → IsReached K from p
      → poller_at i p.pollers ≡ some g
      → IsReached K from (advance i answer g p)
  advance-IsReached i answer g p r found =
      rw (← step-advance i answer g p found) (step-IsReached (goroutine i answer) p r)

-- However the runs of the two reconcilers and the actions of the goroutines interleave, the
-- polling moves as some list of calls and of goroutines' actions moves it.
pub run_system-IsReached :
    (K : Kit) (W : World) (fuel : ℕ) (acts : List Act) (sys : Sys W.State)
    → IsReached K sys.polls (run_system K W fuel acts sys).1.polls
unfolding run
run_system-IsReached K W fuel acts sys =
    (run_system-Keeps K W fuel (start-IsReached K sys.polls) (advance-IsReached K sys.polls)
        acts).at
      sys (record { moves = []; ends = refl })

Turns-of_moves :
    (u : String) (K : Kit) (ms : List Move) (from to : Polls)
    → to ≡ run K ms from
    → from ≡ no_polls
    → Turns (record { phase = none; sent = 0 }) (view u to)
Turns-of_moves u K ms from to ends fresh = rw ends (rw fresh (run-refines u K ms))

-- From no polling, whatever the reconcilers and the goroutines do, each cluster sees turns of
-- its watch only: polling begins, the server is found or the check fails, one event is sent,
-- and the watch ends.
pub run_system-Turns :
    (u : String) (K : Kit) (W : World) (fuel : ℕ) (acts : List Act) (sys : Sys W.State)
    → sys.polls ≡ no_polls
    → Turns (record { phase = none; sent = 0 }) (view u (run_system K W fuel acts sys).1.polls)
run_system-Turns u K W fuel acts sys fresh =
    let r = run_system-IsReached K W fuel acts sys in
    Turns-of_moves u K r.moves sys.polls _ r.ends fresh
