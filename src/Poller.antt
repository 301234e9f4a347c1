-- ===== src/Poller.antt =====
-- The polling of pkg/nomad/scope/cluster.go: `apiServerTriggers`, guarded by its mutex, and the
-- goroutines that `ReconcileNomadClusterWhenAPIServerIsOnline` starts. The map is the list of its
-- keys. The critical sections are atomic, and the goroutines interleave in any order.
pub mod Laws
pub mod Runs
pub mod Refines
use cluster_api_provider_nom.Base.{
  ℕ, zero, suc, String, Bool, true, false, not, Option, none, some, List, [], ◌∷◌, contains, map,
  if◌then◌else◌,
}
use cluster_api_provider_nom.Base.Text.{◌==◌}
use cluster_api_provider_nom.World.Kit.{Kit}
use cluster_api_provider_nom.Api.Meta.{Cluster}

-- Where a goroutine stands: in `PollImmediateInfinite`, before its send on the channel, and before
-- the section that deletes its key.
pub data Phase : Type 0 where
  polling notifying cleaning : Phase

-- `cluster` is the Cluster of the scope that the goroutine has captured.
pub record Poller : Type 0 where
  pub uid : String
  pub cluster : Cluster
  pub phase : Phase

-- `delivered` are the UIDs of the clusters whose events were sent, the last one first.
pub record Polls : Type 0 where
  pub triggers : List String
  pub pollers : List Poller
  pub delivered : List String

-- `ReconcileNomadClusterWhenAPIServerIsOnline`.
unfoldable pub start : Kit → Cluster → Polls → Polls
start K c p =
    if c.control_plane_initialized
    then p
    else if not (K.is_zero c.meta.deletion_timestamp)
    then p
    else if contains p.triggers c.meta.uid
    then p
    else record p {
      triggers = c.meta.uid ∷ p.triggers;
      pollers = record { uid = c.meta.uid; cluster = c; phase = polling } ∷ p.pollers;
    }

-- What one call of `IsAPIServerOnline` gives a goroutine that polls.
pub data Answer : Type 0 where
  offline online failed : Answer

-- `delete` on the map.
unfoldable pub delete : String → List String → List String
delete u [] = []
delete u (v ∷ us) = let rest = delete u us in if v == u then rest else v ∷ rest

-- The poller at a place in the list, and the list with that poller in another phase or gone.
unfoldable pub poller_at : ℕ → List Poller → Option Poller
poller_at i [] = none
poller_at zero (p ∷ ps) = some p
poller_at (suc i) (p ∷ ps) = poller_at i ps

unfoldable pub set_phase : ℕ → Phase → List Poller → List Poller
set_phase i f [] = []
set_phase zero f (p ∷ ps) = record p { phase = f } ∷ ps
set_phase (suc i) f (p ∷ ps) = p ∷ set_phase i f ps

unfoldable pub drop_at : ℕ → List Poller → List Poller
drop_at i [] = []
drop_at zero (p ∷ ps) = ps
drop_at (suc i) (p ∷ ps) = p ∷ drop_at i ps

-- The next action of the goroutine at place `i`. Polling ends when the server is online and
-- when the check fails: the error of `PollImmediateInfinite` is dropped.
unfoldable pub advance : ℕ → Answer → Poller → Polls → Polls
unfolding delete set_phase drop_at
advance i answer g p = elim g.phase [
  | polling ↦ elim answer [
    | offline ↦ p
    | online ↦ record p { pollers = set_phase i notifying p.pollers }
    | failed ↦ record p { pollers = set_phase i notifying p.pollers }
  ]
  | notifying ↦ record p {
    pollers = set_phase i cleaning p.pollers;
    delivered = g.uid ∷ p.delivered;
  }
  | cleaning ↦ record p { pollers = drop_at i p.pollers; triggers = delete g.uid p.triggers }
]

-- A reconciler's call, or the next action of a goroutine.
pub data Move : Type 0 where
  call_start : Cluster → Move
  goroutine : ℕ → Answer → Move

unfoldable pub step : Kit → Move → Polls → Polls
unfolding start advance poller_at
step K (call_start c) p = start K c p
step K (goroutine i answer) p = elim (poller_at i p.pollers) [
  | some g ↦ advance i answer g p
  | none ↦ p
]

unfoldable pub run : Kit → List Move → Polls → Polls
unfolding step
run K [] p = p
run K (m ∷ ms) p = run K ms (step K m p)

abbrev pub uids : List Poller → List String
uids = map (λ g. g.uid)

-- Before any call.
abbrev pub no_polls : Polls
no_polls = record { triggers = []; pollers = []; delivered = [] }
