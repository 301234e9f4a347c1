-- ===== src/Poller/Laws.antt =====
-- One step of the polling, and the map of triggers.
use mathlib.Core.Path.{subst}
use cluster_api_provider_nom.Base.{
  ℕ, zero, suc, String, true, false, some, List, [], ◌∷◌, ◌≡◌, refl, ap, inl, inr, Option-cases,
  contains, arith,
}
use cluster_api_provider_nom.Base.Text.{eq_iff}
use cluster_api_provider_nom.World.Kit.{Kit}
use cluster_api_provider_nom.Api.Meta.{Cluster}
use cluster_api_provider_nom.Poller.{
  Phase, notifying, cleaning, notifying, cleaning, Poller, Polls, start, Answer, delete, poller_at,
  set_phase, drop_at, advance, Move, call_start, goroutine, step, uids,
}

abbrev pub Distinct : List String → Type 0
Distinct [] = Unit
Distinct (u ∷ us) = (contains us u ≡ false) × Distinct us

-- The map has a key for each goroutine and no other, and no two goroutines have the same.
pub record IsConsistent (p : Polls) : Type 0 where
  pub keys : p.triggers ≡ uids p.pollers
  pub distinct : Distinct p.triggers

pub uids-set_phase : (i : ℕ) (f : Phase) (ps : List Poller) → uids (set_phase i f ps) ≡ uids ps
unfolding set_phase
uids-set_phase i f [] = refl
uids-set_phase zero f (p ∷ ps) = refl
uids-set_phase (suc i) f (p ∷ ps) = ap (λ us. p.uid ∷ us) (uids-set_phase i f ps)

delete_absent : (u : String) (us : List String) → contains us u ≡ false → delete u us ≡ us
unfolding delete
delete_absent u [] h = refl
delete_absent u (v ∷ us) h = ground (arith, delete_absent u us)

contains-delete :
    (u v : String) (us : List String) → contains us v ≡ false → contains (delete u us) v ≡ false
unfolding delete
contains-delete u v [] h = refl
contains-delete u v (w ∷ us) h = ground (arith, contains-delete u v us)

delete-Distinct : (u : String) (us : List String) → Distinct us → Distinct (delete u us)
unfolding delete
delete-Distinct u [] d = tt
delete-Distinct u (v ∷ us) d = ground (arith, delete-Distinct u us, contains-delete u v us)

uids_at :
    (i : ℕ) (ps : List Poller) (g : Poller)
    → poller_at i ps ≡ some g
    → contains (uids ps) g.uid ≡ true
unfolding poller_at
uids_at i [] g h = cc
uids_at zero (p ∷ ps) g h = ground (arith, eq_iff p.uid g.uid)
uids_at (suc i) (p ∷ ps) g h = ground (arith, uids_at i ps g h)

delete-uids :
    (i : ℕ) (ps : List Poller) (g : Poller)
    → Distinct (uids ps)
    → poller_at i ps ≡ some g
    → delete g.uid (uids ps) ≡ uids (drop_at i ps)
unfolding delete poller_at drop_at
delete-uids i [] g d h = cc
delete-uids zero (p ∷ ps) g d h = ground (arith, eq_iff p.uid g.uid, delete_absent g.uid (uids ps))
delete-uids (suc i) (p ∷ ps) g d h =
    ground (arith, eq_iff p.uid g.uid, uids_at i ps g h, delete-uids i ps g d.1 h)

pub advance-IsConsistent :
    (i : ℕ) (answer : Answer) (g : Poller) (p : Polls)
    → IsConsistent p
    → poller_at i p.pollers ≡ some g
    → IsConsistent (advance i answer g p)
unfolding advance
advance-IsConsistent i answer g p c h = ground (
  arith,
  uids-set_phase i notifying p.pollers,
  uids-set_phase i cleaning p.pollers,
  delete-uids i p.pollers g (subst Distinct c.keys c.distinct) h,
  delete-Distinct g.uid p.triggers c.distinct,
)

pub start-IsConsistent :
    (K : Kit) (c : Cluster) (p : Polls) → IsConsistent p → IsConsistent (start K c p)
unfolding start
start-IsConsistent K c p i = ground arith

-- A reconciler's call and an action of any goroutine keep the map and the goroutines in step:
-- the map has a key for each goroutine and no other, and no two goroutines poll for the same
-- cluster.
pub step-IsConsistent :
    (K : Kit) (m : Move) (p : Polls) → IsConsistent p → IsConsistent (step K m p)
unfolding step
step-IsConsistent K (call_start c) p h = start-IsConsistent K c p h
step-IsConsistent K (goroutine i answer) p h = elim (Option-cases (poller_at i p.pollers)) [
  | inl out ↦ rw (out, step) h
  | inr (g, found) ↦ rw (found, step) (advance-IsConsistent i answer g p h found)
]
