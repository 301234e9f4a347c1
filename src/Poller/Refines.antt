-- ===== src/Poller/Refines.antt =====
-- What the polling promises for one cluster: a small machine with no map and no list of goroutines.
use mathlib.Core.Path.{subst, subst₂}
use cluster_api_provider_nom.Base.{
  ℕ, zero, suc, String, true, false, Option, none, some, List, [], ◌∷◌, ◌≡◌, refl, sym, ap, inl,
  inr, Bool-cases, Option-cases, contains, arith, if◌then◌else◌,
}
use cluster_api_provider_nom.Base.Text.{◌==◌, eq_iff}
use cluster_api_provider_nom.World.Kit.{Kit}
use cluster_api_provider_nom.Api.Meta.{Cluster}
use cluster_api_provider_nom.Poller.{
  Phase, polling, notifying, cleaning, Poller, Polls, start, Answer, offline, online, failed,
  poller_at, set_phase, drop_at, advance, Move, call_start, goroutine, step, run, uids, no_polls,
}
use cluster_api_provider_nom.Poller.Laws.{IsConsistent, Distinct, step-IsConsistent}
use cluster_api_provider_nom.Poller.Runs.{tally}

-- One cluster: no goroutine, or one in a phase; and how many events were sent for it.
pub record Watch : Type 0 where
  pub phase : Option Phase
  pub sent : ℕ

-- The promised behaviour: polling begins when there is none, ends once, sends one event, and makes
-- room for the next. Nothing may happen to the cluster meanwhile.
pub data Turn : Watch → Watch → Type 0 where
  stays : {n : Watch} → Turn n n
  begins :
      {n : ℕ} → Turn (record { phase = none; sent = n }) (record { phase = some polling; sent = n })
  finds :
      {n : ℕ}
      → Turn
          (record { phase = some polling; sent = n })
          (record { phase = some notifying; sent = n })
  sends :
      {n : ℕ}
      → Turn
          (record { phase = some notifying; sent = n })
          (record { phase = some cleaning; sent = suc n })
  ends :
      {n : ℕ}
      → Turn (record { phase = some cleaning; sent = n }) (record { phase = none; sent = n })

-- The watch after a goroutine's action.
abbrev after : Phase → Answer → ℕ → Watch
after polling offline n = record { phase = some polling; sent = n }
after polling online n = record { phase = some notifying; sent = n }
after polling failed n = record { phase = some notifying; sent = n }
after notifying _ n = record { phase = some cleaning; sent = suc n }
after cleaning _ n = record { phase = none; sent = n }

after-Turn :
    (f : Phase) (a : Answer) (n : ℕ) → Turn (record { phase = some f; sent = n }) (after f a n)
after-Turn polling offline n = stays
after-Turn polling online n = finds
after-Turn polling failed n = finds
after-Turn notifying a n = sends
after-Turn cleaning a n = ends

pub data Turns (v : Watch) : Watch → Type 0 where
  here : Turns v v
  next : {w x : Watch} → Turns v w → Turn w x → Turns v x

module _ (u : String) where
  abbrev phase_of : List Poller → Option Phase
  phase_of [] = none
  phase_of (g ∷ ps) = if g.uid == u then some g.phase else phase_of ps

  -- How the state of the polling looks to the cluster with the UID `u`.
  abbrev pub view : Polls → Watch
  view p = record { phase = phase_of p.pollers; sent = tally u p.delivered }

  phase_absent : (ps : List Poller) → contains (uids ps) u ≡ false → phase_of ps ≡ none
  phase_absent [] h = refl
  phase_absent (g ∷ ps) h = ground (arith, phase_absent ps)

  uid_absent :
      (i : ℕ) (ps : List Poller) (g : Poller)
      → contains (uids ps) u ≡ false
      → poller_at i ps ≡ some g
      → (g.uid == u) ≡ false
  unfolding poller_at
  uid_absent i [] g h e = cc
  uid_absent zero (p ∷ ps) g h e = ground arith
  uid_absent (suc i) (p ∷ ps) g h e = ground (arith, uid_absent i ps g)

  phase_at :
      (i : ℕ) (ps : List Poller) (g : Poller)
      → Distinct (uids ps)
      → poller_at i ps ≡ some g
      → (g.uid == u) ≡ true
      → phase_of ps ≡ some g.phase
  unfolding poller_at
  phase_at i [] g d e same = cc
  phase_at zero (p ∷ ps) g d e same = ground arith
  phase_at (suc i) (p ∷ ps) g d e same =
      ground (arith, phase_at i ps g d.1, uid_absent i ps g, eq_iff p.uid u)

  phase-set_phase :
      (i : ℕ) (f : Phase) (ps : List Poller) (g : Poller)
      → Distinct (uids ps)
      → poller_at i ps ≡ some g
      → phase_of (set_phase i f ps) ≡ (if g.uid == u then some f else phase_of ps)
  unfolding poller_at set_phase
  phase-set_phase i f [] g d e = cc
  phase-set_phase zero f (p ∷ ps) g d e = ground arith
  phase-set_phase (suc i) f (p ∷ ps) g d e =
      ground (arith, phase-set_phase i f ps g d.1 e, uid_absent i ps g, eq_iff p.uid u)

  phase-drop_at :
      (i : ℕ) (ps : List Poller) (g : Poller)
      → Distinct (uids ps)
      → poller_at i ps ≡ some g
      → phase_of (drop_at i ps) ≡ (if g.uid == u then none else phase_of ps)
  unfolding poller_at drop_at
  phase-drop_at i [] g d e = cc
  phase-drop_at zero (p ∷ ps) g d e = ground (arith, phase_absent ps, eq_iff p.uid u)
  phase-drop_at (suc i) (p ∷ ps) g d e =
      ground (arith, phase-drop_at i ps g d.1 e, uid_absent i ps g, eq_iff p.uid u)

  -- The view of another cluster's goroutine does not change.
  advance_other :
      (i : ℕ) (answer : Answer) (g : Poller) (p : Polls)
      → Distinct (uids p.pollers)
      → poller_at i p.pollers ≡ some g
      → (g.uid == u) ≡ false
      → view (advance i answer g p) ≡ view p
  unfolding advance
  advance_other i answer g p d e other = ground (
    arith,
    phase-set_phase i notifying p.pollers g d e,
    phase-set_phase i cleaning p.pollers g d e,
    phase-drop_at i p.pollers g d e,
  )

  advance_own :
      (i : ℕ) (answer : Answer) (g : Poller) (p : Polls)
      → Distinct (uids p.pollers)
      → poller_at i p.pollers ≡ some g
      → (g.uid == u) ≡ true
      → view (advance i answer g p) ≡ after g.phase answer (tally u p.delivered)
  unfolding advance
  advance_own i answer g p d e same = ground (
    arith,
    phase_at i p.pollers g d e same,
    phase-set_phase i notifying p.pollers g d e,
    phase-set_phase i cleaning p.pollers g d e,
    phase-drop_at i p.pollers g d e,
  )

  advance-Turn :
      (i : ℕ) (answer : Answer) (g : Poller) (p : Polls)
      → Distinct (uids p.pollers)
      → poller_at i p.pollers ≡ some g
      → Turn (view p) (view (advance i answer g p))
  advance-Turn i answer g p d e = elim (Bool-cases (g.uid == u)) [
    | inl same ↦
        subst₂ Turn
          (ap (λ f. record { phase = f; sent = tally u p.delivered })
            (sym (phase_at i p.pollers g d e same)))
          (sym (advance_own i answer g p d e same))
          (after-Turn g.phase answer (tally u p.delivered))
    | inr other ↦ subst (Turn (view p)) (sym (advance_other i answer g p d e other)) stays
  ]

  -- A goroutine is added for a cluster that has none.
  begin-Turn :
      (c : Cluster) (p : Polls)
      → contains (uids p.pollers) c.meta.uid ≡ false
      → Turn (view p) (
          view (record p {
            triggers = c.meta.uid ∷ p.triggers;
            pollers = record { uid = c.meta.uid; cluster = c; phase = polling } ∷ p.pollers;
          }))
  begin-Turn c p new = elim (Bool-cases (c.meta.uid == u)) [
    | inl same ↦ rw same (
        rw
          (phase_absent p.pollers
            (subst (λ v. contains (uids p.pollers) v ≡ false) ((eq_iff c.meta.uid u).0 same) new))
          begins)
    | inr other ↦ rw other stays
  ]

  -- A reconciler's call leaves the cluster alone, or begins its polling where there was none.
  start-Turn :
      (K : Kit) (c : Cluster) (p : Polls) → IsConsistent p → Turn (view p) (view (start K c p))
  unfolding start
  start-Turn K c p h = elim (Bool-cases c.control_plane_initialized) [
    | inl done ↦ rw done stays
    | inr open_ ↦ rw open_ (elim (Bool-cases (K.is_zero c.meta.deletion_timestamp)) [
      | inr deleted ↦ rw deleted stays
      | inl alive ↦ rw alive (elim (Bool-cases (contains p.triggers c.meta.uid)) [
        | inl old ↦ rw old stays
        | inr new ↦
            rw new (begin-Turn c p (subst (λ us. contains us c.meta.uid ≡ false) h.keys new))
      ])
    ])
  ]

  step-Turn : (K : Kit) (m : Move) (p : Polls) → IsConsistent p → Turn (view p) (view (step K m p))
  unfolding step
  step-Turn K (call_start c) p h = start-Turn K c p h
  step-Turn K (goroutine i answer) p h = elim (Option-cases (poller_at i p.pollers)) [
    | inl out ↦ rw (out, step) stays
    | inr (g, found) ↦
        rw (found, step) (advance-Turn i answer g p (subst Distinct h.keys h.distinct) found)
  ]

  run-Turns :
      (K : Kit) (ms : List Move) (p : Polls) {v : Watch}
      → IsConsistent p
      → Turns v (view p)
      → Turns v (view (run K ms p))
  unfolding run
  run-Turns K [] p h t = t
  run-Turns K (m ∷ ms) p h t =
      run-Turns K ms (step K m p) (step-IsConsistent K m p h) (next t (step-Turn K m p h))

-- The polling refines, for every cluster, the machine with one phase and a count: whatever
-- calls and actions interleave, those for other clusters included, the view of the cluster
-- moves by its turns.
pub run-refines :
    (u : String) (K : Kit) (ms : List Move)
    → Turns (record { phase = none; sent = 0 }) (view u (run K ms no_polls))
run-refines u K ms = run-Turns u K ms no_polls (record { keys = refl; distinct = tt }) here
