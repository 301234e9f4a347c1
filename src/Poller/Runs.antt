-- ===== src/Poller/Runs.antt =====
-- Every interleaving of the reconcilers' calls and of the goroutines' actions.
use cluster_api_provider_nom.Base.{
  ℕ, zero, suc, ◌+◌, ◌≤◌, String, some, List, [], ◌∷◌, ◌≡◌, ◌≢◌, refl, ap, inl, inr, Option-cases,
  arith, if◌then◌else◌,
}
use cluster_api_provider_nom.Base.Text.{◌==◌}
use cluster_api_provider_nom.World.Kit.{Kit}
use cluster_api_provider_nom.Api.Meta.{Cluster}
use cluster_api_provider_nom.Poller.{
  Phase, polling, notifying, cleaning, Poller, Polls, start, Answer, offline, delete, poller_at,
  set_phase, drop_at, advance, Move, call_start, goroutine, step, run, no_polls,
}

module _ (u : String) where
  abbrev pub tally : List String → ℕ
  tally [] = 0
  tally (v ∷ us) = let rest = tally us in if v == u then suc rest else rest

  -- Whether a goroutine has an event of the cluster `u` still to send.
  abbrev owes : Phase → ℕ
  owes polling = 1
  owes notifying = 1
  owes cleaning = 0

  abbrev owing : List Poller → ℕ
  owing [] = 0
  owing (g ∷ ps) = if g.uid == u then owes g.phase + owing ps else owing ps

  -- How often the reconcilers called with the cluster `u`.
  abbrev pub calls : List Move → ℕ
  calls [] = 0
  calls (call_start c ∷ ms) = if c.meta.uid == u then suc (calls ms) else calls ms
  calls (goroutine _ _ ∷ ms) = calls ms

  -- Events of the cluster `u` that were sent or will be.
  abbrev pub events : Polls → ℕ
  events p = tally p.delivered + owing p.pollers

  owing-set_phase :
      (i : ℕ) (f : Phase) (ps : List Poller) (g : Poller)
      → poller_at i ps ≡ some g
      → owing (set_phase i f ps) + (if g.uid == u then owes g.phase else 0)
        ≡ owing ps + (if g.uid == u then owes f else 0)
  unfolding poller_at set_phase
  owing-set_phase i f [] g h = cc
  owing-set_phase zero f (p ∷ ps) g h = ground arith
  owing-set_phase (suc i) f (p ∷ ps) g h = ground (arith, owing-set_phase i f ps g h)

  owing-drop_at :
      (i : ℕ) (ps : List Poller) (g : Poller)
      → poller_at i ps ≡ some g
      → owing (drop_at i ps) + (if g.uid == u then owes g.phase else 0) ≡ owing ps
  unfolding poller_at drop_at
  owing-drop_at i [] g h = cc
  owing-drop_at zero (p ∷ ps) g h = ground arith
  owing-drop_at (suc i) (p ∷ ps) g h = ground (arith, owing-drop_at i ps g h)

  events-advance :
      (i : ℕ) (answer : Answer) (g : Poller) (p : Polls)
      → poller_at i p.pollers ≡ some g
      → events (advance i answer g p) ≤ events p
  unfolding advance
  events-advance i answer g p h = ground (
    arith,
    owing-set_phase i notifying p.pollers g h,
    owing-set_phase i cleaning p.pollers g h,
    owing-drop_at i p.pollers g h,
  )

  events-start :
      (K : Kit) (c : Cluster) (p : Polls)
      → events (start K c p) ≤ events p + calls (call_start c ∷ [])
  unfolding start
  events-start K c p = ground arith

  events-step : (K : Kit) (m : Move) (p : Polls) → events (step K m p) ≤ events p + calls (m ∷ [])
  unfolding step
  events-step K (call_start c) p = events-start K c p
  events-step K (goroutine i answer) p = elim (Option-cases (poller_at i p.pollers)) [
    | inl out ↦ rw (out, step) (omega arith)
    | inr (g, found) ↦ rw (found, step) (omega (arith, events-advance i answer g p found))
  ]

  calls-cons : (m : Move) (ms : List Move) → calls (m ∷ ms) ≡ calls (m ∷ []) + calls ms
  calls-cons (call_start c) ms = ground arith
  calls-cons (goroutine _ _) ms = omega arith

  events-run : (K : Kit) (ms : List Move) (p : Polls) → events (run K ms p) ≤ events p + calls ms
  unfolding run
  events-run K [] p = omega arith
  events-run K (m ∷ ms) p =
      omega (arith, events-run K ms (step K m p), events-step K m p, calls-cons m ms)

-- In every interleaving a cluster's events, those sent and those that a running goroutine has still
-- to send together, are no more than the reconcilers' calls with that cluster.
pub events-le-calls :
    (u : String) (K : Kit) (ms : List Move) → events u (run K ms no_polls) ≤ calls u ms
events-le-calls u K ms = omega (arith, events-run u K ms no_polls)

poller_at-set_phase :
    (i : ℕ) (f : Phase) (ps : List Poller) (g : Poller)
    → poller_at i ps ≡ some g
    → poller_at i (set_phase i f ps) ≡ some (record g { phase = f })
unfolding poller_at set_phase
poller_at-set_phase i f [] g h = cc
poller_at-set_phase zero f (p ∷ ps) g h = ground arith
poller_at-set_phase (suc i) f (p ∷ ps) g h = poller_at-set_phase i f ps g h

drop_at-set_phase :
    (i : ℕ) (f : Phase) (ps : List Poller) → drop_at i (set_phase i f ps) ≡ drop_at i ps
unfolding drop_at set_phase
drop_at-set_phase i f [] = refl
drop_at-set_phase zero f (p ∷ ps) = refl
drop_at-set_phase (suc i) f (p ∷ ps) = ap (λ r. p ∷ r) (drop_at-set_phase i f ps)

module _ (K : Kit) (i : ℕ) (answer : Answer) (p : Polls) (g : Poller)
    (found : poller_at i p.pollers ≡ some g) where
  step_polling :
      g.phase ≡ polling
      → answer ≢ offline
      → step K (goroutine i answer) p ≡ record p { pollers = set_phase i notifying p.pollers }
  unfolding step
  step_polling e ne = ground arith

  step_notifying :
      g.phase ≡ notifying
      → step K (goroutine i answer) p
        ≡ record p { pollers = set_phase i cleaning p.pollers; delivered = g.uid ∷ p.delivered }
  unfolding step
  step_notifying e = ground arith

  step_cleaning :
      g.phase ≡ cleaning
      → step K (goroutine i answer) p
        ≡ record p { pollers = drop_at i p.pollers; triggers = delete g.uid p.triggers }
  unfolding step
  step_cleaning e = ground arith

-- A goroutine whose check ends the polling, because the server is online or because the check
-- failed, is gone after two more actions of its own, taken at once: it has sent one event for
-- its cluster and deleted its key.
pub poller_finishes :
    (K : Kit) (i : ℕ) (answer a b : Answer) (p : Polls) (g : Poller)
    → poller_at i p.pollers ≡ some g
    → g.phase ≡ polling
    → answer ≢ offline
    → run K (goroutine i answer ∷ goroutine i a ∷ goroutine i b ∷ []) p ≡ record {
      triggers = delete g.uid p.triggers;
      pollers = drop_at i p.pollers;
      delivered = g.uid ∷ p.delivered;
    }
unfolding run
poller_finishes K i answer a b p g h e ne =
    let h₁ = poller_at-set_phase i notifying p.pollers g h in
    let h₂ =
      poller_at-set_phase i cleaning (set_phase i notifying p.pollers)
        (record g { phase = notifying }) h₁ in
    rw (step_polling K i answer p g h e ne) (
      rw
        (step_notifying K i a (record p { pollers = set_phase i notifying p.pollers })
          (record g { phase = notifying }) h₁ refl)
        (rw
          (step_cleaning K i b
            (record p {
              pollers = set_phase i cleaning (set_phase i notifying p.pollers);
              delivered = g.uid ∷ p.delivered;
            })
            (record g { phase = cleaning }) h₂ refl)
          (rw (drop_at-set_phase, drop_at-set_phase) refl)))
