-- ===== src/Machine/Service/Polling.antt =====
-- Waiting for an evaluation: what enough fuel gives.
use cluster_api_provider_nom.Base.{
  ℕ, zero, suc, ◌<◌, String, ◌≡◌, ◌≢◌, ◌⊎◌, inl, inr, refl, List, ◌∷◌, arith,
}
use cluster_api_provider_nom.Base.Text.{eq_iff}
use cluster_api_provider_nom.World.Error.{Error, Result, ok, err}
use cluster_api_provider_nom.World.Wire.{NomadConfig, Evaluation, Call, read_evaluation, sleep}
use cluster_api_provider_nom.World.Remote.{World}
use cluster_api_provider_nom.World.Monad.{Sys, returned, unfinished, M, ◌>>=◌}
use cluster_api_provider_nom.Machine.Service.{settle, poll_evaluation, get_deployment_id}

Result-cases : {A : Type 0} (r : Result A) → ((a : A) × (r ≡ ok a)) ⊎ ((e : Error) × (r ≡ err e))
Result-cases (ok a) = inl (a, refl)
Result-cases (err e) = inr (e, refl)

module _ (W : World) (c : NomadConfig) (eval_id : String) where
  -- The evaluation is read as pending `n` times in a row, with a pause after each, and this takes
  -- the world from one state to another.
  pub data Pending : W.State → ℕ → W.State → Type 0 where
    stop : {w : W.State} → Pending w 0 w
    round :
        {w v : W.State} {n : ℕ} (e : Evaluation)
        → (W.read_evaluation c eval_id w).0 ≡ ok e
        → e.status ≡ "pending"
        → Pending (W.sleep 1 (W.read_evaluation c eval_id w).1).1 n v
        → Pending w (suc n) v

  -- The answer at which the waiting ends.
  abbrev pub Settled : Result Evaluation → Type 0
  Settled (ok e) = e.status ≢ "pending"
  Settled (err e) = Unit

  abbrev pub settle_answer : Result Evaluation → Result String
  settle_answer (ok e) = settle e
  settle_answer (err e) = err e

  -- The calls of `n` rounds, in front of those before.
  abbrev pub rounds : ℕ → List Call → List Call
  rounds zero calls = calls
  rounds (suc n) calls = rounds n (sleep 1 ∷ read_evaluation c eval_id ∷ calls)

  poll_pending :
      (rest : M W.State (Result String)) (s : Sys W.State) (e : Evaluation)
      → (W.read_evaluation c eval_id s.world).0 ≡ ok e
      → e.status ≡ "pending"
      → poll_evaluation W c eval_id rest s
        ≡ rest (record s {
          world = (W.sleep 1 (W.read_evaluation c eval_id s.world).1).1;
          calls = sleep 1 ∷ read_evaluation c eval_id ∷ s.calls;
        })
  unfolding poll_evaluation ◌>>=◌
  poll_pending rest s e read pending = rw read (rw pending refl)

  poll-Settled :
      (rest : M W.State (Result String)) (s : Sys W.State)
      → Settled (W.read_evaluation c eval_id s.world).0
      → poll_evaluation W c eval_id rest s ≡ (
        returned (settle_answer (W.read_evaluation c eval_id s.world).0),
        record s {
          world = (W.read_evaluation c eval_id s.world).1;
          calls = read_evaluation c eval_id ∷ s.calls;
        },
      )
  unfolding poll_evaluation ◌>>=◌
  poll-Settled rest s h = elim (Result-cases (W.read_evaluation c eval_id s.world).0) [
    | inl (e, found) ↦
        let other : e.status ≢ "pending" = rw found at h in
        rw found (ground (arith, eq_iff e.status "pending"))
    | inr (e, failed) ↦ rw failed refl
  ]

  -- If an evaluation reads as pending `n` times and then not, and the fuel is more than `n`,
  -- the wait ends: it returns the deployment's id of a complete evaluation and an error for any
  -- other answer, having read the evaluation `n + 1` times, with a pause of one second after
  -- each pending one.
  pub get_deployment_id_settles :
      (n fuel : ℕ) (s : Sys W.State) {v : W.State}
      → Pending s.world n v
      → Settled (W.read_evaluation c eval_id v).0
      → n < fuel
      → get_deployment_id W fuel c eval_id s ≡ (
        returned (settle_answer (W.read_evaluation c eval_id v).0),
        record s {
          world = (W.read_evaluation c eval_id v).1;
          calls = read_evaluation c eval_id ∷ rounds n s.calls;
        },
      )
  unfolding get_deployment_id ◌>>=◌
  get_deployment_id_settles n zero s p h lt = elim lt [ ]
  get_deployment_id_settles n (suc fuel) s stop h lt =
      poll-Settled (get_deployment_id W fuel c eval_id) s h
  get_deployment_id_settles (suc n) (suc fuel) s (round e read pending p) h lt =
      rw (poll_pending _ s e read pending) (get_deployment_id_settles n fuel _ p h (omega arith))

  -- While an evaluation reads as pending the wait goes on: after `n` such reads the fuel `n` is
  -- spent.
  pub get_deployment_id_waits :
      (n : ℕ) (s : Sys W.State) {v : W.State}
      → Pending s.world n v
      → get_deployment_id W n c eval_id s
        ≡ (unfinished, record s { world = v; calls = rounds n s.calls })
  unfolding get_deployment_id ◌>>=◌
  get_deployment_id_waits n s stop = refl
  get_deployment_id_waits (suc n) s (round e read pending p) =
      rw (poll_pending _ s e read pending) (get_deployment_id_waits n _ p)
