-- ===== src/Manager/Laws.antt =====
-- How `main` ends.
use mathlib.Core.Path.{fun_ext}
use cluster_api_provider_nom.Base.{ℕ, Option, none, some, List, [], ◌∷◌, ◌++◌, ◌≡◌, refl, arith}
use cluster_api_provider_nom.World.Error.{Error}
use cluster_api_provider_nom.Manager.Boot.{
  Flags, Step, new_manager, add_readyz_check, add_healthz_check, new_tracker,
  setup_cache_reconciler, objects_mapper, build, watch, start, Host, Process, Ending, goes_on,
  exits, Boot, continue, pure, on_no_error, exit_on, must, ◌>>=◌, ◌>>◌,
}
use cluster_api_provider_nom.Manager.Setup.{
  init_flags, manager_options, concurrency, machine_controller, machine_cluster_watch,
  cluster_controller, cluster_cluster_watch, setup_machine_reconciler, setup_cluster_reconciler,
  setup_checks, setup_reconcilers, setup_webhooks, parse, main,
}

-- The steps of a start, in order.
abbrev pub plan : Flags → List Step
plan flags =
    new_manager (manager_options flags)
    ∷ add_readyz_check "ping"
    ∷ add_healthz_check "ping"
    ∷ new_tracker
    ∷ setup_cache_reconciler 1
    ∷ objects_mapper "NomadMachineList"
    ∷ build (machine_controller (concurrency flags.machine_concurrency))
    ∷ watch machine_cluster_watch
    ∷ build cluster_controller
    ∷ watch cluster_cluster_watch
    ∷ start
    ∷ []

continue_assoc :
    {S A B C : Type 0} (r : Ending A) (f : A → Boot S B) (g : B → Boot S C) (p : Process S)
    → ((λ q. continue r f q) >>= g) p ≡ continue r (λ a. f a >>= g) p
unfolding ◌>>=◌
continue_assoc (goes_on a) f g p = refl
continue_assoc (exits code) f g p = refl

bind_assoc :
    {S A B C : Type 0} (m : Boot S A) (f : A → Boot S B) (g : B → Boot S C)
    → (m >>= f) >>= g ≡ m >>= λ a. f a >>= g
unfolding ◌>>=◌
bind_assoc m f g = fun_ext λ p. continue_assoc (m p).0 f g (m p).1

continue_unit :
    {S : Type 0} (r : Ending (Unit {0})) (p : Process S) → continue r (λ _. pure tt) p ≡ (r, p)
unfolding pure
continue_unit (goes_on tt) p = refl
continue_unit (exits code) p = refl

bind_unit : {S : Type 0} (m : Boot S (Unit {0})) → (m >> pure tt) ≡ m
unfolding ◌>>=◌
bind_unit m = fun_ext λ p. continue_unit (m p).0 (m p).1

module _ (H : Host) where
  -- The steps one after another, up to the first that fails.
  pub run_steps : List Step → Boot H.State (Unit {0})
  run_steps [] = pure tt
  run_steps (s ∷ rest) = do must H s; run_steps rest

  machine_setup :
      (o : Option ℕ) (k : Boot H.State (Unit {0}))
      → (setup_machine_reconciler H o >>= λ failed. (exit_on H failed >> k)) ≡ (
          must H (objects_mapper "NomadMachineList")
          >> (must H (build (machine_controller o)) >> (must H (watch machine_cluster_watch) >> k)))
  unfolding setup_machine_reconciler must ◌>>=◌
  machine_setup o k = fun_ext λ p. ground arith

  cluster_setup :
      (k : Boot H.State (Unit {0}))
      → (setup_cluster_reconciler H >>= λ failed. (exit_on H failed >> k))
        ≡ (must H (build cluster_controller) >> (must H (watch cluster_cluster_watch) >> k))
  unfolding setup_cluster_reconciler must ◌>>=◌
  cluster_setup k = fun_ext λ p. ground arith

  start_body :
      (flags : Flags)
      → (must H (new_manager (manager_options flags))
          >> (setup_checks H >> (setup_reconcilers H flags >> (setup_webhooks H >> must H start))))
        ≡ run_steps (plan flags)
  unfolding setup_checks setup_reconcilers setup_webhooks run_steps ◌>>=◌
  start_body flags = simp (bind_assoc, bind_unit, machine_setup, cluster_setup)

  -- `main` is the straight line of its plan: it reads the command line, and then makes the
  -- steps of the plan for the flags that it read, one after another, up to the first that
  -- fails.
  pub main_lem : main H ≡ (parse H >>= λ flags. run_steps (plan flags))
  unfolding main
  main_lem = simp (start_body)

-- Every step of the list succeeds, from the first state to the second.
pub data Succeeds (H : Host) : List Step → H.State → H.State → Type 0 where
  none_left : {w : H.State} → Succeeds H [] w w
  one_more :
      {s : Step} {rest : List Step} {w w1 w2 : H.State}
      → H.attempt s w ≡ (none, w1)
      → Succeeds H rest w1 w2
      → Succeeds H (s ∷ rest) w w2

-- The steps on top of those before, the last one first.
unfoldable pub onto : List Step → List Step → List Step
onto [] before = before
onto (s ∷ rest) before = onto rest (s ∷ before)

-- How a run of the steps ends: all were made and succeeded, or the process exits with 1 at the one
-- that failed, with all before it made, and none after it.
pub data Outcome (H : Host)
    : List Step → Process H.State → Ending (Unit {0}) → Process H.State → Type 0 where
  all_made :
      {ss : List Step} {p : Process H.State} {w : H.State}
      → Succeeds H ss p.host w
      → Outcome H ss p (goes_on tt) (record { host = w; steps = onto ss p.steps })
  gave_up :
      {p : Process H.State} {before : List Step} {s : Step} (rest : List Step) {e : Error}
      {w w1 : H.State}
      → Succeeds H before p.host w
      → H.attempt s w ≡ (some e, w1)
      → Outcome H
          (before ++ s ∷ rest)
          p
          (exits 1)
          (record { host = w1; steps = s ∷ onto before p.steps })

module _ (H : Host) where
  made-Outcome :
      {s : Step} {rest : List Step} {p : Process H.State} {w : H.State}
      (ok : H.attempt s p.host ≡ (none, w)) {r : Ending (Unit {0})} {q : Process H.State}
      → Outcome H rest (record { host = w; steps = s ∷ p.steps }) r q
      → Outcome H (s ∷ rest) p r q
  unfolding onto
  made-Outcome ok (all_made rest-Succeeds) = all_made (one_more ok rest-Succeeds)
  made-Outcome ok (gave_up unmade before-Succeeds failure) =
      gave_up unmade (one_more ok before-Succeeds) failure

  step-Outcome :
      (s : Step) (rest : List Step) (p : Process H.State)
      (rest-Outcome : (q : Process H.State)
        → Outcome H rest q (run_steps H rest q).0 (run_steps H rest q).1)
      (failed : Option Error) (w : H.State)
      → H.attempt s p.host ≡ (failed, w)
      → let after =
          (exit_on H failed >> run_steps H rest) (record { host = w; steps = s ∷ p.steps }) in
        Outcome H (s ∷ rest) p after.0 after.1
  unfolding onto ◌>>=◌
  step-Outcome s rest p rest-Outcome none w ok =
      made-Outcome ok (rest-Outcome (record { host = w; steps = s ∷ p.steps }))
  step-Outcome s rest p rest-Outcome (some e) w failure = gave_up rest none_left failure

  run_steps-Outcome :
      (ss : List Step) (p : Process H.State)
      → Outcome H ss p (run_steps H ss p).0 (run_steps H ss p).1
  unfolding run_steps onto must pure ◌>>=◌ on_no_error
  run_steps-Outcome [] p = all_made none_left
  run_steps-Outcome (s ∷ rest) p =
      step-Outcome s rest p (run_steps-Outcome rest) (H.attempt s p.host).0 (H.attempt s p.host).1
        refl

  -- Where the command line is read, a run of `main` ends in one of two ways: all the steps of its
  -- plan, for the flags that it read, were made in order and succeeded; or it exits with 1, the steps
  -- that it made are the first ones of the plan, the last of these failed, and all before it
  -- succeeded.
  pub main-Outcome :
      {w w1 : H.State} (flags : Flags)
      → H.parse_flags init_flags w ≡ (goes_on flags, w1)
      → let run = main H (record { host = w; steps = [] }) in
        Outcome H (plan flags) (record { host = w1; steps = [] }) run.0 run.1
  unfolding parse ◌>>=◌ run_steps
  main-Outcome {w1 = w1} flags read =
      rw (main_lem H) (rw read (run_steps-Outcome (plan flags) (record { host = w1; steps = [] })))
