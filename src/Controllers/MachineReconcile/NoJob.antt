-- ===== src/Controllers/MachineReconcile/NoJob.antt =====
-- A machine that is let go, and Nomad's table of jobs.
use cluster_api_provider_nom.Base.{ℕ, String, true, false, List, ◌∷◌, ◌≡◌, ◌⊎◌, inl, inr, contains}
use cluster_api_provider_nom.World.Error.{ok}
use cluster_api_provider_nom.World.Kit.{Kit}
use cluster_api_provider_nom.World.Wire.{Call, NomadConfig, patch_nomad_machine}
use cluster_api_provider_nom.World.Remote.{World}
use cluster_api_provider_nom.World.Monad.{Sys}
use cluster_api_provider_nom.Api.Meta.{ObjectMeta}
use cluster_api_provider_nom.Api.NomadMachine.{NomadMachine}
use cluster_api_provider_nom.Scope.MachineScope.{MachineScope, id, owned_conditions}
use cluster_api_provider_nom.Controllers.MachineDelete.Detach.{Detached}
use cluster_api_provider_nom.Controllers.MachineDelete.Laws.{Released}
use cluster_api_provider_nom.Controllers.MachineReconcile.{run_machine_scope}
use cluster_api_provider_nom.Controllers.MachineReconcile.Close.{
  KeptOrGone, run_machine_scope-IsPatched,
}

-- The ids of the jobs that Nomad has. A deregistration that Nomad takes, with the flag that purges,
-- removes the job at once.
pub record JobTable (W : World) : Type 0 where
  pub jobs : W.State → List String
  pub purged :
      (c : NomadConfig) (job_id eval_id : String) (w : W.State)
      → (W.deregister_job c job_id true w).0 ≡ ok eval_id
      → contains (jobs (W.deregister_job c job_id true w).1) job_id ≡ false

module _ (K : Kit) (W : World) (T : JobTable W) (s : MachineScope) (m₀ : ObjectMeta) where
  -- The metadata are as they were, or the machine's job is not in Nomad and a control plane is
  -- detached.
  abbrev pub KeptOrJobless : NomadMachine → W.State → Type 0
  KeptOrJobless m now =
      (m.meta ≡ m₀) ⊎ ((contains (T.jobs now) (id s) ≡ false) × Detached K W s m₀ m)

  Released-no_job :
      (calls : List Call) (now : W.State)
      → Released K W s m₀ calls now
      → contains (T.jobs now) (id s) ≡ false
  Released-no_job calls now r = rw r.after (T.purged r.config (id s) r.eval_id r.before r.accepted)

  KeptOrGone-KeptOrJobless :
      (fuel : ℕ) (m : NomadMachine) (earlier : List Call) (now : W.State)
      → KeptOrGone K W fuel s m₀ m earlier now
      → KeptOrJobless m now
  KeptOrGone-KeptOrJobless fuel m earlier now (inl kept) = inl kept
  KeptOrGone-KeptOrJobless fuel m earlier now (inr gone) =
      inr (Released-no_job gone.2 now gone.4, gone.1)

-- Where Nomad purges the jobs that it deregisters: a run on the scope of a deleted machine, however
-- it ends, ends with a patch of the machine, and at this patch the machine's metadata, with the
-- finalizer, are as they were, or Nomad has no job of the machine's name and a control plane is no
-- longer attached to DNS.
pub run_machine_scope-KeptOrJobless :
    (K : Kit) (W : World) (T : JobTable W) (fuel : ℕ) (s : MachineScope) (sys : Sys W.State)
    → K.is_zero sys.nomad_machine.meta.deletion_timestamp ≡ false
    → let t = (run_machine_scope K W fuel s sys).1 in
      (m : NomadMachine) × (earlier : List Call) × (now : W.State) × (t.calls
        ≡ patch_nomad_machine m ∷ earlier)
      × (t.world ≡ (W.patch_nomad_machine s.patch_helper m owned_conditions now).1)
      × KeptOrJobless K W T s sys.nomad_machine.meta m now
run_machine_scope-KeptOrJobless K W T fuel s sys deleted =
    let p = run_machine_scope-IsPatched K W fuel s sys deleted in
    (
      p.patched,
      p.earlier,
      p.now,
      p.calls,
      p.world,
      KeptOrGone-KeptOrJobless K W T s sys.nomad_machine.meta fuel p.patched p.earlier p.now
          p.kept_or_gone,
    )
