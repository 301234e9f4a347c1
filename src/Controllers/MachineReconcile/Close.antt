-- ===== src/Controllers/MachineReconcile/Close.antt =====
-- The end of a run on a machine: the deferred patch.
use cluster_api_provider_nom.Base.{
  true, ap, ◌∙◌, ℕ, ◌<>◌, false, List, ◌∷◌, ◌≡◌, ◌⊎◌, inl, inr, refl,
}
use cluster_api_provider_nom.World.Kit.{Kit, IsLawful}
use cluster_api_provider_nom.World.Wire.{Call, patch_nomad_machine, record_event, normal}
use cluster_api_provider_nom.World.Remote.{World}
use cluster_api_provider_nom.World.Monad.{
  Sys, Outcome, returned, panicked, unfinished, finally, ◌>>=◌,
}
use cluster_api_provider_nom.World.Ensures.{Ends}
use cluster_api_provider_nom.Api.Meta.{ObjectMeta}
use cluster_api_provider_nom.Api.NomadMachine.{NomadMachine, machine_finalizer}
use cluster_api_provider_nom.Scope.MachineScope.{
  MachineScope, id, close_machine_scope, summarize, owned_conditions,
}
use cluster_api_provider_nom.Controllers.Reply.{Reply}
use cluster_api_provider_nom.Controllers.MachineDelete.{reconcile_delete}
use cluster_api_provider_nom.Controllers.MachineDelete.Detach.{Detached, Deregistered}
use cluster_api_provider_nom.Controllers.MachineDelete.Laws.{
  Released, IsGone, IsKept, reconcile_delete-Ends,
}
use cluster_api_provider_nom.Controllers.MachineNormal.{reconcile_normal}
use cluster_api_provider_nom.Controllers.MachineNormal.Finalizer.{
  has_finalizer, reconcile_normal-has_finalizer,
}
use cluster_api_provider_nom.Controllers.MachineReconcile.{reconcile_machine, run_machine_scope}

module _ (K : Kit) (W : World) (fuel : ℕ) (s : MachineScope) (m₀ : ObjectMeta) where
  -- The metadata are as they were, or the finalizer is dropped after the release of the job and,
  -- for a control plane, after Consul accepted the deregistration of its service.
  abbrev pub KeptOrGone : NomadMachine → List Call → W.State → Type 0
  KeptOrGone m earlier now =
      (m.meta ≡ m₀)
      ⊎ ((m.meta.finalizers ≡ K.remove_finalizer m₀.finalizers machine_finalizer)
          × Detached K W s m₀ m
          × (released_calls : List Call) × (earlier
              ≡ record_event normal "SuccessfulRelease" ("Released instance " <> K.quote (id s))
                ∷ released_calls)
          × (r : Released K W s m₀ released_calls now) × Deregistered K W s m₀ r.earlier r.before)

  pub record IsPatched (sys : Sys W.State) : Type 0 where
    pub patched : NomadMachine
    pub earlier : List Call
    pub calls : sys.calls ≡ patch_nomad_machine patched ∷ earlier
    pub now : W.State
    pub world : sys.world ≡ (W.patch_nomad_machine s.patch_helper patched owned_conditions now).1
    pub kept_or_gone : KeptOrGone patched earlier now

  close-IsPatched :
      (t : Sys W.State)
      → KeptOrGone t.nomad_machine t.calls t.world
      → IsPatched (close_machine_scope K W s t).1
  unfolding close_machine_scope ◌>>=◌
  close-IsPatched t h = record {
    patched = summarize K s t.nomad_machine;
    earlier = t.calls;
    calls = refl;
    now = t.world;
    world = refl;
    kept_or_gone = h;
  }

  Ends-KeptOrGone :
      (r : Outcome Reply) (t : Sys W.State)
      → Ends
          (λ reply u. IsGone K W s m₀ reply u ⊎ IsKept K W s m₀ reply u)
          (λ u. u.nomad_machine.meta ≡ m₀)
          r
          t
      → KeptOrGone t.nomad_machine t.calls t.world
  Ends-KeptOrGone (returned r) t (inl g) =
      inr (g.finalizers, g.detached, g.released_calls, g.calls, g.released, g.deregistered)
  Ends-KeptOrGone (returned r) t (inr k) = inl k.meta
  Ends-KeptOrGone (panicked p) t h = inl h
  Ends-KeptOrGone unfinished t h = inl h

  run_state :
      (sys : Sys W.State)
      → (run_machine_scope K W fuel s sys).1
        ≡ (close_machine_scope K W s (reconcile_machine K W fuel s sys).1).1
  unfolding run_machine_scope close_machine_scope finally ◌>>=◌
  run_state sys = refl

  deleted_run :
      (sys : Sys W.State)
      → K.is_zero sys.nomad_machine.meta.deletion_timestamp ≡ false
      → reconcile_machine K W fuel s sys ≡ reconcile_delete K W s sys
  unfolding reconcile_machine ◌>>=◌
  deleted_run sys deleted = rw deleted refl

-- A run on the scope of a deleted machine, however it ends, ends with a patch of the machine. The
-- patch leaves the metadata as they were, or it drops the finalizer. Then Nomad took the
-- deregistration of the job two calls before; and for a control plane, Consul accepted the
-- deregistration of its service three calls before, and the object shows it as detached from DNS.
pub run_machine_scope-IsPatched :
    (K : Kit) (W : World) (fuel : ℕ) (s : MachineScope) (sys : Sys W.State)
    → K.is_zero sys.nomad_machine.meta.deletion_timestamp ≡ false
    → IsPatched K W fuel s sys.nomad_machine.meta (run_machine_scope K W fuel s sys).1
run_machine_scope-IsPatched K W fuel s sys deleted =
    rw (run_state K W fuel s sys.nomad_machine.meta sys) (
      rw (deleted_run K W fuel s sys.nomad_machine.meta sys deleted) (
        close-IsPatched K W fuel s sys.nomad_machine.meta (reconcile_delete K W s sys).1 (
          Ends-KeptOrGone K W fuel s sys.nomad_machine.meta (reconcile_delete K W s sys).0
            (reconcile_delete K W s sys).1 (reconcile_delete-Ends K W s sys deleted))))

alive_run :
    (K : Kit) (W : World) (fuel : ℕ) (s : MachineScope) (sys : Sys W.State)
    → K.is_zero sys.nomad_machine.meta.deletion_timestamp ≡ true
    → reconcile_machine K W fuel s sys ≡ reconcile_normal K W fuel s sys
unfolding reconcile_machine ◌>>=◌
alive_run K W fuel s sys alive = rw alive refl

close_machine_scope_calls :
    (K : Kit) (W : World) (s : MachineScope) (t : Sys W.State)
    → (close_machine_scope K W s t).1.calls
      ≡ patch_nomad_machine (summarize K s t.nomad_machine) ∷ t.calls
unfolding close_machine_scope ◌>>=◌
close_machine_scope_calls K W s t = refl

summarize-has_finalizer :
    (K : Kit) (s : MachineScope) (m : NomadMachine)
    → has_finalizer K (summarize K s m) ≡ has_finalizer K m
unfolding summarize
summarize-has_finalizer K s m = refl

-- A run on the scope of a machine that is not being deleted ends, however it goes, with a patch of
-- an object that holds the finalizer.
pub run_machine_scope-has_finalizer :
    (K : Kit) (L : IsLawful K) (W : World) (fuel : ℕ) (s : MachineScope) (sys : Sys W.State)
    → K.is_zero sys.nomad_machine.meta.deletion_timestamp ≡ true
    → (m : NomadMachine) × (earlier : List Call) × ((run_machine_scope K W fuel s sys).1.calls
        ≡ patch_nomad_machine m ∷ earlier)
      × (has_finalizer K m ≡ true)
run_machine_scope-has_finalizer K L W fuel s sys alive =
    let t = (reconcile_machine K W fuel s sys).1 in
    (
      summarize K s t.nomad_machine,
      t.calls,
      ap (λ (u : Sys W.State). u.calls) (run_state K W fuel s sys.nomad_machine.meta sys)
          ∙ close_machine_scope_calls K W s t,
      summarize-has_finalizer K s t.nomad_machine
          ∙ rw (alive_run K W fuel s sys alive) (reconcile_normal-has_finalizer K W L fuel s sys),
    )
