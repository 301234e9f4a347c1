-- ===== src/Controllers/MachineDelete/Laws.antt =====
-- When a deleted NomadMachine loses its finalizer.
use cluster_api_provider_nom.Base.{
  String, ◌<>◌, true, false, Option, none, List, ◌∷◌, ◌≡◌, ◌⊎◌, inl, inr, refl, ap,
}
use cluster_api_provider_nom.World.Error.{Error, ok}
use cluster_api_provider_nom.World.Kit.{Kit}
use cluster_api_provider_nom.World.Wire.{NomadConfig, Call, deregister_job, record_event, normal}
use cluster_api_provider_nom.World.Remote.{World}
use cluster_api_provider_nom.World.Monad.{Sys}
use cluster_api_provider_nom.World.Ensures.{
  Ends, Ensures, Ensures-of_Keeps, Ensures-bind, Ensures-call, Ensures-modify, Ensures-weaken,
  Ensures-pure, Ensures-panic, Ensures-on_ok, Ensures-on_some, Ensures-on_no_error,
}
use cluster_api_provider_nom.Api.Meta.{ObjectMeta}
use cluster_api_provider_nom.Api.NomadMachine.{machine_finalizer}
use cluster_api_provider_nom.Scope.MachineScope.{MachineScope, id}
use cluster_api_provider_nom.Machine.Service.{Service, release_machine}
use cluster_api_provider_nom.Frames.{new_service-Keeps}
use cluster_api_provider_nom.Controllers.Reply.{Reply, finished, failed}
use cluster_api_provider_nom.Controllers.MachineDelete.Detach.{
  P, P-stable, Detached, Deregistered, Ready, attachment-Ensures,
}
use cluster_api_provider_nom.Controllers.MachineDelete.{
  finish_delete, reconcile_delete, remove_machine_finalizer,
}

module _ (K : Kit) (W : World) (s : MachineScope) (m₀ : ObjectMeta) where
  -- The last call deregistered and purged the machine's job, Nomad took it, and nothing has happened
  -- since.
  pub record Released (calls : List Call) (now : W.State) : Type 0 where
    pub config : NomadConfig
    pub before : W.State
    pub eval_id : String
    pub accepted : (W.deregister_job config (id s) true before).0 ≡ ok eval_id
    pub earlier : List Call
    pub last : calls ≡ deregister_job config (id s) true ∷ earlier
    pub after : now ≡ (W.deregister_job config (id s) true before).1

  -- The job is released, and right before its deregistration the service was gone.
  abbrev Freed : Sys W.State → Type 0
  Freed sys =
      P K W s m₀ sys
      × Detached K W s m₀ sys.nomad_machine
      × (r : Released sys.calls sys.world) × Deregistered K W s m₀ r.earlier r.before

  abbrev Unless : Option Error → Sys W.State → Type 0
  Unless failure sys = P K W s m₀ sys × (failure ≡ none → Freed sys)

  release-Ensures :
      (svc : Service) → Ensures (Ready K W s m₀) (release_machine W svc (id s)) Unless (P K W s m₀)
  unfolding release_machine
  release-Ensures svc =
      Ensures-on_some _ _ _ (λ _. Ensures-panic _ (λ sys h. h.0))
        (λ c _.
          Ensures-bind
            (λ answer sys. P K W s m₀ sys × ((eval_id : String) → answer ≡ ok eval_id → Freed sys))
            _ _
            (Ensures-call _ _ (λ sys h. (
              h.0,
              λ eval_id e. (
                h.0,
                h.1,
                record {
                  config = c;
                  before = sys.world;
                  eval_id = eval_id;
                  accepted = e;
                  earlier = sys.calls;
                  last = refl;
                  after = refl;
                },
                h.2,
              ),
            )))
            (λ answer.
              Ensures-on_ok _ _ _ (λ e _. Ensures-pure _ (λ sys h. (h.0, λ absurdity. cc)))
                (λ eval_id e. Ensures-pure _ (λ sys h. (h.0, λ _. h.1 eval_id e)))))

  -- The run that lets the object go: its finalizer is removed, after the job's release and, for a
  -- control plane, after Consul accepted the deregistration of its service, right before.
  pub record IsGone (r : Reply) (sys : Sys W.State) : Type 0 where
    pub reply : r ≡ finished
    pub finalizers :
        sys.nomad_machine.meta.finalizers ≡ K.remove_finalizer m₀.finalizers machine_finalizer
    pub detached : Detached K W s m₀ sys.nomad_machine
    pub released_calls : List Call
    pub calls :
        sys.calls
        ≡ record_event normal "SuccessfulRelease" ("Released instance " <> K.quote (id s))
          ∷ released_calls
    pub released : Released released_calls sys.world
    pub deregistered : Deregistered K W s m₀ released.earlier released.before

  -- The run that fails: the error is returned, and the object's metadata is as it was.
  pub record IsKept (r : Reply) (sys : Sys W.State) : Type 0 where
    pub reason : Error
    pub reply : r ≡ failed reason
    pub meta : sys.nomad_machine.meta ≡ m₀

  finish-Ensures :
      Ensures Freed (finish_delete K W s) (λ r sys. IsGone r sys ⊎ IsKept r sys) (P K W s m₀)
  unfolding finish_delete remove_machine_finalizer
  finish-Ensures =
      Ensures-bind (λ _. Freed) _ _ (Ensures-modify _ (λ sys h. h))
        (λ _.
          Ensures-bind
            (λ _ sys.
              P K W s m₀ sys
              × Detached K W s m₀ sys.nomad_machine
              × (earlier : List Call) × (sys.calls
                  ≡ record_event normal "SuccessfulRelease" ("Released instance " <> K.quote (id s))
                    ∷ earlier)
              × (r : Released earlier sys.world) × Deregistered K W s m₀ r.earlier r.before)
            _ _ (Ensures-call _ _ (λ sys h. (h.0, h.1, sys.calls, refl, h.2, h.3)))
            (λ _.
              Ensures-bind (λ _ sys. IsGone finished sys) _ _
                (Ensures-modify _ (λ sys h. record {
                  reply = refl;
                  finalizers =
                      ap (λ (m : ObjectMeta). K.remove_finalizer m.finalizers machine_finalizer)
                        h.0;
                  detached = h.1;
                  released_calls = h.2;
                  calls = h.3;
                  released = h.4;
                  deregistered = h.5;
                }))
                (λ _. Ensures-pure _ (λ sys h. inl h))))

  reconcile_delete-Ensures :
      K.is_zero m₀.deletion_timestamp ≡ false
      → Ensures
          (P K W s m₀)
          (reconcile_delete K W s)
          (λ r sys. IsGone r sys ⊎ IsKept r sys)
          (P K W s m₀)
  unfolding reconcile_delete
  reconcile_delete-Ensures deleted =
      Ensures-bind (λ _. P K W s m₀) _ _
        (Ensures-of_Keeps _ (new_service-Keeps K W (P-stable K W s m₀) s))
        (λ svc. Ensures-bind _ _ _ (attachment-Ensures K W s m₀ deleted) (λ undetached.
          Ensures-on_no_error _ _ _
            (λ e _. Ensures-pure _ (λ sys h. inr (record { reason = e; reply = refl; meta = h.0 })))
            (λ quiet.
              Ensures-bind Unless _ _
                (Ensures-weaken _ (λ sys h. h.1 quiet) (λ a sys h. h) (λ sys h. h)
                  (release-Ensures svc))
                (λ unreleased.
                  Ensures-on_no_error _ _ _
                    (λ e _.
                      Ensures-pure _
                        (λ sys h. inr (record { reason = e; reply = refl; meta = h.0 })))
                    (λ clean.
                      Ensures-weaken _ (λ sys h. h.1 clean) (λ a sys h. h) (λ sys h. h)
                        finish-Ensures)))))

-- A run on a machine that is being deleted ends in one of three ways. It removes the finalizer:
-- then Nomad has taken the deregistration and purge of the job named after the machine, as the last
-- call before the event that records it; and for a control plane, Consul has accepted the
-- deregistration of the machine's service as the last call before Nomad's, and the object no longer
-- shows the machine as attached to DNS. Or it returns an error with the object's metadata unchanged.
-- Or it panics or does not end, again with the metadata unchanged.
pub reconcile_delete-Ends :
    (K : Kit) (W : World) (s : MachineScope) (sys : Sys W.State)
    → K.is_zero sys.nomad_machine.meta.deletion_timestamp ≡ false
    → let m₀ = sys.nomad_machine.meta in
      let (r, sys') = reconcile_delete K W s sys in
      Ends
        (λ reply t. IsGone K W s m₀ reply t ⊎ IsKept K W s m₀ reply t)
        (λ t. t.nomad_machine.meta ≡ m₀)
        r
        sys'
reconcile_delete-Ends K W s sys deleted =
    (reconcile_delete-Ensures K W s sys.nomad_machine.meta deleted).at sys refl
