-- ===== src/Controllers/MachineNormal/Finalizer.antt =====
-- The finalizer of a NomadMachine, and the rounds that wait.
use cluster_api_provider_nom.Base.{ℕ, Bool, true, false, Option, none, ◌≡◌, ◌⊎◌, refl, arith}
use cluster_api_provider_nom.World.Kit.{Kit, IsLawful}
use cluster_api_provider_nom.World.Remote.{World}
use cluster_api_provider_nom.World.Monad.{Sys, returned, ◌>>=◌}
use cluster_api_provider_nom.World.Keeps.{Keeps, stable_rules}
use cluster_api_provider_nom.World.Ensures.{
  Ensures, Ensures-of_Keeps, Ensures-bind, Ensures-gets, Ensures-branch, Ensures-modify,
  Ensures-weaken, Ensures-pure, merge,
}
use cluster_api_provider_nom.Api.NomadMachine.{
  NomadMachine, Deployed, MachineStatus, machine_finalizer,
}
use cluster_api_provider_nom.Scope.MachineScope.{MachineScope, set_addresses}
use cluster_api_provider_nom.Frames.{finish_node-Keeps, deploy-Keeps, new_service-Keeps}
use cluster_api_provider_nom.Controllers.Reply.{finished}
use cluster_api_provider_nom.Controllers.DnsAttachment.{set_dns_attached}
use cluster_api_provider_nom.Controllers.DnsAttachment.Laws.{
  IgnoresDns, reconcile_dns_attachment-Keeps,
}
use cluster_api_provider_nom.Controllers.MachineNormal.{
  adopt, dispatch_status, settle_machine, follow_deployment, deploy_and_follow, reconcile_normal,
}

abbrev pub has_finalizer : Kit → NomadMachine → Bool
has_finalizer K m = K.contains_finalizer m.meta.finalizers machine_finalizer

module _ (K : Kit) (W : World) where
  abbrev P : Sys W.State → Type 0
  P sys = has_finalizer K sys.nomad_machine ≡ true

  P-IgnoresDns : IgnoresDns K P
  unfolding set_dns_attached
  P-IgnoresDns = record {
    stable = record { calls_only = λ sys w calls h. h };
    flag = λ b sys h. h;
    attached = λ sys h. h;
    pending = λ sys h. h;
  }

  settle_machine-Keeps : (s : MachineScope) (d : Deployed) → Keeps P (settle_machine K W s d)
  unfolding settle_machine set_addresses
  settle_machine-Keeps s d =
      search
        (
          stable_rules, P-IgnoresDns.stable, P-IgnoresDns, finish_node-Keeps,
          reconcile_dns_attachment-Keeps,
        )
        depth 10

  dispatch_status-Keeps : (status : MachineStatus) → Keeps P (dispatch_status K W status)
  unfolding dispatch_status
  dispatch_status-Keeps status = search (stable_rules, P-IgnoresDns.stable) depth 12

  follow_deployment-Keeps :
      (s : MachineScope) (d : Option Deployed) → Keeps P (follow_deployment K W s d)
  unfolding follow_deployment adopt
  follow_deployment-Keeps s d =
      search (stable_rules, dispatch_status-Keeps, settle_machine-Keeps) depth 10

  deploy_and_follow-Keeps : (fuel : ℕ) (s : MachineScope) → Keeps P (deploy_and_follow K W fuel s)
  unfolding deploy_and_follow
  deploy_and_follow-Keeps fuel s =
      search
        (
          stable_rules, P-IgnoresDns.stable, new_service-Keeps, deploy-Keeps,
          follow_deployment-Keeps,
        )
        depth 10

  reconcile_normal-Ensures :
      IsLawful K
      → (fuel : ℕ) (s : MachineScope) → Ensures (λ _. Unit) (reconcile_normal K W fuel s) (λ _. P) P
  unfolding reconcile_normal
  reconcile_normal-Ensures L fuel s =
      Ensures-bind (λ nm sys. nm ≡ sys.nomad_machine) _ _ (Ensures-gets _ (λ sys h. refl))
        (λ nm.
          Ensures-branch _ _ _
            (λ _.
              Ensures-bind (λ _. P) _ _
                (Ensures-modify _
                  (λ sys h. L.contains-add sys.nomad_machine.meta.finalizers machine_finalizer))
                (λ _. Ensures-pure _ (λ sys h. h)))
            (λ present.
              Ensures-weaken {P = P} _ (λ sys h. ground arith) (λ a sys h. h) (λ sys h. h)
                (Ensures-of_Keeps _ (search (stable_rules, deploy_and_follow-Keeps) depth 10))))

  -- However a run on a machine that is not being deleted ends, the object then has the finalizer.
  pub reconcile_normal-has_finalizer :
      IsLawful K
      → (fuel : ℕ) (s : MachineScope) (sys : Sys W.State)
      → has_finalizer K (reconcile_normal K W fuel s sys).1.nomad_machine ≡ true
  reconcile_normal-has_finalizer L fuel s sys =
      merge P _ _ ((reconcile_normal-Ensures L fuel s).at sys tt)

  -- Without the finalizer, a ready infrastructure and bootstrap data together, a run calls
  -- nothing: it ends with an empty reply, and leaves the world, the record of calls, the spec
  -- and the readiness of the machine as they were.
  pub reconcile_normal_waits :
      (fuel : ℕ) (s : MachineScope) (sys : Sys W.State)
      → (has_finalizer K sys.nomad_machine ≡ false)
        ⊎ (s.cluster.infrastructure_ready ≡ false)
        ⊎ (s.machine.data_secret_name ≡ none)
      → let (r, sys') = reconcile_normal K W fuel s sys in
        (r ≡ returned finished)
        × (sys'.world ≡ sys.world)
        × (sys'.calls ≡ sys.calls)
        × (sys'.nomad_machine.spec ≡ sys.nomad_machine.spec)
        × (sys'.nomad_machine.status.ready ≡ sys.nomad_machine.status.ready)
  unfolding reconcile_normal ◌>>=◌
  reconcile_normal_waits fuel s sys h = ground arith
