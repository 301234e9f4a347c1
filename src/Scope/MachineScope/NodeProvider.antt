-- ===== src/Scope/MachineScope/NodeProvider.antt =====
-- What `SetNodeProviderID` has done when it gives no error.
use mathlib.Core.Path.{subst}
use cluster_api_provider_nom.Base.{
  String, Option, none, some, ◌≡◌, ◌⊎◌, inl, inr, refl, Option-cases, List, ◌∷◌,
}
use cluster_api_provider_nom.Base.Text.{eq_iff}
use cluster_api_provider_nom.World.Error.{Error, ok}
use cluster_api_provider_nom.World.Wire.{Call, get_node, patch_node}
use cluster_api_provider_nom.World.Remote.{World}
use cluster_api_provider_nom.World.Monad.{Sys}
use cluster_api_provider_nom.World.Keeps.{IsStable, stable-silent}
use cluster_api_provider_nom.World.Ensures.{
  Ends, Ensures, Ensures-of_Keeps, Ensures-bind, Ensures-gets, Ensures-branch, Ensures-call,
  Ensures-pure, Ensures-on_ok, Ensures-on_no_error, Ensures-weaken,
}
use cluster_api_provider_nom.Api.Meta.{ObjectKey, object_key}
use cluster_api_provider_nom.Api.NomadMachine.{NomadMachine}
use cluster_api_provider_nom.Scope.MachineScope.{
  MachineScope, get_provider_id, put_provider_id, set_node_provider_id,
}

module _ (W : World) (s : MachineScope) (m₀ : NomadMachine) where
  abbrev P : Sys W.State → Type 0
  P sys = sys.nomad_machine ≡ m₀

  P-stable : IsStable P
  P-stable = record { calls_only = λ sys w calls h. h }

  abbrev key : ObjectKey
  key = object_key s.cluster.meta

  abbrev node : String
  node = s.machine.meta.name

  -- The last call of the run is `c`, which took the world from a state by `op`.
  pub record IsLast {A : Type 0} (c : Call) (op : W.State → A × W.State) (answer : A)
      (sys : Sys W.State) : Type 0 where
    pub before : W.State
    pub answered : (op before).0 ≡ answer
    pub earlier : List Call
    pub calls : sys.calls ≡ c ∷ earlier
    pub after : sys.world ≡ (op before).1

  abbrev NodeRead : String → Sys W.State → Type 0
  NodeRead current = IsLast (get_node node) (W.get_node key node) (ok current)

  -- The node was read with the machine's provider id, or the workload cluster took a patch with it.
  abbrev pub HasProvider : Sys W.State → Type 0
  HasProvider sys =
      NodeRead (get_provider_id m₀) sys
      ⊎ IsLast (patch_node node (get_provider_id m₀)) (W.patch_node key node (get_provider_id m₀))
          none sys

  abbrev pub Outcome : Option Error → Sys W.State → Type 0
  Outcome failure sys =
      P sys × (((e : Error) × (failure ≡ some e)) ⊎ ((failure ≡ none) × HasProvider sys))

  -- The node's provider id as it was read.
  abbrev Read : String → Sys W.State → Type 0
  Read current sys = P sys × NodeRead current sys

  put-Ensures :
      (current : String)
      → Ensures (Read current) (put_provider_id W key node current (get_provider_id m₀)) Outcome P
  unfolding put_provider_id
  put-Ensures current =
      Ensures-branch _ _ _
        (λ same. Ensures-pure _ (λ sys h. (
          h.0,
          inr (
            refl,
            inl (subst (λ v. NodeRead v sys) ((eq_iff current (get_provider_id m₀)).0 same) h.1),
          ),
        )))
        (λ _.
          Ensures-weaken {P = P} _ (λ sys h. h.0) (λ a sys h. h) (λ sys h. h)
            (Ensures-bind (λ _. P) _ _ (Ensures-of_Keeps _ (stable-silent P-stable _))
              (λ refused.
                Ensures-on_no_error _ _ _ (λ e _. Ensures-pure _ (λ sys h. (h, inl (e, refl))))
                  (λ _. Ensures-call _ _ (λ sys h. (
                    h,
                    elim (Option-cases (W.patch_node key node (get_provider_id m₀) sys.world).0) [
                      | inl good ↦ inr (
                        good,
                        inr (record {
                          before = sys.world;
                          answered = good;
                          earlier = sys.calls;
                          calls = refl;
                          after = refl;
                        }),
                      )
                      | inr bad ↦ inl bad
                    ],
                  ))))))

  set-Ensures : Ensures P (set_node_provider_id W s) Outcome P
  unfolding set_node_provider_id
  set-Ensures =
      Ensures-bind (λ _. P) _ _ (Ensures-call _ _ (λ sys h. h))
        (λ offline.
          Ensures-on_no_error _ _ _ (λ e _. Ensures-pure _ (λ sys h. (h, inl (e, refl))))
            (λ _.
              Ensures-bind
                (λ found sys. P sys × IsLast (get_node node) (W.get_node key node) found sys) _ _
                (Ensures-call _ _ (λ sys h. (
                  h,
                  record {
                    before = sys.world;
                    answered = refl;
                    earlier = sys.calls;
                    calls = refl;
                    after = refl;
                  },
                )))
                (λ found.
                  Ensures-on_ok _ _ _ (λ e _. Ensures-pure _ (λ sys h. (h.0, inl (e, refl))))
                    (λ current read.
                      Ensures-bind (λ m sys. Read current sys × (m ≡ m₀)) _ _
                        (Ensures-gets _ (λ sys h. (
                          (
                            h.0,
                            subst
                                (λ answer. IsLast (get_node node) (W.get_node key node) answer sys)
                                read h.1,
                          ),
                          h.0,
                        )))
                        (λ m. record {
                          at = λ sys h. rw h.1 ((put-Ensures current).at sys h.0);
                        })))))

-- A run of SetNodeProviderID that returns leaves the machine as it was. It returns an error, or
-- the node carries the machine's provider id: the last call read the node with it, or the last call
-- is a patch that gives it and was accepted. A run that panics leaves the machine as it was.
pub set_node_provider_id-Ends :
    (W : World) (s : MachineScope) (sys : Sys W.State)
    → let m₀ = sys.nomad_machine in
      let (r, sys') = set_node_provider_id W s sys in
      Ends (Outcome W s m₀) (λ t. t.nomad_machine ≡ m₀) r sys'
set_node_provider_id-Ends W s sys = (set-Ensures W s sys.nomad_machine).at sys refl
