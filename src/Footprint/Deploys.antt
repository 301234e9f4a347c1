-- ===== src/Footprint/Deploys.antt =====
-- `deployMachine` of the machine controller, whatever the world answers.
use cluster_api_provider_nom.Base.{ℕ, String, Option, some, List, ◌++◌, All, ◌≡◌, ◌⊎◌, lookup}
use cluster_api_provider_nom.World.Error.{Error, ok, err, Result}
use cluster_api_provider_nom.World.Kit.{Kit}
use cluster_api_provider_nom.World.Wire.{NomadConfig, Call}
use cluster_api_provider_nom.World.Remote.{World}
use cluster_api_provider_nom.World.Monad.{Sys, Outcome, returned}
use cluster_api_provider_nom.World.Keeps.{Keeps}
use cluster_api_provider_nom.Scope.MachineScope.{MachineScope}
use cluster_api_provider_nom.Controllers.MachineNormal.{deploy}
use cluster_api_provider_nom.Footprint.Render.{Renderer}
use cluster_api_provider_nom.Footprint.Machine.{QuietCall}
use cluster_api_provider_nom.Footprint.UserData.{Registers, secret_key}

-- Calls were added, and none of them is for a job.
pub record AddsQuiet (s : MachineScope) (before after : List Call) : Type 0 where
  pub added : List Call
  pub quiet : All (QuietCall s) added
  pub calls : after ≡ added ++ before

module _ (K : Kit) (W : World) (s : MachineScope) (sys : Sys W.State) where
  -- The bootstrap secret was read, and has a text under "value".
  pub record Resolved (text : String) : Type 0 where
    pub name : String
    pub entries : List (String × String)
    pub world : W.State
    pub given : s.machine.data_secret_name ≡ some name
    pub read : W.get_secret (secret_key s name) sys.world ≡ (ok entries, world)
    pub value : lookup "value" entries ≡ some text

  -- Which user data there are, by the answer on the secret.
  Ends : Outcome (Result String) → Type 0
  Ends r =
      ((e : Error) × (r ≡ returned (err e)))
      ⊎ ((text : String) × Resolved text × (r ≡ returned (ok text)))

module _ (R : Renderer) (K : Kit) (W : World) (s : MachineScope) (sys : Sys W.State) where
  -- A job is registered, with the value of the bootstrap secret for its user data.
  pub record Carries (after : List Call) : Type 0 where
    pub text : String
    pub resolved : Resolved K W s sys text
    pub registers : Registers R s (secret_key s resolved.name) text sys.calls after

module _ (R : Renderer) (K : Kit) (W : World) (fuel : ℕ) (s : MachineScope)
    (sys : Sys W.State) where
  abbrev Deployment : Option NomadConfig → Type 0
  Deployment client =
      let after = (deploy K W fuel s (record { scope = s; nomad_client = client }) sys).1.calls in
      AddsQuiet s sys.calls after ⊎ Carries R K W s sys after
