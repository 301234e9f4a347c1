-- ===== src/Api/Template.antt =====
-- NomadMachineTemplate and its validating webhook: api/v1alpha3/nomadmachinetemplate_types.go
-- and nomadmachinetemplate_webhook.go. `reflect.DeepEqual` on two specs is the decision of
-- their equality: pointers are compared by what they point to.
pub mod Laws
use native.Mathlib.Decide.{ℕ_discrete}
use mathlib.Core.Logic.{dite, ite}
use mathlib.Core.Bool.{Bool-discrete}
use cluster_api_provider_nom.Base.{String, true, Option, none, some}
use cluster_api_provider_nom.Base.Text.{◌==◌, eq_iff}
use cluster_api_provider_nom.Api.Meta.{ObjectMeta}
use cluster_api_provider_nom.Api.NomadMachine.{NomadMachineSpec}

pub record NomadMachineTemplateResource : Type 0 where
  pub spec : NomadMachineSpec

pub record NomadMachineTemplateSpec : Type 0 where
  pub template : NomadMachineTemplateResource

pub record NomadMachineTemplate : Type 0 where
  pub meta : ObjectMeta
  pub spec : NomadMachineTemplateSpec

unfoldable pub String-discrete : Discrete String
String-discrete s t =
    dite (Bool-discrete (s == t) true) (λ same. yes ((eq_iff s t).0 same))
      (λ differ. no (λ p. differ ((eq_iff s t).1 p)))

-- `reflect.DeepEqual` on two specs.
unfoldable pub deep_equal : Discrete NomadMachineTemplateSpec
unfolding String-discrete ℕ_discrete
deep_equal = hlevel (String-discrete, ℕ_discrete)

unfoldable pub validate_create : NomadMachineTemplate → Option String
validate_create m = none

-- The error's text, or `none` where the update is admitted.
unfoldable pub validate_update : NomadMachineTemplate → NomadMachineTemplate → Option String
unfolding deep_equal
validate_update m old =
    ite (deep_equal m.spec old.spec) none (some "NomadMachineTemplateSpec is immutable")

unfoldable pub validate_delete : NomadMachineTemplate → Option String
validate_delete m = none
