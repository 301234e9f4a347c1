-- ===== src/Api/Template/Laws.antt =====
-- What the webhook admits.
use mathlib.Core.Logic.{ite}
use cluster_api_provider_nom.Base.{String, none, some, ◌≡◌, ◌↔◌, refl}
use cluster_api_provider_nom.Api.Template.{NomadMachineTemplate, deep_equal, validate_update}

admits_iff : {P : Type 0} (d : Dec P) (e : String) → (ite d none (some e) ≡ none) ↔ P
admits_iff (yes p) e = (λ _. p, λ _. refl)
admits_iff (no np) e = (λ absurdity. cc, λ p. absurd (np p))

-- An update of a template is admitted exactly when the two specs are equal, whatever else differs.
pub validate_update_iff :
    (m old : NomadMachineTemplate) → (validate_update m old ≡ none) ↔ (m.spec ≡ old.spec)
unfolding validate_update
validate_update_iff m old =
    admits_iff (deep_equal m.spec old.spec) "NomadMachineTemplateSpec is immutable"
