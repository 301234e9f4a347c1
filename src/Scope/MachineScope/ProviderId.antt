-- ===== src/Scope/MachineScope/ProviderId.antt =====
-- The provider id that `SetProviderID` of pkg/nomad/scope/machine.go writes, read back.
use Prim.Native.Char.{Char, code}
use Prim.Native.String as Text
use text.Mathlib.TextLemmas.{nil-append, cons-append}
use mathlib.Core.Bool.{◌||◌}
use cluster_api_provider_nom.Base.{
  String, ◌<>◌, Bool, false, Option, none, some, ◌≡◌, ◌∙◌, refl, ◌==◌, arith, if◌then◌else◌,
}
use cluster_api_provider_nom.Base.Search.{strip_prefix, strip_prefix-append}
use cluster_api_provider_nom.Api.NomadMachine.{NomadMachine}
use cluster_api_provider_nom.Scope.MachineScope.{get_provider_id, set_provider_id}

abbrev is_slash : Char → Bool
is_slash c = code c == 47

unfoldable pub has_slash : String → Bool
has_slash Text.[] = false
has_slash (Text.◌∷◌ c s) = is_slash c || has_slash s

abbrev put_before : Char → Option (String × String) → Option (String × String)
put_before c none = none
put_before c (some (job, rest)) = some (Text.◌∷◌ c job, rest)

-- The text before and the text after the first slash.
split_at_slash : String → Option (String × String)
split_at_slash Text.[] = none
split_at_slash (Text.◌∷◌ c s) =
    let later = put_before c (split_at_slash s) in if is_slash c then some (Text.[], s) else later

-- The job's id and the deployment's id of a text of the form nomad:///<job>/<deployment>.
pub read_provider_id : String → Option (String × String)
read_provider_id s = elim (strip_prefix "nomad:///" s) [
  | none ↦ none
  | some rest ↦ split_at_slash rest
]

read_prefixed :
    (s rest : String)
    → strip_prefix "nomad:///" s ≡ some rest
    → read_provider_id s ≡ split_at_slash rest
unfolding read_provider_id
read_prefixed s rest found = rw (read_provider_id, found) refl

split_at_slash-append :
    (job rest : String)
    → has_slash job ≡ false
    → split_at_slash (job <> ("/" <> rest)) ≡ some (job, rest)
unfolding split_at_slash has_slash
split_at_slash-append Text.[] rest plain = rw (nil-append, cons-append, nil-append) refl
split_at_slash-append (Text.◌∷◌ c job) rest plain =
    rw cons-append (ground (arith, split_at_slash-append job rest))

-- For a job whose id has no slash, SetProviderID makes GetProviderID give a provider id of the form
-- nomad:///<job>/<deployment>, from which the job's and the deployment's ids are read back; the rest
-- of the machine is as it was.
pub read-set_provider_id :
    (job deployment : String) (m : NomadMachine)
    → has_slash job ≡ false
    → let m' = set_provider_id job deployment m in
      (read_provider_id (get_provider_id m') ≡ some (job, deployment))
      × (m'.meta ≡ m.meta)
      × (m'.status ≡ m.status)
      × (record (m'.spec) { provider_id = none } ≡ record (m.spec) { provider_id = none })
unfolding set_provider_id get_provider_id
read-set_provider_id job deployment m plain = (
  read_prefixed _ _ (strip_prefix-append "nomad:///" (job <> ("/" <> deployment)))
      ∙ split_at_slash-append job deployment plain,
  refl,
  refl,
  refl,
)
