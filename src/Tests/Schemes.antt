-- ===== src/Tests/Schemes.antt =====
-- A scheme as the list of the types that it knows, and the registration of the provider's types.
use cluster_api_provider_nom.Base.{
  ◌≡◌, refl, ◌⊎◌, inl, inr, String, none, some, List, [], ◌∷◌, ◌++◌, All,
}
use cluster_api_provider_nom.World.Error.{fresh}
use cluster_api_provider_nom.DeepCopy.Object
use cluster_api_provider_nom.Manager.Scheme.{
  GroupVersion, group_version, Schemes, IsDocumented, main_init, type_name, main_init-Knows,
}

abbrev Known : Type 0
Known = List (GroupVersion × String)

abbrev Knows : Known → GroupVersion → String → Type 0
Knows [] v kind = ⊥
Knows (entry ∷ s) v kind = ((entry.0 ≡ v) × (entry.1 ≡ kind)) ⊎ Knows s v kind

abbrev add_all : GroupVersion → List String → Known → Known
add_all v [] s = s
add_all v (kind ∷ kinds) s = (v, kind) ∷ add_all v kinds s

-- Cluster API's types are added, and client-go's fail.
abbrev lists : Schemes
lists = record {
  Scheme = Known;
  Builder = GroupVersion × List String;
  new_builder = λ v. (v, []);
  register = λ b kinds. (b.0, b.1 ++ kinds);
  add_to_scheme = λ b s. (none, add_all b.0 b.1 s);
  client_go_add_to_scheme = λ s. (some (fresh "no types"), s);
  cluster_api_add_to_scheme =
      λ s. (none, (record { group = "cluster.x-k8s.io"; version = "v1alpha3" }, "Cluster") ∷ s);
  Knows = Knows;
  version_of = λ b. b.0;
  kinds_of = λ b. b.1;
}

All-Knows :
    (v : GroupVersion) (entry : GroupVersion × String) (kinds : List String) (s : Known)
    → All (Knows s v) kinds
    → All (Knows (entry ∷ s) v) kinds
All-Knows v entry [] s h = tt
All-Knows v entry (kind ∷ kinds) s h = (inr h.0, All-Knows v entry kinds s h.1)

add_all-Knows :
    (v : GroupVersion) (kinds : List String) (s : Known) → All (Knows (add_all v kinds s) v) kinds
add_all-Knows v [] s = tt
add_all-Knows v (kind ∷ kinds) s =
    (inl (refl, refl), All-Knows v (v, kind) kinds (add_all v kinds s) (add_all-Knows v kinds s))

lists-IsDocumented : IsDocumented lists
lists-IsDocumented = record {
  version_of-new_builder = λ v. refl;
  version_of-register = λ b kinds. refl;
  kinds_of-new_builder = λ v. refl;
  kinds_of-register = λ b kinds. refl;
  add_to_scheme_adds = λ b s. add_all-Knows b.0 b.1 s;
  cluster_api_keeps = λ s v kind h. inr h;
}

main_init-Knows_example :
    Knows (main_init lists []) group_version (type_name (Object.nomad_machine_list none))
main_init-Knows_example = main_init-Knows lists-IsDocumented (Object.nomad_machine_list none) []
