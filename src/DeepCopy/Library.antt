-- ===== src/DeepCopy/Library.antt =====
-- The deep copies of metav1 and Cluster API that the generated code calls, and what they promise.
use cluster_api_provider_nom.Base.{String}
use cluster_api_provider_nom.DeepCopy.Structs.{Layout, Values}
use cluster_api_provider_nom.DeepCopy.Memory.{Mem, pure, ◌>>=◌}
use cluster_api_provider_nom.DeepCopy.Rules.{Showing, Copier, Grows-refl}
use cluster_api_provider_nom.DeepCopy.Rules.Parts.{Copies-field, Copies-pure}
use cluster_api_provider_nom.DeepCopy.Rules.Elements.{Keyed}

-- `DeepCopyInto` of ObjectMeta, ListMeta and Condition, and `*val.DeepCopy()` of FailureDomainSpec:
-- from the original to what is written into the copy.
pub record Library (L : Layout) : Type 0 where
  pub copy_object_meta : L.ObjectMeta → Mem L L.ObjectMeta
  pub copy_list_meta : L.ListMeta → Mem L L.ListMeta
  pub copy_condition : L.Condition → Mem L L.Condition
  pub copy_failure_domain_spec : L.FailureDomainSpec → Mem L L.FailureDomainSpec

-- What values their structs show.
pub record Shown (L : Layout) (V : Values) : Type 1 where
  pub object_meta : Showing L L.ObjectMeta V.ObjectMeta
  pub list_meta : Showing L L.ListMeta V.ListMeta
  pub condition : Showing L L.Condition V.Condition
  pub failure_domain_spec : Showing L L.FailureDomainSpec V.FailureDomainSpec

-- They are documented as deep copies.
pub record IsDocumented {L : Layout} {V : Values} (lib : Library L) (shown : Shown L V)
    : Type 1 where
  pub object_meta : Copier shown.object_meta lib.copy_object_meta
  pub list_meta : Copier shown.list_meta lib.copy_list_meta
  pub condition : Copier shown.condition lib.copy_condition
  pub failure_domain_spec : Copier shown.failure_domain_spec lib.copy_failure_domain_spec

-- One turn of the loop over a map: the entry of the copy.
module _ {L : Layout} {A : Type 0} where
  unfoldable pub entry : (A → Mem L A) → (String × A) → Mem L (String × A)
  entry into original = do copied ← into original.1; pure (original.0, copied)

  pub Copier-entry :
      {V : Type 0} {Shown : Showing L A V} {into : A → Mem L A}
      → Copier Shown into
      → Copier (Keyed {K = String} Shown) (entry into)
  unfolding entry
  Copier-entry c = record {
    moves = λ H H' x v w h. (h.0, c.moves H H' x.1 v.1 w h.1);
    copies = λ n H x v σ h s.
        Copies-field c h.1 s λ copied σ' g s' r. Copies-pure (h.0, r.later (Grows-refl σ'));
  }
