-- ===== src/World/Kit.antt =====
-- Library functions that read and change no remote state: cluster-api's conditions and util, the
-- finalizer helpers of controller-runtime, sets of k8s.io/apimachinery, and the verb %q.
use cluster_api_provider_nom.Base.{String, ◌≡◌, ◌≢◌, Bool, true, false, ◌||◌, List, contains}
use cluster_api_provider_nom.World.Error.{Error}
use cluster_api_provider_nom.Api.Meta.{
  Timestamp, ObjectMeta, Machine, Cluster, Severity, ConditionList,
}

pub record Kit : Type 1 where
  -- metav1.Time.IsZero.
  pub is_zero : Timestamp → Bool
  -- controllerutil, on an object's list of finalizers.
  pub contains_finalizer : List String → String → Bool
  pub add_finalizer : List String → String → List String
  pub remove_finalizer : List String → String → List String
  -- util.IsControlPlaneMachine and annotations.IsPaused.
  pub is_control_plane_machine : Machine → Bool
  pub is_paused : Cluster → ObjectMeta → Bool
  -- conditions, on an object's list of conditions.
  pub mark_true : String → ConditionList → ConditionList
  pub mark_false : String → String → Severity → String → ConditionList → ConditionList
  pub mark_unknown : String → String → String → ConditionList → ConditionList
  pub set_summary : List String → Bool → ConditionList → ConditionList
  pub holds : String → ConditionList → Bool
  -- sets.String.
  pub StringSet : Type 0
  pub new_string : List String → StringSet
  pub union : StringSet → StringSet → StringSet
  pub has : StringSet → String → Bool
  -- fmt's %q, %+v on an error, and a text as a format with no arguments.
  pub format_verbose : Error → String
  pub quote : String → String
  pub format : String → String

-- The documented behaviour that the properties rely on. `holds` is `conditions.IsTrue`.
pub record IsLawful (K : Kit) : Type 0 where
  pub contains-add :
      (fs : List String) (f : String) → K.contains_finalizer (K.add_finalizer fs f) f ≡ true
  pub contains-remove :
      (fs : List String) (f : String) → K.contains_finalizer (K.remove_finalizer fs f) f ≡ false
  pub holds-mark_true : (c : String) (cs : ConditionList) → K.holds c (K.mark_true c cs) ≡ true
  pub holds-mark_false :
      (c reason : String) (v : Severity) (message : String) (cs : ConditionList)
      → K.holds c (K.mark_false c reason v message cs) ≡ false
  pub holds-mark_unknown :
      (c reason message : String) (cs : ConditionList)
      → K.holds c (K.mark_unknown c reason message cs) ≡ false
  pub holds-mark_true_ne :
      (c d : String) (cs : ConditionList) → c ≢ d → K.holds d (K.mark_true c cs) ≡ K.holds d cs
  pub holds-mark_false_ne :
      (c d reason : String) (v : Severity) (message : String) (cs : ConditionList)
      → c ≢ d
      → K.holds d (K.mark_false c reason v message cs) ≡ K.holds d cs
  pub has-new_string : (xs : List String) (x : String) → K.has (K.new_string xs) x ≡ contains xs x
  pub has-union :
      (s t : K.StringSet) (x : String) → K.has (K.union s t) x ≡ (K.has s x || K.has t x)
