-- ===== src/Controllers/Requests/Laws.antt =====
-- Which machines a change of a NomadCluster enqueues.
use cluster_api_provider_nom.Base.{List, [], ◌∷◌, ◌≡◌, ◌≢◌, inl, inr, ◌↔◌, ap, sym, ◌∙◌, Bool-cases}
use cluster_api_provider_nom.Base.Text.{◌==◌, eq_iff}
use cluster_api_provider_nom.Api.Meta.{Machine, ObjectKey}
use cluster_api_provider_nom.Controllers.Requests.{machine_requests}

-- The key of a machine's infrastructure object.
abbrev pub infra_key : Machine → ObjectKey
infra_key m = record {
  key_namespace = m.infrastructure_ref.ref_namespace;
  key_name = m.infrastructure_ref.ref_name;
}

-- Where a key stands among the machines.
pub data IsKeyOf (k : ObjectKey) : List Machine → Type 0 where
  first : {m : Machine} {ms : List Machine} → infra_key m ≡ k → IsKeyOf k (m ∷ ms)
  later : {m : Machine} {ms : List Machine} → IsKeyOf k ms → IsKeyOf k (m ∷ ms)

pub data IsIn (k : ObjectKey) : List ObjectKey → Type 0 where
  head : {j : ObjectKey} {ks : List ObjectKey} → j ≡ k → IsIn k (j ∷ ks)
  tail : {j : ObjectKey} {ks : List ObjectKey} → IsIn k ks → IsIn k (j ∷ ks)

-- A machine whose infrastructure object has a name.
sound_head :
    (m : Machine) (ms : List Machine) (k : ObjectKey)
    → m.infrastructure_ref.ref_name ≢ ""
    → (IsIn k (machine_requests ms) → IsKeyOf k ms × (k.key_name ≢ ""))
    → IsIn k (infra_key m ∷ machine_requests ms)
    → IsKeyOf k (m ∷ ms) × (k.key_name ≢ "")
sound_head m ms k named rest (head e) =
    (first e, λ empty. named (ap (λ (j : ObjectKey). j.key_name) e ∙ empty))
sound_head m ms k named rest (tail h) = let r = rest h in (later r.0, r.1)

sound :
    (ms : List Machine) (k : ObjectKey)
    → IsIn k (machine_requests ms)
    → IsKeyOf k ms × (k.key_name ≢ "")
unfolding machine_requests
sound [] k h = elim h [ ]
sound (m ∷ ms) k h = elim (Bool-cases (m.infrastructure_ref.ref_name == "")) [
  | inl same ↦ let r = sound ms k (rw same at h) in (later r.0, r.1)
  | inr differ ↦
      sound_head m ms k (λ e. cc (differ, (eq_iff _ _).1 e)) (sound ms k) (rw differ at h)
]

complete_first :
    (m : Machine) (ms : List Machine) (k : ObjectKey)
    → k.key_name ≢ ""
    → infra_key m ≡ k
    → IsIn k (machine_requests (m ∷ ms))
unfolding machine_requests
complete_first m ms k named e = elim (Bool-cases (m.infrastructure_ref.ref_name == "")) [
  | inl same ↦ absurd (named (sym (ap (λ (j : ObjectKey). j.key_name) e) ∙ (eq_iff _ _).0 same))
  | inr differ ↦ rw differ (head e)
]

complete_later :
    (m : Machine) (ms : List Machine) (k : ObjectKey)
    → IsIn k (machine_requests ms)
    → IsIn k (machine_requests (m ∷ ms))
unfolding machine_requests
complete_later m ms k h = elim (Bool-cases (m.infrastructure_ref.ref_name == "")) [
  | inl same ↦ rw same h
  | inr differ ↦ rw differ (tail h)
]

complete :
    (ms : List Machine) (k : ObjectKey)
    → k.key_name ≢ ""
    → IsKeyOf k ms
    → IsIn k (machine_requests ms)
complete [] k ne h = elim h [ ]
complete (m ∷ ms) k ne (first e) = complete_first m ms k ne e
complete (m ∷ ms) k ne (later h) = complete_later m ms k (complete ms k ne h)

-- The requests are exactly the keys of the machines' infrastructure objects, less those with no
-- name.
pub machine_requests_iff :
    (ms : List Machine) (k : ObjectKey)
    → IsIn k (machine_requests ms) ↔ (IsKeyOf k ms × (k.key_name ≢ ""))
machine_requests_iff ms k = (sound ms k, λ h. complete ms k h.1 h.0)
