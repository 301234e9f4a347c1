-- ===== src/Consul/Client/Laws.antt =====
-- When an exchange with Consul counts as a success.
use cluster_api_provider_nom.Base.{none, ◌≡◌, ◌↔◌, ◌⊎◌, arith}
use cluster_api_provider_nom.World.Wire.{Response}
use cluster_api_provider_nom.Consul.Client.{status_ok, status_no_content, read_response}

-- A response to a request that wants no answer decoded is a success exactly when its status is 204,
-- or is 200 and the body can be closed.
pub read_response_iff :
    (res : Response)
    → (read_response res none ≡ none) ↔ (
        (res.status_code ≡ status_no_content)
        ⊎ ((res.status_code ≡ status_ok) × (res.close_error ≡ none)))
unfolding read_response
read_response_iff res = (λ h. ground arith, λ h. ground arith)
