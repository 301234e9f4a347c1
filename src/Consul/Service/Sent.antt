-- ===== src/Consul/Service/Sent.antt =====
-- What a registration or a deregistration that gave no error has done.
use cluster_api_provider_nom.Base.{
  String, ◌<>◌, Option, none, some, List, ◌∷◌, ◌≡◌, ◌∙◌, ◌⊎◌, inl, inr, refl, Option-cases,
}
use cluster_api_provider_nom.World.Error.{Error, ok}
use cluster_api_provider_nom.World.Wire.{
  Body, service, null, put, Request, Response, Call, Service, send_http,
}
use cluster_api_provider_nom.World.Remote.{World}
use cluster_api_provider_nom.World.Monad.{Sys, pure, on_no_error}
use cluster_api_provider_nom.World.Keeps.{IsStable, stable-silent}
use cluster_api_provider_nom.World.Ensures.{
  Ensures, Ensures-of_Keeps, Ensures-bind, Ensures-call, Ensures-on_ok, Ensures-on_no_error,
  Ensures-pure,
}
use cluster_api_provider_nom.Consul.Client.{Client, headers, read_response, send_request, send}
use cluster_api_provider_nom.Consul.Service.{
  register_path, deregister_path, register_service, deregister_service,
}

-- The request that a client puts.
abbrev pub put_request : Client → String → Body → Request
put_request c api_path body = record {
  method = put;
  url = c.base_url <> api_path;
  payload = some body;
  headers = headers;
}

module _ (W : World) where
  -- The last call is the request, its response was a success, and nothing has happened since.
  pub record Accepted (req : Request) (calls : List Call) (now : W.State) : Type 0 where
    pub before : W.State
    pub response : Response
    pub answered : (W.send_http req before).0 ≡ ok response
    pub success : read_response response none ≡ none
    pub earlier : List Call
    pub last : calls ≡ send_http req ∷ earlier
    pub after : now ≡ (W.send_http req before).1

  -- An error, or a request that was accepted, in a state that keeps `P`.
  abbrev pub Sent : (Sys W.State → Type 0) → Request → Option Error → Sys W.State → Type 0
  Sent P req failure sys =
      P sys
      × (((e : Error) × (failure ≡ some e)) ⊎ ((failure ≡ none) × Accepted req sys.calls sys.world))

  module _ {P : Sys W.State → Type 0} (st : IsStable P) (c : Client) where
    send-Sent :
        (api_path : String) (body : Body)
        → Ensures P (send W c put api_path body none) (Sent P (put_request c api_path body)) P
    unfolding send send_request
    send-Sent api_path body =
        Ensures-bind (λ _. P) _ _ (Ensures-of_Keeps _ (stable-silent st _))
          (λ refused.
            Ensures-on_no_error _ _ _ (λ e _. Ensures-pure _ (λ sys h. (h, inl (e, refl))))
              (λ _.
                Ensures-bind
                  (λ answer sys.
                    P sys
                    × (before : W.State) × ((W.send_http (put_request c api_path body) before).0
                        ≡ answer)
                    × (earlier : List Call) × (sys.calls
                        ≡ send_http (put_request c api_path body) ∷ earlier)
                    × (sys.world ≡ (W.send_http (put_request c api_path body) before).1))
                  _ _
                  (Ensures-call _ _
                    (λ sys h. (st.calls_only sys _ _ h, sys.world, refl, sys.calls, refl, refl)))
                  (λ answer.
                    Ensures-on_ok _ _ _ (λ e _. Ensures-pure _ (λ sys h. (h.0, inl (e, refl))))
                      (λ res found. Ensures-pure _ (λ sys h. (
                        h.0,
                        elim (Option-cases (read_response res none)) [
                          | inl good ↦ inr (
                            good,
                            record {
                              before = h.1;
                              response = res;
                              answered = h.2 ∙ found;
                              success = good;
                              earlier = h.3;
                              last = h.4;
                              after = h.5;
                            },
                          )
                          | inr bad ↦ inl bad
                        ],
                      ))))))

    -- The two operations hand the error of the request on.
    forward :
        (req : Request) (failure : Option Error)
        → Ensures
            (Sent P req failure)
            (on_no_error failure (λ e. pure (some e)) (pure none))
            (Sent P req)
            P
    forward req failure =
        Ensures-on_no_error _ _ _ (λ e same. Ensures-pure _ (λ sys h. (h.0, inl (e, refl))))
          (λ none_. Ensures-pure _ (λ sys h.
            (h.0, elim h.1 [ inl bad ↦ cc (bad.1, none_) | inr good ↦ inr (refl, good.1) ])))

    pub register_service-Sent :
        (s : Service)
        → Ensures P (register_service W c s) (Sent P (put_request c register_path (service s))) P
    unfolding register_service
    register_service-Sent s = Ensures-bind _ _ _ (send-Sent register_path (service s)) (forward _)

    pub deregister_service-Sent :
        (service_id : String)
        → Ensures P
            (deregister_service W c service_id)
            (Sent P (put_request c (deregister_path service_id) null))
            P
    unfolding deregister_service
    deregister_service-Sent service_id =
        Ensures-bind _ _ _ (send-Sent (deregister_path service_id) null) (forward _)
