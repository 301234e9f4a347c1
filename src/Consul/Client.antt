-- ===== src/Consul/Client.antt =====
-- pkg/consulclient/client.go: `NewClient`, `send` and `sendRequest`. `json.Marshal` does not
-- fail on what the provider gives it, so that branch of `send` has no counterpart.
pub mod Laws
use cluster_api_provider_nom.Base.{
  ℕ, String, ◌<>◌, ◌&&◌, not, Option, none, some, List, [], ◌∷◌, ◌==◌, if◌then◌else◌,
}
use cluster_api_provider_nom.Base.Format.{decimal}
use cluster_api_provider_nom.World.Error.{Error, fresh, Result, ok, err}
use cluster_api_provider_nom.World.Wire.{Method, get, put, Body, Request, Response, send_http}
use cluster_api_provider_nom.World.Remote.{World}
use cluster_api_provider_nom.World.Monad.{M, pure, call, silent, on_ok, on_no_error, ◌>>=◌}

pub record Client : Type 0 where
  pub base_url : String
  pub api_key : String

unfoldable pub new_client : String → String → Client
new_client consul_endpoint api_key = record { base_url = consul_endpoint; api_key = api_key }

-- Where a decoded body goes: what `json.Decoder.Decode` returns of the body's text, or of the error
-- that ends its reading. Nil is `none`.
abbrev pub Target : Type 0
Target = Option (Result String → Option Error)

abbrev pub status_ok : ℕ
status_ok = 200

abbrev pub status_no_content : ℕ
status_no_content = 204

abbrev pub headers : List (String × String)
headers = ("Accept", "application/json; charset=utf-8") ∷ ("Content-Type", "application/json") ∷ []

-- `fmt.Errorf("unknown error, status code: %d, body: %s", …)`; `shown` is the number in print.
abbrev pub unknown_error : String → String → Error
unknown_error shown body = fresh ("unknown error, status code: " <> shown <> ", body: " <> body)

-- What `sendRequest` makes of a response.
unfoldable pub read_response : Response → Target → Option Error
read_response res v =
    if not (res.status_code == status_ok) && not (res.status_code == status_no_content)
    then elim res.body [
      | ok body ↦ some (unknown_error (decimal res.status_code) body)
      | err e ↦ some e
    ]
    else if res.status_code == status_no_content
    then none
    else elim v [ some decode ↦ decode res.body | none ↦ res.close_error ]

module _ (W : World) where
  -- `sendRequest`: the headers, the exchange, and what is made of the response.
  unfoldable pub send_request : Request → Target → M W.State (Option Error)
  send_request req v =
      let sent : Request = record req { headers = headers } in
      do
        answer ← call (send_http sent) (W.send_http sent)
        on_ok answer (λ e. pure (some e)) (λ res. pure (read_response res v))

  -- `send`. A GET carries no body.
  unfoldable pub send : Client → Method → String → Body → Target → M W.State (Option Error)
  send c method api_path body v =
      let url = c.base_url <> api_path in
      let payload : Option Body = elim method [ get ↦ none | put ↦ some body ] in
      let req : Request = record { method = method; url = url; payload = payload; headers = [] } in
      do
        refused ← silent (W.check_url url)
        on_no_error refused (λ e. pure (some e)) (send_request req v)
