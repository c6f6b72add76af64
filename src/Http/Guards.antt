-- ===== src/Http/Guards.antt =====
-- What the middleware of internal/transport/httpapi/server.go lets through.
use drone_management_system.Domain.{forbidden, unauthorized, sentinel}
use drone_management_system.Grpc.Guards.{is_allowed}
use drone_management_system.Exec.{State}
use drone_management_system.Auth.{Claims, parse_token, extract_bearer_token}
use drone_management_system.Http.{
  with_role, reply_error, HttpReply, HttpRequest, HttpHandler, require_role,
}
use drone_management_system.Http.Routes.{
  endpoint_handler, serve_endpoint, group_role, behind_role, Endpoint, HttpServer,
}
use drone_management_system.Base.{
  ◌∙◌, some_eq, false, ◌==◌, Bool-cases, if◌then◌else◌, String, Option, none, some, inl, inr, ◌≡◌,
  refl,
}

-- The claims that the middleware finds in a request, if any.
unfoldable pub http_claims : HttpServer → HttpRequest → Option Claims
unfolding extract_bearer_token parse_token
http_claims srv r =
    let token = extract_bearer_token r.authorization in
    if token == "" then none else parse_token srv.jwt srv.auth token srv.now

-- What a caller is told who may not call.
abbrev pub http_refusal : Option Claims → HttpReply
http_refusal none = reply_error (sentinel unauthorized)
http_refusal (some claims) = reply_error (sentinel forbidden)

abbrev judged : Option Claims → String → HttpHandler → HttpRequest → State → HttpReply × State
judged ctx role next r s =
    if is_allowed ctx (some role) then next ctx r s else (http_refusal ctx, s)

with_role-judged :
    (role : String) (ctx : Option Claims) (next : HttpHandler) (r : HttpRequest) (s : State)
    → with_role role ctx (λ claims. next (some claims) r) s ≡ judged ctx role next r s
with_role-judged role none next r s = refl
with_role-judged role (some claims) next r s = elim (Bool-cases (claims.role == role)) [
  | inl e ↦ rw e refl
  | inr e ↦ rw e refl
]

-- The middleware hands a request on exactly where its claims have the role.
pub require_role-judged :
    (srv : HttpServer) (role : String) (next : HttpHandler) (r : HttpRequest) (s : State)
    → require_role srv.jwt srv.auth srv.now role next r s ≡ judged (http_claims srv r) role next r s
unfolding require_role http_claims
require_role-judged srv role next r s =
    elim (Bool-cases (extract_bearer_token r.authorization == "")) [
      | inl e ↦ rw e refl
      | inr e ↦ rw e (with_role-judged role _ next r s)
    ]

behind_role-judged :
    (srv : HttpServer) (group : Option String) (role : String) (next : HttpHandler)
    (r : HttpRequest) (s : State)
    → group ≡ some role
    → behind_role srv group next r s ≡ judged (http_claims srv r) role next r s
behind_role-judged srv none role next r s h = cc
behind_role-judged srv (some x) role next r s h =
    rw (some_eq h) (require_role-judged srv role next r s)

pub serve_endpoint-judged :
    (srv : HttpServer) (e : Endpoint) (role : String) (r : HttpRequest) (s : State)
    → group_role e ≡ some role
    → serve_endpoint srv e r s ≡ judged (http_claims srv r) role (endpoint_handler srv e) r s
serve_endpoint-judged srv e role r s h =
    behind_role-judged srv (group_role e) role (endpoint_handler srv e) r s h

-- A request to an endpoint of a group with a role, whose claims are missing or have another role,
-- changes nothing, and is answered with 401 where they are missing and with 403 where the role is
-- another.
pub serve_endpoint-refuses :
    (srv : HttpServer) (e : Endpoint) (role : String) (r : HttpRequest) (s : State)
    → group_role e ≡ some role
    → is_allowed (http_claims srv r) (some role) ≡ false
    → serve_endpoint srv e r s ≡ (http_refusal (http_claims srv r), s)
serve_endpoint-refuses srv e role r s h denied =
    serve_endpoint-judged srv e role r s h ∙ (rw denied refl)
