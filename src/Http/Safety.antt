-- ===== src/Http/Safety.antt =====
-- The claims that the handlers of internal/transport/httpapi/server.go read.
use drone_management_system.Grpc.{Reply}
use drone_management_system.Http.Guards.{serve_endpoint-refuses, http_refusal, http_claims}
use drone_management_system.Domain.{validate_role, Time}
use drone_management_system.Auth.{issue_token, Claims}
use drone_management_system.Grpc.Guards.{is_allowed, Response, Call}
use drone_management_system.Exec.{State}
use drone_management_system.Transport.{write_error}
use drone_management_system.Http.Routes.{
  routes, routed, serve_endpoint, group_role, Endpoint, serve_http, endpoint_handler, HttpServer,
}
use mathlib.Core.Path.{subst}
use drone_management_system.Http.{
  token_response_of, HttpRequest, reply_error, handle_issue_token, HttpReply, responded, panicked,
}
use drone_management_system.Http.Agreement.{
  serve_endpoint-AgreesWith, call_of, serving, Agrees, success_status, AgreesWith, answered,
  refused,
}
use drone_management_system.Base.{
  ◌∙◌, not, ◌||◌, ◌==◌, ap, Bool-cases, ◌⊎◌, Option-cases, true, false, Option, Bool, ℕ, String,
  none, some, inl, inr, ◌≡◌, refl,
}

-- Whether a handler has read claims that are not there.
abbrev pub is_panic : HttpReply × State → Bool
is_panic (responded status body, s) = false
is_panic (panicked, s) = true

AgreesWith-is_panic :
    (status : ℕ) (f : Call → State → Reply Response × State) (s : State) (o : Option Call)
    (reply : HttpReply × State)
    → AgreesWith status f s o reply
    → is_panic reply ≡ false
unfolding write_error reply_error
AgreesWith-is_panic status f s none reply h = ap is_panic h
AgreesWith-is_panic status f s (some call) reply h = no_panic h
  where
    no_panic :
        {reply : HttpReply × State} {other : Reply Response × State}
        → Agrees status reply other
        → is_panic reply ≡ false
    no_panic (answered x s) = refl
    no_panic (refused e s) = refl

http_refusal-is_panic : (ctx : Option Claims) (s : State) → is_panic (http_refusal ctx, s) ≡ false
unfolding write_error reply_error
http_refusal-is_panic none s = refl
http_refusal-is_panic (some claims) s = refl

guarded-is_panic :
    (srv : HttpServer) (e : Endpoint) (role : String) (r : HttpRequest) (s : State)
    → group_role e ≡ some role
    → is_panic (serve_endpoint srv e r s) ≡ false
guarded-is_panic srv e role r s h = elim (Bool-cases (is_allowed (http_claims srv r) (some role))) [
  | inl allowed ↦ admitted (Option-cases (http_claims srv r)) allowed
  | inr denied ↦
      ap is_panic (serve_endpoint-refuses srv e role r s h denied)
      ∙ http_refusal-is_panic (http_claims srv r) s
]
  where
    admitted :
        (http_claims srv r ≡ none) ⊎ ((claims : Claims) × (http_claims srv r ≡ some claims))
        → is_allowed (http_claims srv r) (some role) ≡ true
        → is_panic (serve_endpoint srv e r s) ≡ false
    admitted (inl none_found) allowed = cc
    admitted (inr (claims, found)) allowed =
        AgreesWith-is_panic (success_status e) (serving srv claims r s) s (call_of srv e r)
          (serve_endpoint srv e r s)
          (serve_endpoint-AgreesWith srv e role claims r s h found
            (subst (λ ctx. is_allowed ctx (some role) ≡ true) found allowed))

issue_token-is_panic :
    (srv : HttpServer) (r : HttpRequest) (s : State)
    → is_panic (handle_issue_token srv.jwt srv.auth srv.now srv.web none r s) ≡ false
unfolding handle_issue_token write_error reply_error
issue_token-is_panic srv r s = elim (Option-cases (srv.web.decode_token r.body)) [
  | inl e ↦ rw e refl
  | inr (req, e) ↦ rw e (elim (Bool-cases (req.name == "" || not (validate_role req.role))) [
    | inl bad ↦ rw bad refl
    | inr good ↦ rw good (token (issue_token srv.jwt srv.auth req.name req.role srv.now))
  ])
]
  where
    token : (o : Option (String × Time)) → is_panic (token_response_of o, s) ≡ false
    token none = refl
    token (some (text, exp)) = refl

endpoint-is_panic :
    (srv : HttpServer) (e : Endpoint) (r : HttpRequest) (s : State)
    → is_panic (serve_endpoint srv e r s) ≡ false
unfolding endpoint_handler
endpoint-is_panic srv e r s = elim (Option-cases (group_role e)) [
  | inl h ↦ ungrouped e h
  | inr (role, h) ↦ guarded-is_panic srv e role r s h
]
  where
    ungrouped : (e : Endpoint) → group_role e ≡ none → is_panic (serve_endpoint srv e r s) ≡ false
    ungrouped Endpoint.issue_token h = issue_token-is_panic srv r s
    ungrouped _ h = cc

-- No handler panics for want of claims: whatever the request and the route that the router finds,
-- there is a response.
pub serve_http-is_panic :
    (srv : HttpServer) (verb path : String) (r : HttpRequest) (s : State)
    → is_panic (serve_http srv verb path r s) ≡ false
unfolding serve_http
serve_http-is_panic srv verb path r s = found (srv.find_route routes verb path)
  where
    found : (o : Option (Endpoint × String)) → is_panic (routed srv o r s) ≡ false
    found none = refl
    found (some (e, id)) = endpoint-is_panic srv e (record r { id = id }) s
