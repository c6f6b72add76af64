-- ===== src/Grpc/Interceptor.antt =====
-- The interceptor and `IssueToken` of internal/transport/grpcapi/server.go. A context holds the
-- `authorization` values of the incoming metadata and the claims, if any.
use drone_management_system.Grpc.Requests.{TokenRequest}
use drone_management_system.Auth.{
  parse_token, issue_token, extract_bearer_token, Authenticator, Claims, Jwt,
}
use drone_management_system.Exec.{State}
use drone_management_system.Domain.{validate_role, Time}
use drone_management_system.Transport.{unauthenticated, internal, invalid_argument}
use drone_management_system.Grpc.{Reply, answer, refuse}
use drone_management_system.Grpc.Guards.{Response, token_response}
use drone_management_system.Base.{
  ◌||◌, if◌then◌else◌, List, Option, none, some, [], ◌∷◌, String, ◌==◌, not,
}

pub record CallContext : Type 0 where
  pub authorization : List String
  pub claims : Option Claims

abbrev pub Handler : Type 0
Handler = CallContext → State → Reply Response × State

abbrev pub issue_token_method : String
issue_token_method = "/drone.AuthService/IssueToken"

-- `if values := md.Get("authorization"); len(values) > 0 { authHeader = values[0] }`
abbrev pub first_or_empty : List String → String
first_or_empty [] = ""
first_or_empty (value ∷ _) = value

abbrev pub parsed_claims : Option Claims → Reply Claims
parsed_claims none = refuse (record { code = unauthenticated; message = "invalid token" })
parsed_claims (some claims) = answer claims

abbrev go_on : Reply Claims → CallContext → Handler → State → Reply Response × State
go_on (refuse status) ctx handler s = (refuse status, s)
go_on (answer claims) ctx handler s = handler (record ctx { claims = some claims }) s

abbrev pub token_reply : (Time → String) → Option (String × Time) → Reply Response
token_reply format none = refuse (record { code = internal; message = "token error" })
token_reply format (some (token, exp)) =
    answer (token_response (record { token = token; expires_at = format exp }))

module _ (jwt : Jwt) (a : Authenticator) (now : Time) where
  unfoldable pub authenticate : List String → Reply Claims
  unfolding extract_bearer_token parse_token
  authenticate values =
      let token = extract_bearer_token (first_or_empty values) in
      if token == ""
      then refuse (record { code = unauthenticated; message = "missing token" })
      else parsed_claims (parse_token jwt a token now)

  unfoldable pub auth_interceptor : String → CallContext → Handler → State → Reply Response × State
  unfolding authenticate
  auth_interceptor full_method ctx handler s =
      if full_method == issue_token_method
      then handler ctx s
      else go_on (authenticate ctx.authorization) ctx handler s

  -- `format` is `Format(time.RFC3339)`.
  unfoldable pub handle_issue_token : (Time → String) → TokenRequest → Reply Response
  unfolding validate_role issue_token
  handle_issue_token format req =
      if req.name == "" || not (validate_role req.role)
      then refuse (record { code = invalid_argument; message = "invalid request" })
      else token_reply format (issue_token jwt a req.name req.role now)
