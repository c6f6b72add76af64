-- ===== src/Grpc/Session.antt =====
-- From `IssueToken` to the calls that carry its token, over gRPC.
use drone_management_system.Auth.Bearer.{no_space}
use drone_management_system.Grpc.Requests.{TokenResponse, TokenRequest}
use drone_management_system.Domain.{validate_role, Time}
use drone_management_system.Auth.{issued, issue_token, Claims, Authenticator, Jwt, hs256}
use drone_management_system.Base.{false, ◌==◌, true, String, some, ◌≡◌}

-- What the JWT library documents of its compact form: it is not empty and holds no white space.
pub record IsCompact (jwt : Jwt) : Type 0 where
  pub no_white :
      (claims : Claims) (secret token : String)
      → jwt.signed_string hs256 claims secret ≡ some token
      → no_space token ≡ true
  pub filled :
      (claims : Claims) (secret token : String)
      → jwt.signed_string hs256 claims secret ≡ some token
      → (token == "") ≡ false

-- What a reply with a token tells: the request was good, and the token was issued for it.
record ReplyFacts (jwt : Jwt) (a : Authenticator) (now : Time) (format : Time → String)
    (req : TokenRequest) (tr : TokenResponse) : Type 0 where
  role : validate_role req.role ≡ true
  exp : Time
  issue : issue_token jwt a req.name req.role now ≡ some (tr.token, exp)
  signed : jwt.signed_string hs256 (issued jwt a req.name req.role now) a.secret ≡ some tr.token
