-- ===== src/Http.antt =====
-- internal/transport/httpapi/server.go: the routes, the middleware that checks roles, and the handlers.
-- The router, the decoding of JSON and `strconv.Atoi` are arguments.
pub mod Routes
pub mod Guards
pub mod Agreement
pub mod Safety
use drone_management_system.Grpc.{status_filter, to_domain_location}
use drone_management_system.Views.{
  drone_heartbeat, admin_list_orders, drone_current_order, admin_list_drones, get_order_view,
}
use drone_management_system.Service.{
  admin_mark_drone_broken, submit_order, drone_pickup, drone_fail, drone_deliver, drone_mark_broken,
  drone_reserve_job, withdraw_order, admin_update_order, admin_mark_drone_fixed,
}
use drone_management_system.Integer.{ℤ}
use drone_management_system.Float64.{Float64}
use drone_management_system.Eta.{OrderView, FloatOps}
use drone_management_system.Grpc.Requests.{HeartbeatRequest, SubmitOrderRequest, TokenRequest}
use drone_management_system.Transport.{
  from_optional_location, from_drone, from_order, from_order_view, from_drone_status, HttpError,
  write_error,
}
use drone_management_system.Grpc.Guards.{
  drone_status_response, drones_response, order_view_response, order_response, orders_response,
  drone_response, Response,
}
use drone_management_system.Auth.{
  parse_token, issue_token, extract_bearer_token, Authenticator, Claims, Jwt,
}
use drone_management_system.Exec.{State, Result, Env, ok, err}
use drone_management_system.Domain.{
  validate_role, Location, Time, Error, sentinel, driver, invalid, unauthorized, forbidden,
}
use drone_management_system.Base.{
  map, List, ◌||◌, Bool, ◌==◌, if◌then◌else◌, Option, not, String, ℕ, none, some,
}

-- What the handlers read of a request: the `Authorization` header, the `{id}` of the path, the
-- parameters of the query and the body.
pub record HttpRequest : Type 0 where
  pub authorization : String
  pub id : String
  pub query : String → String
  pub body : String

-- The body of `PATCH /admin/orders/{id}`.
pub record RouteUpdate : Type 0 where
  pub origin : Option Location
  pub destination : Option Location

-- `json.NewDecoder(r.Body).Decode`, into the struct of each handler, where `none` is an error, and the
-- first result of `strconv.Atoi`.
pub record Web : Type 0 where
  pub decode_token : String → Option TokenRequest
  pub decode_submit : String → Option SubmitOrderRequest
  pub decode_reason : String → Option String
  pub decode_heartbeat : String → Option HeartbeatRequest
  pub decode_update : String → Option RouteUpdate
  pub atoi : String → ℤ

-- The body of a response; the last is the reply of the router itself.
pub data Body : Type 0 where
  error_body : (code message : String) → Body
  answer_body : Response → Body
  token_body : (token : String) (expires_at : Time) → Body
  router_body : Body

-- A response, or the panic of a handler that reads the claims of a request without any.
pub data HttpReply : Type 0 where
  responded : (status : ℕ) (body : Body) → HttpReply
  panicked : HttpReply

abbrev pub HttpHandler : Type 0
HttpHandler = Option Claims → HttpRequest → State → HttpReply × State

-- `writeError(w, err)`
abbrev pub failure : HttpError → HttpReply
failure e = responded e.status (error_body e.code e.message)

unfoldable pub reply_error : Error → HttpReply
unfolding write_error
reply_error e = failure (write_error e)

-- `if err != nil { writeError(w, err); return }`, and the response of the result.
abbrev pub finish : {A : Type 0} → ℕ → (A → Response) → Result A × State → HttpReply × State
finish status f (ok a, s) = (responded status (answer_body (f a)), s)
finish status f (err e, s) = (reply_error e, s)

-- The reading of `claims.Subject`, for the claims of `mustClaims(r)`, at the place where they are
-- read: a nil pointer panics there.
abbrev pub must_claims :
    Option Claims → (Claims → State → HttpReply × State) → State → HttpReply × State
must_claims none k s = (panicked, s)
must_claims (some claims) k s = k claims s

-- `if err := json.…Decode(&req); err != nil { writeError(w, domain.ErrInvalid); return }`
abbrev pub decoding :
    {A : Type 0} → Option A → (A → State → HttpReply × State) → State → HttpReply × State
decoding none k s = (reply_error (sentinel invalid), s)
decoding (some req) k s = k req s

-- `s.auth.ParseToken(token)` and the comparison of roles in the middleware.
abbrev pub with_role :
    String → Option Claims → (Claims → State → HttpReply × State) → State → HttpReply × State
with_role role none k s = (reply_error (sentinel unauthorized), s)
with_role role (some claims) k s =
    if not (claims.role == role) then (reply_error (sentinel forbidden), s) else k claims s

abbrev pub token_response_of : Option (String × Time) → HttpReply
token_response_of none = reply_error driver
token_response_of (some (token, exp)) = responded 200 (token_body token exp)

module _ (jwt : Jwt) (a : Authenticator) (now : Time) where
  unfoldable pub require_role : String → HttpHandler → HttpRequest → State → HttpReply × State
  unfolding extract_bearer_token parse_token
  require_role role next r s =
      let token = extract_bearer_token r.authorization in
      if token == ""
      then (reply_error (sentinel unauthorized), s)
      else with_role role (parse_token jwt a token now) (λ claims. next (some claims) r) s

  -- An error of the library in signing is none of the sentinels; it is answered as internal.
  unfoldable pub handle_issue_token : Web → HttpHandler
  unfolding validate_role issue_token
  handle_issue_token web ctx r = decoding (web.decode_token r.body) λ req s.
      if req.name == "" || not (validate_role req.role)
      then (reply_error (sentinel invalid), s)
      else (token_response_of (issue_token jwt a req.name req.role now), s)

module _ (env : Env) (ops : FloatOps) (speed : Float64)
    (sort_slice : (OrderView → OrderView → Bool) → List OrderView → List OrderView)
    (web : Web) where
  unfoldable pub handle_drone_reserve : HttpHandler
  handle_drone_reserve ctx r = must_claims ctx λ claims s.
      finish 200 (λ x. order_response (from_order x)) (drone_reserve_job env claims.subject s)

  unfoldable pub handle_drone_pickup : HttpHandler
  handle_drone_pickup ctx r = must_claims ctx λ claims s.
      finish 200 (λ x. order_response (from_order x)) (drone_pickup env claims.subject r.id s)

  unfoldable pub handle_drone_deliver : HttpHandler
  handle_drone_deliver ctx r = must_claims ctx λ claims s.
      finish 200 (λ x. order_response (from_order x)) (drone_deliver env claims.subject r.id s)

  unfoldable pub handle_drone_fail : HttpHandler
  handle_drone_fail ctx r = decoding (web.decode_reason r.body) λ reason.
      must_claims ctx λ claims s.
        finish 200 (λ x. order_response (from_order x))
          (drone_fail env claims.subject r.id reason s)

  unfoldable pub handle_drone_broken : HttpHandler
  handle_drone_broken ctx r = must_claims ctx λ claims s.
      finish 200 (λ x. drone_response (from_drone x)) (drone_mark_broken env claims.subject s)

  unfoldable pub handle_drone_heartbeat : HttpHandler
  handle_drone_heartbeat ctx r = decoding (web.decode_heartbeat r.body) λ req.
      must_claims ctx λ claims s.
        finish 200 (λ x. drone_status_response (from_drone_status x))
          (drone_heartbeat env ops speed claims.subject (record { lat = req.lat; lng = req.lng }) s)

  unfoldable pub handle_drone_current_order : HttpHandler
  handle_drone_current_order ctx r = must_claims ctx λ claims s.
      finish 200 (λ x. order_view_response (from_order_view x))
        (drone_current_order env ops speed claims.subject s)

  unfoldable pub handle_submit_order : HttpHandler
  handle_submit_order ctx r = decoding (web.decode_submit r.body) λ req. must_claims ctx λ claims s.
      finish 201 (λ x. order_response (from_order x))
        (submit_order env claims.subject (to_domain_location req.origin)
          (to_domain_location req.destination) s)

  unfoldable pub handle_withdraw_order : HttpHandler
  handle_withdraw_order ctx r = must_claims ctx λ claims s.
      finish 200 (λ x. order_response (from_order x)) (withdraw_order env claims.subject r.id s)

  unfoldable pub handle_get_order : HttpHandler
  handle_get_order ctx r = must_claims ctx λ claims s.
      finish 200 (λ x. order_view_response (from_order_view x))
        (get_order_view env ops speed claims.subject claims.role r.id s)

  unfoldable pub handle_admin_list_orders : HttpHandler
  handle_admin_list_orders ctx r = λ s.
      finish 200 (λ x. orders_response ((map from_order_view) x))
        (admin_list_orders env ops speed sort_slice
          (record {
            status = status_filter (r.query "status");
            limit = web.atoi (r.query "limit");
            offset = web.atoi (r.query "offset");
          })
          s)

  unfoldable pub handle_admin_update_order : HttpHandler
  handle_admin_update_order ctx r = decoding (web.decode_update r.body) λ req s.
      finish 200 (λ x. order_response (from_order x))
        (admin_update_order env r.id (from_optional_location req.origin)
          (from_optional_location req.destination) s)

  unfoldable pub handle_admin_list_drones : HttpHandler
  handle_admin_list_drones ctx r = λ s.
      finish 200 (λ x. drones_response ((map from_drone) x)) (admin_list_drones env ops speed s)

  unfoldable pub handle_admin_drone_broken : HttpHandler
  handle_admin_drone_broken ctx r =
      λ s. finish 200 (λ x. drone_response (from_drone x)) (admin_mark_drone_broken env r.id s)

  unfoldable pub handle_admin_drone_fixed : HttpHandler
  handle_admin_drone_fixed ctx r =
      λ s. finish 200 (λ x. drone_response (from_drone x)) (admin_mark_drone_fixed env r.id s)
