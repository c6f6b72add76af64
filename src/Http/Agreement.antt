-- ===== src/Http/Agreement.antt =====
-- The endpoints of internal/transport/httpapi/server.go and the calls of internal/transport/grpcapi.
use drone_management_system.Transport.{
  from_optional_location, from_order_view, from_drone_status, from_drone, map_service_error,
  from_order,
}
use drone_management_system.Domain.{role_admin, role_end_user, Error, invalid, sentinel, role_drone}
use drone_management_system.Http.Guards.{serve_endpoint-judged, http_claims}
use drone_management_system.Auth.{Claims}
use drone_management_system.Grpc.Guards.{
  drones_response, orders_response, admin_mark_drone_fixed_call, admin_mark_drone_broken_call,
  order_view_response, admin_list_drones_call, admin_update_order_call, drone_status_response,
  admin_list_orders_call, get_order_call, withdraw_order_call, drone_response, submit_order_call,
  current_order_call, order_response, heartbeat_call, mark_drone_broken_call, fail_order_call,
  reply_as, deliver_order_call, serve, pickup_order_call, reserve_job_call, Call, Response,
}
use drone_management_system.Http.{
  answer_body, responded, reply_error, decoding, finish, HttpRequest, HttpReply,
}
use drone_management_system.Grpc.{
  status_filter, to_domain_location, refuse, guarded, respond, answer, Reply, get_claims,
}
use drone_management_system.Http.Routes.{
  serve_endpoint, endpoint_handler, group_role, HttpServer, Endpoint,
}
use drone_management_system.Exec.{Result, State, ok, err}
use drone_management_system.Grpc
use drone_management_system.Service
use drone_management_system.Views
use mathlib.Core.Path.{subst}
use drone_management_system.Base.{
  map, ◌∙◌, some_eq, sym, true, ◌==◌, String, ℕ, Option, none, some, ◌≡◌, refl,
}

abbrev pub when_decoded : {A : Type 0} → Option A → (A → Call) → Option Call
when_decoded none c = none
when_decoded (some req) c = some (c req)

-- The call over gRPC that an endpoint stands for; none where the body cannot be decoded.
unfoldable pub call_of : HttpServer → Endpoint → HttpRequest → Option Call
call_of srv Endpoint.issue_token r = none
call_of srv Endpoint.drone_reserve r = some (reserve_job_call)
call_of srv Endpoint.drone_pickup r = some (pickup_order_call r.id)
call_of srv Endpoint.drone_deliver r = some (deliver_order_call r.id)
call_of srv Endpoint.drone_fail r =
    when_decoded (srv.web.decode_reason r.body) (λ reason. fail_order_call r.id reason)
call_of srv Endpoint.drone_broken r = some (mark_drone_broken_call)
call_of srv Endpoint.drone_heartbeat r =
    when_decoded (srv.web.decode_heartbeat r.body) (λ req. heartbeat_call req.lat req.lng)
call_of srv Endpoint.drone_current_order r = some (current_order_call)
call_of srv Endpoint.submit_order r =
    when_decoded (srv.web.decode_submit r.body)
      (λ req. submit_order_call req.origin req.destination)
call_of srv Endpoint.withdraw_order r = some (withdraw_order_call r.id)
call_of srv Endpoint.get_order r = some (get_order_call r.id)
call_of srv Endpoint.admin_list_orders r = some (
    admin_list_orders_call (r.query "status") (srv.web.atoi (r.query "limit"))
      (srv.web.atoi (r.query "offset")))
call_of srv Endpoint.admin_update_order r =
    when_decoded (srv.web.decode_update r.body)
      (λ req. admin_update_order_call r.id req.origin req.destination)
call_of srv Endpoint.admin_list_drones r = some (admin_list_drones_call)
call_of srv Endpoint.admin_drone_broken r = some (admin_mark_drone_broken_call r.id)
call_of srv Endpoint.admin_drone_fixed r = some (admin_mark_drone_fixed_call r.id)

-- The status of an answer.
abbrev pub success_status : Endpoint → ℕ
success_status Endpoint.submit_order = 201
success_status _ = 200

-- A reply over HTTP and one over gRPC that say the same: the same response, or the same error, and
-- the same next state.
pub data Agrees (status : ℕ) : HttpReply × State → Reply Response × State → Type 0 where
  answered :
      (x : Response) (s : State) → Agrees status (responded status (answer_body x), s) (answer x, s)
  refused :
      (e : Error) (s : State) → Agrees status (reply_error e, s) (refuse (map_service_error e), s)

-- Agreement with a call, and without one the answer that the body is invalid.
abbrev pub AgreesWith :
    ℕ → (Call → State → Reply Response × State) → State → Option Call → HttpReply × State → Type 0
AgreesWith status serving s none reply = reply ≡ (reply_error (sentinel invalid), s)
AgreesWith status serving s (some call) reply = Agrees status reply (serving call s)

finish-Agrees :
    {A B : Type 0} (status : ℕ) (f : A → B) (w : B → Response) (res : Result A × State)
    → Agrees status (finish status (λ x. w (f x)) res) (reply_as w (respond f res))
finish-Agrees status f w (ok x, s) = answered (w (f x)) s
finish-Agrees status f w (err e, s) = refused e s

require_role-admits :
    (claims : Claims) (role : String)
    → (claims.role == role) ≡ true
    → drone_management_system.Grpc.require_role (some claims) role ≡ answer claims
unfolding drone_management_system.Grpc.require_role get_claims
require_role-admits claims role h = rw h refl

guarded-Agrees :
    {A B : Type 0} (status : ℕ) (claims : Claims) (role : String) (f : A → B) (w : B → Response)
    (k : Claims → State → Result A × State) (s : State)
    → (claims.role == role) ≡ true
    → Agrees status (finish status (λ x. w (f x)) (k claims s)) (
        reply_as w (
          guarded
            (drone_management_system.Grpc.require_role (some claims) role)
            (λ c s. respond f (k c s))
            s))
guarded-Agrees status claims role f w k s h =
    subst
      (λ g.
        Agrees status (finish status (λ x. w (f x)) (k claims s))
          (reply_as w (guarded g (λ c s. respond f (k c s)) s)))
      (sym (require_role-admits claims role h)) (finish-Agrees status f w (k claims s))

decoding-Agrees :
    {A : Type 0} (status : ℕ) (serving : Call → State → Reply Response × State) (s : State)
    (o : Option A) (c : A → Call) (k : A → State → HttpReply × State)
    → ((a : A) → Agrees status (k a s) (serving (c a) s))
    → AgreesWith status serving s (when_decoded o c) (decoding o k s)
decoding-Agrees status serving s none c k h = refl
decoding-Agrees status serving s (some x) c k h = h x

module _ (srv : HttpServer) (claims : Claims) (r : HttpRequest) (s : State) where
  abbrev pub serving : Call → State → Reply Response × State
  serving = serve srv.env srv.ops srv.speed srv.sort_slice (some claims)

  -- The handler of an endpoint agrees with the call it stands for.
  pub endpoint_handler-Agrees :
      (e : Endpoint) (role : String)
      → group_role e ≡ some role
      → (claims.role == role) ≡ true
      → AgreesWith
          (success_status e)
          serving
          s
          (call_of srv e r)
          (endpoint_handler srv e (some claims) r s)
  unfolding serve call_of endpoint_handler get_claims
  endpoint_handler-Agrees Endpoint.issue_token role h c = cc
  endpoint_handler-Agrees Endpoint.drone_reserve role h c =
      guarded-Agrees 200 claims role_drone from_order order_response
        (λ c s. Service.drone_reserve_job srv.env c.subject s) s (rw (some_eq h) c)
  endpoint_handler-Agrees Endpoint.drone_pickup role h c =
      guarded-Agrees 200 claims role_drone from_order order_response
        (λ c s. Service.drone_pickup srv.env c.subject r.id s) s (rw (some_eq h) c)
  endpoint_handler-Agrees Endpoint.drone_deliver role h c =
      guarded-Agrees 200 claims role_drone from_order order_response
        (λ c s. Service.drone_deliver srv.env c.subject r.id s) s (rw (some_eq h) c)
  endpoint_handler-Agrees Endpoint.drone_fail role h c =
      decoding-Agrees 200 serving s (srv.web.decode_reason r.body)
        (λ reason. fail_order_call r.id reason) _
        (λ reason.
          guarded-Agrees 200 claims role_drone from_order order_response
            (λ c s. Service.drone_fail srv.env c.subject r.id reason s) s (rw (some_eq h) c))
  endpoint_handler-Agrees Endpoint.drone_broken role h c =
      guarded-Agrees 200 claims role_drone from_drone drone_response
        (λ c s. Service.drone_mark_broken srv.env c.subject s) s (rw (some_eq h) c)
  endpoint_handler-Agrees Endpoint.drone_heartbeat role h c =
      decoding-Agrees 200 serving s (srv.web.decode_heartbeat r.body)
        (λ req. heartbeat_call req.lat req.lng) _
        (λ req.
          guarded-Agrees 200 claims role_drone from_drone_status drone_status_response
            (λ c s.
              Views.drone_heartbeat srv.env srv.ops srv.speed c.subject
                (record { lat = req.lat; lng = req.lng }) s)
            s (rw (some_eq h) c))
  endpoint_handler-Agrees Endpoint.drone_current_order role h c =
      guarded-Agrees 200 claims role_drone from_order_view order_view_response
        (λ c s. Views.drone_current_order srv.env srv.ops srv.speed c.subject s) s
        (rw (some_eq h) c)
  endpoint_handler-Agrees Endpoint.submit_order role h c =
      decoding-Agrees 201 serving s (srv.web.decode_submit r.body)
        (λ req. submit_order_call req.origin req.destination) _
        (λ req.
          guarded-Agrees 201 claims role_end_user from_order order_response
            (λ c s.
              Service.submit_order srv.env c.subject (to_domain_location req.origin)
                (to_domain_location req.destination) s)
            s (rw (some_eq h) c))
  endpoint_handler-Agrees Endpoint.withdraw_order role h c =
      guarded-Agrees 200 claims role_end_user from_order order_response
        (λ c s. Service.withdraw_order srv.env c.subject r.id s) s (rw (some_eq h) c)
  endpoint_handler-Agrees Endpoint.get_order role h c =
      finish-Agrees 200 from_order_view order_view_response
        (Views.get_order_view srv.env srv.ops srv.speed claims.subject claims.role r.id s)
  endpoint_handler-Agrees Endpoint.admin_list_orders role h c =
      guarded-Agrees 200 claims role_admin (map from_order_view) orders_response
        (λ c s.
          Views.admin_list_orders srv.env srv.ops srv.speed srv.sort_slice
            (record {
              status = status_filter (r.query "status");
              limit = srv.web.atoi (r.query "limit");
              offset = srv.web.atoi (r.query "offset");
            })
            s)
        s (rw (some_eq h) c)
  endpoint_handler-Agrees Endpoint.admin_update_order role h c =
      decoding-Agrees 200 serving s (srv.web.decode_update r.body)
        (λ req. admin_update_order_call r.id req.origin req.destination) _
        (λ req.
          guarded-Agrees 200 claims role_admin from_order order_response
            (λ c s.
              Service.admin_update_order srv.env r.id (from_optional_location req.origin)
                (from_optional_location req.destination) s)
            s (rw (some_eq h) c))
  endpoint_handler-Agrees Endpoint.admin_list_drones role h c =
      guarded-Agrees 200 claims role_admin (map from_drone) drones_response
        (λ c s. Views.admin_list_drones srv.env srv.ops srv.speed s) s (rw (some_eq h) c)
  endpoint_handler-Agrees Endpoint.admin_drone_broken role h c =
      guarded-Agrees 200 claims role_admin from_drone drone_response
        (λ c s. Service.admin_mark_drone_broken srv.env r.id s) s (rw (some_eq h) c)
  endpoint_handler-Agrees Endpoint.admin_drone_fixed role h c =
      guarded-Agrees 200 claims role_admin from_drone drone_response
        (λ c s. Service.admin_mark_drone_fixed srv.env r.id s) s (rw (some_eq h) c)

-- A request to an endpoint of a group with a role, whose claims have the role, is answered as the
-- call over gRPC that it stands for is answered with the same claims: with the same next state,
-- and with the same response or the same error. Where the body cannot be decoded it is answered as
-- invalid and changes nothing.
pub serve_endpoint-AgreesWith :
    (srv : HttpServer) (e : Endpoint) (role : String) (claims : Claims) (r : HttpRequest)
    (s : State)
    → group_role e ≡ some role
    → http_claims srv r ≡ some claims
    → (claims.role == role) ≡ true
    → AgreesWith
        (success_status e)
        (serving srv claims r s)
        s
        (call_of srv e r)
        (serve_endpoint srv e r s)
serve_endpoint-AgreesWith srv e role claims r s h found c =
    subst
      (λ reply. AgreesWith (success_status e) (serving srv claims r s) s (call_of srv e r) reply)
      (sym (serve_endpoint-judged srv e role r s h ∙ (rw (found, c) refl)))
      (endpoint_handler-Agrees srv claims r s e role h c)
