-- ===== src/Thrift/Agreement.antt =====
-- The handlers of internal/transport/thriftapi/processor.go and the calls of internal/transport/grpcapi.
use drone_management_system.Thrift.Writers.{
  write_drone_list, write_order_view_list, write_drone_status, write_drone, write_order_view,
  write_order, Write,
}
use drone_management_system.Auth.{parse_token, Claims}
use drone_management_system.Integer.{ℤ}
use drone_management_system.Eta.{OrderView, DroneStatusView}
use drone_management_system.Domain.{
  Order, Drone, Time, role_admin, role_drone, Error, role_end_user, Location,
}
use drone_management_system.Grpc.Guards.{
  drones_response, admin_mark_drone_fixed_call, orders_response, admin_mark_drone_broken_call,
  admin_list_drones_call, drone_status_response, admin_update_order_call, admin_list_orders_call,
  drone_response, current_order_call, heartbeat_call, mark_drone_broken_call, order_view_response,
  fail_order_call, deliver_order_call, pickup_order_call, order_response, reserve_job_call,
  get_order_call, reply_as, withdraw_order_call, Response, submit_order_call, serve, Call,
}
use drone_management_system.Grpc.{
  status_filter, refuse, guarded, respond, answer, Reply, get_claims,
}
use drone_management_system.Thrift.Processor.{wire_name, Method, handle}
use mathlib.Core.Path.{subst}
use drone_management_system.Exec.{Result, Exec, State, ok, err}
use drone_management_system.Grpc
use drone_management_system.Service
use drone_management_system.Views
use drone_management_system.Transport.{
  from_drone_status, from_drone, from_order_view, GrpcStatus, map_service_error, from_order,
  map_error, from_optional_location, permission_denied, unauthenticated,
}
use drone_management_system.Thrift.Handlers.{
  granted, denied, success, grant_role, grant_any, with_claims, unfinished, concluded,
  protocol_failure, write_reply, with_args, write_exception, Turn, Processing, authorize_any,
  authorize, ThriftServer, served,
}
use drone_management_system.Thrift.{Read, Outcome, got, broke, out_of_fuel, struct_type, list_type}
use drone_management_system.Thrift.Readers.{
  read_drone_id_request, read_update_order_request, read_list_orders_request,
  read_heartbeat_request, read_fail_order_request, read_auth_request, read_order_id_request,
  read_submit_order_request,
}
use drone_management_system.Base.{
  map, false, true, ◌==◌, not, if◌then◌else◌, sym, Bool, ◌⊎◌, List, String, Option, none, some, inl,
  inr, ◌≡◌, refl,
}

-- A token, and the call over gRPC that the arguments of a method stand for.
abbrev pub Asked : Type 0
Asked = String × Call

abbrev pub asking : {I A : Type 0} → (A → Asked) → Outcome I A → Outcome I Asked
asking f (got a rest) = got (f a) rest
asking f (broke message rest) = broke message rest
asking f out_of_fuel = out_of_fuel

-- What is read as the arguments of a method; `IssueToken` is no such call.
unfoldable pub requested : {I O : Type 0} → ThriftServer I O → Method → I → Outcome I Asked
requested srv Method.issue_token i = out_of_fuel
requested srv Method.submit_order i =
    asking (λ req. (req.auth_token, submit_order_call req.origin req.destination))
      (read_submit_order_request srv.protocol srv.fuel i)
requested srv Method.withdraw_order i =
    asking (λ req. (req.auth_token, withdraw_order_call req.order_id))
      (read_order_id_request srv.protocol srv.fuel i)
requested srv Method.get_order i =
    asking (λ req. (req.auth_token, get_order_call req.order_id))
      (read_order_id_request srv.protocol srv.fuel i)
requested srv Method.reserve_job i =
    asking (λ req. (req, reserve_job_call)) (read_auth_request srv.protocol srv.fuel i)
requested srv Method.pickup_order i =
    asking (λ req. (req.auth_token, pickup_order_call req.order_id))
      (read_order_id_request srv.protocol srv.fuel i)
requested srv Method.deliver_order i =
    asking (λ req. (req.auth_token, deliver_order_call req.order_id))
      (read_order_id_request srv.protocol srv.fuel i)
requested srv Method.fail_order i =
    asking (λ req. (req.auth_token, fail_order_call req.order_id req.reason))
      (read_fail_order_request srv.protocol srv.fuel i)
requested srv Method.mark_broken i =
    asking (λ req. (req, mark_drone_broken_call)) (read_auth_request srv.protocol srv.fuel i)
requested srv Method.heartbeat i =
    asking (λ req. (req.auth_token, heartbeat_call req.location.lat req.location.lng))
      (read_heartbeat_request srv.protocol srv.fuel i)
requested srv Method.current_order i =
    asking (λ req. (req, current_order_call)) (read_auth_request srv.protocol srv.fuel i)
requested srv Method.admin_list_orders i =
    asking (λ req. (req.auth_token, admin_list_orders_call req.status req.limit req.offset))
      (read_list_orders_request srv.protocol srv.fuel i)
requested srv Method.admin_update_order i =
    asking
      (λ req. (req.auth_token, admin_update_order_call req.order_id req.origin req.destination))
      (read_update_order_request srv.protocol srv.fuel i)
requested srv Method.admin_list_drones i =
    asking (λ req. (req, admin_list_drones_call)) (read_auth_request srv.protocol srv.fuel i)
requested srv Method.admin_mark_drone_broken i =
    asking (λ req. (req.auth_token, admin_mark_drone_broken_call req.order_id))
      (read_drone_id_request srv.protocol srv.fuel i)
requested srv Method.admin_mark_drone_fixed i =
    asking (λ req. (req.auth_token, admin_mark_drone_fixed_call req.order_id))
      (read_drone_id_request srv.protocol srv.fuel i)

from_optional_location-same : (o : Option Location) → from_optional_location o ≡ o
from_optional_location-same none = refl
from_optional_location-same (some loc) = refl

-- The response of a gRPC call, and the calls of the protocol that write the value of a Thrift reply,
-- that show the same order, drone or list.
pub data Shows (unix : Time → ℤ) : Response → List Write → Type 0 where
  shows_order :
      (order : Order)
      → Shows unix
          (order_response (from_order order))
          (success struct_type (write_order unix) order)
  shows_order_view :
      (view : OrderView)
      → Shows unix
          (order_view_response (from_order_view view))
          (success struct_type (write_order_view unix) view)
  shows_drone :
      (drone : Drone)
      → Shows unix
          (drone_response (from_drone drone))
          (success struct_type (write_drone unix) drone)
  shows_drone_status :
      (view : DroneStatusView)
      → Shows unix
          (drone_status_response (from_drone_status view))
          (success struct_type (write_drone_status unix) view)
  shows_orders :
      (views : List OrderView)
      → Shows unix
          (orders_response (map from_order_view views))
          (success list_type (write_order_view_list unix) views)
  shows_drones :
      (drones : List Drone)
      → Shows unix
          (drones_response (map from_drone drones))
          (success list_type (write_drone_list unix) drones)

-- The message of an exception, and the status over gRPC, for want of a good token or of the role.
pub data Denies : String → GrpcStatus → Type 0 where
  no_token : Denies "unauthorized" (record { code = unauthenticated; message = "missing token" })
  other_role : Denies "forbidden" (record { code = permission_denied; message = "forbidden" })

module _ {I O : Type 0} (srv : ThriftServer I O) where
  -- A result over Thrift and one over gRPC that say the same, with the same next state: a reply and an
  -- answer that show the same, an exception and a refusal for the same error, or both for want of the
  -- token or the role.
  pub data SaysSame (method : String) (seq_id : ℤ) (i : I) (o : O)
      : Processing I O → Reply Response × State → Type 0 where
    answered :
        (calls : List Write) (x : Response) (s : State)
        → Shows srv.unix x calls
        → SaysSame method seq_id i o (write_reply srv method seq_id calls i o s) (answer x, s)
    failed :
        (e : Error) (s : State)
        → SaysSame method seq_id i o
            (write_exception srv method seq_id (map_error e) i o s)
            (refuse (map_service_error e), s)
    refused :
        (message : String) (status : GrpcStatus) (s : State)
        → Denies message status
        → SaysSame method seq_id i o
            (write_exception srv method seq_id (protocol_failure message) i o s)
            (refuse status, s)

  -- The call over gRPC, with the claims of the token.
  abbrev pub serving_asked : Asked → State → Reply Response × State
  serving_asked (token, call) s =
      serve srv.env srv.ops srv.speed srv.sort_slice (parse_token srv.jwt srv.auth token srv.now)
        call s

  -- The result for what is read.
  abbrev pub Matches : String → ℤ → O → State → Outcome I Asked → Processing I O → Type 0
  Matches method seq_id o s (got asked rest) res =
      SaysSame method seq_id rest o res (serving_asked asked s)
  Matches method seq_id o s (broke message rest) res =
      res ≡ write_exception srv method seq_id (protocol_failure message) rest o s
  Matches method seq_id o s out_of_fuel res = res ≡ unfinished

  with_args-Matches :
      {A : Type 0} (method : String) (seq_id : ℤ) (read : Read I A) (f : A → Asked)
      (k : A → Turn I O) (i : I) (o : O) (s : State)
      → ((a : A) (rest : I) → SaysSame method seq_id rest o (k a rest o s) (serving_asked (f a) s))
      → Matches method seq_id o s (asking f (read i)) (with_args srv method seq_id read k i o s)
  with_args-Matches {A = A} method seq_id read f k i o s same = of (read i)
    where
      of :
          (outcome : Outcome I A)
          → Matches method seq_id o s (asking f outcome) (elim outcome [
            | got req rest ↦ k req rest o s
            | broke message rest ↦
                write_exception srv method seq_id (protocol_failure message) rest o s
            | out_of_fuel ↦ unfinished
          ])
      of (got a rest) = same a rest
      of (broke message rest) = refl
      of out_of_fuel = refl

  served-SaysSame :
      {A B : Type 0} (method : String) (seq_id : ℤ) (write : A → List Write) (f : A → B)
      (w : B → Response) (res : Result A × State) (i : I) (o : O)
      → ((a : A) → Shows srv.unix (w (f a)) (write a))
      → SaysSame method seq_id i o
          (concluded srv method seq_id write res i o)
          (reply_as w (respond f res))
  served-SaysSame method seq_id write f w (ok a, s) i o shows =
      answered (write a) (w (f a)) s (shows a)
  served-SaysSame method seq_id write f w (err e, s) i o shows = failed e s

  with_claims-SaysSame :
      {A B : Type 0} (method : String) (seq_id : ℤ) (role : String) (ctx : Option Claims)
      (write : A → List Write) (f : A → B) (w : B → Response) (run : Claims → Exec A) (i : I)
      (o : O) (s : State)
      → ((a : A) → Shows srv.unix (w (f a)) (write a))
      → SaysSame method seq_id i o
          (with_claims srv method seq_id
            (grant_role role ctx)
            (λ claims. served srv method seq_id write (run claims))
            i
            o
            s)
          (reply_as w (
            guarded
              (drone_management_system.Grpc.require_role ctx role)
              (λ c s. respond f (run c s))
              s))
  unfolding drone_management_system.Grpc.require_role get_claims
  with_claims-SaysSame method seq_id role none write f w run i o s shows =
      refused "unauthorized" _ s no_token
  with_claims-SaysSame method seq_id role (some claims) write f w run i o s shows =
      by_role (claims.role == role)
    where
      by_role :
          (b : Bool)
          → SaysSame method seq_id i o
              (with_claims srv method seq_id
                (if not b then denied (protocol_failure "forbidden") else granted claims)
                (λ claims. served srv method seq_id write (run claims))
                i
                o
                s)
              (reply_as w (
                guarded
                  (if b
                    then answer claims
                    else refuse (record { code = permission_denied; message = "forbidden" }))
                  (λ c s. respond f (run c s))
                  s))
      by_role true = served-SaysSame method seq_id write f w (run claims s) i o shows
      by_role false = refused "forbidden" _ s other_role

  with_any-SaysSame :
      {A B : Type 0} (method : String) (seq_id : ℤ) (ctx : Option Claims) (write : A → List Write)
      (f : A → B) (w : B → Response) (run : Claims → Exec A) (i : I) (o : O) (s : State)
      → ((a : A) → Shows srv.unix (w (f a)) (write a))
      → SaysSame method seq_id i o
          (with_claims srv method seq_id
            (grant_any ctx)
            (λ claims. served srv method seq_id write (run claims))
            i
            o
            s)
          (reply_as w (guarded (get_claims ctx) (λ c s. respond f (run c s)) s))
  unfolding get_claims
  with_any-SaysSame method seq_id none write f w run i o s shows =
      refused "unauthorized" _ s no_token
  with_any-SaysSame method seq_id (some claims) write f w run i o s shows =
      served-SaysSame method seq_id write f w (run claims s) i o shows

  -- A handler that asks for a role, and one that asks for a token only.
  role_call-Matches :
      {A B C : Type 0} (method : String) (seq_id : ℤ) (read : Read I A) (f : A → Asked)
      (role : String) (write : B → List Write) (g : B → C) (w : C → Response)
      (run : A → Claims → Exec B) (i : I) (o : O) (s : State)
      → ((b : B) → Shows srv.unix (w (g b)) (write b))
      → ((a : A)
          → serving_asked (f a) s
            ≡ reply_as w (
                guarded
                  (drone_management_system.Grpc.require_role
                    (parse_token srv.jwt srv.auth (f a).0 srv.now)
                    role)
                  (λ c s. respond g (run a c s))
                  s))
      → Matches method seq_id o s (asking f (read i)) (
          with_args srv method seq_id read
            (λ a.
              with_claims srv method seq_id
                (authorize srv (f a).0 role)
                (λ claims. served srv method seq_id write (run a claims)))
            i
            o
            s)
  unfolding authorize
  role_call-Matches method seq_id read f role write g w run i o s shows same =
      with_args-Matches method seq_id read f
        (λ a.
          with_claims srv method seq_id (authorize srv (f a).0 role)
            (λ claims. served srv method seq_id write (run a claims)))
        i o s
        λ a rest.
          subst
            (λ r.
              SaysSame method seq_id rest o
                (with_claims srv method seq_id (authorize srv (f a).0 role)
                  (λ claims. served srv method seq_id write (run a claims)) rest o s)
                r)
            (sym (same a))
            (with_claims-SaysSame method seq_id role (parse_token srv.jwt srv.auth (f a).0 srv.now)
              write g w (run a) rest o s shows)

  any_call-Matches :
      {A B C : Type 0} (method : String) (seq_id : ℤ) (read : Read I A) (f : A → Asked)
      (write : B → List Write) (g : B → C) (w : C → Response) (run : A → Claims → Exec B) (i : I)
      (o : O) (s : State)
      → ((b : B) → Shows srv.unix (w (g b)) (write b))
      → ((a : A)
          → serving_asked (f a) s
            ≡ reply_as w (
                guarded
                  (get_claims (parse_token srv.jwt srv.auth (f a).0 srv.now))
                  (λ c s. respond g (run a c s))
                  s))
      → Matches method seq_id o s (asking f (read i)) (
          with_args srv method seq_id read
            (λ a.
              with_claims srv method seq_id
                (authorize_any srv (f a).0)
                (λ claims. served srv method seq_id write (run a claims)))
            i
            o
            s)
  unfolding authorize_any
  any_call-Matches method seq_id read f write g w run i o s shows same =
      with_args-Matches method seq_id read f
        (λ a.
          with_claims srv method seq_id (authorize_any srv (f a).0)
            (λ claims. served srv method seq_id write (run a claims)))
        i o s
        λ a rest.
          subst
            (λ r.
              SaysSame method seq_id rest o
                (with_claims srv method seq_id (authorize_any srv (f a).0)
                  (λ claims. served srv method seq_id write (run a claims)) rest o s)
                r)
            (sym (same a))
            (with_any-SaysSame method seq_id (parse_token srv.jwt srv.auth (f a).0 srv.now) write g
              w (run a) rest o s shows)

  -- With any fuel, a call over Thrift other than `IssueToken` is answered as the call over gRPC
  -- that its arguments stand for is with the claims of its token: with a reply that shows the same
  -- where that answers, with the exception of the same error where it fails, as "unauthorized" or
  -- "forbidden" where the token or its role is refused, and with the same next state. Arguments
  -- that cannot be read are answered with their error and change nothing, and without fuel left to
  -- read them there is no result.
  pub handle-Matches :
      (method : Method) (seq_id : ℤ) (i : I) (o : O) (s : State)
      → Matches
          (wire_name method)
          seq_id
          o
          s
          (requested srv method i)
          (handle srv method seq_id i o s)
        ⊎ (method ≡ Method.issue_token)
  unfolding handle requested serve authorize authorize_any
      drone_management_system.Grpc.to_domain_location
  handle-Matches Method.issue_token seq_id i o s = inr refl
  handle-Matches Method.submit_order seq_id i o s = inl (
      role_call-Matches "SubmitOrder" seq_id (read_submit_order_request srv.protocol srv.fuel)
        (λ req. (req.auth_token, submit_order_call req.origin req.destination)) role_end_user
        (success struct_type (write_order srv.unix)) from_order order_response
        (λ req claims. Service.submit_order srv.env claims.subject req.origin req.destination) i o s
        shows_order (λ req. refl))
  handle-Matches Method.withdraw_order seq_id i o s = inl (
      role_call-Matches "WithdrawOrder" seq_id (read_order_id_request srv.protocol srv.fuel)
        (λ req. (req.auth_token, withdraw_order_call req.order_id)) role_end_user
        (success struct_type (write_order srv.unix)) from_order order_response
        (λ req claims. Service.withdraw_order srv.env claims.subject req.order_id) i o s shows_order
        (λ req. refl))
  handle-Matches Method.get_order seq_id i o s = inl (
      any_call-Matches "GetOrder" seq_id (read_order_id_request srv.protocol srv.fuel)
        (λ req. (req.auth_token, get_order_call req.order_id))
        (success struct_type (write_order_view srv.unix)) from_order_view order_view_response
        (λ req claims.
          Views.get_order_view srv.env srv.ops srv.speed claims.subject claims.role req.order_id)
        i o s shows_order_view (λ req. refl))
  handle-Matches Method.reserve_job seq_id i o s = inl (
      role_call-Matches "ReserveJob" seq_id (read_auth_request srv.protocol srv.fuel)
        (λ req. (req, reserve_job_call)) role_drone (success struct_type (write_order srv.unix))
        from_order order_response (λ req claims. Service.drone_reserve_job srv.env claims.subject) i
        o s shows_order (λ req. refl))
  handle-Matches Method.pickup_order seq_id i o s = inl (
      role_call-Matches "PickupOrder" seq_id (read_order_id_request srv.protocol srv.fuel)
        (λ req. (req.auth_token, pickup_order_call req.order_id)) role_drone
        (success struct_type (write_order srv.unix)) from_order order_response
        (λ req claims. Service.drone_pickup srv.env claims.subject req.order_id) i o s shows_order
        (λ req. refl))
  handle-Matches Method.deliver_order seq_id i o s = inl (
      role_call-Matches "DeliverOrder" seq_id (read_order_id_request srv.protocol srv.fuel)
        (λ req. (req.auth_token, deliver_order_call req.order_id)) role_drone
        (success struct_type (write_order srv.unix)) from_order order_response
        (λ req claims. Service.drone_deliver srv.env claims.subject req.order_id) i o s shows_order
        (λ req. refl))
  handle-Matches Method.fail_order seq_id i o s = inl (
      role_call-Matches "FailOrder" seq_id (read_fail_order_request srv.protocol srv.fuel)
        (λ req. (req.auth_token, fail_order_call req.order_id req.reason)) role_drone
        (success struct_type (write_order srv.unix)) from_order order_response
        (λ req claims. Service.drone_fail srv.env claims.subject req.order_id req.reason) i o s
        shows_order (λ req. refl))
  handle-Matches Method.mark_broken seq_id i o s = inl (
      role_call-Matches "MarkBroken" seq_id (read_auth_request srv.protocol srv.fuel)
        (λ req. (req, mark_drone_broken_call)) role_drone
        (success struct_type (write_drone srv.unix)) from_drone drone_response
        (λ req claims. Service.drone_mark_broken srv.env claims.subject) i o s shows_drone
        (λ req. refl))
  handle-Matches Method.heartbeat seq_id i o s = inl (
      role_call-Matches "Heartbeat" seq_id (read_heartbeat_request srv.protocol srv.fuel)
        (λ req. (req.auth_token, heartbeat_call req.location.lat req.location.lng)) role_drone
        (success struct_type (write_drone_status srv.unix)) from_drone_status drone_status_response
        (λ req claims. Views.drone_heartbeat srv.env srv.ops srv.speed claims.subject req.location)
        i o s shows_drone_status (λ req. refl))
  handle-Matches Method.current_order seq_id i o s = inl (
      role_call-Matches "CurrentOrder" seq_id (read_auth_request srv.protocol srv.fuel)
        (λ req. (req, current_order_call)) role_drone
        (success struct_type (write_order_view srv.unix)) from_order_view order_view_response
        (λ req claims. Views.drone_current_order srv.env srv.ops srv.speed claims.subject) i o s
        shows_order_view (λ req. refl))
  handle-Matches Method.admin_list_orders seq_id i o s = inl (
      role_call-Matches "ListOrders" seq_id (read_list_orders_request srv.protocol srv.fuel)
        (λ req. (req.auth_token, admin_list_orders_call req.status req.limit req.offset)) role_admin
        (success list_type (write_order_view_list srv.unix)) (map from_order_view) orders_response
        (λ req claims.
          Views.admin_list_orders srv.env srv.ops srv.speed srv.sort_slice
            (record { status = status_filter req.status; limit = req.limit; offset = req.offset }))
        i o s shows_orders (λ req. refl))
  handle-Matches Method.admin_update_order seq_id i o s = inl (
      role_call-Matches "UpdateOrder" seq_id (read_update_order_request srv.protocol srv.fuel)
        (λ req. (req.auth_token, admin_update_order_call req.order_id req.origin req.destination))
        role_admin (success struct_type (write_order srv.unix)) from_order order_response
        (λ req claims. Service.admin_update_order srv.env req.order_id req.origin req.destination) i
        o s shows_order
        (λ req.
          rw (from_optional_location-same req.origin, from_optional_location-same req.destination)
            refl))
  handle-Matches Method.admin_list_drones seq_id i o s = inl (
      role_call-Matches "ListDrones" seq_id (read_auth_request srv.protocol srv.fuel)
        (λ req. (req, admin_list_drones_call)) role_admin
        (success list_type (write_drone_list srv.unix)) (map from_drone) drones_response
        (λ req claims. Views.admin_list_drones srv.env srv.ops srv.speed) i o s shows_drones
        (λ req. refl))
  handle-Matches Method.admin_mark_drone_broken seq_id i o s = inl (
      role_call-Matches "MarkDroneBroken" seq_id (read_drone_id_request srv.protocol srv.fuel)
        (λ req. (req.auth_token, admin_mark_drone_broken_call req.order_id)) role_admin
        (success struct_type (write_drone srv.unix)) from_drone drone_response
        (λ req claims. Service.admin_mark_drone_broken srv.env req.order_id) i o s shows_drone
        (λ req. refl))
  handle-Matches Method.admin_mark_drone_fixed seq_id i o s = inl (
      role_call-Matches "MarkDroneFixed" seq_id (read_drone_id_request srv.protocol srv.fuel)
        (λ req. (req.auth_token, admin_mark_drone_fixed_call req.order_id)) role_admin
        (success struct_type (write_drone srv.unix)) from_drone drone_response
        (λ req claims. Service.admin_mark_drone_fixed srv.env req.order_id) i o s shows_drone
        (λ req. refl))
