-- ===== src/Grpc/Descriptors.antt =====
-- internal/transport/grpcapi/descriptors.go: the methods that are registered, and how the handler of
-- each decodes its request and passes through the interceptor.
use drone_management_system.Domain.{Time}
use drone_management_system.Auth.{Authenticator, Jwt}
use drone_management_system.Float64.{Float64}
use drone_management_system.Eta.{OrderView, FloatOps}
use drone_management_system.Grpc.Requests.{
  ListOrdersRequest, TokenRequest, SubmitOrderRequest, FailOrderRequest, HeartbeatRequest,
  OrderIdRequest, DroneIdRequest, Empty, UpdateOrderRequest,
}
use drone_management_system.Grpc.Interceptor.{
  handle_issue_token, Handler, auth_interceptor, CallContext,
}
use drone_management_system.Exec.{State, Env}
use drone_management_system.Grpc.Guards.{
  Response, withdraw_order_call, submit_order_call, admin_mark_drone_broken_call,
  admin_list_drones_call, admin_update_order_call, current_order_call, get_order_call,
  admin_mark_drone_fixed_call, reserve_job_call, pickup_order_call, heartbeat_call, serve,
  admin_list_orders_call, mark_drone_broken_call, deliver_order_call, fail_order_call, Call,
}
use drone_management_system.Grpc.{Reply, answer, refuse}
use drone_management_system.Base.{List, Bool, Option, none, some, String}

-- What the library hands a handler besides the request.
abbrev pub Interceptor : Type 0
Interceptor = String → CallContext → Handler → State → Reply Response × State

-- `if interceptor == nil { return srv.(…).X(ctx, in) }`, and else the call through it.
abbrev pub intercepted : Option Interceptor → String → Handler → Handler
intercepted none full_method handler ctx s = handler ctx s
intercepted (some interceptor) full_method handler ctx s = interceptor full_method ctx handler s

-- `if err := dec(in); err != nil { return nil, err }`
abbrev pub unary : {A : Type 0} → Reply A → Option Interceptor → String → (A → Handler) → Handler
unary (refuse status) interceptor full_method srv ctx s = (refuse status, s)
unary (answer req) interceptor full_method srv ctx s =
    intercepted interceptor full_method (srv req) ctx s

-- The server that the handlers call.
pub record Server : Type 0 where
  pub env : Env
  pub ops : FloatOps
  pub speed : Float64
  pub sort_slice : (OrderView → OrderView → Bool) → List OrderView → List OrderView
  pub jwt : Jwt
  pub auth : Authenticator
  pub now : Time
  pub format : Time → String

module _ (srv : Server) where
  abbrev pub served : Call → Handler
  served call ctx s = serve srv.env srv.ops srv.speed srv.sort_slice ctx.claims call s

  unfoldable pub issue_token_handler : Reply TokenRequest → Option Interceptor → Handler
  issue_token_handler dec interceptor =
      unary dec interceptor "/drone.AuthService/IssueToken"
        (λ req ctx s. (handle_issue_token srv.jwt srv.auth srv.now srv.format req, s))

  unfoldable pub submit_order_handler : Reply SubmitOrderRequest → Option Interceptor → Handler
  submit_order_handler dec interceptor =
      unary dec interceptor "/drone.OrderService/SubmitOrder"
        (λ req. served (submit_order_call req.origin req.destination))

  unfoldable pub withdraw_order_handler : Reply OrderIdRequest → Option Interceptor → Handler
  withdraw_order_handler dec interceptor =
      unary dec interceptor "/drone.OrderService/WithdrawOrder"
        (λ req. served (withdraw_order_call req.order_id))

  unfoldable pub get_order_handler : Reply OrderIdRequest → Option Interceptor → Handler
  get_order_handler dec interceptor =
      unary dec interceptor "/drone.OrderService/GetOrder"
        (λ req. served (get_order_call req.order_id))

  unfoldable pub reserve_job_handler : Reply Empty → Option Interceptor → Handler
  reserve_job_handler dec interceptor =
      unary dec interceptor "/drone.DroneService/ReserveJob" (λ req. served reserve_job_call)

  unfoldable pub pickup_order_handler : Reply OrderIdRequest → Option Interceptor → Handler
  pickup_order_handler dec interceptor =
      unary dec interceptor "/drone.DroneService/PickupOrder"
        (λ req. served (pickup_order_call req.order_id))

  unfoldable pub deliver_order_handler : Reply OrderIdRequest → Option Interceptor → Handler
  deliver_order_handler dec interceptor =
      unary dec interceptor "/drone.DroneService/DeliverOrder"
        (λ req. served (deliver_order_call req.order_id))

  unfoldable pub fail_order_handler : Reply FailOrderRequest → Option Interceptor → Handler
  fail_order_handler dec interceptor =
      unary dec interceptor "/drone.DroneService/FailOrder"
        (λ req. served (fail_order_call req.order_id req.reason))

  unfoldable pub mark_broken_handler : Reply Empty → Option Interceptor → Handler
  mark_broken_handler dec interceptor =
      unary dec interceptor "/drone.DroneService/MarkBroken" (λ req. served mark_drone_broken_call)

  unfoldable pub heartbeat_handler : Reply HeartbeatRequest → Option Interceptor → Handler
  heartbeat_handler dec interceptor =
      unary dec interceptor "/drone.DroneService/Heartbeat"
        (λ req. served (heartbeat_call req.lat req.lng))

  unfoldable pub current_order_handler : Reply Empty → Option Interceptor → Handler
  current_order_handler dec interceptor =
      unary dec interceptor "/drone.DroneService/CurrentOrder" (λ req. served current_order_call)

  unfoldable pub admin_list_orders_handler : Reply ListOrdersRequest → Option Interceptor → Handler
  admin_list_orders_handler dec interceptor =
      unary dec interceptor "/drone.AdminService/ListOrders"
        (λ req. served (admin_list_orders_call req.status req.limit req.offset))

  unfoldable pub admin_update_order_handler :
      Reply UpdateOrderRequest → Option Interceptor → Handler
  admin_update_order_handler dec interceptor =
      unary dec interceptor "/drone.AdminService/UpdateOrder"
        (λ req. served (admin_update_order_call req.order_id req.origin req.destination))

  unfoldable pub admin_list_drones_handler : Reply Empty → Option Interceptor → Handler
  admin_list_drones_handler dec interceptor =
      unary dec interceptor "/drone.AdminService/ListDrones" (λ req. served admin_list_drones_call)

  unfoldable pub admin_mark_drone_broken_handler :
      Reply DroneIdRequest → Option Interceptor → Handler
  admin_mark_drone_broken_handler dec interceptor =
      unary dec interceptor "/drone.AdminService/MarkDroneBroken"
        (λ req. served (admin_mark_drone_broken_call req.drone_id))

  unfoldable pub admin_mark_drone_fixed_handler :
      Reply DroneIdRequest → Option Interceptor → Handler
  admin_mark_drone_fixed_handler dec interceptor =
      unary dec interceptor "/drone.AdminService/MarkDroneFixed"
        (λ req. served (admin_mark_drone_fixed_call req.drone_id))

-- The calls that arrive, each with what the codec makes of its bytes.
pub data Rpc : Type 0 where
  issue_token_rpc : Reply TokenRequest → Rpc
  submit_order_rpc : Reply SubmitOrderRequest → Rpc
  withdraw_order_rpc : Reply OrderIdRequest → Rpc
  get_order_rpc : Reply OrderIdRequest → Rpc
  reserve_job_rpc : Reply Empty → Rpc
  pickup_order_rpc : Reply OrderIdRequest → Rpc
  deliver_order_rpc : Reply OrderIdRequest → Rpc
  fail_order_rpc : Reply FailOrderRequest → Rpc
  mark_broken_rpc : Reply Empty → Rpc
  heartbeat_rpc : Reply HeartbeatRequest → Rpc
  current_order_rpc : Reply Empty → Rpc
  admin_list_orders_rpc : Reply ListOrdersRequest → Rpc
  admin_update_order_rpc : Reply UpdateOrderRequest → Rpc
  admin_list_drones_rpc : Reply Empty → Rpc
  admin_mark_drone_broken_rpc : Reply DroneIdRequest → Rpc
  admin_mark_drone_fixed_rpc : Reply DroneIdRequest → Rpc

-- The service and the name under which the method is registered, and the handler registered for it.
abbrev pub service_name : Rpc → String
service_name (issue_token_rpc dec) = "drone.AuthService"
service_name (submit_order_rpc dec) = "drone.OrderService"
service_name (withdraw_order_rpc dec) = "drone.OrderService"
service_name (get_order_rpc dec) = "drone.OrderService"
service_name (reserve_job_rpc dec) = "drone.DroneService"
service_name (pickup_order_rpc dec) = "drone.DroneService"
service_name (deliver_order_rpc dec) = "drone.DroneService"
service_name (fail_order_rpc dec) = "drone.DroneService"
service_name (mark_broken_rpc dec) = "drone.DroneService"
service_name (heartbeat_rpc dec) = "drone.DroneService"
service_name (current_order_rpc dec) = "drone.DroneService"
service_name (admin_list_orders_rpc dec) = "drone.AdminService"
service_name (admin_update_order_rpc dec) = "drone.AdminService"
service_name (admin_list_drones_rpc dec) = "drone.AdminService"
service_name (admin_mark_drone_broken_rpc dec) = "drone.AdminService"
service_name (admin_mark_drone_fixed_rpc dec) = "drone.AdminService"

abbrev pub method_name : Rpc → String
method_name (issue_token_rpc dec) = "IssueToken"
method_name (submit_order_rpc dec) = "SubmitOrder"
method_name (withdraw_order_rpc dec) = "WithdrawOrder"
method_name (get_order_rpc dec) = "GetOrder"
method_name (reserve_job_rpc dec) = "ReserveJob"
method_name (pickup_order_rpc dec) = "PickupOrder"
method_name (deliver_order_rpc dec) = "DeliverOrder"
method_name (fail_order_rpc dec) = "FailOrder"
method_name (mark_broken_rpc dec) = "MarkBroken"
method_name (heartbeat_rpc dec) = "Heartbeat"
method_name (current_order_rpc dec) = "CurrentOrder"
method_name (admin_list_orders_rpc dec) = "ListOrders"
method_name (admin_update_order_rpc dec) = "UpdateOrder"
method_name (admin_list_drones_rpc dec) = "ListDrones"
method_name (admin_mark_drone_broken_rpc dec) = "MarkDroneBroken"
method_name (admin_mark_drone_fixed_rpc dec) = "MarkDroneFixed"

unfoldable pub registered : Server → Rpc → Option Interceptor → Handler
unfolding issue_token_handler submit_order_handler withdraw_order_handler get_order_handler
    reserve_job_handler pickup_order_handler deliver_order_handler fail_order_handler
    mark_broken_handler heartbeat_handler current_order_handler admin_list_orders_handler
    admin_update_order_handler admin_list_drones_handler admin_mark_drone_broken_handler
    admin_mark_drone_fixed_handler
registered srv (issue_token_rpc dec) = issue_token_handler srv dec
registered srv (submit_order_rpc dec) = submit_order_handler srv dec
registered srv (withdraw_order_rpc dec) = withdraw_order_handler srv dec
registered srv (get_order_rpc dec) = get_order_handler srv dec
registered srv (reserve_job_rpc dec) = reserve_job_handler srv dec
registered srv (pickup_order_rpc dec) = pickup_order_handler srv dec
registered srv (deliver_order_rpc dec) = deliver_order_handler srv dec
registered srv (fail_order_rpc dec) = fail_order_handler srv dec
registered srv (mark_broken_rpc dec) = mark_broken_handler srv dec
registered srv (heartbeat_rpc dec) = heartbeat_handler srv dec
registered srv (current_order_rpc dec) = current_order_handler srv dec
registered srv (admin_list_orders_rpc dec) = admin_list_orders_handler srv dec
registered srv (admin_update_order_rpc dec) = admin_update_order_handler srv dec
registered srv (admin_list_drones_rpc dec) = admin_list_drones_handler srv dec
registered srv (admin_mark_drone_broken_rpc dec) = admin_mark_drone_broken_handler srv dec
registered srv (admin_mark_drone_fixed_rpc dec) = admin_mark_drone_fixed_handler srv dec

-- `grpc.NewServer(grpc.UnaryInterceptor(server.authInterceptor()))` with the four services.
unfoldable pub call_rpc : Server → Rpc → Handler
unfolding registered auth_interceptor
call_rpc srv rpc = registered srv rpc (some (auth_interceptor srv.jwt srv.auth srv.now))
