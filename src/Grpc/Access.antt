-- ===== src/Grpc/Access.antt =====
-- The gRPC server of internal/transport/grpcapi as a whole: descriptors, interceptor and handlers.
use drone_management_system.Exec.{State}
use drone_management_system.Auth.{Claims}
use drone_management_system.Grpc.Interceptor.{
  issue_token_method, authenticate, CallContext, auth_interceptor,
}
use drone_management_system.Grpc.Guards.{
  admin_mark_drone_fixed_call, admin_mark_drone_broken_call, admin_list_drones_call,
  admin_update_order_call, admin_list_orders_call, current_order_call, heartbeat_call,
  mark_drone_broken_call, fail_order_call, deliver_order_call, pickup_order_call, reserve_job_call,
  get_order_call, serve, withdraw_order_call, submit_order_call, Response, Call,
}
use mathlib.Core.Path.{subst}
use Prim.Native.String.{◌++◌}
use drone_management_system.Grpc.{Reply, answer, refuse}
use drone_management_system.Grpc.Descriptors.{
  served, unary, method_name, service_name, call_rpc, Rpc, Server, registered, issue_token_rpc,
  submit_order_rpc, withdraw_order_rpc, get_order_rpc, reserve_job_rpc, pickup_order_rpc,
  deliver_order_rpc, fail_order_rpc, mark_broken_rpc, heartbeat_rpc, current_order_rpc,
  admin_list_orders_rpc, admin_update_order_rpc, admin_list_drones_rpc, admin_mark_drone_broken_rpc,
  admin_mark_drone_fixed_rpc,
}
use drone_management_system.Base.{
  some_eq, false, ◌==◌, true, String, Bool, Option, ◌≡◌, refl, none, some,
}

-- What a registered method makes of a request: the service that it calls, or the refusal of the codec.
abbrev pub decoded : {A : Type 0} → (A → Call) → Reply A → Reply Call
decoded f (refuse status) = refuse status
decoded f (answer req) = answer (f req)

abbrev pub asked : Rpc → Option (Reply Call)
asked (issue_token_rpc dec) = none
asked (submit_order_rpc dec) =
    some (decoded (λ req. submit_order_call req.origin req.destination) dec)
asked (withdraw_order_rpc dec) = some (decoded (λ req. withdraw_order_call req.order_id) dec)
asked (get_order_rpc dec) = some (decoded (λ req. get_order_call req.order_id) dec)
asked (reserve_job_rpc dec) = some (decoded (λ req. reserve_job_call) dec)
asked (pickup_order_rpc dec) = some (decoded (λ req. pickup_order_call req.order_id) dec)
asked (deliver_order_rpc dec) = some (decoded (λ req. deliver_order_call req.order_id) dec)
asked (fail_order_rpc dec) = some (decoded (λ req. fail_order_call req.order_id req.reason) dec)
asked (mark_broken_rpc dec) = some (decoded (λ req. mark_drone_broken_call) dec)
asked (heartbeat_rpc dec) = some (decoded (λ req. heartbeat_call req.lat req.lng) dec)
asked (current_order_rpc dec) = some (decoded (λ req. current_order_call) dec)
asked (admin_list_orders_rpc dec) =
    some (decoded (λ req. admin_list_orders_call req.status req.limit req.offset) dec)
asked (admin_update_order_rpc dec) =
    some (decoded (λ req. admin_update_order_call req.order_id req.origin req.destination) dec)
asked (admin_list_drones_rpc dec) = some (decoded (λ req. admin_list_drones_call) dec)
asked (admin_mark_drone_broken_rpc dec) =
    some (decoded (λ req. admin_mark_drone_broken_call req.drone_id) dec)
asked (admin_mark_drone_fixed_rpc dec) =
    some (decoded (λ req. admin_mark_drone_fixed_call req.drone_id) dec)

-- The answer to a call: what cannot be read is refused first, then who is not known, then who may not.
abbrev pub admitted : Server → Reply Call → Reply Claims → State → Reply Response × State
admitted srv (refuse status) who s = (refuse status, s)
admitted srv (answer call) (refuse status) s = (refuse status, s)
admitted srv (answer call) (answer claims) s =
    serve srv.env srv.ops srv.speed srv.sort_slice (some claims) call s

interceptor-admitted :
    (srv : Server) (full_method : String) (call : Call) (ctx : CallContext) (s : State)
    (who : Reply Claims)
    → authenticate srv.jwt srv.auth srv.now ctx.authorization ≡ who
    → (full_method == issue_token_method) ≡ false
    → auth_interceptor srv.jwt srv.auth srv.now full_method ctx (served srv call) s
      ≡ admitted srv (answer call) who s
unfolding auth_interceptor
interceptor-admitted srv full_method call ctx s (refuse status) e n = rw (n, e) refl
interceptor-admitted srv full_method call ctx s (answer claims) e n = rw (n, e) refl

unary-admitted :
    {A : Type 0} (srv : Server) (full_method : String) (f : A → Call) (dec : Reply A)
    (ctx : CallContext) (s : State)
    → (full_method == issue_token_method) ≡ false
    → unary dec
        (some (auth_interceptor srv.jwt srv.auth srv.now))
        full_method
        (λ req. served srv (f req))
        ctx
        s
      ≡ admitted srv (decoded f dec) (authenticate srv.jwt srv.auth srv.now ctx.authorization) s
unary-admitted srv full_method f (refuse status) ctx s n = refl
unary-admitted srv full_method f (answer req) ctx s n =
    interceptor-admitted srv full_method (f req) ctx s _ refl n

unary-asked :
    {A : Type 0} (srv : Server) (full_method : String) (f : A → Call) (dec : Reply A)
    (request : Reply Call) (ctx : CallContext) (s : State)
    → (full_method == issue_token_method) ≡ false
    → some (decoded f dec) ≡ some request
    → unary dec
        (some (auth_interceptor srv.jwt srv.auth srv.now))
        full_method
        (λ req. served srv (f req))
        ctx
        s
      ≡ admitted srv request (authenticate srv.jwt srv.auth srv.now ctx.authorization) s
unary-asked srv full_method f dec request ctx s n e =
    subst
      (λ r.
        unary dec (some (auth_interceptor srv.jwt srv.auth srv.now)) full_method
          (λ req. served srv (f req)) ctx s
        ≡ admitted srv r (authenticate srv.jwt srv.auth srv.now ctx.authorization) s)
      (some_eq e) (unary-admitted srv full_method f dec ctx s n)

-- Every method but the one that issues tokens answers as `admitted` says, from what the codec
-- makes of the request and from the claims that the `authorization` of the call gives.
pub call_rpc-admitted :
    (srv : Server) (rpc : Rpc) (request : Reply Call) (ctx : CallContext) (s : State)
    → asked rpc ≡ some request
    → call_rpc srv rpc ctx s
      ≡ admitted srv request (authenticate srv.jwt srv.auth srv.now ctx.authorization) s
unfolding call_rpc
call_rpc-admitted srv (issue_token_rpc dec) request ctx s e = cc
call_rpc-admitted srv (submit_order_rpc dec) request ctx s e =
    unary-asked srv "/drone.OrderService/SubmitOrder"
      (λ req. submit_order_call req.origin req.destination) dec request ctx s refl e
call_rpc-admitted srv (withdraw_order_rpc dec) request ctx s e =
    unary-asked srv "/drone.OrderService/WithdrawOrder" (λ req. withdraw_order_call req.order_id)
      dec request ctx s refl e
call_rpc-admitted srv (get_order_rpc dec) request ctx s e =
    unary-asked srv "/drone.OrderService/GetOrder" (λ req. get_order_call req.order_id) dec request
      ctx s refl e
call_rpc-admitted srv (reserve_job_rpc dec) request ctx s e =
    unary-asked srv "/drone.DroneService/ReserveJob" (λ req. reserve_job_call) dec request ctx s
      refl e
call_rpc-admitted srv (pickup_order_rpc dec) request ctx s e =
    unary-asked srv "/drone.DroneService/PickupOrder" (λ req. pickup_order_call req.order_id) dec
      request ctx s refl e
call_rpc-admitted srv (deliver_order_rpc dec) request ctx s e =
    unary-asked srv "/drone.DroneService/DeliverOrder" (λ req. deliver_order_call req.order_id) dec
      request ctx s refl e
call_rpc-admitted srv (fail_order_rpc dec) request ctx s e =
    unary-asked srv "/drone.DroneService/FailOrder" (λ req. fail_order_call req.order_id req.reason)
      dec request ctx s refl e
call_rpc-admitted srv (mark_broken_rpc dec) request ctx s e =
    unary-asked srv "/drone.DroneService/MarkBroken" (λ req. mark_drone_broken_call) dec request ctx
      s refl e
call_rpc-admitted srv (heartbeat_rpc dec) request ctx s e =
    unary-asked srv "/drone.DroneService/Heartbeat" (λ req. heartbeat_call req.lat req.lng) dec
      request ctx s refl e
call_rpc-admitted srv (current_order_rpc dec) request ctx s e =
    unary-asked srv "/drone.DroneService/CurrentOrder" (λ req. current_order_call) dec request ctx s
      refl e
call_rpc-admitted srv (admin_list_orders_rpc dec) request ctx s e =
    unary-asked srv "/drone.AdminService/ListOrders"
      (λ req. admin_list_orders_call req.status req.limit req.offset) dec request ctx s refl e
call_rpc-admitted srv (admin_update_order_rpc dec) request ctx s e =
    unary-asked srv "/drone.AdminService/UpdateOrder"
      (λ req. admin_update_order_call req.order_id req.origin req.destination) dec request ctx s
      refl e
call_rpc-admitted srv (admin_list_drones_rpc dec) request ctx s e =
    unary-asked srv "/drone.AdminService/ListDrones" (λ req. admin_list_drones_call) dec request ctx
      s refl e
call_rpc-admitted srv (admin_mark_drone_broken_rpc dec) request ctx s e =
    unary-asked srv "/drone.AdminService/MarkDroneBroken"
      (λ req. admin_mark_drone_broken_call req.drone_id) dec request ctx s refl e
call_rpc-admitted srv (admin_mark_drone_fixed_rpc dec) request ctx s e =
    unary-asked srv "/drone.AdminService/MarkDroneFixed"
      (λ req. admin_mark_drone_fixed_call req.drone_id) dec request ctx s refl e

-- Whether the codec could read the request.
abbrev is_answer : {A : Type 0} → Reply A → Bool
is_answer (answer a) = true
is_answer (refuse status) = false

abbrev pub is_readable : Rpc → Bool
is_readable (issue_token_rpc dec) = is_answer dec
is_readable (submit_order_rpc dec) = is_answer dec
is_readable (withdraw_order_rpc dec) = is_answer dec
is_readable (get_order_rpc dec) = is_answer dec
is_readable (reserve_job_rpc dec) = is_answer dec
is_readable (pickup_order_rpc dec) = is_answer dec
is_readable (deliver_order_rpc dec) = is_answer dec
is_readable (fail_order_rpc dec) = is_answer dec
is_readable (mark_broken_rpc dec) = is_answer dec
is_readable (heartbeat_rpc dec) = is_answer dec
is_readable (current_order_rpc dec) = is_answer dec
is_readable (admin_list_orders_rpc dec) = is_answer dec
is_readable (admin_update_order_rpc dec) = is_answer dec
is_readable (admin_list_drones_rpc dec) = is_answer dec
is_readable (admin_mark_drone_broken_rpc dec) = is_answer dec
is_readable (admin_mark_drone_fixed_rpc dec) = is_answer dec

-- The path under which the library finds a method.
abbrev pub method_path : Rpc → String
method_path rpc = "/" ++ (service_name rpc ++ ("/" ++ method_name rpc))

-- What the handlers name as their full method is the path under which they are registered: with an
-- interceptor that answers by the full method alone, the path decides.
pub registered-method_path :
    (srv : Server) (rpc : Rpc) (reply : String → Reply Response) (ctx : CallContext) (s : State)
    → is_readable rpc ≡ true
    → registered srv rpc (some (λ full_method ctx handler s. (reply full_method, s))) ctx s
      ≡ (reply (method_path rpc), s)
unfolding registered
registered-method_path srv (issue_token_rpc (answer req)) reply ctx s h = refl
registered-method_path srv (issue_token_rpc (refuse status)) reply ctx s h = cc
registered-method_path srv (submit_order_rpc (answer req)) reply ctx s h = refl
registered-method_path srv (submit_order_rpc (refuse status)) reply ctx s h = cc
registered-method_path srv (withdraw_order_rpc (answer req)) reply ctx s h = refl
registered-method_path srv (withdraw_order_rpc (refuse status)) reply ctx s h = cc
registered-method_path srv (get_order_rpc (answer req)) reply ctx s h = refl
registered-method_path srv (get_order_rpc (refuse status)) reply ctx s h = cc
registered-method_path srv (reserve_job_rpc (answer req)) reply ctx s h = refl
registered-method_path srv (reserve_job_rpc (refuse status)) reply ctx s h = cc
registered-method_path srv (pickup_order_rpc (answer req)) reply ctx s h = refl
registered-method_path srv (pickup_order_rpc (refuse status)) reply ctx s h = cc
registered-method_path srv (deliver_order_rpc (answer req)) reply ctx s h = refl
registered-method_path srv (deliver_order_rpc (refuse status)) reply ctx s h = cc
registered-method_path srv (fail_order_rpc (answer req)) reply ctx s h = refl
registered-method_path srv (fail_order_rpc (refuse status)) reply ctx s h = cc
registered-method_path srv (mark_broken_rpc (answer req)) reply ctx s h = refl
registered-method_path srv (mark_broken_rpc (refuse status)) reply ctx s h = cc
registered-method_path srv (heartbeat_rpc (answer req)) reply ctx s h = refl
registered-method_path srv (heartbeat_rpc (refuse status)) reply ctx s h = cc
registered-method_path srv (current_order_rpc (answer req)) reply ctx s h = refl
registered-method_path srv (current_order_rpc (refuse status)) reply ctx s h = cc
registered-method_path srv (admin_list_orders_rpc (answer req)) reply ctx s h = refl
registered-method_path srv (admin_list_orders_rpc (refuse status)) reply ctx s h = cc
registered-method_path srv (admin_update_order_rpc (answer req)) reply ctx s h = refl
registered-method_path srv (admin_update_order_rpc (refuse status)) reply ctx s h = cc
registered-method_path srv (admin_list_drones_rpc (answer req)) reply ctx s h = refl
registered-method_path srv (admin_list_drones_rpc (refuse status)) reply ctx s h = cc
registered-method_path srv (admin_mark_drone_broken_rpc (answer req)) reply ctx s h = refl
registered-method_path srv (admin_mark_drone_broken_rpc (refuse status)) reply ctx s h = cc
registered-method_path srv (admin_mark_drone_fixed_rpc (answer req)) reply ctx s h = refl
registered-method_path srv (admin_mark_drone_fixed_rpc (refuse status)) reply ctx s h = cc
