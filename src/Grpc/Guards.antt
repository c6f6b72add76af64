-- ===== src/Grpc/Guards.antt =====
-- The calls of internal/transport/grpcapi/server.go as data, and the role that each needs.
use drone_management_system.Auth.{Claims}
use drone_management_system.Grpc.Requests.{TokenResponse}
use drone_management_system.Integer.{ℤ}
use drone_management_system.Float64.{Float64}
use drone_management_system.Eta.{OrderView, FloatOps}
use drone_management_system.Domain.{role_admin, role_drone, role_end_user, Location}
use drone_management_system.Exec.{State, Env}
use drone_management_system.Transport.{
  DroneStatusResponse, DroneResponse, GrpcStatus, OrderViewResponse, OrderResponse, unauthenticated,
  permission_denied,
}
use drone_management_system.Grpc.{
  handle_get_order, handle_admin_mark_drone_fixed, handle_admin_mark_drone_broken,
  handle_admin_list_drones, handle_admin_update_order, handle_admin_list_orders,
  handle_current_order, handle_heartbeat, handle_mark_drone_broken, handle_fail_order,
  handle_deliver_order, handle_pickup_order, handle_reserve_job, handle_withdraw_order, get_claims,
  handle_submit_order, guarded, require_role, Reply, answer, refuse,
}
use drone_management_system.Base.{
  ◌==◌, List, true, false, Bool, String, Option, none, some, ◌≡◌, refl,
}

-- The calls of the services, less the one that issues tokens.
pub data Call : Type 0 where
  submit_order_call : (origin : Location) → (dest : Location) → Call
  withdraw_order_call : (order_id : String) → Call
  reserve_job_call : Call
  pickup_order_call : (order_id : String) → Call
  deliver_order_call : (order_id : String) → Call
  fail_order_call : (order_id : String) → (reason : String) → Call
  mark_drone_broken_call : Call
  heartbeat_call : (lat : Float64) → (lng : Float64) → Call
  current_order_call : Call
  admin_list_orders_call : (status : String) → (limit : ℤ) → (offset : ℤ) → Call
  admin_update_order_call :
      (order_id : String) → (origin : Option Location) → (dest : Option Location) → Call
  admin_list_drones_call : Call
  admin_mark_drone_broken_call : (drone_id : String) → Call
  admin_mark_drone_fixed_call : (drone_id : String) → Call
  get_order_call : (order_id : String) → Call

pub data Response : Type 0 where
  order_response : OrderResponse → Response
  order_view_response : OrderViewResponse → Response
  drone_response : DroneResponse → Response
  drone_status_response : DroneStatusResponse → Response
  orders_response : List OrderViewResponse → Response
  drones_response : List DroneResponse → Response
  token_response : TokenResponse → Response

-- The role that a call needs; none is any role.
abbrev pub needed_role : Call → Option String
needed_role (submit_order_call origin dest) = some role_end_user
needed_role (withdraw_order_call order_id) = some role_end_user
needed_role reserve_job_call = some role_drone
needed_role (pickup_order_call order_id) = some role_drone
needed_role (deliver_order_call order_id) = some role_drone
needed_role (fail_order_call order_id reason) = some role_drone
needed_role mark_drone_broken_call = some role_drone
needed_role (heartbeat_call lat lng) = some role_drone
needed_role current_order_call = some role_drone
needed_role (admin_list_orders_call status limit offset) = some role_admin
needed_role (admin_update_order_call order_id origin dest) = some role_admin
needed_role admin_list_drones_call = some role_admin
needed_role (admin_mark_drone_broken_call drone_id) = some role_admin
needed_role (admin_mark_drone_fixed_call drone_id) = some role_admin
needed_role (get_order_call order_id) = none

abbrev pub is_role : Option String → String → Bool
is_role none role = true
is_role (some needed) role = role == needed

abbrev pub is_allowed : Option Claims → Option String → Bool
is_allowed none needed = false
is_allowed (some claims) needed = is_role needed claims.role

-- What a caller who may not call is told.
abbrev pub refusal : Option Claims → GrpcStatus
refusal none = record { code = unauthenticated; message = "missing token" }
refusal (some claims) = record { code = permission_denied; message = "forbidden" }

abbrev pub reply_as : {A : Type 0} → (A → Response) → Reply A × State → Reply Response × State
reply_as f (answer a, s) = (answer (f a), s)
reply_as f (refuse status, s) = (refuse status, s)

require_role-refuses :
    (ctx : Option Claims) (role : String)
    → is_allowed ctx (some role) ≡ false
    → require_role ctx role ≡ refuse (refusal ctx)
unfolding require_role
require_role-refuses none role h = refl
require_role-refuses (some claims) role h = rw h refl

guarded-refuses :
    {B : Type 0} (ctx : Option Claims) (role : String) (k : Claims → State → Reply B × State)
    (f : B → Response) (s : State)
    → is_allowed ctx (some role) ≡ false
    → reply_as f (guarded (require_role ctx role) k s) ≡ (refuse (refusal ctx), s)
guarded-refuses ctx role k f s h = rw (require_role-refuses ctx role h) refl

module _ (env : Env) (ops : FloatOps) (speed : Float64)
    (sort_slice : (OrderView → OrderView → Bool) → List OrderView → List OrderView) where
  unfoldable pub serve : Option Claims → Call → State → Reply Response × State
  unfolding handle_submit_order handle_withdraw_order handle_reserve_job handle_pickup_order
      handle_deliver_order handle_fail_order handle_mark_drone_broken handle_heartbeat
      handle_current_order handle_admin_list_orders handle_admin_update_order
      handle_admin_list_drones handle_admin_mark_drone_broken handle_admin_mark_drone_fixed
      handle_get_order
  serve ctx (submit_order_call origin dest) s =
      reply_as order_response (handle_submit_order env ops speed sort_slice ctx origin dest s)
  serve ctx (withdraw_order_call order_id) s =
      reply_as order_response (handle_withdraw_order env ops speed sort_slice ctx order_id s)
  serve ctx reserve_job_call s =
      reply_as order_response (handle_reserve_job env ops speed sort_slice ctx s)
  serve ctx (pickup_order_call order_id) s =
      reply_as order_response (handle_pickup_order env ops speed sort_slice ctx order_id s)
  serve ctx (deliver_order_call order_id) s =
      reply_as order_response (handle_deliver_order env ops speed sort_slice ctx order_id s)
  serve ctx (fail_order_call order_id reason) s =
      reply_as order_response (handle_fail_order env ops speed sort_slice ctx order_id reason s)
  serve ctx mark_drone_broken_call s =
      reply_as drone_response (handle_mark_drone_broken env ops speed sort_slice ctx s)
  serve ctx (heartbeat_call lat lng) s =
      reply_as drone_status_response (handle_heartbeat env ops speed sort_slice ctx lat lng s)
  serve ctx current_order_call s =
      reply_as order_view_response (handle_current_order env ops speed sort_slice ctx s)
  serve ctx (admin_list_orders_call status limit offset) s =
      reply_as orders_response
        (handle_admin_list_orders env ops speed sort_slice ctx status limit offset s)
  serve ctx (admin_update_order_call order_id origin dest) s =
      reply_as order_response
        (handle_admin_update_order env ops speed sort_slice ctx order_id origin dest s)
  serve ctx admin_list_drones_call s =
      reply_as drones_response (handle_admin_list_drones env ops speed sort_slice ctx s)
  serve ctx (admin_mark_drone_broken_call drone_id) s =
      reply_as drone_response
        (handle_admin_mark_drone_broken env ops speed sort_slice ctx drone_id s)
  serve ctx (admin_mark_drone_fixed_call drone_id) s =
      reply_as drone_response
        (handle_admin_mark_drone_fixed env ops speed sort_slice ctx drone_id s)
  serve ctx (get_order_call order_id) s =
      reply_as order_view_response (handle_get_order env ops speed sort_slice ctx order_id s)

  -- A call without claims, or with a role other than the one that it needs, is refused as
  -- unauthenticated or as forbidden, and the state is what it was.
  pub serve-refuses :
      (ctx : Option Claims) (call : Call) (s : State)
      → is_allowed ctx (needed_role call) ≡ false
      → serve ctx call s ≡ (refuse (refusal ctx), s)
  unfolding serve get_claims
  serve-refuses ctx (submit_order_call origin dest) s h =
      guarded-refuses ctx role_end_user _ order_response s h
  serve-refuses ctx (withdraw_order_call order_id) s h =
      guarded-refuses ctx role_end_user _ order_response s h
  serve-refuses ctx reserve_job_call s h = guarded-refuses ctx role_drone _ order_response s h
  serve-refuses ctx (pickup_order_call order_id) s h =
      guarded-refuses ctx role_drone _ order_response s h
  serve-refuses ctx (deliver_order_call order_id) s h =
      guarded-refuses ctx role_drone _ order_response s h
  serve-refuses ctx (fail_order_call order_id reason) s h =
      guarded-refuses ctx role_drone _ order_response s h
  serve-refuses ctx mark_drone_broken_call s h = guarded-refuses ctx role_drone _ drone_response s h
  serve-refuses ctx (heartbeat_call lat lng) s h =
      guarded-refuses ctx role_drone _ drone_status_response s h
  serve-refuses ctx current_order_call s h =
      guarded-refuses ctx role_drone _ order_view_response s h
  serve-refuses ctx (admin_list_orders_call status limit offset) s h =
      guarded-refuses ctx role_admin _ orders_response s h
  serve-refuses ctx (admin_update_order_call order_id origin dest) s h =
      guarded-refuses ctx role_admin _ order_response s h
  serve-refuses ctx admin_list_drones_call s h =
      guarded-refuses ctx role_admin _ drones_response s h
  serve-refuses ctx (admin_mark_drone_broken_call drone_id) s h =
      guarded-refuses ctx role_admin _ drone_response s h
  serve-refuses ctx (admin_mark_drone_fixed_call drone_id) s h =
      guarded-refuses ctx role_admin _ drone_response s h
  serve-refuses none (get_order_call order_id) s h = refl
  serve-refuses (some claims) (get_order_call order_id) s h = cc
