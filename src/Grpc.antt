-- ===== src/Grpc.antt =====
-- internal/transport/grpcapi/server.go and helpers.go: what each handler asks of the caller, calls and
-- answers. The claims are those that the interceptor has put into the context, if any.
pub mod Requests
pub mod Guards
pub mod Interceptor
pub mod Descriptors
pub mod Access
pub mod Session
use drone_management_system.Auth.{Claims}
use drone_management_system.Service.{
  withdraw_order, drone_fail, drone_deliver, submit_order, admin_update_order,
  admin_mark_drone_broken, drone_mark_broken, drone_reserve_job, admin_mark_drone_fixed,
  drone_pickup,
}
use drone_management_system.Views.{
  admin_list_drones, admin_list_orders, drone_heartbeat, drone_current_order, get_order_view,
}
use drone_management_system.Integer.{ℤ}
use drone_management_system.Float64.{Float64}
use drone_management_system.Eta.{OrderView, FloatOps}
use drone_management_system.Domain.{role_drone, role_admin, role_end_user, Location}
use drone_management_system.Transport.{
  from_optional_location, from_order, from_drone_status, from_drone, from_order_view,
  OrderViewResponse, DroneResponse, OrderResponse, DroneStatusResponse, map_service_error,
  GrpcStatus, unauthenticated, permission_denied,
}
use drone_management_system.Exec.{Result, Env, State, ok, err}
use drone_management_system.Base.{map, List, Bool, ◌==◌, if◌then◌else◌, Option, none, some, String}

pub data Reply (A : Type 0) : Type 0 where
  answer : A → Reply A
  refuse : GrpcStatus → Reply A

-- `getClaims`
unfoldable pub get_claims : Option Claims → Reply Claims
get_claims none = refuse (record { code = unauthenticated; message = "missing token" })
get_claims (some claims) = answer claims

-- `requireRole`
abbrev has_role : Reply Claims → String → Reply Claims
has_role (refuse status) role = refuse status
has_role (answer claims) role =
    if claims.role == role
    then answer claims
    else refuse (record { code = permission_denied; message = "forbidden" })

unfoldable pub require_role : Option Claims → String → Reply Claims
unfolding get_claims
require_role ctx role = has_role (get_claims ctx) role

unfoldable pub to_domain_location : Location → Location
to_domain_location loc = record { lat = loc.lat; lng = loc.lng }

-- `if err != nil { return nil, err }` on the claims, before the handler goes on.
abbrev pub guarded :
    {B : Type 0} → Reply Claims → (Claims → State → Reply B × State) → State → Reply B × State
guarded (refuse status) k s = (refuse status, s)
guarded (answer claims) k s = k claims s

-- `if err != nil { return nil, mapServiceError(err) }`, and the response of the result.
abbrev pub respond : {A B : Type 0} → (A → B) → Result A × State → Reply B × State
respond f (ok a, s) = (answer (f a), s)
respond f (err e, s) = (refuse (map_service_error e), s)

-- `if req.Status != "" { … }`
abbrev pub status_filter : String → Option String
status_filter status = if status == "" then none else some status

module _ (env : Env) (ops : FloatOps) (speed : Float64)
    (sort_slice : (OrderView → OrderView → Bool) → List OrderView → List OrderView) where
  unfoldable pub handle_submit_order :
      Option Claims → Location → Location → State → Reply (OrderResponse) × State
  handle_submit_order ctx origin dest = guarded (require_role ctx role_end_user) λ claims s.
      respond from_order
        (submit_order env claims.subject (to_domain_location origin) (to_domain_location dest) s)

  unfoldable pub handle_withdraw_order :
      Option Claims → String → State → Reply (OrderResponse) × State
  handle_withdraw_order ctx order_id =
      guarded (require_role ctx role_end_user)
        λ claims s. respond from_order (withdraw_order env claims.subject order_id s)

  unfoldable pub handle_reserve_job : Option Claims → State → Reply (OrderResponse) × State
  handle_reserve_job ctx =
      guarded (require_role ctx role_drone)
        λ claims s. respond from_order (drone_reserve_job env claims.subject s)

  unfoldable pub handle_pickup_order :
      Option Claims → String → State → Reply (OrderResponse) × State
  handle_pickup_order ctx order_id =
      guarded (require_role ctx role_drone)
        λ claims s. respond from_order (drone_pickup env claims.subject order_id s)

  unfoldable pub handle_deliver_order :
      Option Claims → String → State → Reply (OrderResponse) × State
  handle_deliver_order ctx order_id =
      guarded (require_role ctx role_drone)
        λ claims s. respond from_order (drone_deliver env claims.subject order_id s)

  unfoldable pub handle_fail_order :
      Option Claims → String → String → State → Reply (OrderResponse) × State
  handle_fail_order ctx order_id reason =
      guarded (require_role ctx role_drone)
        λ claims s. respond from_order (drone_fail env claims.subject order_id reason s)

  unfoldable pub handle_mark_drone_broken : Option Claims → State → Reply (DroneResponse) × State
  handle_mark_drone_broken ctx =
      guarded (require_role ctx role_drone)
        λ claims s. respond from_drone (drone_mark_broken env claims.subject s)

  unfoldable pub handle_heartbeat :
      Option Claims → Float64 → Float64 → State → Reply (DroneStatusResponse) × State
  handle_heartbeat ctx lat lng = guarded (require_role ctx role_drone) λ claims s.
      respond from_drone_status
        (drone_heartbeat env ops speed claims.subject (record { lat = lat; lng = lng }) s)

  unfoldable pub handle_current_order : Option Claims → State → Reply (OrderViewResponse) × State
  handle_current_order ctx =
      guarded (require_role ctx role_drone)
        λ claims s. respond from_order_view (drone_current_order env ops speed claims.subject s)

  unfoldable pub handle_admin_list_orders :
      Option Claims → String → ℤ → ℤ → State → Reply (List OrderViewResponse) × State
  handle_admin_list_orders ctx status limit offset =
      guarded (require_role ctx role_admin) λ claims s. respond (map from_order_view) (
        admin_list_orders env ops speed sort_slice
          (record { status = status_filter status; limit = limit; offset = offset }) s)

  unfoldable pub handle_admin_update_order :
      Option Claims
      → String
      → Option Location
      → Option Location
      → State
      → Reply (OrderResponse) × State
  handle_admin_update_order ctx order_id origin dest =
      guarded (require_role ctx role_admin) λ claims s. respond from_order (
        admin_update_order env order_id (from_optional_location origin)
          (from_optional_location dest) s)

  unfoldable pub handle_admin_list_drones :
      Option Claims → State → Reply (List DroneResponse) × State
  handle_admin_list_drones ctx =
      guarded (require_role ctx role_admin)
        λ claims s. respond (map from_drone) (admin_list_drones env ops speed s)

  unfoldable pub handle_admin_mark_drone_broken :
      Option Claims → String → State → Reply (DroneResponse) × State
  handle_admin_mark_drone_broken ctx drone_id =
      guarded (require_role ctx role_admin)
        λ claims s. respond from_drone (admin_mark_drone_broken env drone_id s)

  unfoldable pub handle_admin_mark_drone_fixed :
      Option Claims → String → State → Reply (DroneResponse) × State
  handle_admin_mark_drone_fixed ctx drone_id =
      guarded (require_role ctx role_admin)
        λ claims s. respond from_drone (admin_mark_drone_fixed env drone_id s)

  unfoldable pub handle_get_order : Option Claims → String → State → Reply OrderViewResponse × State
  handle_get_order ctx order_id = guarded (get_claims ctx) λ claims s.
      respond from_order_view (get_order_view env ops speed claims.subject claims.role order_id s)
