-- ===== src/Views.antt =====
-- The reading operations of internal/service/service.go. `sort_slice` is `sort.Slice` of the standard
-- library, which orders by a comparison and may permute equal elements.
pub mod Laws
pub mod Bounds
use drone_management_system.Service.{record_heartbeat}
use drone_management_system.Tx.{get_order, list_orders, get_drone, list_drones, OrderFilter}
use drone_management_system.Float64.{Float64}
use drone_management_system.Domain.{
  invalid, forbidden, not_found, sentinel, validate_location, errors_is, Drone, role_admin,
  Location, Order,
}
use drone_management_system.Exec.{
  raise, or_error, raise_if, lift, raise_on, pure, Result, Exec, Env,
}
use drone_management_system.Eta.{
  compute_eta, current_location, DroneStatusView, FloatOps, OrderView,
}
use drone_management_system.Exec.{ok, err, ◌>>=◌, ◌>>◌}
use drone_management_system.Base.{
  if◌then◌else◌, none, some, [], ◌∷◌, not, ◌&&◌, ◌&&◌, Option, List, ◌==◌, ltb, not, Bool, String,
  ◌≡◌, refl,
}

-- `views[i].Order.CreatedAt.Before(views[j].Order.CreatedAt)`
abbrev pub created_before : OrderView → OrderView → Bool
created_before a b = ltb a.order.created_at b.order.created_at

-- `role != domain.RoleAdmin && order.UserID != requesterID`
abbrev pub may_not_view : String → String → Order → Bool
may_not_view requester_id role order =
    not (role == role_admin) && not (order.user_id == requester_id)

module _ (env : Env) (ops : FloatOps) (speed : Float64) where
  -- `err != nil && !errors.Is(err, domain.ErrNotFound)`: a missing drone or order is a nil pointer.
  unfoldable pub or_nil : {A : Type 0} → Result A → Exec (Option A)
  or_nil (ok a) = pure (some a)
  or_nil (err e) = if errors_is e not_found then pure none else raise e

  unfoldable pub assigned_drone : Option String → Exec (Option Drone)
  unfolding or_nil
  assigned_drone none = pure none
  assigned_drone (some id) = λ s. let found = get_drone env id s in or_nil found.0 found.1

  unfoldable pub build_order_view : Order → Exec OrderView
  unfolding assigned_drone
  build_order_view order = do
    drone ← assigned_drone order.assigned_drone_id
    pure (record {
      order = order;
      current_location = current_location order drone;
      eta_seconds = compute_eta ops order drone speed;
    })

  unfoldable pub get_order_view : String → String → String → Exec OrderView
  unfolding build_order_view
  get_order_view requester_id role order_id = do
    order ← get_order env order_id
    raise_if (may_not_view requester_id role order) (sentinel forbidden)
    build_order_view order

  unfoldable pub drone_current_order : String → Exec OrderView
  unfolding build_order_view
  drone_current_order drone_id = do
    drone ← get_drone env drone_id
    order_id ← lift (or_error drone.current_order_id (sentinel not_found))
    order ← get_order env order_id
    build_order_view order

  unfoldable pub build_views : List Order → Exec (List OrderView)
  unfolding build_order_view
  build_views [] = pure []
  build_views (order ∷ orders) = do
    view ← build_order_view order
    views ← build_views orders
    pure (view ∷ views)

  unfoldable pub admin_list_orders :
      ((OrderView → OrderView → Bool) → List OrderView → List OrderView)
      → OrderFilter
      → Exec (List OrderView)
  unfolding build_views
  admin_list_orders sort_slice filter = do
    orders ← list_orders env filter
    views ← build_views orders
    pure (sort_slice created_before views)

  unfoldable pub admin_list_drones : Exec (List Drone)
  admin_list_drones = list_drones env

  -- `if order != nil { … }`
  unfoldable pub view_of_nil : Option Order → Exec (Option OrderView)
  unfolding build_order_view
  view_of_nil none = pure none
  view_of_nil (some order) = do view ← build_order_view order; pure (some view)

  -- `if drone.CurrentOrderID != nil { … }` of `DroneHeartbeat`.
  unfoldable pub current_view : Option String → Exec (Option OrderView)
  unfolding view_of_nil or_nil
  current_view none = pure none
  current_view (some id) =
      (λ s. let found = get_order env id s in or_nil found.0 found.1) >>= view_of_nil

  unfoldable pub drone_heartbeat : String → Location → Exec DroneStatusView
  unfolding current_view
  drone_heartbeat drone_id loc = do
    raise_on (validate_location loc) (sentinel invalid)
    drone ← record_heartbeat env drone_id loc
    view ← current_view drone.current_order_id
    pure (record { drone = drone; current_order = view })
