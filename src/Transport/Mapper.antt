-- ===== src/Transport/Mapper.antt =====
-- The mapping functions of internal/transport/mapper.go, and readers of their responses.
use drone_management_system.Eta.{DroneStatusView, OrderView}
use drone_management_system.Transport.{
  from_drone, from_drone_status, from_order_view, DroneResponse, DroneStatusResponse,
  OrderViewResponse, from_optional_location, from_order, OrderResponse,
}
use drone_management_system.Domain.{
  DroneStatus, active, broken, drone_status_text, Drone, OrderStatus, Location, Order,
  order_status_text, created, reserved, picked_up, handoff_requested, delivered, failed, withdrawn,
}
use drone_management_system.Base.{◌==◌, if◌then◌else◌, Option, String, none, some, ◌≡◌, refl}

-- A reader of the status text, and one of a whole response: each field of the order is read from
-- the field of the response that has its name.
parse_status : String → OrderStatus
parse_status s =
    if s == "CREATED"
    then created
    else if s == "RESERVED"
    then reserved
    else if s == "PICKED_UP"
    then picked_up
    else if s == "HANDOFF_REQUESTED"
    then handoff_requested
    else if s == "DELIVERED"
    then delivered
    else if s == "FAILED"
    then failed
    else withdrawn

pub order_of : OrderResponse → Order
order_of r = record {
  id = r.id;
  user_id = r.user_id;
  origin = r.origin;
  destination = r.destination;
  status = parse_status r.status;
  assigned_drone_id = r.assigned_drone_id;
  handoff_origin = r.handoff_origin;
  created_at = r.created_at;
  updated_at = r.updated_at;
  reserved_at = r.reserved_at;
  picked_up_at = r.picked_up_at;
  delivered_at = r.delivered_at;
  failed_at = r.failed_at;
  failure_reason = r.failure_reason;
}

parse-order_status_text : (s : OrderStatus) → parse_status (order_status_text s) ≡ s
unfolding parse_status order_status_text
parse-order_status_text created = refl
parse-order_status_text reserved = refl
parse-order_status_text picked_up = refl
parse-order_status_text handoff_requested = refl
parse-order_status_text delivered = refl
parse-order_status_text failed = refl
parse-order_status_text withdrawn = refl

same_location : (l : Option Location) → from_optional_location l ≡ l
same_location none = refl
same_location (some l) = refl

order_of-from_order : (o : Order) → order_of (from_order o) ≡ o
unfolding order_of from_order
order_of-from_order o = rw (parse-order_status_text o.status, same_location o.handoff_origin) refl

parse_drone_status : String → DroneStatus
parse_drone_status s = if s == "ACTIVE" then active else broken

drone_of : DroneResponse → Drone
drone_of r = record {
  id = r.id;
  status = parse_drone_status r.status;
  last_location = r.last_location;
  last_heartbeat_at = r.last_heartbeat_at;
  current_order_id = r.current_order_id;
  created_at = r.created_at;
  updated_at = r.updated_at;
}

order_view_of : OrderViewResponse → OrderView
order_view_of r = record {
  order = order_of r.order;
  current_location = r.current_location;
  eta_seconds = r.eta_seconds;
}

abbrev optional_view_of : Option OrderViewResponse → Option OrderView
optional_view_of none = none
optional_view_of (some r) = some (order_view_of r)

pub drone_status_of : DroneStatusResponse → DroneStatusView
drone_status_of r = record {
  drone = drone_of r.drone;
  current_order = optional_view_of r.current_order;
}

parse-drone_status_text : (s : DroneStatus) → parse_drone_status (drone_status_text s) ≡ s
unfolding parse_drone_status drone_status_text
parse-drone_status_text active = refl
parse-drone_status_text broken = refl

drone_of-from_drone : (x : Drone) → drone_of (from_drone x) ≡ x
unfolding drone_of from_drone
drone_of-from_drone x = rw (parse-drone_status_text x.status, same_location x.last_location) refl

order_view_of-from_order_view : (view : OrderView) → order_view_of (from_order_view view) ≡ view
unfolding order_view_of from_order_view
order_view_of-from_order_view view =
    rw (order_of-from_order view.order, same_location view.current_location) refl

-- The response for a drone shows under its name each field of the drone, of the order that it
-- carries if any, and of that order's view, the statuses as their texts: what readers by names
-- read back from the response is the view of the drone.
pub drone_status_of-from_drone_status :
    (view : DroneStatusView) → drone_status_of (from_drone_status view) ≡ view
unfolding drone_status_of from_drone_status
drone_status_of-from_drone_status view = of view.current_order
  where
    of :
        (o : Option OrderView)
        → drone_status_of (from_drone_status (record view { current_order = o }))
          ≡ record view { current_order = o }
    of none = rw (drone_of-from_drone view.drone) refl
    of (some shown) = rw (drone_of-from_drone view.drone, order_view_of-from_order_view shown) refl
