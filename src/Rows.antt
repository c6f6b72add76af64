-- ===== src/Rows.antt =====
-- The rows of the tables `orders` and `drones` (migrations), and how internal/repo/postgres/store.go
-- writes and scans them. A nullable column is an option; a location is two columns.
pub mod RoundTrip
use drone_management_system.Base.{Option, none, some, String}
use drone_management_system.Float64.{Float64}
use drone_management_system.Domain.{Time, Location, OrderStatus, DroneStatus, Order, Drone}

pub record OrderRow : Type 0 where
  pub id : String
  pub user_id : String
  pub origin_lat : Float64
  pub origin_lng : Float64
  pub dest_lat : Float64
  pub dest_lng : Float64
  pub status : OrderStatus
  pub assigned_drone_id : Option String
  pub handoff_origin_lat : Option Float64
  pub handoff_origin_lng : Option Float64
  pub created_at : Time
  pub updated_at : Time
  pub reserved_at : Option Time
  pub picked_up_at : Option Time
  pub delivered_at : Option Time
  pub failed_at : Option Time
  pub failure_reason : Option String

pub record DroneRow : Type 0 where
  pub id : String
  pub status : DroneStatus
  pub last_lat : Option Float64
  pub last_lng : Option Float64
  pub last_heartbeat_at : Option Time
  pub current_order_id : Option String
  pub created_at : Time
  pub updated_at : Time

-- `nullString` and `nullTime`: a pointer becomes a value with a `Valid` flag.
unfoldable pub null_string : Option String → Option String
null_string none = none
null_string (some v) = some v

unfoldable pub null_time : Option Time → Option Time
null_time none = none
null_time (some v) = some v

unfoldable pub null_location_lat : Option Location → Option Float64
null_location_lat none = none
null_location_lat (some loc) = some loc.lat

unfoldable pub null_location_lng : Option Location → Option Float64
null_location_lng none = none
null_location_lng (some loc) = some loc.lng

unfoldable pub optional_location_lat : Option Location → Option Float64
unfolding null_location_lat
optional_location_lat loc = null_location_lat loc

unfoldable pub optional_location_lng : Option Location → Option Float64
unfolding null_location_lng
optional_location_lng loc = null_location_lng loc

-- The location of two columns: there only when both are valid.
abbrev pub location_of : Option Float64 → Option Float64 → Option Location
location_of (some lat) (some lng) = some (record { lat = lat; lng = lng })
location_of _ _ = none

-- A column with its `Valid` flag becomes a pointer.
abbrev pub if_valid {ℓ} : {A : Type ℓ} → Option A → Option A
if_valid none = none
if_valid (some v) = some v

-- The columns that the selects of orders name, in their order.
abbrev pub OrderColumns : Type 0
OrderColumns =
    String
    × String
    × Float64
    × Float64
    × Float64
    × Float64
    × OrderStatus
    × Option String
    × Option Float64
    × Option Float64
    × Time
    × Time
    × Option Time
    × Option Time
    × Option Time
    × Option Time
    × Option String

abbrev order_columns : OrderRow → OrderColumns
order_columns row = (
  row.id, row.user_id, row.origin_lat, row.origin_lng, row.dest_lat, row.dest_lng, row.status,
  row.assigned_drone_id, row.handoff_origin_lat, row.handoff_origin_lng, row.created_at,
  row.updated_at, row.reserved_at, row.picked_up_at, row.delivered_at, row.failed_at,
  row.failure_reason,
)

-- `row.Scan`: its arguments take the columns by their positions.
abbrev order_of_columns : OrderColumns → Order
order_of_columns
      (
        id, user_id, origin_lat, origin_lng, destination_lat, destination_lng, status,
        assigned_drone_id, handoff_lat, handoff_lng, created_at, updated_at, reserved_at,
        picked_up_at, delivered_at, failed_at, failure_reason,
      ) =
    record {
      id = id;
      user_id = user_id;
      origin = record { lat = origin_lat; lng = origin_lng };
      destination = record { lat = destination_lat; lng = destination_lng };
      status = status;
      assigned_drone_id = if_valid assigned_drone_id;
      handoff_origin = location_of handoff_lat handoff_lng;
      created_at = created_at;
      updated_at = updated_at;
      reserved_at = if_valid reserved_at;
      picked_up_at = if_valid picked_up_at;
      delivered_at = if_valid delivered_at;
      failed_at = if_valid failed_at;
      failure_reason = if_valid failure_reason;
    }

unfoldable pub scan_order : OrderRow → Order
scan_order row = order_of_columns (order_columns row)

-- The columns that the selects of drones name, in their order.
abbrev pub DroneColumns : Type 0
DroneColumns =
    String
    × DroneStatus
    × Option Float64
    × Option Float64
    × Option Time
    × Option String
    × Time
    × Time

abbrev drone_columns : DroneRow → DroneColumns
drone_columns row = (
  row.id, row.status, row.last_lat, row.last_lng, row.last_heartbeat_at, row.current_order_id,
  row.created_at, row.updated_at,
)

abbrev drone_of_columns : DroneColumns → Drone
drone_of_columns
      (
        id, status, last_lat, last_lng, last_heartbeat_at, current_order_id, created_at, updated_at,
      ) =
    record {
      id = id;
      status = status;
      last_location = location_of last_lat last_lng;
      last_heartbeat_at = if_valid last_heartbeat_at;
      current_order_id = if_valid current_order_id;
      created_at = created_at;
      updated_at = updated_at;
    }

unfoldable pub scan_drone : DroneRow → Drone
scan_drone row = drone_of_columns (drone_columns row)

-- The arguments of `CreateOrder`, in their order, and the row that `orderInsertSQL` makes of its
-- parameters $1 to $17.
abbrev order_insert_arguments : Order → OrderColumns
unfolding null_string null_time optional_location_lat optional_location_lng
order_insert_arguments order = (
  order.id,
  order.user_id,
  order.origin.lat,
  order.origin.lng,
  order.destination.lat,
  order.destination.lng,
  order.status,
  null_string order.assigned_drone_id,
  optional_location_lat order.handoff_origin,
  optional_location_lng order.handoff_origin,
  order.created_at,
  order.updated_at,
  null_time order.reserved_at,
  null_time order.picked_up_at,
  null_time order.delivered_at,
  null_time order.failed_at,
  null_string order.failure_reason,
)

abbrev inserted_order_row : OrderColumns → OrderRow
inserted_order_row (p1, p2, p3, p4, p5, p6, p7, p8, p9, p10, p11, p12, p13, p14, p15, p16, p17) =
    record {
      id = p1;
      user_id = p2;
      origin_lat = p3;
      origin_lng = p4;
      dest_lat = p5;
      dest_lng = p6;
      status = p7;
      assigned_drone_id = p8;
      handoff_origin_lat = p9;
      handoff_origin_lng = p10;
      created_at = p11;
      updated_at = p12;
      reserved_at = p13;
      picked_up_at = p14;
      delivered_at = p15;
      failed_at = p16;
      failure_reason = p17;
    }

unfoldable pub order_insert_values : Order → OrderRow
unfolding null_string null_time optional_location_lat optional_location_lng
order_insert_values order = inserted_order_row (order_insert_arguments order)

-- The parameters of `orderUpdateSQL`; the last selects the row.
abbrev pub OrderUpdate : Type 0
OrderUpdate =
    String
    × Float64
    × Float64
    × Float64
    × Float64
    × OrderStatus
    × Option String
    × Option Float64
    × Option Float64
    × Time
    × Option Time
    × Option Time
    × Option Time
    × Option Time
    × Option String
    × String

abbrev order_update_arguments : Order → OrderUpdate
unfolding null_string null_time optional_location_lat optional_location_lng
order_update_arguments order = (
  order.user_id,
  order.origin.lat,
  order.origin.lng,
  order.destination.lat,
  order.destination.lng,
  order.status,
  null_string order.assigned_drone_id,
  optional_location_lat order.handoff_origin,
  optional_location_lng order.handoff_origin,
  order.updated_at,
  null_time order.reserved_at,
  null_time order.picked_up_at,
  null_time order.delivered_at,
  null_time order.failed_at,
  null_string order.failure_reason,
  order.id,
)

-- `SET` on one row, with $1 to $16: `id` and `created_at` are not set.
abbrev updated_order_row : OrderUpdate → OrderRow → OrderRow
updated_order_row (p1, p2, p3, p4, p5, p6, p7, p8, p9, p10, p11, p12, p13, p14, p15, p16) row =
    record row {
      user_id = p1;
      origin_lat = p2;
      origin_lng = p3;
      dest_lat = p4;
      dest_lng = p5;
      status = p6;
      assigned_drone_id = p7;
      handoff_origin_lat = p8;
      handoff_origin_lng = p9;
      updated_at = p10;
      reserved_at = p11;
      picked_up_at = p12;
      delivered_at = p13;
      failed_at = p14;
      failure_reason = p15;
    }

unfoldable pub order_update_values : Order → OrderRow → OrderRow
unfolding null_string null_time optional_location_lat optional_location_lng
order_update_values order row = updated_order_row (order_update_arguments order) row

-- The arguments of `CreateDrone`, in their order, and the row that `droneInsertSQL` makes of its
-- parameters $1 to $8.
abbrev drone_insert_arguments : Drone → DroneColumns
unfolding null_string null_time null_location_lat null_location_lng
drone_insert_arguments drone = (
  drone.id,
  drone.status,
  null_location_lat drone.last_location,
  null_location_lng drone.last_location,
  null_time drone.last_heartbeat_at,
  null_string drone.current_order_id,
  drone.created_at,
  drone.updated_at,
)

abbrev inserted_drone_row : DroneColumns → DroneRow
inserted_drone_row (p1, p2, p3, p4, p5, p6, p7, p8) = record {
  id = p1;
  status = p2;
  last_lat = p3;
  last_lng = p4;
  last_heartbeat_at = p5;
  current_order_id = p6;
  created_at = p7;
  updated_at = p8;
}

unfoldable pub drone_insert_values : Drone → DroneRow
unfolding null_string null_time null_location_lat null_location_lng
drone_insert_values drone = inserted_drone_row (drone_insert_arguments drone)

-- The parameters of `droneUpdateSQL`; the last selects the row.
abbrev pub DroneUpdate : Type 0
DroneUpdate =
    DroneStatus × Option Float64 × Option Float64 × Option Time × Option String × Time × String

abbrev drone_update_arguments : Drone → DroneUpdate
unfolding null_string null_time null_location_lat null_location_lng
drone_update_arguments drone = (
  drone.status,
  null_location_lat drone.last_location,
  null_location_lng drone.last_location,
  null_time drone.last_heartbeat_at,
  null_string drone.current_order_id,
  drone.updated_at,
  drone.id,
)

-- `SET` on one row, with $1 to $7: `id` and `created_at` are not set.
abbrev updated_drone_row : DroneUpdate → DroneRow → DroneRow
updated_drone_row (p1, p2, p3, p4, p5, p6, p7) row = record row {
  status = p1;
  last_lat = p2;
  last_lng = p3;
  last_heartbeat_at = p4;
  current_order_id = p5;
  updated_at = p6;
}

unfoldable pub drone_update_values : Drone → DroneRow → DroneRow
unfolding null_string null_time null_location_lat null_location_lng
drone_update_values drone row = updated_drone_row (drone_update_arguments drone) row
