-- ===== src/Transport.antt =====
-- internal/transport/mapper.go, and the error mappings of the three transports: `writeError` of
-- internal/transport/httpapi, `mapServiceError` of internal/transport/grpcapi and `mapError` of
-- internal/transport/thriftapi.
pub mod Errors
pub mod Mapper
use drone_management_system.Integer.{ℤ}
use drone_management_system.Eta.{DroneStatusView, OrderView}
use drone_management_system.Domain.{
  errors_is, Order, Drone, Time, drone_status_text, order_status_text, Location, Error,
  unauthorized, forbidden, not_found, conflict, invalid, precondition, no_job,
}
use drone_management_system.Base.{if◌then◌else◌, Option, none, some, ℕ, String}

-- `errorResponse`, with the status of the response.
pub record HttpError : Type 0 where
  pub status : ℕ
  pub code : String
  pub message : String

unfoldable pub write_error : Error → HttpError
write_error e =
    if errors_is e unauthorized
    then record { status = 401; code = "unauthorized"; message = "unauthorized" }
    else if errors_is e forbidden
    then record { status = 403; code = "forbidden"; message = "forbidden" }
    else if errors_is e not_found
    then record { status = 404; code = "not_found"; message = "not found" }
    else if errors_is e conflict
    then record { status = 409; code = "conflict"; message = "conflict" }
    else if errors_is e invalid
    then record { status = 422; code = "invalid"; message = "invalid request" }
    else if errors_is e precondition
    then record { status = 409; code = "precondition_failed"; message = "precondition failed" }
    else if errors_is e no_job
    then record { status = 404; code = "no_job"; message = "no job available" }
    else record { status = 500; code = "internal"; message = "internal error" }

-- The codes of google.golang.org/grpc/codes that the mapping uses.
pub data GrpcCode : Type 0 where
  invalid_argument not_found_code permission_denied failed_precondition aborted internal
        unauthenticated :
      GrpcCode

pub record GrpcStatus : Type 0 where
  pub code : GrpcCode
  pub message : String

unfoldable pub map_service_error : Error → GrpcStatus
map_service_error e =
    if errors_is e unauthorized
    then record { code = unauthenticated; message = "unauthorized" }
    else if errors_is e forbidden
    then record { code = permission_denied; message = "forbidden" }
    else if errors_is e not_found
    then record { code = not_found_code; message = "not found" }
    else if errors_is e conflict
    then record { code = aborted; message = "conflict" }
    else if errors_is e invalid
    then record { code = invalid_argument; message = "invalid request" }
    else if errors_is e precondition
    then record { code = failed_precondition; message = "precondition failed" }
    else if errors_is e no_job
    then record { code = not_found_code; message = "no job available" }
    else record { code = internal; message = "internal error" }

-- The kinds of application exceptions that the processor makes; `mapError` makes the first two.
pub data ThriftKind : Type 0 where
  protocol_error internal_error unknown_method : ThriftKind

pub record ThriftException : Type 0 where
  pub kind : ThriftKind
  pub message : String

unfoldable pub map_error : Error → ThriftException
map_error e =
    if errors_is e unauthorized
    then record { kind = protocol_error; message = "unauthorized" }
    else if errors_is e forbidden
    then record { kind = protocol_error; message = "forbidden" }
    else if errors_is e not_found
    then record { kind = protocol_error; message = "not found" }
    else if errors_is e conflict
    then record { kind = protocol_error; message = "conflict" }
    else if errors_is e invalid
    then record { kind = protocol_error; message = "invalid request" }
    else if errors_is e precondition
    then record { kind = protocol_error; message = "precondition failed" }
    else if errors_is e no_job
    then record { kind = protocol_error; message = "no job" }
    else record { kind = internal_error; message = "internal error" }

pub record OrderResponse : Type 0 where
  pub id : String
  pub user_id : String
  pub origin : Location
  pub destination : Location
  pub status : String
  pub assigned_drone_id : Option String
  pub handoff_origin : Option Location
  pub created_at : Time
  pub updated_at : Time
  pub reserved_at : Option Time
  pub picked_up_at : Option Time
  pub delivered_at : Option Time
  pub failed_at : Option Time
  pub failure_reason : Option String

pub record OrderViewResponse : Type 0 where
  pub order : OrderResponse
  pub current_location : Option Location
  pub eta_seconds : Option ℤ

pub record DroneResponse : Type 0 where
  pub id : String
  pub status : String
  pub last_location : Option Location
  pub last_heartbeat_at : Option Time
  pub current_order_id : Option String
  pub created_at : Time
  pub updated_at : Time

pub record DroneStatusResponse : Type 0 where
  pub drone : DroneResponse
  pub current_order : Option OrderViewResponse

-- `Location{Lat: l.Lat, Lng: l.Lng}`, of a location and of a pointer to one.
abbrev pub from_location : Location → Location
from_location l = record { lat = l.lat; lng = l.lng }

abbrev pub from_optional_location : Option Location → Option Location
from_optional_location none = none
from_optional_location (some l) = some (from_location l)

unfoldable pub from_order : Order → OrderResponse
unfolding order_status_text
from_order order = record {
  id = order.id;
  user_id = order.user_id;
  origin = from_location order.origin;
  destination = from_location order.destination;
  status = order_status_text order.status;
  assigned_drone_id = order.assigned_drone_id;
  handoff_origin = from_optional_location order.handoff_origin;
  created_at = order.created_at;
  updated_at = order.updated_at;
  reserved_at = order.reserved_at;
  picked_up_at = order.picked_up_at;
  delivered_at = order.delivered_at;
  failed_at = order.failed_at;
  failure_reason = order.failure_reason;
}

unfoldable pub from_order_view : OrderView → OrderViewResponse
unfolding from_order
from_order_view view = record {
  order = from_order view.order;
  current_location = from_optional_location view.current_location;
  eta_seconds = view.eta_seconds;
}

unfoldable pub from_drone : Drone → DroneResponse
unfolding drone_status_text
from_drone drone = record {
  id = drone.id;
  status = drone_status_text drone.status;
  last_location = from_optional_location drone.last_location;
  last_heartbeat_at = drone.last_heartbeat_at;
  current_order_id = drone.current_order_id;
  created_at = drone.created_at;
  updated_at = drone.updated_at;
}

abbrev from_optional_view : Option OrderView → Option OrderViewResponse
from_optional_view none = none
from_optional_view (some view) = some (from_order_view view)

unfoldable pub from_drone_status : DroneStatusView → DroneStatusResponse
unfolding from_drone from_order_view
from_drone_status view = record {
  drone = from_drone view.drone;
  current_order = from_optional_view view.current_order;
}
