-- ===== src/Thrift/Writers.antt =====
-- The writers of internal/transport/thriftapi/processor.go. A writer that returns at the first error
-- is the list of its calls of the protocol, which `write_all` runs up to the first that fails.
use drone_management_system.Transport.{ThriftException}
use drone_management_system.Eta.{DroneStatusView, OrderView}
use drone_management_system.Float64.{Float64}
use drone_management_system.Domain.{
  Order, drone_status_text, Drone, order_status_text, Location, Time,
}
use drone_management_system.Integer.{ℤ}
use drone_management_system.Thrift.{
  string_type, i64_type, double_type, struct_type, TType, MessageType,
}
use drone_management_system.Base.{map, length, ◌++◌, [], ◌∷◌, List, ℕ, String, Option, none, some}

-- The writing methods of `thrift.TProtocol` that the processor calls; the last but one is the `Write`
-- of an application exception, which the library implements.
pub data Write : Type 0 where
  message_begin : (name : String) (message_type : MessageType) (seq_id : ℤ) → Write
  message_end : Write
  struct_begin : (name : String) → Write
  struct_end : Write
  field_begin : (name : String) (field_type : TType) (id : ℕ) → Write
  field_end : Write
  field_stop : Write
  list_begin : (element : TType) (size : ℕ) → Write
  list_end : Write
  string_value : String → Write
  i64_value : ℤ → Write
  double_value : Float64 → Write
  exception_value : ThriftException → Write
  flush : Write

-- A protocol that is written to: a call leaves a new state, and an error or none.
pub record Sink (O : Type 0) : Type 0 where
  pub write : Write → O → O × Option String

module _ {O : Type 0} (q : Sink O) where
  abbrev pub unless_failed : (O → O × Option String) → O × Option String → O × Option String
  unless_failed next (o, none) = next o
  unless_failed next (o, some message) = (o, some message)

  -- `if err := …; err != nil { return err }` for one call after the other.
  abbrev pub write_all : List Write → O → O × Option String
  write_all [] o = (o, none)
  write_all (call ∷ calls) o = unless_failed (λ rest. write_all calls rest) (q.write call o)

  -- `_ = …` for one call after the other.
  abbrev pub write_each : List Write → O → O
  write_each [] o = o
  write_each (call ∷ calls) o = write_each calls (q.write call o).0

-- The three calls of a field, with the writing of its value between them.
abbrev pub field : String → TType → ℕ → List Write → List Write
field name field_type id body = field_begin name field_type id ∷ (body ++ (field_end ∷ []))

abbrev pub string_field : String → ℕ → String → List Write
string_field name id text = field name string_type id (string_value text ∷ [])

abbrev pub i64_field : String → ℕ → ℤ → List Write
i64_field name id n = field name i64_type id (i64_value n ∷ [])

-- `if x != nil { … }`
abbrev pub optional : {A : Type 0} → (A → List Write) → Option A → List Write
optional f none = []
optional f (some a) = f a

abbrev pub concat : List (List Write) → List Write
concat [] = []
concat (calls ∷ rest) = calls ++ concat rest

-- A struct, and what the writer calls before its end.
abbrev pub struct : String → List (List Write) → List Write
struct name fields = struct_begin name ∷ (concat fields ++ (struct_end ∷ []))

abbrev pub location_fields : Location → List (List Write)
location_fields loc =
    field "lat" double_type 1 (double_value loc.lat ∷ [])
    ∷ field "lng" double_type 2 (double_value loc.lng ∷ [])
    ∷ []

unfoldable pub write_location : Location → List Write
write_location loc = struct "Location" (location_fields loc)

-- `unix` is `Time.Unix`.
module _ (unix : Time → ℤ) where
  abbrev pub token_response_fields : String → Time → List (List Write)
  token_response_fields token exp =
      string_field "token" 1 token ∷ i64_field "expiresAt" 2 (unix exp) ∷ (field_stop ∷ []) ∷ []

  unfoldable pub write_token_response : String → Time → List Write
  write_token_response token exp = struct "TokenResponse" (token_response_fields token exp)

  abbrev pub time_field : String → ℕ → Time → List Write
  time_field name id t = i64_field name id (unix t)

  abbrev pub location_field_of : String → ℕ → Location → List Write
  location_field_of name id loc = field name struct_type id (write_location loc)

  -- There is no stop after the fields, here and in the structs below.
  abbrev pub order_fields : Order → List (List Write)
  unfolding write_location order_status_text
  order_fields order =
      string_field "id" 1 order.id
      ∷ string_field "userId" 2 order.user_id
      ∷ location_field_of "origin" 3 order.origin
      ∷ location_field_of "destination" 4 order.destination
      ∷ string_field "status" 5 (order_status_text order.status)
      ∷ optional (string_field "assignedDroneId" 6) order.assigned_drone_id
      ∷ optional (location_field_of "handoffOrigin" 7) order.handoff_origin
      ∷ time_field "createdAt" 8 order.created_at
      ∷ time_field "updatedAt" 9 order.updated_at
      ∷ optional (time_field "reservedAt" 10) order.reserved_at
      ∷ optional (time_field "pickedUpAt" 11) order.picked_up_at
      ∷ optional (time_field "deliveredAt" 12) order.delivered_at
      ∷ optional (time_field "failedAt" 13) order.failed_at
      ∷ optional (string_field "failureReason" 14) order.failure_reason
      ∷ []

  unfoldable pub write_order : Order → List Write
  unfolding write_location order_status_text
  write_order order = struct "Order" (order_fields order)

  abbrev pub order_view_fields : OrderView → List (List Write)
  unfolding write_order write_location
  order_view_fields view =
      field "order" struct_type 1 (write_order view.order)
      ∷ optional (location_field_of "currentLocation" 2) view.current_location
      ∷ optional (i64_field "etaSeconds" 3) view.eta_seconds
      ∷ []

  unfoldable pub write_order_view : OrderView → List Write
  unfolding write_order write_location
  write_order_view view = struct "OrderView" (order_view_fields view)

  abbrev pub drone_fields : Drone → List (List Write)
  unfolding write_location drone_status_text
  drone_fields drone =
      string_field "id" 1 drone.id
      ∷ string_field "status" 2 (drone_status_text drone.status)
      ∷ optional (location_field_of "lastLocation" 3) drone.last_location
      ∷ optional (time_field "lastHeartbeatAt" 4) drone.last_heartbeat_at
      ∷ optional (string_field "currentOrderId" 5) drone.current_order_id
      ∷ time_field "createdAt" 6 drone.created_at
      ∷ time_field "updatedAt" 7 drone.updated_at
      ∷ []

  unfoldable pub write_drone : Drone → List Write
  unfolding write_location drone_status_text
  write_drone drone = struct "Drone" (drone_fields drone)

  abbrev pub drone_status_fields : DroneStatusView → List (List Write)
  unfolding write_drone write_order_view
  drone_status_fields view =
      field "drone" struct_type 1 (write_drone view.drone)
      ∷ optional (λ order. field "currentOrder" struct_type 2 (write_order_view order))
          view.current_order
      ∷ []

  unfoldable pub write_drone_status : DroneStatusView → List Write
  unfolding write_drone write_order_view
  write_drone_status view = struct "DroneStatus" (drone_status_fields view)

  abbrev pub write_list : {A : Type 0} → (A → List Write) → List A → List Write
  write_list f xs = list_begin struct_type (length xs) ∷ (concat (map f xs) ++ (list_end ∷ []))

  unfoldable pub write_order_view_list : List OrderView → List Write
  unfolding write_order_view
  write_order_view_list views = write_list write_order_view views

  unfoldable pub write_drone_list : List Drone → List Write
  unfolding write_drone
  write_drone_list drones = write_list write_drone drones
