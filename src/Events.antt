-- ===== src/Events.antt =====
-- internal/events/events.go: the event types, the payloads and the constructors of events. The
-- fresh identifier of `uuid.NewString` is an argument. A payload is the map given to `json.Marshal`.
use drone_management_system.Base.{Option, none, some, String, List, [], ◌∷◌}
use drone_management_system.Domain.{Time, Order, Drone, order_status_text, drone_status_text}

abbrev pub aggregate_order : String
aggregate_order = "order"

abbrev pub aggregate_drone : String
aggregate_drone = "drone"

abbrev pub event_order_created : String
event_order_created = "order.created"

abbrev pub event_order_reserved : String
event_order_reserved = "order.reserved"

abbrev pub event_order_picked_up : String
event_order_picked_up = "order.picked_up"

abbrev pub event_order_delivered : String
event_order_delivered = "order.delivered"

abbrev pub event_order_failed : String
event_order_failed = "order.failed"

abbrev pub event_order_handoff_requested : String
event_order_handoff_requested = "order.handoff_requested"

abbrev pub event_order_withdrawn : String
event_order_withdrawn = "order.withdrawn"

abbrev pub event_order_updated : String
event_order_updated = "order.updated"

abbrev pub event_drone_broken : String
event_drone_broken = "drone.broken"

abbrev pub event_drone_fixed : String
event_drone_fixed = "drone.fixed"

-- The values that a payload holds; `null` is a nil pointer.
pub data Value : Type 0 where
  null : Value
  text : String → Value
  instant : Time → Value

abbrev pub Payload : Type 0
Payload = List (String × Value)

pub record Event : Type 0 where
  pub id : String
  pub event_type : String
  pub aggregate_type : String
  pub aggregate_id : String
  pub payload : Payload
  pub occurred_at : Time

abbrev pub nullable_text : Option String → Value
nullable_text none = null
nullable_text (some s) = text s

unfoldable pub new_event : String → String → String → String → Payload → Time → Event
new_event id event_type aggregate_type aggregate_id payload occurred_at = record {
  id = id;
  event_type = event_type;
  aggregate_type = aggregate_type;
  aggregate_id = aggregate_id;
  payload = payload;
  occurred_at = occurred_at;
}

-- `if drone != nil { payload["drone_status"] = drone.Status }`
abbrev pub drone_status_entry : Option Drone → Payload
drone_status_entry none = []
drone_status_entry (some drone) = ("drone_status", text (drone_status_text drone.status)) ∷ []

unfoldable pub new_order_event : String → String → Order → Option Drone → Time → Event
unfolding new_event
new_order_event id event_type order drone occurred_at =
    new_event id event_type aggregate_order order.id
      (("order_id", text order.id)
        ∷ ("status", text (order_status_text order.status))
        ∷ ("user_id", text order.user_id)
        ∷ ("drone_id", nullable_text order.assigned_drone_id)
        ∷ ("occurred_at", instant occurred_at)
        ∷ drone_status_entry drone)
      occurred_at

unfoldable pub new_drone_event : String → String → Drone → Time → Event
unfolding new_event
new_drone_event id event_type drone occurred_at =
    new_event id event_type aggregate_drone drone.id
      (("drone_id", text drone.id)
        ∷ ("status", text (drone_status_text drone.status))
        ∷ ("occurred_at", instant occurred_at)
        ∷ [])
      occurred_at
