-- ===== src/Thrift/Nesting.antt =====
-- The order of the calls that the writers of internal/transport/thriftapi/processor.go make.
use drone_management_system.Eta.{DroneStatusView, OrderView}
use drone_management_system.Exec.{⊤}
use drone_management_system.Domain.{
  drone_status_text, order_status_text, Order, Drone, Location, Time,
}
use drone_management_system.Thrift.{TType}
use drone_management_system.Integer.{ℤ}
use mathlib.Core.List.{append_assoc}
use drone_management_system.Thrift.{string_type, i64_type, double_type, struct_type}
use drone_management_system.Thrift.Writers.{
  time_field, location_field_of, order_fields, drone_status_fields, order_view_fields, drone_fields,
  location_fields, write_order_view, write_order, i64_field, struct, field, write_drone,
  write_drone_status, concat, optional, string_field, write_location, Write, message_begin,
  message_end, struct_begin, struct_end, field_begin, field_end, field_stop, list_begin, list_end,
  string_value, i64_value, double_value, exception_value, flush,
}
use drone_management_system.Base.{
  ◌⊎◌, inl, inr, ◌∙◌, ap, ℕ, String, Option, none, some, List, [], ◌∷◌, ◌++◌, ◌≡◌, refl,
}

-- What is open while a message is written.
pub data Bracket : Type 0 where
  in_message in_struct in_stopped in_field in_list : Bracket

-- A call in its place: a field and a stop stand in a struct, which is ended behind its stop only, a
-- list and a value in a field, a struct in a message, a field or a list, and what is begun last is
-- ended first. Out of place is none.
abbrev pub placed : Write → List Bracket → Option (List Bracket)
placed (message_begin name t seq_id) [] = some (in_message ∷ [])
placed message_end (in_message ∷ outer) = some outer
placed (struct_begin name) (in_message ∷ outer) = some (in_struct ∷ in_message ∷ outer)
placed (struct_begin name) (in_field ∷ outer) = some (in_struct ∷ in_field ∷ outer)
placed (struct_begin name) (in_list ∷ outer) = some (in_struct ∷ in_list ∷ outer)
placed struct_end (in_stopped ∷ outer) = some outer
placed (field_begin name t id) (in_struct ∷ outer) = some (in_field ∷ in_struct ∷ outer)
placed field_end (in_field ∷ outer) = some outer
placed field_stop (in_struct ∷ outer) = some (in_stopped ∷ outer)
placed (list_begin t size) (in_field ∷ outer) = some (in_list ∷ in_field ∷ outer)
placed list_end (in_list ∷ outer) = some outer
placed (string_value text) (in_field ∷ outer) = some (in_field ∷ outer)
placed (i64_value n) (in_field ∷ outer) = some (in_field ∷ outer)
placed (double_value x) (in_field ∷ outer) = some (in_field ∷ outer)
placed (exception_value e) (in_message ∷ outer) = some (in_message ∷ outer)
placed flush [] = some []
placed _ _ = none

abbrev pub go_on_placed :
    (List Bracket → Option (List Bracket)) → Option (List Bracket) → Option (List Bracket)
go_on_placed next none = none
go_on_placed next (some stack) = next stack

-- What is open after a run of calls.
abbrev pub nested : List Write → List Bracket → Option (List Bracket)
nested [] stack = some stack
nested (call ∷ calls) stack = go_on_placed (λ rest. nested calls rest) (placed call stack)

-- Calls that may stand where `b` is the last that is open, and leave it so.
abbrev pub Keeps : Bracket → List Write → Type 0
Keeps b calls =
    (rest : List Write) (stack : List Bracket)
    → nested (calls ++ rest) (b ∷ stack) ≡ nested rest (b ∷ stack)

-- A call that opens a bracket, calls that keep it, and the call that closes it.
pub Keeps-between :
    (b inner : Bracket) (begin end : Write) (body : List Write)
    → ((stack : List Bracket) → placed begin (b ∷ stack) ≡ some (inner ∷ b ∷ stack))
    → ((stack : List Bracket) → placed end (inner ∷ stack) ≡ some stack)
    → Keeps inner body
    → Keeps b (begin ∷ (body ++ (end ∷ [])))
Keeps-between b inner begin end body opens closes keeps rest stack =
    ap (go_on_placed (nested ((body ++ (end ∷ [])) ++ rest))) (opens stack)
    ∙ ap (λ calls. nested calls (inner ∷ b ∷ stack)) (append_assoc body (end ∷ []) rest)
    ∙ keeps (end ∷ rest) (b ∷ stack)
    ∙ ap (go_on_placed (nested rest)) (closes (b ∷ stack))

-- Calls that cannot stand where `b` is the last that is open.
abbrev pub Fails : Bracket → List Write → Type 0
Fails b calls =
    (rest : List Write) (stack : List Bracket) → nested (calls ++ rest) (b ∷ stack) ≡ none

-- Calls that leave `b` open or cannot stand there.
abbrev pub Goes : Bracket → List Write → Type 0
Goes b calls = Keeps b calls ⊎ Fails b calls

pub Fails-append : (b : Bracket) (xs ys : List Write) → Fails b xs → Fails b (xs ++ ys)
Fails-append b xs ys h rest stack =
    ap (λ calls. nested calls (b ∷ stack)) (append_assoc xs ys rest) ∙ h (ys ++ rest) stack

Fails-behind : (b : Bracket) (xs ys : List Write) → Keeps b xs → Fails b ys → Fails b (xs ++ ys)
Fails-behind b xs ys keeps h rest stack =
    ap (λ calls. nested calls (b ∷ stack)) (append_assoc xs ys rest)
    ∙ keeps (ys ++ rest) stack
    ∙ h rest stack

-- A call that opens a bracket in which the calls behind it cannot stand.
pub Fails-within :
    (b inner : Bracket) (begin : Write) (body : List Write)
    → ((stack : List Bracket) → placed begin (b ∷ stack) ≡ some (inner ∷ b ∷ stack))
    → Fails inner body
    → Fails b (begin ∷ body)
Fails-within b inner begin body opens h rest stack =
    ap (go_on_placed (nested (body ++ rest))) (opens stack) ∙ h rest (b ∷ stack)

abbrev pub AllGo : List (List Write) → Type 0
AllGo [] = ⊤
AllGo (calls ∷ more) = Goes in_struct calls × AllGo more

-- A struct that is ended without a stop.
ended-Fails :
    (fields : List (List Write))
    → AllGo fields
    → Fails in_struct (concat fields ++ (struct_end ∷ []))
ended-Fails [] goes rest stack = refl
ended-Fails (calls ∷ more) (inl keeps, goes) rest stack =
    ap (λ c. nested (c ++ rest) (in_struct ∷ stack))
      (append_assoc calls (concat more) (struct_end ∷ []))
    ∙ Fails-behind in_struct calls (concat more ++ (struct_end ∷ [])) keeps (ended-Fails more goes)
        rest stack
ended-Fails (calls ∷ more) (inr fails, goes) rest stack =
    ap (λ c. nested (c ++ rest) (in_struct ∷ stack))
      (append_assoc calls (concat more) (struct_end ∷ []))
    ∙ Fails-append in_struct calls (concat more ++ (struct_end ∷ [])) fails rest stack

Goes-field :
    (name : String) (t : TType) (id : ℕ) (body : List Write)
    → Goes in_field body
    → Goes in_struct (field name t id body)
Goes-field name t id body (inl keeps) = inl (
    Keeps-between in_struct in_field (field_begin name t id) field_end body (λ stack. refl)
      (λ stack. refl) keeps)
Goes-field name t id body (inr fails) = inr (
    Fails-within in_struct in_field (field_begin name t id) (body ++ (field_end ∷ []))
      (λ stack. refl) (Fails-append in_field body (field_end ∷ []) fails))

Goes-string_field : (name : String) (id : ℕ) (x : String) → Goes in_struct (string_field name id x)
Goes-string_field name id x =
    Goes-field name string_type id (string_value x ∷ []) (inl (λ rest stack. refl))

Goes-i64_field : (name : String) (id : ℕ) (x : ℤ) → Goes in_struct (i64_field name id x)
Goes-i64_field name id x = Goes-field name i64_type id (i64_value x ∷ []) (inl (λ rest stack. refl))

Goes-optional :
    {A : Type 0} (f : A → List Write) (o : Option A)
    → ((a : A) → Goes in_struct (f a))
    → Goes in_struct (optional f o)
Goes-optional f none goes = inl (λ rest stack. refl)
Goes-optional f (some a) goes = goes a

-- Calls that cannot be a value, in a field or in a list.
pub record IsNoValue (calls : List Write) : Type 0 where
  pub of_field : Fails in_field calls
  pub of_list : Fails in_list calls

struct-IsNoValue :
    (name : String) (fields : List (List Write)) → AllGo fields → IsNoValue (struct name fields)
struct-IsNoValue name fields goes =
    let inner = ended-Fails fields goes in
    record {
      of_field =
          Fails-within in_field in_struct (struct_begin name) (concat fields ++ (struct_end ∷ []))
            (λ stack. refl) inner;
      of_list =
          Fails-within in_list in_struct (struct_begin name) (concat fields ++ (struct_end ∷ []))
            (λ stack. refl) inner;
    }

pub write_location-IsNoValue : (loc : Location) → IsNoValue (write_location loc)
unfolding write_location
write_location-IsNoValue loc = struct-IsNoValue "Location" (location_fields loc) (
  Goes-field "lat" double_type 1 (double_value loc.lat ∷ []) (inl (λ rest stack. refl)),
  (Goes-field "lng" double_type 2 (double_value loc.lng ∷ []) (inl (λ rest stack. refl)), tt),
)

module _ (unix : Time → ℤ) where
  Goes-location :
      (name : String) (id : ℕ) (loc : Location)
      → Goes in_struct (field name struct_type id (write_location loc))
  Goes-location name id loc =
      Goes-field name struct_type id (write_location loc)
        (inr (write_location-IsNoValue loc).of_field)

  pub write_order-IsNoValue : (order : Order) → IsNoValue (write_order unix order)
  unfolding write_order
  write_order-IsNoValue order = struct-IsNoValue "Order" (order_fields unix order) (
    Goes-string_field "id" 1 order.id,
    (
      Goes-string_field "userId" 2 order.user_id,
      (
        Goes-location "origin" 3 order.origin,
        (
          Goes-location "destination" 4 order.destination,
          (
            Goes-string_field "status" 5 (order_status_text order.status),
            (
              Goes-optional (string_field "assignedDroneId" 6) order.assigned_drone_id
                  (Goes-string_field "assignedDroneId" 6),
              (
                Goes-optional (location_field_of unix "handoffOrigin" 7) order.handoff_origin
                    (Goes-location "handoffOrigin" 7),
                (
                  Goes-i64_field "createdAt" 8 (unix order.created_at),
                  (
                    Goes-i64_field "updatedAt" 9 (unix order.updated_at),
                    (
                      Goes-optional (time_field unix "reservedAt" 10) order.reserved_at
                          (λ t. Goes-i64_field "reservedAt" 10 (unix t)),
                      (
                        Goes-optional (time_field unix "pickedUpAt" 11) order.picked_up_at
                            (λ t. Goes-i64_field "pickedUpAt" 11 (unix t)),
                        (
                          Goes-optional (time_field unix "deliveredAt" 12) order.delivered_at
                              (λ t. Goes-i64_field "deliveredAt" 12 (unix t)),
                          (
                            Goes-optional (time_field unix "failedAt" 13) order.failed_at
                                (λ t. Goes-i64_field "failedAt" 13 (unix t)),
                            (
                              Goes-optional (string_field "failureReason" 14) order.failure_reason
                                  (Goes-string_field "failureReason" 14),
                              tt,
                            ),
                          ),
                        ),
                      ),
                    ),
                  ),
                ),
              ),
            ),
          ),
        ),
      ),
    ),
  )

  pub write_order_view-IsNoValue : (view : OrderView) → IsNoValue (write_order_view unix view)
  unfolding write_order_view
  write_order_view-IsNoValue view = struct-IsNoValue "OrderView" (order_view_fields unix view) (
    Goes-field "order" struct_type 1 (write_order unix view.order)
        (inr (write_order-IsNoValue view.order).of_field),
    (
      Goes-optional (location_field_of unix "currentLocation" 2) view.current_location
          (Goes-location "currentLocation" 2),
      (
        Goes-optional (i64_field "etaSeconds" 3) view.eta_seconds (Goes-i64_field "etaSeconds" 3),
        tt,
      ),
    ),
  )

  pub write_drone-IsNoValue : (drone : Drone) → IsNoValue (write_drone unix drone)
  unfolding write_drone
  write_drone-IsNoValue drone = struct-IsNoValue "Drone" (drone_fields unix drone) (
    Goes-string_field "id" 1 drone.id,
    (
      Goes-string_field "status" 2 (drone_status_text drone.status),
      (
        Goes-optional (location_field_of unix "lastLocation" 3) drone.last_location
            (Goes-location "lastLocation" 3),
        (
          Goes-optional (time_field unix "lastHeartbeatAt" 4) drone.last_heartbeat_at
              (λ t. Goes-i64_field "lastHeartbeatAt" 4 (unix t)),
          (
            Goes-optional (string_field "currentOrderId" 5) drone.current_order_id
                (Goes-string_field "currentOrderId" 5),
            (
              Goes-i64_field "createdAt" 6 (unix drone.created_at),
              (Goes-i64_field "updatedAt" 7 (unix drone.updated_at), tt),
            ),
          ),
        ),
      ),
    ),
  )

  pub write_drone_status-IsNoValue :
      (view : DroneStatusView) → IsNoValue (write_drone_status unix view)
  unfolding write_drone_status
  write_drone_status-IsNoValue view =
      struct-IsNoValue "DroneStatus" (drone_status_fields unix view) (
        Goes-field "drone" struct_type 1 (write_drone unix view.drone)
            (inr (write_drone-IsNoValue view.drone).of_field),
        (
          Goes-optional (λ order. field "currentOrder" struct_type 2 (write_order_view unix order))
              view.current_order
              (λ order.
                Goes-field "currentOrder" struct_type 2 (write_order_view unix order)
                  (inr (write_order_view-IsNoValue order).of_field)),
          tt,
        ),
      )
