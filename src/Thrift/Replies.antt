-- ===== src/Thrift/Replies.antt =====
-- The replies of internal/transport/thriftapi/processor.go, as calls of the protocol.
use drone_management_system.Thrift.Handlers.{success, reply_calls}
use drone_management_system.Eta.{DroneStatusView, OrderView}
use drone_management_system.Thrift.Nesting.{
  write_drone_status-IsNoValue, write_drone-IsNoValue, Fails-append, Fails-within, Fails, IsNoValue,
  write_order_view-IsNoValue, write_order-IsNoValue, in_field, in_list, nested,
}
use drone_management_system.Integer.{ℤ}
use drone_management_system.Domain.{Drone, Order, Time}
use drone_management_system.Thrift.{TType, struct_type, list_type}
use drone_management_system.Thrift.Writers.{
  write_list, concat, write_drone_status, write_drone, write_order_view, Write, write_order,
  write_drone_list, write_token_response, write_order_view_list, field_begin, list_begin, list_end,
}
use drone_management_system.Base.{
  ◌++◌, none, Bool, true, false, if◌then◌else◌, length, map, String, List, some, [], ◌∷◌, ◌≡◌, refl,
}

-- What a method replies with.
pub data Answer : Type 0 where
  token_answer : (token : String) (exp : Time) → Answer
  order_answer : Order → Answer
  order_view_answer : OrderView → Answer
  drone_answer : Drone → Answer
  drone_status_answer : DroneStatusView → Answer
  order_views_answer : List OrderView → Answer
  drones_answer : List Drone → Answer

abbrev pub answer_calls : (Time → ℤ) → Answer → List Write
answer_calls unix (token_answer token exp) =
    field_begin "success" struct_type 0 ∷ write_token_response unix token exp
answer_calls unix (order_answer order) = success struct_type (write_order unix) order
answer_calls unix (order_view_answer view) = success struct_type (write_order_view unix) view
answer_calls unix (drone_answer drone) = success struct_type (write_drone unix) drone
answer_calls unix (drone_status_answer view) = success struct_type (write_drone_status unix) view
answer_calls unix (order_views_answer views) = success list_type (write_order_view_list unix) views
answer_calls unix (drones_answer drones) = success list_type (write_drone_list unix) drones

-- The replies that hold no struct which is ended without a stop: a token, and an empty list.
abbrev pub is_well_formed : Answer → Bool
is_well_formed (token_answer token exp) = true
is_well_formed (order_answer order) = false
is_well_formed (order_view_answer view) = false
is_well_formed (drone_answer drone) = false
is_well_formed (drone_status_answer view) = false
is_well_formed (order_views_answer []) = true
is_well_formed (order_views_answer (view ∷ views)) = false
is_well_formed (drones_answer []) = true
is_well_formed (drones_answer (drone ∷ drones)) = false

-- A list with an element that cannot stand in it.
Fails-write_list :
    {A : Type 0} (unix : Time → ℤ) (f : A → List Write) (x : A) (xs : List A)
    → IsNoValue (f x)
    → Fails in_field (write_list unix f (x ∷ xs))
Fails-write_list unix f x xs h =
    Fails-within in_field in_list (list_begin struct_type (length (x ∷ xs)))
      (concat (map f (x ∷ xs)) ++ (list_end ∷ [])) (λ stack. refl)
      (Fails-append in_list (concat (map f (x ∷ xs))) (list_end ∷ [])
        (Fails-append in_list (f x) (concat (map f xs)) h.of_list))

-- A reply with calls in its field that cannot stand there.
reply_calls-nested :
    (method : String) (seq_id : ℤ) (t : TType) (calls : List Write)
    → Fails in_field calls
    → nested (reply_calls method seq_id (field_begin "success" t 0 ∷ calls)) [] ≡ none
reply_calls-nested method seq_id t calls fails = fails _ _

-- The calls of a reply with a token or an empty list begin and end a message, its structs, fields
-- and lists each in its place, every struct behind a stop, and leave nothing open. The calls of
-- any other reply do not: they end a struct without a stop.
pub answer_calls-nested :
    (unix : Time → ℤ) (method : String) (seq_id : ℤ) (answer : Answer)
    → nested (reply_calls method seq_id (answer_calls unix answer)) []
      ≡ (if is_well_formed answer then some [] else none)
unfolding write_order_view_list write_drone_list write_token_response
answer_calls-nested unix method seq_id (token_answer token exp) = refl
answer_calls-nested unix method seq_id (order_answer order) =
    reply_calls-nested method seq_id struct_type (write_order unix order)
      (write_order-IsNoValue unix order).of_field
answer_calls-nested unix method seq_id (order_view_answer view) =
    reply_calls-nested method seq_id struct_type (write_order_view unix view)
      (write_order_view-IsNoValue unix view).of_field
answer_calls-nested unix method seq_id (drone_answer drone) =
    reply_calls-nested method seq_id struct_type (write_drone unix drone)
      (write_drone-IsNoValue unix drone).of_field
answer_calls-nested unix method seq_id (drone_status_answer view) =
    reply_calls-nested method seq_id struct_type (write_drone_status unix view)
      (write_drone_status-IsNoValue unix view).of_field
answer_calls-nested unix method seq_id (order_views_answer []) = refl
answer_calls-nested unix method seq_id (order_views_answer (view ∷ views)) =
    reply_calls-nested method seq_id list_type (write_order_view_list unix (view ∷ views)) (
      Fails-write_list unix (write_order_view unix) view views
        (write_order_view-IsNoValue unix view))
answer_calls-nested unix method seq_id (drones_answer []) = refl
answer_calls-nested unix method seq_id (drones_answer (drone ∷ drones)) =
    reply_calls-nested method seq_id list_type (write_drone_list unix (drone ∷ drones))
      (Fails-write_list unix (write_drone unix) drone drones (write_drone-IsNoValue unix drone))
