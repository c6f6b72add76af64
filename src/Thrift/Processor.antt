-- ===== src/Thrift/Processor.antt =====
-- `Process` of internal/transport/thriftapi/processor.go, with the table of its methods.
use drone_management_system.Transport.{unknown_method}
use drone_management_system.Exec.{State}
use drone_management_system.Integer.{ℤ}
use drone_management_system.Thrift.{
  oneway_message, call_message, MessageHead, MessageType, Got, value, failure, struct_type,
}
use drone_management_system.Thrift.Handlers.{
  protocol_failure, processed, Processing, Turn, write_exception, ThriftServer, handle_issue_token,
  handle_submit_order, handle_withdraw_order, handle_get_order, handle_reserve_job,
  handle_pickup_order, handle_deliver_order, handle_fail_order, handle_mark_broken,
  handle_heartbeat, handle_current_order, handle_admin_list_orders, handle_admin_update_order,
  handle_admin_list_drones, handle_admin_mark_drone_broken, handle_admin_mark_drone_fixed,
}
use drone_management_system.Base.{
  not, ◌==◌, false, true, if◌then◌else◌, Bool, Option, String, List, none, some, [], ◌∷◌,
}

pub data Method : Type 0 where
  issue_token submit_order withdraw_order get_order reserve_job pickup_order deliver_order
        fail_order mark_broken heartbeat current_order admin_list_orders admin_update_order
        admin_list_drones admin_mark_drone_broken admin_mark_drone_fixed :
      Method

-- The name under which `NewProcessor` enters a method.
abbrev pub wire_name : Method → String
wire_name Method.issue_token = "IssueToken"
wire_name Method.submit_order = "SubmitOrder"
wire_name Method.withdraw_order = "WithdrawOrder"
wire_name Method.get_order = "GetOrder"
wire_name Method.reserve_job = "ReserveJob"
wire_name Method.pickup_order = "PickupOrder"
wire_name Method.deliver_order = "DeliverOrder"
wire_name Method.fail_order = "FailOrder"
wire_name Method.mark_broken = "MarkBroken"
wire_name Method.heartbeat = "Heartbeat"
wire_name Method.current_order = "CurrentOrder"
wire_name Method.admin_list_orders = "ListOrders"
wire_name Method.admin_update_order = "UpdateOrder"
wire_name Method.admin_list_drones = "ListDrones"
wire_name Method.admin_mark_drone_broken = "MarkDroneBroken"
wire_name Method.admin_mark_drone_fixed = "MarkDroneFixed"

-- `p.processorMap`
abbrev pub processor_map : List Method
processor_map =
    Method.issue_token ∷ Method.submit_order ∷ Method.withdraw_order ∷ Method.get_order
    ∷ Method.reserve_job ∷ Method.pickup_order ∷ Method.deliver_order ∷ Method.fail_order
    ∷ Method.mark_broken ∷ Method.heartbeat ∷ Method.current_order ∷ Method.admin_list_orders
    ∷ Method.admin_update_order ∷ Method.admin_list_drones ∷ Method.admin_mark_drone_broken
    ∷ Method.admin_mark_drone_fixed ∷ []

abbrev pub lookup : String → List Method → Option Method
lookup name [] = none
lookup name (method ∷ methods) =
    if name == wire_name method then some method else lookup name methods

-- `messageType != thrift.CALL && messageType != thrift.ONEWAY` is false.
abbrev pub is_request : MessageType → Bool
is_request call_message = true
is_request oneway_message = true
is_request _ = false

abbrev pub rest_of : {I A : Type 0} → Got I A → I
rest_of (value a rest) = rest
rest_of (failure message rest) = rest

module _ {I O : Type 0} (srv : ThriftServer I O) where
  unfoldable pub handle : Method → ℤ → Turn I O
  unfolding handle_issue_token handle_submit_order handle_withdraw_order handle_get_order
      handle_reserve_job handle_pickup_order handle_deliver_order handle_fail_order
      handle_mark_broken handle_heartbeat handle_current_order handle_admin_list_orders
      handle_admin_update_order handle_admin_list_drones handle_admin_mark_drone_broken
      handle_admin_mark_drone_fixed
  handle Method.issue_token = handle_issue_token srv
  handle Method.submit_order = handle_submit_order srv
  handle Method.withdraw_order = handle_withdraw_order srv
  handle Method.get_order = handle_get_order srv
  handle Method.reserve_job = handle_reserve_job srv
  handle Method.pickup_order = handle_pickup_order srv
  handle Method.deliver_order = handle_deliver_order srv
  handle Method.fail_order = handle_fail_order srv
  handle Method.mark_broken = handle_mark_broken srv
  handle Method.heartbeat = handle_heartbeat srv
  handle Method.current_order = handle_current_order srv
  handle Method.admin_list_orders = handle_admin_list_orders srv
  handle Method.admin_update_order = handle_admin_update_order srv
  handle Method.admin_list_drones = handle_admin_list_drones srv
  handle Method.admin_mark_drone_broken = handle_admin_mark_drone_broken srv
  handle Method.admin_mark_drone_fixed = handle_admin_mark_drone_fixed srv

  -- The skipping of the arguments of a method that is unknown.
  abbrev pub skipped : I → I
  skipped i = rest_of (srv.protocol.read_message_end (rest_of (srv.protocol.skip struct_type i)))

  abbrev pub dispatched : String → ℤ → Option Method → Turn I O
  dispatched name seq_id none i =
      write_exception srv name seq_id (record { kind = unknown_method; message = "unknown method" })
        (skipped i)
  dispatched name seq_id (some method) i = handle method seq_id i

  abbrev pub begun : Got I MessageHead → O → State → Processing I O
  begun (failure message rest) o s = processed false (some (protocol_failure message)) rest o s
  begun (value head rest) o s =
      if not (is_request head.message_type)
      then write_exception srv head.name head.seq_id (protocol_failure "invalid message type") rest
          o s
      else dispatched head.name head.seq_id (lookup head.name processor_map) rest o s

  unfoldable pub process : Turn I O
  unfolding handle write_exception
  process i o s = begun (srv.protocol.read_message_begin i) o s
