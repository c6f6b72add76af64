-- ===== src/Thrift/Handlers.antt =====
-- The handlers of internal/transport/thriftapi/processor.go, and `Process`.
use drone_management_system.Float64.{Float64}
use drone_management_system.Eta.{OrderView, FloatOps}
use drone_management_system.Grpc.{status_filter}
use drone_management_system.Transport.{map_error, protocol_error, internal_error, ThriftException}
use drone_management_system.Domain.{role_drone, role_admin, role_end_user, Time, validate_role}
use drone_management_system.Auth.{Authenticator, Jwt, issue_token, Claims, parse_token}
use drone_management_system.Thrift.Readers.{
  read_auth_request, read_drone_id_request, read_fail_order_request, read_heartbeat_request,
  read_order_id_request, read_token_request, read_list_orders_request, read_update_order_request,
  read_submit_order_request,
}
use drone_management_system.Integer.{ℤ}
use drone_management_system.Thrift.{
  Read, TType, Protocol, got, broke, out_of_fuel, struct_type, list_type, reply_message,
  exception_message,
}
use drone_management_system.Thrift.Writers.{
  write_token_response, write_each, write_all, write_order_view_list, write_order, write_order_view,
  write_drone, write_drone_list, write_drone_status, Sink, Write, struct_begin, struct_end,
  field_begin, field_end, field_stop, message_begin, message_end, exception_value, flush,
}
use Prim.Native.String
use drone_management_system.Exec.{Env, Exec, Result, State, ok, err}
use drone_management_system.Service
use drone_management_system.Views
use drone_management_system.Base.{
  ℕ, ◌||◌, [], ◌==◌, ◌++◌, false, ◌∷◌, not, if◌then◌else◌, true, List, Bool, Option, String, none,
  some,
}

-- What the processor is built from, and the libraries that it calls: the protocols that it reads from
-- and writes to, and the fuel of the readers' loops.
pub record ThriftServer (I O : Type 0) : Type 0 where
  pub protocol : Protocol I
  pub sink : Sink O
  pub jwt : Jwt
  pub auth : Authenticator
  pub now : Time
  pub env : Env
  pub ops : FloatOps
  pub speed : Float64
  pub sort_slice : (OrderView → OrderView → Bool) → List OrderView → List OrderView
  pub unix : Time → ℤ
  pub fuel : ℕ

-- What a handler returns, with what it leaves of the protocols and the store.
pub data Processing (I O : Type 0) : Type 0 where
  processed :
      (success : Bool) (exception : Option ThriftException) (rest : I) (out : O) (s : State)
      → Processing I O
  unfinished : Processing I O

abbrev pub Turn : Type 0 → Type 0 → Type 0
Turn I O = I → O → State → Processing I O

abbrev pub protocol_failure : String → ThriftException
protocol_failure message = record { kind = protocol_error; message = message }

pub data Grant : Type 0 where
  granted : Claims → Grant
  denied : ThriftException → Grant

abbrev pub grant_role : String → Option Claims → Grant
grant_role role none = denied (protocol_failure "unauthorized")
grant_role role (some claims) =
    if not (claims.role == role) then denied (protocol_failure "forbidden") else granted claims

abbrev pub grant_any : Option Claims → Grant
grant_any none = denied (protocol_failure "unauthorized")
grant_any (some claims) = granted claims

abbrev pub reply_result : {I O : Type 0} → O × Option String → I → State → Processing I O
reply_result (out, none) i s = processed true none i out s
reply_result (out, some message) i s = processed false (some (protocol_failure message)) i out s

-- The calls of a reply around those that write its value.
abbrev pub reply_calls : String → ℤ → List Write → List Write
reply_calls method seq_id body =
    message_begin method reply_message seq_id
    ∷ struct_begin (String.◌++◌ method "_result")
    ∷ (body ++ (field_end ∷ field_stop ∷ struct_end ∷ message_end ∷ flush ∷ []))

-- `p.writeReply`, with the field of the value.
abbrev pub success : {A : Type 0} → TType → (A → List Write) → A → List Write
success t write a = field_begin "success" t 0 ∷ write a

module _ {I O : Type 0} (srv : ThriftServer I O) where
  unfoldable pub authorize : String → String → Grant
  unfolding parse_token
  authorize token role = grant_role role (parse_token srv.jwt srv.auth token srv.now)

  unfoldable pub authorize_any : String → Grant
  unfolding parse_token
  authorize_any token = grant_any (parse_token srv.jwt srv.auth token srv.now)

  unfoldable pub write_reply : String → ℤ → List Write → Turn I O
  write_reply method seq_id body i o s =
      reply_result (write_all srv.sink (reply_calls method seq_id body) o) i s

  unfoldable pub write_exception : String → ℤ → ThriftException → Turn I O
  write_exception method seq_id e i o s =
      processed false (some e) i
        (write_each srv.sink
          (message_begin method exception_message seq_id
            ∷ exception_value e
            ∷ message_end
            ∷ flush
            ∷ [])
          o)
        s

  -- The arguments of a method, or the exception of their reading.
  abbrev pub with_args : {A : Type 0} → String → ℤ → Read I A → (A → Turn I O) → Turn I O
  with_args method seq_id read k i o s = elim (read i) [
    | got req rest ↦ k req rest o s
    | broke message rest ↦ write_exception method seq_id (protocol_failure message) rest o s
    | out_of_fuel ↦ unfinished
  ]

  abbrev pub with_claims : String → ℤ → Grant → (Claims → Turn I O) → Turn I O
  with_claims method seq_id (denied e) k = write_exception method seq_id e
  with_claims method seq_id (granted claims) k = k claims

  -- The result of the service, or the exception of its error.
  abbrev pub concluded :
      {A : Type 0} → String → ℤ → (A → List Write) → Result A × State → I → O → Processing I O
  concluded method seq_id write (ok a, s) i o = write_reply method seq_id (write a) i o s
  concluded method seq_id write (err e, s) i o = write_exception method seq_id (map_error e) i o s

  abbrev pub served : {A : Type 0} → String → ℤ → (A → List Write) → Exec A → Turn I O
  served method seq_id write run i o s = concluded method seq_id write (run s) i o

  abbrev pub token_reply_of : ℤ → Option (String × Time) → Turn I O
  token_reply_of seq_id none =
      write_exception "IssueToken" seq_id
        (record { kind = internal_error; message = "token error" })
  token_reply_of seq_id (some (token, exp)) =
      write_reply "IssueToken" seq_id
        (field_begin "success" struct_type 0 ∷ write_token_response srv.unix token exp)

  unfoldable pub handle_issue_token : ℤ → Turn I O
  unfolding read_token_request validate_role issue_token write_exception write_reply
      write_token_response
  handle_issue_token seq_id =
      with_args "IssueToken" seq_id (read_token_request srv.protocol srv.fuel) λ req.
        if req.name == "" || not (validate_role req.role)
        then write_exception "IssueToken" seq_id (protocol_failure "invalid request")
        else token_reply_of seq_id (issue_token srv.jwt srv.auth req.name req.role srv.now)

  unfoldable pub handle_submit_order : ℤ → Turn I O
  unfolding read_submit_order_request authorize write_exception write_reply write_order
  handle_submit_order seq_id =
      with_args "SubmitOrder" seq_id (read_submit_order_request srv.protocol srv.fuel) λ req.
        with_claims "SubmitOrder" seq_id (authorize req.auth_token role_end_user) λ claims.
          served "SubmitOrder" seq_id (success struct_type (write_order srv.unix))
            (Service.submit_order srv.env claims.subject req.origin req.destination)

  unfoldable pub handle_withdraw_order : ℤ → Turn I O
  unfolding read_order_id_request authorize write_exception write_reply write_order
  handle_withdraw_order seq_id =
      with_args "WithdrawOrder" seq_id (read_order_id_request srv.protocol srv.fuel) λ req.
        with_claims "WithdrawOrder" seq_id (authorize req.auth_token role_end_user) λ claims.
          served "WithdrawOrder" seq_id (success struct_type (write_order srv.unix))
            (Service.withdraw_order srv.env claims.subject req.order_id)

  unfoldable pub handle_get_order : ℤ → Turn I O
  unfolding read_order_id_request authorize_any write_exception write_reply write_order_view
  handle_get_order seq_id =
      with_args "GetOrder" seq_id (read_order_id_request srv.protocol srv.fuel) λ req.
        with_claims "GetOrder" seq_id (authorize_any req.auth_token) λ claims.
          served "GetOrder" seq_id (success struct_type (write_order_view srv.unix))
            (Views.get_order_view srv.env srv.ops srv.speed claims.subject claims.role req.order_id)

  unfoldable pub handle_reserve_job : ℤ → Turn I O
  unfolding read_auth_request authorize write_exception write_reply write_order
  handle_reserve_job seq_id =
      with_args "ReserveJob" seq_id (read_auth_request srv.protocol srv.fuel) λ req.
        with_claims "ReserveJob" seq_id (authorize req role_drone) λ claims.
          served "ReserveJob" seq_id (success struct_type (write_order srv.unix))
            (Service.drone_reserve_job srv.env claims.subject)

  unfoldable pub handle_pickup_order : ℤ → Turn I O
  unfolding read_order_id_request authorize write_exception write_reply write_order
  handle_pickup_order seq_id =
      with_args "PickupOrder" seq_id (read_order_id_request srv.protocol srv.fuel) λ req.
        with_claims "PickupOrder" seq_id (authorize req.auth_token role_drone) λ claims.
          served "PickupOrder" seq_id (success struct_type (write_order srv.unix))
            (Service.drone_pickup srv.env claims.subject req.order_id)

  unfoldable pub handle_deliver_order : ℤ → Turn I O
  unfolding read_order_id_request authorize write_exception write_reply write_order
  handle_deliver_order seq_id =
      with_args "DeliverOrder" seq_id (read_order_id_request srv.protocol srv.fuel) λ req.
        with_claims "DeliverOrder" seq_id (authorize req.auth_token role_drone) λ claims.
          served "DeliverOrder" seq_id (success struct_type (write_order srv.unix))
            (Service.drone_deliver srv.env claims.subject req.order_id)

  unfoldable pub handle_fail_order : ℤ → Turn I O
  unfolding read_fail_order_request authorize write_exception write_reply write_order
  handle_fail_order seq_id =
      with_args "FailOrder" seq_id (read_fail_order_request srv.protocol srv.fuel) λ req.
        with_claims "FailOrder" seq_id (authorize req.auth_token role_drone) λ claims.
          served "FailOrder" seq_id (success struct_type (write_order srv.unix))
            (Service.drone_fail srv.env claims.subject req.order_id req.reason)

  unfoldable pub handle_mark_broken : ℤ → Turn I O
  unfolding read_auth_request authorize write_exception write_reply write_drone
  handle_mark_broken seq_id =
      with_args "MarkBroken" seq_id (read_auth_request srv.protocol srv.fuel) λ req.
        with_claims "MarkBroken" seq_id (authorize req role_drone) λ claims.
          served "MarkBroken" seq_id (success struct_type (write_drone srv.unix))
            (Service.drone_mark_broken srv.env claims.subject)

  unfoldable pub handle_heartbeat : ℤ → Turn I O
  unfolding read_heartbeat_request authorize write_exception write_reply write_drone_status
  handle_heartbeat seq_id =
      with_args "Heartbeat" seq_id (read_heartbeat_request srv.protocol srv.fuel) λ req.
        with_claims "Heartbeat" seq_id (authorize req.auth_token role_drone) λ claims.
          served "Heartbeat" seq_id (success struct_type (write_drone_status srv.unix))
            (Views.drone_heartbeat srv.env srv.ops srv.speed claims.subject req.location)

  unfoldable pub handle_current_order : ℤ → Turn I O
  unfolding read_auth_request authorize write_exception write_reply write_order_view
  handle_current_order seq_id =
      with_args "CurrentOrder" seq_id (read_auth_request srv.protocol srv.fuel) λ req.
        with_claims "CurrentOrder" seq_id (authorize req role_drone) λ claims.
          served "CurrentOrder" seq_id (success struct_type (write_order_view srv.unix))
            (Views.drone_current_order srv.env srv.ops srv.speed claims.subject)

  unfoldable pub handle_admin_list_orders : ℤ → Turn I O
  unfolding read_list_orders_request authorize write_exception write_reply write_order_view_list
  handle_admin_list_orders seq_id =
      with_args "ListOrders" seq_id (read_list_orders_request srv.protocol srv.fuel) λ req.
        with_claims "ListOrders" seq_id (authorize req.auth_token role_admin) λ claims.
          served "ListOrders" seq_id (success list_type (write_order_view_list srv.unix)) (
            Views.admin_list_orders srv.env srv.ops srv.speed srv.sort_slice (record {
              status = status_filter req.status;
              limit = req.limit;
              offset = req.offset;
            }))

  unfoldable pub handle_admin_update_order : ℤ → Turn I O
  unfolding read_update_order_request authorize write_exception write_reply write_order
  handle_admin_update_order seq_id =
      with_args "UpdateOrder" seq_id (read_update_order_request srv.protocol srv.fuel) λ req.
        with_claims "UpdateOrder" seq_id (authorize req.auth_token role_admin) λ claims.
          served "UpdateOrder" seq_id (success struct_type (write_order srv.unix))
            (Service.admin_update_order srv.env req.order_id req.origin req.destination)

  unfoldable pub handle_admin_list_drones : ℤ → Turn I O
  unfolding read_auth_request authorize write_exception write_reply write_drone_list
  handle_admin_list_drones seq_id =
      with_args "ListDrones" seq_id (read_auth_request srv.protocol srv.fuel) λ req.
        with_claims "ListDrones" seq_id (authorize req role_admin) λ claims.
          served "ListDrones" seq_id (success list_type (write_drone_list srv.unix))
            (Views.admin_list_drones srv.env srv.ops srv.speed)

  unfoldable pub handle_admin_mark_drone_broken : ℤ → Turn I O
  unfolding read_drone_id_request authorize write_exception write_reply write_drone
  handle_admin_mark_drone_broken seq_id =
      with_args "MarkDroneBroken" seq_id (read_drone_id_request srv.protocol srv.fuel) λ req.
        with_claims "MarkDroneBroken" seq_id (authorize req.auth_token role_admin) λ claims.
          served "MarkDroneBroken" seq_id (success struct_type (write_drone srv.unix))
            (Service.admin_mark_drone_broken srv.env req.order_id)

  unfoldable pub handle_admin_mark_drone_fixed : ℤ → Turn I O
  unfolding read_drone_id_request authorize write_exception write_reply write_drone
  handle_admin_mark_drone_fixed seq_id =
      with_args "MarkDroneFixed" seq_id (read_drone_id_request srv.protocol srv.fuel) λ req.
        with_claims "MarkDroneFixed" seq_id (authorize req.auth_token role_admin) λ claims.
          served "MarkDroneFixed" seq_id (success struct_type (write_drone srv.unix))
            (Service.admin_mark_drone_fixed srv.env req.order_id)
