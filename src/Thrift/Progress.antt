-- ===== src/Thrift/Progress.antt =====
-- When `Process` of internal/transport/thriftapi/processor.go comes to a result.
use drone_management_system.Grpc.{status_filter}
use drone_management_system.Auth.{issue_token, Claims}
use drone_management_system.Thrift.Readers.{
  read_update_order_request, read_list_orders_request, read_heartbeat_request,
  read_fail_order_request, read_auth_request, read_order_id_request, read_token_request,
  read_submit_order_request, TokenArgs, read_drone_id_request,
}
use drone_management_system.Domain.{role_admin, role_drone, validate_role, role_end_user, Time}
use drone_management_system.Thrift.Processor.{
  is_request, begun, processor_map, lookup, skipped, dispatched, Method, handle, process,
}
use drone_management_system.Integer.{ℤ}
use drone_management_system.Exec.{Exec, Result, State, ok, err}
use drone_management_system.Service
use drone_management_system.Views
use drone_management_system.Transport.{map_error, ThriftException, internal_error, unknown_method}
use drone_management_system.Thrift.{
  Got, MessageHead, Outcome, Read, value, failure, got, broke, out_of_fuel, struct_type, list_type,
}
use drone_management_system.Thrift.Writers.{
  write_drone_list, write_order_view_list, write_drone_status, write_drone, write_order_view,
  write_order, write_all, write_token_response, Write, field_begin,
}
use drone_management_system.Thrift.Handlers.{
  authorize_any, success, authorize, with_claims, protocol_failure, concluded, reply_calls,
  with_args, Turn, Grant, write_reply, write_exception, Processing, ThriftServer,
  handle_issue_token, processed, unfinished, served, token_reply_of, reply_result, granted, denied,
}
use drone_management_system.Thrift.Termination.{Leaves, Ends, IsShrinking}
use drone_management_system.Thrift.Termination.Requests.{
  read_list_orders_request-Ends, read_heartbeat_request-Ends, read_fail_order_request-Ends,
  read_auth_request-Ends, read_token_request-Ends, read_order_id_request-Ends,
  read_submit_order_request-Ends, read_update_order_request-Ends,
}
use drone_management_system.Base.{
  arith, not, ◌||◌, ◌==◌, if◌then◌else◌, false, ◌∷◌, ◌<◌, true, List, String, Bool, ℕ, Option, none,
  some, ◌≡◌, refl,
}

abbrev pub is_finished : {I O : Type 0} → Processing I O → Bool
is_finished (processed success exception rest out s) = true
is_finished unfinished = false

module _ {I O : Type 0} (srv : ThriftServer I O) where
  reply_result-is_finished :
      (r : O × Option String) (i : I) (s : State) → is_finished (reply_result r i s) ≡ true
  reply_result-is_finished (out, none) i s = refl
  reply_result-is_finished (out, some message) i s = refl

  write_reply-is_finished :
      (method : String) (seq_id : ℤ) (calls : List Write) (i : I) (o : O) (s : State)
      → is_finished (write_reply srv method seq_id calls i o s) ≡ true
  unfolding write_reply
  write_reply-is_finished method seq_id calls i o s =
      reply_result-is_finished (write_all srv.sink (reply_calls method seq_id calls) o) i s

  write_exception-is_finished :
      (method : String) (seq_id : ℤ) (e : ThriftException) (i : I) (o : O) (s : State)
      → is_finished (write_exception srv method seq_id e i o s) ≡ true
  unfolding write_exception
  write_exception-is_finished method seq_id e i o s = refl

  concluded-is_finished :
      {A : Type 0} (method : String) (seq_id : ℤ) (write : A → List Write) (res : Result A × State)
      (i : I) (o : O)
      → is_finished (concluded srv method seq_id write res i o) ≡ true
  concluded-is_finished method seq_id write (ok a, s) i o =
      write_reply-is_finished method seq_id (write a) i o s
  concluded-is_finished method seq_id write (err e, s) i o =
      write_exception-is_finished method seq_id (map_error e) i o s

  with_claims-is_finished :
      {A : Type 0} (method : String) (seq_id : ℤ) (grant : Grant) (write : A → List Write)
      (run : Claims → Exec A) (i : I) (o : O) (s : State)
      → is_finished (
          with_claims srv method seq_id grant
            (λ claims. served srv method seq_id write (run claims))
            i
            o
            s)
        ≡ true
  with_claims-is_finished method seq_id (denied e) write run i o s =
      write_exception-is_finished method seq_id e i o s
  with_claims-is_finished method seq_id (granted claims) write run i o s =
      concluded-is_finished method seq_id write (run claims s) i o

  with_args-is_finished :
      {A : Type 0} (size : I → ℕ) (n : ℕ) (method : String) (seq_id : ℤ) (read : Read I A)
      (k : A → Turn I O) (i : I) (o : O) (s : State)
      → Ends size n (read i)
      → ((a : A) (rest : I) → is_finished (k a rest o s) ≡ true)
      → is_finished (with_args srv method seq_id read k i o s) ≡ true
  with_args-is_finished {A = A} size n method seq_id read k i o s ends finished = of (read i) ends
    where
      of :
          (outcome : Outcome I A)
          → Ends size n outcome
          → is_finished (elim outcome [
            | got req rest ↦ k req rest o s
            | broke message rest ↦
                write_exception srv method seq_id (protocol_failure message) rest o s
            | out_of_fuel ↦ unfinished
          ])
            ≡ true
      of (got a rest) e = finished a rest
      of (broke message rest) e =
          write_exception-is_finished method seq_id (protocol_failure message) rest o s
      of out_of_fuel e = absurd e

  -- A handler that reads, asks for claims, and calls the service.
  call-is_finished :
      {A B : Type 0} (size : I → ℕ) (n : ℕ) (method : String) (seq_id : ℤ) (read : Read I A)
      (grant : A → Grant) (write : B → List Write) (run : A → Claims → Exec B) (i : I) (o : O)
      (s : State)
      → Ends size n (read i)
      → is_finished (
          with_args srv method seq_id read
            (λ a.
              with_claims srv method seq_id
                (grant a)
                (λ claims. served srv method seq_id write (run a claims)))
            i
            o
            s)
        ≡ true
  call-is_finished size n method seq_id read grant write run i o s ends =
      with_args-is_finished size n method seq_id read
        (λ a.
          with_claims srv method seq_id (grant a)
            (λ claims. served srv method seq_id write (run a claims)))
        i o s ends λ a rest. with_claims-is_finished method seq_id (grant a) write (run a) rest o s

  token_reply_of-is_finished :
      (seq_id : ℤ) (t : Option (String × Time)) (i : I) (o : O) (s : State)
      → is_finished (token_reply_of srv seq_id t i o s) ≡ true
  token_reply_of-is_finished seq_id none i o s =
      write_exception-is_finished "IssueToken" seq_id
        (record { kind = internal_error; message = "token error" }) i o s
  token_reply_of-is_finished seq_id (some (token, exp)) i o s =
      write_reply-is_finished "IssueToken" seq_id
        (field_begin "success" struct_type 0 ∷ write_token_response srv.unix token exp) i o s

  module _ (size : I → ℕ) (shrinks : IsShrinking srv.protocol size) where
    issue_token-is_finished :
        (seq_id : ℤ) (i : I) (o : O) (s : State)
        → size i < srv.fuel
        → is_finished (handle_issue_token srv seq_id i o s) ≡ true
    unfolding handle_issue_token
    issue_token-is_finished seq_id i o s h =
        with_args-is_finished size (size i) "IssueToken" seq_id
          (read_token_request srv.protocol srv.fuel)
          (λ req.
            if req.name == "" || not (validate_role req.role)
            then write_exception srv "IssueToken" seq_id (protocol_failure "invalid request")
            else token_reply_of srv seq_id (issue_token srv.jwt srv.auth req.name req.role srv.now))
          i o s (read_token_request-Ends srv.protocol size shrinks srv.fuel i h)
          λ req rest. by_check (req.name == "" || not (validate_role req.role)) req rest
      where
        by_check :
            (b : Bool) (req : TokenArgs) (rest : I)
            → is_finished (
                (if b
                    then write_exception srv "IssueToken" seq_id
                        (protocol_failure "invalid request")
                    else token_reply_of srv seq_id
                        (issue_token srv.jwt srv.auth req.name req.role srv.now))
                  rest o s)
              ≡ true
        by_check true req rest =
            write_exception-is_finished "IssueToken" seq_id (protocol_failure "invalid request")
              rest o s
        by_check false req rest =
            token_reply_of-is_finished seq_id
              (issue_token srv.jwt srv.auth req.name req.role srv.now) rest o s

    handle-is_finished :
        (method : Method) (seq_id : ℤ) (i : I) (o : O) (s : State)
        → size i < srv.fuel
        → is_finished (handle srv method seq_id i o s) ≡ true
    unfolding handle read_drone_id_request
    handle-is_finished Method.issue_token seq_id i o s h = issue_token-is_finished seq_id i o s h
    handle-is_finished Method.submit_order seq_id i o s h =
        call-is_finished size (size i) "SubmitOrder" seq_id
          (read_submit_order_request srv.protocol srv.fuel)
          (λ req. authorize srv req.auth_token role_end_user)
          (success struct_type (write_order srv.unix))
          (λ req claims. Service.submit_order srv.env claims.subject req.origin req.destination) i o
          s (read_submit_order_request-Ends srv.protocol size shrinks srv.fuel i h)
    handle-is_finished Method.withdraw_order seq_id i o s h =
        call-is_finished size (size i) "WithdrawOrder" seq_id
          (read_order_id_request srv.protocol srv.fuel)
          (λ req. authorize srv req.auth_token role_end_user)
          (success struct_type (write_order srv.unix))
          (λ req claims. Service.withdraw_order srv.env claims.subject req.order_id) i o s
          (read_order_id_request-Ends srv.protocol size shrinks srv.fuel i h)
    handle-is_finished Method.get_order seq_id i o s h =
        call-is_finished size (size i) "GetOrder" seq_id
          (read_order_id_request srv.protocol srv.fuel) (λ req. authorize_any srv req.auth_token)
          (success struct_type (write_order_view srv.unix))
          (λ req claims.
            Views.get_order_view srv.env srv.ops srv.speed claims.subject claims.role req.order_id)
          i o s (read_order_id_request-Ends srv.protocol size shrinks srv.fuel i h)
    handle-is_finished Method.reserve_job seq_id i o s h =
        call-is_finished size (size i) "ReserveJob" seq_id (read_auth_request srv.protocol srv.fuel)
          (λ req. authorize srv req role_drone) (success struct_type (write_order srv.unix))
          (λ req claims. Service.drone_reserve_job srv.env claims.subject) i o s
          (read_auth_request-Ends srv.protocol size shrinks srv.fuel i h)
    handle-is_finished Method.pickup_order seq_id i o s h =
        call-is_finished size (size i) "PickupOrder" seq_id
          (read_order_id_request srv.protocol srv.fuel)
          (λ req. authorize srv req.auth_token role_drone)
          (success struct_type (write_order srv.unix))
          (λ req claims. Service.drone_pickup srv.env claims.subject req.order_id) i o s
          (read_order_id_request-Ends srv.protocol size shrinks srv.fuel i h)
    handle-is_finished Method.deliver_order seq_id i o s h =
        call-is_finished size (size i) "DeliverOrder" seq_id
          (read_order_id_request srv.protocol srv.fuel)
          (λ req. authorize srv req.auth_token role_drone)
          (success struct_type (write_order srv.unix))
          (λ req claims. Service.drone_deliver srv.env claims.subject req.order_id) i o s
          (read_order_id_request-Ends srv.protocol size shrinks srv.fuel i h)
    handle-is_finished Method.fail_order seq_id i o s h =
        call-is_finished size (size i) "FailOrder" seq_id
          (read_fail_order_request srv.protocol srv.fuel)
          (λ req. authorize srv req.auth_token role_drone)
          (success struct_type (write_order srv.unix))
          (λ req claims. Service.drone_fail srv.env claims.subject req.order_id req.reason) i o s
          (read_fail_order_request-Ends srv.protocol size shrinks srv.fuel i h)
    handle-is_finished Method.mark_broken seq_id i o s h =
        call-is_finished size (size i) "MarkBroken" seq_id (read_auth_request srv.protocol srv.fuel)
          (λ req. authorize srv req role_drone) (success struct_type (write_drone srv.unix))
          (λ req claims. Service.drone_mark_broken srv.env claims.subject) i o s
          (read_auth_request-Ends srv.protocol size shrinks srv.fuel i h)
    handle-is_finished Method.heartbeat seq_id i o s h =
        call-is_finished size (size i) "Heartbeat" seq_id
          (read_heartbeat_request srv.protocol srv.fuel)
          (λ req. authorize srv req.auth_token role_drone)
          (success struct_type (write_drone_status srv.unix))
          (λ req claims.
            Views.drone_heartbeat srv.env srv.ops srv.speed claims.subject req.location)
          i o s (read_heartbeat_request-Ends srv.protocol size shrinks srv.fuel i h)
    handle-is_finished Method.current_order seq_id i o s h =
        call-is_finished size (size i) "CurrentOrder" seq_id
          (read_auth_request srv.protocol srv.fuel) (λ req. authorize srv req role_drone)
          (success struct_type (write_order_view srv.unix))
          (λ req claims. Views.drone_current_order srv.env srv.ops srv.speed claims.subject) i o s
          (read_auth_request-Ends srv.protocol size shrinks srv.fuel i h)
    handle-is_finished Method.admin_list_orders seq_id i o s h =
        call-is_finished size (size i) "ListOrders" seq_id
          (read_list_orders_request srv.protocol srv.fuel)
          (λ req. authorize srv req.auth_token role_admin)
          (success list_type (write_order_view_list srv.unix))
          (λ req claims.
            Views.admin_list_orders srv.env srv.ops srv.speed srv.sort_slice (record {
              status = status_filter req.status;
              limit = req.limit;
              offset = req.offset;
            }))
          i o s (read_list_orders_request-Ends srv.protocol size shrinks srv.fuel i h)
    handle-is_finished Method.admin_update_order seq_id i o s h =
        call-is_finished size (size i) "UpdateOrder" seq_id
          (read_update_order_request srv.protocol srv.fuel)
          (λ req. authorize srv req.auth_token role_admin)
          (success struct_type (write_order srv.unix))
          (λ req claims. Service.admin_update_order srv.env req.order_id req.origin req.destination)
          i o s (read_update_order_request-Ends srv.protocol size shrinks srv.fuel i h)
    handle-is_finished Method.admin_list_drones seq_id i o s h =
        call-is_finished size (size i) "ListDrones" seq_id (read_auth_request srv.protocol srv.fuel)
          (λ req. authorize srv req role_admin) (success list_type (write_drone_list srv.unix))
          (λ req claims. Views.admin_list_drones srv.env srv.ops srv.speed) i o s
          (read_auth_request-Ends srv.protocol size shrinks srv.fuel i h)
    handle-is_finished Method.admin_mark_drone_broken seq_id i o s h =
        call-is_finished size (size i) "MarkDroneBroken" seq_id
          (read_order_id_request srv.protocol srv.fuel)
          (λ req. authorize srv req.auth_token role_admin)
          (success struct_type (write_drone srv.unix))
          (λ req claims. Service.admin_mark_drone_broken srv.env req.order_id) i o s
          (read_order_id_request-Ends srv.protocol size shrinks srv.fuel i h)
    handle-is_finished Method.admin_mark_drone_fixed seq_id i o s h =
        call-is_finished size (size i) "MarkDroneFixed" seq_id
          (read_order_id_request srv.protocol srv.fuel)
          (λ req. authorize srv req.auth_token role_admin)
          (success struct_type (write_drone srv.unix))
          (λ req claims. Service.admin_mark_drone_fixed srv.env req.order_id) i o s
          (read_order_id_request-Ends srv.protocol size shrinks srv.fuel i h)

  -- With a protocol whose calls add nothing to what is left to read and whose fields take from it,
  -- and with more fuel than there is to read, every request comes to a result.
  pub process-is_finished :
      (size : I → ℕ) (i : I) (o : O) (s : State)
      → IsShrinking srv.protocol size
      → size i < srv.fuel
      → is_finished (process srv i o s) ≡ true
  unfolding process
  process-is_finished size i o s shrinks h =
      headed (srv.protocol.read_message_begin i) (shrinks.message_begin i)
    where
      found :
          (m : Option Method) (name : String) (seq_id : ℤ) (rest : I)
          → size rest < srv.fuel
          → is_finished (dispatched srv name seq_id m rest o s) ≡ true
      found none name seq_id rest less =
          write_exception-is_finished name seq_id
            (record { kind = unknown_method; message = "unknown method" }) (skipped srv rest) o s
      found (some method) name seq_id rest less =
          handle-is_finished size shrinks method seq_id rest o s less

      checked :
          (b : Bool) (head : MessageHead) (rest : I)
          → size rest < srv.fuel
          → is_finished (
              if b
              then write_exception srv head.name head.seq_id
                  (protocol_failure "invalid message type")
                  rest
                  o
                  s
              else dispatched srv head.name head.seq_id (lookup head.name processor_map) rest o s)
            ≡ true
      checked true head rest less =
          write_exception-is_finished head.name head.seq_id
            (protocol_failure "invalid message type") rest o s
      checked false head rest less =
          found (lookup head.name processor_map) head.name head.seq_id rest less

      headed :
          (g : Got I MessageHead) → Leaves size (size i) g → is_finished (begun srv g o s) ≡ true
      headed (failure message rest) below = refl
      headed (value head rest) below =
          checked (not (is_request head.message_type)) head rest (omega arith)
