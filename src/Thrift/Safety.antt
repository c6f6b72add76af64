-- ===== src/Thrift/Safety.antt =====
-- What `Process` of internal/transport/thriftapi/processor.go does to the store.
use drone_management_system.Thrift.Readers.{read_token_request, TokenArgs}
use drone_management_system.Thrift.Writers.{write_token_response, write_all, Write}
use drone_management_system.Auth.{issue_token, parse_token, Claims}
use drone_management_system.Domain.{validate_role, Time}
use drone_management_system.Grpc.{Reply}
use drone_management_system.Transport.{map_error, ThriftException}
use drone_management_system.Integer.{ℤ}
use drone_management_system.Grpc.Guards.{
  serve-refuses, is_allowed, serve, needed_role, is_role, Response, Call,
}
use drone_management_system.Thrift.Processor.{
  is_request, begun, processor_map, lookup, wire_name, skipped, dispatched, process, handle, Method,
}
use drone_management_system.Exec.{State}
use drone_management_system.Thrift.{
  Got, MessageHead, Outcome, value, failure, got, broke, out_of_fuel,
}
use drone_management_system.Thrift.Handlers.{
  reply_result, handle_issue_token, protocol_failure, reply_calls, write_reply, write_exception,
  Processing, ThriftServer, processed, unfinished, token_reply_of,
}
use drone_management_system.Transport.{internal_error, unknown_method}
use drone_management_system.Thrift.Writers.{field_begin}
use drone_management_system.Thrift.{struct_type}
use mathlib.Core.Path.{subst}
use drone_management_system.Thrift.Agreement.{
  Asked, handle-Matches, Matches, SaysSame, requested, answered, failed, refused,
}
use drone_management_system.Base.{
  false, ◌∷◌, arith, Option-cases, ap, ◌∙◌, sym, Bool-cases, ◌⊎◌, not, ◌||◌, ◌==◌, true,
  if◌then◌else◌, Bool, List, String, Option, none, some, inl, inr, ◌≡◌, refl,
}

-- The store after a request; without a result it is as it was.
abbrev pub store_of : {I O : Type 0} → State → Processing I O → State
store_of s (processed success exception rest out t) = t
store_of s unfinished = s

-- A request `i` that a token admits: behind its head, which names a method, a call was read as the
-- arguments of that method, with a token of the needed role, and `t` is what the call makes of `s` over
-- gRPC.
pub record Admitted {I O : Type 0} (srv : ThriftServer I O) (i : I) (s t : State) : Type 0 where
  pub head : MessageHead
  pub begin : I
  pub opened : srv.protocol.read_message_begin i ≡ value head begin
  pub request : is_request head.message_type ≡ true
  pub method : Method
  pub named : lookup head.name processor_map ≡ some method
  pub rest : I
  pub token : String
  pub call : Call
  pub claims : Claims
  pub read : requested srv method begin ≡ got (token, call) rest
  pub parsed : parse_token srv.jwt srv.auth token srv.now ≡ some claims
  pub role : is_role (needed_role call) claims.role ≡ true
  pub effect : t ≡ (serve srv.env srv.ops srv.speed srv.sort_slice (some claims) call s).1

module _ {I O : Type 0} (srv : ThriftServer I O) where
  -- What `Process` does behind the head of a message, by whether the message is no request.
  abbrev sorted : Bool → MessageHead → I → O → State → Processing I O
  sorted b head rest o s =
      if b
      then write_exception srv head.name head.seq_id (protocol_failure "invalid message type") rest
          o s
      else dispatched srv head.name head.seq_id (lookup head.name processor_map) rest o s

  store_of-reply_result :
      (r : O × Option String) (i : I) (s t : State) → store_of t (reply_result r i s) ≡ s
  store_of-reply_result (out, none) i s t = refl
  store_of-reply_result (out, some message) i s t = refl

  store_of-write_reply :
      (method : String) (seq_id : ℤ) (calls : List Write) (i : I) (o : O) (s t : State)
      → store_of t (write_reply srv method seq_id calls i o s) ≡ s
  unfolding write_reply
  store_of-write_reply method seq_id calls i o s t =
      store_of-reply_result (write_all srv.sink (reply_calls method seq_id calls) o) i s t

  store_of-write_exception :
      (method : String) (seq_id : ℤ) (e : ThriftException) (i : I) (o : O) (s t : State)
      → store_of t (write_exception srv method seq_id e i o s) ≡ s
  unfolding write_exception
  store_of-write_exception method seq_id e i o s t = refl

  store_of-SaysSame :
      {method : String} {seq_id : ℤ} {i : I} {o : O} {res : Processing I O}
      {reply : Reply Response × State} (t : State)
      → SaysSame srv method seq_id i o res reply
      → store_of t res ≡ reply.1
  store_of-SaysSame {method = method} {seq_id = seq_id} {i = i} {o = o} t
        (answered calls x s shows) =
      store_of-write_reply method seq_id calls i o s t
  store_of-SaysSame {method = method} {seq_id = seq_id} {i = i} {o = o} t (failed e s) =
      store_of-write_exception method seq_id (map_error e) i o s t
  store_of-SaysSame {method = method} {seq_id = seq_id} {i = i} {o = o} t
        (refused message status s denies) =
      store_of-write_exception method seq_id (protocol_failure message) i o s t

  store_of-issue_token :
      (seq_id : ℤ) (i : I) (o : O) (s : State)
      → store_of s (handle_issue_token srv seq_id i o s) ≡ s
  unfolding handle_issue_token
  store_of-issue_token seq_id i o s = of (read_token_request srv.protocol srv.fuel i)
    where
      token_reply :
          (t : Option (String × Time)) (rest : I)
          → store_of s (token_reply_of srv seq_id t rest o s) ≡ s
      token_reply none rest =
          store_of-write_exception "IssueToken" seq_id
            (record { kind = internal_error; message = "token error" }) rest o s s
      token_reply (some (token, exp)) rest =
          store_of-write_reply "IssueToken" seq_id
            (field_begin "success" struct_type 0 ∷ write_token_response srv.unix token exp) rest o s
            s

      by_check :
          (b : Bool) (req : TokenArgs) (rest : I)
          → store_of s (
              (if b
                  then write_exception srv "IssueToken" seq_id (protocol_failure "invalid request")
                  else token_reply_of srv seq_id
                      (issue_token srv.jwt srv.auth req.name req.role srv.now))
                rest o s)
            ≡ s
      by_check true req rest =
          store_of-write_exception "IssueToken" seq_id (protocol_failure "invalid request") rest o s
            s
      by_check false req rest =
          token_reply (issue_token srv.jwt srv.auth req.name req.role srv.now) rest

      of :
          (outcome : Outcome I TokenArgs)
          → store_of s (elim outcome [
            | got req rest ↦
                (if req.name == "" || not (validate_role req.role)
                    then write_exception srv "IssueToken" seq_id
                        (protocol_failure "invalid request")
                    else token_reply_of srv seq_id
                        (issue_token srv.jwt srv.auth req.name req.role srv.now))
                  rest o s
            | broke message rest ↦
                write_exception srv "IssueToken" seq_id (protocol_failure message) rest o s
            | out_of_fuel ↦ unfinished
          ])
            ≡ s
      of (got req rest) = by_check (req.name == "" || not (validate_role req.role)) req rest
      of (broke message rest) =
          store_of-write_exception "IssueToken" seq_id (protocol_failure message) rest o s s
      of out_of_fuel = refl

  -- What is read, by which the store is as it was, or has the effect of a call that is admitted.
  Matches-Admitted :
      (i : I) (head : MessageHead) (method : Method) (name : String) (seq_id : ℤ) (begin : I)
      (o : O) (s : State) (res : Processing I O)
      → srv.protocol.read_message_begin i ≡ value head begin
      → is_request head.message_type ≡ true
      → lookup head.name processor_map ≡ some method
      → Matches srv name seq_id o s (requested srv method begin) res
      → (store_of s res ≡ s) ⊎ Admitted srv i s (store_of s res)
  Matches-Admitted i head method name seq_id begin o s res opened request named =
      of (requested srv method begin) refl
    where
      of :
          (outcome : Outcome I Asked)
          → requested srv method begin ≡ outcome
          → Matches srv name seq_id o s outcome res
          → (store_of s res ≡ s) ⊎ Admitted srv i s (store_of s res)
      of (got (token, call) rest) read same =
          let effect = store_of-SaysSame s same in
          let ctx = parse_token srv.jwt srv.auth token srv.now in
          elim (Bool-cases (is_allowed ctx (needed_role call))) [
            | inr denied ↦ inl (
                effect
                ∙ ap (λ r. r.1)
                    (serve-refuses srv.env srv.ops srv.speed srv.sort_slice ctx call s denied))
            | inl allowed ↦ elim (Option-cases ctx) [
              | inl missing ↦ absurd (ground (arith, missing, allowed))
              | inr (claims, parsed) ↦ inr (record {
                head = head;
                begin = begin;
                opened = opened;
                request = request;
                method = method;
                named = named;
                rest = rest;
                token = token;
                call = call;
                claims = claims;
                read = read;
                parsed = parsed;
                role = subst (λ c. is_allowed c (needed_role call) ≡ true) parsed allowed;
                effect =
                    effect
                    ∙ ap (λ c. (serve srv.env srv.ops srv.speed srv.sort_slice c call s).1) parsed;
              })
            ]
          ]
      of (broke message rest) read same = inl (
          ap (store_of s) same
          ∙ store_of-write_exception name seq_id (protocol_failure message) rest o s s)
      of out_of_fuel read same = inl (ap (store_of s) same)

  handle-Admitted :
      (i : I) (head : MessageHead) (method : Method) (begin : I) (o : O) (s : State)
      → srv.protocol.read_message_begin i ≡ value head begin
      → is_request head.message_type ≡ true
      → lookup head.name processor_map ≡ some method
      → (store_of s (handle srv method head.seq_id begin o s) ≡ s)
        ⊎ Admitted srv i s (store_of s (handle srv method head.seq_id begin o s))
  unfolding handle
  handle-Admitted i head method begin o s opened request named =
      elim (handle-Matches srv method head.seq_id begin o s) [
        | inl same ↦
            Matches-Admitted i head method (wire_name method) head.seq_id begin o s _ opened request
              named same
        | inr token ↦ inl (
            subst (λ m. store_of s (handle srv m head.seq_id begin o s) ≡ s) (sym token)
              (store_of-issue_token head.seq_id begin o s))
      ]

  -- Whatever a client sends, the store is after a request as it was, or the head of this request
  -- names a method and behind it a token that parses was read with a call of this method whose
  -- role the claims have, and the store is as the same call over gRPC leaves it.
  pub process-Admitted :
      (i : I) (o : O) (s : State)
      → (store_of s (process srv i o s) ≡ s) ⊎ Admitted srv i s (store_of s (process srv i o s))
  unfolding process
  process-Admitted i o s = headed (srv.protocol.read_message_begin i) refl
    where
      found :
          (m : Option Method) (head : MessageHead) (rest : I)
          → srv.protocol.read_message_begin i ≡ value head rest
          → is_request head.message_type ≡ true
          → lookup head.name processor_map ≡ m
          → (store_of s (dispatched srv head.name head.seq_id m rest o s) ≡ s)
            ⊎ Admitted srv i s (store_of s (dispatched srv head.name head.seq_id m rest o s))
      found none head rest opened request named = inl (
          store_of-write_exception head.name head.seq_id
            (record { kind = unknown_method; message = "unknown method" }) (skipped srv rest) o s s)
      found (some method) head rest opened request named =
          handle-Admitted i head method rest o s opened request named

      checked :
          (b : Bool) (head : MessageHead) (rest : I)
          → srv.protocol.read_message_begin i ≡ value head rest
          → is_request head.message_type ≡ b
          → (store_of s (sorted (not b) head rest o s) ≡ s)
            ⊎ Admitted srv i s (store_of s (sorted (not b) head rest o s))
      checked false head rest opened request = inl (
          store_of-write_exception head.name head.seq_id (protocol_failure "invalid message type")
            rest o s s)
      checked true head rest opened request =
          found (lookup head.name processor_map) head rest opened request refl

      headed :
          (g : Got I MessageHead)
          → srv.protocol.read_message_begin i ≡ g
          → (store_of s (begun srv g o s) ≡ s) ⊎ Admitted srv i s (store_of s (begun srv g o s))
      headed (failure message rest) opened = inl refl
      headed (value head rest) opened = checked (is_request head.message_type) head rest opened refl
