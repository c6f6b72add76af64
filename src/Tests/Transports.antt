-- ===== src/Tests/Transports.antt =====
-- Runs of the transports on concrete requests, and the theorems applied to them.
use drone_management_system.Thrift.Readers.{read_order_id_request}
use drone_management_system.Thrift.Replies.{
  answer_calls-nested, drones_answer, token_answer, answer_calls,
}
use drone_management_system.Float64.{Float64, ninety}
use drone_management_system.Thrift.Writers.{Write}
use drone_management_system.Http.Agreement.{serve_endpoint-AgreesWith, call_of, serving, AgreesWith}
use drone_management_system.Grpc.{answer, refuse}
use drone_management_system.Grpc.Guards.{withdraw_order_call}
use drone_management_system.Integer.{ℤ, pos}
use drone_management_system.Grpc.Access.{registered-method_path, call_rpc-admitted, admitted}
use drone_management_system.Http.{HttpRequest}
use drone_management_system.Grpc.Requests.{TokenRequest}
use drone_management_system.Thrift.Progress.{process-is_finished, is_finished}
use drone_management_system.Thrift.Safety.{process-Admitted, Admitted, store_of}
use drone_management_system.Thrift.Agreement.{handle-Matches, Matches, requested}
use drone_management_system.Thrift.Nesting.{nested}
use drone_management_system.Grpc.Interceptor.{authenticate, CallContext}
use drone_management_system.Http.Safety.{serve_http-is_panic, is_panic}
use drone_management_system.Thrift.Termination.{FieldLeaves, Leaves, IsShrinking}
use drone_management_system.Grpc.Descriptors.{withdraw_order_rpc, Server, call_rpc, Rpc, registered}
use drone_management_system.Thrift.Handlers.{reply_calls, ThriftServer}
use drone_management_system.Auth.Bearer.{no_space, no_blank, extract_bearer_token-parts}
use drone_management_system.Domain.{role_drone, Time, role_end_user}
use drone_management_system.Auth.Tokens.{parse_token-issue_token, IsFaithful}
use drone_management_system.Transport.{unauthenticated}
use Prim.Native.String.{◌++◌}
use mathlib.Core.Path.{subst}
use drone_management_system.Exec.{⊤}
use drone_management_system.Auth.{
  is_space, equal_fold, ParsedToken, issued, parse_token, extract_bearer_token, issue_token, Claims,
  Jwt, Authenticator, SigningMethod, hs256, other_method,
}
use drone_management_system.Thrift.{
  Field, Got, Protocol, TType, MessageHead, value, failure, call_message, string_type, struct_type,
  stop_type,
}
use drone_management_system.Http.Routes.{serve_http, serve_endpoint, HttpServer, Endpoint}
use drone_management_system.Http.Guards.{serve_endpoint-refuses, http_refusal, http_claims}
use drone_management_system.Tests.{env, ops, after, placed, start, flying_drone, depot, client}
use drone_management_system.Thrift.Processor.{handle, process, Method}
use drone_management_system.Thrift.{got}
use drone_management_system.Base.{
  ◌≤◌, ◌/◌, ◌*◌, ◌⊎◌, length, List, ◌+◌, some_eq, false, sym, arith, eq_of_true, true, eqb, ◌==◌,
  ◌&&◌, if◌then◌else◌, ltb, String, ℕ, Option, Bool, none, some, [], ◌∷◌, ◌≡◌, refl,
}

-- A library that signs the claims of one user, and no others. Its dates are whole hundreds.
abbrev the_user : Claims
the_user = record { role = role_end_user; subject = "u1"; issued_at = 100; expires_at = 3700 }

abbrev signs : Claims → String → Bool
signs claims secret =
    claims.role == role_end_user
    && (claims.subject == "u1"
        && (eqb claims.issued_at 100 && (eqb claims.expires_at 3700 && secret == "key")))

abbrev checked : Option String → Time → Option ParsedToken
checked none now = none
checked (some secret) now =
    if secret == "key" && ltb now 3700
    then some (record { claims = the_user; valid = true })
    else none

abbrev signed_by : SigningMethod → Claims → String → Option String
signed_by hs256 claims secret = if signs claims secret then some "token" else none
signed_by other_method claims secret = none

abbrev jwt : Jwt
jwt = record {
  new_numeric_date = λ t. t / 100 * 100;
  signed_string = signed_by;
  parse_with_claims = λ token keys now. if token == "token" then checked (keys hs256) now else none;
}

abbrev auth : Authenticator
auth = record { secret = "key"; ttl = 3600 }

same_claims :
    (role subject : String) (issued_at expires_at : Time)
    → role ≡ role_end_user
    → subject ≡ "u1"
    → issued_at ≡ 100
    → expires_at ≡ 3700
    → record { role = role; subject = subject; issued_at = issued_at; expires_at = expires_at }
      ≡ the_user
same_claims role subject issued_at expires_at a b c d = rw (a, b, c, d) refl

eqb_eq : (m n : ℕ) → eqb m n ≡ true → m ≡ n
eqb_eq m n h = ground arith

both : (a b : Bool) → (a && b) ≡ true → (a ≡ true) × (b ≡ true)
both true true h = (refl, refl)
both true false h = cc
both false b h = cc

-- What a signature tells.
signed_facts :
    (claims : Claims) (secret token : String)
    → signed_by hs256 claims secret ≡ some token
    → (claims ≡ the_user) × ((secret ≡ "key") × (token ≡ "token"))
signed_facts claims secret token h = of (signs claims secret) refl h
  where
    of :
        (b : Bool)
        → signs claims secret ≡ b
        → (if b then some "token" else none) ≡ some token
        → (claims ≡ the_user) × ((secret ≡ "key") × (token ≡ "token"))
    of true e t =
        let (a, e1) = both _ _ e in
        let (b, e2) = both _ _ e1 in
        let (c, e3) = both _ _ e2 in
        let (d, k) = both _ _ e3 in
        (
          same_claims claims.role claims.subject claims.issued_at claims.expires_at
              (eq_of_true claims.role role_end_user a) (eq_of_true claims.subject "u1" b)
              (eqb_eq claims.issued_at 100 c) (eqb_eq claims.expires_at 3700 d),
          (eq_of_true secret "key" k, sym (some_eq t)),
        )
    of false e t = cc

jwt-IsFaithful : IsFaithful jwt
jwt-IsFaithful = record {
  truncated = λ t. omega arith;
  no_later = λ t. omega arith;
  live = λ claims secret token keys now d h k l.
      let (c, (s, t)) = signed_facts claims secret token h in
      let live : ltb now 3700 ≡ true = subst (λ c. ltb now c.expires_at ≡ true) c l in
      rw (t, k, s, c, live) refl;
  expired = λ claims secret token keys now d h k l.
      let (c, (s, t)) = signed_facts claims secret token h in
      let gone : ltb now 3700 ≡ false = subst (λ c. ltb now c.expires_at ≡ false) c l in
      rw (t, k, s, gone) refl;
}

extract_bearer_token-parts_example :
    (extract_bearer_token ("bearer" ++ String.◌∷◌ " " "token")
      ≡ (if equal_fold "bearer" "Bearer" then "token" else ""))
    × (extract_bearer_token "bearer" ≡ "")
unfolding no_blank no_space is_space
extract_bearer_token-parts_example = extract_bearer_token-parts "bearer" "token" refl refl

bearer_test : extract_bearer_token "BeArEr token " ≡ "token"
unfolding extract_bearer_token
bearer_test = refl

parse_token-issue_token_example :
    (parse_token jwt auth "token" 200 ≡ (
      if ltb 200 (jwt.new_numeric_date 3730)
      then some (issued jwt auth "u1" role_end_user 130)
      else none))
    × (◌≡◌ {A = Time} 3730 (130 + auth.ttl))
    × (jwt.new_numeric_date 3730 ≤ 3730)
unfolding issue_token
parse_token-issue_token_example =
    parse_token-issue_token jwt auth "u1" role_end_user "token" 130 3730 200 jwt-IsFaithful refl

abbrev token_request : TokenRequest
token_request = record { name = "u1"; role = role_end_user }

abbrev server : Server
server = record {
  env = env;
  ops = ops;
  speed = ninety;
  sort_slice = λ less views. views;
  jwt = jwt;
  auth = auth;
  now = 200;
  format = λ t. "later";
}

abbrev context : CallContext
context = record { authorization = "Bearer token" ∷ []; claims = none }

abbrev withdrawal : Rpc
withdrawal = withdraw_order_rpc (answer (record { order_id = "o1" }))

call_rpc-admitted_example :
    call_rpc server withdrawal context (after placed)
    ≡ admitted server
        (answer (withdraw_order_call "o1"))
        (authenticate jwt auth 200 ("Bearer token" ∷ []))
        (after placed)
call_rpc-admitted_example =
    call_rpc-admitted server withdrawal (answer (withdraw_order_call "o1")) context (after placed)
      refl

registered-method_path_example :
    registered server withdrawal
      (some (λ full_method ctx handler s.
        (refuse (record { code = unauthenticated; message = full_method }), s)))
      context
      (after placed)
    ≡ (
      refuse (record { code = unauthenticated; message = "/drone.OrderService/WithdrawOrder" }),
      after placed,
    )
registered-method_path_example =
    registered-method_path server withdrawal
      (λ full_method. refuse (record { code = unauthenticated; message = full_method })) context
      (after placed) refl

abbrev http_server : HttpServer
http_server = record {
  env = env;
  ops = ops;
  speed = ninety;
  sort_slice = λ less views. views;
  web = record {
    decode_token = λ body. none;
    decode_submit = λ body. some (record { origin = depot; destination = client });
    decode_reason = λ body. none;
    decode_heartbeat = λ body. none;
    decode_update = λ body. none;
    atoi = λ text. pos 0;
  };
  jwt = jwt;
  auth = auth;
  now = 200;
  find_route =
      λ table verb path. if path == "/orders/" then some (Endpoint.submit_order, "") else none;
  not_routed = 404;
}

abbrev http_request : HttpRequest
http_request = record { authorization = "Bearer token"; id = ""; query = λ name. ""; body = "{}" }

serve_endpoint-refuses_example :
    serve_endpoint http_server Endpoint.drone_reserve http_request (after placed)
    ≡ (http_refusal (http_claims http_server http_request), after placed)
unfolding http_claims extract_bearer_token parse_token is_space equal_fold
serve_endpoint-refuses_example =
    serve_endpoint-refuses http_server Endpoint.drone_reserve role_drone http_request (after placed)
      refl refl

serve_endpoint-AgreesWith_example :
    AgreesWith 201
      (serving http_server the_user http_request start)
      start
      (call_of http_server Endpoint.submit_order http_request)
      (serve_endpoint http_server Endpoint.submit_order http_request start)
unfolding http_claims extract_bearer_token parse_token is_space equal_fold
serve_endpoint-AgreesWith_example =
    serve_endpoint-AgreesWith http_server Endpoint.submit_order role_end_user the_user http_request
      start refl refl refl

serve_http-is_panic_example :
    is_panic (serve_http http_server "POST" "/orders/" http_request start) ≡ false
serve_http-is_panic_example = serve_http-is_panic http_server "POST" "/orders/" http_request start

-- A protocol that is a list of what was written.
data Piece : Type 0 where
  head_piece : MessageHead → Piece
  field_piece : Field → Piece
  text_piece : String → Piece
  number_piece : ℤ → Piece
  real_piece : Float64 → Piece

abbrev next_head : List Piece → Got (List Piece) MessageHead
next_head (head_piece head ∷ rest) = value head rest
next_head rest = failure "no message" rest

abbrev next_field : List Piece → Got (List Piece) Field
next_field (field_piece field ∷ rest) = value field rest
next_field rest = failure "no field" rest

abbrev next_text : List Piece → Got (List Piece) String
next_text (text_piece text ∷ rest) = value text rest
next_text rest = failure "no text" rest

abbrev next_number : List Piece → Got (List Piece) ℤ
next_number (number_piece n ∷ rest) = value n rest
next_number rest = failure "no number" rest

abbrev next_real : List Piece → Got (List Piece) Float64
next_real (real_piece x ∷ rest) = value x rest
next_real rest = failure "no number" rest

abbrev next_any : List Piece → Got (List Piece) ⊤
next_any (piece ∷ rest) = value tt rest
next_any [] = failure "end" []

abbrev pieces : Protocol (List Piece)
pieces = record {
  read_message_begin = next_head;
  read_message_end = λ i. value tt i;
  read_struct_begin = λ i. value "" i;
  read_struct_end = λ i. value tt i;
  read_field_begin = next_field;
  read_field_end = λ i. value tt i;
  read_string = next_text;
  read_i32 = next_number;
  read_double = next_real;
  skip = λ t i. next_any i;
}

next_field-FieldLeaves : (i : List Piece) → FieldLeaves length (length i) (next_field i)
next_field-FieldLeaves [] = tt
next_field-FieldLeaves (head_piece head ∷ rest) = tt
next_field-FieldLeaves (field_piece field ∷ rest) = (omega arith, λ e. omega arith)
next_field-FieldLeaves (text_piece text ∷ rest) = tt
next_field-FieldLeaves (number_piece n ∷ rest) = tt
next_field-FieldLeaves (real_piece x ∷ rest) = tt

next_head-Leaves : (i : List Piece) → Leaves length (length i) (next_head i)
next_head-Leaves [] = tt
next_head-Leaves (head_piece head ∷ rest) = omega arith
next_head-Leaves (field_piece field ∷ rest) = tt
next_head-Leaves (text_piece text ∷ rest) = tt
next_head-Leaves (number_piece n ∷ rest) = tt
next_head-Leaves (real_piece x ∷ rest) = tt

next_text-Leaves : (i : List Piece) → Leaves length (length i) (next_text i)
next_text-Leaves [] = tt
next_text-Leaves (head_piece head ∷ rest) = tt
next_text-Leaves (field_piece field ∷ rest) = tt
next_text-Leaves (text_piece text ∷ rest) = omega arith
next_text-Leaves (number_piece n ∷ rest) = tt
next_text-Leaves (real_piece x ∷ rest) = tt

next_number-Leaves : (i : List Piece) → Leaves length (length i) (next_number i)
next_number-Leaves [] = tt
next_number-Leaves (head_piece head ∷ rest) = tt
next_number-Leaves (field_piece field ∷ rest) = tt
next_number-Leaves (text_piece text ∷ rest) = tt
next_number-Leaves (number_piece n ∷ rest) = omega arith
next_number-Leaves (real_piece x ∷ rest) = tt

next_real-Leaves : (i : List Piece) → Leaves length (length i) (next_real i)
next_real-Leaves [] = tt
next_real-Leaves (head_piece head ∷ rest) = tt
next_real-Leaves (field_piece field ∷ rest) = tt
next_real-Leaves (text_piece text ∷ rest) = tt
next_real-Leaves (number_piece n ∷ rest) = tt
next_real-Leaves (real_piece x ∷ rest) = omega arith

next_any-Leaves : (i : List Piece) → Leaves length (length i) (next_any i)
next_any-Leaves [] = tt
next_any-Leaves (piece ∷ rest) = omega arith

pieces-IsShrinking : IsShrinking pieces length
pieces-IsShrinking = record {
  message_begin = next_head-Leaves;
  message_end = λ i. omega arith;
  struct_begin = λ i. omega arith;
  struct_end = λ i. omega arith;
  field_begin = next_field-FieldLeaves;
  field_end = λ i. omega arith;
  string = next_text-Leaves;
  i32 = next_number-Leaves;
  double = next_real-Leaves;
  skip = λ t i. next_any-Leaves i;
}

abbrev thrift_server : ThriftServer (List Piece) (List Write)
thrift_server = record {
  protocol = pieces;
  sink = record { write = λ call o. (call ∷ o, none) };
  jwt = jwt;
  auth = auth;
  now = 200;
  env = env;
  ops = ops;
  speed = ninety;
  sort_slice = λ less views. views;
  unix = λ t. pos t;
  fuel = 20;
}

abbrev field_of : TType → ℕ → Piece
field_of t id = field_piece (record { field_type = t; id = pos id })

-- The arguments of `WithdrawOrder`.
abbrev withdraw_args : List Piece
withdraw_args =
    field_of struct_type 1
    ∷ field_of string_type 1
    ∷ text_piece "token"
    ∷ field_of string_type 2
    ∷ text_piece "o1"
    ∷ field_of stop_type 0
    ∷ field_of stop_type 0
    ∷ []

abbrev withdraw_message : List Piece
withdraw_message =
    head_piece (record { name = "WithdrawOrder"; message_type = call_message; seq_id = pos 1 })
    ∷ withdraw_args

handle-Matches_example :
    Matches thrift_server "WithdrawOrder"
      (pos 1)
      []
      (after placed)
      (requested thrift_server Method.withdraw_order withdraw_args)
      (handle thrift_server Method.withdraw_order (pos 1) withdraw_args [] (after placed))
    ⊎ (Method.withdraw_order ≡ Method.issue_token)
handle-Matches_example =
    handle-Matches thrift_server Method.withdraw_order (pos 1) withdraw_args [] (after placed)

requested_test :
    requested thrift_server Method.withdraw_order withdraw_args
    ≡ got ("token", withdraw_order_call "o1") []
unfolding requested read_order_id_request
requested_test = refl

process-Admitted_example :
    (store_of (after placed) (process thrift_server withdraw_message [] (after placed))
      ≡ after placed)
    ⊎ Admitted thrift_server withdraw_message
        (after placed)
        (store_of (after placed) (process thrift_server withdraw_message [] (after placed)))
process-Admitted_example = process-Admitted thrift_server withdraw_message [] (after placed)

process-is_finished_example :
    is_finished (process thrift_server withdraw_message [] (after placed)) ≡ true
process-is_finished_example =
    process-is_finished thrift_server length withdraw_message [] (after placed) pieces-IsShrinking
      (omega arith)

answer_calls-nested_example :
    nested
      (reply_calls "ListDrones"
        (pos 1)
        (answer_calls (λ t. pos t) (drones_answer (flying_drone ∷ []))))
      []
    ≡ none
answer_calls-nested_example =
    answer_calls-nested (λ t. pos t) "ListDrones" (pos 1) (drones_answer (flying_drone ∷ []))

token_reply_test :
    nested
      (reply_calls "IssueToken" (pos 1) (answer_calls (λ t. pos t) (token_answer "token" 3730)))
      []
    ≡ some []
token_reply_test = answer_calls-nested (λ t. pos t) "IssueToken" (pos 1) (token_answer "token" 3730)
