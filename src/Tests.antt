-- ===== src/Tests.antt =====
-- Runs of the code on small inputs, and the theorems applied to them.

mod Transports
use drone_management_system.Transport.{from_drone_status}
use drone_management_system.Migrations.Again.{apply_migrations-again}
use drone_management_system.Outbox.Progress.{ticks-pending, pending}
use drone_management_system.Views.Bounds.{admin_list_orders-AtMost, AtMost, too_many}
use drone_management_system.Migrations.{
  apply_paths, script_paths, Disk, Schema, apply_migrations, entries, migrated,
}
use drone_management_system.Auth.{Claims}
use drone_management_system.Grpc.{refuse}
use drone_management_system.Grpc.Guards.{serve-refuses, refusal, serve, admin_update_order_call}
use drone_management_system.Views.Laws.{
  get_order_view-Ensures, drone_current_order-Ensures, ViewRefused, Shown, CurrentRefused, Carrying,
}
use drone_management_system.Views.{admin_list_orders, drone_current_order, get_order_view}
use drone_management_system.Transport.Mapper.{drone_status_of-from_drone_status, drone_status_of}
use drone_management_system.Eta.{
  DroneStatusView, compute_eta-current_location, current_location, estimate, compute_eta, FloatOps,
}
use drone_management_system.Outbox.Delivery.{ticks-AllAccounted, AllAccounted, AcceptedIn}
use drone_management_system.Transport.Errors.{error_mappings-Agree, Agree}
use drone_management_system.Outbox.{ticks, Tick, Worker}
use drone_management_system.Integer.{pos}
use drone_management_system.Domain.{role_end_user, sentinel, wrapped, invalid}
use drone_management_system.Service.Withdraw.{withdraw_order-Outcome, WithdrawRefused, Withdrawn}
use drone_management_system.Service.Drones.{drone_mark_fixed-Outcome, Fixed}
use drone_management_system.Domain.Locations.{validate_location_iff, IsWithin}
use drone_management_system.Tables.Reserve.{order_reserve-oldest, order_reserve-IsFree, IsFree}
use drone_management_system.Service.Carriage.{
  drone_fail-Outcome, drone_deliver-Outcome, drone_pickup-Outcome, FailRefused, StepRefused,
  Completed, PickedUp,
}
use drone_management_system.Sorting.Laws.{All}
use drone_management_system.Service.Reserve.{
  drone_reserve_job-Outcome, ReserveRefused, Reserved, open_statuses,
}
use drone_management_system.Exec.Outcomes.{Ensures, Outcome}
use drone_management_system.Tables.Keys.{UniqueKeys}
use drone_management_system.Tx.{
  list_limit, OrderFilter, get_order_for_update, get_drone_for_update, create_order, create_drone,
  update_order, update_drone, enqueue_event, reserve_next_order,
}
use drone_management_system.Tables.{
  OutboxRow, new_drone, new_order, add_event, put_drone, put_order, order_select_by_id,
  order_update, order_insert, is_reservable, order_reserve, drone_select_by_id, drone_update,
  drone_insert, outbox_insert, find_order, find_drone,
}
use drone_management_system.Sorting.{insert_by, sort_by, where_}
use drone_management_system.Service.Histories.{
  run-keeps_order, run-terminal, call, OneStep, fail, mark_broken, mark_fixed, heartbeat,
  mark_fixed, heartbeat, mark_broken, call, run,
}
use drone_management_system.Service.{
  submitted, new_active_drone, enqueue_order_event, enqueue_drone_event, create_missing,
  get_or_create_drone, submit_order_tx, submit_order, release_drone, withdraw_order_tx,
  withdraw_order, admin_update_order_tx, admin_update_order, drone_reserve_job_tx,
  drone_reserve_job, update_order_for_drone_tx, update_order_for_drone, pick_up, drone_pickup,
  complete_order_for_drone_tx, complete_order_for_drone, drone_deliver, drone_fail, hand_off,
  release_order, drone_mark_broken_tx, drone_mark_broken, drone_mark_fixed_tx, drone_mark_fixed,
  record_heartbeat_tx, record_heartbeat,
}
use drone_management_system.Rows.{
  OrderRow, null_string, null_time, null_location_lat, null_location_lng, optional_location_lat,
  optional_location_lng, scan_order, scan_drone, order_insert_values, order_update_values,
  drone_insert_values, drone_update_values,
}
use drone_management_system.Float64.{float_lt, float_gt}
use drone_management_system.Exec.{
  pure, raise, raise_if, raise_on, lift, ◌>>=◌, now, uuid_new_string, statement, in_tx,
}
use drone_management_system.Events.{
  event_order_created, new_event, new_order_event, new_drone_event,
}
use drone_management_system.Domain.{
  Drone, Time, handoff_requested, failed, withdrawn, picked_up, reserved, created,
  order_status_text, drone_status_text, is_terminal, validate_location,
}
use drone_management_system.Rows.RoundTrip.{scan_drone-insert_update, scan_order-insert_update}
use drone_management_system.Base.{◌==◌, arith, ◌/◌, ◌*◌, ◌-◌, ◌≤◌, ◌↔◌, Bool, ◌++◌, zero, suc}
use drone_management_system.Service.Histories.{reserve, submit, pickup, deliver, withdraw}
use drone_management_system.Service.Consistency.{holder, IsConsistent, carried}
use drone_management_system.Service.{drone_deliver, drone_pickup, drone_reserve_job, submit_order}
use drone_management_system.Float64.{minus_one_eighty, one_eighty, zero_float, ninety}
use drone_management_system.Domain.{delivered, OrderStatus, Order, Location}
use drone_management_system.Tables.{
  drone_select_by_id, order_select_by_id, find_drone, Db, find_order,
}
use drone_management_system.Service.Histories.{pickup, run-IsConsistent, submit, call, Command, run}
use drone_management_system.Exec.{State, Env}
use drone_management_system.Base.{
  none, some, false, true, String, ◌+◌, Option, ℕ, List, ◌≡◌, refl, [], ◌∷◌,
}

-- The first identifier drawn is that of the first order.
abbrev ids : ℕ → String
ids zero = "o1"
ids (suc n) = "e1"

abbrev env : Env
env = record {
  clock = λ n. 1000 * (100 + n);
  uuid = ids;
  collate = λ a b. true;
  locked = λ n i. false;
  fault = λ n. false;
}

abbrev empty_db : Db
empty_db = record { orders = []; drones = []; outbox = [] }

abbrev start : State
start = record { db = empty_db; calls = 0; ticks = 0; ids = 0 }

abbrev depot : Location
depot = record { lat = zero_float; lng = zero_float }

abbrev client : Location
client = record { lat = ninety; lng = minus_one_eighty }

abbrev nowhere : Location
nowhere = record { lat = one_eighty; lng = zero_float }

empty_db-IsConsistent : IsConsistent empty_db
unfolding find_order find_drone carried holder order_select_by_id drone_select_by_id
empty_db-IsConsistent = record {
  formed = record { keys = tt; orders_shape = λ id o e. cc; drones_shape = λ id x e. cc };
  linked = λ x i. (λ e. cc, λ e. cc);
}

-- The history of one order, call by call.
abbrev placed : List Command
placed = submit "u1" depot client ∷ []

abbrev taken : List Command
taken = submit "u1" depot client ∷ reserve "d1" ∷ []

abbrev flying : List Command
flying = submit "u1" depot client ∷ reserve "d1" ∷ pickup "d1" "o1" ∷ []

abbrev ended : List Command
ended = submit "u1" depot client ∷ reserve "d1" ∷ pickup "d1" "o1" ∷ deliver "d1" "o1" ∷ []

abbrev after : List Command → State
after cs = run env cs start

after-IsConsistent : (cs : List Command) → IsConsistent (after cs).db
after-IsConsistent cs = run-IsConsistent env cs start empty_db-IsConsistent

abbrev status_of : Option Order → Option OrderStatus
status_of none = none
status_of (some o) = some o.status

-- The order after it was delivered.
abbrev delivered_order : Order
delivered_order = record {
  id = "o1";
  user_id = "u1";
  origin = depot;
  destination = client;
  status = delivered;
  assigned_drone_id = some "d1";
  handoff_origin = none;
  created_at = 100;
  updated_at = 105;
  reserved_at = some 102;
  picked_up_at = some 103;
  delivered_at = some 105;
  failed_at = none;
  failure_reason = none;
}

abbrev status_after : List Command → Option OrderStatus
status_after cs = status_of (find_order "o1" (after cs).db)

histories_test :
    (find_order "o1" (after ended).db ≡ some delivered_order)
    × (status_after placed ≡ some created)
    × (status_after taken ≡ some reserved)
    × (status_after flying ≡ some picked_up)
    × (status_after (placed ++ withdraw "u1" "o1" ∷ []) ≡ some withdrawn)
    × (status_after (placed ++ withdraw "u2" "o1" ∷ []) ≡ some created)
    × (status_after (flying ++ withdraw "u1" "o1" ∷ []) ≡ some picked_up)
    × (status_after (flying ++ fail "d1" "o1" "wind" ∷ []) ≡ some failed)
    × (status_after (flying ++ fail "d1" "o1" "" ∷ []) ≡ some picked_up)
    × (status_after (taken ++ mark_broken "d1" ∷ []) ≡ some created)
    × (status_after (flying ++ heartbeat "d1" client ∷ mark_broken "d1" ∷ [])
        ≡ some handoff_requested)
    × (status_after (flying ++ mark_broken "d1" ∷ reserve "d2" ∷ []) ≡ some reserved)
    × (status_after (placed ++ mark_broken "d1" ∷ reserve "d1" ∷ []) ≡ some created)
    × (status_after (placed ++ mark_broken "d1" ∷ mark_fixed "d1" ∷ reserve "d1" ∷ [])
        ≡ some reserved)
    × (status_after (submit "u1" nowhere client ∷ []) ≡ none)
unfolding put_order put_drone add_event new_order new_drone float_lt float_gt order_status_text
    drone_status_text is_terminal validate_location new_event new_order_event new_drone_event
    null_string null_time null_location_lat null_location_lng optional_location_lat
    optional_location_lng scan_order scan_drone order_insert_values order_update_values
    drone_insert_values drone_update_values insert_by sort_by where_ order_select_by_id order_update
    order_insert is_reservable order_reserve drone_select_by_id drone_update drone_insert
    outbox_insert find_order find_drone pure raise raise_if raise_on lift ◌>>=◌ now uuid_new_string
    statement in_tx get_order_for_update get_drone_for_update create_order create_drone update_order
    update_drone enqueue_event reserve_next_order enqueue_order_event enqueue_drone_event
    create_missing get_or_create_drone submit_order_tx submit_order release_drone withdraw_order_tx
    withdraw_order admin_update_order_tx admin_update_order drone_reserve_job_tx drone_reserve_job
    update_order_for_drone_tx update_order_for_drone pick_up drone_pickup
    complete_order_for_drone_tx complete_order_for_drone drone_deliver drone_fail hand_off
    release_order drone_mark_broken_tx drone_mark_broken drone_mark_fixed_tx drone_mark_fixed
    record_heartbeat_tx record_heartbeat call run
histories_test =
    (refl, refl, refl, refl, refl, refl, refl, refl, refl, refl, refl, refl, refl, refl, refl)

withdraw_order-Outcome_example :
    Outcome env
      (after taken).db
      (Withdrawn (after taken).db "u1" "o1")
      (WithdrawRefused (after taken).db "u1" "o1")
      (withdraw_order env "u1" "o1" (after taken))
withdraw_order-Outcome_example =
    withdraw_order-Outcome env "u1" "o1" (after taken) (after-IsConsistent taken)

drone_reserve_job-Outcome_example :
    Outcome env
      (after placed).db
      (Reserved env "d1" (after placed).db)
      (ReserveRefused env "d1" (after placed).db)
      (drone_reserve_job env "d1" (after placed))
drone_reserve_job-Outcome_example =
    drone_reserve_job-Outcome env "d1" (after placed) (after-IsConsistent placed)

drone_pickup-Outcome_example :
    Outcome env
      (after taken).db
      (PickedUp "d1" "o1" (after taken).db)
      (StepRefused reserved (after taken).db "d1" "o1")
      (drone_pickup env "d1" "o1" (after taken))
drone_pickup-Outcome_example =
    drone_pickup-Outcome env "d1" "o1" (after taken) (after-IsConsistent taken)

drone_deliver-Outcome_example :
    Outcome env
      (after flying).db
      (Completed env delivered "" "d1" "o1" (after flying).db)
      (StepRefused picked_up (after flying).db "d1" "o1")
      (drone_deliver env "d1" "o1" (after flying))
drone_deliver-Outcome_example =
    drone_deliver-Outcome env "d1" "o1" (after flying) (after-IsConsistent flying)

drone_fail-Outcome_example :
    Outcome env
      (after flying).db
      (Completed env failed "wind" "d1" "o1" (after flying).db)
      (FailRefused "wind" (after flying).db "d1" "o1")
      (drone_fail env "d1" "o1" "wind" (after flying))
drone_fail-Outcome_example =
    drone_fail-Outcome env "d1" "o1" "wind" (after flying) (after-IsConsistent flying)

drone_mark_fixed-Outcome_example :
    Outcome env
      (after flying).db
      (Fixed env "d1" (after flying).db)
      (λ e. ⊥)
      (drone_mark_fixed env "d1" (after flying))
drone_mark_fixed-Outcome_example =
    drone_mark_fixed-Outcome env "d1" (after flying) (after-IsConsistent flying)

run-IsConsistent_example : IsConsistent (run env ended start).db
run-IsConsistent_example = run-IsConsistent env ended start empty_db-IsConsistent

run-terminal_example : find_order "o1" (run env flying (after ended)).db ≡ some delivered_order
unfolding is_terminal
run-terminal_example =
    run-terminal env flying (after ended) "o1" delivered_order (after-IsConsistent ended)
      histories_test.0 refl

run-keeps_order_example :
    (o' : Order) × (find_order "o1" (call env (withdraw "u1" "o1") (run env ended start)).db
      ≡ some o')
    × OneStep delivered_order o'
run-keeps_order_example =
    run-keeps_order env ended (withdraw "u1" "o1") start "o1" delivered_order empty_db-IsConsistent
      histories_test.0

-- Two rows of the table of orders, the later one first.
abbrev row_of : String → Time → OrderRow
row_of id time = order_insert_values (submitted id "u1" depot client time)

abbrev rows : List OrderRow
rows = row_of "o2" 7 ∷ row_of "o1" 5 ∷ []

abbrev nothing_locked : String → Bool
nothing_locked i = false

reserved_row_test : order_reserve open_statuses nothing_locked rows ≡ some (row_of "o1" 5)
unfolding order_reserve is_reservable sort_by insert_by where_ order_insert_values order_status_text
reserved_row_test = refl

rows-UniqueKeys : UniqueKeys rows
unfolding order_insert_values order_select_by_id
rows-UniqueKeys = (refl, (refl, tt))

order_reserve-IsFree_example :
    (order_select_by_id (row_of "o1" 5).id rows ≡ some (row_of "o1" 5))
    × IsFree open_statuses nothing_locked (row_of "o1" 5)
order_reserve-IsFree_example =
    order_reserve-IsFree open_statuses nothing_locked rows (row_of "o1" 5) rows-UniqueKeys
      reserved_row_test

order_reserve-oldest_example :
    All
      (λ r.
        is_reservable open_statuses nothing_locked r ≡ true
        → (row_of "o1" 5).created_at ≤ r.created_at)
      rows
order_reserve-oldest_example =
    order_reserve-oldest open_statuses nothing_locked rows (row_of "o1" 5) reserved_row_test

abbrev flying_drone : Drone
flying_drone = record (new_active_drone "d1" 3) {
  last_location = some client;
  current_order_id = some "o1";
}

scan_order-insert_update_example :
    (scan_order (order_insert_values delivered_order) ≡ delivered_order)
    × (scan_order (order_update_values delivered_order (row_of "o1" 5)) ≡ record delivered_order {
      id = (row_of "o1" 5).id;
      created_at = (row_of "o1" 5).created_at;
    })
scan_order-insert_update_example = scan_order-insert_update delivered_order (row_of "o1" 5)

scan_drone-insert_update_example :
    (scan_drone (drone_insert_values flying_drone) ≡ flying_drone)
    × (scan_drone (drone_update_values flying_drone (drone_insert_values flying_drone))
        ≡ record flying_drone {
          id = (drone_insert_values flying_drone).id;
          created_at = (drone_insert_values flying_drone).created_at;
        })
scan_drone-insert_update_example =
    scan_drone-insert_update flying_drone (drone_insert_values flying_drone)

validate_location_iff_example :
    (validate_location client ≡ none)
    ↔ (IsWithin ninety client.lat × IsWithin one_eighty client.lng)
validate_location_iff_example = validate_location_iff client

-- Exact arithmetic on small numbers in place of the one of the processor.
abbrev ops : FloatOps
ops = record {
  add = λ a b. a + b;
  sub = λ a b. a - b;
  mul = λ a b. a * b;
  div = λ a b. a / b;
  sin = λ a. a;
  cos = λ a. 1;
  asin = λ a. a;
  sqrt = λ a. a;
  int64 = pos;
}

get_order_view-Ensures_example :
    Ensures env
      (get_order_view env ops ninety "u1" role_end_user "o1")
      (after flying).db
      (Shown ops ninety "u1" role_end_user "o1" (after flying).db)
      (ViewRefused "u1" role_end_user "o1" (after flying).db)
get_order_view-Ensures_example =
    get_order_view-Ensures env ops ninety "u1" role_end_user "o1" (after flying).db

drone_current_order-Ensures_example :
    Ensures env
      (drone_current_order env ops ninety "d1")
      (after flying).db
      (Carrying ops ninety "d1" (after flying).db)
      (CurrentRefused "d1" (after flying).db)
drone_current_order-Ensures_example =
    drone_current_order-Ensures env ops ninety "d1" (after flying).db (after-IsConsistent flying)

compute_eta-current_location_example :
    compute_eta ops (submitted "o1" "u1" depot client 5) none ninety
    ≡ estimate ops ninety client (current_location (submitted "o1" "u1" depot client 5) none)
unfolding float_gt
compute_eta-current_location_example =
    compute_eta-current_location ops (submitted "o1" "u1" depot client 5) none ninety refl

-- Two ticks over the outbox of a delivery: the first cannot mark what it has sent.
abbrev two_ticks : List Tick
two_ticks =
    record { fetch_fails = false; accepts = λ e. true; mark_fails = true; time = 200 }
    ∷ record { fetch_fails = false; accepts = λ e. true; mark_fails = false; time = 201 }
    ∷ []

abbrev waiting_row : OutboxRow
waiting_row = record {
  event = new_order_event "e7" event_order_created (submitted "o1" "u1" depot client 5) none 5;
  published_at = none;
}

abbrev worker : Worker
worker = record { outbox = waiting_row ∷ [] }

ticks-AllAccounted_example :
    AllAccounted
      (λ id. AcceptedIn id two_ticks)
      (waiting_row ∷ [])
      (ticks (pos 0) two_ticks worker).outbox
ticks-AllAccounted_example = ticks-AllAccounted (pos 0) two_ticks worker

error_mappings-Agree_example : Agree (wrapped "origin" (sentinel invalid))
error_mappings-Agree_example = error_mappings-Agree (wrapped "origin" (sentinel invalid))

-- What a drone in flight is shown.
abbrev flight_view : DroneStatusView
flight_view = record {
  drone = flying_drone;
  current_order = some (record {
    order = delivered_order;
    current_location = some client;
    eta_seconds = some (pos 60);
  });
}

drone_status_of-from_drone_status_example :
    drone_status_of (from_drone_status flight_view) ≡ flight_view
drone_status_of-from_drone_status_example = drone_status_of-from_drone_status flight_view

-- A user asks for what only an administrator may do.
abbrev user : Claims
user = record { subject = "u1"; role = role_end_user; issued_at = 100; expires_at = 3700 }

serve-refuses_example :
    serve env ops ninety
      (λ less views. views)
      (some user)
      (admin_update_order_call "o1" none (some depot))
      (after flying)
    ≡ (refuse (refusal (some user)), after flying)
serve-refuses_example =
    serve-refuses env ops ninety (λ less views. views) (some user)
      (admin_update_order_call "o1" none (some depot)) (after flying) refl

abbrev smooth_tick : Tick
smooth_tick = record { fetch_fails = false; accepts = λ e. true; mark_fails = false; time = 201 }

ticks-pending_example : pending (ticks (pos 10) (smooth_tick ∷ []) worker).outbox ≡ 0
ticks-pending_example =
    ticks-pending (pos 10) (smooth_tick ∷ []) worker ((refl, (refl, λ e. refl)), tt) (omega arith)

abbrev large_page : OrderFilter
large_page = record { status = none; limit = pos 1000; offset = pos 0 }

admin_list_orders-AtMost_example :
    AtMost 100 (admin_list_orders env ops ninety (λ less views. views) large_page (after flying)).0
admin_list_orders-AtMost_example =
    admin_list_orders-AtMost env ops ninety (λ less views. views) large_page (after flying) 100
      (λ less views. refl) (too_many (omega arith))

-- A directory with two scripts and a folder.
abbrev disk : Disk
disk = record {
  read_dir = entries (
      record { name = "2.sql"; is_dir = false }
      ∷ record { name = "old"; is_dir = true }
      ∷ record { name = "1.sql"; is_dir = false }
      ∷ []);
  has_suffix = λ name. true;
  join = λ name. name;
  base = λ path. path;
  collate = λ a b. a == "1.sql";
  read_file = λ path. some path;
  creates = true;
  queries = λ version. true;
  runs = λ content. true;
  inserts = λ version. true;
}

abbrev fresh_schema : Schema
fresh_schema = record { versions = []; scripts = [] }

abbrev migrated_schema : Schema
migrated_schema = record { versions = "2.sql" ∷ "1.sql" ∷ []; scripts = "1.sql" ∷ "2.sql" ∷ [] }

apply_migrations-again_example : apply_migrations disk migrated_schema ≡ (migrated, migrated_schema)
unfolding apply_migrations script_paths apply_paths sort_by insert_by
apply_migrations-again_example = apply_migrations-again disk fresh_schema migrated_schema refl
