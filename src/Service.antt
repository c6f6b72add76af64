-- ===== src/Service.antt =====
-- internal/service/service.go: the operations that change orders and drones. Each body runs in one
-- transaction; what the code does before `BeginTx` stands before `in_tx`. Reading operations are in
-- `Views`.
pub mod Links
pub mod Consistency
pub mod Rules
pub mod Lifecycle
pub mod Changes
pub mod Withdraw
pub mod Carriage
pub mod Orders
pub mod Obtain
pub mod Reserve
pub mod Broken
pub mod Drones
pub mod Breakdown
pub mod Histories
use drone_management_system.Base.{
  Option, none, some, Bool, true, not, ◌&&◌, String, ◌==◌, [], ◌∷◌, if◌then◌else◌, is_some,
}
use drone_management_system.Domain.{
  Time, OrderStatus, created, reserved, picked_up, handoff_requested, delivered, failed, withdrawn,
  active, broken, Location, Order, Drone, Error, sentinel, wrapped, not_found, conflict, invalid,
  forbidden, no_job, precondition, same_status, is_broken, is_terminal, validate_location,
  errors_is,
}
use drone_management_system.Events.{
  new_order_event, new_drone_event, event_order_created, event_order_reserved,
  event_order_picked_up, event_order_delivered, event_order_failed, event_order_handoff_requested,
  event_order_withdrawn, event_order_updated, event_drone_broken, event_drone_fixed,
}
use drone_management_system.Exec.{
  Env, Result, ok, err, Exec, pure, raise, ◌>>=◌, ◌>>◌, raise_if, raise_on, lift, or_error, now,
  uuid_new_string, in_tx, ⊤,
}
use drone_management_system.Tx.{
  get_order_for_update, get_drone_for_update, create_order, create_drone, update_order,
  update_drone, enqueue_event, reserve_next_order,
}

-- The order that `SubmitOrder` creates.
abbrev pub submitted : String → String → Location → Location → Time → Order
submitted id user origin dest time = record {
  id = id;
  user_id = user;
  origin = origin;
  destination = dest;
  status = created;
  assigned_drone_id = none;
  handoff_origin = none;
  created_at = time;
  updated_at = time;
  reserved_at = none;
  picked_up_at = none;
  delivered_at = none;
  failed_at = none;
  failure_reason = none;
}

-- The drone that `getOrCreateDrone` creates.
abbrev pub new_active_drone : String → Time → Drone
new_active_drone id time = record {
  id = id;
  status = active;
  last_location = none;
  last_heartbeat_at = none;
  current_order_id = none;
  created_at = time;
  updated_at = time;
}

-- `order.AssignedDroneID == nil || *order.AssignedDroneID != droneID`
abbrev pub not_assigned_to : String → Option String → Bool
not_assigned_to drone_id none = true
not_assigned_to drone_id (some assigned) = not (assigned == drone_id)

-- `if origin != nil { validate; order.Origin = *origin }`, and the same of the destination.
abbrev pub invalid_update : Option Location → Option Error
invalid_update none = none
invalid_update (some loc) = validate_location loc

abbrev pub or_old : Option Location → Location → Location
or_old none old = old
or_old (some loc) old = loc

-- The last known place of a broken drone becomes the origin of the handoff, where there is one.
abbrev pub handoff_from : Option Location → Option Location → Option Location
handoff_from none old = old
handoff_from (some loc) old = some loc

-- The order of a broken drone, when it was picked up and when it was only reserved.
abbrev pub handed_over : Order → Option Location → Time → Order
handed_over order last time = record order {
  status = handoff_requested;
  assigned_drone_id = none;
  handoff_origin = handoff_from last order.handoff_origin;
  updated_at = time;
}

abbrev pub requeued : Order → Time → Order
requeued order time = record order {
  status = created;
  assigned_drone_id = none;
  reserved_at = none;
  handoff_origin = none;
  updated_at = time;
}

-- The order of `completeOrderForDrone`; `reason` is set only where it is not empty.
abbrev pub completed : Order → OrderStatus → String → Time → Order
completed order delivered reason time = record order {
  status = delivered;
  updated_at = time;
  delivered_at = some time;
}
completed order status reason time = record order {
  status = status;
  updated_at = time;
  failed_at = some time;
  failure_reason = if reason == "" then order.failure_reason else some reason;
}

abbrev pub completion_event : OrderStatus → String
completion_event failed = event_order_failed
completion_event _ = event_order_delivered

module _ (env : Env) where
  -- `tx.EnqueueEvent(ctx, events.NewOrderEvent(…))`
  unfoldable pub enqueue_order_event : String → Order → Option Drone → Time → Exec ⊤
  enqueue_order_event event_type order drone time = do
    id ← uuid_new_string env
    enqueue_event env (new_order_event id event_type order drone time)

  unfoldable pub enqueue_drone_event : String → Drone → Time → Exec ⊤
  enqueue_drone_event event_type drone time = do
    id ← uuid_new_string env
    enqueue_event env (new_drone_event id event_type drone time)

  -- The recovery of `getOrCreateDrone` from `ErrNotFound`.
  unfoldable pub create_missing : String → Time → Result Drone → Exec Drone
  create_missing drone_id time (ok drone) = pure drone
  create_missing drone_id time (err e) =
      if errors_is e not_found
      then (do
        create_drone env (new_active_drone drone_id time)
        pure (new_active_drone drone_id time))
      else raise e

  unfoldable pub get_or_create_drone : String → Time → Exec Drone
  get_or_create_drone drone_id time s =
      let found = get_drone_for_update env drone_id s in
      create_missing drone_id time found.0 found.1

  unfoldable pub submit_order_tx : String → Location → Location → Exec Order
  unfolding enqueue_order_event
  submit_order_tx user_id origin dest = do
    time ← now env
    id ← uuid_new_string env
    let order = submitted id user_id origin dest time
    create_order env order
    enqueue_order_event event_order_created order none time
    pure order

  unfoldable pub submit_order : String → Location → Location → Exec Order
  submit_order user_id origin dest = do
    raise_on (validate_location origin) (wrapped "origin" (sentinel invalid))
    raise_on (validate_location dest) (wrapped "destination" (sentinel invalid))
    in_tx env (submit_order_tx user_id origin dest)

  -- The release of the drone of a reserved order, by the order's status and assigned drone.
  unfoldable pub release_drone : OrderStatus → Option String → Exec ⊤
  release_drone reserved (some drone_id) = do
    drone ← get_drone_for_update env drone_id
    time ← now env
    update_drone env (record drone { current_order_id = none; updated_at = time })
  release_drone _ _ = pure tt

  unfoldable pub withdraw_order_tx : String → String → Exec Order
  unfolding enqueue_order_event release_drone
  withdraw_order_tx user_id order_id = do
    order ← get_order_for_update env order_id
    raise_if (not (order.user_id == user_id)) (sentinel forbidden)
    raise_if (not (same_status order.status created) && not (same_status order.status reserved))
        (sentinel precondition)
    release_drone order.status order.assigned_drone_id
    time ← now env
    let withdrawn_order = record order {
      status = withdrawn;
      assigned_drone_id = none;
      updated_at = time;
    }
    update_order env withdrawn_order
    enqueue_order_event event_order_withdrawn withdrawn_order none time
    pure withdrawn_order

  unfoldable pub withdraw_order : String → String → Exec Order
  unfolding withdraw_order_tx
  withdraw_order user_id order_id = in_tx env (withdraw_order_tx user_id order_id)

  unfoldable pub admin_update_order_tx : String → Option Location → Option Location → Exec Order
  unfolding enqueue_order_event
  admin_update_order_tx order_id origin dest = do
    order ← get_order_for_update env order_id
    raise_if (is_terminal order.status) (sentinel precondition)
    raise_on (invalid_update origin) (sentinel invalid)
    raise_on (invalid_update dest) (sentinel invalid)
    time ← now env
    let updated = record order {
      origin = or_old origin order.origin;
      destination = or_old dest order.destination;
      updated_at = time;
    }
    update_order env updated
    event_time ← now env
    enqueue_order_event event_order_updated updated none event_time
    pure updated

  unfoldable pub admin_update_order : String → Option Location → Option Location → Exec Order
  unfolding admin_update_order_tx
  admin_update_order order_id origin dest = in_tx env (admin_update_order_tx order_id origin dest)

  unfoldable pub drone_reserve_job_tx : String → Exec Order
  unfolding enqueue_order_event get_or_create_drone create_missing
  drone_reserve_job_tx drone_id = do
    asked ← now env
    drone ← get_or_create_drone drone_id asked
    raise_if (is_broken drone.status) (sentinel precondition)
    raise_if (is_some drone.current_order_id) (sentinel conflict)
    next ← reserve_next_order env (created ∷ handoff_requested ∷ [])
    order ← lift (or_error next (sentinel no_job))
    time ← now env
    let reserved_order = record order {
      status = reserved;
      assigned_drone_id = some drone.id;
      reserved_at = some time;
      updated_at = time;
    }
    update_order env reserved_order
    let carrier = record drone { current_order_id = some reserved_order.id; updated_at = time }
    update_drone env carrier
    enqueue_order_event event_order_reserved reserved_order (some carrier) time
    pure reserved_order

  unfoldable pub drone_reserve_job : String → Exec Order
  unfolding drone_reserve_job_tx
  drone_reserve_job drone_id = in_tx env (drone_reserve_job_tx drone_id)

  -- `updateOrderForDrone`; `fn` changes the order or fails.
  unfoldable pub update_order_for_drone_tx :
      String → String → String → (Order → Exec Order) → Exec Order
  unfolding enqueue_order_event
  update_order_for_drone_tx drone_id order_id event_type fn = do
    order ← get_order_for_update env order_id
    raise_if (not_assigned_to drone_id order.assigned_drone_id) (sentinel forbidden)
    changed ← fn order
    update_order env changed
    time ← now env
    enqueue_order_event event_type changed none time
    pure changed

  unfoldable pub update_order_for_drone :
      String → String → String → (Order → Exec Order) → Exec Order
  unfolding update_order_for_drone_tx
  update_order_for_drone drone_id order_id event_type fn =
      in_tx env (update_order_for_drone_tx drone_id order_id event_type fn)

  -- The function that `DronePickup` passes.
  unfoldable pub pick_up : Order → Exec Order
  pick_up order = do
    raise_if
        (not (same_status order.status reserved)
          && not (same_status order.status handoff_requested))
        (sentinel precondition)
    time ← now env
    pure (record order { status = picked_up; picked_up_at = some time; updated_at = time })

  unfoldable pub drone_pickup : String → String → Exec Order
  unfolding update_order_for_drone pick_up
  drone_pickup drone_id order_id =
      update_order_for_drone drone_id order_id event_order_picked_up pick_up

  unfoldable pub complete_order_for_drone_tx : String → String → OrderStatus → String → Exec Order
  unfolding enqueue_order_event
  complete_order_for_drone_tx drone_id order_id status reason = do
    order ← get_order_for_update env order_id
    raise_if (not_assigned_to drone_id order.assigned_drone_id) (sentinel forbidden)
    raise_if (not (same_status order.status picked_up)) (sentinel precondition)
    time ← now env
    let done = completed order status reason time
    update_order env done
    drone ← get_drone_for_update env drone_id
    let idle = record drone { current_order_id = none; updated_at = time }
    update_drone env idle
    enqueue_order_event (completion_event status) done (some idle) time
    pure done

  unfoldable pub complete_order_for_drone : String → String → OrderStatus → String → Exec Order
  unfolding complete_order_for_drone_tx
  complete_order_for_drone drone_id order_id status reason =
      in_tx env (complete_order_for_drone_tx drone_id order_id status reason)

  unfoldable pub drone_deliver : String → String → Exec Order
  drone_deliver drone_id order_id = complete_order_for_drone drone_id order_id delivered ""

  unfoldable pub drone_fail : String → String → String → Exec Order
  drone_fail drone_id order_id reason = do
    raise_if (reason == "") (sentinel invalid)
    complete_order_for_drone drone_id order_id failed reason

  -- The `switch order.Status` of `DroneMarkBroken`, on the order that the drone holds.
  unfoldable pub hand_off : OrderStatus → Order → Drone → Time → Exec ⊤
  unfolding enqueue_order_event
  hand_off picked_up order drone time = do
    let handed = handed_over order drone.last_location time
    update_order env handed
    enqueue_order_event event_order_handoff_requested handed
        (some (record drone { current_order_id = none })) time
  hand_off reserved order drone time = do
    let waiting = requeued order time
    update_order env waiting
    enqueue_order_event event_order_updated waiting
        (some (record drone { current_order_id = none })) time
  hand_off _ order drone time = pure tt

  -- `if drone.CurrentOrderID != nil { … }`
  unfoldable pub release_order : Option String → Drone → Time → Exec ⊤
  unfolding hand_off
  release_order none drone time = pure tt
  release_order (some order_id) drone time = do
    order ← get_order_for_update env order_id
    hand_off order.status order drone time

  unfoldable pub drone_mark_broken_tx : String → Exec Drone
  unfolding enqueue_drone_event get_or_create_drone create_missing release_order
  drone_mark_broken_tx drone_id = do
    asked ← now env
    drone ← get_or_create_drone drone_id asked
    time ← now env
    let down = record drone { status = broken }
    release_order drone.current_order_id down time
    let stored = record down { current_order_id = none; updated_at = time }
    update_drone env stored
    enqueue_drone_event event_drone_broken stored time
    pure stored

  unfoldable pub drone_mark_broken : String → Exec Drone
  unfolding drone_mark_broken_tx
  drone_mark_broken drone_id = in_tx env (drone_mark_broken_tx drone_id)

  unfoldable pub drone_mark_fixed_tx : String → Exec Drone
  unfolding enqueue_drone_event get_or_create_drone create_missing
  drone_mark_fixed_tx drone_id = do
    asked ← now env
    drone ← get_or_create_drone drone_id asked
    time ← now env
    let stored = record drone { status = active; updated_at = time }
    update_drone env stored
    enqueue_drone_event event_drone_fixed stored time
    pure stored

  unfoldable pub drone_mark_fixed : String → Exec Drone
  unfolding drone_mark_fixed_tx
  drone_mark_fixed drone_id = in_tx env (drone_mark_fixed_tx drone_id)

  -- The transaction of `DroneHeartbeat`.
  unfoldable pub record_heartbeat_tx : String → Location → Exec Drone
  unfolding get_or_create_drone create_missing
  record_heartbeat_tx drone_id loc = do
    asked ← now env
    drone ← get_or_create_drone drone_id asked
    time ← now env
    let stored = record drone {
      last_location = some loc;
      last_heartbeat_at = some time;
      updated_at = time;
    }
    update_drone env stored
    pure stored

  unfoldable pub record_heartbeat : String → Location → Exec Drone
  unfolding record_heartbeat_tx
  record_heartbeat drone_id loc = in_tx env (record_heartbeat_tx drone_id loc)

  -- `AdminMarkDroneBroken` and `AdminMarkDroneFixed`
  unfoldable pub admin_mark_drone_broken : String → Exec Drone
  unfolding drone_mark_broken
  admin_mark_drone_broken drone_id = drone_mark_broken drone_id

  unfoldable pub admin_mark_drone_fixed : String → Exec Drone
  unfolding drone_mark_fixed
  admin_mark_drone_fixed drone_id = drone_mark_fixed drone_id
