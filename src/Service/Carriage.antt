-- ===== src/Service/Carriage.antt =====
-- `DronePickup`, `DroneDeliver` and `DroneFail` of internal/service/service.go.
use drone_management_system.Tables.Frames.{find_drone-put_order}
use mathlib.Core.Path.{subst}
use drone_management_system.Base.{
  ℕ, eq_of_true, ◌≡◌, ◌≢◌, refl, sym, ◌∙◌, none, some, true, false, String, ◌==◌, arith, is_some,
}
use drone_management_system.Domain.{
  Time, OrderStatus, created, reserved, picked_up, handoff_requested, delivered, failed, withdrawn,
  Order, Drone, Error, sentinel, not_found, forbidden, precondition, invalid,
}
use drone_management_system.Events.{event_order_picked_up, new_order_event}
use drone_management_system.Tables.{Db, find_order, find_drone, put_order, put_drone, add_event}
use drone_management_system.Exec.{clock_micros, Env, State}
use drone_management_system.Exec.Outcomes.{
  Ensures-clock, Outcome-weaken, Outcome-raise_if, Ensures-return, Ensures, Ensures-pure,
  Ensures-raise_if, Ensures-now, Ensures-assoc, Outcome, in_tx-Outcome,
}
use drone_management_system.Tx.Rules.{
  Ensures-get_order, Ensures-get_drone, Ensures-update_order, Ensures-update_drone,
}
use drone_management_system.Service.{
  pick_up, drone_pickup, update_order_for_drone_tx, completed, completion_event,
  complete_order_for_drone_tx, complete_order_for_drone, drone_deliver, drone_fail,
}
use drone_management_system.Service.Rules.{
  assigned_to, assigned_to_other, Ensures-enqueue_order_event,
}
use drone_management_system.Service.Lifecycle.{◌⟶◌}
use drone_management_system.Service.Lifecycle
use drone_management_system.Service.Consistency.{
  IsConsistent, Shape, DroneShape-idle, carried, holder_by,
}
use drone_management_system.Service.Changes.{
  carried_after_ne, carried_after_self, carried-change, Change, Change-idle, Change-release,
  Progress, Change-Progress, holder-found, carried-missing, put_drone-put_order,
}

-- Why a drone's step on an order is refused: `required` is the status that the step starts from.
pub data StepRefused (required : OrderStatus) (d : Db) (drone_id id : String) : Error → Type 0 where
  missing : find_order id d ≡ none → StepRefused required d drone_id id (sentinel not_found)
  foreign :
      (o : Order)
      → find_order id d ≡ some o
      → o.assigned_drone_id ≢ some drone_id
      → StepRefused required d drone_id id (sentinel forbidden)
  not_ready :
      (o : Order)
      → find_order id d ≡ some o
      → o.assigned_drone_id ≡ some drone_id
      → o.status ≢ required
      → StepRefused required d drone_id id (sentinel precondition)

-- A pickup takes a reserved order of the drone to picked up, and leaves what drones carry.
pub record PickedUp (drone_id id : String) (d : Db) (o : Order) (d' : Db) : Type 0 where
  pub old : Order
  pub progress : Progress event_order_picked_up id d d' old o
  pub started : old.status ≡ reserved
  pub ended : o.status ≡ picked_up
  pub still_assigned : o.assigned_drone_id ≡ some drone_id

module _ (drone_id id : String) (d : Db) (consistent : IsConsistent d) (old : Order)
    (found : find_order id d ≡ some old) (mine : old.assigned_drone_id ≡ some drone_id) where
  -- An order with a drone waits for no handoff.
  not_waiting : old.status ≢ handoff_requested
  not_waiting e = ground (arith, consistent.formed.orders_shape id old found)

  pickup_facts :
      (n : String) (t time : Time)
      → old.status ≡ reserved
      → let new = record old { status = picked_up; picked_up_at = some t; updated_at = t } in
        PickedUp drone_id id d new
          (add_event (new_order_event n event_order_picked_up new none time) (put_order new d))
  pickup_facts n t time e =
      let new = record old { status = picked_up; picked_up_at = some t; updated_at = t } in
      record {
        old = old;
        progress =
            Change-Progress
              (Change-idle consistent id found new refl refl (rw mine refl, refl) (rw e refl)) n
              event_order_picked_up none time (rw e Lifecycle.pick_up) refl;
        started = e;
        ended = refl;
        still_assigned = mine;
      }

drone_pickup_tx-Ensures :
    (env : Env) (drone_id id : String) (d : Db)
    → IsConsistent d
    → Ensures env
        (update_order_for_drone_tx env drone_id id event_order_picked_up (pick_up env))
        d
        (PickedUp drone_id id d)
        (StepRefused reserved d drone_id id)
unfolding update_order_for_drone_tx pick_up
drone_pickup_tx-Ensures env drone_id id d consistent =
    Ensures-get_order env id _ missing λ old found.
      Ensures-raise_if env _ _ _
        (λ e. foreign old found (assigned_to_other drone_id old.assigned_drone_id e))
        λ a.
          let mine : old.assigned_drone_id ≡ some drone_id =
            assigned_to drone_id old.assigned_drone_id a in
          Ensures-assoc env _ _ _ (
            Ensures-raise_if env _ _ _ (λ e. not_ready old found mine (ground arith))
              λ ready. Ensures-assoc env _ _ _ (
                Ensures-now env _ λ t. Ensures-return env _ _ (
                  Ensures-update_order env _ _ (
                    Ensures-now env _ λ time. Ensures-enqueue_order_event env _ _ _ _ _ λ n.
                      Ensures-pure env _ (
                        pickup_facts drone_id id d consistent old found mine n t time
                          (ground (arith, not_waiting drone_id id d consistent old found mine)))))))

-- Over consistent tables, a pickup succeeds as `PickedUp` says, or is refused for the reason that
-- `StepRefused` names, or a fault excuses it; in the last two cases nothing is stored.
pub drone_pickup-Outcome :
    (env : Env) (drone_id id : String) (s : State)
    → IsConsistent s.db
    → Outcome env s.db
        (PickedUp drone_id id s.db)
        (StepRefused reserved s.db drone_id id)
        (drone_pickup env drone_id id s)
unfolding drone_pickup
drone_pickup-Outcome env drone_id id s consistent =
    in_tx-Outcome env _ _
      (update_order_for_drone_tx env drone_id id event_order_picked_up (pick_up env)) s
      (drone_pickup_tx-Ensures env drone_id id s.db consistent)

-- The end of a delivery, as the service asks for it: delivered, or failed for a reason.
abbrev pub IsCompletion : OrderStatus → String → Type 0
IsCompletion delivered reason = Unit
IsCompletion failed reason = (reason == "") ≡ false
IsCompletion _ reason = ⊥

-- The order at its end: a delivered one with its time, a failed one with its time and the reason.
abbrev pub ended_order : OrderStatus → String → Time → Order → Order
ended_order failed reason time old = record old {
  status = failed;
  updated_at = time;
  failed_at = some time;
  failure_reason = some reason;
}
ended_order _ reason time old = record old {
  status = delivered;
  updated_at = time;
  delivered_at = some time;
}

-- A completion takes a picked-up order of the drone to its end at a time of the clock, and the drone
-- carries nothing.
pub record Completed (env : Env) (status : OrderStatus) (reason drone_id id : String) (d : Db)
    (o : Order) (d' : Db) : Type 0 where
  pub reading : ℕ
  pub old : Order
  pub progress : Progress (completion_event status) id d d' old o
  pub started : old.status ≡ picked_up
  pub ended : o.status ≡ status
  pub result : o ≡ ended_order status reason (clock_micros env reading) old
  pub emptied : carried d' drone_id ≡ none
  pub others_carry : (y : String) → drone_id ≢ y → carried d' y ≡ carried d y

-- What `completed` does to the fields that matter here.
pub record CompletionFacts (status : OrderStatus) (reason : String) (time : Time) (old new : Order)
    : Type 0 where
  pub kept_id : new.id ≡ old.id
  pub kept_created : new.created_at ≡ old.created_at
  pub kept_owner : new.user_id ≡ old.user_id
  pub ended : new.status ≡ status
  pub result : new ≡ ended_order status reason time old
  pub shape : is_some old.picked_up_at ≡ true → Shape new.status new
  pub free : holder_by new.status new.assigned_drone_id ≡ none
  pub edge : picked_up ⟶ new.status

completion_facts :
    (status : OrderStatus) (reason : String) (old : Order) (time : Time)
    → IsCompletion status reason
    → CompletionFacts status reason time old (completed old status reason time)
completion_facts delivered reason old time h = record {
  kept_id = refl;
  kept_created = refl;
  kept_owner = refl;
  ended = refl;
  result = refl;
  shape = λ p. (p, refl);
  free = refl;
  edge = Lifecycle.deliver;
}
completion_facts failed reason old time h = record {
  kept_id = refl;
  kept_created = refl;
  kept_owner = refl;
  ended = refl;
  result = rw h refl;
  shape = λ p. (p, refl, rw h refl);
  free = refl;
  edge = Lifecycle.fail;
}
completion_facts created reason old time h = absurd h
completion_facts reserved reason old time h = absurd h
completion_facts picked_up reason old time h = absurd h
completion_facts handoff_requested reason old time h = absurd h
completion_facts withdrawn reason old time h = absurd h

module _ (env : Env) (status : OrderStatus) (reason drone_id id : String) (d : Db)
    (consistent : IsConsistent d) (old : Order) (found : find_order id d ≡ some old)
    (mine : old.assigned_drone_id ≡ some drone_id) (flying : old.status ≡ picked_up)
    (complete : IsCompletion status reason) where
  carrying : carried d drone_id ≡ some id
  carrying = (consistent.linked drone_id id).1 (holder-found id d old found ∙ ground arith)

  complete_facts :
      (dr : Drone) (n : String) (k : ℕ)
      → find_drone drone_id d ≡ some dr
      → let time = clock_micros env k in
        let new = completed old status reason time in
        let idle = record dr { current_order_id = none; updated_at = time } in
        Completed env status reason drone_id id d new (
          add_event
            (new_order_event n (completion_event status) new (some idle) time)
            (put_order new (put_drone idle d)))
  complete_facts dr n k there =
      let time = clock_micros env k in
      let new = completed old status reason time in
      let idle = record dr { current_order_id = none; updated_at = time } in
      let facts = completion_facts status reason old time complete in
      let change : Change d (put_drone idle d) id old new =
        Change-release consistent id found new facts.kept_id facts.kept_created
          (facts.shape (ground (arith, consistent.formed.orders_shape id old found))) drone_id there
          idle refl refl (DroneShape-idle dr.status idle refl) (ground arith) facts.free refl in
      record {
        reading = k;
        old = old;
        progress =
            Change-Progress change n (completion_event status) (some idle) time
              (rw flying facts.edge) facts.kept_owner;
        started = flying;
        ended = facts.ended;
        result = facts.result;
        emptied =
            carried-change change _ drone_id
            ∙ carried_after_self d drone_id there idle refl refl drone_id refl;
        others_carry = λ y ne.
            carried-change change _ y ∙ carried_after_ne d drone_id there idle refl refl y ne;
      }

complete_tx-Ensures :
    (env : Env) (status : OrderStatus) (reason drone_id id : String) (d : Db)
    → IsCompletion status reason
    → IsConsistent d
    → Ensures env
        (complete_order_for_drone_tx env drone_id id status reason)
        d
        (Completed env status reason drone_id id d)
        (StepRefused picked_up d drone_id id)
unfolding complete_order_for_drone_tx
complete_tx-Ensures env status reason drone_id id d complete consistent =
    Ensures-get_order env id _ missing λ old found.
      Ensures-raise_if env _ _ _
        (λ e. foreign old found (assigned_to_other drone_id old.assigned_drone_id e))
        λ a.
          let mine : old.assigned_drone_id ≡ some drone_id =
            assigned_to drone_id old.assigned_drone_id a in
          Ensures-raise_if env _ _ _ (λ e. not_ready old found mine (ground arith))
            λ ready.
              let flying : old.status ≡ picked_up = ground arith in
              Ensures-clock env _ λ k.
                let time = clock_micros env k in
                Ensures-update_order env _ _ (
                  Ensures-get_drone env drone_id _
                    (λ gone. absurd (
                      ground (
                        arith,
                        carrying env status reason drone_id id d consistent old found mine flying
                            complete,
                        carried-missing drone_id d (
                            sym (find_drone-put_order drone_id d (completed old status reason time))
                            ∙ gone),
                      )))
                    λ dr there. Ensures-update_drone env _ _ (
                      Ensures-enqueue_order_event env _ _ _ _ _ λ n. Ensures-pure env _ (
                        subst
                          (λ t.
                            Completed env status reason drone_id id d
                              (completed old status reason time)
                              (add_event
                                (new_order_event n (completion_event status)
                                  (completed old status reason time)
                                  (some (record dr { current_order_id = none; updated_at = time }))
                                  time)
                                t))
                          (sym (
                            put_drone-put_order
                              (record dr { current_order_id = none; updated_at = time })
                              (completed old status reason time) d))
                          (complete_facts env status reason drone_id id d consistent old found mine
                            flying complete dr n k
                            (sym
                                (find_drone-put_order drone_id d (completed old status reason time))
                              ∙ there)))))

complete-Outcome :
    (env : Env) (status : OrderStatus) (reason drone_id id : String) (s : State)
    → IsCompletion status reason
    → IsConsistent s.db
    → Outcome env s.db
        (Completed env status reason drone_id id s.db)
        (StepRefused picked_up s.db drone_id id)
        (complete_order_for_drone env drone_id id status reason s)
unfolding complete_order_for_drone
complete-Outcome env status reason drone_id id s complete consistent =
    in_tx-Outcome env _ _ (complete_order_for_drone_tx env drone_id id status reason) s
      (complete_tx-Ensures env status reason drone_id id s.db complete consistent)

-- Over consistent tables, a delivery stores the order of the drone as ended with the time of the
-- clock, as `Completed delivered` says, or is refused for the reason that `StepRefused` names, or
-- a fault excuses it; in the last two cases nothing is stored.
pub drone_deliver-Outcome :
    (env : Env) (drone_id id : String) (s : State)
    → IsConsistent s.db
    → Outcome env s.db
        (Completed env delivered "" drone_id id s.db)
        (StepRefused picked_up s.db drone_id id)
        (drone_deliver env drone_id id s)
unfolding drone_deliver
drone_deliver-Outcome env drone_id id s consistent =
    complete-Outcome env delivered "" drone_id id s tt consistent

-- Why a failure is refused.
pub data FailRefused (reason : String) (d : Db) (drone_id id : String) : Error → Type 0 where
  unexplained : reason ≡ "" → FailRefused reason d drone_id id (sentinel invalid)
  step : (e : Error) → StepRefused picked_up d drone_id id e → FailRefused reason d drone_id id e

-- Over consistent tables, a report of failure stores the order as failed with the reason that the
-- drone gives and the time of the clock, as `Completed failed` says, or is refused because it
-- gives no reason or for a reason that `StepRefused` names, or a fault excuses it; in the last
-- cases nothing is stored.
pub drone_fail-Outcome :
    (env : Env) (drone_id id reason : String) (s : State)
    → IsConsistent s.db
    → Outcome env s.db
        (Completed env failed reason drone_id id s.db)
        (FailRefused reason s.db drone_id id)
        (drone_fail env drone_id id reason s)
unfolding drone_fail
drone_fail-Outcome env drone_id id reason s consistent =
    Outcome-raise_if env _ _ (reason == "") (sentinel invalid)
      (complete_order_for_drone env drone_id id failed reason) s
      (λ e. unexplained (eq_of_true reason "" e))
      (λ e.
        Outcome-weaken env s.db _ _ _ (complete_order_for_drone env drone_id id failed reason s)
          step (complete-Outcome env failed reason drone_id id s e consistent))
