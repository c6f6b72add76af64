-- ===== src/Service/Broken.antt =====
-- `DroneMarkBroken`, `DroneMarkFixed` and the recording of a heartbeat in
-- internal/service/service.go.
use drone_management_system.Tables.DroneLookup.{id-find_drone, find_drone-put_drone}
use drone_management_system.Service.Links.{Linked-same}
use drone_management_system.Service.Changes.{
  carried-found, carried_after, after_there, holder-found, holder-missing,
}
use drone_management_system.Service.Rules.{Ensures-enqueue_order_event}
use drone_management_system.Tx.Rules.{Ensures-update_order}
use drone_management_system.Events.{
  Event, event_order_handoff_requested, event_order_updated, new_order_event,
}
use drone_management_system.Exec.Outcomes.{Ensures-assoc, Ensures}
use drone_management_system.Service.Lifecycle.{OrderStep}
use drone_management_system.Service.{handed_over, requeued, handoff_from, hand_off}
use drone_management_system.Service.Consistency.{
  holder-put_drone, holder-add_event, carried-add_event, Formed-put_drone, Formed-add_event,
  holder_by, DroneShape, IsConsistent, carried,
}
use drone_management_system.Domain.{
  active, DroneStatus, delivered, failed, withdrawn, handoff_requested, picked_up, Time,
  OrderStatus, created, broken, reserved, Order, Drone, Error, Location,
}
use drone_management_system.Tables.{put_drone, put_order, add_event, find_order, find_drone, Db}
use drone_management_system.Exec.{◌>>◌, Exec, Env}
use drone_management_system.Base.{
  eq_iff, inr, ◌∙◌, inl, sym, arith, ◌⊎◌, ◌≢◌, some, none, String, Option, ◌≡◌, refl,
}

-- The order of a drone that breaks down waits again, or waits to be handed over.
pub data Handed (last : Option Location) (old new : Order) : Type 0 where
  waits_again :
      old.status ≡ reserved → new.status ≡ created → new.handoff_origin ≡ none → Handed last old new
  waits_for_handoff :
      old.status ≡ picked_up
      → new.status ≡ handoff_requested
      → new.handoff_origin ≡ handoff_from last old.handoff_origin
      → Handed last old new

-- What became of the orders: nothing if the drone carried none, and else a step of the one it carried.
pub data Relieved (drone_id : String) (last : Option Location) (d d' : Db) : Type 0 where
  idle :
      carried d drone_id ≡ none
      → ((j : String) → find_order j d' ≡ find_order j d)
      → Relieved drone_id last d d'
  relieved :
      (id : String) (old new : Order)
      → carried d drone_id ≡ some id
      → OrderStep id d d' old new
      → new.assigned_drone_id ≡ none
      → Handed last old new
      → Relieved drone_id last d d'

-- A drone that is marked broken is stored as such and carries nothing.
pub record BrokenDown (drone_id : String) (d : Db) (x : Drone) (d' : Db) : Type 0 where
  pub down : x.status ≡ broken
  pub stored : find_drone drone_id d' ≡ some x
  pub emptied : carried d' drone_id ≡ none
  pub others_carry : (y : String) → drone_id ≢ y → carried d' y ≡ carried d y
  pub orders : Relieved drone_id x.last_location d d'
  pub consistent : IsConsistent d'

-- The steps of the order, for the drone that lets go of it.
module _ (env : Env) {d : Db} {B : Type 0} {Ok : B → Db → Type 0} {Err : Error → Type 0} where
  pub Ensures-hand_off :
      (s : OrderStatus) (o : Order) (x : Drone) (time : Time) (k : Exec B)
      → (s ≡ reserved) ⊎ (s ≡ picked_up)
      → (s ≡ reserved
          → (n : String)
          → Ensures env k
              (add_event
                (new_order_event n event_order_updated
                  (requeued o time)
                  (some (record x { current_order_id = none }))
                  time)
                (put_order (requeued o time) d))
              Ok
              Err)
      → (s ≡ picked_up
          → (n : String)
          → Ensures env k
              (add_event
                (new_order_event n event_order_handoff_requested
                  (handed_over o x.last_location time)
                  (some (record x { current_order_id = none }))
                  time)
                (put_order (handed_over o x.last_location time) d))
              Ok
              Err)
      → Ensures env (hand_off env s o x time >> k) d Ok Err
  unfolding hand_off
  Ensures-hand_off reserved o x time k which again over =
      Ensures-assoc env _ _ _
        (Ensures-update_order env _ _ (Ensures-enqueue_order_event env _ _ _ _ _ (again refl)))
  Ensures-hand_off picked_up o x time k which again over =
      Ensures-assoc env _ _ _
        (Ensures-update_order env _ _ (Ensures-enqueue_order_event env _ _ _ _ _ (over refl)))
  Ensures-hand_off created o x time k which again over = absurd (ground arith)
  Ensures-hand_off handoff_requested o x time k which again over = absurd (ground arith)
  Ensures-hand_off delivered o x time k which again over = absurd (ground arith)
  Ensures-hand_off failed o x time k which again over = absurd (ground arith)
  Ensures-hand_off withdrawn o x time k which again over = absurd (ground arith)

-- The order that a drone carries is stored, rests on the drone, and is reserved or picked up.
pub record CarriedFacts (drone_id id : String) (d : Db) (o : Order) : Type 0 where
  pub held : holder_by o.status o.assigned_drone_id ≡ some drone_id
  pub status : (o.status ≡ reserved) ⊎ (o.status ≡ picked_up)

held_status :
    (s : OrderStatus) (a : Option String) (x : String)
    → holder_by s a ≡ some x
    → (s ≡ reserved) ⊎ (s ≡ picked_up)
held_status reserved a x h = inl refl
held_status picked_up a x h = inr refl
held_status created a x h = absurd (ground arith)
held_status handoff_requested a x h = absurd (ground arith)
held_status delivered a x h = absurd (ground arith)
held_status failed a x h = absurd (ground arith)
held_status withdrawn a x h = absurd (ground arith)

pub carried_facts :
    (drone_id id : String) (d : Db) (o : Order)
    → IsConsistent d
    → carried d drone_id ≡ some id
    → find_order id d ≡ some o
    → CarriedFacts drone_id id d o
carried_facts drone_id id d o consistent h found =
    let held : holder_by o.status o.assigned_drone_id ≡ some drone_id =
      sym (holder-found id d o found) ∙ (consistent.linked drone_id id).0 h in
    record { held = held; status = held_status o.status o.assigned_drone_id drone_id held }

pub carried_there :
    (drone_id id : String) (d : Db)
    → IsConsistent d
    → carried d drone_id ≡ some id
    → find_order id d ≢ none
carried_there drone_id id d consistent h gone =
    ground (arith, (consistent.linked drone_id id).0 h, holder-missing id d gone)

-- Writes of one drone over consistent tables, with what it carries kept.
pub DroneShape-same :
    (s : DroneStatus) (x y : Drone)
    → y.current_order_id ≡ x.current_order_id
    → DroneShape s x
    → DroneShape s y
DroneShape-same active x y e h = tt
DroneShape-same broken x y e h = e ∙ h

pub IsConsistent-put_drone :
    (x : String) (d : Db) (dr after : Drone)
    → IsConsistent d
    → find_drone x d ≡ some dr
    → after.id ≡ dr.id
    → after.created_at ≡ dr.created_at
    → after.current_order_id ≡ dr.current_order_id
    → DroneShape after.status after
    → IsConsistent (put_drone after d)
IsConsistent-put_drone x d dr after consistent there same_id same_created same_current shape =
    record {
      formed =
          Formed-put_drone consistent.formed after
            (after_there d x there after same_id same_created) same_created shape;
      linked =
          Linked-same consistent.linked
            (λ y. ground (
              arith,
              carried_after d x there after same_id same_created y,
              carried-found x d dr there,
              eq_iff x y,
            ))
            (λ j. holder-put_drone d after j);
    }

pub IsConsistent-add_event : (v : Event) (d : Db) → IsConsistent d → IsConsistent (add_event v d)
IsConsistent-add_event v d consistent = record {
  formed = Formed-add_event consistent.formed v;
  linked = Linked-same consistent.linked (carried-add_event d v) (holder-add_event d v);
}

-- The drone as it was written.
pub stored_drone :
    (x : String) (d : Db) (dr after : Drone)
    → find_drone x d ≡ some dr
    → after.id ≡ dr.id
    → after.created_at ≡ dr.created_at
    → find_drone x (put_drone after d) ≡ some after
stored_drone x d dr after there same_id same_created = ground (
  arith,
  find_drone-put_drone after d (after_there d x there after same_id same_created) same_created x,
  same_id,
  id-find_drone x d there,
  eq_iff x x,
)
