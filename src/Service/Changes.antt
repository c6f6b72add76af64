-- ===== src/Service/Changes.antt =====
-- What the operations of internal/service/service.go have in common: one order is written and an
-- event is enqueued, over tables in which at most drones have been written before.
use drone_management_system.Tables.DroneLookup.{id-find_drone}
use mathlib.Core.Path.{subst}
use drone_management_system.Base.{
  ◌≡◌, ◌≢◌, refl, sym, ap, ◌∙◌, Option, none, some, String, ◌==◌, if◌then◌else◌, arith, eq_iff,
}
use drone_management_system.Domain.{
  Location, OrderStatus, created, reserved, picked_up, handoff_requested, delivered, failed,
  withdrawn, Time, Order, Drone,
}
use drone_management_system.Events.{Event, new_order_event}
use drone_management_system.Tables.{find_drone, Db, find_order, put_order, put_drone, add_event}
use drone_management_system.Tables.OrderLookup.{id-find_order, find_order-put_order}
use drone_management_system.Tables.Frames.{find_order-put_drone, find_order-add_event}
use drone_management_system.Service.Links.{Linked-link, Linked-unlink, Linked, Linked-same}
use drone_management_system.Service.Lifecycle.{
  outbox-put_drone, ◌⟶◌, OrderStep, mk-OrderStep, Announced, Announced-add_event, outbox-put_order,
}
use drone_management_system.Service.Consistency.{
  Formed-put_drone, carried-put_drone, DroneShape, carries, held_by, IsConsistent, Formed, Shape,
  carried, holder, holder_by, Formed-put_order, Formed-add_event, holder-put_order,
  holder-add_event, carried-put_order, carried-add_event,
}

-- The order `old` is about to be written as `new`. The tables `d1` hold the orders and the outbox of
-- `d`, and their drones already match the new order.
pub record Change (d d1 : Db) (id : String) (old new : Order) : Type 0 where
  pub found : find_order id d ≡ some old
  pub same : (j : String) → find_order j d1 ≡ find_order j d
  pub formed : Formed d1
  pub outbox : d1.outbox ≡ d.outbox
  pub kept_id : new.id ≡ old.id
  pub kept_created : new.created_at ≡ old.created_at
  pub shape : Shape new.status new
  pub linked :
      Linked
        (carried d1)
        (λ j. if id == j then holder_by new.status new.assigned_drone_id else holder d j)

module _ {d d1 : Db} {id : String} {old new : Order} (c : Change d d1 id old new) where
  change_id : new.id ≡ id
  change_id = c.kept_id ∙ id-find_order id d c.found

  found_there : find_order new.id d1 ≡ some old
  found_there = subst (λ i. find_order i d1 ≡ some old) (sym change_id) (c.same id ∙ c.found)

  pub carried-change :
      (v : Event) (y : String) → carried (add_event v (put_order new d1)) y ≡ carried d1 y
  carried-change v y = carried-add_event (put_order new d1) v y ∙ carried-put_order d1 new y

  find_order-change :
      (v : Event) (j : String)
      → find_order j (add_event v (put_order new d1))
        ≡ (if new.id == j then some new else find_order j d)
  find_order-change v j = ground (
    arith,
    find_order-add_event j (put_order new d1) v,
    find_order-put_order new d1 found_there c.kept_created j,
    c.same j,
  )

  holder-change :
      (v : Event) (j : String)
      → holder (add_event v (put_order new d1)) j
        ≡ (if id == j then holder_by new.status new.assigned_drone_id else holder d j)
  unfolding holder
  holder-change v j = ground (
    arith,
    holder-add_event (put_order new d1) v j,
    holder-put_order d1 new found_there c.kept_created j,
    change_id,
    c.same j,
  )

  pub change-OrderStep :
      (v : Event)
      → old.status ⟶ new.status
      → new.user_id ≡ old.user_id
      → OrderStep id d (add_event v (put_order new d1)) old new
  change-OrderStep v edge owner =
      mk-OrderStep id d _ old new c.found change_id edge owner (find_order-change v)

  pub change-Announced :
      (n event_type : String) (x : Option Drone) (time : Time)
      → Announced event_type id d
          (add_event (new_order_event n event_type new x time) (put_order new d1))
  change-Announced n event_type x time =
      Announced-add_event n event_type id new x time d (put_order new d1) change_id
        (outbox-put_order d1 new ∙ c.outbox)

  pub change-IsConsistent : (v : Event) → IsConsistent (add_event v (put_order new d1))
  change-IsConsistent v = record {
    formed = Formed-add_event (Formed-put_order c.formed new found_there c.kept_created c.shape) v;
    linked = Linked-same c.linked (carried-change v) (holder-change v);
  }

-- Writes of an order and of a drone may be made in either order.
pub put_drone-put_order :
    (x : Drone) (o : Order) (d : Db) → put_drone x (put_order o d) ≡ put_order o (put_drone x d)
unfolding put_drone put_order
put_drone-put_order x o d = refl

-- What an order rests on, and what a drone carries, read off the stored values.
pub holder-found :
    (id : String) (d : Db) (o : Order)
    → find_order id d ≡ some o
    → holder d id ≡ holder_by o.status o.assigned_drone_id
unfolding holder
holder-found id d o h = ap held_by h

pub carried-found :
    (x : String) (d : Db) (dr : Drone)
    → find_drone x d ≡ some dr
    → carried d x ≡ dr.current_order_id
unfolding carried
carried-found x d dr h = ap carries h

pub holder-missing : (id : String) (d : Db) → find_order id d ≡ none → holder d id ≡ none
unfolding holder
holder-missing id d h = ap held_by h

-- A change of the places and of the time of update keeps the shape of an order.
pub rerouted-Shape :
    (status : OrderStatus) (o : Order) (origin dest : Location) (time : Time)
    → Shape status o
    → Shape status (record o { origin = origin; destination = dest; updated_at = time })
rerouted-Shape created o origin dest time h = h
rerouted-Shape reserved o origin dest time h = h
rerouted-Shape picked_up o origin dest time h = h
rerouted-Shape handoff_requested o origin dest time h = h
rerouted-Shape delivered o origin dest time h = h
rerouted-Shape failed o origin dest time h = h
rerouted-Shape withdrawn o origin dest time h = h

pub carried-missing : (x : String) (d : Db) → find_drone x d ≡ none → carried d x ≡ none
unfolding carried
carried-missing x d h = ap carries h

-- What is carried after the drone `x` has been written.
module _ (d : Db) (x : String) {dr : Drone} (there : find_drone x d ≡ some dr) (after : Drone)
    (same_id : after.id ≡ dr.id) (same_created : after.created_at ≡ dr.created_at) where
  pub after_there : find_drone after.id d ≡ some dr
  after_there =
      subst (λ i. find_drone i d ≡ some dr) (sym (same_id ∙ id-find_drone x d there)) there

  pub carried_after :
      (y : String)
      → carried (put_drone after d) y ≡ (if x == y then after.current_order_id else carried d y)
  carried_after y = ground (
    arith,
    carried-put_drone d after after_there same_created y,
    same_id,
    id-find_drone x d there,
  )

  pub carried_after_self :
      (y : String) → x ≡ y → carried (put_drone after d) y ≡ after.current_order_id
  carried_after_self y e = ground (arith, carried_after y, eq_iff x y)

  pub carried_after_ne : (y : String) → x ≢ y → carried (put_drone after d) y ≡ carried d y
  carried_after_ne y ne = ground (arith, carried_after y, eq_iff x y)

module _ {d : Db} (consistent : IsConsistent d) (id : String) {old : Order}
    (found : find_order id d ≡ some old) (new : Order) (kept_id : new.id ≡ old.id)
    (kept_created : new.created_at ≡ old.created_at) (shape : Shape new.status new) where
  -- The order rests on what it rested on before.
  pub Change-idle :
      holder_by new.status new.assigned_drone_id ≡ holder_by old.status old.assigned_drone_id
      → Change d d id old new
  Change-idle e = record {
    found = found;
    same = λ j. refl;
    formed = consistent.formed;
    outbox = refl;
    kept_id = kept_id;
    kept_created = kept_created;
    shape = shape;
    linked =
        Linked-same consistent.linked (λ y. refl)
          (λ j. ground (arith, eq_iff id j, holder-found id d old found));
  }

  module _ (x : String) {dr : Drone} (there : find_drone x d ≡ some dr) (after : Drone)
      (same_id : after.id ≡ dr.id) (same_created : after.created_at ≡ dr.created_at)
      (drone_shape : DroneShape after.status after) where
    with_drone :
        Linked
          (carried (put_drone after d))
          (λ j. if id == j then holder_by new.status new.assigned_drone_id else holder d j)
        → Change d (put_drone after d) id old new
    with_drone linked = record {
      found = found;
      same = λ j. find_order-put_drone j d after;
      formed =
          Formed-put_drone consistent.formed after
            (after_there d x there after same_id same_created) same_created drone_shape;
      outbox = outbox-put_drone d after;
      kept_id = kept_id;
      kept_created = kept_created;
      shape = shape;
      linked = linked;
    }

    -- The drone that carries the order lets go of it.
    pub Change-release :
        holder_by old.status old.assigned_drone_id ≡ some x
        → holder_by new.status new.assigned_drone_id ≡ none
        → after.current_order_id ≡ none
        → Change d (put_drone after d) id old new
    Change-release held gone empty = with_drone (
        Linked-unlink consistent.linked x id
          ((consistent.linked x id).1 (holder-found id d old found ∙ held))
          (λ y. ground (arith, carried_after d x there after same_id same_created y))
          (λ j. ground arith))

    -- A drone that carries nothing takes the order, which rests on nothing.
    pub Change-take :
        holder_by old.status old.assigned_drone_id ≡ none
        → holder_by new.status new.assigned_drone_id ≡ some x
        → dr.current_order_id ≡ none
        → after.current_order_id ≡ some id
        → Change d (put_drone after d) id old new
    Change-take free held empty taken = with_drone (
        Linked-link consistent.linked x id (carried-found x d dr there ∙ empty)
          (holder-found id d old found ∙ free)
          (λ y. ground (arith, carried_after d x there after same_id same_created y))
          (λ j. ground arith))

-- What every operation on one order has done when it returns: the step of the order, the one event
-- about it, and tables that are consistent again.
pub record Progress (event_type id : String) (d d' : Db) (old new : Order) : Type 0 where
  pub step : OrderStep id d d' old new
  pub announced : Announced event_type id d d'
  pub consistent : IsConsistent d'

pub Change-Progress :
    {d d1 : Db} {id : String} {old new : Order} (c : Change d d1 id old new) (n event_type : String)
    (x : Option Drone) (time : Time)
    → old.status ⟶ new.status
    → new.user_id ≡ old.user_id
    → Progress event_type id d
        (add_event (new_order_event n event_type new x time) (put_order new d1))
        old
        new
Change-Progress c n event_type x time edge owner = record {
  step = change-OrderStep c _ edge owner;
  announced = change-Announced c n event_type x time;
  consistent = change-IsConsistent c _;
}
