-- ===== src/Service/Consistency.antt =====
-- What holds of the tables between two transactions of the service.
use mathlib.Core.Path.{subst}
use drone_management_system.Base.{
  false, some_eq, ap, sym, ◌∙◌, ◌≡◌, Option, none, some, Bool, true, String, ◌==◌, if◌then◌else◌,
  arith, is_some,
}
use drone_management_system.Domain.{
  OrderStatus, created, reserved, picked_up, handoff_requested, delivered, failed, withdrawn,
  DroneStatus, active, broken, Order, Drone,
}
use drone_management_system.Events.{Event}
use drone_management_system.Tables.{
  Db, find_order, find_drone, put_order, put_drone, add_event, new_order, new_drone,
}
use drone_management_system.Tables.OrderLookup.{find_order-put_order, find_order-new_order}
use drone_management_system.Tables.DroneLookup.{find_drone-put_drone, find_drone-new_drone}
use drone_management_system.Tables.Frames.{
  find_drone-put_order, find_drone-new_order, find_order-put_drone, find_order-new_drone,
  find_order-add_event, find_drone-add_event,
}
use drone_management_system.Tables.Keys.{UniqueKeys, UniqueKeys-put_order, UniqueKeys-new_order}
use drone_management_system.Service.Links.{Linked}

-- The order that a drone says it carries.
abbrev pub carries : Option Drone → Option String
carries none = none
carries (some drone) = drone.current_order_id

unfoldable pub carried : Db → String → Option String
carried d x = carries (find_drone x d)

-- The drone on which an order rests: its assigned drone, as long as the order is reserved or picked
-- up. Orders that were delivered or have failed keep the assignment as a record.
abbrev pub holder_by : OrderStatus → Option String → Option String
holder_by reserved a = a
holder_by picked_up a = a
holder_by _ a = none

abbrev pub held_by : Option Order → Option String
held_by none = none
held_by (some order) = holder_by order.status order.assigned_drone_id

unfoldable pub holder : Db → String → Option String
holder d i = held_by (find_order i d)

-- The fields that an order of each status has.
abbrev pub Shape : OrderStatus → Order → Type 0
Shape created o = o.assigned_drone_id ≡ none
Shape reserved o = (is_some o.assigned_drone_id ≡ true) × (is_some o.reserved_at ≡ true)
Shape picked_up o = (is_some o.assigned_drone_id ≡ true) × (is_some o.picked_up_at ≡ true)
Shape handoff_requested o = (o.assigned_drone_id ≡ none) × (is_some o.picked_up_at ≡ true)
Shape delivered o = (is_some o.picked_up_at ≡ true) × (is_some o.delivered_at ≡ true)
Shape failed o =
    (is_some o.picked_up_at ≡ true)
    × (is_some o.failed_at ≡ true)
    × (is_some o.failure_reason ≡ true)
Shape withdrawn o = o.assigned_drone_id ≡ none

-- A broken drone carries nothing.
abbrev pub DroneShape : DroneStatus → Drone → Type 0
DroneShape active drone = Unit
DroneShape broken drone = drone.current_order_id ≡ none

-- A drone that carries nothing may have either status.
pub DroneShape-idle : (s : DroneStatus) (x : Drone) → x.current_order_id ≡ none → DroneShape s x
DroneShape-idle active x h = tt
DroneShape-idle broken x h = h

pub record Formed (d : Db) : Type 0 where
  pub keys : UniqueKeys d.orders
  pub orders_shape : (id : String) (o : Order) → find_order id d ≡ some o → Shape o.status o
  pub drones_shape : (id : String) (x : Drone) → find_drone id d ≡ some x → DroneShape x.status x

-- The tables are consistent: each drone carries exactly the order that rests on it, and each order
-- and drone has the fields of its status.
pub record IsConsistent (d : Db) : Type 0 where
  pub formed : Formed d
  pub linked : Linked (carried d) (holder d)

-- What holds of the new value and of the old ones holds of what is found after a write.
written {ℓ} :
    {T : Type 0} (S : T → Type ℓ) (b : Bool) (new : T) (old : Option T) (p : T)
    → (if b then some new else old) ≡ some p
    → S new
    → (old ≡ some p → S p)
    → S p
written S true new old p e h k = subst S (some_eq e) h
written S false new old p e h k = k e

ShapeOf : Order → Type 0
ShapeOf o = Shape o.status o

DroneShapeOf : Drone → Type 0
DroneShapeOf x = DroneShape x.status x

module _ {d : Db} (f : Formed d) where
  pub Formed-put_order :
      (o : Order) {old : Order}
      → find_order o.id d ≡ some old
      → o.created_at ≡ old.created_at
      → Shape o.status o
      → Formed (put_order o d)
  unfolding ShapeOf
  Formed-put_order o found same shape = record {
    keys = UniqueKeys-put_order o d f.keys;
    orders_shape = λ j p e.
        written ShapeOf (o.id == j) o (find_order j d) p
          (sym (find_order-put_order o d found same j) ∙ e) shape (f.orders_shape j p);
    drones_shape = λ j x e. f.drones_shape j x (sym (find_drone-put_order j d o) ∙ e);
  }

  pub Formed-new_order :
      (o : Order) → find_order o.id d ≡ none → Shape o.status o → Formed (new_order o d)
  unfolding ShapeOf
  Formed-new_order o free shape = record {
    keys = UniqueKeys-new_order o d free f.keys;
    orders_shape = λ j p e.
        written ShapeOf (o.id == j) o (find_order j d) p (sym (find_order-new_order o d free j) ∙ e)
          shape (f.orders_shape j p);
    drones_shape = λ j x e. f.drones_shape j x (sym (find_drone-new_order j d o) ∙ e);
  }

  pub Formed-put_drone :
      (x : Drone) {old : Drone}
      → find_drone x.id d ≡ some old
      → x.created_at ≡ old.created_at
      → DroneShape x.status x
      → Formed (put_drone x d)
  unfolding DroneShapeOf put_drone
  Formed-put_drone x found same shape = record {
    keys = f.keys;
    orders_shape = λ j p e. f.orders_shape j p (sym (find_order-put_drone j d x) ∙ e);
    drones_shape = λ j p e.
        written DroneShapeOf (x.id == j) x (find_drone j d) p
          (sym (find_drone-put_drone x d found same j) ∙ e) shape (f.drones_shape j p);
  }

  pub Formed-new_drone :
      (x : Drone) → find_drone x.id d ≡ none → DroneShape x.status x → Formed (new_drone x d)
  unfolding DroneShapeOf new_drone
  Formed-new_drone x free shape = record {
    keys = f.keys;
    orders_shape = λ j p e. f.orders_shape j p (sym (find_order-new_drone j d x) ∙ e);
    drones_shape = λ j p e.
        written DroneShapeOf (x.id == j) x (find_drone j d) p
          (sym (find_drone-new_drone x d free j) ∙ e) shape (f.drones_shape j p);
  }

  pub Formed-add_event : (event : Event) → Formed (add_event event d)
  unfolding add_event
  Formed-add_event event = record {
    keys = f.keys;
    orders_shape = λ j p e. f.orders_shape j p (sym (find_order-add_event j d event) ∙ e);
    drones_shape = λ j p e. f.drones_shape j p (sym (find_drone-add_event j d event) ∙ e);
  }

-- Which drone carries what, and what each order rests on, after each statement that writes.
module _ (d : Db) where
  pub holder-put_order :
      (o : Order) {old : Order}
      → find_order o.id d ≡ some old
      → o.created_at ≡ old.created_at
      → (j : String)
      → holder (put_order o d) j
        ≡ (if o.id == j then holder_by o.status o.assigned_drone_id else holder d j)
  unfolding holder
  holder-put_order o found same j = ground (arith, find_order-put_order o d found same j)

  pub holder-new_order :
      (o : Order)
      → find_order o.id d ≡ none
      → (j : String)
      → holder (new_order o d) j
        ≡ (if o.id == j then holder_by o.status o.assigned_drone_id else holder d j)
  unfolding holder
  holder-new_order o free j = ground (arith, find_order-new_order o d free j)

  pub carried-put_drone :
      (x : Drone) {old : Drone}
      → find_drone x.id d ≡ some old
      → x.created_at ≡ old.created_at
      → (y : String)
      → carried (put_drone x d) y ≡ (if x.id == y then x.current_order_id else carried d y)
  unfolding carried
  carried-put_drone x found same y = ground (arith, find_drone-put_drone x d found same y)

  pub carried-new_drone :
      (x : Drone)
      → find_drone x.id d ≡ none
      → (y : String)
      → carried (new_drone x d) y ≡ (if x.id == y then x.current_order_id else carried d y)
  unfolding carried
  carried-new_drone x free y = ground (arith, find_drone-new_drone x d free y)

  pub carried-put_order : (o : Order) (y : String) → carried (put_order o d) y ≡ carried d y
  unfolding carried
  carried-put_order o y = ap carries (find_drone-put_order y d o)

  pub carried-new_order : (o : Order) (y : String) → carried (new_order o d) y ≡ carried d y
  unfolding carried
  carried-new_order o y = ap carries (find_drone-new_order y d o)

  pub carried-add_event : (v : Event) (y : String) → carried (add_event v d) y ≡ carried d y
  unfolding carried
  carried-add_event v y = ap carries (find_drone-add_event y d v)

  pub holder-put_drone : (x : Drone) (j : String) → holder (put_drone x d) j ≡ holder d j
  unfolding holder
  holder-put_drone x j = ap held_by (find_order-put_drone j d x)

  pub holder-new_drone : (x : Drone) (j : String) → holder (new_drone x d) j ≡ holder d j
  unfolding holder
  holder-new_drone x j = ap held_by (find_order-new_drone j d x)

  pub holder-add_event : (v : Event) (j : String) → holder (add_event v d) j ≡ holder d j
  unfolding holder
  holder-add_event v j = ap held_by (find_order-add_event j d v)
