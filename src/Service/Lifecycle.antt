-- ===== src/Service/Lifecycle.antt =====
-- The life of an order as a diagram, and what it is for an operation to take one order one step.
use drone_management_system.Base.{
  Option, ap, ◌≡◌, ◌≢◌, refl, none, some, false, String, ◌==◌, [], ◌∷◌, ◌++◌, if◌then◌else◌, arith,
  eq_iff,
}
use drone_management_system.Domain.{
  Drone, Time, OrderStatus, created, reserved, picked_up, handoff_requested, delivered, failed,
  withdrawn, Order, is_terminal,
}
use drone_management_system.Events.{new_order_event, Event, aggregate_order}
use drone_management_system.Tables.{
  outbox_insert, add_event, put_order, put_drone, new_order, new_drone, Db, find_order,
}

-- `stay` is a change of the order that keeps its status.
infix 40 ◌⟶◌
pub data ◌⟶◌ : OrderStatus → OrderStatus → Type 0 where
  reserve : created ⟶ reserved
  take_over : handoff_requested ⟶ reserved
  pick_up : reserved ⟶ picked_up
  deliver : picked_up ⟶ delivered
  fail : picked_up ⟶ failed
  hand_off : picked_up ⟶ handoff_requested
  requeue : reserved ⟶ created
  withdraw : created ⟶ withdrawn
  withdraw_reserved : reserved ⟶ withdrawn
  stay : {s : OrderStatus} → is_terminal s ≡ false → s ⟶ s

-- No step leaves a terminal status.
pub ⟶-live : {s t : OrderStatus} → s ⟶ t → is_terminal s ≡ false
unfolding is_terminal
⟶-live reserve = refl
⟶-live take_over = refl
⟶-live pick_up = refl
⟶-live deliver = refl
⟶-live fail = refl
⟶-live hand_off = refl
⟶-live requeue = refl
⟶-live withdraw = refl
⟶-live withdraw_reserved = refl
⟶-live (stay h) = h

-- One order has gone from `old` to `new` along the diagram, under its owner and its time of creation,
-- and no other order has changed.
pub record OrderStep (id : String) (d d' : Db) (old new : Order) : Type 0 where
  pub before : find_order id d ≡ some old
  pub after : find_order id d' ≡ some new
  pub edge : old.status ⟶ new.status
  pub owner : new.user_id ≡ old.user_id
  pub others : (j : String) → j ≢ id → find_order j d' ≡ find_order j d

-- Exactly one event was enqueued, and it is of this type about this order.
pub record Announced (event_type id : String) (d d' : Db) : Type 0 where
  pub event : Event
  pub appended : d'.outbox ≡ d.outbox ++ record { event = event; published_at = none } ∷ []
  pub kind : event.event_type ≡ event_type
  pub order_kind : event.aggregate_type ≡ aggregate_order
  pub about : event.aggregate_id ≡ id

pub mk-OrderStep :
    (id : String) (d d' : Db) (old new : Order)
    → find_order id d ≡ some old
    → new.id ≡ id
    → old.status ⟶ new.status
    → new.user_id ≡ old.user_id
    → ((j : String) → find_order j d' ≡ (if new.id == j then some new else find_order j d))
    → OrderStep id d d' old new
mk-OrderStep id d d' old new found same edge owner q = record {
  before = found;
  after = ground (arith, q id, eq_iff new.id id);
  edge = edge;
  owner = owner;
  others = λ j ne. ground (arith, q j, eq_iff new.id j);
}

-- The event that an operation enqueues last.
pub Announced-add_event :
    (n event_type id : String) (o : Order) (x : Option Drone) (time : Time) (d d' : Db)
    → o.id ≡ id
    → d'.outbox ≡ d.outbox
    → Announced event_type id d (add_event (new_order_event n event_type o x time) d')
unfolding add_event outbox_insert new_order_event
Announced-add_event n event_type id o x time d d' same kept = record {
  event = new_order_event n event_type o x time;
  appended =
      ap
        (λ rows.
          rows
          ++ record { event = new_order_event n event_type o x time; published_at = none } ∷ [])
        kept;
  kind = refl;
  order_kind = refl;
  about = same;
}

module _ (d : Db) where
  pub outbox-put_order : (o : Order) → (put_order o d).outbox ≡ d.outbox
  unfolding put_order
  outbox-put_order o = refl

  pub outbox-new_order : (o : Order) → (new_order o d).outbox ≡ d.outbox
  unfolding new_order
  outbox-new_order o = refl

  pub outbox-put_drone : (x : Drone) → (put_drone x d).outbox ≡ d.outbox
  unfolding put_drone
  outbox-put_drone x = refl

  pub outbox-new_drone : (x : Drone) → (new_drone x d).outbox ≡ d.outbox
  unfolding new_drone
  outbox-new_drone x = refl

-- With these the outbox is read through the statements on the other tables.
pub ruleset outbox_laws = (outbox-put_order, outbox-new_order, outbox-put_drone, outbox-new_drone)
