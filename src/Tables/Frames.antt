-- ===== src/Tables/Frames.antt =====
-- The statements of internal/repo/postgres/sql.go on one table, and the selects from another.
use drone_management_system.Base.{◌≡◌, refl, String}
use drone_management_system.Domain.{Order, Drone}
use drone_management_system.Events.{Event}
use drone_management_system.Tables.{
  Db, find_order, find_drone, put_order, put_drone, add_event, new_order, new_drone,
}

module _ (id : String) (d : Db) where
  pub find_drone-put_order : (order : Order) → find_drone id (put_order order d) ≡ find_drone id d
  unfolding find_drone put_order
  find_drone-put_order order = refl

  pub find_drone-new_order : (order : Order) → find_drone id (new_order order d) ≡ find_drone id d
  unfolding find_drone new_order
  find_drone-new_order order = refl

  pub find_order-put_drone : (drone : Drone) → find_order id (put_drone drone d) ≡ find_order id d
  unfolding find_order put_drone
  find_order-put_drone drone = refl

  pub find_order-new_drone : (drone : Drone) → find_order id (new_drone drone d) ≡ find_order id d
  unfolding find_order new_drone
  find_order-new_drone drone = refl

  pub find_order-add_event : (event : Event) → find_order id (add_event event d) ≡ find_order id d
  unfolding find_order add_event
  find_order-add_event event = refl

  pub find_drone-add_event : (event : Event) → find_drone id (add_event event d) ≡ find_drone id d
  unfolding find_drone add_event
  find_drone-add_event event = refl

-- With these a select by identifier is read through every statement.
pub ruleset frame_laws = (
  find_drone-put_order, find_drone-new_order, find_order-put_drone, find_order-new_drone,
  find_order-add_event, find_drone-add_event,
)
