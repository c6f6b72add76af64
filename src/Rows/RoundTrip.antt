-- ===== src/Rows/RoundTrip.antt =====
-- internal/repo/postgres/store.go: the scans of a row, and the values that an insert and an update
-- write. A time of a row is one that its column can hold.
use drone_management_system.Base.{◌≡◌, arith}
use drone_management_system.Domain.{Order, Drone}
use drone_management_system.Rows.{
  OrderRow, DroneRow, scan_order, scan_drone, order_insert_values, order_update_values,
  drone_insert_values, drone_update_values,
}

-- With times that the columns hold, an inserted order is scanned as it was: the arguments, the
-- parameters, the columns and the targets of the scan agree in their positions. An updated order
-- is too, but for the columns that an update does not set, its `id` and its `created_at`.
pub scan_order-insert_update :
    (order : Order) (row : OrderRow)
    → (scan_order (order_insert_values order) ≡ order)
      × (scan_order (order_update_values order row)
          ≡ record order { id = row.id; created_at = row.created_at })
unfolding scan_order order_insert_values order_update_values
scan_order-insert_update order row = (ground arith, ground arith)

-- With times that the columns hold, an inserted drone is scanned as it was: the arguments, the
-- parameters, the columns and the targets of the scan agree in their positions. An updated drone
-- is too, but for the columns that an update does not set, its `id` and its `created_at`.
pub scan_drone-insert_update :
    (drone : Drone) (row : DroneRow)
    → (scan_drone (drone_insert_values drone) ≡ drone)
      × (scan_drone (drone_update_values drone row)
          ≡ record drone { id = row.id; created_at = row.created_at })
unfolding scan_drone drone_insert_values drone_update_values
scan_drone-insert_update drone row = (ground arith, ground arith)
