-- ===== src/Tables.antt =====
-- internal/repo/postgres/sql.go: the statements, as functions on the tables. `find`, `insert`,
-- `update` and `reserve` are over rows; the primary keys are checked by the inserts. An identifier is
-- the text of a `uuid` in the form in which PostgreSQL prints it, so that equal ones are equal texts.
pub mod OrderLookup
pub mod DroneLookup
pub mod Frames
pub mod Keys
pub mod Reserve
use drone_management_system.Base.{
  ℕ, zero, suc, Option, none, some, Bool, true, false, not, ◌&&◌, String, ◌==◌, List, [], ◌∷◌, ◌++◌,
  map, leb, if◌then◌else◌, is_some,
}
use drone_management_system.Sorting.{sort_by, where_}
use drone_management_system.Domain.{Time, OrderStatus, Order, Drone, order_status_text}
use drone_management_system.Events.{Event}
use drone_management_system.Rows.{
  OrderRow, DroneRow, scan_order, scan_drone, order_insert_values, order_update_values,
  drone_insert_values, drone_update_values,
}

-- A row of `outbox_events`.
pub record OutboxRow : Type 0 where
  pub event : Event
  pub published_at : Option Time

pub record Db : Type 0 where
  pub orders : List OrderRow
  pub drones : List DroneRow
  pub outbox : List OutboxRow

-- `SELECT … FROM orders WHERE id = $1`
unfoldable pub order_select_by_id : String → List OrderRow → Option OrderRow
order_select_by_id id [] = none
order_select_by_id id (row ∷ rows) = if row.id == id then some row else order_select_by_id id rows

-- `UPDATE orders SET … WHERE id = $16`
unfoldable pub order_update : Order → List OrderRow → List OrderRow
order_update order [] = []
order_update order (row ∷ rows) =
    (if row.id == order.id then order_update_values order row else row) ∷ order_update order rows

-- `INSERT INTO orders …`: `none` is a violation of the primary key.
unfoldable pub order_insert : Order → List OrderRow → Option (List OrderRow)
unfolding order_select_by_id
order_insert order rows =
    if is_some (order_select_by_id order.id rows)
    then none
    else some (rows ++ order_insert_values order ∷ [])

abbrev pub created_no_later : OrderRow → OrderRow → Bool
created_no_later a b = leb a.created_at b.created_at

-- `status = ANY($1)`
abbrev pub any_status : List String → String → Bool
any_status [] s = false
any_status (a ∷ allowed) s = if a == s then true else any_status allowed s

-- The rows that `orderReserveSQL` may return: of an allowed status, not assigned, not locked by
-- another transaction.
unfoldable pub is_reservable : List String → (String → Bool) → OrderRow → Bool
is_reservable allowed locked row =
    any_status allowed (order_status_text row.status)
    && (not (is_some row.assigned_drone_id) && not (locked row.id))

abbrev pub first {ℓ} : {A : Type ℓ} → List A → Option A
first [] = none
first (x ∷ _) = some x

-- `… ORDER BY created_at LIMIT 1 FOR UPDATE SKIP LOCKED`
unfoldable pub order_reserve : List String → (String → Bool) → List OrderRow → Option OrderRow
unfolding sort_by where_ is_reservable
order_reserve allowed locked rows =
    first (sort_by created_no_later (where_ (is_reservable allowed locked) rows))

abbrev pub take {ℓ} : {A : Type ℓ} → ℕ → List A → List A
take zero xs = []
take (suc n) [] = []
take (suc n) (x ∷ xs) = x ∷ take n xs

abbrev pub drop {ℓ} : {A : Type ℓ} → ℕ → List A → List A
drop zero xs = xs
drop (suc n) [] = []
drop (suc n) (x ∷ xs) = drop n xs

-- `$1::text IS NULL OR status = $1`
abbrev pub has_status : Option String → OrderRow → Bool
has_status none row = true
has_status (some s) row = order_status_text row.status == s

-- `orderListSQL`
unfoldable pub order_list : Option String → ℕ → ℕ → List OrderRow → List OrderRow
unfolding sort_by where_
order_list status limit offset rows =
    take limit (drop offset (sort_by created_no_later (where_ (has_status status) rows)))

-- `SELECT … FROM drones WHERE id = $1`
unfoldable pub drone_select_by_id : String → List DroneRow → Option DroneRow
drone_select_by_id id [] = none
drone_select_by_id id (row ∷ rows) = if row.id == id then some row else drone_select_by_id id rows

-- `UPDATE drones SET … WHERE id = $7`
unfoldable pub drone_update : Drone → List DroneRow → List DroneRow
drone_update drone [] = []
drone_update drone (row ∷ rows) =
    (if row.id == drone.id then drone_update_values drone row else row) ∷ drone_update drone rows

-- `INSERT INTO drones …`
unfoldable pub drone_insert : Drone → List DroneRow → Option (List DroneRow)
unfolding drone_select_by_id
drone_insert drone rows =
    if is_some (drone_select_by_id drone.id rows)
    then none
    else some (rows ++ drone_insert_values drone ∷ [])

-- `droneListSQL`; the order of texts is that of the database's collation.
unfoldable pub drone_list : (String → String → Bool) → List DroneRow → List DroneRow
unfolding sort_by
drone_list collate rows = sort_by (λ a b. collate a.id b.id) rows

-- `INSERT INTO outbox_events …`; `published_at` is null.
unfoldable pub outbox_insert : Event → List OutboxRow → List OutboxRow
outbox_insert event rows = rows ++ record { event = event; published_at = none } ∷ []

abbrev pub is_pending : OutboxRow → Bool
is_pending row = not (is_some row.published_at)

abbrev pub occurred_no_later : OutboxRow → OutboxRow → Bool
occurred_no_later a b = leb a.event.occurred_at b.event.occurred_at

-- `… WHERE published_at IS NULL ORDER BY occurred_at LIMIT $1`
unfoldable pub outbox_fetch_pending : ℕ → List OutboxRow → List OutboxRow
unfolding sort_by where_
outbox_fetch_pending limit rows = take limit (sort_by occurred_no_later (where_ is_pending rows))

-- `id = ANY($1::uuid[])`
abbrev pub any_id : List String → String → Bool
any_id [] s = false
any_id (a ∷ ids) s = if a == s then true else any_id ids s

-- `UPDATE outbox_events SET published_at = now() WHERE id = ANY($1::uuid[])`
unfoldable pub outbox_mark_published : List String → Time → List OutboxRow → List OutboxRow
outbox_mark_published ids now [] = []
outbox_mark_published ids now (row ∷ rows) =
    (if any_id ids row.event.id then record row { published_at = some now } else row)
    ∷ outbox_mark_published ids now rows

-- The order and the drone that a select by identifier scans.
unfoldable pub find_order : String → Db → Option Order
find_order id d = elim (order_select_by_id id d.orders) [
  | none ↦ none
  | some row ↦ some (scan_order row)
]

unfoldable pub find_drone : String → Db → Option Drone
find_drone id d = elim (drone_select_by_id id d.drones) [
  | none ↦ none
  | some row ↦ some (scan_drone row)
]

-- The tables after an update of one order, after one of a drone, and after an event is enqueued.
unfoldable pub put_order : Order → Db → Db
put_order order d = record d { orders = order_update order d.orders }

unfoldable pub put_drone : Drone → Db → Db
put_drone drone d = record d { drones = drone_update drone d.drones }

unfoldable pub add_event : Event → Db → Db
add_event event d = record d { outbox = outbox_insert event d.outbox }

-- The tables after an insert that succeeds.
unfoldable pub new_order : Order → Db → Db
new_order order d = record d { orders = d.orders ++ order_insert_values order ∷ [] }

unfoldable pub new_drone : Drone → Db → Db
new_drone drone d = record d { drones = d.drones ++ drone_insert_values drone ∷ [] }
