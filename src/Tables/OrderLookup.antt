-- ===== src/Tables/OrderLookup.antt =====
-- What a select of an order finds after each statement that writes orders.
use drone_management_system.Base.{
  ◌≡◌, refl, none, some, String, ◌==◌, List, [], ◌∷◌, ◌++◌, arith, eq_iff, if◌then◌else◌,
  Option-cases, inl, inr,
}
use drone_management_system.Domain.{Order}
use drone_management_system.Rows.{OrderRow, scan_order, order_insert_values, order_update_values}
use drone_management_system.Rows.RoundTrip.{scan_order-insert_update}
use drone_management_system.Tables.{
  Db, order_select_by_id, order_update, find_order, put_order, new_order,
}

-- A stored order has the identifier that it was found by.
pub id-order_select_by_id :
    (id : String) (rows : List OrderRow) {found : OrderRow}
    → order_select_by_id id rows ≡ some found
    → found.id ≡ id
unfolding order_select_by_id
id-order_select_by_id id [] h = cc
id-order_select_by_id id (row ∷ rows) {found = r} h =
    ground (arith, eq_iff row.id id, id-order_select_by_id id rows {found = r})

pub id-find_order : (id : String) (d : Db) {o : Order} → find_order id d ≡ some o → o.id ≡ id
unfolding find_order scan_order
id-find_order id d h = elim (Option-cases (order_select_by_id id d.orders)) [
  | inl e ↦ ground arith
  | inr (row, e) ↦ ground (arith, id-order_select_by_id id d.orders e)
]

-- A row selected after an update is the row of before, with the new values if it was updated.
pub select-order_update :
    (order : Order) (id : String) (rows : List OrderRow) {found : OrderRow}
    → order_select_by_id id rows ≡ some found
    → order_select_by_id id (order_update order rows)
      ≡ some (if order.id == id then order_update_values order found else found)
unfolding order_select_by_id order_update order_update_values
select-order_update order id [] h = cc
select-order_update order id (row ∷ rows) {found = r} h = ground (
  arith,
  eq_iff row.id id,
  eq_iff row.id order.id,
  eq_iff order.id id,
  select-order_update order id rows {found = r},
)

pub select-order_update-none :
    (order : Order) (id : String) (rows : List OrderRow)
    → order_select_by_id id rows ≡ none
    → order_select_by_id id (order_update order rows) ≡ none
unfolding order_select_by_id order_update order_update_values
select-order_update-none order id [] h = refl
select-order_update-none order id (row ∷ rows) h =
    ground (arith, eq_iff row.id id, select-order_update-none order id rows)

select-order_insert :
    (order : Order) (id : String) (rows : List OrderRow)
    → order_select_by_id order.id rows ≡ none
    → order_select_by_id id (rows ++ order_insert_values order ∷ [])
      ≡ (if order.id == id then some (order_insert_values order) else order_select_by_id id rows)
unfolding order_select_by_id order_insert_values
select-order_insert order id [] h = refl
select-order_insert order id (row ∷ rows) h = ground (
  arith,
  eq_iff row.id id,
  eq_iff row.id order.id,
  eq_iff order.id id,
  select-order_insert order id rows,
)

created-scan_order : (row : OrderRow) → (scan_order row).created_at ≡ row.created_at
unfolding scan_order
created-scan_order row = refl

-- After an update of a order that is there, with its time of creation, a select finds the order.
pub find_order-put_order :
    (order : Order) (d : Db) {old : Order}
    → find_order order.id d ≡ some old
    → order.created_at ≡ old.created_at
    → (id : String)
    → find_order id (put_order order d) ≡ (if order.id == id then some order else find_order id d)
unfolding find_order put_order
find_order-put_order order d h created id = elim (Option-cases (order_select_by_id id d.orders)) [
  | inl e ↦ ground (arith, eq_iff order.id id, select-order_update-none order id d.orders e)
  | inr (row, e) ↦ ground (
    arith,
    eq_iff order.id id,
    select-order_update order id d.orders e,
    id-order_select_by_id id d.orders e,
    created-scan_order row,
    (scan_order-insert_update order row).1,
  )
]

-- After an insert of a new order a select finds it.
pub find_order-new_order :
    (order : Order) (d : Db)
    → find_order order.id d ≡ none
    → (id : String)
    → find_order id (new_order order d) ≡ (if order.id == id then some order else find_order id d)
unfolding find_order new_order
find_order-new_order order d h id = elim (Option-cases (order_select_by_id order.id d.orders)) [
  | inl e ↦ ground (
    arith,
    select-order_insert order id d.orders e,
    (scan_order-insert_update order (order_insert_values order)).0,
  )
  | inr (row, e) ↦ ground arith
]
