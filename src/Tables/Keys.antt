-- ===== src/Tables/Keys.antt =====
-- The primary key of the table of orders, and the statements of internal/repo/postgres/sql.go.
use drone_management_system.Base.{
  false, ◌≡◌, refl, none, String, ◌==◌, List, [], ◌∷◌, ◌++◌, arith, eq_iff,
}
use drone_management_system.Domain.{Order}
use drone_management_system.Rows.{OrderRow, order_insert_values, order_update_values}
use drone_management_system.Tables.OrderLookup.{select-order_update-none}
use drone_management_system.Tables.{
  Db, order_select_by_id, order_update, find_order, put_order, new_order,
}

-- No two rows share their primary key.
abbrev pub UniqueKeys : List OrderRow → Type 0
UniqueKeys [] = Unit
UniqueKeys (row ∷ rows) = (order_select_by_id row.id rows ≡ none) × UniqueKeys rows

id-updated : (order : Order) (row : OrderRow) → (order_update_values order row).id ≡ row.id
unfolding order_update_values
id-updated order row = refl

UniqueKeys-order_update :
    (order : Order) (rows : List OrderRow) → UniqueKeys rows → UniqueKeys (order_update order rows)
unfolding order_update
UniqueKeys-order_update order [] u = tt
UniqueKeys-order_update order (row ∷ rows) u = ground (
  arith,
  id-updated order row,
  select-order_update-none order row.id rows u.0,
  UniqueKeys-order_update order rows u.1,
)

pub UniqueKeys-put_order :
    (order : Order) (d : Db) → UniqueKeys d.orders → UniqueKeys (put_order order d).orders
unfolding put_order
UniqueKeys-put_order order d = UniqueKeys-order_update order d.orders

select-append_new :
    (id : String) (row : OrderRow) (rows : List OrderRow)
    → order_select_by_id id rows ≡ none
    → (row.id == id) ≡ false
    → order_select_by_id id (rows ++ row ∷ []) ≡ none
unfolding order_select_by_id
select-append_new id row [] h ne = ground arith
select-append_new id row (r ∷ rows) h ne = ground (arith, select-append_new id row rows)

UniqueKeys-insert :
    (row : OrderRow) (rows : List OrderRow)
    → order_select_by_id row.id rows ≡ none
    → UniqueKeys rows
    → UniqueKeys (rows ++ row ∷ [])
unfolding order_select_by_id
UniqueKeys-insert row [] h u = (refl, tt)
UniqueKeys-insert row (r ∷ rows) h u = ground (
  arith,
  eq_iff r.id row.id,
  eq_iff row.id r.id,
  select-append_new r.id row rows u.0,
  UniqueKeys-insert row rows,
)

id-inserted : (order : Order) → (order_insert_values order).id ≡ order.id
unfolding order_insert_values
id-inserted order = refl

pub UniqueKeys-new_order :
    (order : Order) (d : Db)
    → find_order order.id d ≡ none
    → UniqueKeys d.orders
    → UniqueKeys (new_order order d).orders
unfolding new_order find_order
UniqueKeys-new_order order d h u =
    UniqueKeys-insert (order_insert_values order) d.orders (ground (arith, id-inserted order)) u
