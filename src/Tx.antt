-- ===== src/Tx.antt =====
-- internal/repo/postgres/store.go: the methods of `Store` and `Tx`, as statements of `Tables`.
-- The `Store` interface of internal/service/service.go is answered by these.
pub mod Rules
use mathlib.Core.Option
use drone_management_system.Base.{
  ℕ, zero, suc, Option, none, some, Bool, true, false, ◌||◌, String, List, [], ◌∷◌, map,
  if◌then◌else◌,
}
use drone_management_system.Integer.{ℤ, pos, negsuc, int_le, int_gt}
use drone_management_system.Domain.{
  OrderStatus, Order, Drone, Error, sentinel, not_found, driver, order_status_text,
}
use drone_management_system.Events.{Event}
use drone_management_system.Rows.{scan_order, scan_drone}
use drone_management_system.Tables.{
  Db, order_select_by_id, order_insert, order_reserve, order_list, drone_insert, drone_list,
  find_order, find_drone, put_order, put_drone, add_event,
}
use drone_management_system.Exec.{
  Env, State, Result, ok, err, Exec, pure, ◌>>=◌, ◌>>◌, or_error, statement, ⊤,
}

-- `OrderFilter`
pub record OrderFilter : Type 0 where
  pub status : Option String
  pub limit : ℤ
  pub offset : ℤ

-- `int` as a number of rows, where it is not negative.
abbrev magnitude_of : ℤ → ℕ
magnitude_of (pos n) = n
magnitude_of (negsuc n) = 0

-- The limit of `ListOrders`: 100 where the filter asks for none or for more than 500.
unfoldable pub list_limit : ℤ → ℕ
list_limit limit = if int_le limit 0 || int_gt limit 500 then 100 else magnitude_of limit

abbrev after_insert : {T : Type 0} → (T → Db) → Db → Option T → Result ⊤ × Db
after_insert put d none = (err driver, d)
after_insert put d (some rows) = (ok tt, put rows)

-- A negative offset is refused by the database.
abbrev pub list_page : Option String → ℕ → ℤ → Db → Result (List Order) × Db
list_page status limit (pos offset) d =
    (ok (map scan_order (order_list status limit offset d.orders)), d)
list_page status limit (negsuc n) d = (err driver, d)

module _ (env : Env) where
  -- `Store.GetOrder` and `Tx.GetOrderForUpdate`; no row is `ErrNotFound`.
  unfoldable pub get_order : String → Exec Order
  get_order id = statement env (λ d. (or_error (find_order id d) (sentinel not_found), d))

  unfoldable pub get_order_for_update : String → Exec Order
  get_order_for_update id =
      statement env (λ d. (or_error (find_order id d) (sentinel not_found), d))

  unfoldable pub get_drone : String → Exec Drone
  get_drone id = statement env (λ d. (or_error (find_drone id d) (sentinel not_found), d))

  unfoldable pub get_drone_for_update : String → Exec Drone
  get_drone_for_update id =
      statement env (λ d. (or_error (find_drone id d) (sentinel not_found), d))

  unfoldable pub list_orders : OrderFilter → Exec (List Order)
  unfolding list_limit
  list_orders filter =
      statement env (list_page filter.status (list_limit filter.limit) filter.offset)

  unfoldable pub list_drones : Exec (List Drone)
  unfolding drone_list
  list_drones = statement env (λ d. (ok (map scan_drone (drone_list env.collate d.drones)), d))

  unfoldable pub create_order : Order → Exec ⊤
  create_order order =
      statement env
        (λ d. after_insert (λ rows. record d { orders = rows }) d (order_insert order d.orders))

  -- `Store.CreateOrder` runs the same statement on the pool, outside of a transaction.
  unfoldable pub store_create_order : Order → Exec ⊤
  unfolding create_order
  store_create_order order = create_order order

  unfoldable pub create_drone : Drone → Exec ⊤
  create_drone drone =
      statement env
        (λ d. after_insert (λ rows. record d { drones = rows }) d (drone_insert drone d.drones))

  unfoldable pub update_order : Order → Exec ⊤
  update_order order = statement env (λ d. (ok tt, put_order order d))

  unfoldable pub update_drone : Drone → Exec ⊤
  update_drone drone = statement env (λ d. (ok tt, put_drone drone d))

  unfoldable pub enqueue_event : Event → Exec ⊤
  enqueue_event event = statement env (λ d. (ok tt, add_event event d))

  -- `ReserveNextOrder`: `none` is the nil order with a nil error.
  unfoldable pub reserve_next_order : List OrderStatus → Exec (Option Order)
  reserve_next_order [] s = pure none s
  reserve_next_order (status ∷ rest) s =
      statement env
        (λ d. (
          ok (
              Option.map scan_order (
                order_reserve (map order_status_text (status ∷ rest)) (env.locked s.calls)
                  d.orders)),
          d,
        ))
        s
