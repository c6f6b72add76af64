-- ===== src/Service/Rules.antt =====
-- Rules for the calls that the operations of internal/service/service.go share.
use drone_management_system.Base.{
  eq_iff, arith, ◌≢◌, false, true, ◌≡◌, refl, Option, none, some, String, List, ◌∷◌, inl, inr,
  Option-cases, Bool-cases, map, ◌+◌, ℕ,
}
use drone_management_system.Domain.{Time, OrderStatus, order_status_text, Order, Drone, Error}
use drone_management_system.Events.{new_order_event, new_drone_event}
use drone_management_system.Rows.{OrderRow, scan_order}
use drone_management_system.Tables.{Db, find_drone, new_drone, add_event, order_reserve}
use drone_management_system.Tables.Keys.{UniqueKeys}
use drone_management_system.Exec.{pure, uuid_new_string, Env, Exec, ◌>>=◌, ◌>>◌, statement}
use drone_management_system.Exec.Outcomes.{Ensures, Ensures-assoc, Ensures-statement}
use drone_management_system.Tx.{
  enqueue_event, get_drone_for_update, create_drone, reserve_next_order,
}
use drone_management_system.Tx.Rules.{Ensures-enqueue_event, Ensures-create_drone}
use drone_management_system.Service.{
  not_assigned_to, new_active_drone, create_missing, get_or_create_drone, enqueue_order_event,
  enqueue_drone_event,
}

module _ (env : Env) {B : Type 0} {d : Db} {Ok : B → Db → Type 0} {Err : Error → Type 0} where
  pub Ensures-enqueue_order_event :
      (event_type : String) (o : Order) (x : Option Drone) (time : Time) (k : Exec B)
      → ((id : String)
          → Ensures env k (add_event (new_order_event id event_type o x time) d) Ok Err)
      → Ensures env (enqueue_order_event env event_type o x time >> k) d Ok Err
  unfolding enqueue_order_event uuid_new_string enqueue_event ◌>>=◌
  Ensures-enqueue_order_event event_type o x time k h = record {
    at = λ c t i.
        (Ensures-enqueue_event env (new_order_event (env.uuid i) event_type o x time) k
            (h (env.uuid i))).at
          c t (i + 1);
  }

  pub Ensures-enqueue_drone_event :
      (event_type : String) (x : Drone) (time : Time) (k : Exec B)
      → ((id : String) → Ensures env k (add_event (new_drone_event id event_type x time) d) Ok Err)
      → Ensures env (enqueue_drone_event env event_type x time >> k) d Ok Err
  unfolding enqueue_drone_event uuid_new_string enqueue_event ◌>>=◌
  Ensures-enqueue_drone_event event_type x time k h = record {
    at = λ c t i.
        (Ensures-enqueue_event env (new_drone_event (env.uuid i) event_type x time) k
            (h (env.uuid i))).at
          c t (i + 1);
  }

  -- The drone is there, or it is created active and empty.
  pub Ensures-get_or_create_drone :
      (id : String) (time : Time) (f : Drone → Exec B)
      → ((x : Drone) → find_drone id d ≡ some x → Ensures env (f x) d Ok Err)
      → (find_drone id d ≡ none
          → Ensures env
              (f (new_active_drone id time))
              (new_drone (new_active_drone id time) d)
              Ok
              Err)
      → Ensures env (get_or_create_drone env id time >>= f) d Ok Err
  unfolding get_or_create_drone create_missing get_drone_for_update statement ◌>>=◌
  Ensures-get_or_create_drone id time f found missing =
      let fresh = new_active_drone id time in
      record {
        at = λ c t i. elim (Bool-cases (env.fault c)) [
          | inl e ↦ rw e (inr (refl, (c, e)))
          | inr e ↦ rw e (elim (Option-cases (find_drone id d)) [
            | inl n ↦ rw n (
                (Ensures-assoc env (create_drone env fresh) (λ _. pure fresh) f
                    (Ensures-create_drone env fresh (f fresh) n (missing n))).at
                  (c + 1) t i)
            | inr (x, s) ↦ rw s ((found x s).at (c + 1) t i)
          ])
        ];
      }

  -- An order is reserved that is stored and may be reserved, or nothing may be.
  pub Ensures-reserve_next_order :
      (status : OrderStatus) (rest : List OrderStatus) (f : Option Order → Exec B)
      → UniqueKeys d.orders
      → ((n : ℕ)
          → order_reserve (map order_status_text (status ∷ rest)) (env.locked n) d.orders ≡ none
          → Ensures env (f none) d Ok Err)
      → ((n : ℕ) (row : OrderRow)
          → order_reserve (map order_status_text (status ∷ rest)) (env.locked n) d.orders ≡ some row
          → Ensures env (f (some (scan_order row))) d Ok Err)
      → Ensures env (reserve_next_order env (status ∷ rest) >>= f) d Ok Err
  unfolding reserve_next_order ◌>>=◌
  Ensures-reserve_next_order status rest f keys nothing taken = record {
    at = λ c t i.
        elim (Option-cases
          (order_reserve (map order_status_text (status ∷ rest)) (env.locked c) d.orders)) [
            | inl e ↦ (Ensures-statement env _ f (rw e (nothing c e))).at c t i
            | inr (row, e) ↦ (Ensures-statement env _ f (rw e (taken c row e))).at c t i
          ];
  }

-- The guard on the assigned drone, read both ways.
pub assigned_to : (x : String) (a : Option String) → not_assigned_to x a ≡ false → a ≡ some x
assigned_to x none h = cc
assigned_to x (some y) h = ground (arith, eq_iff y x)

pub assigned_to_other : (x : String) (a : Option String) → not_assigned_to x a ≡ true → a ≢ some x
assigned_to_other x none h e = cc
assigned_to_other x (some y) h e = ground (arith, eq_iff y x)
