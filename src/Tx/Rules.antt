-- ===== src/Tx/Rules.antt =====
-- For each method of `Tx` and `Store`, what is left to show of the calls after it.
use drone_management_system.Base.{
  ◌≡◌, refl, Option, none, some, true, String, inl, inr, Option-cases, arith, is_some,
}
use drone_management_system.Domain.{Order, Drone, Error, sentinel, not_found, driver}
use drone_management_system.Events.{Event}
use drone_management_system.Tables.{
  Db, find_order, find_drone, put_order, put_drone, add_event, new_order, new_drone, order_insert,
  drone_insert, order_select_by_id, drone_select_by_id,
}
use drone_management_system.Exec.{Env, Exec, ◌>>=◌, ◌>>◌, or_error}
use drone_management_system.Exec.Outcomes.{Ensures, Ensures-statement, Next}
use drone_management_system.Tx.{
  get_order, get_drone, get_order_for_update, get_drone_for_update, create_order, create_drone,
  update_order, update_drone, enqueue_event,
}

Next-found :
    {T B : Type 0} (env : Env) (Ok : B → Db → Type 0) (Err : Error → Type 0) (f : T → Exec B)
    (o : Option T) (d : Db)
    → (o ≡ none → Err (sentinel not_found))
    → ((a : T) → o ≡ some a → Ensures env (f a) d Ok Err)
    → Next env Ok Err f (or_error o (sentinel not_found), d)
Next-found env Ok Err f none d missing found = missing refl
Next-found env Ok Err f (some a) d missing found = found a refl

module _ (env : Env) {B : Type 0} {d : Db} {Ok : B → Db → Type 0} {Err : Error → Type 0} where
  pub Ensures-get_order :
      (id : String) (f : Order → Exec B)
      → (find_order id d ≡ none → Err (sentinel not_found))
      → ((o : Order) → find_order id d ≡ some o → Ensures env (f o) d Ok Err)
      → Ensures env (get_order_for_update env id >>= f) d Ok Err
  unfolding get_order_for_update
  Ensures-get_order id f missing found =
      Ensures-statement env _ f (Next-found env Ok Err f (find_order id d) d missing found)

  pub Ensures-get_drone :
      (id : String) (f : Drone → Exec B)
      → (find_drone id d ≡ none → Err (sentinel not_found))
      → ((o : Drone) → find_drone id d ≡ some o → Ensures env (f o) d Ok Err)
      → Ensures env (get_drone_for_update env id >>= f) d Ok Err
  unfolding get_drone_for_update
  Ensures-get_drone id f missing found =
      Ensures-statement env _ f (Next-found env Ok Err f (find_drone id d) d missing found)

  pub Ensures-read_order :
      (id : String) (f : Order → Exec B)
      → (find_order id d ≡ none → Err (sentinel not_found))
      → ((o : Order) → find_order id d ≡ some o → Ensures env (f o) d Ok Err)
      → Ensures env (get_order env id >>= f) d Ok Err
  unfolding get_order
  Ensures-read_order id f missing found =
      Ensures-statement env _ f (Next-found env Ok Err f (find_order id d) d missing found)

  pub Ensures-read_drone :
      (id : String) (f : Drone → Exec B)
      → (find_drone id d ≡ none → Err (sentinel not_found))
      → ((o : Drone) → find_drone id d ≡ some o → Ensures env (f o) d Ok Err)
      → Ensures env (get_drone env id >>= f) d Ok Err
  unfolding get_drone
  Ensures-read_drone id f missing found =
      Ensures-statement env _ f (Next-found env Ok Err f (find_drone id d) d missing found)

  pub Ensures-update_order :
      (o : Order) (k : Exec B)
      → Ensures env k (put_order o d) Ok Err
      → Ensures env (update_order env o >> k) d Ok Err
  unfolding update_order
  Ensures-update_order o k h = Ensures-statement env _ _ h

  pub Ensures-update_drone :
      (o : Drone) (k : Exec B)
      → Ensures env k (put_drone o d) Ok Err
      → Ensures env (update_drone env o >> k) d Ok Err
  unfolding update_drone
  Ensures-update_drone o k h = Ensures-statement env _ _ h

  pub Ensures-enqueue_event :
      (event : Event) (k : Exec B)
      → Ensures env k (add_event event d) Ok Err
      → Ensures env (enqueue_event env event >> k) d Ok Err
  unfolding enqueue_event
  Ensures-enqueue_event event k h = Ensures-statement env _ _ h

  pub Ensures-create_order :
      (o : Order) (k : Exec B)
      → (is_some (find_order o.id d) ≡ true → Err driver)
      → (find_order o.id d ≡ none → Ensures env k (new_order o d) Ok Err)
      → Ensures env (create_order env o >> k) d Ok Err
  unfolding create_order find_order order_insert new_order
  Ensures-create_order o k taken free = elim (Option-cases (order_select_by_id o.id d.orders)) [
    | inl e ↦ Ensures-statement env _ _ (rw e (free (ground arith)))
    | inr (row, e) ↦ Ensures-statement env _ _ (rw e (taken (ground arith)))
  ]

  pub Ensures-create_drone :
      (o : Drone) (k : Exec B)
      → find_drone o.id d ≡ none
      → Ensures env k (new_drone o d) Ok Err
      → Ensures env (create_drone env o >> k) d Ok Err
  unfolding create_drone find_drone drone_insert new_drone
  Ensures-create_drone o k missing h = elim (Option-cases (drone_select_by_id o.id d.drones)) [
    | inl e ↦ Ensures-statement env _ _ (rw e h)
    | inr (row, e) ↦ absurd (ground arith)
  ]
