-- ===== src/Service/Reserve.antt =====
-- `DroneReserveJob` of internal/service/service.go.
use drone_management_system.Tables.Reserve.{
  order_reserve-none, order_reserve-oldest, order_reserve-found,
}
use drone_management_system.Tables.Keys.{UniqueKeys}
use drone_management_system.Tx.Rules.{Ensures-update_drone, Ensures-update_order}
use drone_management_system.Service.Rules.{Ensures-enqueue_order_event, Ensures-reserve_next_order}
use drone_management_system.Exec.Outcomes.{
  Ensures-pure, Ensures-lift_some, Ensures-lift_none, Ensures-raise_if, Ensures-now, in_tx-Outcome,
  Outcome, Ensures,
}
use drone_management_system.Service.{drone_reserve_job, drone_reserve_job_tx}
use drone_management_system.Tables.DroneLookup.{id-find_drone}
use drone_management_system.Sorting.Laws.{All}
use drone_management_system.Events.{new_order_event, event_order_reserved}
use drone_management_system.Service.Lifecycle.{◌⟶◌}
use drone_management_system.Rows.{scan_order, OrderRow}
use drone_management_system.Service.Changes.{
  put_drone-put_order, carried_after_ne, carried_after_self, carried-change, carried-found,
  Change-Progress, Change-take, Change, Progress,
}
use drone_management_system.Service.Obtain.{Ensures-obtain, Change-Obtained, Obtained}
use drone_management_system.Service.Consistency.{DroneShape, IsConsistent, carried, holder_by}
use drone_management_system.Exec.{State, Env}
use drone_management_system.Tables.{
  order_reserve, put_drone, put_order, add_event, find_order, find_drone, Db, any_status,
  is_reservable,
}
use mathlib.Core.Path.{subst}
use drone_management_system.Service.Lifecycle
use drone_management_system.Base.{
  ◌∙◌, sym, ap, ◌≢◌, ◌≤◌, is_some, ℕ, inr, false, [], some, inl, arith, ◌∷◌, true, none, ◌⊎◌, map,
  Bool, String, Option, List, ◌≡◌, refl,
}
use drone_management_system.Domain.{
  withdrawn, broken, active, DroneStatus, no_job, failed, conflict, delivered, picked_up,
  precondition, reserved, handoff_requested, is_broken, Error, order_status_text, created, Time,
  OrderStatus, Order, Drone, sentinel,
}

-- The statuses of the orders that a drone may reserve, as the tables store them.
abbrev pub open_statuses : List String
open_statuses = map order_status_text (created ∷ handoff_requested ∷ [])

-- Why a drone gets no order; the last case names the rows that other transactions held locked.
pub data ReserveRefused (env : Env) (drone_id : String) (d : Db) : Error → Type 0 where
  down :
      (x : Drone)
      → find_drone drone_id d ≡ some x
      → is_broken x.status ≡ true
      → ReserveRefused env drone_id d (sentinel precondition)
  busy : is_some (carried d drone_id) ≡ true → ReserveRefused env drone_id d (sentinel conflict)
  no_order :
      (n : ℕ)
      → All (λ r. is_reservable open_statuses (env.locked n) r ≡ true → ⊥) d.orders
      → ReserveRefused env drone_id d (sentinel no_job)

-- A reservation takes the oldest order that is open and not locked, and the drone carries it.
pub record Reserved (env : Env) (drone_id : String) (d : Db) (o : Order) (d' : Db) : Type 0 where
  pub old : Order
  pub progress : Progress event_order_reserved o.id d d' old o
  pub started : (old.status ≡ created) ⊎ (old.status ≡ handoff_requested)
  pub ended : o.status ≡ reserved
  pub assigned : o.assigned_drone_id ≡ some drone_id
  pub oldest :
      (n : ℕ) × All
        (λ r. is_reservable open_statuses (env.locked n) r ≡ true → old.created_at ≤ r.created_at)
        d.orders
  pub was_free : carried d drone_id ≡ none
  pub carrying : carried d' drone_id ≡ some o.id
  pub others_carry : (y : String) → drone_id ≢ y → carried d' y ≡ carried d y

open_status :
    (s : OrderStatus)
    → any_status open_statuses (order_status_text s) ≡ true
    → (s ≡ created) ⊎ (s ≡ handoff_requested)
unfolding order_status_text
open_status created h = inl refl
open_status handoff_requested h = inr refl
open_status reserved h = absurd (ground arith)
open_status picked_up h = absurd (ground arith)
open_status delivered h = absurd (ground arith)
open_status failed h = absurd (ground arith)
open_status withdrawn h = absurd (ground arith)

reservable_status :
    (locked : String → Bool) (row : OrderRow)
    → is_reservable open_statuses locked row ≡ true
    → (row.status ≡ created) ⊎ (row.status ≡ handoff_requested)
unfolding is_reservable
reservable_status locked row h = open_status row.status (ground arith)

up_shape : (s : DroneStatus) (x : Drone) → is_broken s ≡ false → DroneShape s x
up_shape active x h = tt
up_shape broken x h = absurd (ground arith)

-- An open order rests on no drone, and may be reserved.
record OpenFacts (s : OrderStatus) (a : Option String) : Type 0 where
  free : holder_by s a ≡ none
  edge : s ⟶ reserved

open_facts :
    (s : OrderStatus) (a : Option String) → (s ≡ created) ⊎ (s ≡ handoff_requested) → OpenFacts s a
open_facts s a (inl e) = rw e (record { free = refl; edge = Lifecycle.reserve })
open_facts s a (inr e) = rw e (record { free = refl; edge = Lifecycle.take_over })

module _ (env : Env) (drone_id : String) {asked : Time} (d d1 : Db) (x : Drone)
    (got : Obtained drone_id asked d d1 x) (up : is_broken x.status ≡ false)
    (empty : x.current_order_id ≡ none) (old : Order) (found : find_order old.id d1 ≡ some old)
    (waiting : (old.status ≡ created) ⊎ (old.status ≡ handoff_requested)) (n : ℕ)
    (oldest : All
      (λ r. is_reservable open_statuses (env.locked n) r ≡ true → old.created_at ≤ r.created_at)
      d1.orders) where
  reserve_facts :
      (id : String) (time : Time)
      → let new = record old {
        status = reserved;
        assigned_drone_id = some x.id;
        reserved_at = some time;
        updated_at = time;
      } in
        let carrier = record x { current_order_id = some old.id; updated_at = time } in
        Reserved env drone_id d new (
          add_event
            (new_order_event id event_order_reserved new (some carrier) time)
            (put_order new (put_drone carrier d1)))
  reserve_facts id time =
      let new = record old {
        status = reserved;
        assigned_drone_id = some x.id;
        reserved_at = some time;
        updated_at = time;
      } in
      let carrier = record x { current_order_id = some old.id; updated_at = time } in
      let facts = open_facts old.status old.assigned_drone_id waiting in
      let same_id : x.id ≡ drone_id = id-find_drone drone_id d1 got.there in
      let taken : Change d1 (put_drone carrier d1) old.id old new =
        Change-take got.consistent old.id found new refl refl (refl, refl) drone_id got.there
          carrier refl refl (up_shape x.status carrier up) facts.free (ap some same_id) empty
          refl in
      let change = Change-Obtained got taken in
      record {
        old = old;
        progress =
            Change-Progress change id event_order_reserved (some carrier) time facts.edge refl;
        started = waiting;
        ended = refl;
        assigned = ap some same_id;
        oldest = (
          n,
          subst
              (All (λ r.
                is_reservable open_statuses (env.locked n) r ≡ true
                → old.created_at ≤ r.created_at))
              got.orders oldest,
        );
        was_free = sym (got.same_carried drone_id) ∙ carried-found drone_id d1 x got.there ∙ empty;
        carrying =
            carried-change change _ drone_id
            ∙ carried_after_self d1 drone_id got.there carrier refl refl drone_id refl;
        others_carry = λ y ne.
            carried-change change _ y
            ∙ carried_after_ne d1 drone_id got.there carrier refl refl y ne
            ∙ got.same_carried y;
      }

row_found :
    (locked : String → Bool) (d1 : Db) (row : OrderRow)
    → UniqueKeys d1.orders
    → order_reserve open_statuses locked d1.orders ≡ some row
    → find_order (scan_order row).id d1 ≡ some (scan_order row)
unfolding find_order scan_order
row_found locked d1 row keys e =
    rw ((order_reserve-found open_statuses locked d1.orders keys e).0, find_order) refl

row_oldest :
    (locked : String → Bool) (d1 : Db) (row : OrderRow)
    → order_reserve open_statuses locked d1.orders ≡ some row
    → All
        (λ r.
          is_reservable open_statuses locked r ≡ true → (scan_order row).created_at ≤ r.created_at)
        d1.orders
unfolding scan_order
row_oldest locked d1 row e = order_reserve-oldest open_statuses locked d1.orders row e

row_status :
    (locked : String → Bool) (d1 : Db) (row : OrderRow)
    → UniqueKeys d1.orders
    → order_reserve open_statuses locked d1.orders ≡ some row
    → ((scan_order row).status ≡ created) ⊎ ((scan_order row).status ≡ handoff_requested)
unfolding scan_order
row_status locked d1 row keys e =
    reservable_status locked row (order_reserve-found open_statuses locked d1.orders keys e).1

-- The same of the row that the statement has reserved, with the writes in the order of the code.
reserve_row :
    (env : Env) (drone_id : String) {asked : Time} (d d1 : Db) (x : Drone)
    → Obtained drone_id asked d d1 x
    → is_broken x.status ≡ false
    → x.current_order_id ≡ none
    → (n : ℕ) (row : OrderRow) → order_reserve open_statuses (env.locked n) d1.orders ≡ some row
    → (id : String) (time : Time)
    → let new = record (scan_order row) {
      status = reserved;
      assigned_drone_id = some x.id;
      reserved_at = some time;
      updated_at = time;
    } in
      let carrier = record x { current_order_id = some new.id; updated_at = time } in
      Reserved env drone_id d new (
        add_event
          (new_order_event id event_order_reserved new (some carrier) time)
          (put_drone carrier (put_order new d1)))
reserve_row env drone_id d d1 x got up empty n row e id time =
    let new = record (scan_order row) {
      status = reserved;
      assigned_drone_id = some x.id;
      reserved_at = some time;
      updated_at = time;
    } in
    let carrier = record x { current_order_id = some new.id; updated_at = time } in
    let keys = got.consistent.formed.keys in
    subst
      (λ t.
        Reserved env drone_id d new
          (add_event (new_order_event id event_order_reserved new (some carrier) time) t))
      (sym (put_drone-put_order carrier new d1))
      (reserve_facts env drone_id d d1 x got up empty (scan_order row)
        (row_found (env.locked n) d1 row keys e) (row_status (env.locked n) d1 row keys e) n
        (row_oldest (env.locked n) d1 row e) id time)

down_or_new :
    (env : Env) (drone_id : String) {asked : Time} (d d1 : Db) (x : Drone)
    → Obtained drone_id asked d d1 x
    → is_broken x.status ≡ true
    → ReserveRefused env drone_id d (sentinel precondition)
down_or_new env drone_id d d1 x got h = elim got.source [
  | inl e ↦ down x e h
  | inr (free, e) ↦ absurd (ground arith)
]

none_open :
    (env : Env) (drone_id : String) {asked : Time} (d d1 : Db) (x : Drone)
    → Obtained drone_id asked d d1 x
    → (n : ℕ) → order_reserve open_statuses (env.locked n) d1.orders ≡ none
    → All (λ r. is_reservable open_statuses (env.locked n) r ≡ true → ⊥) d.orders
none_open env drone_id d d1 x got n e =
    subst (All (λ r. is_reservable open_statuses (env.locked n) r ≡ true → ⊥)) got.orders
      (order_reserve-none open_statuses (env.locked n) d1.orders e)

drone_reserve_job_tx-Ensures :
    (env : Env) (drone_id : String) (d : Db)
    → IsConsistent d
    → Ensures env
        (drone_reserve_job_tx env drone_id)
        d
        (Reserved env drone_id d)
        (ReserveRefused env drone_id d)
unfolding drone_reserve_job_tx
drone_reserve_job_tx-Ensures env drone_id d consistent = Ensures-now env _ λ asked.
    Ensures-obtain drone_id asked d consistent env _ λ d1 x got.
      Ensures-raise_if env _ _ _ (λ e. down_or_new env drone_id d d1 x got e)
        λ up.
          Ensures-raise_if env _ _ _
            (λ e.
              busy
                (ground (arith, got.same_carried drone_id, carried-found drone_id d1 x got.there)))
            λ free.
              Ensures-reserve_next_order env _ _ _ got.consistent.formed.keys
                (λ n e.
                  Ensures-lift_none env _ _ (no_order n (none_open env drone_id d d1 x got n e)))
                λ n row e. Ensures-lift_some env (sentinel no_job) _ (scan_order row) (
                  Ensures-now env _ λ time. Ensures-update_order env _ _ (
                    Ensures-update_drone env _ _ (
                      Ensures-enqueue_order_event env _ _ _ _ _ λ id.
                        Ensures-pure env _
                          (reserve_row env drone_id d d1 x got up (ground arith) n row e id time))))

-- Over consistent tables, a reservation succeeds as `Reserved` says, or is refused for the reason
-- that `ReserveRefused` names, or a fault excuses it; in the last two cases nothing is stored.
pub drone_reserve_job-Outcome :
    (env : Env) (drone_id : String) (s : State)
    → IsConsistent s.db
    → Outcome env s.db
        (Reserved env drone_id s.db)
        (ReserveRefused env drone_id s.db)
        (drone_reserve_job env drone_id s)
unfolding drone_reserve_job
drone_reserve_job-Outcome env drone_id s consistent =
    in_tx-Outcome env _ _ (drone_reserve_job_tx env drone_id) s
      (drone_reserve_job_tx-Ensures env drone_id s.db consistent)
