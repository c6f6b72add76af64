-- ===== src/Service/Histories.antt =====
-- Histories of internal/service/service.go: the operations that write, called in any order, each with
-- any answer of the environment.
use mathlib.Core.Path.{subst}
use drone_management_system.Exec.{ok, err}
use drone_management_system.Service.Broken.{idle, relieved}
use drone_management_system.Service.Drones.{
  Located, Fixed, record_heartbeat-Outcome, drone_mark_fixed-Outcome,
}
use drone_management_system.Service.Breakdown.{drone_mark_broken-Outcome}
use drone_management_system.Service.Carriage.{
  Completed, PickedUp, drone_fail-Outcome, drone_deliver-Outcome, drone_pickup-Outcome,
}
use drone_management_system.Service.Reserve.{Reserved, drone_reserve_job-Outcome}
use drone_management_system.Exec.Outcomes.{Outcome}
use drone_management_system.Service.Withdraw.{Withdrawn, withdraw_order-Outcome}
use drone_management_system.Service.Broken.{BrokenDown, Relieved}
use drone_management_system.Service.Changes.{Progress}
use drone_management_system.Service.Orders.{
  Rerouted, admin_update_order-Outcome, submit_order-Outcome, Submitted,
}
use drone_management_system.Service.{
  record_heartbeat, drone_mark_fixed, drone_mark_broken, drone_fail, drone_deliver, drone_pickup,
  drone_reserve_job, admin_update_order, withdraw_order, submit_order,
}
use drone_management_system.Service.Consistency.{IsConsistent}
use drone_management_system.Service.Lifecycle.{⟶-live, OrderStep, ◌⟶◌}
use drone_management_system.Domain.{failed, delivered, Error, Drone, Location, is_terminal, Order}
use drone_management_system.Exec.{Result, State, Env}
use drone_management_system.Tables.{find_order, Db}
use drone_management_system.Base.{
  ne_of_false, sym, some_eq, eq_of_true, ap, [], ◌∷◌, inl, inr, ◌==◌, Bool-cases, some, Option,
  true, arith, ◌∙◌, List, String, ◌≡◌, refl,
}

-- The calls of the service that write.
pub data Command : Type 0 where
  submit : (user_id : String) (origin dest : Location) → Command
  withdraw : (user_id order_id : String) → Command
  update : (order_id : String) (origin dest : Option Location) → Command
  reserve : (drone_id : String) → Command
  pickup : (drone_id order_id : String) → Command
  deliver : (drone_id order_id : String) → Command
  fail : (drone_id order_id reason : String) → Command
  mark_broken : (drone_id : String) → Command
  mark_fixed : (drone_id : String) → Command
  heartbeat : (drone_id : String) (loc : Location) → Command

-- The state after a call, whatever it answers.
unfoldable pub call : Env → Command → State → State
call env (submit user_id origin dest) s = (submit_order env user_id origin dest s).1
call env (withdraw user_id order_id) s = (withdraw_order env user_id order_id s).1
call env (update order_id origin dest) s = (admin_update_order env order_id origin dest s).1
call env (reserve drone_id) s = (drone_reserve_job env drone_id s).1
call env (pickup drone_id order_id) s = (drone_pickup env drone_id order_id s).1
call env (deliver drone_id order_id) s = (drone_deliver env drone_id order_id s).1
call env (fail drone_id order_id reason) s = (drone_fail env drone_id order_id reason s).1
call env (mark_broken drone_id) s = (drone_mark_broken env drone_id s).1
call env (mark_fixed drone_id) s = (drone_mark_fixed env drone_id s).1
call env (heartbeat drone_id loc) s = (record_heartbeat env drone_id loc s).1

unfoldable pub run : Env → List Command → State → State
run env [] s = s
run env (c ∷ cs) s = run env cs (call env c s)

-- One call on an order: it leaves the row as it is, or keeps the owner and moves the status by one
-- edge of the diagram.
pub data OneStep (o : Order) : Order → Type 0 where
  unchanged : OneStep o o
  moved : {o' : Order} → o'.user_id ≡ o.user_id → o.status ⟶ o'.status → OneStep o o'

OneStep-final : (o o' : Order) → OneStep o o' → is_terminal o.status ≡ true → o' ≡ o
OneStep-final o o' unchanged h = refl
OneStep-final o o' (moved owner edge) h = absurd (ground (arith, ⟶-live edge))

-- The tables `d'` are consistent, and every order of `d` is still there.
pub record Sound (d d' : Db) : Type 0 where
  pub consistent : IsConsistent d'
  pub kept :
      (id : String) (o : Order)
      → find_order id d ≡ some o
      → (o' : Order) × (find_order id d' ≡ some o') × OneStep o o'

Sound-same :
    {d d' : Db} → IsConsistent d' → ((j : String) → find_order j d' ≡ find_order j d) → Sound d d'
Sound-same consistent same = record {
  consistent = consistent;
  kept = λ id o e. (o, same id ∙ e, unchanged);
}

Sound-step :
    {d d' : Db} {id : String} {old new : Order}
    → IsConsistent d'
    → OrderStep id d d' old new
    → Sound d d'
Sound-step {d} {d'} {id} {old} {new} consistent step = record {
  consistent = consistent;
  kept = λ j o e. elim (Bool-cases (id == j)) [
    | inl same ↦
        let at = eq_of_true id j same in
        (
          new,
          subst (λ i. find_order i d' ≡ some new) at step.after,
          subst (λ p. OneStep p new)
              (some_eq (sym step.before ∙ subst (λ i. find_order i d ≡ some o) (sym at) e))
              (moved step.owner step.edge),
        )
    | inr other ↦ (o, step.others j (λ s. ne_of_false id j other (sym s)) ∙ e, unchanged)
  ];
}

-- What an outcome gives, whatever it answers.
Outcome-Sound :
    {A : Type 0} (env : Env) (d : Db) (Ok : A → Db → Type 0) (Err : Error → Type 0)
    (r : Result A × State)
    → IsConsistent d
    → ((a : A) (d' : Db) → Ok a d' → Sound d d')
    → Outcome env d Ok Err r
    → Sound d r.1.db
Outcome-Sound env d Ok Err (ok a, s) consistent good h = good a s.db h
Outcome-Sound env d Ok Err (err e, s) consistent good h =
    subst (Sound d) (sym h.0) (Sound-same consistent (λ j. refl))

Progress-Sound :
    {event_type id : String} {d d' : Db} {old new : Order}
    → Progress event_type id d d' old new
    → Sound d d'
Progress-Sound p = Sound-step p.consistent p.step

Submitted-Sound :
    {user_id : String} {origin dest : Location} (d : Db) (o : Order) (d' : Db)
    → Submitted user_id origin dest d o d'
    → Sound d d'
Submitted-Sound d o d' h = record {
  consistent = h.consistent;
  kept = λ id p e. (p, h.others id (λ same. ground (arith, h.fresh)) ∙ e, unchanged);
}

Relieved-Sound :
    (drone_id : String) (last : Option Location) (d d' : Db)
    → Relieved drone_id last d d'
    → IsConsistent d'
    → Sound d d'
Relieved-Sound drone_id last d d' (idle free same) consistent = Sound-same consistent same
Relieved-Sound drone_id last d d' (relieved id old new holds step gone handed) consistent =
    Sound-step consistent step

broken-Sound :
    {drone_id : String} {d : Db} {x : Drone} {d' : Db} → BrokenDown drone_id d x d' → Sound d d'
broken-Sound {drone_id} {d} {x} {d'} h =
    Relieved-Sound drone_id x.last_location d d' h.orders h.consistent

-- Each call keeps the tables consistent and every order on its way.
pub call-Sound :
    (env : Env) (c : Command) (s : State) → IsConsistent s.db → Sound s.db (call env c s).db
unfolding call
call-Sound env (submit user_id origin dest) s h =
    Outcome-Sound env s.db (Submitted user_id origin dest s.db) _ _ h (Submitted-Sound s.db)
      (submit_order-Outcome env user_id origin dest s h)
call-Sound env (withdraw user_id order_id) s h =
    Outcome-Sound env s.db (Withdrawn s.db user_id order_id) _ _ h
      (λ o d' p. Sound-step p.consistent p.step) (withdraw_order-Outcome env user_id order_id s h)
call-Sound env (update order_id origin dest) s h =
    Outcome-Sound env s.db (Rerouted order_id origin dest s.db) _ _ h
      (λ o d' p. Progress-Sound p.progress)
      (admin_update_order-Outcome env order_id origin dest s h)
call-Sound env (reserve drone_id) s h =
    Outcome-Sound env s.db (Reserved env drone_id s.db) _ _ h (λ o d' p. Progress-Sound p.progress)
      (drone_reserve_job-Outcome env drone_id s h)
call-Sound env (pickup drone_id order_id) s h =
    Outcome-Sound env s.db (PickedUp drone_id order_id s.db) _ _ h
      (λ o d' p. Progress-Sound p.progress) (drone_pickup-Outcome env drone_id order_id s h)
call-Sound env (deliver drone_id order_id) s h =
    Outcome-Sound env s.db (Completed env delivered "" drone_id order_id s.db) _ _ h
      (λ o d' p. Progress-Sound p.progress) (drone_deliver-Outcome env drone_id order_id s h)
call-Sound env (fail drone_id order_id reason) s h =
    Outcome-Sound env s.db (Completed env failed reason drone_id order_id s.db) _ _ h
      (λ o d' p. Progress-Sound p.progress) (drone_fail-Outcome env drone_id order_id reason s h)
call-Sound env (mark_broken drone_id) s h =
    Outcome-Sound env s.db (BrokenDown drone_id s.db) _ _ h (λ x d' p. broken-Sound p)
      (drone_mark_broken-Outcome env drone_id s h)
call-Sound env (mark_fixed drone_id) s h =
    Outcome-Sound env s.db (Fixed env drone_id s.db) _ _ h
      (λ x d' p. Sound-same p.write.consistent p.write.orders)
      (drone_mark_fixed-Outcome env drone_id s h)
call-Sound env (heartbeat drone_id loc) s h =
    Outcome-Sound env s.db (Located env drone_id loc s.db) _ _ h
      (λ x d' p. Sound-same p.write.consistent p.write.orders)
      (record_heartbeat-Outcome env drone_id loc s h)

-- From consistent tables every history of the writing calls, whatever they answer, leaves
-- consistent tables: drones and orders point at one another, and each row has the fields of its
-- status.
pub run-IsConsistent :
    (env : Env) (cs : List Command) (s : State) → IsConsistent s.db → IsConsistent (run env cs s).db
unfolding run
run-IsConsistent env [] s h = h
run-IsConsistent env (c ∷ cs) s h =
    run-IsConsistent env cs (call env c s) (call-Sound env c s h).consistent

-- From consistent tables and after any history of calls, the next call, whatever it answers, loses
-- no order: it leaves the row as it is, or keeps its owner and moves its status by one edge of the
-- diagram.
pub run-keeps_order :
    (env : Env) (cs : List Command) (c : Command) (s : State) (id : String) (o : Order)
    → IsConsistent s.db
    → find_order id (run env cs s).db ≡ some o
    → (o' : Order) × (find_order id (call env c (run env cs s)).db ≡ some o') × OneStep o o'
run-keeps_order env cs c s id o h e =
    (call-Sound env c (run env cs s) (run-IsConsistent env cs s h)).kept id o e

-- From consistent tables no history of calls changes an order that was delivered, has failed or
-- was withdrawn.
pub run-terminal :
    (env : Env) (cs : List Command) (s : State) (id : String) (o : Order)
    → IsConsistent s.db
    → find_order id s.db ≡ some o
    → is_terminal o.status ≡ true
    → find_order id (run env cs s).db ≡ some o
unfolding run
run-terminal env [] s id o h e done = e
run-terminal env (c ∷ cs) s id o h e done =
    let first = call-Sound env c s h in
    let (o', e', p) = first.kept id o e in
    run-terminal env cs (call env c s) id o first.consistent
      (e' ∙ ap some (OneStep-final o o' p done)) done
