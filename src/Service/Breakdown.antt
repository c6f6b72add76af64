-- ===== src/Service/Breakdown.antt =====
-- `DroneMarkBroken` of internal/service/service.go.
use drone_management_system.Tx.{update_drone}
use drone_management_system.Service.{
  enqueue_drone_event, handed_over, requeued, drone_mark_broken_tx, drone_mark_broken,
  release_order,
}
use drone_management_system.Service.Rules.{Ensures-enqueue_drone_event}
use drone_management_system.Tx.Rules.{Ensures-get_order, Ensures-update_drone}
use drone_management_system.Exec.Outcomes.{
  Ensures-assoc, in_tx-Outcome, Ensures-now, Ensures-return, Outcome, Ensures-pure, Ensures,
}
use drone_management_system.Exec.{State, Exec, Env}
use drone_management_system.Service.Changes.{
  change-OrderStep, carried-change, change-IsConsistent, carried-found, carried_after_ne,
  Change-release, carried_after_self, Change,
}
use drone_management_system.Service.Lifecycle.{OrderStep, ◌⟶◌}
use drone_management_system.Tables.Frames.{
  find_drone-put_order, find_order-put_drone, find_order-add_event, find_drone-add_event,
}
use drone_management_system.Service.Consistency.{
  IsConsistent, carried, carried-add_event, holder_by, Shape,
}
use drone_management_system.Service.Broken.{
  Ensures-hand_off, carried_facts, carried_there, waits_for_handoff, waits_again, relieved,
  IsConsistent-put_drone, IsConsistent-add_event, idle, stored_drone, Handed, BrokenDown,
}
use drone_management_system.Events.{event_drone_broken, Event}
use drone_management_system.Service.Obtain.{Ensures-obtain, Change-Obtained, Obtained}
use drone_management_system.Tables.{find_drone, put_order, put_drone, add_event, find_order, Db}
use drone_management_system.Domain.{picked_up, reserved, Order, broken, Drone, Time}
use mathlib.Core.Path.{subst}
use drone_management_system.Exec.{◌>>◌, pure}
use drone_management_system.Base.{arith, Option, sym, ◌∙◌, none, some, String, ◌≡◌, refl}
use drone_management_system.Service.Lifecycle

-- Tables where the drone `x` has been written as broken and empty, and an event is enqueued.
module _ (drone_id : String) {asked : Time} {d d1 : Db} {x : Drone}
    (got : Obtained drone_id asked d d1 x) (time : Time) where
  abbrev down : Drone
  down = record x { status = broken; current_order_id = none; updated_at = time }

  broken_idle :
      x.current_order_id ≡ none
      → (v : Event) → BrokenDown drone_id d down (add_event v (put_drone down d1))
  broken_idle e v =
      let there = got.there in
      record {
        down = refl;
        stored =
            find_drone-add_event drone_id (put_drone down d1) v
            ∙ stored_drone drone_id d1 x down there refl refl;
        emptied =
            carried-add_event (put_drone down d1) v drone_id
            ∙ carried_after_self d1 drone_id there down refl refl drone_id refl;
        others_carry = λ y ne.
            carried-add_event (put_drone down d1) v y
            ∙ carried_after_ne d1 drone_id there down refl refl y ne
            ∙ got.same_carried y;
        orders = idle (sym (got.same_carried drone_id) ∙ carried-found drone_id d1 x there ∙ e) λ j.
            find_order-add_event j (put_drone down d1) v
            ∙ find_order-put_drone j d1 down
            ∙ got.same_order j;
        consistent =
            IsConsistent-add_event v _ (
              IsConsistent-put_drone drone_id d1 x down got.consistent there refl refl (sym e)
                refl);
      }

  -- The drone lets go of the order `old`, which becomes `new`.
  module _ (id : String) (holds : x.current_order_id ≡ some id) (old new : Order)
      (found : find_order id d1 ≡ some old) (kept_id : new.id ≡ old.id)
      (kept_created : new.created_at ≡ old.created_at) (kept_owner : new.user_id ≡ old.user_id)
      (shape : Shape new.status new)
      (held : holder_by old.status old.assigned_drone_id ≡ some drone_id)
      (free : holder_by new.status new.assigned_drone_id ≡ none) (edge : old.status ⟶ new.status)
      (unassigned : new.assigned_drone_id ≡ none) (handed : Handed x.last_location old new) where
    change : Change d (put_drone down d1) id old new
    change = Change-Obtained got (
        Change-release got.consistent id found new kept_id kept_created shape drone_id got.there
          down refl refl refl held free refl)

    relieved_step :
        (v w : Event)
        → OrderStep id d (add_event w (add_event v (put_order new (put_drone down d1)))) old new
    relieved_step v w =
        let step = change-OrderStep change v edge kept_owner in
        let d2 = add_event v (put_order new (put_drone down d1)) in
        record {
          before = step.before;
          after = find_order-add_event id d2 w ∙ step.after;
          edge = edge;
          owner = kept_owner;
          others = λ j ne. find_order-add_event j d2 w ∙ step.others j ne;
        }

    relieved_stored :
        (v w : Event)
        → find_drone drone_id (add_event w (add_event v (put_order new (put_drone down d1))))
          ≡ some down
    relieved_stored v w =
        find_drone-add_event drone_id _ w
        ∙ find_drone-add_event drone_id _ v
        ∙ find_drone-put_order drone_id (put_drone down d1) new
        ∙ stored_drone drone_id d1 x down got.there refl refl

    carried_relieved :
        (v w : Event) (y : String)
        → carried (add_event w (add_event v (put_order new (put_drone down d1)))) y
          ≡ carried (put_drone down d1) y
    carried_relieved v w y = carried-add_event _ w y ∙ carried-change change v y

    broken_relieved :
        (v w : Event)
        → BrokenDown drone_id d down (add_event w (add_event v (put_order new (put_drone down d1))))
    broken_relieved v w =
        let there = got.there in
        record {
          down = refl;
          stored = relieved_stored v w;
          emptied =
              carried_relieved v w drone_id
              ∙ carried_after_self d1 drone_id there down refl refl drone_id refl;
          others_carry = λ y ne.
              carried_relieved v w y
              ∙ carried_after_ne d1 drone_id there down refl refl y ne
              ∙ got.same_carried y;
          orders =
              relieved id old new
                (sym (got.same_carried drone_id) ∙ carried-found drone_id d1 x there ∙ holds)
                (relieved_step v w) unassigned handed;
          consistent = IsConsistent-add_event w _ (change-IsConsistent change v);
        }

-- The writes in the order of the code.
relieved_writes :
    (x : Drone) (o : Order) (v w : Event) (d : Db)
    → add_event w (put_drone x (add_event v (put_order o d)))
      ≡ add_event w (add_event v (put_order o (put_drone x d)))
unfolding add_event put_drone put_order
relieved_writes x o v w d = refl

module _ (env : Env) (drone_id : String) (d : Db) {asked : Time} (d1 : Db) (x : Drone)
    (got : Obtained drone_id asked d d1 x) (time : Time) where
  abbrev k : Exec Drone
  k = do
    update_drone env (down drone_id got time)
    enqueue_drone_event env event_drone_broken (down drone_id got time) time
    pure (down drone_id got time)

  last_writes :
      (d2 : Db)
      → ((w : Event)
          → BrokenDown drone_id d
              (down drone_id got time)
              (add_event w (put_drone (down drone_id got time) d2)))
      → Ensures env k d2 (BrokenDown drone_id d) (λ e. ⊥)
  last_writes d2 h =
      Ensures-update_drone env _ _
        (Ensures-enqueue_drone_event env _ _ _ _ λ n. Ensures-pure env _ (h _))

  -- An order that was reserved waits again; one that was picked up waits for a handoff.
  requeue_facts :
      (id : String) (old : Order)
      → x.current_order_id ≡ some id
      → find_order id d1 ≡ some old
      → holder_by old.status old.assigned_drone_id ≡ some drone_id
      → old.status ≡ reserved
      → (v w : Event)
      → BrokenDown drone_id d (down drone_id got time) (
          add_event w
            (put_drone (down drone_id got time) (add_event v (put_order (requeued old time) d1))))
  requeue_facts id old holds found held e v w =
      subst (BrokenDown drone_id d (down drone_id got time))
        (sym (relieved_writes (down drone_id got time) (requeued old time) v w d1))
        (broken_relieved drone_id got time id holds old (requeued old time) found refl refl refl
          refl held refl (rw e Lifecycle.requeue) refl (waits_again e refl refl) v w)

  handoff_facts :
      (id : String) (old : Order)
      → x.current_order_id ≡ some id
      → find_order id d1 ≡ some old
      → holder_by old.status old.assigned_drone_id ≡ some drone_id
      → old.status ≡ picked_up
      → (v w : Event)
      → BrokenDown drone_id d (down drone_id got time) (
          add_event w (
            put_drone
              (down drone_id got time)
              (add_event v (put_order (handed_over old x.last_location time) d1))))
  handoff_facts id old holds found held e v w =
      subst (BrokenDown drone_id d (down drone_id got time))
        (sym
          (relieved_writes (down drone_id got time) (handed_over old x.last_location time) v w d1))
        (broken_relieved drone_id got time id holds old (handed_over old x.last_location time) found
          refl refl refl (refl, ground (arith, got.consistent.formed.orders_shape id old found))
          held refl (rw e Lifecycle.hand_off) refl (waits_for_handoff e refl refl) v w)

  release :
      (a : Option String)
      → x.current_order_id ≡ a
      → Ensures env
          (release_order env a (record x { status = broken }) time >> k)
          d1
          (BrokenDown drone_id d)
          (λ e. ⊥)
  unfolding release_order
  release none e = Ensures-return env _ _ (last_writes d1 (λ w. broken_idle drone_id got time e w))
  release (some id) e =
      let carries = carried-found drone_id d1 x got.there ∙ e in
      Ensures-assoc env _ _ _ (
        Ensures-get_order env id _
          (λ gone. carried_there drone_id id d1 got.consistent carries gone)
          λ old found.
            let facts = carried_facts drone_id id d1 old got.consistent carries found in
            Ensures-hand_off env old.status old _ time k facts.status
              (λ s n. last_writes _ (λ w. requeue_facts id old e found facts.held s _ w))
              (λ s n. last_writes _ (λ w. handoff_facts id old e found facts.held s _ w)))

drone_mark_broken_tx-Ensures :
    (env : Env) (drone_id : String) (d : Db)
    → IsConsistent d
    → Ensures env (drone_mark_broken_tx env drone_id) d (BrokenDown drone_id d) (λ e. ⊥)
unfolding drone_mark_broken_tx
drone_mark_broken_tx-Ensures env drone_id d consistent = Ensures-now env _ λ asked.
    Ensures-obtain drone_id asked d consistent env _ λ d1 x got.
      Ensures-now env _ λ time. release env drone_id d d1 x got time x.current_order_id refl

pub drone_mark_broken-Outcome :
    (env : Env) (drone_id : String) (s : State)
    → IsConsistent s.db
    → Outcome env s.db (BrokenDown drone_id s.db) (λ e. ⊥) (drone_mark_broken env drone_id s)
unfolding drone_mark_broken
drone_mark_broken-Outcome env drone_id s consistent =
    in_tx-Outcome env _ _ (drone_mark_broken_tx env drone_id) s
      (drone_mark_broken_tx-Ensures env drone_id s.db consistent)
