-- ===== src/Service/Drones.antt =====
-- `DroneMarkFixed` and the recording of a heartbeat in internal/service/service.go.
use drone_management_system.Service.Changes.{carried-found, carried_after}
use drone_management_system.Service.Lifecycle.{outbox-put_drone}
use drone_management_system.Tables.Frames.{
  find_order-add_event, find_order-put_drone, find_drone-add_event,
}
use drone_management_system.Service.Rules.{Ensures-enqueue_drone_event}
use drone_management_system.Tx.Rules.{Ensures-update_drone}
use drone_management_system.Service.Broken.{
  IsConsistent-put_drone, IsConsistent-add_event, DroneShape-same, stored_drone,
}
use drone_management_system.Events.{Event}
use drone_management_system.Service.Obtain.{Ensures-obtain, Obtained}
use drone_management_system.Exec.Outcomes.{
  Ensures-clock, Ensures-pure, in_tx-Outcome, Ensures-now, Ensures, Outcome,
}
use drone_management_system.Service.Consistency.{
  carried-add_event, carried, DroneShape, IsConsistent,
}
use drone_management_system.Domain.{active, Drone, Location, Time}
use drone_management_system.Tables.{add_event, put_drone, find_order, find_drone, Db}
use drone_management_system.Exec.{clock_micros, State, Env}
use drone_management_system.Service.{
  new_active_drone, record_heartbeat_tx, record_heartbeat, drone_mark_fixed, drone_mark_fixed_tx,
}
use drone_management_system.Base.{
  sym, some_eq, ap, inl, inr, none, none, ℕ, eq_iff, arith, ◌∙◌, some, String, ◌≡◌, refl,
}

-- A drone was written, with what it carries kept, and no order.
pub record DroneStored (drone_id : String) (d : Db) (x : Drone) (d' : Db) : Type 0 where
  pub stored : find_drone drone_id d' ≡ some x
  pub orders : (j : String) → find_order j d' ≡ find_order j d
  pub carries : (y : String) → carried d' y ≡ carried d y
  pub consistent : IsConsistent d'

-- A drone that was there is `x` after `change`, and one that was not is new and then changed.
pub record Changed (drone_id : String) (change : Drone → Drone) (d : Db) (x : Drone) : Type 0 where
  pub old : (o : Drone) → find_drone drone_id d ≡ some o → x ≡ change o
  pub new :
      find_drone drone_id d ≡ none → (asked : Time) × (x ≡ change (new_active_drone drone_id asked))

-- A fixed drone is active and has a new time of its update; all else is kept.
pub record Fixed (env : Env) (drone_id : String) (d : Db) (x : Drone) (d' : Db) : Type 0 where
  pub up : x.status ≡ active
  pub reading : ℕ
  pub dated : x.updated_at ≡ clock_micros env reading
  pub kept : Changed drone_id (λ o. record o { status = active; updated_at = x.updated_at }) d x
  pub write : DroneStored drone_id d x d'

-- A located drone has the place, and the time that the clock shows; all else is kept.
pub record Located (env : Env) (drone_id : String) (loc : Location) (d : Db) (x : Drone) (d' : Db)
    : Type 0 where
  pub place : x.last_location ≡ some loc
  pub reading : ℕ
  pub seen : x.last_heartbeat_at ≡ some (clock_micros env reading)
  pub kept :
      Changed drone_id
        (λ o. record o {
          last_location = some loc;
          last_heartbeat_at = x.last_heartbeat_at;
          updated_at = x.updated_at;
        })
        d
        x
  pub silent : d'.outbox ≡ d.outbox
  pub write : DroneStored drone_id d x d'

module _ (drone_id : String) {asked : Time} {d d1 : Db} {x : Drone}
    (got : Obtained drone_id asked d d1 x) (after : Drone) (same_id : after.id ≡ x.id)
    (same_created : after.created_at ≡ x.created_at)
    (same_current : after.current_order_id ≡ x.current_order_id)
    (shape : DroneShape after.status after) where
  obtained_facts : (change : Drone → Drone) → after ≡ change x → Changed drone_id change d after
  obtained_facts change e = record {
    old = λ o found. elim got.source [
      | inl there ↦ e ∙ ap change (some_eq (sym there ∙ found))
      | inr (free, fresh) ↦ absurd (none_some (sym free ∙ found))
    ];
    new = λ free. elim got.source [
      | inl there ↦ absurd (none_some (sym free ∙ there))
      | inr (gone, fresh) ↦ (asked, e ∙ ap change fresh)
    ];
  }
    where
      none_some : {o : Drone} → none ≡ some o → ⊥
      none_some e = cc

  stored_facts : DroneStored drone_id d after (put_drone after d1)
  stored_facts = record {
    stored = stored_drone drone_id d1 x after got.there same_id same_created;
    orders = λ j. find_order-put_drone j d1 after ∙ got.same_order j;
    carries = λ y. ground (
      arith,
      carried_after d1 drone_id got.there after same_id same_created y,
      carried-found drone_id d1 x got.there,
      got.same_carried y,
      eq_iff drone_id y,
    );
    consistent =
        IsConsistent-put_drone drone_id d1 x after got.consistent got.there same_id same_created
          same_current shape;
  }

  announced_facts : (v : Event) → DroneStored drone_id d after (add_event v (put_drone after d1))
  announced_facts v = record {
    stored = find_drone-add_event drone_id (put_drone after d1) v ∙ stored_facts.stored;
    orders = λ j. find_order-add_event j (put_drone after d1) v ∙ stored_facts.orders j;
    carries = λ y. carried-add_event (put_drone after d1) v y ∙ stored_facts.carries y;
    consistent = IsConsistent-add_event v _ stored_facts.consistent;
  }

drone_mark_fixed_tx-Ensures :
    (env : Env) (drone_id : String) (d : Db)
    → IsConsistent d
    → Ensures env (drone_mark_fixed_tx env drone_id) d (Fixed env drone_id d) (λ e. ⊥)
unfolding drone_mark_fixed_tx
drone_mark_fixed_tx-Ensures env drone_id d consistent = Ensures-now env _ λ asked.
    Ensures-obtain drone_id asked d consistent env _ λ d1 x got. Ensures-clock env _ λ n.
      Ensures-update_drone env _ _ (
        Ensures-enqueue_drone_event env _ _ _ _ λ m. Ensures-pure env _ (record {
          up = refl;
          reading = n;
          dated = refl;
          kept = obtained_facts drone_id got _ refl refl refl tt _ refl;
          write = announced_facts drone_id got _ refl refl refl tt _;
        }))

-- Over consistent tables, a drone is marked fixed as `Fixed` says, with its place, its heartbeat
-- and what it carries kept, or a fault excuses the failure and nothing is stored.
pub drone_mark_fixed-Outcome :
    (env : Env) (drone_id : String) (s : State)
    → IsConsistent s.db
    → Outcome env s.db (Fixed env drone_id s.db) (λ e. ⊥) (drone_mark_fixed env drone_id s)
unfolding drone_mark_fixed
drone_mark_fixed-Outcome env drone_id s consistent =
    in_tx-Outcome env _ _ (drone_mark_fixed_tx env drone_id) s
      (drone_mark_fixed_tx-Ensures env drone_id s.db consistent)

record_heartbeat_tx-Ensures :
    (env : Env) (drone_id : String) (loc : Location) (d : Db)
    → IsConsistent d
    → Ensures env (record_heartbeat_tx env drone_id loc) d (Located env drone_id loc d) (λ e. ⊥)
unfolding record_heartbeat_tx
record_heartbeat_tx-Ensures env drone_id loc d consistent = Ensures-now env _ λ asked.
    Ensures-obtain drone_id asked d consistent env _ λ d1 x got. Ensures-clock env _ λ n.
      Ensures-update_drone env _ _ (
        Ensures-pure env _ (record {
          place = refl;
          reading = n;
          seen = refl;
          kept =
              obtained_facts drone_id got _ refl refl refl
                (DroneShape-same x.status x _ refl
                  (got.consistent.formed.drones_shape drone_id x got.there))
                _ refl;
          silent = outbox-put_drone d1 _ ∙ got.outbox;
          write = stored_facts drone_id got _ refl refl refl (
              DroneShape-same x.status x _ refl
                (got.consistent.formed.drones_shape drone_id x got.there));
        }))

pub record_heartbeat-Outcome :
    (env : Env) (drone_id : String) (loc : Location) (s : State)
    → IsConsistent s.db
    → Outcome env s.db
        (Located env drone_id loc s.db)
        (λ e. ⊥)
        (record_heartbeat env drone_id loc s)
unfolding record_heartbeat
record_heartbeat-Outcome env drone_id loc s consistent =
    in_tx-Outcome env _ _ (record_heartbeat_tx env drone_id loc) s
      (record_heartbeat_tx-Ensures env drone_id loc s.db consistent)
