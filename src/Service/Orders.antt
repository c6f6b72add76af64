-- ===== src/Service/Orders.antt =====
-- `SubmitOrder` and `AdminUpdateOrder` of internal/service/service.go.
use drone_management_system.Tables.OrderLookup.{find_order-new_order}
use drone_management_system.Tables.Frames.{find_order-add_event}
use drone_management_system.Base.{
  ◌≡◌, ◌≢◌, refl, ◌∙◌, Option, none, some, true, String, arith, eq_iff, ◌⊎◌, inl, inr, is_some,
}
use drone_management_system.Domain.{
  Time, created, Location, Order, Error, sentinel, wrapped, not_found, precondition, invalid,
  driver, is_terminal, validate_location,
}
use drone_management_system.Events.{event_order_created, event_order_updated, new_order_event}
use drone_management_system.Tables.{Db, find_order, add_event, new_order}
use drone_management_system.Exec.{Env, State}
use drone_management_system.Exec.Outcomes.{
  Ensures, Ensures-pure, Ensures-raise_if, Ensures-raise_on, Ensures-now, Ensures-uuid, Outcome,
  in_tx-Outcome, Outcome-raise_on,
}
use drone_management_system.Tx.Rules.{Ensures-get_order, Ensures-update_order, Ensures-create_order}
use drone_management_system.Service.{
  submitted, submit_order, submit_order_tx, admin_update_order, admin_update_order_tx,
  invalid_update, or_old,
}
use drone_management_system.Service.Rules.{Ensures-enqueue_order_event}
use drone_management_system.Service.Lifecycle.{
  outbox-new_order, stay, Announced, Announced-add_event,
}
use drone_management_system.Service.Links.{Linked-same}
use drone_management_system.Service.Consistency.{
  holder-new_order, holder-add_event, carried-new_order, carried-add_event, IsConsistent,
  Formed-new_order, Formed-add_event,
}
use drone_management_system.Service.Changes.{
  holder-missing, rerouted-Shape, Change-idle, Progress, Change-Progress,
}

-- Why a submission is refused; the last case is a primary key that is taken.
pub data SubmitRefused (origin dest : Location) (d : Db) : Error → Type 0 where
  bad_origin :
      validate_location origin ≢ none
      → SubmitRefused origin dest d (wrapped "origin" (sentinel invalid))
  bad_destination :
      validate_location origin ≡ none
      → validate_location dest ≢ none
      → SubmitRefused origin dest d (wrapped "destination" (sentinel invalid))
  taken : (id : String) → is_some (find_order id d) ≡ true → SubmitRefused origin dest d driver

-- What a submission has stored: an order of the user that was not there before, waiting between the
-- two places, and nothing else among the orders.
pub record Submitted (user_id : String) (origin dest : Location) (d : Db) (o : Order) (d' : Db)
    : Type 0 where
  pub fresh : find_order o.id d ≡ none
  pub stored : find_order o.id d' ≡ some o
  pub others : (j : String) → j ≢ o.id → find_order j d' ≡ find_order j d
  pub user : o.user_id ≡ user_id
  pub route : (o.origin ≡ origin) × (o.destination ≡ dest)
  pub waiting : o.status ≡ created
  pub announced : Announced event_order_created o.id d d'
  pub consistent : IsConsistent d'

module _ (user_id : String) (origin dest : Location) (d : Db) (consistent : IsConsistent d)
    (id : String) (time : Time) (free : find_order id d ≡ none) where
  submit_facts :
      (n : String)
      → let o = submitted id user_id origin dest time in
        Submitted user_id origin dest d o
          (add_event (new_order_event n event_order_created o none time) (new_order o d))
  submit_facts n =
      let o = submitted id user_id origin dest time in
      let v = new_order_event n event_order_created o none time in
      let find = λ (j : String).
        find_order-add_event j (new_order o d) v ∙ find_order-new_order o d free j in
      record {
        fresh = free;
        stored = ground (arith, find id, eq_iff id id);
        others = λ j ne. ground (arith, find j, eq_iff id j);
        user = refl;
        route = (refl, refl);
        waiting = refl;
        announced =
            Announced-add_event n event_order_created id o none time d (new_order o d) refl
              (outbox-new_order d o);
        consistent = record {
          formed = Formed-add_event (Formed-new_order consistent.formed o free refl) v;
          linked =
              Linked-same consistent.linked
                (λ y. carried-add_event (new_order o d) v y ∙ carried-new_order d o y)
                (λ j. ground (
                  arith,
                  holder-add_event (new_order o d) v j,
                  holder-new_order d o free j,
                  eq_iff id j,
                  holder-missing id d free,
                ));
        };
      }

submit_order_tx-Ensures :
    (env : Env) (user_id : String) (origin dest : Location) (d : Db)
    → IsConsistent d
    → Ensures env
        (submit_order_tx env user_id origin dest)
        d
        (Submitted user_id origin dest d)
        (SubmitRefused origin dest d)
unfolding submit_order_tx
submit_order_tx-Ensures env user_id origin dest d consistent = Ensures-now env _ λ time.
    Ensures-uuid env _ λ id.
      Ensures-create_order env (submitted id user_id origin dest time) _ (λ e. taken id e)
        λ free.
          Ensures-enqueue_order_event env _ _ _ _ _
            λ n. Ensures-pure env _ (submit_facts user_id origin dest d consistent id time free n)

pub submit_order-Outcome :
    (env : Env) (user_id : String) (origin dest : Location) (s : State)
    → IsConsistent s.db
    → Outcome env s.db
        (Submitted user_id origin dest s.db)
        (SubmitRefused origin dest s.db)
        (submit_order env user_id origin dest s)
unfolding submit_order
submit_order-Outcome env user_id origin dest s consistent =
    Outcome-raise_on env _ _ (validate_location origin) _ _ s bad_origin λ good.
      Outcome-raise_on env _ _ (validate_location dest) _ _ s (bad_destination good) λ _.
        in_tx-Outcome env _ _ (submit_order_tx env user_id origin dest) s
          (submit_order_tx-Ensures env user_id origin dest s.db consistent)

-- Why an update by an administrator is refused.
pub data UpdateRefused (id : String) (origin dest : Option Location) (d : Db) : Error → Type 0 where
  missing : find_order id d ≡ none → UpdateRefused id origin dest d (sentinel not_found)
  ended :
      (o : Order)
      → find_order id d ≡ some o
      → is_terminal o.status ≡ true
      → UpdateRefused id origin dest d (sentinel precondition)
  bad_place :
      (invalid_update origin ≢ none) ⊎ (invalid_update dest ≢ none)
      → UpdateRefused id origin dest d (sentinel invalid)

-- An update of the route keeps the status of a live order, and sets each place that is given.
pub record Rerouted (id : String) (origin dest : Option Location) (d : Db) (o : Order) (d' : Db)
    : Type 0 where
  pub old : Order
  pub progress : Progress event_order_updated id d d' old o
  pub same_status : o.status ≡ old.status
  pub new_origin : o.origin ≡ or_old origin old.origin
  pub new_destination : o.destination ≡ or_old dest old.destination
  pub valid : (invalid_update origin ≡ none) × (invalid_update dest ≡ none)

admin_update_order_tx-Ensures :
    (env : Env) (id : String) (origin dest : Option Location) (d : Db)
    → IsConsistent d
    → Ensures env
        (admin_update_order_tx env id origin dest)
        d
        (Rerouted id origin dest d)
        (UpdateRefused id origin dest d)
unfolding admin_update_order_tx
admin_update_order_tx-Ensures env id origin dest d consistent =
    Ensures-get_order env id _ missing λ old found.
      Ensures-raise_if env _ _ _ (ended old found) λ live.
        Ensures-raise_on env _ _ _ (λ x e. bad_place (inl (λ n. cc)))
          λ good.
            Ensures-raise_on env _ _ _ (λ x e. bad_place (inr (λ n. cc)))
              λ fine. Ensures-now env _ λ time. Ensures-update_order env _ _ (
                Ensures-now env _ λ at. Ensures-enqueue_order_event env _ _ _ _ _ λ n.
                  Ensures-pure env _ (record {
                    old = old;
                    progress =
                        Change-Progress
                          (Change-idle consistent id found
                            (record old {
                              origin = or_old origin old.origin;
                              destination = or_old dest old.destination;
                              updated_at = time;
                            })
                            refl refl
                            (rerouted-Shape old.status old _ _ time
                              (consistent.formed.orders_shape id old found))
                            refl)
                          n event_order_updated none at (stay live) refl;
                    same_status = refl;
                    new_origin = refl;
                    new_destination = refl;
                    valid = (good, fine);
                  }))

pub admin_update_order-Outcome :
    (env : Env) (id : String) (origin dest : Option Location) (s : State)
    → IsConsistent s.db
    → Outcome env s.db
        (Rerouted id origin dest s.db)
        (UpdateRefused id origin dest s.db)
        (admin_update_order env id origin dest s)
unfolding admin_update_order
admin_update_order-Outcome env id origin dest s consistent =
    in_tx-Outcome env _ _ (admin_update_order_tx env id origin dest) s
      (admin_update_order_tx-Ensures env id origin dest s.db consistent)
