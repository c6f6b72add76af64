-- ===== src/Service/Withdraw.antt =====
-- `WithdrawOrder` of internal/service/service.go.
use drone_management_system.Service.Rules.{Ensures-enqueue_order_event}
use drone_management_system.Service.Changes.{
  carried_after_ne, carried_after_self, carried-missing, Change-release, Change-idle, holder-found,
  change-IsConsistent, change-Announced, carried-change, change-OrderStep, Change,
}
use mathlib.Core.Path.{subst}
use drone_management_system.Base.{
  eq_iff, arith, ◌∙◌, Option, Option, Option, ◌≡◌, ◌≢◌, refl, Option, none, some, true, String,
  is_some,
}
use drone_management_system.Domain.{
  Time, OrderStatus, created, reserved, withdrawn, Order, Drone, Error, sentinel, not_found,
  forbidden, precondition,
}
use drone_management_system.Events.{new_order_event, event_order_withdrawn}
use drone_management_system.Tables.{put_order, add_event, Db, find_order, find_drone, put_drone}
use drone_management_system.Exec.{◌>>=◌, State, Env, Exec, ◌>>◌, now}
use drone_management_system.Exec.Outcomes.{
  Ensures-pure, Ensures-raise_if, in_tx-Outcome, Outcome, Ensures, Ensures-now, Ensures-assoc,
}
use drone_management_system.Tx.{get_drone_for_update}
use drone_management_system.Tx.Rules.{
  Ensures-update_order, Ensures-get_order, Ensures-get_drone, Ensures-update_drone,
}
use drone_management_system.Service.{withdraw_order_tx, withdraw_order, release_drone}
use drone_management_system.Service.Lifecycle.{
  withdraw_reserved, withdraw, ◌⟶◌, OrderStep, Announced,
}
use drone_management_system.Service.Consistency.{DroneShape-idle, IsConsistent, carried}

-- Why a withdrawal is refused.
pub data WithdrawRefused (d : Db) (user_id id : String) : Error → Type 0 where
  missing : find_order id d ≡ none → WithdrawRefused d user_id id (sentinel not_found)
  foreign :
      (o : Order)
      → find_order id d ≡ some o
      → o.user_id ≢ user_id
      → WithdrawRefused d user_id id (sentinel forbidden)
  late :
      (o : Order)
      → find_order id d ≡ some o
      → o.status ≢ created
      → o.status ≢ reserved
      → WithdrawRefused d user_id id (sentinel precondition)

-- What a withdrawal that succeeds has done: the order went from created or reserved to withdrawn,
-- its drone carries nothing any more, and every other drone carries what it did.
pub record Withdrawn (d : Db) (user_id id : String) (o : Order) (d' : Db) : Type 0 where
  pub old : Order
  pub step : OrderStep id d d' old o
  pub by_owner : old.user_id ≡ user_id
  pub status : o.status ≡ withdrawn
  pub freed : (x : String) → carried d x ≡ some id → carried d' x ≡ none
  pub kept : (x : String) → carried d x ≢ some id → carried d' x ≡ carried d x
  pub announced : Announced event_order_withdrawn id d d'
  pub consistent : IsConsistent d'

module _ (env : Env) {B : Type 0} {d : Db} {Ok : B → Db → Type 0} {Err : Error → Type 0} where
  -- The release, of an order that is created with no drone or reserved with one.
  Ensures-release_drone :
      (status : OrderStatus) (assigned : Option String) (k : Exec B)
      → (status ≡ reserved → is_some assigned ≡ true)
      → ((x : String) → status ≡ reserved → assigned ≡ some x → find_drone x d ≢ none)
      → (status ≢ reserved → Ensures env k d Ok Err)
      → ((x : String) (dr : Drone) (time : Time)
          → status ≡ reserved
          → assigned ≡ some x
          → find_drone x d ≡ some dr
          → Ensures env k
              (put_drone (record dr { current_order_id = none; updated_at = time }) d)
              Ok
              Err)
      → Ensures env (release_drone env status assigned >> k) d Ok Err
  unfolding release_drone ◌>>=◌
  Ensures-release_drone reserved none k has there idle busy = cc (has refl)
  Ensures-release_drone reserved (some x) k has there idle busy =
      Ensures-assoc env (get_drone_for_update env x) _ (λ _. k)
        (Ensures-get_drone env x _ (λ gone. absurd (there x refl refl gone))
          (λ dr found.
            Ensures-assoc env (now env) _ (λ _. k)
              (Ensures-now env _
                (λ time. Ensures-update_drone env _ k (busy x dr time refl refl found)))))
  Ensures-release_drone created a k has there idle busy = record {
    at = λ c t i. (idle (λ e. cc)).at c t i;
  }
  Ensures-release_drone _ a k has there idle busy = record {
    at = λ c t i. (idle (λ e. cc)).at c t i;
  }

-- The order as it is stored.
abbrev withdrawn_order : Order → Time → Order
withdrawn_order old time = record old {
  status = withdrawn;
  assigned_drone_id = none;
  updated_at = time;
}

-- The facts of a withdrawal, from the tables `d1` in which the drone has been released.
withdrawn_facts :
    (d d1 : Db) (user_id id : String) (old : Order) (time : Time) (n : String)
    → Change d d1 id old (withdrawn_order old time)
    → old.user_id ≡ user_id
    → old.status ⟶ withdrawn
    → ((x : String) → carried d x ≡ some id → carried d1 x ≡ none)
    → ((x : String) → carried d x ≢ some id → carried d1 x ≡ carried d x)
    → Withdrawn d user_id id (withdrawn_order old time) (
        add_event
          (new_order_event n event_order_withdrawn (withdrawn_order old time) none time)
          (put_order (withdrawn_order old time) d1))
withdrawn_facts d d1 user_id id old time n change own edge freed kept =
    let v = new_order_event n event_order_withdrawn (withdrawn_order old time) none time in
    record {
      old = old;
      step = change-OrderStep change v edge refl;
      by_owner = own;
      status = refl;
      freed = λ x e. carried-change change v x ∙ freed x e;
      kept = λ x e. carried-change change v x ∙ kept x e;
      announced = change-Announced change n event_order_withdrawn none time;
      consistent = change-IsConsistent change v;
    }

module _ (user_id id : String) (d : Db) (consistent : IsConsistent d) (old : Order) (time : Time)
    (found : find_order id d ≡ some old) where
  idle_withdrawal : old.status ≡ created → Change d d id old (withdrawn_order old time)
  idle_withdrawal e =
      Change-idle consistent id found (withdrawn_order old time) refl refl refl (ground arith)

  busy_withdrawal :
      (x : String) (dr : Drone) (freed_at : Time)
      → old.status ≡ reserved
      → old.assigned_drone_id ≡ some x
      → find_drone x d ≡ some dr
      → Change d
          (put_drone (record dr { current_order_id = none; updated_at = freed_at }) d)
          id
          old
          (withdrawn_order old time)
  busy_withdrawal x dr freed_at e a there =
      Change-release consistent id found (withdrawn_order old time) refl refl refl x there
        (record dr { current_order_id = none; updated_at = freed_at }) refl refl
        (DroneShape-idle dr.status _ refl) (ground arith) refl refl

  -- The drone of a reserved order exists and carries it.
  held :
      (x : String) → old.status ≡ reserved → old.assigned_drone_id ≡ some x → carried d x ≡ some id
  held x e a = (consistent.linked x id).1 (holder-found id d old found ∙ ground arith)

  held_once :
      (x y : String)
      → old.status ≡ reserved
      → old.assigned_drone_id ≡ some x
      → carried d y ≡ some id
      → x ≡ y
  held_once x y e a c = ground (arith, (consistent.linked y id).0 c, holder-found id d old found)

  idle_facts :
      (n : String)
      → old.user_id ≡ user_id
      → old.status ≡ created
      → Withdrawn d user_id id (withdrawn_order old time) (
          add_event
            (new_order_event n event_order_withdrawn (withdrawn_order old time) none time)
            (put_order (withdrawn_order old time) d))
  idle_facts n own e =
      withdrawn_facts d d user_id id old time n (idle_withdrawal e) own (rw e withdraw)
        (λ x c. absurd (ground (arith, (consistent.linked x id).0 c, holder-found id d old found)))
        (λ x c. refl)

  busy_facts :
      (n x : String) (dr : Drone) (freed_at : Time)
      → old.user_id ≡ user_id
      → old.status ≡ reserved
      → old.assigned_drone_id ≡ some x
      → find_drone x d ≡ some dr
      → Withdrawn d user_id id (withdrawn_order old time) (
          add_event (new_order_event n event_order_withdrawn (withdrawn_order old time) none time) (
            put_order
              (withdrawn_order old time)
              (put_drone (record dr { current_order_id = none; updated_at = freed_at }) d)))
  busy_facts n x dr freed_at own e a there =
      withdrawn_facts d _ user_id id old time n (busy_withdrawal x dr freed_at e a there) own
        (rw e withdraw_reserved)
        (λ y c.
          carried_after_self d x there
            (record dr { current_order_id = none; updated_at = freed_at }) refl refl y
            (held_once x y e a c))
        (λ y c.
          carried_after_ne d x there (record dr { current_order_id = none; updated_at = freed_at })
            refl refl y (λ same. c (subst (λ z. carried d z ≡ some id) same (held x e a))))

withdraw_order_tx-Ensures :
    (env : Env) (user_id id : String) (d : Db)
    → IsConsistent d
    → Ensures env
        (withdraw_order_tx env user_id id)
        d
        (Withdrawn d user_id id)
        (WithdrawRefused d user_id id)
unfolding withdraw_order_tx
withdraw_order_tx-Ensures env user_id id d consistent =
    Ensures-get_order env id _ missing λ old found.
      Ensures-raise_if env _ _ _
        (λ e. foreign old found (ground (arith, eq_iff old.user_id user_id)))
        λ own.
          Ensures-raise_if env _ _ _ (λ e. late old found (ground arith) (ground arith))
            λ early.
              Ensures-release_drone env old.status old.assigned_drone_id _
                (λ e. ground (arith, consistent.formed.orders_shape id old found))
                (λ x e a gone. absurd (
                  ground (
                    arith,
                    held user_id id d consistent old 0 found x e a,
                    carried-missing x d gone,
                  )))
                (λ idle. Ensures-now env _ λ time. Ensures-update_order env _ _ (
                  Ensures-enqueue_order_event env _ _ _ _ _ λ n. Ensures-pure env _ (
                    idle_facts user_id id d consistent old time found n
                      (ground (arith, eq_iff old.user_id user_id)) (ground arith))))
                (λ x dr freed_at e a there. Ensures-now env _ λ time. Ensures-update_order env _ _ (
                  Ensures-enqueue_order_event env _ _ _ _ _ λ n. Ensures-pure env _ (
                    busy_facts user_id id d consistent old time found n x dr freed_at
                      (ground (arith, eq_iff old.user_id user_id)) e a there)))

-- Over consistent tables, a withdrawal succeeds as `Withdrawn` says, or it is refused for the
-- reason that `WithdrawRefused` names, or a fault of the database excuses it; in the last two
-- cases nothing is stored.
pub withdraw_order-Outcome :
    (env : Env) (user_id id : String) (s : State)
    → IsConsistent s.db
    → Outcome env s.db
        (Withdrawn s.db user_id id)
        (WithdrawRefused s.db user_id id)
        (withdraw_order env user_id id s)
unfolding withdraw_order
withdraw_order-Outcome env user_id id s consistent =
    in_tx-Outcome env _ _ (withdraw_order_tx env user_id id) s
      (withdraw_order_tx-Ensures env user_id id s.db consistent)
