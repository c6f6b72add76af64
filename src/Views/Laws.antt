-- ===== src/Views/Laws.antt =====
-- What the reading operations of internal/service/service.go answer.
use mathlib.Core.Path.{subst}
use drone_management_system.Service.Changes.{holder-missing, carried-found}
use drone_management_system.Tx.Rules.{Ensures-read_drone, Ensures-read_order}
use drone_management_system.Service.Consistency.{IsConsistent, holder, carried}
use drone_management_system.Tx.{get_drone}
use drone_management_system.Exec.Outcomes.{
  Settles, Ensures-lift_some, Ensures-raise_if, Ensures-lift_none, Ensures-pure, Ensures,
}
use drone_management_system.Float64.{Float64}
use drone_management_system.Domain.{forbidden, not_found, sentinel, role_admin, Drone, Order, Error}
use drone_management_system.Exec.{or_error, lift, Exec, ◌>>=◌, statement, Env}
use drone_management_system.Eta.{compute_eta, current_location, OrderView, FloatOps}
use drone_management_system.Views.{
  may_not_view, get_order_view, drone_current_order, or_nil, assigned_drone, build_order_view,
}
use drone_management_system.Tables.{find_drone, find_order, Db}
use drone_management_system.Base.{
  ◌+◌, sym, ap, arith, ◌∙◌, eq_of_true, ne_of_false, ◌==◌, false, Option-cases, inl, inr, some,
  none, Bool-cases, ◌≢◌, ◌⊎◌, none, some, Option, String, ◌≡◌, refl,
}

-- The drone that an order names, where it is stored.
abbrev pub drone_of : Db → Option String → Option Drone
drone_of d none = none
drone_of d (some id) = find_drone id d

-- A view shows the order with its place and its estimate, and leaves the tables as they are.
pub record Viewed (ops : FloatOps) (speed : Float64) (o : Order) (d : Db) (v : OrderView) (d' : Db)
    : Type 0 where
  pub unchanged : d' ≡ d
  pub order : v.order ≡ o
  pub place : v.current_location ≡ current_location o (drone_of d o.assigned_drone_id)
  pub eta : v.eta_seconds ≡ compute_eta ops o (drone_of d o.assigned_drone_id) speed

-- Why a view of an order is refused.
pub data ViewRefused (requester_id role order_id : String) (d : Db) : Error → Type 0 where
  missing :
      find_order order_id d ≡ none → ViewRefused requester_id role order_id d (sentinel not_found)
  foreign :
      (o : Order)
      → find_order order_id d ≡ some o
      → role ≢ role_admin
      → o.user_id ≢ requester_id
      → ViewRefused requester_id role order_id d (sentinel forbidden)

-- A user sees the orders that are theirs, an administrator sees all.
pub record Shown (ops : FloatOps) (speed : Float64) (requester_id role order_id : String) (d : Db)
    (v : OrderView) (d' : Db) : Type 0 where
  pub found : find_order order_id d ≡ some v.order
  pub allowed : (role ≡ role_admin) ⊎ (v.order.user_id ≡ requester_id)
  pub viewed : Viewed ops speed v.order d v d'

module _ (env : Env) (ops : FloatOps) (speed : Float64) {B : Type 0} {d : Db} {Ok : B → Db → Type 0}
    {Err : Error → Type 0} where
  Ensures-assigned_drone :
      (a : Option String) (f : Option Drone → Exec B)
      → Ensures env (f (drone_of d a)) d Ok Err
      → Ensures env (assigned_drone env ops speed a >>= f) d Ok Err
  unfolding assigned_drone or_nil get_drone statement ◌>>=◌
  Ensures-assigned_drone none f h = record { at = λ c t i. h.at c t i }
  Ensures-assigned_drone (some id) f h = record {
    at = λ c t i. elim (Bool-cases (env.fault c)) [
      | inl e ↦ rw e (inr (refl, (c, e)))
      | inr e ↦ rw e (elim (Option-cases (find_drone id d)) [
        | inl n ↦ rw n (
            subst
              (λ x. Settles env Ok Err (f x (record { db = d; calls = c + 1; ticks = t; ids = i })))
              n (h.at (c + 1) t i))
        | inr (x, s) ↦ rw s (
            subst
              (λ x. Settles env Ok Err (f x (record { db = d; calls = c + 1; ticks = t; ids = i })))
              s (h.at (c + 1) t i))
      ])
    ];
  }

build_order_view-Ensures :
    (env : Env) (ops : FloatOps) (speed : Float64) (o : Order) (d : Db)
    (Ok : OrderView → Db → Type 0) (Err : Error → Type 0)
    → ((v : OrderView) → v.order ≡ o → Viewed ops speed o d v d → Ok v d)
    → Ensures env (build_order_view env ops speed o) d Ok Err
unfolding build_order_view
build_order_view-Ensures env ops speed o d Ok Err h =
    Ensures-assigned_drone env ops speed o.assigned_drone_id _ (
      Ensures-pure env _
        (h _ refl (record { unchanged = refl; order = refl; place = refl; eta = refl })))

allowed_cases :
    (requester_id role : String) (o : Order)
    → may_not_view requester_id role o ≡ false
    → (role ≡ role_admin) ⊎ (o.user_id ≡ requester_id)
allowed_cases requester_id role o h = elim (Bool-cases (role == role_admin)) [
  | inl e ↦ inl (eq_of_true role role_admin e)
  | inr n ↦ inr (eq_of_true o.user_id requester_id (ground arith))
]

-- Whoever asks gets the view of an order that is theirs, and an administrator of any order, with
-- its current location and its estimate, over tables left as they were; the refusal is that there
-- is no such order, or that it is of another user and not asked for by an administrator; else a
-- fault excuses the failure.
pub get_order_view-Ensures :
    (env : Env) (ops : FloatOps) (speed : Float64) (requester_id role order_id : String) (d : Db)
    → Ensures env
        (get_order_view env ops speed requester_id role order_id)
        d
        (Shown ops speed requester_id role order_id d)
        (ViewRefused requester_id role order_id d)
unfolding get_order_view
get_order_view-Ensures env ops speed requester_id role order_id d =
    Ensures-read_order env order_id _ missing λ o found.
      Ensures-raise_if env _ _ _
        (λ e.
          foreign o found (ne_of_false role role_admin (ground arith))
            (ne_of_false o.user_id requester_id (ground arith)))
        λ e. build_order_view-Ensures env ops speed o d _ _ λ v same viewed. record {
          found = found ∙ ap some (sym same);
          allowed =
              subst (λ p. (role ≡ role_admin) ⊎ (p.user_id ≡ requester_id)) (sym same)
                (allowed_cases requester_id role o e);
          viewed = subst (λ p. Viewed ops speed p d v d) (sym same) viewed;
        }

-- Why a drone has no order to be shown.
pub data CurrentRefused (drone_id : String) (d : Db) : Error → Type 0 where
  no_drone : find_drone drone_id d ≡ none → CurrentRefused drone_id d (sentinel not_found)
  no_order : carried d drone_id ≡ none → CurrentRefused drone_id d (sentinel not_found)

-- The view of the order that the drone carries, which rests on it.
pub record Carrying (ops : FloatOps) (speed : Float64) (drone_id : String) (d : Db) (v : OrderView)
    (d' : Db) : Type 0 where
  pub id : String
  pub carries : carried d drone_id ≡ some id
  pub found : find_order id d ≡ some v.order
  pub held : holder d id ≡ some drone_id
  pub viewed : Viewed ops speed v.order d v d'

current_id :
    (env : Env) (drone_id : String) (d : Db) (x : Drone) {B : Type 0} {Ok : B → Db → Type 0}
    (a : Option String) (f : String → Exec B)
    → find_drone drone_id d ≡ some x
    → x.current_order_id ≡ a
    → ((id : String) → a ≡ some id → Ensures env (f id) d Ok (CurrentRefused drone_id d))
    → Ensures env (lift (or_error a (sentinel not_found)) >>= f) d Ok (CurrentRefused drone_id d)
current_id env drone_id d x none f found e h =
    Ensures-lift_none env _ _ (no_order (carried-found drone_id d x found ∙ e))
current_id env drone_id d x (some id) f found e h =
    Ensures-lift_some env (sentinel not_found) _ id (h id refl)

-- Over consistent tables a drone is shown the order that it carries and that rests on it, over
-- tables left as they were, and is refused only if it is not known or carries none; else a fault
-- excuses the failure.
pub drone_current_order-Ensures :
    (env : Env) (ops : FloatOps) (speed : Float64) (drone_id : String) (d : Db)
    → IsConsistent d
    → Ensures env
        (drone_current_order env ops speed drone_id)
        d
        (Carrying ops speed drone_id d)
        (CurrentRefused drone_id d)
unfolding drone_current_order
drone_current_order-Ensures env ops speed drone_id d consistent =
    Ensures-read_drone env drone_id _ no_drone λ x there.
      current_id env drone_id d x x.current_order_id _ there refl λ id e.
        let carries = carried-found drone_id d x there ∙ e in
        let held = (consistent.linked drone_id id).0 carries in
        Ensures-read_order env id _
          (λ gone. absurd (ground (arith, held, holder-missing id d gone)))
          λ o found. build_order_view-Ensures env ops speed o d _ _ λ v same viewed. record {
            id = id;
            carries = carries;
            found = found ∙ ap some (sym same);
            held = held;
            viewed = subst (λ p. Viewed ops speed p d v d) (sym same) viewed;
          }
