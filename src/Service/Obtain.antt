-- ===== src/Service/Obtain.antt =====
-- `getOrCreateDrone` of internal/service/service.go: the drone that it returns and the tables that it
-- leaves.
use drone_management_system.Tables.Frames.{find_order-new_drone}
use drone_management_system.Service.Rules.{Ensures-get_or_create_drone}
use drone_management_system.Tables.DroneLookup.{find_drone-new_drone}
use drone_management_system.Service.Links.{Linked-same}
use drone_management_system.Exec.Outcomes.{Ensures}
use drone_management_system.Service.{get_or_create_drone, new_active_drone}
use drone_management_system.Service.Changes.{carried-missing, Change}
use drone_management_system.Exec.{◌>>=◌, Exec, Env}
use drone_management_system.Tables.{find_order, new_drone, find_drone, Db}
use drone_management_system.Domain.{Error, Order, Drone, Time}
use drone_management_system.Service.Consistency.{
  holder-new_drone, Formed-new_drone, carried-new_drone, carried, IsConsistent, holder,
}
use drone_management_system.Base.{
  inr, eq_iff, ◌∙◌, arith, inl, sym, ◌⊎◌, some, none, String, ◌≡◌, refl,
}

-- The drone was there, or it is new, active and empty; the tables `d1` differ from `d` at most by it.
pub record Obtained (id : String) (time : Time) (d d1 : Db) (x : Drone) : Type 0 where
  pub there : find_drone id d1 ≡ some x
  pub source :
      (find_drone id d ≡ some x) ⊎ ((find_drone id d ≡ none) × (x ≡ new_active_drone id time))
  pub orders : d1.orders ≡ d.orders
  pub outbox : d1.outbox ≡ d.outbox
  pub same_order : (j : String) → find_order j d1 ≡ find_order j d
  pub same_carried : (y : String) → carried d1 y ≡ carried d y
  pub consistent : IsConsistent d1

module _ (id : String) (time : Time) (d : Db) (consistent : IsConsistent d) where
  Obtained-found : (x : Drone) → find_drone id d ≡ some x → Obtained id time d d x
  Obtained-found x h = record {
    there = h;
    source = inl h;
    orders = refl;
    outbox = refl;
    same_order = λ j. refl;
    same_carried = λ y. refl;
    consistent = consistent;
  }

  same_carried-new :
      find_drone id d ≡ none
      → (y : String) → carried (new_drone (new_active_drone id time) d) y ≡ carried d y
  same_carried-new free y = ground (
    arith,
    carried-new_drone d (new_active_drone id time) free y,
    eq_iff id y,
    carried-missing id d free,
  )

  Obtained-new :
      find_drone id d ≡ none
      → Obtained id time d (new_drone (new_active_drone id time) d) (new_active_drone id time)
  unfolding new_drone
  Obtained-new free =
      let x = new_active_drone id time in
      record {
        there = ground (arith, find_drone-new_drone x d free id, eq_iff id id);
        source = inr (free, refl);
        orders = refl;
        outbox = refl;
        same_order = λ j. find_order-new_drone j d x;
        same_carried = same_carried-new free;
        consistent = record {
          formed = Formed-new_drone consistent.formed x free tt;
          linked =
              Linked-same consistent.linked (same_carried-new free) (λ j. holder-new_drone d x j);
        };
      }

  -- What follows is shown for the drone that is obtained.
  pub Ensures-obtain :
      (env : Env) {B : Type 0} {Ok : B → Db → Type 0} {Err : Error → Type 0} (f : Drone → Exec B)
      → ((d1 : Db) (x : Drone) → Obtained id time d d1 x → Ensures env (f x) d1 Ok Err)
      → Ensures env (get_or_create_drone env id time >>= f) d Ok Err
  Ensures-obtain env f h =
      Ensures-get_or_create_drone env id time f (λ x e. h d x (Obtained-found x e))
        (λ e. h _ _ (Obtained-new e))

-- A change that starts where the drone has been obtained is one that starts before.
pub Change-Obtained :
    {id : String} {time : Time} {d d1 d2 : Db} {x : Drone} {i : String} {old new : Order}
    → Obtained id time d d1 x
    → Change d1 d2 i old new
    → Change d d2 i old new
unfolding holder
Change-Obtained {d} {d1} got c = record {
  found = sym (got.same_order _) ∙ c.found;
  same = λ j. c.same j ∙ got.same_order j;
  formed = c.formed;
  outbox = c.outbox ∙ got.outbox;
  kept_id = c.kept_id;
  kept_created = c.kept_created;
  shape = c.shape;
  linked = Linked-same c.linked (λ y. refl) (λ j. ground (arith, got.same_order j));
}
