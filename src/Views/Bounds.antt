-- ===== src/Views/Bounds.antt =====
-- How much `AdminListOrders` of internal/service/service.go answers with.
use mathlib.Core.Path.{subst}
use drone_management_system.Domain.{Order}
use drone_management_system.Sorting.{where_, sort_by}
use drone_management_system.Rows.{scan_order}
use drone_management_system.Views.{created_before, build_order_view, admin_list_orders, build_views}
use drone_management_system.Float64.{Float64}
use drone_management_system.Eta.{OrderView, FloatOps}
use drone_management_system.Tables.{has_status, created_no_later, drop, take, Db, order_list}
use drone_management_system.Tx.{list_page, OrderFilter, list_orders, list_limit}
use drone_management_system.Exec.{
  ◌>>=◌, pure, continue, State, ⊤, Exec, statement, Result, Env, ok, err,
}
use drone_management_system.Integer.{ℤ, pos, negsuc}
use drone_management_system.Base.{
  String, Option, map, length, ℕ, zero, suc, ◌≤◌, ◌<◌, Bool, Bool-cases, inl, inr, List, [], ◌∷◌,
  arith, ◌≡◌, refl,
}

-- How many orders a filter's limit asks for: as many as it says from 1 to 500, and otherwise 100.
pub data PageBound : ℤ → ℕ → Type 0 where
  as_asked : {n : ℕ} → 1 ≤ n → n ≤ 500 → PageBound (pos n) n
  not_asked : PageBound (pos 0) 100
  below_zero : {n : ℕ} → PageBound (negsuc n) 100
  too_many : {n : ℕ} → 500 < n → PageBound (pos n) 100

-- A result that is an error or a list of at most `n`.
abbrev pub AtMost : {A : Type 0} → ℕ → Result (List A) → Type 0
AtMost n (ok xs) = length xs ≤ n
AtMost n (err e) = ⊤

continue-AtMost :
    {A B : Type 0} (n m : ℕ) (r : Result (List A)) (f : List A → Exec (List B)) (s : State)
    → AtMost n r
    → ((xs : List A) → length xs ≤ n → AtMost m (f xs s).0)
    → AtMost m (continue r f s).0
continue-AtMost n m (ok xs) f s h k = k xs h
continue-AtMost n m (err e) f s h k = tt

length-take : {A : Type 0} (n : ℕ) (xs : List A) → length (take n xs) ≤ n
length-take zero xs = omega arith
length-take (suc n) [] = omega arith
length-take (suc n) (x ∷ xs) = let rest = length-take n xs in omega arith

length-map : {A B : Type 0} (f : A → B) (xs : List A) → length (map f xs) ≡ length xs
length-map f [] = refl
length-map f (x ∷ xs) = let rest = length-map f xs in omega arith

list_limit-PageBound : {limit : ℤ} {n : ℕ} → PageBound limit n → list_limit limit ≡ n
unfolding list_limit
list_limit-PageBound (as_asked lo hi) = ground arith
list_limit-PageBound not_asked = refl
list_limit-PageBound below_zero = refl
list_limit-PageBound (too_many many) = ground arith

list_page-AtMost :
    (status : Option String) (limit : ℕ) (offset : ℤ) (d : Db)
    → AtMost limit (list_page status limit offset d).0
unfolding order_list
list_page-AtMost status limit (pos offset) d =
    let page = order_list status limit offset d.orders in
    let n = length-map scan_order page in
    let taken =
      length-take limit
        (drop offset (sort_by created_no_later (where_ (has_status status) d.orders))) in
    omega (arith, n, taken)
list_page-AtMost status limit (negsuc offset) d = tt

statement-AtMost :
    {A : Type 0} (env : Env) (n : ℕ) (g : Db → Result (List A) × Db) (s : State)
    → AtMost n (g s.db).0
    → AtMost n (statement env g s).0
unfolding statement
statement-AtMost env n g s h = elim (Bool-cases (env.fault s.calls)) [
  | inl e ↦ rw e tt
  | inr e ↦ rw e h
]

list_orders-AtMost :
    (env : Env) (filter : OrderFilter) (s : State)
    → AtMost (list_limit filter.limit) (list_orders env filter s).0
unfolding list_orders
list_orders-AtMost env filter s =
    statement-AtMost env (list_limit filter.limit)
      (list_page filter.status (list_limit filter.limit) filter.offset) s
      (list_page-AtMost filter.status (list_limit filter.limit) filter.offset s.db)

module _ (env : Env) (ops : FloatOps) (speed : Float64) where
  build_views-AtMost :
      (orders : List Order) (s : State)
      → AtMost (length orders) (build_views env ops speed orders s).0
  unfolding build_views ◌>>=◌ pure
  build_views-AtMost [] s = omega arith
  build_views-AtMost (order ∷ orders) s =
      first (build_order_view env ops speed order s) λ view t. build_views-AtMost orders t
    where
      first :
          (r : Result OrderView × State)
          → ((view : OrderView) (t : State)
              → AtMost (length orders) (build_views env ops speed orders t).0)
          → AtMost
              (suc (length orders))
              (continue r.0
                (λ view. build_views env ops speed orders >>= λ views. pure (view ∷ views))
                r.1).0
      first (ok view, t) rest =
          continue-AtMost (length orders) (suc (length orders))
            (build_views env ops speed orders t).0 (λ views. pure (view ∷ views))
            (build_views env ops speed orders t).1 (rest view t) λ views h. omega arith
      first (err e, t) rest = tt

  -- With a sort that keeps the number of what it sorts, `AdminListOrders` fails or answers with no
  -- more orders than the filter's limit where that is from 1 to 500, and with no more than 100
  -- where it is 0, negative or more than 500.
  pub admin_list_orders-AtMost :
      (sort_slice : (OrderView → OrderView → Bool) → List OrderView → List OrderView)
      (filter : OrderFilter) (s : State) (n : ℕ)
      → ((less : OrderView → OrderView → Bool) (views : List OrderView)
          → length (sort_slice less views) ≡ length views)
      → PageBound filter.limit n
      → AtMost n (admin_list_orders env ops speed sort_slice filter s).0
  unfolding admin_list_orders ◌>>=◌ pure
  admin_list_orders-AtMost sort_slice filter s n keeps bound =
      subst (λ m. AtMost m (admin_list_orders env ops speed sort_slice filter s).0)
        (list_limit-PageBound bound)
        (continue-AtMost (list_limit filter.limit) (list_limit filter.limit)
          (list_orders env filter s).0
          (λ orders.
            build_views env ops speed orders >>= λ views. pure (sort_slice created_before views))
          (list_orders env filter s).1 (list_orders-AtMost env filter s)
          λ orders h.
            continue-AtMost (length orders) (list_limit filter.limit)
              (build_views env ops speed orders (list_orders env filter s).1).0
              (λ views. pure (sort_slice created_before views))
              (build_views env ops speed orders (list_orders env filter s).1).1
              (build_views-AtMost orders (list_orders env filter s).1)
              λ views k. omega (arith, keeps created_before views, h, k))
