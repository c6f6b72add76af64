-- ===== src/Tables/Reserve.antt =====
-- `orderReserveSQL`: the row that it returns.
use drone_management_system.Domain.{order_status_text}
use mathlib.Core.Path.{subst}
use drone_management_system.Base.{
  eq_of_true, inl, inr, Bool-cases, ◌==◌, Bool-cases, false, some_eq, ◌≡◌, ◌≤◌, refl, none, some,
  Bool, true, String, List, [], ◌∷◌, arith, eq_iff, eq_self,
}
use drone_management_system.Rows.{OrderRow}
use drone_management_system.Sorting.{sort_by, where_}
use drone_management_system.Sorting.Laws.{
  All, All-weaken, All-where, All-of_where, All-sort_by, All-of_sort_by, IsSorted, sort_by-IsSorted,
}
use drone_management_system.Tables.{
  any_status, order_select_by_id, created_no_later, is_reservable, first, order_reserve,
}
use drone_management_system.Tables.Keys.{UniqueKeys}

select_behind :
    (row r : OrderRow) (rows : List OrderRow)
    → order_select_by_id row.id rows ≡ none
    → order_select_by_id r.id rows ≡ some r
    → order_select_by_id r.id (row ∷ rows) ≡ some r
unfolding order_select_by_id
select_behind row r rows h e = ground (arith, eq_iff row.id r.id)

-- Under the primary key each row is the one that its identifier selects.
All-select :
    (rows : List OrderRow) → UniqueKeys rows → All (λ r. order_select_by_id r.id rows ≡ some r) rows
unfolding order_select_by_id
All-select [] u = tt
All-select (row ∷ rows) u = (
  rw (eq_self row.id),
  All-weaken (λ r. order_select_by_id r.id rows ≡ some r)
      (λ r. order_select_by_id r.id (row ∷ rows) ≡ some r) rows (λ r. select_behind row r rows u.0)
      (All-select rows u.1),
)

first-All : {A : Type 0} (P : A → Type 0) (xs : List A) {x : A} → All P xs → first xs ≡ some x → P x
first-All P [] h e = cc
first-All P (y ∷ xs) h e = subst P (some_eq e) h.0

module _ (allowed : List String) (locked : String → Bool) (rows : List OrderRow) where
  -- Under the primary key, if the statement reserves a row, that row is the one of its identifier
  -- and may be reserved.
  pub order_reserve-found :
      {row : OrderRow}
      → UniqueKeys rows
      → order_reserve allowed locked rows ≡ some row
      → (order_select_by_id row.id rows ≡ some row) × (is_reservable allowed locked row ≡ true)
  unfolding order_reserve
  order_reserve-found u e =
      let p = is_reservable allowed locked in
      let found =
        All-where (λ r. order_select_by_id r.id rows ≡ some r) p rows (All-select rows u) in
      first-All (λ r. (order_select_by_id r.id rows ≡ some r) × (p r ≡ true)) _
        (All-sort_by (λ r. (order_select_by_id r.id rows ≡ some r) × (p r ≡ true)) created_no_later
          (where_ p rows) found)
        e

-- The text is one of the list.
pub data IsAmong (s : String) : List String → Type 0 where
  first_of : {t : String} {texts : List String} → t ≡ s → IsAmong s (t ∷ texts)
  one_behind : {t : String} {texts : List String} → IsAmong s texts → IsAmong s (t ∷ texts)

-- A row that a drone may take: its status is one of `allowed`, no drone has it, and no other
-- transaction holds its lock.
pub record IsFree (allowed : List String) (locked : String → Bool) (row : OrderRow) : Type 0 where
  pub open_status : IsAmong (order_status_text row.status) allowed
  pub unassigned : row.assigned_drone_id ≡ none
  pub unlocked : locked row.id ≡ false

any_status-IsAmong :
    (allowed : List String) (s : String) → any_status allowed s ≡ true → IsAmong s allowed
any_status-IsAmong [] s h = cc
any_status-IsAmong (a ∷ allowed) s h = elim (Bool-cases (a == s)) [
  | inl e ↦ first_of (eq_of_true a s e)
  | inr e ↦ one_behind (any_status-IsAmong allowed s (ground (arith, h, e)))
]

is_reservable-IsFree :
    (allowed : List String) (locked : String → Bool) (row : OrderRow)
    → is_reservable allowed locked row ≡ true
    → IsFree allowed locked row
unfolding is_reservable
is_reservable-IsFree allowed locked row h = record {
  open_status = any_status-IsAmong allowed (order_status_text row.status) (ground (arith, h));
  unassigned = ground (arith, h);
  unlocked = ground (arith, h);
}

-- Under the primary key, if the statement reserves a row, that row is the one of its identifier,
-- its status is one of the allowed, no drone is assigned to it, and no other transaction has it
-- locked.
pub order_reserve-IsFree :
    (allowed : List String) (locked : String → Bool) (rows : List OrderRow) (row : OrderRow)
    → UniqueKeys rows
    → order_reserve allowed locked rows ≡ some row
    → (order_select_by_id row.id rows ≡ some row) × IsFree allowed locked row
order_reserve-IsFree allowed locked rows row u e =
    let (found, free) = order_reserve-found allowed locked rows u e in
    (found, is_reservable-IsFree allowed locked row free)

created_total : (a b : OrderRow) → created_no_later a b ≡ false → created_no_later b a ≡ true
created_total a b h = ground arith

created_trans :
    (a b c : OrderRow)
    → created_no_later a b ≡ true
    → created_no_later b c ≡ true
    → created_no_later a c ≡ true
created_trans a b c h k = ground arith

first-oldest :
    (xs : List OrderRow) {x : OrderRow}
    → IsSorted created_no_later xs
    → first xs ≡ some x
    → All (λ y. x.created_at ≤ y.created_at) xs
first-oldest [] s e = tt
first-oldest (y ∷ xs) {x} s e = (
  ground arith,
  All-weaken (λ z. created_no_later y z ≡ true) (λ z. x.created_at ≤ z.created_at) xs
      (λ z h. ground arith) s.0,
)

-- If the statement reserves a row, no row that may be reserved was created before it.
pub order_reserve-oldest :
    (allowed : List String) (locked : String → Bool) (rows : List OrderRow) (row : OrderRow)
    → order_reserve allowed locked rows ≡ some row
    → All (λ r. is_reservable allowed locked r ≡ true → row.created_at ≤ r.created_at) rows
unfolding order_reserve
order_reserve-oldest allowed locked rows row e =
    let p = is_reservable allowed locked in
    All-of_where (λ r. row.created_at ≤ r.created_at) p rows
      (All-of_sort_by (λ r. row.created_at ≤ r.created_at) created_no_later (where_ p rows)
        (first-oldest (sort_by created_no_later (where_ p rows))
          (sort_by-IsSorted created_no_later created_total created_trans (where_ p rows)) e))

first-none : {A : Type 0} (xs : List A) → first xs ≡ none → xs ≡ []
first-none [] e = refl
first-none (x ∷ xs) e = cc

-- Nothing is reserved only if no row may be.
pub order_reserve-none :
    (allowed : List String) (locked : String → Bool) (rows : List OrderRow)
    → order_reserve allowed locked rows ≡ none
    → All (λ r. is_reservable allowed locked r ≡ true → ⊥) rows
unfolding order_reserve
order_reserve-none allowed locked rows e =
    let p = is_reservable allowed locked in
    All-of_where (λ r. ⊥) p rows
      (All-of_sort_by (λ r. ⊥) created_no_later (where_ p rows)
        (rw (first-none (sort_by created_no_later (where_ p rows)) e) tt))
