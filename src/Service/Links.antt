-- ===== src/Service/Links.antt =====
-- Two maps of the tables: which order a drone carries, and which drone holds an order.
use drone_management_system.Base.{
  sym, ◌∙◌, ◌≡◌, ◌↔◌, Option, none, some, String, ◌==◌, if◌then◌else◌, arith, eq_iff,
}

abbrev pub Linked : (String → Option String) → (String → Option String) → Type 0
Linked carried holder = (x i : String) → (carried x ≡ some i) ↔ (holder i ≡ some x)

module _ {c h c' h' : String → Option String} (linked : Linked c h) where
  -- Nothing has changed.
  pub Linked-same : ((x : String) → c' x ≡ c x) → ((i : String) → h' i ≡ h i) → Linked c' h'
  Linked-same p q x i =
      (λ e. q i ∙ (linked x i).0 (sym (p x) ∙ e), λ e. p x ∙ (linked x i).1 (sym (q i) ∙ e))

  -- A drone and the order that it carries have let go of one another.
  pub Linked-unlink :
      (x i : String)
      → c x ≡ some i
      → ((y : String) → c' y ≡ (if x == y then none else c y))
      → ((j : String) → h' j ≡ (if i == j then none else h j))
      → Linked c' h'
  Linked-unlink x i e p q y j = (
    λ a.
        ground
          (arith, p y, q j, linked y j, linked x i, linked y i, linked x j, eq_iff x y, eq_iff i j),
    λ a.
        ground
          (arith, p y, q j, linked y j, linked x i, linked y i, linked x j, eq_iff x y, eq_iff i j),
  )

  -- A drone that carries nothing has taken an order that nothing holds.
  pub Linked-link :
      (x i : String)
      → c x ≡ none
      → h i ≡ none
      → ((y : String) → c' y ≡ (if x == y then some i else c y))
      → ((j : String) → h' j ≡ (if i == j then some x else h j))
      → Linked c' h'
  Linked-link x i e f p q y j = (
    λ a.
        ground
          (arith, p y, q j, linked y j, linked x i, linked y i, linked x j, eq_iff x y, eq_iff i j),
    λ a.
        ground
          (arith, p y, q j, linked y j, linked x i, linked y i, linked x j, eq_iff x y, eq_iff i j),
  )
