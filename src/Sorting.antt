-- ===== src/Sorting.antt =====
-- `ORDER BY` and `sort`, as an insertion sort by a test "comes no later than": where the source
-- leaves the order of equal keys open, equal keys keep their order.
pub mod Laws
use drone_management_system.Base.{Bool, List, [], ◌∷◌, if◌then◌else◌}

module _ {ℓ} {A : Type ℓ} where
  unfoldable pub insert_by : (A → A → Bool) → A → List A → List A
  insert_by le a [] = a ∷ []
  insert_by le a (x ∷ xs) = let rest = insert_by le a xs in if le a x then a ∷ x ∷ xs else x ∷ rest

  unfoldable pub sort_by : (A → A → Bool) → List A → List A
  unfolding insert_by
  sort_by le [] = []
  sort_by le (x ∷ xs) = insert_by le x (sort_by le xs)

  -- `WHERE`
  unfoldable pub where_ : (A → Bool) → List A → List A
  where_ p [] = []
  where_ p (x ∷ xs) = let rest = where_ p xs in if p x then x ∷ rest else rest
