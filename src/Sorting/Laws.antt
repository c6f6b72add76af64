-- ===== src/Sorting/Laws.antt =====
-- The elements and the order of what the sort and the selection of `Sorting` give.
use drone_management_system.Base.{◌≡◌, inl, inr, Bool, true, false, List, [], ◌∷◌, Bool-cases}
use drone_management_system.Sorting.{insert_by, sort_by, where_}

abbrev pub All {ℓ κ} : {A : Type ℓ} → (A → Type κ) → List A → Type κ
All P [] = Unit
All P (x ∷ xs) = P x × All P xs

pub All-weaken {ℓ κ μ} :
    {A : Type ℓ} (P : A → Type κ) (Q : A → Type μ) (xs : List A)
    → ((x : A) → P x → Q x)
    → All P xs
    → All Q xs
All-weaken P Q [] f h = tt
All-weaken P Q (x ∷ xs) f h = (f x h.0, All-weaken P Q xs f h.1)

module _ {ℓ κ} {A : Type ℓ} (P : A → Type κ) where
  pub All-where :
      (p : A → Bool) (xs : List A) → All P xs → All (λ x. P x × (p x ≡ true)) (where_ p xs)
  unfolding where_
  All-where p [] h = tt
  All-where p (x ∷ xs) h = elim (Bool-cases (p x)) [
    | inl e ↦ rw e ((h.0, e), All-where p xs h.1)
    | inr e ↦ rw e (All-where p xs h.1)
  ]

  -- What holds of all that is selected holds of each element that passes the test.
  pub All-of_where :
      (p : A → Bool) (xs : List A) → All P (where_ p xs) → All (λ x. p x ≡ true → P x) xs
  unfolding where_
  All-of_where p [] h = tt
  All-of_where p (x ∷ xs) h = elim (Bool-cases (p x)) [
    | inl e ↦ let h' = rw e at h in ((λ _. h'.0), All-of_where p xs h'.1)
    | inr e ↦ let h' = rw e at h in ((λ t. cc), All-of_where p xs h')
  ]

  module _ (le : A → A → Bool) where
    All-insert_by : (a : A) (xs : List A) → P a → All P xs → All P (insert_by le a xs)
    unfolding insert_by
    All-insert_by a [] h k = (h, tt)
    All-insert_by a (x ∷ xs) h k = elim (Bool-cases (le a x)) [
      | inl e ↦ rw e (h, k)
      | inr e ↦ rw e (k.0, All-insert_by a xs h k.1)
    ]

    pub All-sort_by : (xs : List A) → All P xs → All P (sort_by le xs)
    unfolding sort_by
    All-sort_by [] h = tt
    All-sort_by (x ∷ xs) h = All-insert_by x (sort_by le xs) h.0 (All-sort_by xs h.1)

    All-of_insert_by : (a : A) (xs : List A) → All P (insert_by le a xs) → P a × All P xs
    unfolding insert_by
    All-of_insert_by a [] h = h
    All-of_insert_by a (x ∷ xs) h = elim (Bool-cases (le a x)) [
      | inl e ↦ rw e at h
      | inr e ↦ let h' = rw e at h in let r = All-of_insert_by a xs h'.1 in (r.0, (h'.0, r.1))
    ]

    pub All-of_sort_by : (xs : List A) → All P (sort_by le xs) → All P xs
    unfolding sort_by
    All-of_sort_by [] h = tt
    All-of_sort_by (x ∷ xs) h =
        let r = All-of_insert_by x (sort_by le xs) h in (r.0, All-of_sort_by xs r.1)

-- Each element comes no later than all behind it.
abbrev pub IsSorted {ℓ} : {A : Type ℓ} → (A → A → Bool) → List A → Type 0
IsSorted le [] = Unit
IsSorted le (x ∷ xs) = All (λ y. le x y ≡ true) xs × IsSorted le xs

module _ {ℓ} {A : Type ℓ} (le : A → A → Bool) (total : (a b : A) → le a b ≡ false → le b a ≡ true)
    (trans : (a b c : A) → le a b ≡ true → le b c ≡ true → le a c ≡ true) where
  insert_by-IsSorted : (a : A) (xs : List A) → IsSorted le xs → IsSorted le (insert_by le a xs)
  unfolding insert_by
  insert_by-IsSorted a [] h = (tt, tt)
  insert_by-IsSorted a (x ∷ xs) h = elim (Bool-cases (le a x)) [
    | inl e ↦
        rw e
          ((e, All-weaken (λ y. le x y ≡ true) (λ y. le a y ≡ true) xs (λ y. trans a x y e) h.0), h)
    | inr e ↦
        rw e (
          All-insert_by (λ y. le x y ≡ true) le a xs (total a x e) h.0,
          insert_by-IsSorted a xs h.1,
        )
  ]

  pub sort_by-IsSorted : (xs : List A) → IsSorted le (sort_by le xs)
  unfolding sort_by
  sort_by-IsSorted [] = tt
  sort_by-IsSorted (x ∷ xs) = insert_by-IsSorted x (sort_by le xs) (sort_by-IsSorted xs)
