-- ===== src/Thrift/Termination.antt =====
-- How much fuel the loops of the readers in internal/transport/thriftapi/processor.go need.
pub mod Requests
use drone_management_system.Domain.{Location}
use drone_management_system.Integer.{ℤ}
use drone_management_system.Float64.{Float64}
use drone_management_system.Thrift.Readers.{
  switch_on, auth_field, read_list_orders_request, read_fail_order_request, fail_order_field,
  submit_order_field, read_auth_request, order_id_field, read_update_order_request,
  update_order_field, list_orders_field, read_order_id_request, read_heartbeat_request,
  heartbeat_field, read_token_request, token_field, read_submit_order_request, zero_location,
  location_into, i32_into, double_into, location_field, read_location, skipping, request_field,
  read_args, read_struct, string_into, read_fields,
}
use drone_management_system.Exec.{⊤}
use drone_management_system.Thrift.{
  is_struct, is_id, ◌>>=◌, ◌>>◌, after, is_stop, TType, Read, Field, reads, Protocol, Outcome, Got,
  value, failure, got, broke, out_of_fuel,
}
use drone_management_system.Base.{
  some, [], ◌∷◌, ◌&&◌, List, if◌then◌else◌, ℕ, zero, suc, ◌≤◌, ◌<◌, Bool, true, false, String,
  arith, ◌≡◌, refl,
}

-- A reading that leaves at most `n` of the input.
abbrev pub Leaves : {I A : Type 0} → (I → ℕ) → ℕ → Got I A → Type 0
Leaves size n (value a rest) = size rest ≤ n
Leaves size n (failure message rest) = ⊤

-- A field that is read is left behind, and no field is read at a stop.
abbrev pub FieldLeaves : {I : Type 0} → (I → ℕ) → ℕ → Got I Field → Type 0
FieldLeaves size n (value field rest) =
    (size rest ≤ n) × (is_stop field.field_type ≡ false → size rest < n)
FieldLeaves size n (failure message rest) = ⊤

-- A measure of what is left to read: no call adds to it, and the head of a field takes from it.
pub record IsShrinking {I : Type 0} (p : Protocol I) (size : I → ℕ) : Type 0 where
  pub message_begin : (i : I) → Leaves size (size i) (p.read_message_begin i)
  pub message_end : (i : I) → Leaves size (size i) (p.read_message_end i)
  pub struct_begin : (i : I) → Leaves size (size i) (p.read_struct_begin i)
  pub struct_end : (i : I) → Leaves size (size i) (p.read_struct_end i)
  pub field_begin : (i : I) → FieldLeaves size (size i) (p.read_field_begin i)
  pub field_end : (i : I) → Leaves size (size i) (p.read_field_end i)
  pub string : (i : I) → Leaves size (size i) (p.read_string i)
  pub i32 : (i : I) → Leaves size (size i) (p.read_i32 i)
  pub double : (i : I) → Leaves size (size i) (p.read_double i)
  pub skip : (t : TType) (i : I) → Leaves size (size i) (p.skip t i)

-- An outcome that leaves at most `n` of the input, or an error of the library: not the end of fuel.
abbrev pub Ends : {I A : Type 0} → (I → ℕ) → ℕ → Outcome I A → Type 0
Ends size n (got a rest) = size rest ≤ n
Ends size n (broke message rest) = ⊤
Ends size n out_of_fuel = ⊥

module _ {I : Type 0} (size : I → ℕ) where
  Ends-≤ : {A : Type 0} (m n : ℕ) (o : Outcome I A) → m ≤ n → Ends size m o → Ends size n o
  Ends-≤ m n (got a rest) h e = omega arith
  Ends-≤ m n (broke message rest) h e = tt
  Ends-≤ m n out_of_fuel h e = absurd e

  reads-Ends :
      {A : Type 0} (op : I → Got I A) (i : I)
      → Leaves size (size i) (op i)
      → Ends size (size i) (reads op i)
  reads-Ends {A = A} op i h = cases (op i) h
    where
      cases :
          (g : Got I A)
          → Leaves size (size i) g
          → Ends size
              (size i)
              (elim g [ value a rest ↦ got a rest | failure message rest ↦ broke message rest ])
      cases (value a rest) h = h
      cases (failure message rest) h = tt

  -- What follows a reading has no more left than the reading leaves.
  after-Ends :
      {A B : Type 0} (n : ℕ) (o : Outcome I A) (f : A → Read I B)
      → Ends size n o
      → ((a : A) (rest : I) → size rest ≤ n → Ends size (size rest) (f a rest))
      → Ends size n (after o f)
  after-Ends n (got a rest) f e k = Ends-≤ (size rest) n (f a rest) e (k a rest e)
  after-Ends n (broke message rest) f e k = tt
  after-Ends n out_of_fuel f e k = absurd e

  stop-Ends :
      {A : Type 0} (n : ℕ) (b : Bool) (x y : Outcome I A)
      → Ends size n x
      → (b ≡ false → Ends size n y)
      → Ends size n (elim b [ true ↦ x | false ↦ y ])
  stop-Ends n true x y h k = h
  stop-Ends n false x y h k = k refl

module _ {I : Type 0} (p : Protocol I) (size : I → ℕ) (shrinks : IsShrinking p size) where
  -- A switch that ends on every input below the bound.
  abbrev pub StepEnds : {A : Type 0} → ℕ → (Field → A → Read I A) → Type 0
  StepEnds {A = A} bound step =
      (field : Field) (a : A) (i : I) → size i < bound → Ends size (size i) (step field a i)

  read_fields-Ends :
      {A : Type 0} (bound fuel : ℕ) (step : Field → A → Read I A) (a : A) (i : I)
      → StepEnds bound step
      → size i < fuel
      → size i < bound
      → Ends size (size i) (read_fields p fuel step a i)
  unfolding read_fields
  read_fields-Ends bound zero step a i ends h b = absurd (omega arith)
  read_fields-Ends {A = A} bound (suc fuel) step a i ends h b =
      begun (p.read_field_begin i) (shrinks.field_begin i) λ next last under.
        read_fields-Ends bound fuel step next last ends (omega arith) (omega arith)
    where
      round :
          (field : Field) (rest : I)
          → size rest < size i
          → ((next : A) (last : I)
              → size last < size i
              → Ends size (size last) (read_fields p fuel step next last))
          → Ends size
              (size i)
              (after (step field a rest) (λ b. reads p.read_field_end >> read_fields p fuel step b))
      round field rest less again = Ends-≤ size (size rest) (size i) _ (omega arith) (
          after-Ends size (size rest) (step field a rest) _ (ends field a rest (omega arith))
            λ next left below.
              after-Ends size (size left) (reads p.read_field_end left) _
                (reads-Ends size p.read_field_end left (shrinks.field_end left))
                λ u last under. again next last (omega arith))

      begun :
          (g : Got I Field)
          → FieldLeaves size (size i) g
          → ((next : A) (last : I)
              → size last < size i
              → Ends size (size last) (read_fields p fuel step next last))
          → Ends size (size i) (
              after
                (elim g [ value a rest ↦ got a rest | failure message rest ↦ broke message rest ])
                λ field rest. elim (is_stop field.field_type) [
                  | true ↦ got a rest
                  | false ↦
                      after
                        (step field a rest)
                        λ b. reads p.read_field_end >> read_fields p fuel step b
                ])
      begun (value field rest) (less, below) again =
          stop-Ends size (size i) (is_stop field.field_type) _ _ less
            (λ e. round field rest (below e) again)
      begun (failure message rest) h again = tt

  -- An operation of the library, and what follows it.
  then-Ends :
      {A B : Type 0} (op : I → Got I A) (f : A → Read I B) (i : I)
      → Leaves size (size i) (op i)
      → ((a : A) (rest : I) → size rest ≤ size i → Ends size (size rest) (f a rest))
      → Ends size (size i) ((reads op >>= f) i)
  then-Ends op f i h k = after-Ends size (size i) (reads op i) f (reads-Ends size op i h) k

  read_struct-Ends :
      {A : Type 0} (fuel : ℕ) (step : Field → A → Read I A) (a : A) (i : I)
      → StepEnds fuel step
      → size i < fuel
      → Ends size (size i) (read_struct p fuel step a i)
  unfolding read_struct
  read_struct-Ends fuel step a i ends h =
      then-Ends p.read_struct_begin _ i (shrinks.struct_begin i) λ name rest below.
        after-Ends size (size rest) (read_fields p fuel step a rest) _
          (read_fields-Ends fuel fuel step a rest ends (omega arith) (omega arith))
          λ b left under.
            then-Ends p.read_struct_end _ left (shrinks.struct_end left) λ u last less. omega arith

  pub read_args-Ends :
      {A : Type 0} (fuel : ℕ) (step : Field → A → Read I A) (a : A) (i : I)
      → StepEnds fuel step
      → size i < fuel
      → Ends size (size i) (read_args p fuel step a i)
  unfolding read_args
  read_args-Ends fuel step a i ends h =
      after-Ends size (size i) (read_struct p fuel step a i) _
        (read_struct-Ends fuel step a i ends h)
        λ b left under.
          then-Ends p.read_message_end _ left (shrinks.message_end left) λ u last less. omega arith

  pub skipping-Ends :
      {A : Type 0} (field : Field) (a : A) (i : I) → Ends size (size i) (skipping p field a i)
  skipping-Ends field a i =
      then-Ends (p.skip field.field_type) _ i (shrinks.skip field.field_type i)
        λ u rest less. omega arith

  abbrev pub AllEnd : {A : Type 0} → List (ℕ × Read I A) → I → Type 0
  AllEnd [] i = ⊤
  AllEnd ((id, reading) ∷ cases) i = Ends size (size i) (reading i) × AllEnd cases i

  pub if-Ends :
      {A : Type 0} (b : Bool) (m k : Read I A) (i : I)
      → Ends size (size i) (m i)
      → Ends size (size i) (k i)
      → Ends size (size i) ((if b then m else k) i)
  if-Ends true m k i x y = x
  if-Ends false m k i x y = y

  pub switch_on-Ends :
      {A : Type 0} (field : Field) (cases : List (ℕ × Read I A)) (default : Read I A) (i : I)
      → AllEnd cases i
      → Ends size (size i) (default i)
      → Ends size (size i) (switch_on p field cases default i)
  switch_on-Ends field [] default i ends e = e
  switch_on-Ends field ((id, reading) ∷ cases) default i (first, ends) e =
      if-Ends (is_id id field.id) reading (switch_on p field cases default) i first
        (switch_on-Ends field cases default i ends e)

  pub string_into-Ends :
      {A : Type 0} (put : String → A) (i : I) → Ends size (size i) (string_into p put i)
  string_into-Ends put i = then-Ends p.read_string _ i (shrinks.string i) λ u rest less. omega arith

  pub i32_into-Ends : {A : Type 0} (put : ℤ → A) (i : I) → Ends size (size i) (i32_into p put i)
  i32_into-Ends put i = then-Ends p.read_i32 _ i (shrinks.i32 i) λ u rest less. omega arith

  double_into-Ends :
      {A : Type 0} (put : Float64 → A) (i : I) → Ends size (size i) (double_into p put i)
  double_into-Ends put i = then-Ends p.read_double _ i (shrinks.double i) λ u rest less. omega arith

  pub request_field-Ends :
      {A : Type 0} (fuel : ℕ) (step : Field → A → Read I A)
      → StepEnds fuel step
      → StepEnds fuel (request_field p fuel step)
  unfolding request_field
  request_field-Ends fuel step ends field a i h =
      if-Ends (is_id 1 field.id && is_struct field.field_type) (read_struct p fuel step a)
        (skipping p field a) i (read_struct-Ends fuel step a i ends h) (skipping-Ends field a i)

  pub location_into-Ends :
      {A : Type 0} (fuel : ℕ) (put : Location → A) (i : I)
      → size i < fuel
      → Ends size (size i) (location_into p fuel put i)
  unfolding read_location location_field
  location_into-Ends fuel put i h =
      after-Ends size (size i) (read_location p fuel i) _
        (read_struct-Ends fuel (location_field p) zero_location i
          (λ field loc j below.
            switch_on-Ends field
              ((1, double_into p (λ x. record loc { lat = x }))
                ∷ (2, double_into p (λ x. record loc { lng = x }))
                ∷ [])
              (skipping p field loc) j (double_into-Ends _ j, (double_into-Ends _ j, tt))
              (skipping-Ends field loc j))
          h)
        λ loc rest less. omega arith
