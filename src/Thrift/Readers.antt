-- ===== src/Thrift/Readers.antt =====
-- The readers of internal/transport/thriftapi/processor.go. A loop over fields is recursion on fuel.
use drone_management_system.Float64.{Float64}
use drone_management_system.Domain.{Location}
use drone_management_system.Integer.{pos, ℤ}
use drone_management_system.Thrift.{
  is_struct, got, ◌>>◌, done, after, is_id, reads, ◌>>=◌, is_stop, out_of_fuel, Read, Field,
  Protocol,
}
use drone_management_system.Base.{
  [], List, ◌∷◌, ◌&&◌, if◌then◌else◌, ℕ, zero, suc, Bool, true, false, String, Option, none, some,
}

pub record TokenArgs : Type 0 where
  pub name : String
  pub role : String

pub record OrderIdArgs : Type 0 where
  pub auth_token : String
  pub order_id : String

pub record FailOrderArgs : Type 0 where
  pub auth_token : String
  pub order_id : String
  pub reason : String

pub record HeartbeatArgs : Type 0 where
  pub auth_token : String
  pub location : Location

pub record SubmitOrderArgs : Type 0 where
  pub auth_token : String
  pub origin : Location
  pub destination : Location

pub record ListOrdersArgs : Type 0 where
  pub auth_token : String
  pub status : String
  pub limit : ℤ
  pub offset : ℤ

pub record UpdateOrderArgs : Type 0 where
  pub auth_token : String
  pub order_id : String
  pub origin : Option Location
  pub destination : Option Location

-- The zero value of `domain.Location`.
abbrev pub zero_location : Location
zero_location = record { lat = 0; lng = 0 }

module _ {I : Type 0} (p : Protocol I) where
  abbrev pub end_of_field : Field → Bool
  end_of_field field = is_stop field.field_type

  -- `for { _, ft, fid, err := in.ReadFieldBegin(ctx); if ft == thrift.STOP { break } … }`, where
  -- `step` is the switch on the field and what the loop assigns is passed on.
  unfoldable pub read_fields : {A : Type 0} → ℕ → (Field → A → Read I A) → A → Read I A
  read_fields zero step a i = out_of_fuel
  read_fields (suc fuel) step a i = after (reads p.read_field_begin i) λ field rest.
      elim (is_stop field.field_type) [
        | true ↦ got a rest
        | false ↦ after (step field a rest) λ b. reads p.read_field_end >> read_fields fuel step b
      ]

  -- A struct with its fields.
  unfoldable pub read_struct : {A : Type 0} → ℕ → (Field → A → Read I A) → A → Read I A
  unfolding read_fields
  read_struct fuel step a = do
    reads p.read_struct_begin
    b ← read_fields fuel step a
    reads p.read_struct_end
    done b

  -- The arguments of a method, to the end of the message.
  unfoldable pub read_args : {A : Type 0} → ℕ → (Field → A → Read I A) → A → Read I A
  unfolding read_struct
  read_args fuel step a = do b ← read_struct fuel step a; reads p.read_message_end; done b

  abbrev pub skipping : {A : Type 0} → Field → A → Read I A
  skipping field a = reads (p.skip field.field_type) >> done a

  -- The arguments whose first field is the struct of the request.
  unfoldable pub request_field : {A : Type 0} → ℕ → (Field → A → Read I A) → Field → A → Read I A
  unfolding read_struct
  request_field fuel step field a =
      if is_id 1 field.id && is_struct field.field_type
      then read_struct fuel step a
      else skipping field a

  abbrev pub string_into : {A : Type 0} → (String → A) → Read I A
  string_into put = reads p.read_string >>= λ x. done (put x)

  abbrev pub i32_into : {A : Type 0} → (ℤ → A) → Read I A
  i32_into put = reads p.read_i32 >>= λ x. done (put x)

  abbrev pub double_into : {A : Type 0} → (Float64 → A) → Read I A
  double_into put = reads p.read_double >>= λ x. done (put x)

  -- The switch on the number of a field.
  abbrev pub switch_on : {A : Type 0} → Field → List (ℕ × Read I A) → Read I A → Read I A
  switch_on field [] default = default
  switch_on field ((id, reading) ∷ cases) default =
      if is_id id field.id then reading else switch_on field cases default

  unfoldable pub location_field : Field → Location → Read I Location
  location_field field loc =
      switch_on field
        ((1, double_into (λ x. record loc { lat = x }))
          ∷ (2, double_into (λ x. record loc { lng = x }))
          ∷ [])
        (skipping field loc)

  unfoldable pub read_location : ℕ → Read I Location
  unfolding read_struct location_field
  read_location fuel = read_struct fuel location_field zero_location

  abbrev pub location_into : {A : Type 0} → ℕ → (Location → A) → Read I A
  location_into fuel put = read_location fuel >>= λ x. done (put x)

  unfoldable pub token_field : Field → TokenArgs → Read I TokenArgs
  token_field field a =
      switch_on field
        ((1, string_into (λ x. record a { name = x }))
          ∷ (2, string_into (λ x. record a { role = x }))
          ∷ [])
        (skipping field a)

  unfoldable pub read_token_request : ℕ → Read I TokenArgs
  unfolding read_args request_field token_field
  read_token_request fuel =
      read_args fuel (request_field fuel token_field) (record { name = ""; role = "" })

  unfoldable pub auth_field : Field → String → Read I String
  auth_field field token = if is_id 1 field.id then string_into (λ x. x) else skipping field token

  unfoldable pub read_auth_request : ℕ → Read I String
  unfolding read_args request_field auth_field
  read_auth_request fuel = read_args fuel (request_field fuel auth_field) ""

  unfoldable pub order_id_field : Field → OrderIdArgs → Read I OrderIdArgs
  order_id_field field a =
      switch_on field
        ((1, string_into (λ x. record a { auth_token = x }))
          ∷ (2, string_into (λ x. record a { order_id = x }))
          ∷ [])
        (skipping field a)

  unfoldable pub read_order_id_request : ℕ → Read I OrderIdArgs
  unfolding read_args request_field order_id_field
  read_order_id_request fuel =
      read_args fuel (request_field fuel order_id_field) (record { auth_token = ""; order_id = "" })

  unfoldable pub read_drone_id_request : ℕ → Read I OrderIdArgs
  unfolding read_order_id_request
  read_drone_id_request fuel = read_order_id_request fuel

  unfoldable pub fail_order_field : Field → FailOrderArgs → Read I FailOrderArgs
  fail_order_field field a =
      switch_on field
        ((1, string_into (λ x. record a { auth_token = x }))
          ∷ (2, string_into (λ x. record a { order_id = x }))
          ∷ (3, string_into (λ x. record a { reason = x }))
          ∷ [])
        (skipping field a)

  unfoldable pub read_fail_order_request : ℕ → Read I FailOrderArgs
  unfolding read_args request_field fail_order_field
  read_fail_order_request fuel =
      read_args fuel (request_field fuel fail_order_field)
        (record { auth_token = ""; order_id = ""; reason = "" })

  unfoldable pub heartbeat_field : ℕ → Field → HeartbeatArgs → Read I HeartbeatArgs
  unfolding read_location
  heartbeat_field fuel field a =
      switch_on field
        ((1, string_into (λ x. record a { auth_token = x }))
          ∷ (
            2,
            if is_struct field.field_type
                then location_into fuel (λ x. record a { location = x })
                else skipping field a,
          )
          ∷ [])
        (skipping field a)

  unfoldable pub read_heartbeat_request : ℕ → Read I HeartbeatArgs
  unfolding read_args request_field heartbeat_field
  read_heartbeat_request fuel =
      read_args fuel (request_field fuel (heartbeat_field fuel))
        (record { auth_token = ""; location = zero_location })

  -- The readers below take the fields of the request for those of the arguments.
  unfoldable pub submit_order_field : ℕ → Field → SubmitOrderArgs → Read I SubmitOrderArgs
  unfolding read_location
  submit_order_field fuel field a =
      switch_on field
        ((1, string_into (λ x. record a { auth_token = x }))
          ∷ (2, location_into fuel (λ x. record a { origin = x }))
          ∷ (3, location_into fuel (λ x. record a { destination = x }))
          ∷ [])
        (skipping field a)

  unfoldable pub read_submit_order_request : ℕ → Read I SubmitOrderArgs
  unfolding read_args submit_order_field
  read_submit_order_request fuel =
      read_args fuel (submit_order_field fuel)
        (record { auth_token = ""; origin = zero_location; destination = zero_location })

  unfoldable pub list_orders_field : Field → ListOrdersArgs → Read I ListOrdersArgs
  list_orders_field field a =
      switch_on field
        ((1, string_into (λ x. record a { auth_token = x }))
          ∷ (2, string_into (λ x. record a { status = x }))
          ∷ (3, i32_into (λ x. record a { limit = x }))
          ∷ (4, i32_into (λ x. record a { offset = x }))
          ∷ [])
        (skipping field a)

  unfoldable pub read_list_orders_request : ℕ → Read I ListOrdersArgs
  unfolding read_args list_orders_field
  read_list_orders_request fuel =
      read_args fuel list_orders_field
        (record { auth_token = ""; status = ""; limit = pos 0; offset = pos 0 })

  unfoldable pub update_order_field : ℕ → Field → UpdateOrderArgs → Read I UpdateOrderArgs
  unfolding read_location
  update_order_field fuel field a =
      switch_on field
        ((1, string_into (λ x. record a { auth_token = x }))
          ∷ (2, string_into (λ x. record a { order_id = x }))
          ∷ (3, location_into fuel (λ x. record a { origin = some x }))
          ∷ (4, location_into fuel (λ x. record a { destination = some x }))
          ∷ [])
        (skipping field a)

  unfoldable pub read_update_order_request : ℕ → Read I UpdateOrderArgs
  unfolding read_args update_order_field
  read_update_order_request fuel =
      read_args fuel (update_order_field fuel)
        (record { auth_token = ""; order_id = ""; origin = none; destination = none })
