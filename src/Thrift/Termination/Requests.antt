-- ===== src/Thrift/Termination/Requests.antt =====
-- How much fuel the readers of the requests in internal/transport/thriftapi/processor.go need.
use drone_management_system.Thrift.Readers.{
  i32_into, location_into, skipping, string_into, read_location, heartbeat_field,
  read_fail_order_request, order_id_field, read_submit_order_request, read_heartbeat_request,
  submit_order_field, read_update_order_request, update_order_field, read_list_orders_request,
  token_field, list_orders_field, fail_order_field, auth_field, read_auth_request,
  read_order_id_request, read_token_request,
}
use drone_management_system.Thrift.Termination.{
  skipping-Ends, i32_into-Ends, location_into-Ends, string_into-Ends, request_field-Ends,
  read_args-Ends, if-Ends, switch_on-Ends, Ends, StepEnds, IsShrinking,
}
use drone_management_system.Thrift.{is_struct, is_id, Protocol}
use drone_management_system.Base.{if◌then◌else◌, ◌<◌, ℕ, [], ◌∷◌, some}

module _ {I : Type 0} (p : Protocol I) (size : I → ℕ) (shrinks : IsShrinking p size) where
  token_field-Ends : (fuel : ℕ) → StepEnds p size shrinks fuel (token_field p)
  unfolding token_field
  token_field-Ends fuel field a i h =
      switch_on-Ends p size shrinks field
        ((1, string_into p (λ x. record a { name = x }))
          ∷ (2, string_into p (λ x. record a { role = x }))
          ∷ [])
        (skipping p field a) i
        (string_into-Ends p size shrinks _ i, (string_into-Ends p size shrinks _ i, tt))
        (skipping-Ends p size shrinks field a i)

  pub read_token_request-Ends :
      (fuel : ℕ) (i : I) → size i < fuel → Ends size (size i) (read_token_request p fuel i)
  unfolding read_token_request
  read_token_request-Ends fuel i h =
      read_args-Ends p size shrinks fuel _ _ i
        (request_field-Ends p size shrinks fuel _ (token_field-Ends fuel)) h

  auth_field-Ends : (fuel : ℕ) → StepEnds p size shrinks fuel (auth_field p)
  unfolding auth_field
  auth_field-Ends fuel field a i h =
      if-Ends p size shrinks (is_id 1 field.id) (string_into p (λ x. x)) (skipping p field a) i
        (string_into-Ends p size shrinks (λ x. x) i) (skipping-Ends p size shrinks field a i)

  pub read_auth_request-Ends :
      (fuel : ℕ) (i : I) → size i < fuel → Ends size (size i) (read_auth_request p fuel i)
  unfolding read_auth_request
  read_auth_request-Ends fuel i h =
      read_args-Ends p size shrinks fuel _ _ i
        (request_field-Ends p size shrinks fuel _ (auth_field-Ends fuel)) h

  order_id_field-Ends : (fuel : ℕ) → StepEnds p size shrinks fuel (order_id_field p)
  unfolding order_id_field
  order_id_field-Ends fuel field a i h =
      switch_on-Ends p size shrinks field
        ((1, string_into p (λ x. record a { auth_token = x }))
          ∷ (2, string_into p (λ x. record a { order_id = x }))
          ∷ [])
        (skipping p field a) i
        (string_into-Ends p size shrinks _ i, (string_into-Ends p size shrinks _ i, tt))
        (skipping-Ends p size shrinks field a i)

  pub read_order_id_request-Ends :
      (fuel : ℕ) (i : I) → size i < fuel → Ends size (size i) (read_order_id_request p fuel i)
  unfolding read_order_id_request
  read_order_id_request-Ends fuel i h =
      read_args-Ends p size shrinks fuel _ _ i
        (request_field-Ends p size shrinks fuel _ (order_id_field-Ends fuel)) h

  fail_order_field-Ends : (fuel : ℕ) → StepEnds p size shrinks fuel (fail_order_field p)
  unfolding fail_order_field
  fail_order_field-Ends fuel field a i h =
      switch_on-Ends p size shrinks field
        ((1, string_into p (λ x. record a { auth_token = x }))
          ∷ (2, string_into p (λ x. record a { order_id = x }))
          ∷ (3, string_into p (λ x. record a { reason = x }))
          ∷ [])
        (skipping p field a) i
        (
          string_into-Ends p size shrinks _ i,
          (string_into-Ends p size shrinks _ i, (string_into-Ends p size shrinks _ i, tt)),
        )
        (skipping-Ends p size shrinks field a i)

  pub read_fail_order_request-Ends :
      (fuel : ℕ) (i : I) → size i < fuel → Ends size (size i) (read_fail_order_request p fuel i)
  unfolding read_fail_order_request
  read_fail_order_request-Ends fuel i h =
      read_args-Ends p size shrinks fuel _ _ i
        (request_field-Ends p size shrinks fuel _ (fail_order_field-Ends fuel)) h

  heartbeat_field-Ends : (fuel : ℕ) → StepEnds p size shrinks fuel (heartbeat_field p fuel)
  unfolding heartbeat_field read_location
  heartbeat_field-Ends fuel field a i h =
      switch_on-Ends p size shrinks field
        ((1, string_into p (λ x. record a { auth_token = x }))
          ∷ (
            2,
            if is_struct field.field_type
                then location_into p fuel (λ x. record a { location = x })
                else skipping p field a,
          )
          ∷ [])
        (skipping p field a) i
        (
          string_into-Ends p size shrinks _ i,
          (
            if-Ends p size shrinks (is_struct field.field_type)
                (location_into p fuel (λ x. record a { location = x })) (skipping p field a) i
                (location_into-Ends p size shrinks fuel _ i h)
                (skipping-Ends p size shrinks field a i),
            tt,
          ),
        )
        (skipping-Ends p size shrinks field a i)

  pub read_heartbeat_request-Ends :
      (fuel : ℕ) (i : I) → size i < fuel → Ends size (size i) (read_heartbeat_request p fuel i)
  unfolding read_heartbeat_request
  read_heartbeat_request-Ends fuel i h =
      read_args-Ends p size shrinks fuel _ _ i
        (request_field-Ends p size shrinks fuel _ (heartbeat_field-Ends fuel)) h

  submit_order_field-Ends : (fuel : ℕ) → StepEnds p size shrinks fuel (submit_order_field p fuel)
  unfolding submit_order_field read_location
  submit_order_field-Ends fuel field a i h =
      switch_on-Ends p size shrinks field
        ((1, string_into p (λ x. record a { auth_token = x }))
          ∷ (2, location_into p fuel (λ x. record a { origin = x }))
          ∷ (3, location_into p fuel (λ x. record a { destination = x }))
          ∷ [])
        (skipping p field a) i
        (
          string_into-Ends p size shrinks _ i,
          (
            location_into-Ends p size shrinks fuel _ i h,
            (location_into-Ends p size shrinks fuel _ i h, tt),
          ),
        )
        (skipping-Ends p size shrinks field a i)

  pub read_submit_order_request-Ends :
      (fuel : ℕ) (i : I) → size i < fuel → Ends size (size i) (read_submit_order_request p fuel i)
  unfolding read_submit_order_request
  read_submit_order_request-Ends fuel i h =
      read_args-Ends p size shrinks fuel _ _ i (submit_order_field-Ends fuel) h

  list_orders_field-Ends : (fuel : ℕ) → StepEnds p size shrinks fuel (list_orders_field p)
  unfolding list_orders_field
  list_orders_field-Ends fuel field a i h =
      switch_on-Ends p size shrinks field
        ((1, string_into p (λ x. record a { auth_token = x }))
          ∷ (2, string_into p (λ x. record a { status = x }))
          ∷ (3, i32_into p (λ x. record a { limit = x }))
          ∷ (4, i32_into p (λ x. record a { offset = x }))
          ∷ [])
        (skipping p field a) i
        (
          string_into-Ends p size shrinks _ i,
          (
            string_into-Ends p size shrinks _ i,
            (i32_into-Ends p size shrinks _ i, (i32_into-Ends p size shrinks _ i, tt)),
          ),
        )
        (skipping-Ends p size shrinks field a i)

  pub read_list_orders_request-Ends :
      (fuel : ℕ) (i : I) → size i < fuel → Ends size (size i) (read_list_orders_request p fuel i)
  unfolding read_list_orders_request
  read_list_orders_request-Ends fuel i h =
      read_args-Ends p size shrinks fuel _ _ i (list_orders_field-Ends fuel) h

  update_order_field-Ends : (fuel : ℕ) → StepEnds p size shrinks fuel (update_order_field p fuel)
  unfolding update_order_field read_location
  update_order_field-Ends fuel field a i h =
      switch_on-Ends p size shrinks field
        ((1, string_into p (λ x. record a { auth_token = x }))
          ∷ (2, string_into p (λ x. record a { order_id = x }))
          ∷ (3, location_into p fuel (λ x. record a { origin = some x }))
          ∷ (4, location_into p fuel (λ x. record a { destination = some x }))
          ∷ [])
        (skipping p field a) i
        (
          string_into-Ends p size shrinks _ i,
          (
            string_into-Ends p size shrinks _ i,
            (
              location_into-Ends p size shrinks fuel _ i h,
              (location_into-Ends p size shrinks fuel _ i h, tt),
            ),
          ),
        )
        (skipping-Ends p size shrinks field a i)

  pub read_update_order_request-Ends :
      (fuel : ℕ) (i : I) → size i < fuel → Ends size (size i) (read_update_order_request p fuel i)
  unfolding read_update_order_request
  read_update_order_request-Ends fuel i h =
      read_args-Ends p size shrinks fuel _ _ i (update_order_field-Ends fuel) h
