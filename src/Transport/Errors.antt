-- ===== src/Transport/Errors.antt =====
-- What the error mappings of the three transports have in common.
use drone_management_system.Domain.{Error, errors_is, no_job}
use drone_management_system.Transport.{
  map_error, map_service_error, write_error, internal, internal_error,
}
use drone_management_system.Base.{false, arith, ◌↔◌, ◌≡◌}

-- The transports say the same of an error: HTTP and gRPC with the same message, Thrift with it too
-- but where there is no job, and the three of them call an error internal for the same errors.
pub record Agree (e : Error) : Type 0 where
  pub message : (write_error e).message ≡ (map_service_error e).message
  pub thrift_message : errors_is e no_job ≡ false → (map_error e).message ≡ (write_error e).message
  pub http_grpc : ((write_error e).status ≡ 500) ↔ ((map_service_error e).code ≡ internal)
  pub grpc_thrift : ((map_service_error e).code ≡ internal) ↔ ((map_error e).kind ≡ internal_error)

-- For every error HTTP and gRPC give the same message, Thrift gives it too unless the error says
-- that there is no job, HTTP answers 500 exactly where gRPC answers with the internal code, and
-- that exactly where Thrift answers with an internal error.
pub error_mappings-Agree : (e : Error) → Agree e
unfolding write_error map_service_error map_error
error_mappings-Agree e = record {
  message = ground arith;
  thrift_message = λ h. ground (arith, h);
  http_grpc = ground arith;
  grpc_thrift = ground arith;
}
