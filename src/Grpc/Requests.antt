-- ===== src/Grpc/Requests.antt =====
-- internal/transport/grpcapi/types.go, and the empty request of descriptors.go.
use drone_management_system.Integer.{ℤ}
use drone_management_system.Float64.{Float64}
use drone_management_system.Domain.{Location}
use drone_management_system.Base.{String, Option}

pub record TokenRequest : Type 0 where
  pub name : String
  pub role : String

pub record TokenResponse : Type 0 where
  pub token : String
  pub expires_at : String

pub record SubmitOrderRequest : Type 0 where
  pub origin : Location
  pub destination : Location

pub record OrderIdRequest : Type 0 where
  pub order_id : String

pub record FailOrderRequest : Type 0 where
  pub order_id : String
  pub reason : String

pub record HeartbeatRequest : Type 0 where
  pub lat : Float64
  pub lng : Float64

pub record ListOrdersRequest : Type 0 where
  pub status : String
  pub limit : ℤ
  pub offset : ℤ

pub record UpdateOrderRequest : Type 0 where
  pub order_id : String
  pub origin : Option Location
  pub destination : Option Location

pub record DroneIdRequest : Type 0 where
  pub drone_id : String

pub data Empty : Type 0 where
  empty : Empty
