-- ===== src/Eta.antt =====
-- internal/service/eta.go: where an order is and how long its delivery takes.
use drone_management_system.Float64.{is_nan, zero_float, one_eighty, float_gt, Float64}
use drone_management_system.Integer.{ℤ, pos, negsuc}
use drone_management_system.Domain.{
  OrderStatus, is_terminal, Order, Location, Drone, created, reserved, picked_up, handoff_requested,
  delivered, failed, withdrawn,
}
use drone_management_system.Base.{true, arith, if◌then◌else◌, Option, none, some, not, ◌&&◌}
use drone_management_system.Base.{◌≡◌, refl}

-- Arithmetic on `float64`, the functions of package `math` and the conversion to `int64`, which the
-- processor and the library compute.
pub record FloatOps : Type 0 where
  pub add : Float64 → Float64 → Float64
  pub sub : Float64 → Float64 → Float64
  pub mul : Float64 → Float64 → Float64
  pub div : Float64 → Float64 → Float64
  pub sin : Float64 → Float64
  pub cos : Float64 → Float64
  pub asin : Float64 → Float64
  pub sqrt : Float64 → Float64
  pub int64 : Float64 → ℤ

pub record OrderView : Type 0 where
  pub order : Order
  pub current_location : Option Location
  pub eta_seconds : Option ℤ

pub record DroneStatusView : Type 0 where
  pub drone : Drone
  pub current_order : Option OrderView

abbrev pub last_location_of : Option Drone → Option Location
last_location_of none = none
last_location_of (some drone) = drone.last_location

-- `*order.HandoffOrigin` where there is one, else `order.Origin`
abbrev pub handoff_or_origin : Option Location → Location → Location
handoff_or_origin none origin = origin
handoff_or_origin (some loc) origin = loc

abbrev current_location_by : OrderStatus → Order → Option Drone → Option Location
current_location_by created order drone = some order.origin
current_location_by reserved order drone =
    some (handoff_or_origin order.handoff_origin order.origin)
current_location_by picked_up order drone = last_location_of drone
current_location_by handoff_requested order drone = order.handoff_origin
current_location_by _ order drone = none

unfoldable pub current_location : Order → Option Drone → Option Location
current_location order drone = current_location_by order.status order drone

-- 2, π, and `2 * earthRadius`, which is a constant of the program
abbrev two : Float64
two = 0x4000000000000000

abbrev pi : Float64
pi = 0x400921FB54442D18

abbrev earth_diameter : Float64
earth_diameter = 0x41684DAE00000000

module _ (ops : FloatOps) where
  unfoldable pub degrees_to_radians : Float64 → Float64
  degrees_to_radians deg = ops.div (ops.mul deg pi) one_eighty

  unfoldable pub haversine_meters : Location → Location → Float64
  unfolding degrees_to_radians
  haversine_meters a b =
      let lat1 = degrees_to_radians a.lat in
      let lat2 = degrees_to_radians b.lat in
      let d_lat = degrees_to_radians (ops.sub b.lat a.lat) in
      let d_lng = degrees_to_radians (ops.sub b.lng a.lng) in
      let sin_lat = ops.sin (ops.div d_lat two) in
      let sin_lng = ops.sin (ops.div d_lng two) in
      let h =
        ops.add (ops.mul sin_lat sin_lat)
          (ops.mul (ops.mul (ops.mul (ops.cos lat1) (ops.cos lat2)) sin_lng) sin_lng) in
      ops.mul earth_diameter (ops.asin (ops.sqrt h))

  -- `if seconds < 0 { seconds = 0 }`
  abbrev pub no_less_than_zero : ℤ → ℤ
  no_less_than_zero (pos n) = pos n
  no_less_than_zero (negsuc n) = pos 0

  -- The seconds from one place to another.
  unfoldable pub travel_seconds : Float64 → Location → Location → ℤ
  unfolding haversine_meters
  travel_seconds speed from dest =
      no_less_than_zero (ops.int64 (ops.div (haversine_meters from dest) speed))

  -- The `switch` of `ComputeETA`, with its early returns, and what follows it.
  abbrev eta_by : OrderStatus → Order → Option Drone → Float64 → Option ℤ
  eta_by created order drone speed = some (travel_seconds speed order.origin order.destination)
  eta_by reserved order drone speed =
      some (
        travel_seconds speed (handoff_or_origin order.handoff_origin order.origin)
          order.destination)
  eta_by picked_up order drone speed = elim (last_location_of drone) [
    | none ↦ none
    | some from ↦ some (travel_seconds speed from order.destination)
  ]
  eta_by handoff_requested order drone speed = elim order.handoff_origin [
    | none ↦ none
    | some from ↦ some (travel_seconds speed from order.destination)
  ]
  eta_by _ order drone speed = none

  -- `speedMPS <= 0` is false of a speed that is no number.
  unfoldable pub compute_eta : Order → Option Drone → Float64 → Option ℤ
  unfolding is_terminal float_gt
  compute_eta order drone speed =
      if is_terminal order.status
      then none
      else if not (float_gt speed zero_float) && not (is_nan speed)
      then none
      else eta_by order.status order drone speed

abbrev pub estimate : FloatOps → Float64 → Location → Option Location → Option ℤ
estimate ops speed dest none = none
estimate ops speed dest (some from) = some (travel_seconds ops speed from dest)

compute_eta-by_status :
    (ops : FloatOps) (s : OrderStatus) (order : Order) (drone : Option Drone) (speed : Float64)
    → (if is_terminal s then none else eta_by ops s order drone speed)
      ≡ estimate ops speed order.destination (current_location_by s order drone)
unfolding is_terminal
compute_eta-by_status ops created order drone speed = refl
compute_eta-by_status ops reserved order drone speed = refl
compute_eta-by_status ops picked_up order drone speed = ground arith
compute_eta-by_status ops handoff_requested order drone speed = ground arith
compute_eta-by_status ops delivered order drone speed = refl
compute_eta-by_status ops failed order drone speed = refl
compute_eta-by_status ops withdrawn order drone speed = refl

-- At a positive speed there is an estimate exactly where the current location of the order is
-- known, and it is the time from there to the destination.
pub compute_eta-current_location :
    (ops : FloatOps) (order : Order) (drone : Option Drone) (speed : Float64)
    → float_gt speed zero_float ≡ true
    → compute_eta ops order drone speed
      ≡ estimate ops speed order.destination (current_location order drone)
unfolding compute_eta current_location
compute_eta-current_location ops order drone speed fast =
    ground (arith, compute_eta-by_status ops order.status order drone speed)
