-- ===== src/Domain.antt =====
-- internal/domain: domain.go, errors.go and validate.go. The statuses are the constants that the
-- service writes; their texts are what the database and the responses hold. A `time.Time` is the
-- number of microseconds since 1970 in UTC, which is what a column of type `timestamptz` keeps of it.
-- A nil pointer is `none`.
pub mod Locations
use drone_management_system.Base.{
  ℕ, Option, none, some, Bool, true, false, ◌≡◌, refl, ◌||◌, String, ◌==◌, if◌then◌else◌,
}
use drone_management_system.Float64.{
  Float64, float_lt, float_gt, ninety, minus_ninety, one_eighty, minus_one_eighty,
}

abbrev pub role_admin : String
role_admin = "admin"

abbrev pub role_end_user : String
role_end_user = "enduser"

abbrev pub role_drone : String
role_drone = "drone"

pub data OrderStatus : Type 0 where
  created reserved picked_up handoff_requested delivered failed withdrawn : OrderStatus

pub data DroneStatus : Type 0 where
  active broken : DroneStatus

-- `string(status)`
unfoldable pub order_status_text : OrderStatus → String
order_status_text created = "CREATED"
order_status_text reserved = "RESERVED"
order_status_text picked_up = "PICKED_UP"
order_status_text handoff_requested = "HANDOFF_REQUESTED"
order_status_text delivered = "DELIVERED"
order_status_text failed = "FAILED"
order_status_text withdrawn = "WITHDRAWN"

unfoldable pub drone_status_text : DroneStatus → String
drone_status_text active = "ACTIVE"
drone_status_text broken = "BROKEN"

-- `==` on statuses.
abbrev pub same_status : OrderStatus → OrderStatus → Bool
same_status created created = true
same_status reserved reserved = true
same_status picked_up picked_up = true
same_status handoff_requested handoff_requested = true
same_status delivered delivered = true
same_status failed failed = true
same_status withdrawn withdrawn = true
same_status _ _ = false

abbrev pub is_broken : DroneStatus → Bool
is_broken broken = true
is_broken active = false

abbrev pub Time : Type 0
Time = ℕ

pub record Location : Type 0 where
  pub lat : Float64
  pub lng : Float64

pub record Order : Type 0 where
  pub id : String
  pub user_id : String
  pub origin : Location
  pub destination : Location
  pub status : OrderStatus
  pub assigned_drone_id : Option String
  pub handoff_origin : Option Location
  pub created_at : Time
  pub updated_at : Time
  pub reserved_at : Option Time
  pub picked_up_at : Option Time
  pub delivered_at : Option Time
  pub failed_at : Option Time
  pub failure_reason : Option String

pub record Drone : Type 0 where
  pub id : String
  pub status : DroneStatus
  pub last_location : Option Location
  pub last_heartbeat_at : Option Time
  pub current_order_id : Option String
  pub created_at : Time
  pub updated_at : Time

unfoldable pub is_terminal : OrderStatus → Bool
is_terminal delivered = true
is_terminal failed = true
is_terminal withdrawn = true
is_terminal _ = false

-- The sentinels of errors.go.
pub data Sentinel : Type 0 where
  not_found conflict invalid unauthorized forbidden no_job precondition : Sentinel

-- An error value: a sentinel, a text of `fmt.Errorf` with `%w` round another error, a text alone,
-- or an error of the database driver.
pub data Error : Type 0 where
  sentinel : Sentinel → Error
  wrapped : String → Error → Error
  message : String → Error
  driver : Error

abbrev pub same_sentinel : Sentinel → Sentinel → Bool
same_sentinel not_found not_found = true
same_sentinel conflict conflict = true
same_sentinel invalid invalid = true
same_sentinel unauthorized unauthorized = true
same_sentinel forbidden forbidden = true
same_sentinel no_job no_job = true
same_sentinel precondition precondition = true
same_sentinel _ _ = false

-- `errors.Is(err, target)` for a sentinel as target.
abbrev pub errors_is : Error → Sentinel → Bool
errors_is (sentinel s) t = same_sentinel s t
errors_is (wrapped _ e) t = errors_is e t
errors_is (message _) t = false
errors_is driver t = false

-- `ValidateLocation`: `none` is the nil error.
unfoldable pub validate_location : Location → Option Error
validate_location loc =
    if float_lt loc.lat minus_ninety || float_gt loc.lat ninety
    then some (message "lat out of range")
    else if float_lt loc.lng minus_one_eighty || float_gt loc.lng one_eighty
    then some (message "lng out of range")
    else none

-- `ValidateRole`
unfoldable pub validate_role : String → Bool
validate_role role = role == role_admin || (role == role_end_user || role == role_drone)
