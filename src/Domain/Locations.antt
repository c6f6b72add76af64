-- ===== src/Domain/Locations.antt =====
-- What `ValidateLocation` of internal/domain/validate.go accepts, told by the bit patterns.
use drone_management_system.Base.{ℕ, ◌≤◌, ◌<◌, ◌≡◌, ◌↔◌, ◌⊎◌, none, false, arith, ◌||◌}
use drone_management_system.Float64.{
  Float64, float_lt, float_gt, magnitude, ninety, infinity, minus_ninety, one_eighty,
  minus_one_eighty,
}
use drone_management_system.Domain.{Location, validate_location}

-- A coordinate within a bound, on either side of zero, or no number at all.
abbrev pub IsWithin : ℕ → Float64 → Type 0
IsWithin bound x = (magnitude x ≤ magnitude bound) ⊎ (infinity < magnitude x)

module _ (x : Float64) where
  ninety-IsWithin : (float_lt x minus_ninety || float_gt x ninety) ≡ false → IsWithin ninety x
  unfolding float_lt float_gt
  ninety-IsWithin h = ground arith

  IsWithin-ninety : IsWithin ninety x → (float_lt x minus_ninety || float_gt x ninety) ≡ false
  unfolding float_lt float_gt
  IsWithin-ninety h = ground arith

  one_eighty-IsWithin :
      (float_lt x minus_one_eighty || float_gt x one_eighty) ≡ false → IsWithin one_eighty x
  unfolding float_lt float_gt
  one_eighty-IsWithin h = ground arith

  IsWithin-one_eighty :
      IsWithin one_eighty x → (float_lt x minus_one_eighty || float_gt x one_eighty) ≡ false
  unfolding float_lt float_gt
  IsWithin-one_eighty h = ground arith

-- A location passes exactly when the magnitude of its latitude is at most that of 90 or it is no
-- number, and likewise its longitude with 180.
pub validate_location_iff :
    (loc : Location)
    → (validate_location loc ≡ none) ↔ (IsWithin ninety loc.lat × IsWithin one_eighty loc.lng)
unfolding validate_location
validate_location_iff loc = (
  λ h. (ninety-IsWithin loc.lat (ground arith), one_eighty-IsWithin loc.lng (ground arith)),
  λ h. ground (arith, IsWithin-ninety loc.lat h.0, IsWithin-one_eighty loc.lng h.1),
)
