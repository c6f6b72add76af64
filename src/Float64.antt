-- ===== src/Float64.antt =====
-- Go's `float64` as its IEEE 754 bit pattern, a number below 2 ^ 64, with the comparisons of the
-- language on it. Arithmetic is not modelled here: `Eta` takes it as a parameter.
use drone_management_system.Base.{
  ℕ, ◌+◌, ◌/◌, ◌%◌, ◌^◌, ◌≡◌, refl, Bool, true, false, ltb, leb, if◌then◌else◌,
}

abbrev pub Float64 : Type 0
Float64 = ℕ

-- The sign bit, and the 63 bits of exponent and mantissa, which order the values of one sign.
abbrev pub magnitude : Float64 → ℕ
magnitude x = x % 2 ^ 63

abbrev pub is_negative : Float64 → Bool
is_negative x = leb 1 (x / 2 ^ 63)

-- Above the magnitude of infinity there are the patterns that are no number.
abbrev pub infinity : ℕ
infinity = 0x7FF0000000000000

abbrev pub is_nan : Float64 → Bool
is_nan x = ltb infinity (magnitude x)

-- The order of two patterns that are numbers; both zeros are equal.
abbrev pub signed_lt : Bool → ℕ → Bool → ℕ → Bool
signed_lt true m true n = ltb n m
signed_lt true m false n = ltb 0 (m + n)
signed_lt false m true n = false
signed_lt false m false n = ltb m n

-- `a < b`: false as soon as one side is no number.
unfoldable pub float_lt : Float64 → Float64 → Bool
float_lt a b =
    if is_nan a
    then false
    else if is_nan b
    then false
    else signed_lt (is_negative a) (magnitude a) (is_negative b) (magnitude b)

-- `a > b`
unfoldable pub float_gt : Float64 → Float64 → Bool
unfolding float_lt
float_gt a b = float_lt b a

-- The literals of the program.
abbrev pub zero_float : Float64
zero_float = 0

abbrev pub ninety : Float64
ninety = 0x4056800000000000

abbrev pub minus_ninety : Float64
minus_ninety = 0xC056800000000000

abbrev pub one_eighty : Float64
one_eighty = 0x4066800000000000

abbrev pub minus_one_eighty : Float64
minus_one_eighty = 0xC066800000000000

-- Negating a bound flips its sign bit and keeps its magnitude.
bounds_symmetric :
    (magnitude minus_ninety ≡ magnitude ninety)
    × (magnitude minus_one_eighty ≡ magnitude one_eighty)
bounds_symmetric = (refl, refl)
