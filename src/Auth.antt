-- ===== src/Auth.antt =====
-- internal/auth/auth.go. The JWT library is an argument; text is a sequence of code points.
pub mod Bearer
pub mod Tokens
use Prim.Native.Char.{Char, code}
use drone_management_system.Domain.{Time}
use drone_management_system.Base.{
  ◌≤◌, ◌/◌, ◌*◌, String, ℕ, ◌+◌, Bool, true, false, not, ◌&&◌, ◌||◌, Option, none, some, leb,
  if◌then◌else◌,
}

-- `Claims`, with the registered claims that the program sets.
pub record Claims : Type 0 where
  pub role : String
  pub subject : String
  pub issued_at : Time
  pub expires_at : Time

pub record Authenticator : Type 0 where
  pub secret : String
  pub ttl : Time

-- The method of signature that the header of a token names.
pub data SigningMethod : Type 0 where
  hs256 other_method : SigningMethod

-- What a parse gives: the claims, and whether the library found the token valid.
pub record ParsedToken : Type 0 where
  pub claims : Claims
  pub valid : Bool

-- `NewNumericDate`, `SignedString` and `ParseWithClaims` of the library; the first truncates a time to
-- the precision of the library, the last asks for the key by the method of the token and reads the
-- clock. `none` is an error.
pub record Jwt : Type 0 where
  pub new_numeric_date : Time → Time
  pub signed_string : SigningMethod → Claims → String → Option String
  pub parse_with_claims : String → (SigningMethod → Option String) → Time → Option ParsedToken

-- The function that hands the library the key.
abbrev pub key_for : String → SigningMethod → Option String
key_for secret hs256 = some secret
key_for secret other_method = none

abbrev if_valid_token : Option ParsedToken → Option Claims
if_valid_token none = none
if_valid_token (some parsed) = if parsed.valid then some parsed.claims else none

module _ (jwt : Jwt) (a : Authenticator) where
  abbrev pub issued : String → String → Time → Claims
  issued name role now = record {
    role = role;
    subject = name;
    issued_at = jwt.new_numeric_date now;
    expires_at = jwt.new_numeric_date (now + a.ttl);
  }

  abbrev with_expiry : Option String → Time → Option (String × Time)
  with_expiry none exp = none
  with_expiry (some str) exp = some (str, exp)

  unfoldable pub issue_token : String → String → Time → Option (String × Time)
  issue_token name role now =
      with_expiry (jwt.signed_string hs256 (issued name role now) a.secret) (now + a.ttl)

  unfoldable pub parse_token : String → Time → Option Claims
  parse_token token now = if_valid_token (jwt.parse_with_claims token (key_for a.secret) now)

-- `strings.TrimSpace`: the code points that Unicode calls white space.
abbrev pub in_range : ℕ → ℕ → ℕ → Bool
in_range lo hi c = leb lo c && leb c hi

unfoldable pub is_space : Char → Bool
is_space c =
    in_range 9 13 (code c)
    || in_range 32 32 (code c)
    || in_range 0x85 0x85 (code c)
    || in_range 0xA0 0xA0 (code c)
    || in_range 0x1680 0x1680 (code c)
    || in_range 0x2000 0x200A (code c)
    || in_range 0x2028 0x2029 (code c)
    || in_range 0x202F 0x202F (code c)
    || in_range 0x205F 0x205F (code c)
    || in_range 0x3000 0x3000 (code c)

unfoldable pub trim_left : String → String
unfolding is_space
trim_left String.[] = String.[]
trim_left (String.◌∷◌ c s) = if is_space c then trim_left s else String.◌∷◌ c s

-- A last character is kept unless it and all behind it are spaces.
abbrev keep_unless_last : Bool → Char → String → String
keep_unless_last true c String.[] = String.[]
keep_unless_last true c (String.◌∷◌ d s) = String.◌∷◌ c (String.◌∷◌ d s)
keep_unless_last false c s = String.◌∷◌ c s

unfoldable pub trim_right : String → String
unfolding is_space
trim_right String.[] = String.[]
trim_right (String.◌∷◌ c s) = keep_unless_last (is_space c) c (trim_right s)

unfoldable pub trim_space : String → String
unfolding trim_left trim_right
trim_space s = trim_right (trim_left s)

-- `strings.SplitN(s, " ", 2)`: the parts before and behind the first blank, where there is one.
abbrev is_blank : Char → Bool
is_blank c = in_range 32 32 (code c)

abbrev behind : Char → Option (String × String) → Option (String × String)
behind c none = none
behind c (some (a, b)) = some (String.◌∷◌ c a, b)

unfoldable pub split_blank : String → Option (String × String)
split_blank String.[] = none
split_blank (String.◌∷◌ c s) = if is_blank c then some (String.[], s) else behind c (split_blank s)

-- `strings.EqualFold`; no letter of "Bearer" has a case outside of ASCII.
unfoldable pub lower : ℕ → ℕ
lower c = if in_range 65 90 c then c + 32 else c

unfoldable pub equal_fold : String → String → Bool
unfolding lower
equal_fold String.[] String.[] = true
equal_fold String.[] (String.◌∷◌ d t) = false
equal_fold (String.◌∷◌ c s) String.[] = false
equal_fold (String.◌∷◌ c s) (String.◌∷◌ d t) =
    leb (lower (code c)) (lower (code d)) && leb (lower (code d)) (lower (code c)) && equal_fold s t

abbrev token_of : Option (String × String) → String
token_of none = ""
token_of (some (scheme, rest)) = if not (equal_fold scheme "Bearer") then "" else trim_space rest

unfoldable pub extract_bearer_token : String → String
unfolding split_blank equal_fold trim_space
extract_bearer_token header = token_of (split_blank header)

-- `ContextWithClaims` and `ClaimsFromContext`: a context holds one value under the key, or none.
pub record Context : Type 0 where
  pub claims : Option Claims

unfoldable pub context_with_claims : Context → Claims → Context
context_with_claims ctx claims = record ctx { claims = some claims }

unfoldable pub claims_from_context : Context → Option Claims
claims_from_context ctx = ctx.claims
