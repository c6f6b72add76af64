-- ===== src/Auth/Tokens.antt =====
-- `IssueToken` and `ParseToken` of internal/auth/auth.go, and what the JWT library documents.
use drone_management_system.Domain.{Time}
use drone_management_system.Auth.{
  key_for, issued, SigningMethod, Authenticator, Claims, Jwt, parse_token, hs256,
}
use drone_management_system.Base.{
  ◌≤◌, false, true, Bool-cases, ltb, ◌+◌, Option, if◌then◌else◌, String, inl, inr, none, some,
  arith, ◌≡◌, refl,
}
use drone_management_system.Auth.{issue_token}

-- The dates of the claims are numeric dates of the library: a token holds them as they are.
pub record HasNumericDates (jwt : Jwt) (claims : Claims) : Type 0 where
  pub issued_date : jwt.new_numeric_date claims.issued_at ≡ claims.issued_at
  pub expiry_date : jwt.new_numeric_date claims.expires_at ≡ claims.expires_at

-- What the JWT library documents: a numeric date is a time that is truncated, and a signed token with
-- such dates parses, with the same key and until it expires, to the claims that were signed, and is an
-- error from then on.
pub record IsFaithful (jwt : Jwt) : Type 0 where
  pub truncated :
      (t : Time) → jwt.new_numeric_date (jwt.new_numeric_date t) ≡ jwt.new_numeric_date t
  pub no_later : (t : Time) → jwt.new_numeric_date t ≤ t
  pub live :
      (claims : Claims) (secret token : String) (keys : SigningMethod → Option String) (now : Time)
      → HasNumericDates jwt claims
      → jwt.signed_string hs256 claims secret ≡ some token
      → keys hs256 ≡ some secret
      → ltb now claims.expires_at ≡ true
      → jwt.parse_with_claims token keys now ≡ some (record { claims = claims; valid = true })
  pub expired :
      (claims : Claims) (secret token : String) (keys : SigningMethod → Option String) (now : Time)
      → HasNumericDates jwt claims
      → jwt.signed_string hs256 claims secret ≡ some token
      → keys hs256 ≡ some secret
      → ltb now claims.expires_at ≡ false
      → jwt.parse_with_claims token keys now ≡ none

pub issued_signed :
    (jwt : Jwt) (a : Authenticator) (name role token : String) (now exp : Time)
    → issue_token jwt a name role now ≡ some (token, exp)
    → (jwt.signed_string hs256 (issued jwt a name role now) a.secret ≡ some token)
      × (exp ≡ now + a.ttl)
unfolding issue_token
issued_signed jwt a name role token now exp h = (ground arith, ground arith)

issued-HasNumericDates :
    (jwt : Jwt) (a : Authenticator) (name role : String) (now : Time)
    → IsFaithful jwt
    → HasNumericDates jwt (issued jwt a name role now)
issued-HasNumericDates jwt a name role now faithful = record {
  issued_date = faithful.truncated now;
  expiry_date = faithful.truncated (now + a.ttl);
}

-- With a library that is faithful, an issued token gives the claims of its name and role until the
-- numeric date of its expiry, and no claims from then on. The expiry that is answered is the time
-- of issue and the time to live, which that date is not after.
pub parse_token-issue_token :
    (jwt : Jwt) (a : Authenticator) (name role token : String) (now exp later : Time)
    → IsFaithful jwt
    → issue_token jwt a name role now ≡ some (token, exp)
    → (parse_token jwt a token later ≡ (
        if ltb later (jwt.new_numeric_date exp) then some (issued jwt a name role now) else none))
      × (exp ≡ now + a.ttl)
      × (jwt.new_numeric_date exp ≤ exp)
unfolding parse_token
parse_token-issue_token jwt a name role token now exp later faithful h =
    let (signed, e) = issued_signed jwt a name role token now exp h in
    let claims = issued jwt a name role now in
    let dates = issued-HasNumericDates jwt a name role now faithful in
    (
      rw e (elim (Bool-cases (ltb later (jwt.new_numeric_date (now + a.ttl)))) [
        | inl t ↦
            rw (t, faithful.live claims a.secret token (key_for a.secret) later dates signed refl t)
              refl
        | inr t ↦
            rw
              (
                t,
                faithful.expired claims a.secret token (key_for a.secret) later dates signed refl t,
              )
              refl
      ]),
      e,
      faithful.no_later exp,
    )
