-- ===== src/Auth/Bearer.antt =====
-- `ExtractBearerToken` of internal/auth/auth.go on the headers that clients send.
use Prim.Native.Char.{code}
use Prim.Native.String.{◌++◌}
use text.Mathlib.TextLemmas.{nil-append, cons-append}
use drone_management_system.Base.{
  Bool-cases, ◌&&◌, not, false, if◌then◌else◌, Bool, true, String, inl, inr, none, some, arith, ◌≡◌,
  refl,
}
use drone_management_system.Auth.{
  equal_fold, is_space, split_blank, trim_right, trim_left, trim_space, in_range,
  extract_bearer_token,
}

-- A text without white space.
unfoldable pub no_space : String → Bool
no_space String.[] = true
no_space (String.◌∷◌ c s) = not (is_space c) && no_space s

unfoldable pub no_blank : String → Bool
no_blank String.[] = true
no_blank (String.◌∷◌ c s) = not (in_range 32 32 (code c)) && no_blank s

trim_left-no_space : (s : String) → no_space s ≡ true → trim_left s ≡ s
unfolding no_space trim_left
trim_left-no_space String.[] h = refl
trim_left-no_space (String.◌∷◌ c s) h = ground arith

trim_right-no_space : (s : String) → no_space s ≡ true → trim_right s ≡ s
unfolding no_space trim_right
trim_right-no_space String.[] h = refl
trim_right-no_space (String.◌∷◌ c s) h =
    rw (trim_right-no_space s (ground arith))
      (let e : is_space c ≡ false = ground arith in rw e refl)

trim_space-no_space : (s : String) → no_space s ≡ true → trim_space s ≡ s
unfolding trim_space
trim_space-no_space s h = rw (trim_left-no_space s h) (trim_right-no_space s h)

split_blank-append :
    (s t : String) → no_blank s ≡ true → split_blank (s ++ String.◌∷◌ " " t) ≡ some (s, t)
unfolding no_blank split_blank
split_blank-append String.[] t h = rw (nil-append (String.◌∷◌ " " t)) refl
split_blank-append (String.◌∷◌ c s) t h = rw (cons-append c s (String.◌∷◌ " " t)) (
    rw (split_blank-append s t (ground arith))
      (let e : in_range 32 32 (code c) ≡ false = ground arith in rw e refl))

split_blank-none : (s : String) → no_blank s ≡ true → split_blank s ≡ none
unfolding no_blank split_blank
split_blank-none String.[] h = refl
split_blank-none (String.◌∷◌ c s) h = ground (arith, split_blank-none s)

-- A header of two parts, a scheme without blanks and a token without white space, gives the token
-- if the scheme is "Bearer" in any case, and none otherwise; a header without a blank gives none.
pub extract_bearer_token-parts :
    (scheme token : String)
    → no_blank scheme ≡ true
    → no_space token ≡ true
    → (extract_bearer_token (scheme ++ String.◌∷◌ " " token)
        ≡ (if equal_fold scheme "Bearer" then token else ""))
      × (extract_bearer_token scheme ≡ "")
unfolding extract_bearer_token
extract_bearer_token-parts scheme token h k = (
  rw (split_blank-append scheme token h) (elim (Bool-cases (equal_fold scheme "Bearer")) [
    | inl e ↦ rw e (trim_space-no_space token k)
    | inr e ↦ rw e refl
  ]),
  rw (split_blank-none scheme h) refl,
)
