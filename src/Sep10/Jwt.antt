-- ===== src/Sep10/Jwt.antt =====
-- sep10/src/client/jwt.ts: the token that a server returns, and its claims.
use colibri.Common.{
  ℕ, ◌-◌, ◌*◌, ◌%◌, Bool, false, Option, none, some, List, [], ◌∷◌, ◌++◌, map, Text, length,
  replicate, Result, ok, err, ◌==◌, if◌then◌else◌, ltb,
}
use colibri.EventId.{split}

-- The claims that the getters read; times are whole seconds.
pub record Claims : Type 0 where
  pub sub : Option Text
  pub iss : Option Text
  pub exp : Option ℕ
  pub iat : Option ℕ

pub record Jwt : Type 0 where
  pub token : Text
  pub claims : Claims

-- `INVALID_JWT`, with the token.
pub data JwtError : Type 0 where
  wrong_parts : Text → ℕ → JwtError
  undecodable : Text → JwtError

-- `atob` and `JSON.parse`, which may throw.
pub record Decoding : Type 0 where
  pub atob : Text → Option Text
  pub parse_claims : Text → Option Claims

-- `str.replace(/-/g, "+").replace(/_/g, "/")`, a character at a time.
unfoldable pub standard_char : ℕ → ℕ
standard_char c = if c == b'-' then b'+' else if c == b'_' then b'/' else c

unfoldable pub pad_base64 : Text → Text
pad_base64 s = s ++ replicate ((4 - length s % 4) % 4) b'='

unfoldable pub base64url_decode : Decoding → Text → Option Text
base64url_decode d s = d.atob (pad_base64 (map standard_char s))

module _ (d : Decoding) where
  abbrev parse_if : Option Text → Option Claims
  parse_if none = none
  parse_if (some json) = d.parse_claims json

  abbrev with_claims : Text → Option Claims → Result JwtError Jwt
  with_claims token none = err (undecodable token)
  with_claims token (some claims) = ok (record { token = token; claims = claims })

  abbrev from_parts : Text → List Text → Result JwtError Jwt
  from_parts token (header ∷ payload ∷ signature ∷ []) =
      with_claims token (parse_if (base64url_decode d payload))
  from_parts token parts = err (wrong_parts token (length parts))

  unfoldable pub from_token : Text → Result JwtError Jwt
  from_token token = from_parts token (split b'.' token)

-- The milliseconds of `new Date(seconds * 1000)`.
abbrev milliseconds : Option ℕ → Option ℕ
milliseconds none = none
milliseconds (some seconds) = some (seconds * 1000)

abbrev pub expires_at : Jwt → Option ℕ
expires_at jwt = milliseconds jwt.claims.exp

abbrev pub issued_at : Jwt → Option ℕ
issued_at jwt = milliseconds jwt.claims.iat

abbrev is_past : ℕ → Option ℕ → Bool
is_past clock none = false
is_past clock (some expiry) = ltb expiry clock

abbrev pub jwt_is_expired : ℕ → Jwt → Bool
jwt_is_expired clock jwt = is_past clock (expires_at jwt)
