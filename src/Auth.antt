-- ===== src/Auth.antt =====
-- server/auth/verifier.go, jwtverifier.go and config.go: endpoint tokens.
use pico.Prelude.{
  ℕ, GoString, codes, Bool, true, false, ◌||◌, not, List, [], ◌∷◌, ◌++◌, Option, none, some,
  str_dec, if◌then◌else◌,
}
use pico.Gossip.Types.{Time}
pub mod Keys

pub record EndpointToken : Type 0 where
  pub expiry : Time
  pub endpoints : List GoString

is_listed : GoString → List GoString → Bool
is_listed endpoint_id [] = false
is_listed endpoint_id (id ∷ ids) = elim (str_dec endpoint_id id) [
  | yes p ↦ true
  | no ne ↦ is_listed endpoint_id ids
]

-- `EndpointPermitted`
unfoldable pub endpoint_permitted : EndpointToken → GoString → Bool
unfolding is_listed
endpoint_permitted t endpoint_id = elim t.endpoints [
  | [] ↦ true
  | id ∷ ids ↦ is_listed endpoint_id (id ∷ ids)
]

-- `ErrInvalidToken` and `ErrExpiredToken`, and any other error of a verifier.
pub data VerifyError : Type 0 where
  invalid_token expired_token other_error : VerifyError

pub data Verified : Type 0 where
  verified : EndpointToken → Verified
  rejected : VerifyError → Verified

-- `Config`
pub record Config : Type 0 where
  pub token_hmac_secret_key : GoString
  pub token_rsa_public_key : GoString
  pub token_ecdsa_public_key : GoString
  pub token_audience : GoString
  pub token_issuer : GoString

abbrev pub is_given : GoString → Bool
is_given [] = false
is_given (c ∷ s) = true

-- `AuthEnabled`
unfoldable pub auth_enabled : Config → Bool
auth_enabled c =
    is_given c.token_hmac_secret_key
    || is_given c.token_rsa_public_key
    || is_given c.token_ecdsa_public_key

-- The keys of `JWTVerifierConfig`; a nil pointer is `none`. A public key is known by a number.
pub record VerifierConfig : Type 0 where
  pub hmac_secret_key : GoString
  pub rsa_public_key : Option ℕ
  pub ecdsa_public_key : Option ℕ
  pub audience : GoString
  pub issuer : GoString

pub record JwtVerifier : Type 0 where
  pub hmac_secret_key : GoString
  pub rsa_public_key : Option ℕ
  pub ecdsa_public_key : Option ℕ
  pub audience : GoString
  pub issuer : GoString
  pub methods : List GoString

abbrev pub hmac_methods : List GoString
hmac_methods = codes "HS256" ∷ codes "HS384" ∷ codes "HS512" ∷ []

abbrev pub rsa_methods : List GoString
rsa_methods = codes "RS256" ∷ codes "RS384" ∷ codes "RS512" ∷ []

abbrev pub ecdsa_methods : List GoString
ecdsa_methods = codes "ES256" ∷ codes "ES384" ∷ codes "ES512" ∷ []

abbrev pub methods_if_some : Option ℕ → List GoString → List GoString
methods_if_some none ms = []
methods_if_some (some k) ms = ms

-- `NewJWTVerifier`
unfoldable pub new_jwt_verifier : VerifierConfig → JwtVerifier
new_jwt_verifier c = record {
  hmac_secret_key = if is_given c.hmac_secret_key then c.hmac_secret_key else [];
  rsa_public_key = c.rsa_public_key;
  ecdsa_public_key = c.ecdsa_public_key;
  audience = c.audience;
  issuer = c.issuer;
  methods =
      (if is_given c.hmac_secret_key then hmac_methods else [])
      ++ (methods_if_some c.rsa_public_key rsa_methods
          ++ methods_if_some c.ecdsa_public_key ecdsa_methods);
}

-- A key as the key function gives it; it may be nil.
pub data Key : Type 0 where
  hmac_key : GoString → Key
  rsa_key : Option ℕ → Key
  ecdsa_key : Option ℕ → Key

-- The key function: by the algorithm that the token names.
unfoldable pub key_for : JwtVerifier → GoString → Option Key
unfolding is_listed
key_for v alg =
    if is_listed alg hmac_methods
    then some (hmac_key v.hmac_secret_key)
    else if is_listed alg rsa_methods
    then some (rsa_key v.rsa_public_key)
    else if is_listed alg ecdsa_methods
    then some (ecdsa_key v.ecdsa_public_key)
    else none

-- The claims that are read of a token; 0 is no expiry.
pub record Claims : Type 0 where
  pub expires_at : Time
  pub endpoints : List GoString

-- What `jwt.ParseWithClaims` gives: the claims with the token's `Valid`, or an error.
pub data Parsed : Type 0 where
  parsed : Claims → Bool → Parsed
  parse_expired : Parsed
  parse_failed : Parsed

-- `jwt.ParseWithClaims` of github.com/golang-jwt/jwt/v5, with the options: the valid methods, and an
-- audience and an issuer where they are given.
abbrev pub Jwt : Type 0
Jwt =
    GoString → (GoString → Option Key) → List GoString → Option GoString → Option GoString → Parsed

abbrev pub if_given : GoString → Option GoString
if_given [] = none
if_given (c ∷ s) = some (c ∷ s)

-- `VerifyEndpointToken`
unfoldable pub verify_endpoint_token : Jwt → JwtVerifier → GoString → Verified
unfolding key_for
verify_endpoint_token jwt v token =
    elim (jwt token (key_for v) v.methods (if_given v.audience) (if_given v.issuer)) [
      | parse_expired ↦ rejected expired_token
      | parse_failed ↦ rejected invalid_token
      | parsed claims valid ↦
          if valid
          then verified (record { expiry = claims.expires_at; endpoints = claims.endpoints })
          else rejected invalid_token
    ]
