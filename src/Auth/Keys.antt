-- ===== src/Auth/Keys.antt =====
-- server/auth/jwtverifier.go: the key by which a token is verified.
use pico.Prelude.{◌≡◌, ◌≢◌, GoString, true, List, [], Option, none, some, Elem}
use pico.Auth.{
  VerifierConfig, Key, hmac_key, rsa_key, ecdsa_key, Claims, parsed, Jwt, hmac_methods, rsa_methods,
  ecdsa_methods,
}

-- A token that parses was signed by one of the valid methods, with the key for that method.
pub record IsJwt (jwt : Jwt) (IsSigned : GoString → GoString → Key → Type 0) : Type 0 where
  pub signed :
      (token : GoString) (keys : GoString → Option Key) (methods : List GoString)
      (audience issuer : Option GoString) (claims : Claims)
      → jwt token keys methods audience issuer ≡ parsed claims true
      → (alg : GoString) × (key : Key) × Elem alg methods
        × (keys alg ≡ some key)
        × IsSigned token alg key

-- A key of the configuration that is given, with the methods that it is for.
abbrev pub IsConfigured : VerifierConfig → GoString → Key → Type 0
IsConfigured c alg (hmac_key k) =
    (k ≡ c.hmac_secret_key) × (c.hmac_secret_key ≢ []) × Elem alg hmac_methods
IsConfigured c alg (rsa_key none) = ⊥
IsConfigured c alg (rsa_key (some k)) = (c.rsa_public_key ≡ some k) × Elem alg rsa_methods
IsConfigured c alg (ecdsa_key none) = ⊥
IsConfigured c alg (ecdsa_key (some k)) = (c.ecdsa_public_key ≡ some k) × Elem alg ecdsa_methods
