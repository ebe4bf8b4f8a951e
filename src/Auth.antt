-- ===== src/Auth.antt =====
-- internal/auth/auth_client.go: NewClient and the round tripper that adds the token, and the client
-- that goa generates, which sends its requests through it.
pub mod Requests
use fabric8_jenkins_idler.Common.{
  String, ◌==◌, ◌<>◌, Option, none, some, Result, ok, err, if◌then◌else◌,
}

-- the fields of a `url.URL` that NewClient reads
pub record Url : Type 0 where
  pub scheme : String
  pub host : String

-- the generated client by its fields Scheme, Host and JWTSigner (by the signer's token), and the token
-- of its `doer`
pub record Client : Type 0 where
  pub scheme : String
  pub host : String
  pub jwt_signer : Option String
  pub token : String

abbrev pub client_of : String → Result Url → Result Client
client_of token (err e) = err e
client_of token (ok u) =
    ok (record { scheme = u.scheme; host = u.host; jwt_signer = none; token = token })

-- NewClient, whose options are never given. `parse` is url.Parse.
unfoldable pub new_client : (String → Result Url) → String → String → Result Client
new_client parse auth_url token = client_of token (parse auth_url)

-- the header Authorization that `Do` sets
unfoldable pub authorization : Client → Option String
authorization c = if c.token == "" then none else some ("Bearer " <> c.token)

-- SetJWTSigner, with a signer for a token
abbrev pub set_jwt_signer : String → Client → Client
set_jwt_signer token c = record c { jwt_signer = some token }

-- the scheme of a request
abbrev pub scheme_of : Client → String
scheme_of c = if c.scheme == "" then "http" else c.scheme
