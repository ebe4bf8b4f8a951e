-- ===== src/Tokens/Decode.antt =====
-- internal/token/decode.go: the tokens of the clusters are encrypted with a passphrase. The packages
-- base64 and openpgp are arguments.
use fabric8_jenkins_idler.Common.{ℕ, zero, suc, String, Result, ok, err, ◌>>=◌}

-- A Decode function
abbrev pub Decode : Type 0
Decode = String → Result String

-- PlainText
unfoldable pub plain_text : Decode
plain_text token = ok token

-- the answer to the `n`-th call of the prompt, from 0: `firstCall` is true in the first one
unfoldable pub prompt : String → ℕ → Result String
prompt passphrase zero = ok passphrase
prompt passphrase (suc n) = err "unable to decrypt token with given key"

-- base64.StdEncoding.DecodeString, and openpgp.ReadMessage at a prompt together with the reading of
-- the body of its message
pub record Pgp : Type 0 where
  pub decode_base64 : String → Result String
  pub read_message : String → (ℕ → Result String) → Result (Result String)

abbrev opened : Result (Result String) → Result String
opened (err e) = err e
opened (ok body) = body

-- pgpDecryptToken
unfoldable pub pgp_decrypt_token : Pgp → String → String → Result String
unfolding prompt
pgp_decrypt_token p base64_body passphrase =
    p.decode_base64 base64_body >>= λ enc. opened (p.read_message enc (prompt passphrase))

-- NewPGPDecrypter
unfoldable pub new_pgp_decrypter : Pgp → String → Decode
unfolding pgp_decrypt_token
new_pgp_decrypter p passphrase body = pgp_decrypt_token p body passphrase
