-- ===== src/Http.antt =====
-- What the source takes from `net/http`: the request that it builds and the response that it reads.
-- The server and the network are arguments of the functions that send a request.
use fabric8_jenkins_idler.Common.{String, ℕ, Result}

pub record Response : Type 0 where
  pub status_code : ℕ
  pub status : String
  -- the body as `ioutil.ReadAll` gives it
  pub body : Result String

abbrev pub status_ok : ℕ
status_ok = 200
