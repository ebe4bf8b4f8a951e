-- ===== src/OpenshiftClient/Unchecked.antt =====
-- What Idle does with the answer to its first patch.
use fabric8_jenkins_idler.Common.{
  String, ◌<>◌, nat_beq, false, List, Result, ok, err, Result-cases, Option-cases, Bool-cases, ◌≡◌,
  inl, inr, arith,
}
use fabric8_jenkins_idler.Model.{Endpoint}
use fabric8_jenkins_idler.OpenshiftClient.Requests.{Request, Server, request_url}
use fabric8_jenkins_idler.OpenshiftClient.Calls.{idle}
use fabric8_jenkins_idler.OpenshiftClient.Scaling.{endpoint_patch}

-- a decoder's answer without its value
abbrev pub succeeds : {A : Type 0} → Result A → Result (Unit {0})
succeeds (ok a) = ok tt
succeeds (err e) = err e

module _ (srv : Server) (api_url bearer_token namespace service : String)
    (before : List Request) where
  -- Idle does not look at the endpoint that OpenShift answers with: with any other decoder that
  -- fails on the same answers with the same errors, it returns the same and sends the same requests.
  pub idle_ignores_endpoint :
      (decode : String → Result Endpoint)
      → ((b : String) → succeeds (decode b) ≡ succeeds (srv.decode_endpoint b))
      → idle (record srv { decode_endpoint = decode }) api_url bearer_token namespace service before
        ≡ idle srv api_url bearer_token namespace service before
  unfolding idle
  idle_ignores_endpoint decode same = elim (Result-cases (srv.now_text before)) [
    | inr (e, bad) ↦ rw bad
    | inl (t, timed) ↦
        elim (Option-cases (
          srv.new_request "PATCH"
            (request_url api_url false namespace ("endpoints/" <> service)))) [
              | inr (e, bad) ↦ rw (timed, bad)
              | inl good ↦
                  elim (Result-cases (
                    srv.respond before (endpoint_patch api_url bearer_token namespace service t))) [
                      | inr (e, bad) ↦ rw (timed, good, bad)
                      | inl (resp, answered) ↦ elim (Bool-cases (nat_beq resp.status_code 200)) [
                        | inr refused ↦ rw (timed, good, answered, refused)
                        | inl fine ↦ elim (Result-cases resp.body) [
                          | inr (e, bad) ↦ rw (timed, good, answered, fine, bad)
                          | inl (b, read) ↦ elim (Result-cases (decode b)) [
                            | inr (e, bad) ↦ elim (Result-cases (srv.decode_endpoint b)) [
                              | inr (f, worse) ↦
                                  let same_error : e ≡ f = ground (arith, same b) in
                                  rw (timed, good, answered, fine, read, bad, worse, same_error)
                              | inl (y, read_too) ↦ absurd (ground (arith, same b))
                            ]
                            | inl (x, decoded) ↦ elim (Result-cases (srv.decode_endpoint b)) [
                              | inr (f, worse) ↦ absurd (ground (arith, same b))
                              | inl (y, read_too) ↦
                                  rw (timed, good, answered, fine, read, decoded, read_too)
                            ]
                          ]
                        ]
                      ]
                    ]
            ]
  ]
