-- ===== src/Cluster/Refused.antt =====
-- When ValidateResponse panics: it reads three fields of an error that may be nil.
use fabric8_jenkins_idler.Common.{
  String, Option, none, some, List, [], ◌∷◌, Result, ok, err, crashes, nil_dereference, Any, ◌≡◌,
  ◌≢◌, ◌↔◌, ◌⊎◌, refl, arith,
}
use fabric8_jenkins_idler.Http.{Response}
use fabric8_jenkins_idler.Cluster.{
  JsonApiError, error_text, described, decoded_error, validate_response,
}

-- an error with no title, no status or no code
abbrev pub IsIncomplete : JsonApiError → Type 0
IsIncomplete e = (e.title ≡ none) ⊎ (e.status ≡ none) ⊎ (e.code ≡ none)

error_text-none : (es : List JsonApiError) → error_text es ≡ none → Any IsIncomplete es
unfolding error_text
error_text-none [] h = cc
error_text-none (e ∷ es) h = ground (arith, error_text-none es)

none_text : (es : List JsonApiError) → Any IsIncomplete es → error_text es ≡ none
unfolding error_text
none_text [] h = absurd h
none_text (e ∷ es) h = ground (arith, none_text es)

-- The answer is neither good nor a 404, and its errors are decoded to a list in which one lacks its
-- title, its status or its code.
abbrev pub IsRefused : (Response → Result (List JsonApiError)) → Response → Type 0
IsRefused decode_errors res =
    (res.status_code ≢ 200)
    × (res.status_code ≢ 404)
    × ((es : List JsonApiError) × (decode_errors res ≡ ok es) × Any IsIncomplete es)

described-crashes : (o : Option String) (x : String) → described o ≡ crashes x → o ≡ none
described-crashes none x h = refl
described-crashes (some t) x h = cc

decoded_crashes :
    (es : List JsonApiError) → Any IsIncomplete es → decoded_error (ok es) ≡ crashes nil_dereference
decoded_crashes [] h = absurd h
decoded_crashes (e ∷ es) h = rw (none_text (e ∷ es) h)

crashes_decoded :
    (r : Result (List JsonApiError)) (x : String)
    → decoded_error r ≡ crashes x
    → (es : List JsonApiError) × (r ≡ ok es) × Any IsIncomplete es
crashes_decoded (err e) x h = cc
crashes_decoded (ok []) x h = cc
crashes_decoded (ok (e ∷ es)) x h =
    (e ∷ es, refl, error_text-none (e ∷ es) (described-crashes (error_text (e ∷ es)) x h))

module _ (decode_errors : Response → Result (List JsonApiError)) (res : Response) where
  -- ValidateResponse panics exactly on an answer that is neither good nor a 404, and whose errors hold
  -- one without a title, a status or a code.
  pub validate_response-crashes_iff :
      (validate_response decode_errors res ≡ crashes nil_dereference) ↔ IsRefused decode_errors res
  unfolding validate_response
  validate_response-crashes_iff = (
    λ h. (
      (λ (good : res.status_code ≡ 200). ground arith),
      (λ (missing : res.status_code ≡ 404). ground arith),
      crashes_decoded (decode_errors res) nil_dereference (ground arith),
    ),
    λ r. (let (es, decoded, lacks) = r.2 in let text = decoded_crashes es lacks in ground arith),
  )
