-- ===== src/Condition/Proxied.antt =====
-- When the user condition, which asks the Jenkins proxy, wants which action.
use fabric8_jenkins_idler.Common.{
  GoError, ◌<>◌, ◌<◌, pos, ltb_ℤ, ◌≤ℤ◌, none, some, ok, err, OnOk, Result-cases, Bool-cases, Time,
  add_duration, after, unix, ◌≡◌, ◌⊎◌, inl, inr, ap, ◌∙◌, arith,
}
use fabric8_jenkins_idler.Model.{User}
use fabric8_jenkins_idler.Condition.Defs.{
  no_action, idle, un_idle, user, UserCondition, ProxyResponse, Outside, get_proxy_response,
  proxy_action, user_eval,
}

module _ (o : Outside) (c : UserCondition) (now : Time) (u : User) where
  -- The proxy has no buffered request, and the last visit and the last request are both longer ago
  -- than `idle_after`.
  abbrev pub IsUnused : ProxyResponse → Type 0
  IsUnused r =
      (r.requests ≤ℤ pos 0)
      × (add_duration (unix r.last_visit) c.idle_after < now)
      × (add_duration (unix r.last_request) c.idle_after < now)

  -- the proxy's answer for the user's Jenkins
  abbrev pub Answered : ProxyResponse → Type 0
  Answered r =
      OnOk (o.http_get (c.proxy_url <> ("/api/info/" <> (u.name <> "-jenkins"))))
        (λ resp. (resp.status_code ≡ 200) × OnOk resp.body (λ b. o.unmarshal b ≡ ok r))

  proxy_action_cases :
      (r : ProxyResponse)
      → (IsUnused r × (proxy_action c now r ≡ idle))
        ⊎ ((¬ IsUnused r) × (proxy_action c now r ≡ un_idle))
  unfolding proxy_action
  proxy_action_cases r = elim (Bool-cases (ltb_ℤ (pos 0) r.requests)) [
    | inl e ↦ inr ((λ q. ground arith), rw e)
    | inr e ↦ elim (Bool-cases (after now (add_duration (unix r.last_visit) c.idle_after))) [
      | inr f ↦ inr ((λ q. ground arith), rw (e, f))
      | inl f ↦ elim (Bool-cases (after now (add_duration (unix r.last_request) c.idle_after))) [
        | inl g ↦ inl ((ground arith, ground arith, ground arith), rw (e, f, g))
        | inr g ↦ inr ((λ q. ground arith), rw (e, f, g))
      ]
    ]
  ]

  answer : (r : ProxyResponse) → get_proxy_response o c u.name ≡ ok r → Answered r
  unfolding get_proxy_response
  answer r h = ground arith

  -- The user condition either fails, with no action and the error of the request, of its status or of
  -- its decoding; or the proxy answered with status 200 and an answer that can be decoded, and the
  -- condition wants to idle if Jenkins is unused by this answer, and to un-idle if it is not.
  pub user_eval_cases :
      ((e : GoError) × (get_proxy_response o c u.name ≡ err e)
        × (user_eval o c now (user u) ≡ (no_action, some e)))
      ⊎ ((r : ProxyResponse) × Answered r
          × ((IsUnused r × (user_eval o c now (user u) ≡ (idle, none)))
              ⊎ ((¬ IsUnused r) × (user_eval o c now (user u) ≡ (un_idle, none)))))
  unfolding user_eval
  user_eval_cases = elim (Result-cases (get_proxy_response o c u.name)) [
    | inr (e, bad) ↦ inl (e, bad, rw (bad, user_eval))
    | inl (r, fine) ↦
        let v : user_eval o c now (user u) ≡ (proxy_action c now r, none) = rw (fine, user_eval) in
        inr (
          r,
          answer r fine,
          elim (proxy_action_cases r) [
            | inl (q, a) ↦ inl (q, v ∙ ap (λ x. (x, none)) a)
            | inr (q, a) ↦ inr (q, v ∙ ap (λ x. (x, none)) a)
          ],
        )
  ]
