-- ===== src/Configuration/Verified.antt =====
-- When the configuration is accepted.
use mathlib.Core.Bool.{false≢true}
use fabric8_jenkins_idler.Common.{
  String, GoError, ◌==◌, eq_iff, ◌||◌, has_prefix, Bool, true, List, [], ◌∷◌, Option, none, some,
  All, ◌≡◌, ◌≢◌, ◌↔◌, inl, inr, refl, sym, ◌∙◌, arith, Bool-cases,
}
use fabric8_jenkins_idler.Util.{MultiError, collect, Setting, str, other, is_not_empty, is_url}
use fabric8_jenkins_idler.Configuration.{
  auth_url, auth_grant_type, verify_setting, verify_from, verify,
}

apart : auth_url ≢ auth_grant_type
apart e = false≢true ((eq_iff auth_url auth_grant_type).1 e)

collect-nil_iff :
    (e : Option GoError) (es : MultiError) → (collect e es ≡ []) ↔ ((es ≡ []) × (e ≡ none))
unfolding collect
collect-nil_iff none es = (λ h. (h, refl), λ h. h.0)
collect-nil_iff (some e) [] = (λ h. cc, λ h. cc h.1)
collect-nil_iff (some e) (x ∷ es) = (λ h. cc, λ h. cc h.1)

module _ (to_upper : String → String) (parse_request_uri : String → Bool) where
  -- a text that starts with `https://` or `http://` and is a URL
  abbrev pub IsUrl : Setting → Type 0
  IsUrl (str s) =
      ((has_prefix s "https://" || has_prefix s "http://") ≡ true) × (parse_request_uri s ≡ true)
  IsUrl other = ⊥

  abbrev pub IsText : Setting → Type 0
  IsText (str s) = s ≢ ""
  IsText other = ⊥

  -- the address of the auth service is a URL, and the grant type a text that is not empty
  abbrev pub IsGood : String × Setting → Type 0
  IsGood (k, v) =
      (to_upper k ≡ "JC_AUTH_URL" → IsUrl v) × (to_upper k ≡ "JC_AUTH_GRANT_TYPE" → IsText v)

  is_url_iff : (v : Setting) (k : String) → (is_url parse_request_uri v k ≡ none) ↔ IsUrl v
  unfolding is_url
  is_url_iff (str s) k = (λ h. ground arith, λ h. ground (arith, h.0, h.1))
  is_url_iff other k = (λ h. cc, λ h. absurd h)

  is_not_empty_iff : (v : Setting) (k : String) → (is_not_empty v k ≡ none) ↔ IsText v
  unfolding is_not_empty
  is_not_empty_iff (str s) k =
      (λ h e. ground (arith, eq_iff s ""), λ h. ground (arith, eq_iff s ""))
  is_not_empty_iff other k = (λ h. cc, λ h. absurd h)

  setting_iff :
      (k : String) (v : Setting)
      → (verify_setting to_upper parse_request_uri k v ≡ none) ↔ IsGood (k, v)
  unfolding verify_setting
  setting_iff k v = elim (Bool-cases (to_upper k == auth_url)) [
    | inl e ↦
        let p : to_upper k ≡ auth_url = (eq_iff (to_upper k) auth_url).0 e in
        rw e (
          λ h. ((λ _. (is_url_iff v k).0 h), λ q. absurd (apart (sym p ∙ q))),
          λ g. (is_url_iff v k).1 (g.0 p),
        )
    | inr e ↦ elim (Bool-cases (to_upper k == auth_grant_type)) [
      | inl f ↦
          let q : to_upper k ≡ auth_grant_type = (eq_iff (to_upper k) auth_grant_type).0 f in
          rw (e, f)
            (
              λ h. ((λ p. absurd (apart (sym p ∙ q))), λ _. (is_not_empty_iff v k).0 h),
              λ g. (is_not_empty_iff v k).1 (g.1 q),
            )
      | inr f ↦
          rw (e, f)
            (
              λ _. (
                (λ p. absurd (false≢true (sym e ∙ (eq_iff (to_upper k) auth_url).1 p))),
                λ q. absurd (false≢true (sym f ∙ (eq_iff (to_upper k) auth_grant_type).1 q)),
              ),
              λ _. refl,
            )
    ]
  ]

  collected :
      (config : List (String × Setting)) (es : MultiError)
      → (verify_from to_upper parse_request_uri config es ≡ []) ↔ ((es ≡ []) × All IsGood config)
  unfolding verify_from
  collected [] es = (λ h. (h, tt), λ h. h.0)
  collected ((k, v) ∷ config) es =
      let e = verify_setting to_upper parse_request_uri k v in
      let (to, from) = collected config (collect e es) in
      (
        λ h.
            (let (none_so_far, good) = to h in
              let (before, fine) = (collect-nil_iff e es).0 none_so_far in
              (before, ((setting_iff k v).0 fine, good))),
        λ (before, good).
            from ((collect-nil_iff e es).1 (before, (setting_iff k v).1 good.0), good.1),
      )

  -- Verify reports no error exactly if each setting whose key is `JC_AUTH_URL` in upper case is a text
  -- that starts with `https://` or `http://` and parses as a URL, and each whose key is
  -- `JC_AUTH_GRANT_TYPE` in upper case is a text that is not empty.
  pub verify-empty_iff :
      (config : List (String × Setting))
      → (verify to_upper parse_request_uri config ≡ []) ↔ All IsGood config
  unfolding verify
  verify-empty_iff config =
      let (to, from) = collected config [] in (λ e. (to e).1, λ h. from (refl, h))
