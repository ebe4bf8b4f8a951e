-- ===== src/Api/Laws.antt =====
-- What the callers of the REST API see of the states and of the disabled users.
use fabric8_jenkins_idler.Common.{
  String, ◌==◌, eq_iff, eqb_ℤ, ltb_ℤ, Bool, true, false, not, ◌||◌, ◌&&◌, List, [], none, some,
  Result, ok, err, Any, ◌≡◌, ◌≢◌, ◌↔◌, ◌⊎◌, inl, inr, arith, refl, Bool-cases, Result-cases, ◌∙◌,
  ap,
}
use fabric8_jenkins_idler.ConcurrentMap.{ConcurrentMap}
use fabric8_jenkins_idler.Model.{
  PodState, pod_running, pod_starting, pod_idled, pod_state_unknown, pod_state_string,
}
use fabric8_jenkins_idler.Model.StringSet.{has, add_all, has-add_all, has-remove_all}
use fabric8_jenkins_idler.Util.{contains_string}
use fabric8_jenkins_idler.Cluster.{Cluster}
use fabric8_jenkins_idler.UserIdler.{Call, Services}
use fabric8_jenkins_idler.Api.{
  HttpRequest, get_url_and_token, Body, error_body, is_idle_body, status_body, users_body,
  no_status, jenkins_ref, is_idle, is_idle_with, status, status_with, append_error, set_state,
  set_user_idler_status, get_disabled_user_idlers, UserStatus,
}

-- the two bodies tell the same of a state: both that there is none, or both a running one, or both
-- one that is idled or starting
abbrev pub Agree : Body → Body → Type 0
Agree (is_idle_body b) (status_body s) =
    ((s.data_state ≡ some "running") → (b ≡ false))
    × ((s.data_state ≡ some "idled") → (b ≡ true))
    × ((s.data_state ≡ some "starting") → (b ≡ true))
Agree (error_body e) (status_body s) = (s.data_state ≡ none) × (s.errors ≢ [])
Agree _ _ = ⊥

pub unlike : (a b : String) → (a == b) ≡ false → a ≢ b
unlike a b e p = (let q : (a == b) ≡ true = (eq_iff a b).1 p in ground arith)

told :
    (st : PodState)
    → (pod_state_string st ≡ "unknown")
      ⊎ ((pod_state_string st ≡ "idled") × (ltb_ℤ st pod_running ≡ true))
      ⊎ ((pod_state_string st ≡ "starting") × (ltb_ℤ st pod_running ≡ true))
      ⊎ ((pod_state_string st ≡ "running") × (ltb_ℤ st pod_running ≡ false))
unfolding pod_state_string
told st = elim (Bool-cases (ltb_ℤ st pod_state_unknown || ltb_ℤ pod_running st)) [
  | inl e ↦ inl (rw e)
  | inr e ↦ elim (Bool-cases (eqb_ℤ st pod_idled)) [
    | inl i ↦ inr (inl (rw (e, i), ground arith))
    | inr i ↦ elim (Bool-cases (eqb_ℤ st pod_starting)) [
      | inl s ↦ inr (inr (inl (rw (e, i, s), ground arith)))
      | inr s ↦ elim (Bool-cases (eqb_ℤ st pod_running)) [
        | inl u ↦ inr (inr (inr (rw (e, i, s, u), ground arith)))
        | inr u ↦ inl (rw (e, i, s, u))
      ]
    ]
  ]
]

told_agrees :
    (st : PodState)
    → Agree (is_idle_body (ltb_ℤ st pod_running)) (status_body (set_state st no_status))
unfolding set_state
told_agrees st = elim (told st) [
  | inl e ↦ (
    λ c. absurd (unlike "unknown" "running" refl (ground arith)),
    λ c. absurd (unlike "unknown" "idled" refl (ground arith)),
    λ c. absurd (unlike "unknown" "starting" refl (ground arith)),
  )
  | inr (inl e) ↦ (
    λ c. absurd (unlike "idled" "running" refl (ground arith)),
    λ c. ground arith,
    λ c. ground arith,
  )
  | inr (inr (inl e)) ↦ (
    λ c. absurd (unlike "starting" "running" refl (ground arith)),
    λ c. ground arith,
    λ c. ground arith,
  )
  | inr (inr (inr e)) ↦ (
    λ c. ground arith,
    λ c. absurd (unlike "running" "idled" refl (ground arith)),
    λ c. absurd (unlike "running" "starting" refl (ground arith)),
  )
]

module _ (sv : Services) (clusters : List Cluster) (r : HttpRequest) (h : List Call) where
  is_idle_with-Agree :
      (p : Result (String × String))
      → ((is_idle_with sv clusters r p h).0.code ≡ (status_with sv clusters r p h).0.code)
        × ((is_idle_with sv clusters r p h).1 ≡ (status_with sv clusters r p h).1)
        × Agree (is_idle_with sv clusters r p h).0.body (status_with sv clusters r p h).0.body
  unfolding append_error set_state
  is_idle_with-Agree (err e) = ground arith
  is_idle_with-Agree (ok (url, token)) =
      elim (Result-cases (sv.state h (jenkins_ref url token r.namespace "jenkins"))) [
        | inl (st, e) ↦ rw e (refl, refl, told_agrees st)
        | inr (x, e) ↦ rw e (refl, refl, (refl, λ c. ground arith))
      ]

  -- IsIdle and Status make the same calls, reply with the same code to the same request, and agree on
  -- the state: neither gives one, or `is_idle` is false for `running` and true for `idled` and
  -- `starting`.
  pub is_idle_agrees_status :
      ((is_idle sv clusters r h).0.code ≡ (status sv clusters r h).0.code)
      × ((is_idle sv clusters r h).1 ≡ (status sv clusters r h).1)
      × Agree (is_idle sv clusters r h).0.body (status sv clusters r h).0.body
  unfolding is_idle status
  is_idle_agrees_status = is_idle_with-Agree (get_url_and_token clusters r)

module _ (cm : ConcurrentMap Bool) where
  open cm use {Map, keys, get, keys_iff}

  -- After SetUserIdlerStatus with a good body, a user is disabled exactly if the body does not enable
  -- it, and the body disables it or it was disabled before: to enable takes precedence.
  pub set_user_idler_status-has :
      (users : UserStatus) (disabled : Map) (k : String)
      → has cm (set_user_idler_status cm (ok users) disabled).1 k
        ≡ not (contains_string users.enable k)
          && (contains_string users.disable k || has cm disabled k)
  unfolding set_user_idler_status
  set_user_idler_status-has users disabled k =
      has-remove_all cm (add_all cm disabled users.disable) users.enable k
      ∙ ap (λ b. not (contains_string users.enable k) && b)
          (has-add_all cm disabled users.disable k)

  abbrev pub users_of : Body → List String
  users_of (users_body us) = us
  users_of _ = []

  -- GetDisabledUserIdlers lists a user exactly if the controller finds it in the set.
  pub get_disabled_user_idlers_iff :
      (disabled : Map) (k : String)
      → Any (λ x. x ≡ k) (users_of (get_disabled_user_idlers cm disabled).body)
        ↔ (has cm disabled k ≡ true)
  unfolding get_disabled_user_idlers has
  get_disabled_user_idlers_iff disabled k =
      let (to, from) = keys_iff disabled k in
      (λ p. (let q : get disabled k ≢ none = to p in ground arith), λ e. from (ground arith))
