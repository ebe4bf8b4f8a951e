-- ===== src/Api/UnIdling.antt =====
-- When the UnIdle handler answers with success, and when it refuses for a full cluster.
use fabric8_jenkins_idler.Common.{
  String, ◌==◌, IsFirst, pos, negsuc, ap, subst, ◌∙◌, refl, inl, inr, Option-cases, OnOk-mono,
  eq_iff, trim_space, true, false, List, [], ◌∷◌, none, Result, ok, err, OnOk, ◌≡◌, ◌≢◌, ◌↔◌, ◌⊎◌,
  arith,
}
use fabric8_jenkins_idler.Model.{PodState, pod_starting, pod_running}
use fabric8_jenkins_idler.Cluster.{Cluster, get_token}
use fabric8_jenkins_idler.Cluster.Laws.{get_token-IsFirst, ok-injective}
use fabric8_jenkins_idler.UserIdler.{Call, ask_state, ask_capacity, send_un_idle, Services}
use fabric8_jenkins_idler.Api.{
  HttpRequest, Reply, get_url_and_token, is_un_idled, un_idle, un_idle_all, un_idle_with,
  jenkins_ref,
}

is_un_idled-up : (s : PodState) → is_un_idled s ≡ true → (s ≡ pod_starting) ⊎ (s ≡ pod_running)
unfolding is_un_idled
is_un_idled-up (pos n) h = ground arith
is_un_idled-up (negsuc n) h = ground arith

is_un_idled-down : (s : PodState) → is_un_idled s ≡ false → (s ≢ pod_starting) × (s ≢ pod_running)
unfolding is_un_idled
is_un_idled-down s h = (λ e. cc (rw e at h), λ e. cc (rw e at h))

module _ (sv : Services) (clusters : List Cluster) (r : HttpRequest) (h : List Call) where
  abbrev pub ns : String
  ns = trim_space r.namespace

  -- The Jenkins of the URL and the namespace is starting or running, by the only call made; or it is
  -- not, the cluster is not full, and UnIdle was called and returned nil.
  abbrev pub Succeeded : String × String → List Call → Type 0
  Succeeded (url, token) calls =
      let ref = jenkins_ref url token ns "jenkins" in
      let asked = ask_capacity url ns ∷ ask_state ref ∷ h in
      OnOk (sv.state h ref) (λ state.
        ((is_un_idled state ≡ true) × (calls ≡ ask_state ref ∷ h))
        ⊎ ((is_un_idled state ≡ false)
            × (sv.has_reached_max_capacity (ask_state ref ∷ h) url ns ≡ ok false)
            × (sv.un_idle asked ref ≡ none)
            × (calls ≡ send_un_idle ref ∷ asked)))

  -- Jenkins is neither starting nor running, the tenant service says that the cluster is full, and
  -- nothing else was called.
  abbrev pub Refused : String × String → List Call → Type 0
  Refused (url, token) calls =
      let ref = jenkins_ref url token ns "jenkins" in
      OnOk (sv.state h ref) (λ state.
        (is_un_idled state ≡ false)
        × (sv.has_reached_max_capacity (ask_state ref ∷ h) url ns ≡ ok true)
        × (calls ≡ ask_capacity url ns ∷ ask_state ref ∷ h))

  abbrev after : Result (String × String) → Reply × List Call
  after p = un_idle_with sv clusters r p h

  after_ok :
      (p : Result (String × String))
      → (after p).0.code ≡ 200
      → (ns ≢ "") × OnOk p (λ q. Succeeded q (after p).1)
  unfolding un_idle_all
  after_ok (err e) c = ground arith
  after_ok (ok (url, token)) c = ground (arith, eq_iff ns "")

  after_full :
      (p : Result (String × String))
      → (after p).0.code ≡ 503
      → (ns ≢ "") × OnOk p (λ q. Refused q (after p).1)
  unfolding un_idle_all
  after_full (err e) c = ground arith
  after_full (ok (url, token)) c = ground (arith, eq_iff ns "")

  full_after :
      (p : Result (String × String))
      → ns ≢ ""
      → OnOk p (λ q. Refused q (after p).1)
      → (after p).0.code ≡ 503
  unfolding un_idle_all
  full_after (err e) n c = ground arith
  full_after (ok (url, token)) n c = ground (arith, eq_iff ns "")

  -- The URL is the first that the request gives, and the token is that of the first cluster with it.
  pub record IsKnown (url token : String) : Type 0 where
    pub others : List String
    pub given : r.openshift_api_url ≡ url ∷ others
    pub cluster : Cluster
    pub same : cluster.token ≡ token
    pub first : IsFirst (λ d. d.api_url == url) clusters cluster

  -- Jenkins is starting or running, by the only call made; or it is not, the cluster is not full, and
  -- UnIdle was called and returned nil.
  abbrev pub UpOrAsked : String → String → List Call → Type 0
  UpOrAsked url token calls =
      let ref = jenkins_ref url token ns "jenkins" in
      let asked = ask_capacity url ns ∷ ask_state ref ∷ h in
      OnOk (sv.state h ref) (λ state.
        (((state ≡ pod_starting) ⊎ (state ≡ pod_running)) × (calls ≡ ask_state ref ∷ h))
        ⊎ ((state ≢ pod_starting)
            × (state ≢ pod_running)
            × (sv.has_reached_max_capacity (ask_state ref ∷ h) url ns ≡ ok false)
            × (sv.un_idle asked ref ≡ none)
            × (calls ≡ send_un_idle ref ∷ asked)))

  IsKnown-url :
      (urls : List String) (url token : String)
      → r.openshift_api_url ≡ urls
      → get_url_and_token clusters r ≡ ok (url, token)
      → IsKnown url token
  unfolding get_url_and_token
  IsKnown-url [] url token e h = cc (rw e at h)
  IsKnown-url (u ∷ us) url token e h = elim (Option-cases (get_token clusters u)) [
    | inl none_found ↦ cc (rw (e, none_found) at h)
    | inr (t, found) ↦
        let answer : ok (u, t) ≡ ok (url, token) = rw (e, found) at h in
        let (c, same, first) = get_token-IsFirst clusters u t found in
        let this : u ≡ url = ap (λ p. p.0) (ok-injective answer) in
        record {
          others = us;
          given = e ∙ ap (λ x. x ∷ us) this;
          cluster = c;
          same = same ∙ ap (λ p. p.1) (ok-injective answer);
          first = subst (λ v. IsFirst (λ d. d.api_url == v) clusters c) this first;
        }
  ]

  Succeeded-UpOrAsked :
      (url token : String) (calls : List Call)
      → Succeeded (url, token) calls
      → UpOrAsked url token calls
  Succeeded-UpOrAsked url token calls =
      let answer = sv.state h (jenkins_ref url token ns "jenkins") in
      OnOk-mono answer answer (λ s e. e)
        (λ s x. elim x [
          | inl (up, only) ↦ inl (is_un_idled-up s up, only)
          | inr (down, room, asked, only) ↦
              let (not_starting, not_running) = is_un_idled-down s down in
              inr (not_starting, not_running, room, asked, only)
        ])

  IsKnown-success :
      (p : Result (String × String)) (calls : List Call)
      → get_url_and_token clusters r ≡ p
      → OnOk p (λ q. Succeeded q calls)
      → (url : String) × (token : String) × IsKnown url token × UpOrAsked url token calls
  IsKnown-success (ok (url, token)) calls e done = (
    url,
    token,
    IsKnown-url r.openshift_api_url url token refl e,
    Succeeded-UpOrAsked url token calls done,
  )
  IsKnown-success (err x) calls e done = absurd done

  -- UnIdle replies with 200 only if the first URL of the request is that of a cluster of the view, whose
  -- token is used, the namespace is not blank, and either Jenkins was starting or running and nothing
  -- was called but State; or it was not, the cluster had capacity, and the client's UnIdle was called
  -- once and returned nil.
  pub un_idle_ok :
      (un_idle sv clusters r h).0.code ≡ 200
      → (ns ≢ "")
        × (url : String) × (token : String) × IsKnown url token
        × UpOrAsked url token (un_idle sv clusters r h).1
  unfolding un_idle
  un_idle_ok c =
      let (named, done) = after_ok (get_url_and_token clusters r) c in
      let (url, token, known, succeeded) =
        IsKnown-success (get_url_and_token clusters r) _ refl done in
      (named, url, token, known, succeeded)

  -- UnIdle replies with 503 exactly when the URL and the namespace are good, Jenkins is neither
  -- starting nor running, and the tenant service says that the cluster is full; and then it has
  -- asked for the state and the capacity and called nothing else.
  pub un_idle_full_iff : ((un_idle sv clusters r h).0.code ≡ 503) ↔ (
      (ns ≢ "") × OnOk (get_url_and_token clusters r) (λ p. Refused p (un_idle sv clusters r h).1))
  unfolding un_idle
  un_idle_full_iff = (
    after_full (get_url_and_token clusters r),
    λ (n, c). full_after (get_url_and_token clusters r) n c,
  )
