-- ===== src/Router/Listed.antt =====
-- The disabled users from the request that sets them to a request that lists them.
use fabric8_jenkins_idler.Common.{
  String, List, [], ◌∷◌, Bool, true, not, ◌||◌, ◌&&◌, some, ok, All, Any, ◌≡◌, ◌≢◌, ◌↔◌, refl, sym,
  ap, ◌∙◌, arith,
}
use fabric8_jenkins_idler.ConcurrentMap.{ConcurrentMap}
use fabric8_jenkins_idler.Model.StringSet.{has}
use fabric8_jenkins_idler.Util.{contains_string}
use fabric8_jenkins_idler.Api.{UserStatus, set_user_idler_status, get_disabled_user_idlers}
use fabric8_jenkins_idler.Api.Laws.{
  set_user_idler_status-has, get_disabled_user_idlers_iff, users_of,
}
use fabric8_jenkins_idler.Router.{
  Handle, set_status_handle, get_disabled_handle, Incoming, Backend, Served, serve, handle_by,
  api_routes,
}
use fabric8_jenkins_idler.Router.Effects.{Finds, serve_changes_only}

-- httprouter finds the handle for the request.
abbrev pub Reaches : Backend → Incoming → Handle → Type 0
Reaches b r h = (ns : String) × (b.lookup api_routes r.method r.path ≡ some (h, ns))

module _ (cm : ConcurrentMap Bool) (b : Backend) where
  open cm use {Map}

  -- the state after some requests, in order
  abbrev pub serve_all : List Incoming → Served cm → Served cm
  serve_all [] s = s
  serve_all (r ∷ rs) s = serve_all rs (serve cm b api_routes r s).1

  reads_keep :
      (fits : String → String → Bool)
      → Finds fits b
      → (rs : List Incoming) (s : Served cm) → All (λ r. r.method ≢ "POST") rs
      → (serve_all rs s).disabled ≡ s.disabled
  reads_keep fits finds [] s reads = refl
  reads_keep fits finds (r ∷ rs) s reads =
      let step = (serve_changes_only cm fits b finds r s).2 in
      let same : (serve cm b api_routes r s).1.disabled ≡ s.disabled = ground arith in
      reads_keep fits finds rs (serve cm b api_routes r s).1 reads.1 ∙ same

  module _ (r : Incoming) (s : Served cm) where
    serve-sets :
        (users : UserStatus)
        → Reaches b r set_status_handle
        → r.user_status ≡ ok users
        → (serve cm b api_routes r s).1.disabled
          ≡ (set_user_idler_status cm (ok users) s.disabled).1
    unfolding serve handle_by
    serve-sets users (ns, e) good = rw (e, good) refl

    serve-lists :
        Reaches b r get_disabled_handle
        → (serve cm b api_routes r s).0 ≡ get_disabled_user_idlers cm s.disabled
    unfolding serve handle_by
    serve-lists (ns, e) = rw e refl

  -- After a request that sets the status of users with a good body, and any requests that are not a
  -- POST, a request for the disabled users lists a user exactly if the body does not enable it, and the
  -- body disables it or it was disabled before: to enable takes precedence. This holds when httprouter
  -- answers only with the handles of routes that have the method and fit the path, and finds the
  -- handles of the first and of the last request.
  pub lists_what_was_set :
      (fits : String → String → Bool)
      → Finds fits b
      → (post get : Incoming) (between : List Incoming) (users : UserStatus) (s : Served cm)
      → Reaches b post set_status_handle
      → post.user_status ≡ ok users
      → All (λ r. r.method ≢ "POST") between
      → Reaches b get get_disabled_handle
      → (k : String)
      → let before = serve_all (post ∷ between) s in
        Any (λ x. x ≡ k) (users_of cm (serve cm b api_routes get before).0.body) ↔ (
          (not (contains_string users.enable k)
            && (contains_string users.disable k || has cm s.disabled k))
          ≡ true)
  lists_what_was_set fits finds post get between users s sets good reads gets k =
      let before = serve_all (post ∷ between) s in
      let kept = reads_keep fits finds between (serve cm b api_routes post s).1 reads in
      let now = kept ∙ serve-sets post s users sets good in
      let listed = get_disabled_user_idlers_iff cm before.disabled k in
      let is = ap (λ d. has cm d k) now ∙ set_user_idler_status-has cm users s.disabled k in
      rw (serve-lists get before gets, sym is) listed
