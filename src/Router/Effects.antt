-- ===== src/Router/Effects.antt =====
-- What the requests to the REST API can change.
use fabric8_jenkins_idler.Common.{
  String, List, Bool, true, Option, none, some, Any, ◌≡◌, ◌⊎◌, inl, inr, refl, subst, arith,
}
use fabric8_jenkins_idler.ConcurrentMap.{ConcurrentMap}
use fabric8_jenkins_idler.Cluster.{Cluster}
use fabric8_jenkins_idler.UserIdler.{Call, Services}
use fabric8_jenkins_idler.UserIdler.Requests.{idle_requests, un_idle_requests}
use fabric8_jenkins_idler.Api.{HttpRequest, idle, un_idle, is_idle, status, idle_all, un_idle_all}
use fabric8_jenkins_idler.Router.{
  Handle, idle_handle, un_idle_handle, is_idle_handle, status_handle, cluster_dns_view_handle,
  reset_handle, get_disabled_handle, set_status_handle, metrics_handle, Route, Incoming, Backend,
  Served, create_api_router, add_metrics, api_routes, handle_by, serve, routed,
}

-- The router answers with the handle of a route of the table that has the method and whose path fits.
abbrev pub Finds : (String → String → Bool) → Backend → Type 0
Finds fits b =
    (routes : List Route) (method path : String) (h : Handle) (namespace : String)
    → b.lookup routes method path ≡ some (h, namespace)
    → Any (λ x. (x.handle ≡ h) × (x.method ≡ method) × (fits x.path path ≡ true)) routes

keep_left : {A B C : Type 0} → (B → C) → A ⊎ B → A ⊎ C
keep_left f (inl a) = inl a
keep_left f (inr b) = inr (f b)

module _ (sv : Services) (clusters : List Cluster) (q : HttpRequest) (h : List Call) where
  idle-un_idles : un_idle_requests (idle sv clusters q h).1 ≡ un_idle_requests h
  unfolding idle idle_all
  idle-un_idles = ground arith

  un_idle-idles : idle_requests (un_idle sv clusters q h).1 ≡ idle_requests h
  unfolding un_idle un_idle_all
  un_idle-idles = ground arith

  is_idle-sends_none :
      (idle_requests (is_idle sv clusters q h).1 ≡ idle_requests h)
      × (un_idle_requests (is_idle sv clusters q h).1 ≡ un_idle_requests h)
  unfolding is_idle
  is_idle-sends_none = ground arith

  status-sends_none :
      (idle_requests (status sv clusters q h).1 ≡ idle_requests h)
      × (un_idle_requests (status sv clusters q h).1 ≡ un_idle_requests h)
  unfolding status
  status-sends_none = ground arith

-- What changed from `s` to `t`: only under their own handle do requests to idle and to un-idle get sent,
-- and the disabled users change.
abbrev Only : {cm : ConcurrentMap Bool} → (Handle → Type 0) → Served cm → Served cm → Type 0
Only At s t =
    ((idle_requests t.calls ≡ idle_requests s.calls) ⊎ At idle_handle)
    × ((un_idle_requests t.calls ≡ un_idle_requests s.calls) ⊎ At un_idle_handle)
    × ((t.disabled ≡ s.disabled) ⊎ At set_status_handle)

module _ (cm : ConcurrentMap Bool) (b : Backend) (r : Incoming) (q : HttpRequest) where
  handle_by-Only : (h : Handle) (s : Served cm) → Only (λ k. h ≡ k) s (handle_by cm b h r q s).1
  unfolding handle_by
  handle_by-Only idle_handle s =
      (inr refl, inl (idle-un_idles b.services b.clusters q s.calls), inl refl)
  handle_by-Only un_idle_handle s =
      (inl (un_idle-idles b.services b.clusters q s.calls), inr refl, inl refl)
  handle_by-Only is_idle_handle s =
      let none_sent = is_idle-sends_none b.services b.clusters q s.calls in
      (inl none_sent.0, inl none_sent.1, inl refl)
  handle_by-Only status_handle s =
      let none_sent = status-sends_none b.services b.clusters q s.calls in
      (inl none_sent.0, inl none_sent.1, inl refl)
  handle_by-Only set_status_handle s = (inl refl, inl refl, inr refl)
  handle_by-Only cluster_dns_view_handle s = (inl refl, inl refl, inl refl)
  handle_by-Only reset_handle s = (inl refl, inl refl, inl refl)
  handle_by-Only get_disabled_handle s = (inl refl, inl refl, inl refl)
  handle_by-Only metrics_handle s = (inl refl, inl refl, inl refl)

module _ (fits : String → String → Bool) (r : Incoming) where
  -- The request has the method, and its path fits one of the two.
  abbrev pub Asks : String → String → String → Type 0
  Asks method path slashed =
      (r.method ≡ method) × ((fits path r.path ≡ true) ⊎ (fits slashed r.path ≡ true))

  abbrev pub AsksFor : Handle → Type 0
  AsksFor idle_handle = Asks "GET" "/api/idler/idle/:namespace" "/api/idler/idle/:namespace/"
  AsksFor un_idle_handle = Asks "GET" "/api/idler/unidle/:namespace" "/api/idler/unidle/:namespace/"
  AsksFor set_status_handle = Asks "POST" "/api/idler/userstatus" "/api/idler/userstatus/"
  AsksFor _ = Unit

  table-AsksFor :
      (h : Handle)
      → Any
          (λ x. (x.handle ≡ h) × (x.method ≡ r.method) × (fits x.path r.path ≡ true))
          (add_metrics create_api_router)
      → AsksFor h
  unfolding add_metrics create_api_router
  table-AsksFor idle_handle a = ground arith
  table-AsksFor un_idle_handle a = ground arith
  table-AsksFor set_status_handle a = ground arith
  table-AsksFor is_idle_handle a = tt
  table-AsksFor status_handle a = tt
  table-AsksFor cluster_dns_view_handle a = tt
  table-AsksFor reset_handle a = tt
  table-AsksFor get_disabled_handle a = tt
  table-AsksFor metrics_handle a = tt

module _ (cm : ConcurrentMap Bool) (fits : String → String → Bool) (b : Backend) where
  routed-Only :
      Finds fits b
      → (r : Incoming) (s : Served cm) (a : Option (Handle × String))
      → b.lookup api_routes r.method r.path ≡ a
      → Only (AsksFor fits r) s (routed cm b r s a).1
  routed-Only finds r s none e = (inl refl, inl refl, inl refl)
  routed-Only finds r s (some (h, namespace)) e =
      let q : HttpRequest = record {
        openshift_api_url = r.openshift_api_url;
        namespace = namespace;
      } in
      let asks : AsksFor fits r h =
        table-AsksFor fits r h (finds api_routes r.method r.path h namespace e) in
      let only = handle_by-Only cm b r q h s in
      (
        keep_left (λ same. subst (AsksFor fits r) same asks) only.0,
        keep_left (λ same. subst (AsksFor fits r) same asks) only.1,
        keep_left (λ same. subst (AsksFor fits r) same asks) only.2,
      )

  -- A request to the server of the API sends a request to idle only if it is a GET of
  -- `/api/idler/idle/:namespace`, a request to un-idle only if it is a GET of
  -- `/api/idler/unidle/:namespace`, and changes the disabled users only if it is a POST of
  -- `/api/idler/userstatus`, each with or without a slash at the end; when httprouter answers only with
  -- the handles of routes that have the method and fit the path.
  pub serve_changes_only :
      Finds fits b
      → (r : Incoming) (s : Served cm)
      → let t = (serve cm b api_routes r s).1 in
        ((idle_requests t.calls ≡ idle_requests s.calls)
          ⊎ Asks fits r "GET" "/api/idler/idle/:namespace" "/api/idler/idle/:namespace/")
        × ((un_idle_requests t.calls ≡ un_idle_requests s.calls)
            ⊎ Asks fits r "GET" "/api/idler/unidle/:namespace" "/api/idler/unidle/:namespace/")
        × ((t.disabled ≡ s.disabled)
            ⊎ Asks fits r "POST" "/api/idler/userstatus" "/api/idler/userstatus/")
  unfolding serve
  serve_changes_only finds r s = routed-Only finds r s (b.lookup api_routes r.method r.path) refl
