-- ===== src/Program/Checked/Clusters.antt =====
-- The clusters that main watches: what they were checked for, and that they are all there are.
use fabric8_jenkins_idler.Common.{
  String, ◌==◌, select, map, false, List, [], none, some, Result, ok, err, Attempt, gives, crashes,
  OnOk, OnOk-mono, sym, ◌∙◌, All, All-mono, ◌≡◌, ◌≢◌, refl,
}
use fabric8_jenkins_idler.Http.{Response}
use fabric8_jenkins_idler.Auth.{Client, new_client, set_jwt_signer}
use fabric8_jenkins_idler.Auth.Requests.{retrieve_token}
use fabric8_jenkins_idler.Auth.Requests.Sent.{
  new_client_fields, token_request, clusters_request, retrieve_token-sent, show_clusters-sent,
}
use fabric8_jenkins_idler.Cluster.{
  listed, answered, Cluster, ClusterData, Sources, validate_response, get_cluster_view,
  collect_clusters, osio_type,
}
use fabric8_jenkins_idler.Cluster
use fabric8_jenkins_idler.Cluster.Laws.{IsChecked, ok-injective, collect_clusters_complete}
use fabric8_jenkins_idler.Configuration.Settings.{get_auth_url, get_auth_token_key}
use fabric8_jenkins_idler.OpenshiftClient.{who_am_i}
use fabric8_jenkins_idler.Tokens.Decode.{Decode, pgp_decrypt_token, new_pgp_decrypter}
use fabric8_jenkins_idler.Tokens.Target.{resolve_target_token_ok}
use fabric8_jenkins_idler.Program.Startup.{
  World, goes_on, or_panic, target_client, checked, with_client, service_of, new_service,
  cluster_view,
}
use fabric8_jenkins_idler.Program.Checked.Steps.{or_fatal_goes_on, or_panic_goes_on, bind_goes_on}

-- the clusters of a view come from the list that the auth service sent
module _ (s : Sources) (clusters : List Cluster) where
  record IsListed : Type 0 where
    response : Response
    data_ : List ClusterData
    sent : s.show_clusters ≡ ok response
    read : s.decode_cluster_list response ≡ ok data_
    collected : collect_clusters s data_ ≡ gives (ok clusters)

  decoded-IsListed :
      (res : Response)
      → s.show_clusters ≡ ok res
      → (r : Result (List ClusterData)) → s.decode_cluster_list res ≡ r
      → listed s r ≡ gives (ok clusters)
      → IsListed
  decoded-IsListed res sent (ok data_) read h = record {
    response = res;
    data_ = data_;
    sent = sent;
    read = read;
    collected = h;
  }
  decoded-IsListed res sent (err e) read h = cc

  validated-IsListed :
      (res : Response)
      → s.show_clusters ≡ ok res
      → (o : Attempt (Unit {0})) → Cluster.validated s res o ≡ gives (ok clusters)
      → IsListed
  validated-IsListed res sent (gives (ok _)) h = decoded-IsListed res sent _ refl h
  validated-IsListed res sent (gives (err e)) h = cc
  validated-IsListed res sent (crashes e) h = cc

  answered-IsListed :
      (r : Result Response) → s.show_clusters ≡ r → answered s r ≡ gives (ok clusters) → IsListed
  answered-IsListed (ok res) sent h =
      validated-IsListed res sent (validate_response s.decode_errors res) h
  answered-IsListed (err e) sent h = cc

  view-IsListed : get_cluster_view s ≡ gives (ok clusters) → IsListed
  unfolding get_cluster_view
  view-IsListed h = answered-IsListed s.show_clusters refl h

module _ (w : World) (config : w.viper.Registry) (service_token : String) where
  -- A cluster that the program may watch: it has the type OSO, and the auth service, asked with the
  -- token of the service account, named its user and sent a token for it that the configured key
  -- decrypts to the token that is used, and which the cluster accepts.
  pub record IsReady (c : Cluster) : Type 0 where
    pub oso : c.type ≡ "OSO"
    pub named : c.user ≢ ""
    pub token : OnOk (new_client w.parse_url (get_auth_url w.viper config) service_token) (λ client.
        OnOk (w.auth_server.respond (token_request w.auth_server client c.api_url)) (λ res.
          OnOk (w.decode_external_token res) (λ t.
            (t.username ≡ c.user)
            × (pgp_decrypt_token w.pgp t.access_token (get_auth_token_key w.viper config)
                ≡ ok c.token))))
    pub accepted : (name : String) × ((who_am_i w.openshift c.api_url c.token []).0 ≡ ok name)

  -- The clusters are all those of the type OSO in the list that the auth service sent.
  pub record IsComplete (clusters : List Cluster) : Type 0 where
    pub client : Client
    pub response : Response
    pub data_ : List ClusterData
    pub connected : new_client w.parse_url (get_auth_url w.viper config) service_token ≡ ok client
    pub sent :
        w.auth_server.respond (clusters_request w.auth_server client service_token) ≡ ok response
    pub read : w.decode_cluster_list response ≡ ok data_
    pub all_of_them :
        map (λ c. c.api_url) clusters ≡ map (λ c. c.api_url) (select (λ c. c.type == "OSO") data_)

  abbrev key : Decode
  key = new_pgp_decrypter w.pgp (get_auth_token_key w.viper config)

  abbrev NewClient : Client → Type 0
  NewClient client = new_client w.parse_url (get_auth_url w.viper config) service_token ≡ ok client

  NewClient-fields :
      (client : Client)
      → NewClient client
      → (client.token ≡ service_token) × (client.jwt_signer ≡ none)
  unfolding new_client
  NewClient-fields client h =
      new_client_fields (w.parse_url (get_auth_url w.viper config)) service_token client h

  -- the answer with the token was that to the request of the client
  token-sent :
      (target : String) {P : Response → Type 0} {Q : Response → Type 0}
      → service_token ≢ ""
      → ((res : Response) → P res → Q res)
      → (r : Result Client) → ((client : Client) → r ≡ ok client → NewClient client)
      → OnOk r
          (λ client. OnOk (retrieve_token w.auth_server client "/api/token" target (some false)) P)
      → OnOk r
          (λ client. OnOk (w.auth_server.respond (token_request w.auth_server client target)) Q)
  token-sent target named f (ok client) made h =
      let (same, unsigned) = NewClient-fields client (made client refl) in
      OnOk-mono (retrieve_token w.auth_server client "/api/token" target (some false))
        (w.auth_server.respond (token_request w.auth_server client target))
        (λ res e.
          retrieve_token-sent w.auth_server client target res (λ t. named (sym same ∙ t)) unsigned
            e)
        f h
  token-sent target named f (err e) made h = absurd h

  checked-IsReady :
      (client : Client) (c : Cluster)
      → IsChecked (service_of w config service_token key client) c
      → IsReady c
  unfolding new_pgp_decrypter
  checked-IsReady client c (oso, found, known) =
      let r =
        resolve_target_token_ok (target_client w config) (get_auth_url w.viper config) c.api_url
          service_token false key c.user c.token found in
      record {
        oso = oso;
        named = r.2;
        token =
            token-sent c.api_url r.0
              (λ res p.
                OnOk-mono (w.decode_external_token res) (w.decode_external_token res) (λ t e. e)
                  (λ t q. q) p.1)
              (new_client w.parse_url (get_auth_url w.viper config) service_token) (λ client e. e)
              r.3;
        accepted = known;
      }

  -- what NewService returns
  with_client-service :
      (r : Result Client) (s : Sources)
      → with_client w config service_token key r ≡ ok s
      → (client : Client) × (r ≡ ok client)
        × (service_of w config service_token key (set_jwt_signer service_token client) ≡ s)
  with_client-service (ok client) s h = (client, refl, ok-injective h)
  with_client-service (err e) s h = cc

  pub view-good :
      (clusters : List Cluster)
      → service_token ≢ ""
      → cluster_view w config service_token ≡ goes_on clusters
      → IsComplete clusters × All IsReady clusters
  unfolding cluster_view new_service
  view-good clusters named h =
      let (s, made, viewed) = bind_goes_on _ (λ s. or_panic (get_cluster_view s)) clusters h in
      let (client, connected, same) =
        with_client-service (new_client w.parse_url (get_auth_url w.viper config) service_token) s
          (or_fatal_goes_on _ s made) in
      let found : get_cluster_view
            (service_of w config service_token key (set_jwt_signer service_token client))
          ≡ gives (ok clusters) =
        rw same (or_panic_goes_on _ clusters viewed) in
      let from = view-IsListed _ clusters found in
      let (urls, checked) = collect_clusters_complete _ from.data_ clusters from.collected in
      (
        record {
          client = client;
          response = from.response;
          data_ = from.data_;
          connected = connected;
          sent =
              show_clusters-sent w.auth_server client service_token from.response
                (λ t. named (sym (NewClient-fields client connected).0 ∙ t)) from.sent;
          read = from.read;
          all_of_them = urls;
        },
        All-mono (checked-IsReady client) clusters checked,
      )
