-- ===== src/Program/Checked.antt =====
-- What main has made sure of when it starts the workers.
pub mod Steps
pub mod Clusters
use fabric8_jenkins_idler.Common.{
  String, ◌==◌, select, map, Bool, true, false, List, [], ◌∷◌, none, some, Result, ok, err, Attempt,
  gives, crashes, OnOk, OnOk-mono, sym, ◌∙◌, All, All-mono, ◌≡◌, ◌≢◌, refl, ap, subst, arith,
}
use fabric8_jenkins_idler.Http.{Response}
use fabric8_jenkins_idler.Auth.{Client, new_client, set_jwt_signer}
use fabric8_jenkins_idler.Auth.Requests.{retrieve_token}
use fabric8_jenkins_idler.Auth.Requests.Sent.{
  new_client_fields, token_request, clusters_request, retrieve_token-sent, show_clusters-sent,
}
use fabric8_jenkins_idler.Util.{MultiError, empty}
use fabric8_jenkins_idler.Cluster.{
  listed, answered, Cluster, ClusterData, Sources, validate_response, get_cluster_view,
  collect_clusters, osio_type,
}
use fabric8_jenkins_idler.Cluster
use fabric8_jenkins_idler.Cluster.Laws.{IsChecked, ok-injective, collect_clusters_complete}
use fabric8_jenkins_idler.Configuration.{verify}
use fabric8_jenkins_idler.Configuration.Settings.{
  new, get_tenant_url, get_auth_url, get_auth_token_key,
}
use fabric8_jenkins_idler.Configuration.Verified.{IsGood, verify-empty_iff}
use fabric8_jenkins_idler.OpenshiftClient.{who_am_i}
use fabric8_jenkins_idler.Tokens.{get_service_account_token}
use fabric8_jenkins_idler.Tokens.Laws.{get_oauth_token_ok}
use fabric8_jenkins_idler.Tokens.Decode.{Decode, pgp_decrypt_token, new_pgp_decrypter}
use fabric8_jenkins_idler.Tokens.Target.{resolve_target_token_ok}
use fabric8_jenkins_idler.Program.Startup.{
  World, Flags, Startup, goes_on, stops, ◌>>=◌, or_fatal, or_panic, config_file_path,
  create_and_validate_configuration, auth_client, target_client, token_config, checked, configured,
  osio_token, Features, with_client, service_of, new_service, cluster_view, create_feature_toggle,
  Idler, main,
}
use fabric8_jenkins_idler.Program.Checked.Steps.{
  or_fatal_goes_on, or_panic_goes_on, goes_on-injective, bind_goes_on,
}
use fabric8_jenkins_idler.Program.Checked.Clusters.{IsReady, IsComplete, view-good}

empty_nil : (m : MultiError) → empty m ≡ true → m ≡ []
unfolding empty
empty_nil [] h = refl
empty_nil (e ∷ m) h = cc

-- the end of createAndValidateConfiguration
module _ (w : World) where
  checked-good :
      (print_config : Bool) (c d : w.viper.Registry)
      → checked w print_config c ≡ goes_on d
      → (print_config ≡ false)
        × (c ≡ d)
        × (verify w.to_upper w.parse_request_uri (w.viper.all_settings c) ≡ [])
  checked-good true c d h = cc
  checked-good false c d h =
      ground (arith, empty_nil (verify w.to_upper w.parse_request_uri (w.viper.all_settings c)))

  configured-good :
      (print_config : Bool) (r : Result w.viper.Registry) (d : w.viper.Registry)
      → configured w print_config r ≡ goes_on d
      → (print_config ≡ false)
        × (r ≡ ok d)
        × (verify w.to_upper w.parse_request_uri (w.viper.all_settings d) ≡ [])
  configured-good print_config (ok c) d h =
      let (quiet, same, fine) = checked-good print_config c d h in
      (quiet, ap ok same, rw same at fine)
  configured-good print_config (err e) d h = cc

-- the steps of main, from the last
module _ (w : World) (config : w.viper.Registry) where
  abbrev idler : String → List Cluster → Features w → Idler w
  idler token clusters features = record {
    feature_service = features;
    tenant_service = record {
      tenant_service_url = get_tenant_url w.viper config;
      auth_token = token;
    };
    clusters = clusters;
    config = config;
  }

  abbrev after_clusters : String → List Cluster → Startup (Idler w)
  after_clusters token clusters =
      create_feature_toggle w config >>= λ features. goes_on (idler token clusters features)

  abbrev after_token : String → Startup (Idler w)
  after_token token = cluster_view w config token >>= after_clusters token

  abbrev after_config : Startup (Idler w)
  after_config = osio_token w config >>= after_token

-- what main has made sure of when it calls Run
pub record IsStarted (w : World) (flags : Flags) (i : Idler w) : Type 0 where
  pub not_printed : flags.print_config ≡ false
  pub config_read :
      new w.viper (config_file_path flags.config (w.lookup_env "F8_CONFIG_FILE_PATH")) ≡ ok i.config
  pub config_good : All (IsGood w.to_upper w.parse_request_uri) (w.viper.all_settings i.config)
  pub token_sent :
      get_service_account_token (auth_client w i.config) (token_config w i.config)
      ≡ gives (ok i.tenant_service.auth_token)
  pub token_not_empty : i.tenant_service.auth_token ≢ ""
  pub features_chosen : create_feature_toggle w i.config ≡ goes_on i.feature_service
  pub clusters_complete : IsComplete w i.config i.tenant_service.auth_token i.clusters
  pub clusters_ready : All (IsReady w i.config i.tenant_service.auth_token) i.clusters

-- When main calls Run, the configuration was read from the file that the switch or else the
-- environment names, without the switch to print it, and each of its settings passes the checks of
-- Verify; the service account has a token, which is not empty and with which the tenant service is
-- asked; the features were chosen; the clusters are, in order, all those of the type OSO in the list
-- that the auth service sent; and each has a user of a name that is not empty, and a token that the
-- auth service sent for it, that the configured key decrypts, and that the cluster accepts.
pub main-IsStarted :
    (w : World) (flags : Flags) (i : Idler w) → main w flags ≡ goes_on i → IsStarted w flags i
unfolding main create_and_validate_configuration osio_token get_service_account_token
main-IsStarted w flags i h =
    let (config, made, h1) = bind_goes_on _ (after_config w) i h in
    let (token, got, h2) = bind_goes_on _ (after_token w config) i h1 in
    let (clusters, viewed, h3) = bind_goes_on _ (after_clusters w config token) i h2 in
    let (features, chosen, h4) =
      bind_goes_on _ (λ features. goes_on (idler w config token clusters features)) i h3 in
    let (quiet, read, fine) = configured-good w flags.print_config _ config made in
    let sent = or_panic_goes_on _ token got in
    let (complete, ready) =
      view-good w config token clusters
        (get_oauth_token_ok (auth_client w config) (token_config w config) token sent).0 viewed in
    let started : IsStarted w flags (idler w config token clusters features) = record {
      not_printed = quiet;
      config_read = read;
      config_good = (verify-empty_iff w.to_upper w.parse_request_uri _).0 fine;
      token_sent = sent;
      token_not_empty =
          (get_oauth_token_ok (auth_client w config) (token_config w config) token sent).0;
      features_chosen = chosen;
      clusters_complete = complete;
      clusters_ready = ready;
    } in
    subst (IsStarted w flags) (goes_on-injective h4) started
