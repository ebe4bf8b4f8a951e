-- ===== src/Program/Startup.antt =====
-- cmd/fabric8-jenkins-idler/main.go, NewService of internal/cluster/service.go, and the controllers
-- that Idler.watchOpenshiftEvents creates. The libraries and the servers are the record `World`.
use fabric8_jenkins_idler.Common.{
  String, GoError, ℕ, Bool, true, false, not, List, [], ◌∷◌, Option, none, some, Result, ok, err,
  Attempt, gives, crashes, map, if◌then◌else◌,
}
use fabric8_jenkins_idler.Http.{Response}
use fabric8_jenkins_idler.Auth.{Url, Client, new_client, set_jwt_signer}
use fabric8_jenkins_idler.Auth.Requests.{AuthServer, show_clusters, show_clusters_path}
use fabric8_jenkins_idler.Util.{empty}
use fabric8_jenkins_idler.Cluster.{Cluster, ClusterData, JsonApiError, Sources, get_cluster_view}
use fabric8_jenkins_idler.Configuration.{verify}
use fabric8_jenkins_idler.Configuration.Settings.{
  Viper, new, get_auth_url, get_auth_token_key, get_auth_grant_type, get_service_account_id,
  get_service_account_secret, get_tenant_url, get_toggle_url, get_fixed_uuids, get_max_retries,
  get_idle_after, get_idle_long_build,
}
use fabric8_jenkins_idler.Controller.{Config}
use fabric8_jenkins_idler.OpenshiftClient.{Server, who_am_i}
use fabric8_jenkins_idler.Tenant.{TenantService}
use fabric8_jenkins_idler.Toggles.{FixedUuidToggle, new_fixed_uuid_toggle, is_enabled}
use fabric8_jenkins_idler.Toggles.Unleash.{Unleash, new_unleash_toggle, unleash_enabled}
use fabric8_jenkins_idler.Tokens.{AuthClient, TokenConfig, get_service_account_token}
use fabric8_jenkins_idler.Tokens.Decode.{Decode, Pgp, new_pgp_decrypter}
use fabric8_jenkins_idler.Tokens.Target.{ExternalToken, TargetClient, resolve_target_token}

-- what the start takes from the environment, from libraries and from the servers
pub record World : Type 1 where
  pub viper : Viper
  pub unleash : Unleash
  pub pgp : Pgp
  -- os.LookupEnv
  pub lookup_env : String → Option String
  -- strings.ToUpper, url.ParseRequestURI, url.Parse and the verb `%q` of fmt
  pub to_upper : String → String
  pub parse_request_uri : String → Bool
  pub parse_url : String → Result Url
  pub quote : String → String
  -- the auth service, and the decoders of its generated client
  pub auth_server : AuthServer
  pub decode_errors : Response → Result (List JsonApiError)
  pub decode_oauth_token : Response → Result (Option String)
  pub decode_external_token : Response → Result ExternalToken
  pub decode_cluster_list : Response → Result (List ClusterData)
  -- the OpenShift servers, which are asked once each
  pub openshift : Server

-- the command line: `-config` if it was given, and `-printConfig`
pub record Flags : Type 0 where
  pub config : Option String
  pub print_config : Bool

-- the ends of the process: a panic, os.Exit, os.Exit, and Fatal, which exits with 1
pub data Exit : Type 0 where
  panics : GoError → Exit
  exits : ℕ → Exit
  fatal : GoError → Exit

pub data Startup {ℓ} (A : Type ℓ) : Type ℓ where
  goes_on : A → Startup A
  stops : Exit → Startup A

infixl 10 ◌>>=◌
abbrev pub ◌>>=◌ {ℓ κ} : {A : Type ℓ} {B : Type κ} → Startup A → (A → Startup B) → Startup B
goes_on a >>= f = f a
stops e >>= f = stops e

-- `if err != nil { … Fatal(…) }`
abbrev pub or_fatal {ℓ} : {A : Type ℓ} → Result A → Startup A
or_fatal (ok a) = goes_on a
or_fatal (err e) = stops (fatal e)

-- the same, where the call may panic
abbrev pub or_panic {ℓ} : {A : Type ℓ} → Attempt A → Startup A
or_panic (gives r) = or_fatal r
or_panic (crashes e) = stops (panics e)

abbrev or_empty : Option String → String
or_empty none = ""
or_empty (some s) = s

-- the path of the configuration file: the switch, if it was given, and the environment otherwise
unfoldable pub config_file_path : Option String → Option String → String
config_file_path (some path) env = path
config_file_path none env = or_empty env

module _ (w : World) where
  -- the two exits behind New
  abbrev pub checked : Bool → w.viper.Registry → Startup w.viper.Registry
  checked true c = stops (exits 0)
  checked false c =
      if not (empty (verify w.to_upper w.parse_request_uri (w.viper.all_settings c)))
      then stops (exits 1)
      else goes_on c

  abbrev pub configured : Bool → Result w.viper.Registry → Startup w.viper.Registry
  configured print_config (err e) = stops (panics e)
  configured print_config (ok c) = checked print_config c

  -- createAndValidateConfiguration
  unfoldable pub create_and_validate_configuration : Flags → Startup w.viper.Registry
  unfolding config_file_path
  create_and_validate_configuration flags =
      configured flags.print_config
        (new w.viper (config_file_path flags.config (w.lookup_env "F8_CONFIG_FILE_PATH")))

  pub data Features : Type 0 where
    fixed : FixedUuidToggle → Features
    unleashed : w.unleash.Handle → Features

  -- the method of the interface toggles.Features
  unfoldable pub features_enabled : Features → String → Result Bool
  features_enabled (fixed t) id = is_enabled t id
  features_enabled (unleashed c) id = unleash_enabled w.unleash c id

  abbrev pub as_fixed : Result FixedUuidToggle → Result Features
  as_fixed (ok t) = ok (fixed t)
  as_fixed (err e) = err e

  abbrev pub as_unleashed : Result w.unleash.Handle → Result Features
  as_unleashed (ok c) = ok (unleashed c)
  as_unleashed (err e) = err e

  -- createFeatureToggle, by the fixed list
  unfoldable pub toggle_for : String → List String → Startup Features
  toggle_for url [] = or_fatal (as_unleashed (new_unleash_toggle w.unleash url))
  toggle_for url (id ∷ ids) = or_fatal (as_fixed (new_fixed_uuid_toggle (id ∷ ids)))

  module _ (c : w.viper.Registry) where
    unfoldable pub create_feature_toggle : Startup Features
    unfolding toggle_for
    create_feature_toggle = toggle_for (get_toggle_url w.viper c) (get_fixed_uuids w.viper c)

    abbrev pub auth_client : AuthClient
    auth_client = record {
      parse_url = w.parse_url;
      auth_server = w.auth_server;
      decode_errors = w.decode_errors;
      decode_oauth_token = w.decode_oauth_token;
      quote = w.quote;
    }

    abbrev pub token_config : TokenConfig
    token_config = record {
      auth_url = get_auth_url w.viper c;
      service_account_id = get_service_account_id w.viper c;
      service_account_secret = get_service_account_secret w.viper c;
      auth_grant_type = get_auth_grant_type w.viper c;
    }

    unfoldable pub osio_token : Startup String
    osio_token = or_panic (get_service_account_token auth_client token_config)

    abbrev pub target_client : TargetClient
    target_client = record {
      parse_url = w.parse_url;
      auth_server = w.auth_server;
      decode_errors = w.decode_errors;
      decode_external_token = w.decode_external_token;
    }

    -- the user and the token of a cluster, as the cluster service asks for them
    abbrev pub resolve_for : String → Decode → String → Attempt (String × String)
    resolve_for service_token decode url =
        resolve_target_token target_client (get_auth_url w.viper c) url service_token false decode

    -- the clusterService
    abbrev pub service_of : String → Decode → Client → Sources
    service_of service_token decode client = record {
      auth_url = get_auth_url w.viper c;
      show_clusters = show_clusters w.auth_server client show_clusters_path;
      decode_errors = w.decode_errors;
      decode_cluster_list = w.decode_cluster_list;
      resolve_token = resolve_for service_token decode;
      who_am_i = λ url token. (who_am_i w.openshift url token []).0;
      quote = w.quote;
    }

    abbrev pub with_client : String → Decode → Result Client → Result Sources
    with_client service_token decode (err e) = err e
    with_client service_token decode (ok client) =
        ok (service_of service_token decode (set_jwt_signer service_token client))

    -- NewService
    unfoldable pub new_service : String → Decode → Result Sources
    new_service service_token decode =
        with_client service_token decode
          (new_client w.parse_url (get_auth_url w.viper c) service_token)

    unfoldable pub cluster_view : String → Startup (List Cluster)
    unfolding new_service
    cluster_view osio_token = do
      s ← or_fatal (new_service osio_token (new_pgp_decrypter w.pgp (get_auth_token_key w.viper c)))
      or_panic (get_cluster_view s)

  -- Idler by the fields that main hands to NewIdler
  pub record Idler : Type 0 where
    pub feature_service : Features
    pub tenant_service : TenantService
    pub clusters : List Cluster
    pub config : w.viper.Registry

  -- main, up to Idler.Run
  unfoldable pub main : Flags → Startup Idler
  unfolding create_and_validate_configuration osio_token cluster_view create_feature_toggle
  main flags = do
    config ← create_and_validate_configuration flags
    token ← osio_token config
    clusters ← cluster_view config token
    features ← create_feature_toggle config
    goes_on (record {
      feature_service = features;
      tenant_service = record {
        tenant_service_url = get_tenant_url w.viper config;
        auth_token = token;
      };
      clusters = clusters;
      config = config;
    })

  -- NewController's arguments for a cluster
  abbrev pub controller_config : w.viper.Registry → Cluster → Config
  controller_config config c = record {
    openshift_url = c.api_url;
    os_bearer_token = c.token;
    max_retries = get_max_retries w.viper config;
    idle_after = get_idle_after w.viper config;
    idle_long_build = get_idle_long_build w.viper config;
  }

  -- the controllers that watchOpenshiftEvents creates, in order
  unfoldable pub controllers : Idler → List Config
  controllers i = map (controller_config i.config) i.clusters
