-- ===== src/Tests/Starting.antt =====
-- A start of the program, with the settings that it prints and the tokens that it asks for.
use mathlib.Core.Bool.{false≢true}
use Prim.Native.String.{[], ◌∷◌}
use fabric8_jenkins_idler.Common.{
  ◌↔◌, second, ◌*◌, ◌==◌, if◌then◌else◌, err, arith, Time, String, eq_iff, ◌==◌, ◌<>◌, pos, true,
  false, List, [], ◌∷◌, none, some, Result, ok, err, nil_dereference, Any, ◌≡◌, ◌≢◌, inl, inr, refl,
  if◌then◌else◌,
}
use fabric8_jenkins_idler.Auth.Requests.{AuthServer, exchange_token, retrieve_token, show_clusters}
use fabric8_jenkins_idler.Auth.{Url, new_client}
use fabric8_jenkins_idler.Util.{str, empty, collect, is_not_empty, is_url}
use fabric8_jenkins_idler.Model.{Status, pod_running}
use fabric8_jenkins_idler.Model.Decoded.{
  StatusFields, quoted_field, has_quote, IsTime, unmarshal_status, unmarshal_status_iff,
}
use fabric8_jenkins_idler.Cluster.{get_cluster_view}
use fabric8_jenkins_idler.Configuration.{verify}
use fabric8_jenkins_idler.Configuration.Settings.{
  Viper, new, get_auth_url, get_auth_token_key, get_fixed_uuids, get_tenant_url,
}
use fabric8_jenkins_idler.OpenshiftClient.{who_am_i}
use fabric8_jenkins_idler.Toggles.{new_fixed_uuid_toggle}
use fabric8_jenkins_idler.Toggles.Unleash.{Unleash}
use fabric8_jenkins_idler.Tokens.{get_service_account_token}
use fabric8_jenkins_idler.Tokens.Decode.{Pgp, new_pgp_decrypter}
use fabric8_jenkins_idler.Tokens.Target.{ExternalToken, resolve_target_token}
use fabric8_jenkins_idler.UserIdler.{ask_enabled, Services, check_idle}
use fabric8_jenkins_idler.Program.{
  World, Flags, goes_on, stops, panics, create_and_validate_configuration, features_enabled, fixed,
  Idler, main,
}
use fabric8_jenkins_idler.Program.Crashed.{main_panics}
use fabric8_jenkins_idler.Program.Checked.{IsStarted, main-IsStarted}
use fabric8_jenkins_idler.Program.Features.{main-skips_unlisted}
use fabric8_jenkins_idler.Tests.Data.{
  alice, late, answering, machine_of, good, server, cluster_1, cluster_data,
}

abbrev setting : String → String
setting k =
    if k == "JC_AUTH_URL"
    then "https://auth"
    else if k == "JC_AUTH_TOKEN_KEY"
    then "key"
    else if k == "JC_F8TENANT_API_URL"
    then "https://tenant"
    else "value"

-- a registry that no environment changes
abbrev viper : Viper
viper = record {
  Registry = Unit;
  with_defaults = λ defaults. tt;
  read_in_config = λ path c. ok tt;
  get_string = λ c k. setting k;
  get_int = λ c k. pos 3;
  get_bool = λ c k. false;
  get_string_slice = λ c k. "2" ∷ [];
  all_settings = λ c.
      ("JC_AUTH_URL", str "https://auth") ∷ ("JC_AUTH_GRANT_TYPE", str "client_credentials") ∷ [];
}

abbrev unleash : Unleash
unleash = record {
  Handle = Unit;
  new_client = λ name url. ok tt;
  ready_after = λ c. some 1;
  is_enabled = λ c feature id fallback. fallback;
}

abbrev opened_by : Result String → Result (Result String)
opened_by (ok passphrase) = if passphrase == "key" then ok (ok "token") else err "wrong key"
opened_by (err e) = err e

abbrev pgp : Pgp
pgp = record { decode_base64 = λ s. ok s; read_message = λ enc prompt. opened_by (prompt 0) }

abbrev external : ExternalToken
external = record { username = "idler"; access_token = "c2VjcmV0" }

abbrev encoded : List (String × String) → String
encoded [] = ""
encoded ((k, v) ∷ values) = k <> ("=" <> (v <> ("&" <> encoded values)))

abbrev url : Url
url = record { scheme = "https"; host = "auth" }

-- an auth service that answers every request with 200
abbrev auth_server : AuthServer
auth_server = record {
  url_string = λ scheme host path query.
      if query == ""
      then scheme <> ("://" <> (host <> path))
      else scheme <> ("://" <> (host <> (path <> ("?" <> query))));
  encode_values = encoded;
  encode = λ payload kind. ok ("client_id=" <> payload.client_id);
  new_request = λ method url. ok tt;
  sign = λ token r. record r { authorization = some token };
  respond = λ r. ok good;
}

abbrev world : World
world = record {
  viper = viper;
  unleash = unleash;
  pgp = pgp;
  lookup_env = λ k. none;
  to_upper = λ k. k;
  parse_request_uri = λ s. true;
  parse_url = λ s. ok url;
  quote = λ s. s;
  auth_server = auth_server;
  decode_errors = λ r. ok [];
  decode_oauth_token = λ r. ok (some "secret");
  decode_external_token = λ r. ok external;
  decode_cluster_list = λ r. ok (record cluster_data { type = "OSD" } ∷ cluster_data ∷ []);
  openshift = server;
}

abbrev flags : Flags
flags = record { config = some "/etc/idler.yaml"; print_config = false }

abbrev idler : Idler world
idler = record {
  feature_service = fixed (record { uuids = "2" ∷ [] });
  tenant_service = record { tenant_service_url = "https://tenant"; auth_token = "secret" };
  clusters = cluster_1 ∷ [];
  config = tt;
}

starts : main world flags ≡ goes_on idler
unfolding main new empty verify collect is_not_empty is_url get_service_account_token new_client
    get_cluster_view resolve_target_token new_pgp_decrypter get_auth_token_key who_am_i
    get_fixed_uuids new_fixed_uuid_toggle get_tenant_url exchange_token show_clusters retrieve_token
starts = refl

main-IsStarted_example : IsStarted world flags idler
main-IsStarted_example = main-IsStarted world flags idler starts

-- the auth service refuses the account, by an error that has a code only
abbrev refusing : World
refusing = record world {
  auth_server = record auth_server { respond = λ r. ok (record good { status_code = 401 }) };
  decode_errors = λ r.
      ok ((record { title = none; status = none; code = some "unauthorized"; detail = "" }) ∷ []);
}

main_panics_example : main refusing flags ≡ stops (panics nil_dereference)
unfolding create_and_validate_configuration new empty verify collect is_not_empty is_url new_client
    get_auth_url exchange_token
main_panics_example =
    main_panics refusing flags tt
      (record { scheme = "https"; host = "auth"; jwt_signer = none; token = "" })
      (record good { status_code = 401 }) refl refl refl
      (omega arith, omega arith, (_, refl, inl (inl refl)))

-- the services of a user idler of the program, with the features that it has
abbrev for_listed : Services
for_listed = record (answering late pod_running) {
  is_idler_enabled = λ h id. features_enabled world idler.feature_service id;
}

alice-unlisted : ¬ Any (λ x. x ≡ alice.id) ("2" ∷ [])
alice-unlisted (inl e) = false≢true ((eq_iff "2" alice.id).1 e)
alice-unlisted (inr h) = h

listed-not_empty : get_fixed_uuids viper tt ≢ []
unfolding get_fixed_uuids
listed-not_empty e = cc

alice-unlisted_here : ¬ Any (λ x. x ≡ alice.id) (get_fixed_uuids viper tt)
unfolding get_fixed_uuids
alice-unlisted_here h = alice-unlisted h

main-skips_unlisted_example :
    check_idle for_listed (machine_of alice)
    ≡ (ok tt, record (machine_of alice) { calls = ask_enabled "1" ∷ [] })
main-skips_unlisted_example =
    main-skips_unlisted world flags idler for_listed (machine_of alice) starts (λ h id. refl)
      listed-not_empty alice-unlisted_here

-- as much of time.Parse as the field needs
abbrev parse : String → Result Time
parse s = if s == "2018-06-01T10:00:00Z" then ok (5 * second) else err "cannot parse"

-- a build that runs, and is not complete
abbrev fields : String → Result StatusFields
fields b = ok (record {
  phase = some "Running";
  start_timestamp = quoted_field (some "2018-06-01T10:00:00Z");
  completion_timestamp = quoted_field none;
})

abbrev run_status : Status
run_status = record { phase = "Running"; start_timestamp = 5 * second; completion_timestamp = 7 }

unmarshal_status_iff_example : (unmarshal_status (λ n. 7) parse fields "{}" ≡ ok run_status) ↔ (
    (run_status.phase ≡ "Running")
    × IsTime 7 7 parse (some "2018-06-01T10:00:00Z") run_status.start_timestamp
    × IsTime 7 7 parse none run_status.completion_timestamp)
unfolding has_quote
unmarshal_status_iff_example =
    unmarshal_status_iff (λ n. 7) parse fields "{}" (some "Running") (some "2018-06-01T10:00:00Z")
      none run_status refl tt refl
