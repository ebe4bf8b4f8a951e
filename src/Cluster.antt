-- ===== src/Cluster.antt =====
-- internal/cluster: the clusters that the auth service lists, their tokens, and the view of them.
pub mod Laws
pub mod Refused
pub mod Printed
use fabric8_jenkins_idler.Common.{
  String, GoError, ℕ, ◌==◌, ◌<>◌, has_suffix, nat_beq, not, Bool, true, false, List, [], ◌∷◌,
  Option, none, some, Result, ok, err, Attempt, gives, crashes, nil_dereference, map, find_first,
  if◌then◌else◌,
}
use fabric8_jenkins_idler.Http.{Response, status_ok}

pub record Cluster : Type 0 where
  pub api_url : String
  pub console_url : String
  pub metrics_url : String
  pub logging_url : String
  pub app_dns : String
  pub user : String
  pub token : String
  pub type : String

-- an entry of the auth service's list of clusters, by the fields that are read
pub record ClusterData : Type 0 where
  pub api_url : String
  pub console_url : String
  pub metrics_url : String
  pub logging_url : String
  pub app_dns : String
  pub type : String

-- an error of the answer of the auth service, by the fields that are read: pointers, but for one
pub record JsonApiError : Type 0 where
  pub title : Option String
  pub status : Option String
  pub code : Option String
  pub detail : String

abbrev pub osio_type : String
osio_type = "OSO"

abbrev pub status_not_found : ℕ
status_not_found = 404

unfoldable pub clean_url : String → String
clean_url url = if has_suffix url "/" then url else url <> "/"

-- the function that NewResolve returns
unfoldable pub resolve : List Cluster → String → Result Cluster
unfolding clean_url
resolve [] target = err "unable to resolve cluster"
resolve (c ∷ clusters) target =
    if clean_url target == clean_url c.api_url then ok c else resolve clusters target

pub record DnsView : Type 0 where
  pub api_url : String
  pub app_dns : String

unfoldable pub get_dns_view : List Cluster → List DnsView
get_dns_view [] = []
get_dns_view (c ∷ clusters) =
    record { api_url = c.api_url; app_dns = c.app_dns } ∷ get_dns_view clusters

unfoldable pub get_token : List Cluster → String → Option String
get_token [] url = none
get_token (c ∷ clusters) url = if c.api_url == url then some c.token else get_token clusters url

-- a line of the text that ValidateResponse makes of the errors, before the rest: `none` where it reads
-- a pointer that is nil
abbrev error_line :
    Option String → Option String → Option String → String → Option String → Option String
error_line (some title) (some status) (some code) detail (some rest) =
    some (title <> (": " <> (status <> (" " <> (code <> (", " <> (detail <> ("\n" <> rest))))))))
error_line _ _ _ _ _ = none

unfoldable pub error_text : List JsonApiError → Option String
error_text [] = some ""
error_text (e ∷ es) = error_line e.title e.status e.code e.detail (error_text es)

abbrev pub described : Option String → Attempt (Unit {0})
described none = crashes nil_dereference
described (some text) = gives (err text)

abbrev pub decoded_error : Result (List JsonApiError) → Attempt (Unit {0})
decoded_error (err e) = gives (err e)
decoded_error (ok []) = gives (ok tt)
decoded_error (ok (e ∷ es)) = described (error_text (e ∷ es))

-- auth.ValidateResponse, which returns an error or nil
unfoldable pub validate_response :
    (Response → Result (List JsonApiError)) → Response → Attempt (Unit {0})
unfolding error_text
validate_response decode_errors res =
    if nat_beq res.status_code status_not_found
    then gives (err "resource not found")
    else if not (nat_beq res.status_code status_ok)
    then decoded_error (decode_errors res)
    else gives (ok tt)

-- the auth service, the token resolver and the OpenShift client of a cluster service
pub record Sources : Type 0 where
  pub auth_url : String
  pub show_clusters : Result Response
  pub decode_errors : Response → Result (List JsonApiError)
  pub decode_cluster_list : Response → Result (List ClusterData)
  -- the user and the token of a cluster, by its API URL
  pub resolve_token : String → Attempt (String × String)
  pub who_am_i : String → String → Result String
  -- the verb `%q` of fmt
  pub quote : String → String

abbrev pub to_cluster : ClusterData → String → String → Cluster
to_cluster c user token = record {
  api_url = c.api_url;
  console_url = c.console_url;
  metrics_url = c.metrics_url;
  logging_url = c.logging_url;
  app_dns = c.app_dns;
  user = user;
  token = token;
  type = c.type;
}

abbrev pub cons : Cluster → Attempt (List Cluster) → Attempt (List Cluster)
cons c (gives (ok cs)) = gives (ok (c ∷ cs))
cons c r = r

-- the check of the token, with the clusters that follow
unfoldable pub verified : Cluster → Result String → Attempt (List Cluster) → Attempt (List Cluster)
verified c (err e) rest =
    gives (err (("token retrieved for cluster " <> (c.api_url <> " is invalid: ")) <> e))
verified c (ok name) rest = cons c rest

module _ (s : Sources) where
  -- the body of the loop for a cluster of the type, by the answer of the resolver
  unfoldable pub with_token :
      ClusterData → Attempt (String × String) → Attempt (List Cluster) → Attempt (List Cluster)
  unfolding verified
  with_token c (crashes e) rest = crashes e
  with_token c (gives (err e)) rest =
      gives (err (("unable to resolve token for cluster " <> (c.api_url <> ": ")) <> e))
  with_token c (gives (ok (user, token))) rest =
      verified (to_cluster c user token) (s.who_am_i c.api_url token) rest

  -- the loop of GetClusterView
  unfoldable pub collect_clusters : List ClusterData → Attempt (List Cluster)
  unfolding with_token
  collect_clusters [] = gives (ok [])
  collect_clusters (c ∷ data_) =
      let rest = collect_clusters data_ in
      if c.type == osio_type then with_token c (s.resolve_token c.api_url) rest else rest

  abbrev pub server_error : GoError → GoError
  server_error e = ("error from server " <> (s.quote s.auth_url <> ": ")) <> e

  abbrev pub listed : Result (List ClusterData) → Attempt (List Cluster)
  listed (err e) = gives (err (server_error e))
  listed (ok data_) = collect_clusters data_

  abbrev pub validated : Response → Attempt (Unit {0}) → Attempt (List Cluster)
  validated res (crashes e) = crashes e
  validated res (gives (err e)) = gives (err (server_error e))
  validated res (gives (ok _)) = listed (s.decode_cluster_list res)

  abbrev pub answered : Result Response → Attempt (List Cluster)
  answered (err e) = gives (err ("error while doing the request: " <> e))
  answered (ok res) = validated res (validate_response s.decode_errors res)

  -- GetClusterView, whose view is its clusters
  unfoldable pub get_cluster_view : Attempt (List Cluster)
  unfolding collect_clusters validate_response
  get_cluster_view = answered s.show_clusters
