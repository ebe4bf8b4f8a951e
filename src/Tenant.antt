-- ===== src/Tenant.antt =====
-- internal/tenant: the client of the tenant service. The service's answer to the HTTP request, and
-- `json.Unmarshal` into an `InfoList`, are arguments.
pub mod Capacity
use fabric8_jenkins_idler.Common.{
  String, ◌==◌, ◌<>◌, ℕ, ℤ, Bool, true, List, [], ◌∷◌, Option, none, some, Result, ok, err, ◌>>=◌,
  find_first, if◌then◌else◌,
}
use fabric8_jenkins_idler.Http.{Response}
use fabric8_jenkins_idler.Util.{ensure_suffix}

pub record Namespace : Type 0 where
  pub cluster_url : String
  pub name : String
  pub state : String
  pub type : String
  pub cluster_capacity_exhausted : Bool

pub record InfoData : Type 0 where
  pub id : String
  pub type : String
  pub email : String
  pub namespaces : List Namespace

-- `Error` of the tenant service
pub record TenantError : Type 0 where
  pub code : String
  pub detail : String

pub record InfoList : Type 0 where
  pub items : List InfoData
  pub total_count : ℤ
  pub errors : List TenantError

-- the GET request that GetTenantInfoByNamespace sends
pub record TenantRequest : Type 0 where
  pub url : String
  pub authorization : String
  pub master_url : String
  pub namespace : String

pub record TenantService : Type 0 where
  pub tenant_service_url : String
  pub auth_token : String

-- What the client needs of the world: whether http.NewRequest accepts a URL, the answer to the
-- request, and the decoder.
pub record TenantWorld : Type 0 where
  pub new_request : String → Result (Unit {0})
  pub send : TenantRequest → Result Response
  pub unmarshal : String → Result InfoList

-- GetTenantInfoByNamespace; the status code of the answer is not looked at.
unfoldable pub get_tenant_info_by_namespace :
    TenantWorld → TenantService → String → String → Result InfoList
get_tenant_info_by_namespace w t api_url ns = do
  let url = t.tenant_service_url <> "/api/tenants"
  w.new_request url >>= λ _. (do
    resp ← w.send (record {
      url = url;
      authorization = "Bearer " <> t.auth_token;
      master_url = ensure_suffix api_url "/";
      namespace = ns;
    })
    body ← resp.body
    w.unmarshal body)

-- `namespaces[indexOfNamespaceWithName(namespaces, name)]`, where the index is not -1
unfoldable pub namespace_with_name : List Namespace → String → Option Namespace
namespace_with_name namespaces name = find_first (λ ns. ns.name == name) namespaces

-- HasReachedMaxCapacity returns `true` beside each of its errors: the value and the error.
abbrev pub CapacityAnswer : Type 0
CapacityAnswer = Bool × Option String

found_capacity : String → Option Namespace → CapacityAnswer
found_capacity ns none = (true, some ("Failed to find " <> (ns <> " in tenant info")))
found_capacity ns (some jenkins) = (jenkins.cluster_capacity_exhausted, none)

capacity_of : String → List TenantError → List InfoData → CapacityAnswer
unfolding namespace_with_name found_capacity
capacity_of ns (e ∷ es) items = (true, some (e.code <> (" - " <> e.detail)))
capacity_of ns [] [] = (true, some ("Failed to fetch tenant information for " <> ns))
capacity_of ns [] (d ∷ ds) = found_capacity ns (namespace_with_name d.namespaces ns)

-- HasReachedMaxCapacity
unfoldable pub has_reached_max_capacity :
    TenantWorld → TenantService → String → String → CapacityAnswer
unfolding capacity_of
has_reached_max_capacity w t api_url ns = elim (get_tenant_info_by_namespace w t api_url ns) [
  | err e ↦ (true, some e)
  | ok ti ↦ capacity_of ns ti.errors ti.items
]

-- the same as a value or an error, which is what its callers read
unfoldable pub reached_max_capacity : TenantWorld → TenantService → String → String → Result Bool
unfolding has_reached_max_capacity
reached_max_capacity w t api_url ns = elim (has_reached_max_capacity w t api_url ns).1 [
  | none ↦ ok (has_reached_max_capacity w t api_url ns).0
  | some e ↦ err e
]
