-- ===== src/Tenant/Capacity.antt =====
-- What HasReachedMaxCapacity answers.
use fabric8_jenkins_idler.Common.{
  String, ◌==◌, true, List, [], ◌∷◌, Option, none, some, ok, ◌≡◌, refl, ◌⊎◌, inl, inr,
  find_first-IsFirst, IsFirst, Result-cases,
}
use fabric8_jenkins_idler.Tenant.{
  Namespace, TenantError, InfoData, InfoList, TenantWorld, TenantService,
  get_tenant_info_by_namespace, namespace_with_name, has_reached_max_capacity, CapacityAnswer,
  capacity_of, found_capacity,
}

-- The entry of an answer for the namespace: the first of the first tenant's namespaces with that
-- name, where the answer holds no error.
pub record Reports (ti : InfoList) (ns : String) (n : Namespace) : Type 0 where
  pub first : InfoData
  pub others : List InfoData
  pub no_errors : ti.errors ≡ []
  pub tenant : ti.items ≡ first ∷ others
  pub found : IsFirst (λ (m : Namespace). m.name == ns) first.namespaces n

abbrev pub HasError : CapacityAnswer → Type 0
HasError r = (r.0 ≡ true) × ((e : String) × (r.1 ≡ some e))

capacity_found :
    (ti : InfoList) (ns : String) (d : InfoData) (ds : List InfoData) (r : Option Namespace)
    → ti.errors ≡ []
    → ti.items ≡ d ∷ ds
    → namespace_with_name d.namespaces ns ≡ r
    → ((n : Namespace) × Reports ti ns n
        × (found_capacity ns r ≡ (n.cluster_capacity_exhausted, none)))
      ⊎ HasError (found_capacity ns r)
unfolding namespace_with_name found_capacity
capacity_found ti ns d ds none a b h = inr (refl, (_, refl))
capacity_found ti ns d ds (some n) a b h = inl (
  n,
  record {
    first = d;
    others = ds;
    no_errors = a;
    tenant = b;
    found = find_first-IsFirst _ d.namespaces n h;
  },
  refl,
)

capacity_cases :
    (ti : InfoList) (ns : String) (es : List TenantError) (items : List InfoData)
    → ti.errors ≡ es
    → ti.items ≡ items
    → ((n : Namespace) × Reports ti ns n
        × (capacity_of ns es items ≡ (n.cluster_capacity_exhausted, none)))
      ⊎ HasError (capacity_of ns es items)
unfolding capacity_of
capacity_cases ti ns (e ∷ es) items a b = inr (refl, (_, refl))
capacity_cases ti ns [] [] a b = inr (refl, (_, refl))
capacity_cases ti ns [] (d ∷ ds) a b = capacity_found ti ns d ds _ a b refl

-- Either the service answered without errors and reports the namespace for the first tenant, and
-- the result is that namespace's `ClusterCapacityExhausted` with no error; or the result is an
-- error beside `true`.
pub has_reached_max_capacity_cases :
    (w : TenantWorld) (t : TenantService) (api ns : String)
    → ((ti : InfoList) × (n : Namespace) × (get_tenant_info_by_namespace w t api ns ≡ ok ti)
        × Reports ti ns n
        × (has_reached_max_capacity w t api ns ≡ (n.cluster_capacity_exhausted, none)))
      ⊎ HasError (has_reached_max_capacity w t api ns)
unfolding has_reached_max_capacity
has_reached_max_capacity_cases w t api ns =
    elim (Result-cases (get_tenant_info_by_namespace w t api ns)) [
      | inr (e, h) ↦ inr (rw (h, has_reached_max_capacity) (refl, (e, refl)))
      | inl (ti, h) ↦ elim (capacity_cases ti ns ti.errors ti.items refl refl) [
        | inl (n, r, c) ↦ inl (ti, n, h, r, rw (h, has_reached_max_capacity) c)
        | inr x ↦ inr (rw (h, has_reached_max_capacity) x)
      ]
    ]
